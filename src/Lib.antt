-- ===== src/Lib.antt =====
-- A model of can-utils, the user space tools of SocketCAN, and what is proved of it.
--
-- The tools share lib.c, which turns CAN frames into text and back, and canframelen.c, which
-- computes how long a frame takes on the wire. candump, cangen, cansend, canplayer and the log
-- converters print and parse their frames with the first; canbusload and cangen measure the bus
-- with the second.
--
-- Base holds what the parts share: comparisons of numbers that compute, lists, options, lemmas on
-- bits, and statements that are checked at every value of a small range.
-- Frame is the structures of include/linux/can.h. `can_frame`, `canfd_frame` and `canxl_frame`
-- share their bytes in the union `cu_t` of lib.h: the record `Cu` has the fields of the first two,
-- its body holds the bytes from offset 8 on, and the fields of the third are read from the same
-- places, little-endian.
-- Hex is the digits at the top of lib.c, `asc2nibble` and `hexstring2data`. Dlc is the two tables
-- of CAN FD lengths.
-- CanFrame is `parse_canframe` (CanFrame/Parse) and `snprintf_canframe` (CanFrame/Print). The
-- parser's string is its characters and a function for the memory behind its NUL, for the code
-- reads at fixed offsets that a short string does not reach. The C function continues in one body
-- where the model has one function for each kind of frame. A call of the printer is the text in
-- the buffer and the value returned. The other files of CanFrame hold the proofs: Spells says that
-- a text stands in the parser's string, and IdRoundTrip, DataRoundTrip and XlHeader read the parts
-- back.
-- LongFrame is `snprintf_long_canframe`, the text in columns, with the bits of its view as a record.
-- The C function writes at offsets of a buffer that it first fills with blanks; the model joins the
-- parts and the blanks between them.
-- ErrorText is `snprintf_can_error_frame`. Its state is the string in the buffer, the index `n` and the
-- end of the bytes written; the room that is left is a `size_t` that wraps round. ErrorText/Reference
-- is the text without a buffer.
-- Time is `timespec_diff_ms` and `timespec_add_ms`, the seconds and the difference as integers of
-- Base/Int that wrap round as an `int64_t` does.
-- FrameLen is canframelen.c: FrameLen/Crc the CRC, FrameLen/Stuff the loop that counts stuff bits,
-- with the rule of bit stuffing in FrameLen/Stuff/Reference, and FrameLen/Length the bitmaps and the
-- two length functions.
-- J1939Acd is the daemon of j1939acd.c: the table of the names that are heard, `lookup_name` and
-- `choose_new_sa`; J1939Acd/Loop is the loop of its `main`, one function for each case of its two
-- switches. A round is given what `bind` and `sendto` return and the message that `recvfrom`
-- delivers, and yields the next state with the calls that are made, or the end of the program. A
-- signal is a field that is already set when the round starts.
-- CanFdTest is the frames of canfdtest.c: what the host sends, what the device under test makes of
-- it, and what each of them checks. CanFdTest/Window is the loops `can_echo_gen` and `can_echo_dut`, a
-- round at a time: a round is given what `send` and `recvmsg` return, and yields the next state or
-- the end. The arrays `tx_frames` and `recv_tx` are functions from slots. CanFdTest/Bus is a bus
-- with the device on it, as a relation between the numbers of the frames sent, come back and
-- answered; Ring, Device, Flight and Loss hold the proofs.
--
-- CanSequence is `do_send` and `do_receive` of cansequence.c. The sender is given what `write` and
-- `poll` return, the receiver the messages that `recvmsg` delivers.
-- SlcanPty is slcanpty.c. `pty2can` is SlcanPty/Loop, its commands are SlcanPty/Command, with
-- `strtoul` of the C library in SlcanPty/Strtoul; `can2pty` is SlcanPty/Print. The static variables
-- are a record, the buffer is a function from indices to bytes, and a call is given the bytes that
-- `read` delivers and whether its writes succeed; it yields its result, the next state, the frames
-- that went to the socket and the answers. The label `rx_restart` is a function that calls itself.
-- SlcanPty/Arrays, Digits and Line say what the loops make of a text in the buffer.
--
-- IsobusServer is the file server of isobusfs. IsobusServer/Handles is the table of open files in
-- isobusfs/isobusfs_srv_fa.c, `priv->handles`: its searches, `isobusfs_srv_request_file`,
-- `isobusfs_srv_release_handle` and `isobusfs_srv_remove_client_from_handles`, with the calls of
-- close and closedir as a list. Clients are the indices of their slots. IsobusServer/Open is the
-- Open File and Close File Requests with what the file system answers as a parameter;
-- IsobusServer/History takes them from the messages of isobusfs/isobusfs_srv.c and joins them with
-- the time-outs of clients. IsobusServer/Directory is the listing of a directory,
-- IsobusServer/Connections the table of the clients in isobusfs/isobusfs_srv_cm.c,
-- `priv->clients`, with the set-up of a socket as a parameter. IsobusServer/Paths is the paths of
-- isobusfs/isobusfs_srv_dh.c, `isobusfs_convert_relative_to_absolute` and
-- `isobusfs_path_to_linux_path`: what is left of the relative path is a list, and so is the
-- absolute path up to its position, last character first. Its other files hold the proofs, Normal,
-- Names and Resolve on names with one backslash between them, Bounds and Termination on the
-- buffer.
--
-- Numbers of C types are natural numbers, with the truncation written where the code truncates.
-- The loops are structural recursion on what is left to do. The stuffing loop of `cfl_exact` runs
-- on fuel of 256 rounds: a frame has at most 119 bits, of which two rounds leave at least one
-- behind. `rx_restart` runs on fuel of 200, the size of its buffer: every command takes at least one
-- byte from it. The loop over a relative path has one round more than the path has characters; a
-- round reads one at least.
--
-- Not modelled: the bit timing calculation of calc-bit-timing, the range parser and the cache file of
-- j1939acd.c, and the tools that mostly do input and output on sockets and terminals: candump.c,
-- cangen.c, cangw.c, cansniffer.c, canbusload.c, canplayer.c, the log converters, the ISO-TP tools,
-- the client of isobusfs, the other J1939 tools and mcp251xfd. Of the isobusfs server, reading and
-- seeking in a file, the messages, the change of the current directory and the status messages are
-- not modelled.
pub mod Base
pub mod CanFdTest
pub mod CanFrame
pub mod CanSequence
pub mod Dlc
pub mod ErrorText
pub mod Frame
pub mod FrameLen
pub mod Hex
pub mod IsobusServer
pub mod J1939Acd
pub mod LongFrame
pub mod SlcanPty
pub mod Time
