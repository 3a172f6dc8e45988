-- ===== src/CanSequence.antt =====
-- cansequence.c: a sender that numbers its frames, and a receiver that looks for gaps. What is
-- only printed is left out: the wrap-around counters and the verbose lines.
pub mod Send
pub mod Receive
mod Tests
use can_utils.Base.{
  ℕ, zero, suc, ◌+◌, ◌-◌, ◌%◌, ◌^◌, ◌*◌, List, [], ◌∷◌, Bool, true, false, ◌&&◌, ◌||◌, ◌==◌, Option,
  none, some, ◌>>=◌, if◌then◌else◌, is_set, bit_and,
}
use can_utils.Frame.{can_err_flag, can_mtu, canfd_mtu}

-- The options, as `main` leaves them.
pub record Options : Type 0 where
  pub infinite : Bool
  pub canfd : Bool
  pub canfd_strict : Bool
  pub use_poll : Bool
  pub drop_until_quit : ℕ

-- `infinite || loopcount--`, and what it leaves in `loopcount`.
abbrev pub more : Options → ℕ → Bool
more o loopcount = o.infinite || is_set loopcount

abbrev pub count_down : Options → ℕ → ℕ
count_down o loopcount = if o.infinite then loopcount else loopcount - 1

-- What `poll` returns: a ready socket, a timeout, or an error.
pub data Poll : Type 0 where
  ready : Poll
  timeout : Poll
  poll_eintr : Poll
  poll_error : Poll

-- What `write` returns, with the answer of `poll` where the buffers are full.
pub data Write : Type 0 where
  written : Write
  enobufs : Poll → Write
  eintr : Write
  write_error : Write

-- Whether a failed `write` is tried again; otherwise the program exits.
unfoldable pub again : Options → Write → Bool
again o written = false
again o (enobufs ready) = o.use_poll
again o (enobufs timeout) = false
again o (enobufs poll_eintr) = o.use_poll
again o (enobufs poll_error) = false
again o eintr = true
again o write_error = false

pub record Sender : Type 0 where
  pub first_byte : ℕ
  pub sequence : ℕ

pub data Ended : Type 0 where
  stopped : Sender → Ended
  exited : Ended

unfoldable pub next_frame : Sender → Sender
next_frame s = record {
  first_byte = (s.first_byte + 1) % 2 ^ 8;
  sequence = (s.sequence + 1) % 2 ^ 8;
}

-- From the label `again` on: the frames that are written, by their first byte, and how the loop
-- ends. When the results of `write` end, the loop is stopped by a signal.
unfoldable pub send_from : Options → ℕ → Sender → List Write → List ℕ × Ended
send_from o loopcount s [] = ([], stopped s)
send_from o loopcount s (written ∷ results) =
    let rest = send_from o (count_down o loopcount) (next_frame s) results in
    if more o loopcount
    then (s.first_byte ∷ rest.0, rest.1)
    else (s.first_byte ∷ [], stopped (next_frame s))
send_from o loopcount s (w ∷ results) =
    let rest = send_from o loopcount s results in if again o w then rest else ([], exited)

unfoldable pub do_send : Options → ℕ → Sender → List Write → List ℕ × Ended
do_send o loopcount s results =
    if more o loopcount then send_from o (count_down o loopcount) s results else ([], stopped s)

-- A received frame: its identifier, its first byte, the size that `recvmsg` returns, and the
-- counter of the SO_RXQ_OVFL control message if there is one.
pub record Message : Type 0 where
  pub can_id : ℕ
  pub first_byte : ℕ
  pub nbytes : ℕ
  pub overflow : Option ℕ

pub record Receiver : Type 0 where
  pub sequence_init : Bool
  pub sequence : ℕ
  pub overflow_old : ℕ
  pub drop_count : ℕ

abbrev pub start_receiver : Receiver
start_receiver = record { sequence_init = true; sequence = 0; overflow_old = 0; drop_count = 0 }

abbrev pub counter_of : Option ℕ → ℕ
counter_of none = 0
counter_of (some n) = n

-- A frame with a number: a wrong one is counted, and then followed. `none` is an exit.
unfoldable pub compare_sequence : Options → Message → Receiver → Option Receiver
compare_sequence o m r =
    let sequence = if r.sequence_init then m.first_byte else r.sequence in
    let sequence_delta = (m.first_byte + 2 ^ 8 - sequence % 2 ^ 8) % 2 ^ 8 in
    let drop_count = (r.drop_count + 1) % 2 ^ 32 in
    if is_set sequence_delta
    then if drop_count == o.drop_until_quit
      then none
      else some (record {
        sequence_init = false;
        sequence = (m.first_byte + 1) % 2 ^ 32;
        overflow_old = counter_of m.overflow;
        drop_count = drop_count;
      })
    else some (record r { sequence_init = false; sequence = (sequence + 1) % 2 ^ 32 })

-- One round of the loop of `do_receive`.
unfoldable pub receive_one : Options → Message → Receiver → Option Receiver
receive_one o m r =
    if is_set (bit_and m.can_id can_err_flag)
    then some r
    else if o.canfd_strict && m.nbytes == can_mtu
    then some r
    else compare_sequence o m r

unfoldable pub do_receive : Options → ℕ → Receiver → List Message → Option Receiver
do_receive o loopcount r [] = some r
do_receive o loopcount r (m ∷ ms) =
    let rest : Option Receiver = do
      next ← receive_one o m r
      do_receive o (count_down o loopcount) next ms
    in if more o loopcount then rest else some r
