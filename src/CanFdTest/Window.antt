-- ===== src/CanFdTest/Window.antt =====
-- `can_echo_gen` and `can_echo_dut` of canfdtest.c, round by round.
use can_utils.Base.{
  ℕ, ◌+◌, ◌-◌, ◌%◌, ◌^◌, List, [], ◌∷◌, Bool, true, false, not, ◌&&◌, ◌||◌, ◌==◌, ltb, leb,
  if◌then◌else◌, is_set, bit_and, bit_or,
}
use can_utils.Frame.{Cu, canfd_brs}
use can_utils.CanFdTest.{Options, ping_frame, inc_frame, compare_frame, check_frame}

-- The options of both loops.
pub record Setup : Type 0 where
  pub options : Options
  pub filter : ℕ
  pub inflight_count : ℕ
  pub test_loops : ℕ
  pub bit_rate_switch : Bool

-- What `send` returns: the whole frame, a part of it, ENOBUFS or another error.
pub data Sent : Type 0 where
  whole : Sent
  short : Sent
  enobufs : Sent
  send_failed : Sent

pub data SendEnd : Type 0 where
  success : SendEnd
  failure : SendEnd
  waiting : SendEnd

-- The loop of `send_frame` over the results of its calls of `send`.
unfoldable pub send_frame : List Sent → SendEnd
send_frame [] = waiting
send_frame (whole ∷ results) = success
send_frame (short ∷ results) = failure
send_frame (enobufs ∷ results) = send_frame results
send_frame (send_failed ∷ results) = failure

-- What `send_frame` does to the frame.
abbrev pub mark_brs : Setup → Cu → Cu
mark_brs g frame = record frame {
  flags = if g.bit_rate_switch then bit_or frame.flags canfd_brs else frame.flags;
}

-- What `recv_frame` yields: a frame with its flags, or an error.
pub data Recv : Type 0 where
  received : Cu → ℕ → Recv
  recv_failed : Recv

-- What the calls of a round return.
pub record Input : Type 0 where
  pub sends : List Sent
  pub recv : Recv

abbrev pub msg_dontroute : ℕ
msg_dontroute = 0x04

abbrev pub msg_confirm : ℕ
msg_confirm = 0x800

-- The variables of `can_echo_gen`; `err` is true for -1.
pub record Window : Type 0 where
  pub tx_frames : ℕ → Cu
  pub recv_tx : ℕ → Bool
  pub counter : ℕ
  pub send_pos : ℕ
  pub recv_rx_pos : ℕ
  pub recv_tx_pos : ℕ
  pub unprocessed : ℕ
  pub loops : ℕ
  pub err : Bool
  pub running : Bool

abbrev pub no_frame : Cu
no_frame = record { can_id = 0; len = 0; flags = 0; res0 = 0; len8_dlc = 0; body = [] }

abbrev pub start_window : Window
start_window = record {
  tx_frames = λ i. no_frame;
  recv_tx = λ i. false;
  counter = 0;
  send_pos = 0;
  recv_rx_pos = 0;
  recv_tx_pos = 0;
  unprocessed = 0;
  loops = 0;
  err = false;
  running = true;
}

abbrev pub store_at {ℓ} : {A : Type ℓ} → (ℕ → A) → ℕ → A → ℕ → A
store_at f i x j = if j == i then x else f j

-- A round of a loop: it goes on, or it ends with a result, or it still waits in `send_frame`.
pub data Round : Type 0 where
  next : Window → Round
  ended : Bool → Window → Round
  blocked : Round

-- A frame that the option -xx ignores.
abbrev pub ignored : Setup → Cu → ℕ → Bool
ignored g frame flags =
    ltb 1 g.filter
    && ((frame.can_id == g.options.can_id_ping && not (is_set (bit_and flags msg_confirm)))
        || (frame.can_id == g.options.can_id_pong && is_set (bit_and flags msg_dontroute)))

-- The frame in the slot `send_pos`, filled in.
unfoldable pub fill : Setup → Window → Cu
fill g w =
    mark_brs g (record (ping_frame g.options w.counter) { flags = (w.tx_frames w.send_pos).flags })

unfoldable pub send_round : Setup → Window → List Sent → Round
send_round g w results =
    let stored = record w {
      tx_frames = store_at w.tx_frames w.send_pos (fill g w);
      recv_tx = store_at w.recv_tx w.send_pos false;
    } in
    elim (send_frame results) [
      | success ↦ next (record stored {
        send_pos = (w.send_pos + 1) % g.inflight_count;
        unprocessed = w.unprocessed + 1;
        counter = (w.counter + 1) % 2 ^ 8;
      })
      | failure ↦ ended true (record stored { err = true })
      | waiting ↦ blocked
    ]

-- A frame of the host's own comes back.
unfoldable pub confirm_round : Setup → Window → Cu → Window
confirm_round g w rx_frame =
    let same = compare_frame g.options (w.tx_frames w.recv_tx_pos) rx_frame 0 in
    record w {
      err = not same;
      running = w.running && same;
      recv_tx = store_at w.recv_tx w.recv_tx_pos true;
      recv_tx_pos = (w.recv_tx_pos + 1) % g.inflight_count;
    }

-- Any other frame is taken for an answer.
unfoldable pub answer_round : Setup → Window → Cu → Round
answer_round g w rx_frame =
    let same = compare_frame g.options (w.tx_frames w.recv_rx_pos) rx_frame 1 in
    let after = record w {
      err = not same;
      running = w.running && (w.recv_tx w.recv_rx_pos && same);
      recv_rx_pos = (w.recv_rx_pos + 1) % g.inflight_count;
      loops = w.loops + 1;
    } in
    if is_set g.test_loops && leb g.test_loops (w.loops + 1)
    then ended (not same) after
    else next (record after { unprocessed = w.unprocessed - 1 })

unfoldable pub receive_round : Setup → Window → Recv → Round
receive_round g w recv_failed = ended true (record w { err = true })
receive_round g w (received rx_frame flags) =
    if ignored g rx_frame flags
    then next w
    else if is_set (bit_and flags msg_confirm)
    then next (confirm_round g w rx_frame)
    else answer_round g w rx_frame

unfoldable pub gen_round : Setup → Window → Input → Round
gen_round g w i =
    if not w.running
    then ended w.err w
    else if ltb w.unprocessed g.inflight_count
    then send_round g w i.sends
    else receive_round g w i.recv

-- The loop over rounds, while there is input.
unfoldable pub can_echo_gen : Setup → Window → List Input → Round
can_echo_gen g w [] = next w
can_echo_gen g w (i ∷ inputs) = elim (gen_round g w i) [
  | next after ↦ can_echo_gen g after inputs
  | ended err after ↦ ended err after
  | blocked ↦ blocked
]

-- The answer of the device under test.
abbrev pub dut_answer : Setup → Cu → Cu
dut_answer g frame = mark_brs g (inc_frame g.options frame)

-- A round of `can_echo_dut`: the loop goes on with the `err` of the frame and the answer that was
-- sent, or it ends.
pub data DutRound : Type 0 where
  skipped : DutRound
  answered : Bool → Cu → DutRound
  dut_ended : DutRound
  dut_blocked : DutRound

unfoldable pub can_echo_dut : Setup → Input → DutRound
can_echo_dut g i = elim i.recv [
  | received frame flags ↦
      if ltb 1 g.filter && is_set (bit_and flags msg_dontroute)
      then skipped
      else elim (send_frame i.sends) [
        | success ↦ answered (not (check_frame g.options frame)) (dut_answer g frame)
        | failure ↦ dut_ended
        | waiting ↦ dut_blocked
      ]
  | recv_failed ↦ dut_ended
]
