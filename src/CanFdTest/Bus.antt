-- ===== src/CanFdTest/Bus.antt =====
-- A bus between the host and the device that loses and reorders nothing, and what the state of the
-- host is on it.
use can_utils.Base.{
  ℕ, ◌+◌, ◌%◌, ◌^◌, ◌≤◌, ◌<◌, Bool, true, false, ltb, is_set, bit_and, ◌≡◌, ◌≢◌, ◌⊎◌,
}
use can_utils.Frame.{Cu}
use can_utils.CanFdTest.{set_ids, ping_frame}
use can_utils.CanFdTest.Echo.{NextInRange}
use can_utils.CanFdTest.Window.{
  can_echo_dut, answered, Setup, success, send_frame, received, Input, msg_dontroute, msg_confirm,
  Window, start_window, Round, next, ended, blocked, ignored, gen_round,
}

-- What both checks look at.
pub record Same (f h : Cu) : Type 0 where
  pub can_id : f.can_id ≡ h.can_id
  pub len : f.len ≡ h.len
  pub body : f.body ≡ h.body

-- How many frames were sent, came back, and were answered.
pub record Net : Type 0 where
  pub sent : ℕ
  pub confirmed : ℕ
  pub answered : ℕ

-- The options after `main` has normalized the identifiers.
abbrev pub ready : Setup → Setup
ready g = record g { options = set_ids g.options }

-- The `i`-th frame that the host sends.
abbrev pub ping : Setup → ℕ → Cu
ping g i = ping_frame (set_ids g.options) (i % 2 ^ 8)

-- The device under test reads `f` and sends `reply`.
pub record Replies (g : Setup) (f reply : Cu) : Type 0 where
  pub input : Input
  pub seen : Cu
  pub flags : ℕ
  pub err : Bool
  pub came : input.recv ≡ received seen flags
  pub same : Same seen f
  pub answers : can_echo_dut g input ≡ answered err reply

-- What a round meets on a bus that loses and reorders nothing: the frame is sent; the next own
-- frame comes back; the next answer of the device comes, once its own frame came back; or a frame
-- that is ignored.
pub data Brings (g : Setup) (n : Net) (w : Window) (i : Input) : Net → Type 0 where
  sends :
      ltb w.unprocessed g.inflight_count ≡ true
      → send_frame i.sends ≡ success
      → Brings g n w i (record n { sent = n.sent + 1 })
  confirms :
      (frame : Cu) (flags : ℕ)
      → ltb w.unprocessed g.inflight_count ≡ false
      → n.confirmed < n.sent
      → i.recv ≡ received frame flags
      → Same frame (ping g n.confirmed)
      → is_set (bit_and flags msg_confirm) ≡ true
      → Brings g n w i (record n { confirmed = n.confirmed + 1 })
  answers :
      (frame reply : Cu) (flags : ℕ)
      → ltb w.unprocessed g.inflight_count ≡ false
      → n.answered < n.confirmed
      → i.recv ≡ received frame flags
      → Replies (ready g) (ping g n.answered) reply
      → Same frame reply
      → is_set (bit_and flags msg_confirm) ≡ false
      → is_set (bit_and flags msg_dontroute) ≡ false
      → Brings g n w i (record n { answered = n.answered + 1 })
  strays :
      (frame : Cu) (flags : ℕ)
      → ltb w.unprocessed g.inflight_count ≡ false
      → i.recv ≡ received frame flags
      → ignored (ready g) frame flags ≡ true
      → Brings g n w i n

-- The options for which the host and the device agree.
pub record IsSetup (g : Setup) : Type 0 where
  pub in_range : NextInRange g.options
  pub window : 0 < g.inflight_count
  pub distinct :
      (g.filter ≤ 1) ⊎ ((set_ids g.options).can_id_ping ≢ (set_ids g.options).can_id_pong)

-- The state of the host while the numbers are `n`.
pub record IsWindow (g : Setup) (n : Net) (w : Window) : Type 0 where
  pub running : w.running ≡ true
  pub err : w.err ≡ false
  pub counter : w.counter ≡ n.sent % 2 ^ 8
  pub send_pos : w.send_pos ≡ n.sent % g.inflight_count
  pub recv_tx_pos : w.recv_tx_pos ≡ n.confirmed % g.inflight_count
  pub recv_rx_pos : w.recv_rx_pos ≡ n.answered % g.inflight_count
  pub unprocessed : n.sent ≡ n.answered + w.unprocessed
  pub in_flight : w.unprocessed ≤ g.inflight_count
  pub order : (n.answered ≤ n.confirmed) × (n.confirmed ≤ n.sent)
  pub loops : w.loops ≡ n.answered
  pub unfinished : (g.test_loops ≡ 0) ⊎ (w.loops < g.test_loops)
  pub slots :
      (i : ℕ) → n.answered ≤ i → i < n.sent → Same (w.tx_frames (i % g.inflight_count)) (ping g i)
  pub back : (i : ℕ) → n.answered ≤ i → i < n.confirmed → w.recv_tx (i % g.inflight_count) ≡ true

-- What a round may leave: the state, or the end of the test with no error after as many answers as
-- were asked for.
abbrev pub Keeps : Setup → Net → Round → Type 0
Keeps g n (next w) = IsWindow g n w
Keeps g n (ended err w) = (err ≡ false) × ((g.test_loops ≢ 0) × (w.loops ≡ g.test_loops))
Keeps g n blocked = ⊥

-- The numbers that a run of the host can reach on such a bus, and its state.
pub data Reaches (g : Setup) : Net → Window → Type 0 where
  start : Reaches g (record { sent = 0; confirmed = 0; answered = 0 }) start_window
  then_round :
      {n m : Net} {w after : Window}
      → Reaches g n w
      → (i : Input) → Brings g n w i m
      → gen_round (ready g) w i ≡ next after
      → Reaches g m after
