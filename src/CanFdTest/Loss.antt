-- ===== src/CanFdTest/Loss.antt =====
-- What the host does when an answer is lost.
use can_utils.Base.{
  ℕ, ◌+◌, ◌-◌, ◌%◌, ◌^◌, ◌≤◌, ◌<◌, true, false, not, ◌&&◌, leb, is_set, ltb, ◌≡◌, ◌≢◌, ap, arith,
  ◌∙◌, bit_and, Bool, if◌then◌else◌, zero, suc,
}
use can_utils.Frame.{Cu}
use can_utils.CanFdTest.{
  Options, set_ids, count_bytes, ping_frame, inc_frame, bytes_match, compare_frame,
}
use can_utils.CanFdTest.Echo.{get_or-count_bytes, get_or-inc_bytes}
use can_utils.CanFdTest.Window.{
  Setup, Input, received, msg_confirm, msg_dontroute, gen_round, receive_round, Window, Round, next,
  ended, blocked, dut_answer, answer_round,
}
use can_utils.CanFdTest.Bus.{Replies, Same, Net, ready, ping, IsSetup, IsWindow, Reaches}
use can_utils.CanFdTest.Device.{Same-Replies}
use can_utils.CanFdTest.Flight.{compare_frame-Same, slot_at, answer_shown, Reaches-IsWindow}

-- A round behind which the loop does not go on without a report.
abbrev pub Stops : Round → Type 0
Stops (next w) = (w.err ≡ true) × (w.running ≡ false)
Stops (ended err w) = err ≡ true
Stops blocked = ⊥

Stops-if : (b : Bool) (r t : Round) → Stops r → Stops t → Stops (if b then r else t)
Stops-if true r t h k = h
Stops-if false r t h k = k

-- The first bytes differ.
first_differs :
    (o : Options) (k l n : ℕ)
    → 0 < n
    → n ≤ o.msg_len
    → (k + 1) % 2 ^ 8 ≢ (l + 1) % 2 ^ 8
    → bytes_match (ping_frame o k) (inc_frame o (ping_frame o l)) 1 0 n ≡ false
unfolding bytes_match inc_frame ping_frame
first_differs o k l zero pos fits differ = absurd (omega arith)
first_differs o k l (suc n) pos fits differ = ground (
  arith,
  differ,
  get_or-inc_bytes o.msg_len (count_bytes l 0 o.msg_len) 0 (omega arith),
  get_or-count_bytes l 0 o.msg_len 0 (omega arith),
  get_or-count_bytes k 0 o.msg_len 0 (omega arith),
)

both_false : (a b : Bool) → (if a then false else if b then false else false) ≡ false
both_false a b = ground arith

cleared : (a b c : Bool) → c ≡ false → (a && (b && c)) ≡ false
cleared a b c h = ground (arith, h)

other_answer :
    (o : Options) (k l : ℕ)
    → 0 < o.msg_len
    → (k + 1) % 2 ^ 8 ≢ (l + 1) % 2 ^ 8
    → compare_frame o (ping_frame o k) (inc_frame o (ping_frame o l)) 1 ≡ false
unfolding compare_frame inc_frame ping_frame
other_answer o k l pos differ =
    rw (first_differs o k l (inc_frame o (ping_frame o l)).len pos (omega arith) differ)
      (both_false _ _)

refused-Stops :
    (g : Setup) (n : Net) (w : Window) (lost : ℕ) (frame : Cu)
    → IsSetup g
    → IsWindow g n w
    → n.answered < n.sent
    → 0 < g.options.msg_len
    → (0 < lost) × (lost < 256)
    → Same frame (dut_answer (ready g) (ping g (n.answered + lost)))
    → Stops (answer_round (ready g) w frame)
unfolding answer_round set_ids
refused-Stops g n w lost frame setup h rest bytes (some_lost, few) same =
    Stops-if (is_set g.test_loops && leb g.test_loops (w.loops + 1)) (ended (not same_as) after)
      (next (record after { unprocessed = w.unprocessed - 1 })) (ap not refused)
      (ap not refused, cleared w.running (w.recv_tx w.recv_rx_pos) same_as refused)
  where
    same_as : Bool
    same_as = compare_frame (set_ids g.options) (w.tx_frames w.recv_rx_pos) frame 1

    after : Window
    after = record w {
      err = not same_as;
      running = w.running && (w.recv_tx w.recv_rx_pos && same_as);
      recv_rx_pos = (w.recv_rx_pos + 1) % g.inflight_count;
      loops = w.loops + 1;
    }

    refused : same_as ≡ false
    refused =
        compare_frame-Same (set_ids g.options) (w.tx_frames w.recv_rx_pos) (ping g n.answered) frame
          (inc_frame (set_ids g.options) (ping g (n.answered + lost))) 1
          (slot_at g setup n w h n.answered w.recv_rx_pos h.recv_rx_pos (omega arith) rest)
          (record { can_id = same.can_id; len = same.len; body = same.body })
        ∙ other_answer (set_ids g.options) (n.answered % 2 ^ 8) ((n.answered + lost) % 2 ^ 8) bytes
            (omega (arith, some_lost, few))

-- A lost answer is noticed. In every state that a run on a bus that loses nothing reaches, with a
-- full window, at least one data byte, and fewer than 256 answers lost: if the answer that comes
-- next belongs to a later frame, then the round reports an error, and the loop ends.
pub lost_answer-Stops :
    (g : Setup) (n : Net) (w : Window) (i : Input) (lost flags : ℕ) (frame reply : Cu)
    → IsSetup g
    → Reaches g n w
    → ltb w.unprocessed g.inflight_count ≡ false
    → 0 < g.options.msg_len
    → (0 < lost) × (lost < 256)
    → i.recv ≡ received frame flags
    → Replies (ready g) (ping g (n.answered + lost)) reply
    → Same frame reply
    → is_set (bit_and flags msg_confirm) ≡ false
    → is_set (bit_and flags msg_dontroute) ≡ false
    → Stops (gen_round (ready g) w i)
unfolding gen_round receive_round
lost_answer-Stops g n w i lost flags frame reply setup run full bytes some_lost came replied sent
      other remote =
    let same = Same-Replies (ready g) (ping g (n.answered + lost)) reply frame replied sent in
    let h = Reaches-IsWindow g n w setup run in
    simp (h.running, full, came, answer_shown g (n.answered + lost) frame flags setup same remote)
      (rw other (
        refused-Stops g n w lost frame setup h (ground (arith, h.unprocessed, full, setup.window))
          bytes some_lost same))
