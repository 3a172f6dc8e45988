-- ===== src/CanFdTest/Tests.antt =====
-- The test of canfdtest.c at its default identifiers.
use can_utils.Base.{
  ℕ, [], ◌∷◌, true, false, not, Bool, Option, some, none, ◌≡◌, refl, arith, if◌then◌else◌, ◌==◌,
  inr,
}
use can_utils.CanFdTest.{
  Options, set_ids, ping_frame, inc_frame, check_frame, compare_frame, normalize_canid, bytes_match,
  inc_bytes, count_bytes,
}
use can_utils.CanFdTest.Echo.{NextInRange, echo_accepted}
use can_utils.CanFdTest.Window.{
  Setup, Input, whole, enobufs, send_frame, received, recv_failed, Window, start_window, next,
  ended, gen_round, send_round, fill, receive_round, answer_round, dut_answer, can_echo_dut, Round,
  blocked, can_echo_gen,
}
use can_utils.CanFdTest.Bus.{
  Replies, ready, ping, sends, confirms, IsSetup, IsWindow, Keeps, Reaches, start, then_round,
}
use can_utils.CanFdTest.Flight.{Reaches-IsWindow, no_false_alarm}
use can_utils.CanFdTest.Loss.{Stops, lost_answer-Stops}

abbrev defaults : Options
defaults = record {
  is_extended_frame_format = false;
  has_pong_id = false;
  can_id_ping = 0x77;
  can_id_pong = 0x78;
  msg_len = 8;
}

in_range : NextInRange defaults
in_range = ground arith

echo_accepted_example :
    (check_frame (set_ids defaults) (ping_frame (set_ids defaults) 250) ≡ true)
    × (compare_frame
          (set_ids defaults)
          (ping_frame (set_ids defaults) 250)
          (inc_frame (set_ids defaults) (ping_frame (set_ids defaults) 250))
          1
        ≡ true)
echo_accepted_example = echo_accepted defaults 250 in_range

-- At the last identifier the host waits for 0x800, and the device answers with 0.
abbrev last : Options
last = record defaults { can_id_ping = 0x7FF }

last_refused :
    compare_frame
      (set_ids last)
      (ping_frame (set_ids last) 0)
      (inc_frame (set_ids last) (ping_frame (set_ids last) 0))
      1
    ≡ false
unfolding compare_frame set_ids ping_frame inc_frame normalize_canid
last_refused = refl

-- A window of one frame, which fills and waits.
abbrev one_frame : Setup
one_frame = record {
  options = defaults;
  filter = 2;
  inflight_count = 1;
  test_loops = 1;
  bit_rate_switch = true;
}

one_frame-IsSetup : IsSetup one_frame
unfolding set_ids normalize_canid
one_frame-IsSetup = record {
  in_range = in_range;
  window = omega arith;
  distinct = inr (omega arith);
}

abbrev sending : Input
sending = record { sends = enobufs ∷ whole ∷ []; recv = recv_failed }

abbrev own : Input
own = record { sends = []; recv = received (ping one_frame 0) 0x804 }

abbrev answer : ℕ → Input
answer i = record {
  sends = [];
  recv = received (dut_answer (ready one_frame) (ping one_frame i)) 0;
}

abbrev window_after : Window
window_after = record start_window {
  tx_frames = λ i. if i == 0 then fill (ready one_frame) start_window else start_window.tx_frames i;
  recv_tx = λ i. if i == 0 then false else false;
  counter = 1;
  send_pos = 0;
  unprocessed = 1;
}

sent_once : Reaches one_frame (record { sent = 1; confirmed = 0; answered = 0 }) window_after
unfolding gen_round send_round send_frame
sent_once = then_round start sending (sends refl refl) refl

no_false_alarm_example :
    Keeps one_frame
      (record { sent = 1; confirmed = 1; answered = 0 })
      (gen_round (ready one_frame) window_after own)
no_false_alarm_example = no_false_alarm one_frame _ _ window_after own one_frame-IsSetup sent_once (
    confirms (ping one_frame 0) 0x804 refl (omega arith) refl
      (record { can_id = refl; len = refl; body = refl }) refl)

Reaches-IsWindow_example :
    IsWindow one_frame (record { sent = 1; confirmed = 0; answered = 0 }) window_after
Reaches-IsWindow_example = Reaches-IsWindow one_frame _ window_after one_frame-IsSetup sent_once

dut_reply :
    (i : ℕ)
    → Replies (ready one_frame) (ping one_frame i) (dut_answer (ready one_frame) (ping one_frame i))
unfolding can_echo_dut send_frame
dut_reply i = record {
  input = record { sends = whole ∷ []; recv = received (ping one_frame i) 0 };
  seen = ping one_frame i;
  flags = 0;
  err = not (check_frame (set_ids defaults) (ping one_frame i));
  came = refl;
  same = record { can_id = refl; len = refl; body = refl };
  answers = refl;
}

lost_answer-Stops_example : Stops (gen_round (ready one_frame) window_after (answer 1))
lost_answer-Stops_example =
    lost_answer-Stops one_frame (record { sent = 1; confirmed = 0; answered = 0 }) window_after
      (answer 1) 1 0 (dut_answer (ready one_frame) (ping one_frame 1))
      (dut_answer (ready one_frame) (ping one_frame 1)) one_frame-IsSetup sent_once refl
      (omega arith) (omega arith, omega arith) refl (dut_reply 1)
      (record { can_id = refl; len = refl; body = refl }) refl refl

-- The result of a loop that ended.
abbrev result : Round → Option Bool
result (next w) = none
result (ended err w) = some err
result blocked = none

-- An answer that comes before the own frame ends the loop, but not with an error.
early :
    result (
      can_echo_gen
        (ready (record one_frame { test_loops = 0 }))
        start_window
        (sending ∷ answer 0 ∷ sending ∷ []))
    ≡ some false
unfolding can_echo_gen gen_round send_round fill send_frame receive_round answer_round set_ids
    normalize_canid ping_frame compare_frame inc_frame bytes_match inc_bytes count_bytes
early = refl
