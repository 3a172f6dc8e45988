-- ===== src/CanFdTest/Flight.antt =====
-- The frames in flight of `can_echo_gen`, on a bus that delivers in order.
use can_utils.Base.{
  ℕ, zero, suc, ◌+◌, ◌-◌, ◌%◌, ◌^◌, ◌≤◌, ◌<◌, List, Bool, true, false, not, ◌&&◌, ltb, leb,
  if◌then◌else◌, is_set, bit_and, ◌≡◌, ◌≢◌, refl, ap, sym, arith, ◌⊎◌, inl, inr, ==_refl, ne→==,
  subst, ◌∙◌,
}
use can_utils.Frame.{Cu}
use can_utils.CanFdTest.{
  Options, set_ids, count_bytes, ping_frame, inc_frame, bytes_match, compare_frame,
}
use native.Mathlib.Nat.{zero-mod}
use can_utils.CanFdTest.Echo.{echo_accepted, pong_id, get_or-count_bytes}
use can_utils.CanFdTest.Window.{
  Setup, Sent, success, failure, waiting, send_frame, Input, msg_dontroute, msg_confirm, Window,
  start_window, store_at, Round, next, ended, blocked, ignored, fill, send_round, confirm_round,
  answer_round, receive_round, gen_round, dut_answer,
}
use can_utils.CanFdTest.Bus.{
  Same, Net, ready, ping, Brings, sends, confirms, answers, strays, IsSetup, IsWindow, Keeps,
  Reaches, start, then_round,
}
use can_utils.CanFdTest.Device.{Same-Replies}
use can_utils.CanFdTest.Ring.{slot_differs, next_slot}

bytes_match_body :
    (e f r s : Cu) (inc i n : ℕ)
    → e.body ≡ f.body
    → r.body ≡ s.body
    → bytes_match e r inc i n ≡ bytes_match f s inc i n
unfolding bytes_match
bytes_match_body e f r s inc i zero exp rec = refl
bytes_match_body e f r s inc i (suc n) exp rec =
    simp (exp, rec, bytes_match_body e f r s inc (i + 1) n exp rec) refl

pub compare_frame-Same :
    (o : Options) (e f r s : Cu) (inc : ℕ)
    → Same e f
    → Same r s
    → compare_frame o e r inc ≡ compare_frame o f s inc
unfolding compare_frame
compare_frame-Same o e f r s inc exp rec =
    simp (exp.len, rec.can_id, rec.len, bytes_match_body e f r s inc 0 s.len exp.body rec.body) refl

start-IsWindow :
    (g : Setup)
    → IsSetup g
    → IsWindow g (record { sent = 0; confirmed = 0; answered = 0 }) start_window
start-IsWindow g h = record {
  running = refl;
  err = refl;
  counter = refl;
  send_pos = sym (zero-mod g.inflight_count);
  recv_tx_pos = sym (zero-mod g.inflight_count);
  recv_rx_pos = sym (zero-mod g.inflight_count);
  unprocessed = refl;
  in_flight = omega arith;
  order = (omega arith, omega arith);
  loops = refl;
  unfinished = omega arith;
  slots = λ i low high. absurd (omega arith);
  back = λ i low high. absurd (omega arith);
}

module _ {ℓ} {A : Type ℓ} (f : ℕ → A) (i : ℕ) (x : A) (j : ℕ) where
  store_hit : j ≡ i → store_at f i x j ≡ x
  store_hit e = rw (e, ==_refl) refl

  store_miss : j ≢ i → store_at f i x j ≡ f j
  store_miss ne = rw (ne→== j i ne) refl

Keeps-if :
    (g : Setup) (n : Net) (b : Bool) (r t : Round)
    → (b ≡ true → Keeps g n r)
    → (b ≡ false → Keeps g n t)
    → Keeps g n (if b then r else t)
Keeps-if g n true r t h k = h refl
Keeps-if g n false r t h k = k refl

-- The host accepts its own frame, and the answer.
own_matches :
    (o : Options) (k i n : ℕ)
    → i + n ≤ o.msg_len
    → bytes_match (ping_frame o k) (ping_frame o k) 0 i n ≡ true
unfolding bytes_match ping_frame
own_matches o k i zero fits = refl
own_matches o k i (suc n) fits = ground (
  arith,
  get_or-count_bytes k 0 o.msg_len i (omega arith),
  own_matches o k (i + 1) n (omega arith),
)

own_accepted : (o : Options) (k : ℕ) → compare_frame o (ping_frame o k) (ping_frame o k) 0 ≡ true
unfolding compare_frame ping_frame
own_accepted o k = rw (==_refl, ==_refl) (own_matches o k 0 o.msg_len (omega arith))

module _ (g : Setup) (setup : IsSetup g) (n : Net) (w : Window) (h : IsWindow g n w) where
  -- The frame in a slot that is in flight.
  pub slot_at :
      (i pos : ℕ)
      → pos ≡ i % g.inflight_count
      → n.answered ≤ i
      → i < n.sent
      → Same (w.tx_frames pos) (ping g i)
  slot_at i pos at low high =
      subst (λ k. Same (w.tx_frames k) (ping g i)) (sym at) (h.slots i low high)

  -- A slot of a frame in flight is not the one that the next frame is written to.
  apart :
      (i : ℕ)
      → ltb w.unprocessed g.inflight_count ≡ true
      → n.answered ≤ i
      → i < n.sent
      → i % g.inflight_count ≢ w.send_pos
  apart i room low high e =
      slot_differs g.inflight_count i n.sent high (ground (arith, h.unprocessed, room, low))
        (e ∙ h.send_pos)

  sent_slot :
      (i : ℕ)
      → ltb w.unprocessed g.inflight_count ≡ true
      → n.answered ≤ i
      → (i < n.sent) ⊎ (i ≡ n.sent)
      → Same (store_at w.tx_frames w.send_pos (fill (ready g) w) (i % g.inflight_count)) (ping g i)
  unfolding fill ping_frame set_ids
  sent_slot i room low (inl old) =
      subst (λ f. Same f (ping g i))
        (sym (
          store_miss w.tx_frames w.send_pos (fill (ready g) w) (i % g.inflight_count)
            (apart i room low old)))
        (h.slots i low old)
  sent_slot i room low (inr new) =
      subst (λ f. Same f (ping g i))
        (sym (
          store_hit w.tx_frames w.send_pos (fill (ready g) w) (i % g.inflight_count)
            (ap (λ k. k % g.inflight_count) new ∙ sym h.send_pos)))
        (record {
          can_id = refl;
          len = refl;
          body =
              ap (λ k. count_bytes k 0 g.options.msg_len)
                (h.counter ∙ ap (λ k. k % 2 ^ 8) (sym new));
        })

  send-Keeps :
      (results : List Sent)
      → ltb w.unprocessed g.inflight_count ≡ true
      → send_frame results ≡ success
      → Keeps g (record n { sent = n.sent + 1 }) (send_round (ready g) w results)
  unfolding send_round
  send-Keeps results room done =
      subst
        (λ e.
          Keeps g (record n { sent = n.sent + 1 })
            (elim e [
              | success ↦ next (record w {
                tx_frames = store_at w.tx_frames w.send_pos (fill (ready g) w);
                recv_tx = store_at w.recv_tx w.send_pos false;
                send_pos = (w.send_pos + 1) % g.inflight_count;
                unprocessed = w.unprocessed + 1;
                counter = (w.counter + 1) % 2 ^ 8;
              })
              | failure ↦ ended true (record w {
                tx_frames = store_at w.tx_frames w.send_pos (fill (ready g) w);
                recv_tx = store_at w.recv_tx w.send_pos false;
                err = true;
              })
              | waiting ↦ blocked
            ]))
        (sym done)
        (record {
          running = h.running;
          err = h.err;
          counter = omega (arith, h.counter);
          send_pos =
              ap (λ k. (k + 1) % g.inflight_count) h.send_pos ∙ next_slot g.inflight_count n.sent;
          recv_tx_pos = h.recv_tx_pos;
          recv_rx_pos = h.recv_rx_pos;
          unprocessed = omega (arith, h.unprocessed);
          in_flight = ground (arith, room);
          order = (h.order.0, omega (arith, h.order));
          loops = h.loops;
          unfinished = h.unfinished;
          slots = λ i low high. sent_slot i room low (omega arith);
          back = λ i low high.
              store_miss w.recv_tx w.send_pos false (i % g.inflight_count)
                (apart i room low (omega (arith, h.order)))
              ∙ h.back i low high;
        })

  confirm-Keeps :
      (frame : Cu)
      → n.confirmed < n.sent
      → Same frame (ping g n.confirmed)
      → IsWindow g (record n { confirmed = n.confirmed + 1 }) (confirm_round (ready g) w frame)
  unfolding confirm_round
  confirm-Keeps frame rest same = record {
    running = simp (h.running, agrees) refl;
    err = ap not agrees;
    counter = h.counter;
    send_pos = h.send_pos;
    recv_tx_pos =
        ap (λ k. (k + 1) % g.inflight_count) h.recv_tx_pos ∙ next_slot g.inflight_count n.confirmed;
    recv_rx_pos = h.recv_rx_pos;
    unprocessed = h.unprocessed;
    in_flight = h.in_flight;
    order = (omega (arith, h.order), omega arith);
    loops = h.loops;
    unfinished = h.unfinished;
    slots = h.slots;
    back = λ i low high. elim (cases i high) [
      | inl old ↦ elim (equal_or (i % g.inflight_count)) [
        | inl hit ↦ store_hit w.recv_tx w.recv_tx_pos true (i % g.inflight_count) hit
        | inr miss ↦
            store_miss w.recv_tx w.recv_tx_pos true (i % g.inflight_count) miss ∙ h.back i low old
      ]
      | inr new ↦
          store_hit w.recv_tx w.recv_tx_pos true (i % g.inflight_count)
            (ap (λ k. k % g.inflight_count) new ∙ sym h.recv_tx_pos)
    ];
  }
    where
      cases : (i : ℕ) → i < n.confirmed + 1 → (i < n.confirmed) ⊎ (i ≡ n.confirmed)
      cases i high = omega arith

      equal_or : (k : ℕ) → (k ≡ w.recv_tx_pos) ⊎ (k ≢ w.recv_tx_pos)
      equal_or k = ground arith

      agrees : compare_frame (set_ids g.options) (w.tx_frames w.recv_tx_pos) frame 0 ≡ true
      agrees =
          compare_frame-Same (set_ids g.options) _ (ping g n.confirmed) frame (ping g n.confirmed) 0
            (slot_at n.confirmed w.recv_tx_pos h.recv_tx_pos h.order.0 rest) same
          ∙ own_accepted (set_ids g.options) (n.confirmed % 2 ^ 8)

  answer-Keeps :
      (frame : Cu)
      → n.answered < n.confirmed
      → Same frame (dut_answer (ready g) (ping g n.answered))
      → ltb w.unprocessed g.inflight_count ≡ false
      → Keeps g (record n { answered = n.answered + 1 }) (answer_round (ready g) w frame)
  unfolding answer_round
  answer-Keeps frame rest same full =
      Keeps-if g (record n { answered = n.answered + 1 })
        (is_set g.test_loops && leb g.test_loops (w.loops + 1))
        (ended (not (compare_frame (set_ids g.options) (w.tx_frames w.recv_rx_pos) frame 1)) after)
        (next (record after { unprocessed = w.unprocessed - 1 }))
        (λ last. (ap not agrees, (ground (arith, last), ground (arith, last, h.unfinished))))
        (λ more. record {
          running = simp (h.running, came_back, agrees) refl;
          err = ap not agrees;
          counter = h.counter;
          send_pos = h.send_pos;
          recv_tx_pos = h.recv_tx_pos;
          recv_rx_pos =
              ap (λ k. (k + 1) % g.inflight_count) h.recv_rx_pos
              ∙ next_slot g.inflight_count n.answered;
          unprocessed = omega (arith, h.unprocessed, h.order, rest);
          in_flight = omega (arith, h.in_flight);
          order = (omega arith, h.order.1);
          loops = omega (arith, h.loops);
          unfinished = ground (arith, more);
          slots = λ i low high. h.slots i (omega arith) high;
          back = λ i low high. h.back i (omega arith) high;
        })
    where
      same_as : Bool
      same_as = compare_frame (set_ids g.options) (w.tx_frames w.recv_rx_pos) frame 1

      after : Window
      after = record w {
        err = not same_as;
        running = w.running && (w.recv_tx w.recv_rx_pos && same_as);
        recv_rx_pos = (w.recv_rx_pos + 1) % g.inflight_count;
        loops = w.loops + 1;
      }

      came_back : w.recv_tx w.recv_rx_pos ≡ true
      came_back = ap w.recv_tx h.recv_rx_pos ∙ h.back n.answered (omega arith) rest

      agrees : compare_frame (set_ids g.options) (w.tx_frames w.recv_rx_pos) frame 1 ≡ true
      agrees =
          compare_frame-Same (set_ids g.options) _ (ping g n.answered) frame
            (inc_frame (set_ids g.options) (ping g n.answered)) 1
            (slot_at n.answered w.recv_rx_pos h.recv_rx_pos (omega arith) (omega (arith, h.order)))
            (record { can_id = same.can_id; len = same.len; body = same.body })
          ∙ (echo_accepted g.options (n.answered % 2 ^ 8) setup.in_range).1

-- Neither an own frame nor an answer is ignored.
own_shown :
    (g : Setup) (i : ℕ) (frame : Cu) (flags : ℕ)
    → IsSetup g
    → Same frame (ping g i)
    → is_set (bit_and flags msg_confirm) ≡ true
    → ignored (ready g) frame flags ≡ false
unfolding ping_frame
own_shown g i frame flags setup same own = ground (arith, same.can_id, setup.distinct, own)

pub answer_shown :
    (g : Setup) (i : ℕ) (frame : Cu) (flags : ℕ)
    → IsSetup g
    → Same frame (dut_answer (ready g) (ping g i))
    → is_set (bit_and flags msg_dontroute) ≡ false
    → ignored (ready g) frame flags ≡ false
answer_shown g i frame flags setup same remote =
    ground
      (arith, same.can_id, pong_id g.options (i % 2 ^ 8) setup.in_range, setup.distinct, remote)

-- On such a bus, no round of the host fails: it goes on with the state that the numbers determine,
-- or it ends the test without an error after `test_loops` answers.
pub gen_round-Keeps :
    (g : Setup) (n m : Net) (w : Window) (i : Input)
    → IsSetup g
    → IsWindow g n w
    → Brings g n w i m
    → Keeps g m (gen_round (ready g) w i)
unfolding gen_round receive_round
gen_round-Keeps g n m w i setup h (sends room done) =
    simp (h.running, room) (send-Keeps g setup n w h i.sends room done)
gen_round-Keeps g n m w i setup h (confirms frame flags full rest came same own) =
    simp (h.running, full, came, own_shown g n.confirmed frame flags setup same own)
      (rw own (confirm-Keeps g setup n w h frame rest same))
gen_round-Keeps g n m w i setup h
      (answers frame reply flags full rest came replied sent other remote) =
    let same = Same-Replies (ready g) (ping g n.answered) reply frame replied sent in
    simp (h.running, full, came, answer_shown g n.answered frame flags setup same remote)
      (rw other (answer-Keeps g setup n w h frame rest same full))
gen_round-Keeps g n m w i setup h (strays frame flags full came skip) =
    simp (h.running, full, came, skip) h

-- In every state that is reached no error was seen, the window is not exceeded and holds the frames
-- that are not answered, the positions are those of the numbers, and the answers are counted.
pub Reaches-IsWindow :
    (g : Setup) (n : Net) (w : Window) → IsSetup g → Reaches g n w → IsWindow g n w
Reaches-IsWindow g n w setup start = start-IsWindow g setup
Reaches-IsWindow g n w setup (then_round {n = before} {m} {w = old} {after} run i brings e) =
    subst (Keeps g m) e
      (gen_round-Keeps g before m old i setup (Reaches-IsWindow g before old setup run) brings)

-- The host gives no false alarm: with a pong identifier or a next identifier in range, at least one
-- frame in flight, and different identifiers under -xx, in every state that a run on a bus that
-- loses and reorders nothing reaches, the next round goes on without an error, or it ends the test
-- without an error after `test_loops` answers.
pub no_false_alarm :
    (g : Setup) (n m : Net) (w : Window) (i : Input)
    → IsSetup g
    → Reaches g n w
    → Brings g n w i m
    → Keeps g m (gen_round (ready g) w i)
no_false_alarm g n m w i setup run brings =
    gen_round-Keeps g n m w i setup (Reaches-IsWindow g n w setup run) brings
