-- ===== src/CanFdTest/Device.antt =====
-- The device under test sends back what it reads, incremented.
use can_utils.Base.{
  ℕ, Bool, true, false, ◌&&◌, ltb, not, is_set, bit_and, if◌then◌else◌, ◌≡◌, refl, sym, subst, ◌∙◌,
}
use can_utils.Frame.{Cu}
use can_utils.CanFdTest.{inc_frame, check_frame}
use can_utils.CanFdTest.Window.{
  Setup, SendEnd, success, failure, waiting, send_frame, Input, received, recv_failed,
  msg_dontroute, DutRound, skipped, answered, dut_ended, dut_blocked, dut_answer, can_echo_dut,
}
use can_utils.CanFdTest.Bus.{Same, Replies}

-- An answer, if there is one, is `f`.
abbrev Sends : Cu → DutRound → Type 0
Sends f skipped = Unit
Sends f (answered err reply) = reply ≡ f
Sends f dut_ended = Unit
Sends f dut_blocked = Unit

after_send :
    (f : Cu) (err skip : Bool) (e : SendEnd)
    → Sends f (
        if skip
        then skipped
        else elim e [ success ↦ answered err f | failure ↦ dut_ended | waiting ↦ dut_blocked ])
after_send f err true e = tt
after_send f err false success = refl
after_send f err false failure = tt
after_send f err false waiting = tt

can_echo_dut-Sends :
    (g : Setup) (i : Input) (frame : Cu) (flags : ℕ)
    → i.recv ≡ received frame flags
    → Sends (dut_answer g frame) (can_echo_dut g i)
unfolding can_echo_dut
can_echo_dut-Sends g i frame flags came =
    subst
      (λ r. Sends (dut_answer g frame) (elim r [
        | received frame flags ↦
            if ltb 1 g.filter && is_set (bit_and flags msg_dontroute)
            then skipped
            else elim (send_frame i.sends) [
              | success ↦ answered (not (check_frame g.options frame)) (dut_answer g frame)
              | failure ↦ dut_ended
              | waiting ↦ dut_blocked
            ]
        | recv_failed ↦ dut_ended
      ]))
      (sym came)
      (after_send (dut_answer g frame) (not (check_frame g.options frame))
        (ltb 1 g.filter && is_set (bit_and flags msg_dontroute)) (send_frame i.sends))

dut_answer-Same : (g : Setup) (f h : Cu) → Same f h → Same (dut_answer g f) (dut_answer g h)
unfolding inc_frame
dut_answer-Same g f h same = record {
  can_id = simp same.can_id refl;
  len = same.len;
  body = simp (same.len, same.body) refl;
}

pub Replies-Same : (g : Setup) (f reply : Cu) → Replies g f reply → Same reply (dut_answer g f)
Replies-Same g f reply r =
    subst (λ c. Same c (dut_answer g f))
      (sym (
        subst (Sends (dut_answer g r.seen)) r.answers
          (can_echo_dut-Sends g r.input r.seen r.flags r.came)))
      (dut_answer-Same g r.seen f r.same)

pub Same-trans : (e f h : Cu) → Same e f → Same f h → Same e h
Same-trans e f h x y = record {
  can_id = x.can_id ∙ y.can_id;
  len = x.len ∙ y.len;
  body = x.body ∙ y.body;
}

pub Same-Replies :
    (g : Setup) (f reply frame : Cu)
    → Replies g f reply
    → Same frame reply
    → Same frame (dut_answer g f)
Same-Replies g f reply frame r same =
    Same-trans frame reply (dut_answer g f) same (Replies-Same g f reply r)
