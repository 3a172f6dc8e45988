-- ===== src/CanSequence/Send.antt =====
-- The frames that the sender writes are numbered without a gap, whatever fails in between.
use can_utils.Base.{
  ℕ, zero, suc, ◌+◌, ◌%◌, ◌^◌, ◌<◌, List, [], ◌∷◌, Bool, true, false, ◌≡◌, refl, ap, arith, inl,
  inr, Bool-cases, length, if◌then◌else◌, ◌∙◌,
}
use can_utils.CanSequence.{
  Options, Write, written, enobufs, eintr, write_error, again, Sender, next_frame, Ended, exited,
  send_from, do_send, more, count_down,
}

-- The numbers from `k` on.
abbrev pub numbers : ℕ → ℕ → List ℕ
numbers k zero = []
numbers k (suc n) = k % 2 ^ 8 ∷ numbers (k + 1) n

pub numbers_mod : (a b n : ℕ) → a % 2 ^ 8 ≡ b % 2 ^ 8 → numbers a n ≡ numbers b n
numbers_mod a b zero h = refl
numbers_mod a b (suc n) h = cc (h, numbers_mod (a + 1) (b + 1) n (omega arith))

abbrev Numbered : ℕ → List ℕ → Type 0
Numbered k frames = frames ≡ numbers k (length frames)

Numbered-cons :
    (k : ℕ) (frames : List ℕ)
    → k < 256
    → Numbered ((k + 1) % 2 ^ 8) frames
    → Numbered k (k ∷ frames)
Numbered-cons k frames small h =
    ap (λ f. k ∷ f) (h ∙ numbers_mod ((k + 1) % 2 ^ 8) (k + 1) (length frames) (omega arith))
    ∙ ap (λ j. j ∷ numbers (k + 1) (length frames)) (omega arith)

retried :
    (k : ℕ) (w : Bool) (rest : List ℕ × Ended)
    → Numbered k rest.0
    → Numbered k (if w then rest else ([], exited)).0
retried k true rest h = h
retried k false rest h = refl

followed :
    (k : ℕ) (w : Bool) (frames : List ℕ) (ended other : Ended)
    → k < 256
    → Numbered ((k + 1) % 2 ^ 8) frames
    → Numbered k (if◌then◌else◌ {A = List ℕ × Ended} w (k ∷ frames, ended) (k ∷ [], other)).0
followed k true frames ended other small h = Numbered-cons k frames small h
followed k false frames ended other small h = Numbered-cons k [] small refl

send_from-Numbered :
    (o : Options) (loopcount : ℕ) (s : Sender) (results : List Write)
    → s.first_byte < 256
    → Numbered s.first_byte (send_from o loopcount s results).0
unfolding send_from next_frame
send_from-Numbered o loopcount s [] h = refl
send_from-Numbered o loopcount s (written ∷ results) h =
    followed s.first_byte (more o loopcount) _ _ _ h
      (send_from-Numbered o (count_down o loopcount) (next_frame s) results (omega arith))
send_from-Numbered o loopcount s (enobufs p ∷ results) h =
    retried s.first_byte (again o (enobufs p)) _ (send_from-Numbered o loopcount s results h)
send_from-Numbered o loopcount s (eintr ∷ results) h =
    retried s.first_byte (again o eintr) _ (send_from-Numbered o loopcount s results h)
send_from-Numbered o loopcount s (write_error ∷ results) h =
    retried s.first_byte (again o write_error) _ (send_from-Numbered o loopcount s results h)

-- The frames that are written are numbered one after the other from the first byte of the frame,
-- whether `write` fails, is interrupted or is tried again.
pub do_send-numbers :
    (o : Options) (loopcount : ℕ) (s : Sender) (results : List Write)
    → s.first_byte < 256
    → (do_send o loopcount s results).0
      ≡ numbers s.first_byte (length (do_send o loopcount s results).0)
unfolding do_send
do_send-numbers o loopcount s results h = elim (Bool-cases (more o loopcount)) [
  | inl on ↦ rw on (send_from-Numbered o (count_down o loopcount) s results h)
  | inr off ↦ rw off refl
]
