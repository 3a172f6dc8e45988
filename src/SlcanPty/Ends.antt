-- ===== src/SlcanPty/Ends.antt =====
-- `pty2can` returns, and keeps what it stores inside its buffer.
use can_utils.Base.{
  ℕ, zero, suc, ◌+◌, ◌-◌, ◌≤◌, ◌<◌, List, [], ◌∷◌, Bool, true, false, not, ◌&&◌, ◌==◌, ltb, ◌≡◌,
  refl, ap, arith, ◌⊎◌, inl, inr, if◌then◌else◌, is_set, Option, some, ◌>>=◌, length, ◌∙◌,
}
use can_utils.SlcanPty.{Buffer, update, copy_down}
use can_utils.SlcanPty.Command.{Handled, command}
use can_utils.SlcanPty.Loop.{
  Slcan, Writes, Run, strip, has_cr, settings, frames_of, add_run, rx_restart, pty2can, buf_size,
}

strip-le : (buf : Buffer) (n : ℕ) → (strip buf n).1 ≤ n
unfolding strip
strip-le buf zero = omega arith
strip-le buf (suc n) = ground (arith, strip-le (copy_down buf 1 0 (suc n)) n)

-- What the state holds is an incomplete line, and leaves room for its NUL.
pub record IsPending (s : Slcan) : Type 0 where
  pub room : s.rxoffset < buf_size
  pub incomplete : (s.rxoffset ≡ 0) ⊎ (has_cr s.buf 0 s.rxoffset ≡ false)

-- A call that returns, and what it leaves.
abbrev pub Returns : Option Run → Type 0
Returns o = (r : Run) × (o ≡ some r) × IsPending r.state

Returns-bind : (h : Handled) (o : Option Run) → Returns o → Returns (o >>= λ r. some (add_run h r))
Returns-bind h o (r, e, p) = (add_run h r, ap (λ m. m >>= λ r. some (add_run h r)) e, p)

-- A branch may use its test.
if-Returns :
    (b : Bool) (x y : Option Run)
    → (b ≡ true → Returns x)
    → (b ≡ false → Returns y)
    → Returns (if b then x else y)
if-Returns true x y h k = h refl
if-Returns false x y h k = k refl

empty-IsPending : (s : Slcan) → s.rxoffset ≡ 0 → IsPending s
empty-IsPending s h = record { room = omega arith; incomplete = inl h }

settings_rxoffset : (s : Slcan) → (settings s).rxoffset ≡ s.rxoffset
unfolding settings
settings_rxoffset s = refl

rx_restart-Returns :
    (fuel : ℕ) (w : Writes) (k : ℕ) (s : Slcan) (nbytes : ℕ)
    → s.rxoffset ≡ 0
    → nbytes < buf_size
    → nbytes < fuel
    → Returns (rx_restart fuel w k s nbytes)
unfolding rx_restart
rx_restart-Returns zero w k s nbytes start small enough = absurd (omega arith)
rx_restart-Returns (suc fuel) w k s nbytes start small enough =
    if-Returns (n == 0) _ _ (λ e. (_, refl, empty-IsPending (record s { buf = buf }) start))
      (λ full.
        if-Returns (not (has_cr buf 0 n)) _ _
          (λ e. (
            _,
            refl,
            record { room = omega (arith, shorter); incomplete = inr (ground (arith, e)) },
          ))
          (λ complete.
            if-Returns (is_set (length (frames_of h)) && not (w.socket_ok k)) _ _
              (λ e. (_, refl, empty-IsPending after kept))
              (λ e.
                if-Returns (not (w.pty_ok k)) _ _ (λ e. (_, refl, empty-IsPending after kept))
                  (λ e.
                    if-Returns (ltb (h.ptr + 1) n) _ _
                      (λ more. Returns-bind h _ (
                        rx_restart-Returns fuel w (k + 1)
                          (record after { buf = copy_down h.buf (h.ptr + 1) 0 (n - (h.ptr + 1)) })
                          (n - (h.ptr + 1)) kept (omega (arith, shorter))
                          (ground (arith, shorter, more))))
                      (λ e. (_, refl, empty-IsPending after kept))))))
  where
    buf : Buffer
    buf = (strip s.buf nbytes).0

    n : ℕ
    n = (strip s.buf nbytes).1

    shorter : n ≤ nbytes
    shorter = strip-le s.buf nbytes

    h : Handled
    h = command (buf 0) (update buf n 0) n

    after : Slcan
    after = record (settings (record s { buf = update buf n 0 })) { buf = h.buf }

    kept : (settings (record s { buf = update buf n 0 })).rxoffset ≡ 0
    kept = settings_rxoffset (record s { buf = update buf n 0 }) ∙ start

-- Every call returns, for a read of no more than the room that is left. What it keeps for the next
-- call is a line without its end, which fits the buffer with a NUL behind it; so every later call
-- returns too.
pub pty2can-Returns :
    (w : Writes) (s : Slcan) (input : List ℕ)
    → IsPending s
    → s.rxoffset + length input < buf_size
    → Returns (pty2can w s input)
unfolding pty2can
pty2can-Returns w s [] p fits = (_, refl, p)
pty2can-Returns w s (c ∷ input) p fits =
    rx_restart-Returns buf_size w 0 _ (length (c ∷ input) + s.rxoffset) refl (omega arith)
      (omega arith)
