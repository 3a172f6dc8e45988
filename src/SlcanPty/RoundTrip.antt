-- ===== src/SlcanPty/RoundTrip.antt =====
-- The lines that `can2pty` prints, read by `pty2can`.
use can_utils.Base.{
  ℕ, zero, suc, ◌+◌, ◌-◌, ◌≤◌, ◌<◌, List, [], ◌∷◌, ◌++◌, All, Bool, true, false, ◌==◌, ltb, Option,
  none, some, map, ◌>>=◌, ◌≡◌, ◌≢◌, refl, ap, sym, arith, ◌⊎◌, inl, inr, if◌then◌else◌, length, ◌∙◌,
  subst, append_assoc, length-append,
}
use can_utils.Base.Spells.{Spells, Spells-append}
use can_utils.SlcanPty.{Buffer, update, copy_down, store, SlcFrame}
use can_utils.SlcanPty.Command.{write_frame, command}
use can_utils.SlcanPty.Loop.{
  Slcan, Writes, Run, strip, has_cr, settings, add_run, ended, rx_restart, pty2can, buf_size,
}
use can_utils.SlcanPty.Print.{can2pty}
use can_utils.SlcanPty.Arrays.{
  Spells-update, Spells-copy_down, has_cr-Spells, store-Spells, Starts, strip-Starts, strip-cr,
}
use can_utils.SlcanPty.Line.{IsData, Taken, can2pty-Taken}

-- The lines of several frames, without time stamps.
abbrev pub printed : List SlcFrame → List ℕ
printed [] = []
printed (f ∷ fs) = can2pty f none ++ printed fs

-- A call that returns 0, has written the frames in order, and has answered each with a line end.
pub record Done (fs : List SlcFrame) (o : Option Run) : Type 0 where
  pub run : Run
  pub returns : o ≡ some run
  pub ret : run.ret ≡ 0
  pub frames : run.frames ≡ fs
  pub replies : run.replies ≡ map (λ f. b'\r' ∷ []) fs
  pub rxoffset : run.state.rxoffset ≡ 0

Done-cons :
    (f : SlcFrame) (fs : List SlcFrame) (buf : Buffer) (p : ℕ) (o : Option Run)
    → Done fs o
    → Done (f ∷ fs) (o >>= λ r. some (add_run (write_frame buf p f) r))
Done-cons f fs buf p o h = record {
  run = add_run (write_frame buf p f) h.run;
  returns = rw (h.returns) refl;
  ret = h.ret;
  frames = ap (λ t. f ∷ t) (h.frames);
  replies = ap (λ t. (b'\r' ∷ []) ∷ t) (h.replies);
  rxoffset = h.rxoffset;
}

printed-Starts : (fs : List SlcFrame) → All IsData fs → Starts (printed fs)
printed-Starts [] h = tt
printed-Starts (f ∷ fs) h =
    let (t, text, taken) = can2pty-Taken f h.0 in
    rw (text, append_assoc t (b'\r' ∷ []) (printed fs)) (taken.starts (b'\r' ∷ printed fs))

-- The last command of a call, or the next round.
Done-if :
    (f : SlcFrame) (fs : List SlcFrame) (buf : Buffer) (p : ℕ) (more : Bool) (s : Slcan)
    {o : Option Run}
    → Done fs o
    → (more ≡ false → fs ≡ [])
    → s.rxoffset ≡ 0
    → Done (f ∷ fs) (
        if more
        then (o >>= λ r. some (add_run (write_frame buf p f) r))
        else some (add_run (write_frame buf p f) (ended 0 s)))
Done-if f fs buf p true s {o} h last offset = Done-cons f fs buf p o h
Done-if f fs buf p false s h last offset = record {
  run = add_run (write_frame buf p f) (ended 0 s);
  returns = refl;
  ret = refl;
  frames = ap (λ t. f ∷ t) (sym (last refl));
  replies = ap (λ t. (b'\r' ∷ []) ∷ map (λ f. b'\r' ∷ []) t) (sym (last refl));
  rxoffset = offset;
}

-- The buffer of the next round, once line ends at the front are removed.
next_lines :
    (fs : List SlcFrame) (buf : Buffer) (m p left : ℕ)
    → All IsData fs
    → Spells buf m (b'\r' ∷ printed fs)
    → (p + 1 ≡ m) ⊎ (p + 1 ≡ m + 1)
    → left ≡ m + 1 + length (printed fs) - (p + 1)
    → (front : Buffer) × (strip (copy_down buf (p + 1) 0 left) left ≡ (front, length (printed fs)))
      × Spells front 0 (printed fs)
next_lines fs buf m p left h text (inl short) size =
    subst
      (λ k.
        (front : Buffer) × (strip (copy_down buf (p + 1) 0 k) k ≡ (front, length (printed fs)))
        × Spells front 0 (printed fs))
      {x = suc (length (printed fs))} (omega arith)
      (let stripped =
          strip-cr (copy_down buf (p + 1) 0 (suc (length (printed fs)))) (printed fs)
            (printed-Starts fs h)
            (Spells-copy_down buf (p + 1) (suc (length (printed fs))) 0 (b'\r' ∷ printed fs)
              (omega arith) (omega arith)
              (subst (λ k. Spells buf k (b'\r' ∷ printed fs)) {x = m} (omega arith) text)) in
        (_, stripped.0, stripped.1))
next_lines fs buf m p left h text (inr long) size =
    let moved : Spells (copy_down buf (p + 1) 0 left) 0 (printed fs) =
      Spells-copy_down buf (p + 1) left 0 (printed fs) (omega arith) (omega arith)
        (subst (λ k. Spells buf k (printed fs)) {x = m + 1} (omega arith) (text.1)) in
    (
      copy_down buf (p + 1) 0 left,
      subst
          (λ k.
            strip (copy_down buf (p + 1) 0 left) k
            ≡ (copy_down buf (p + 1) 0 left, length (printed fs)))
          {x = length (printed fs)} (omega arith)
          (strip-Starts _ (printed fs) (printed-Starts fs h) moved),
      moved,
    )

-- One round of the loop over a buffer that holds the lines of `f` and of `fs`.
record Round (f : SlcFrame) (fs : List SlcFrame) (buf : Buffer) (n : ℕ) : Type 0 where
  used : Buffer
  p : ℕ
  front : Buffer
  nonempty : (n == 0) ≡ false
  ready : has_cr buf 0 n ≡ true
  handled : command (buf 0) (update buf n 0) n ≡ write_frame used p f
  stripped :
      strip (copy_down used (p + 1) 0 (n - (p + 1))) (n - (p + 1)) ≡ (front, length (printed fs))
  lines : Spells front 0 (printed fs)
  last : (n ≤ p + 1) → fs ≡ []

nothing_printed : (fs : List SlcFrame) → All IsData fs → length (printed fs) ≡ 0 → fs ≡ []
nothing_printed [] h e = refl
nothing_printed (f ∷ fs) h e =
    let (t, text, taken) = can2pty-Taken f h.0 in
    absurd (
      omega (
        arith,
        e,
        length-append (can2pty f none) (printed fs),
        ap length text,
        length-append t (b'\r' ∷ []),
      ))

line-Round :
    (f : SlcFrame) (fs : List SlcFrame) (t : List ℕ) (buf : Buffer) (n : ℕ)
    → Taken f t
    → All IsData fs
    → n ≡ length t + suc (length (printed fs))
    → has_cr buf 0 n ≡ true
    → Spells buf 0 t
    → Spells buf (length t) (b'\r' ∷ printed fs)
    → Round f fs buf n
unfolding update
line-Round f fs t buf n taken h size ready front behind =
    let cut = update buf n 0 in
    let (p, j, handled, low, end) =
      taken.take (buf 0) cut n (ground (arith, size))
        (Spells-update buf n 0 0 t (inr (omega (arith, size))) front) in
    let used = update cut j 0 in
    let (next, stripped, lines) =
      next_lines fs used (length t) p (n - (p + 1)) h
        (Spells-update cut j 0 (length t) (b'\r' ∷ printed fs) (inl low) (
          Spells-update buf n 0 (length t) (b'\r' ∷ printed fs) (inr (omega (arith, size))) behind))
        end (omega (arith, size)) in
    record {
      used = used;
      p = p;
      front = next;
      nonempty = ground (arith, size);
      ready = ready;
      handled = handled;
      stripped = stripped;
      lines = lines;
      last = λ short. nothing_printed fs h (omega (arith, size, end, short));
    }

printed-Round :
    (f : SlcFrame) (fs : List SlcFrame) (buf : Buffer)
    → All IsData (f ∷ fs)
    → Spells buf 0 (printed (f ∷ fs))
    → Round f fs buf (length (printed (f ∷ fs)))
printed-Round f fs buf h text =
    let (t, line, taken) = can2pty-Taken f h.0 in
    let whole : printed (f ∷ fs) ≡ t ++ (b'\r' ∷ printed fs) =
      ap (λ k. k ++ printed fs) line ∙ append_assoc t (b'\r' ∷ []) (printed fs) in
    let parts = Spells-append buf 0 t (b'\r' ∷ printed fs) (subst (Spells buf 0) whole text) in
    line-Round f fs t buf _ taken h.1 (ap length whole ∙ length-append t (b'\r' ∷ printed fs))
      (subst (λ k. has_cr buf 0 (length k) ≡ true) (sym whole)
        (has_cr-Spells buf 0 t (printed fs) (subst (Spells buf 0) whole text)))
      parts.0
      (subst (λ k. Spells buf k (b'\r' ∷ printed fs)) {x = 0 + length t} (omega arith) parts.1)

length-printed : (fs : List SlcFrame) → All IsData fs → length fs ≤ length (printed fs)
length-printed [] h = omega arith
length-printed (f ∷ fs) h =
    let (t, text, taken) = can2pty-Taken f h.0 in
    omega (
      arith,
      length-printed fs h.1,
      length-append (can2pty f none) (printed fs),
      ap length text,
      length-append t (b'\r' ∷ []),
    )

module _ (w : Writes) (socket_ok : (k : ℕ) → w.socket_ok k ≡ true)
    (pty_ok : (k : ℕ) → w.pty_ok k ≡ true) where
  -- Once line ends at the front are removed, the buffer holds the lines.
  rx_restart-printed :
      (fs : List SlcFrame) (fuel k : ℕ) (s : Slcan) (nbytes : ℕ) (buf : Buffer)
      → All IsData fs
      → s.rxoffset ≡ 0
      → length fs < fuel
      → strip s.buf nbytes ≡ (buf, length (printed fs))
      → Spells buf 0 (printed fs)
      → Done fs (rx_restart fuel w k s nbytes)
  unfolding rx_restart settings
  rx_restart-printed fs zero k s nbytes buf data_frames offset enough e h = absurd (omega arith)
  rx_restart-printed [] (suc fuel) k s nbytes buf data_frames offset enough e h = rw e (record {
    run = ended 0 (record s { buf = buf });
    returns = refl;
    ret = refl;
    frames = refl;
    replies = refl;
    rxoffset = offset;
  })
  rx_restart-printed (f ∷ fs) (suc fuel) k s nbytes buf data_frames offset enough e h =
      let n = length (printed (f ∷ fs)) in
      let round = printed-Round f fs buf data_frames h in
      let after = record (settings (record s { buf = update buf n 0 })) { buf = round.used } in
      let next = record after { buf = copy_down round.used (round.p + 1) 0 (n - (round.p + 1)) } in
      let rest =
        rx_restart-printed fs fuel (k + 1) next (n - (round.p + 1)) round.front data_frames.1 offset
          (omega (arith, enough)) round.stripped round.lines in
      rw (e, round.nonempty, round.ready, round.handled, socket_ok k, pty_ok k)
        (Done-if f fs round.used round.p (ltb (round.p + 1) n) after rest
          (λ stops. round.last (ground (arith, stops))) offset)

  pty2can_read :
      (s : Slcan) (input : List ℕ)
      → input ≢ []
      → pty2can w s input
        ≡ rx_restart buf_size w 0
            (record s { buf = store s.buf s.rxoffset input; rxoffset = 0 })
            (length input + s.rxoffset)
  unfolding pty2can
  pty2can_read s [] some_byte = absurd (some_byte refl)
  pty2can_read s (c ∷ input) some_byte = refl

  -- `pty2can` reads back the lines that `can2pty` prints without time stamps. If it has no unfinished line in its buffer, every
  -- write succeeds and the lines of one or more data frames fit the buffer with its NUL, then a
  -- call on these lines returns 0, writes exactly these frames to the socket in their order,
  -- answers each with a line end, and leaves no unfinished line.
  pub pty2can-can2pty :
      (fs : List SlcFrame) (s : Slcan)
      → fs ≢ []
      → All IsData fs
      → s.rxoffset ≡ 0
      → length (printed fs) < buf_size
      → Done fs (pty2can w s (printed fs))
  pty2can-can2pty fs s some_frame h offset fits =
      let text : Spells (store s.buf s.rxoffset (printed fs)) 0 (printed fs) =
        subst (λ k. Spells (store s.buf s.rxoffset (printed fs)) k (printed fs)) offset
          (store-Spells s.buf s.rxoffset (printed fs)) in
      let size : length (printed fs) + s.rxoffset ≡ length (printed fs) = omega (arith, offset) in
      rw (pty2can_read s (printed fs) (λ e. some_frame (nothing_printed fs h (ap length e)))) (
        rx_restart-printed fs buf_size 0
          (record s { buf = store s.buf s.rxoffset (printed fs); rxoffset = 0 }) _ _ h refl
          (omega (arith, fits, length-printed fs h))
          (ap (strip _) size ∙ strip-Starts _ (printed fs) (printed-Starts fs h) text) text)
