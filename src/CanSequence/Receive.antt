-- ===== src/CanSequence/Receive.antt =====
-- What the receiver counts: nothing while the numbers follow one another, one for each gap.
use can_utils.Base.{
  ℕ, zero, suc, ◌+◌, ◌%◌, ◌^◌, ◌<◌, List, [], ◌∷◌, ◌++◌, map, true, false, ◌≡◌, ◌≢◌, refl, ap, sym,
  arith, append-nil, length, ◌∙◌, none, some, if◌then◌else◌, bit_and, is_set,
}
use can_utils.Frame.{can_err_flag, can_mtu, canfd_mtu}
use can_utils.CanSequence.{
  Options, Message, Receiver, compare_sequence, receive_one, do_receive, start_receiver, do_send,
  Sender, Write,
}
use can_utils.CanSequence.Send.{numbers, do_send-numbers}

-- What a sender with the same options puts on the bus.
abbrev pub clean : Options → ℕ → ℕ → Message
clean o can_id byte = record {
  can_id = can_id;
  first_byte = byte;
  nbytes = if o.canfd then canfd_mtu else can_mtu;
  overflow = none;
}

-- No error flag in the identifier, and no limit on the rounds; `main` clears `canfd_strict`
-- without CAN FD.
pub record IsListening (o : Options) (can_id : ℕ) : Type 0 where
  pub no_error : is_set (bit_and can_id can_err_flag) ≡ false
  pub endless : o.infinite ≡ true
  pub strict_fd : o.canfd_strict ≡ true → o.canfd ≡ true

module _ (o : Options) (can_id : ℕ) (l : IsListening o can_id) where
  receive_one-clean :
      (byte : ℕ) (r : Receiver)
      → receive_one o (clean o can_id byte) r ≡ compare_sequence o (clean o can_id byte) r
  unfolding receive_one
  receive_one-clean byte r = rw l.no_error (ground (arith, l.strict_fd))

  do_receive-clean :
      (loopcount byte : ℕ) (bytes : List ℕ) (r next : Receiver)
      → compare_sequence o (clean o can_id byte) r ≡ some next
      → do_receive o loopcount r (map (clean o can_id) (byte ∷ bytes))
        ≡ do_receive o loopcount next (map (clean o can_id) bytes)
  unfolding do_receive
  do_receive-clean loopcount byte bytes r next h =
      simp (l.endless, receive_one-clean byte r, h) refl

  expected :
      (byte : ℕ) (r : Receiver)
      → byte < 256
      → r.sequence_init ≡ false
      → r.sequence % 256 ≡ byte
      → compare_sequence o (clean o can_id byte) r
        ≡ some (record r { sequence = (r.sequence + 1) % 2 ^ 32 })
  unfolding compare_sequence
  expected byte r small init same = ground (arith, init, same)

  -- A run of numbers that goes on where the receiver stands.
  do_receive-numbers :
      (n k loopcount : ℕ) (r : Receiver) (rest : List ℕ)
      → r.sequence_init ≡ false
      → r.sequence % 256 ≡ k % 256
      → r.sequence < 2 ^ 32
      → do_receive o loopcount r (map (clean o can_id) (numbers k n ++ rest))
        ≡ do_receive o loopcount
            (record r { sequence = (r.sequence + n) % 2 ^ 32 })
            (map (clean o can_id) rest)
  do_receive-numbers zero k loopcount r rest init same small =
      ap (λ s. do_receive o loopcount (record r { sequence = s }) (map (clean o can_id) rest))
        {y = (r.sequence + 0) % 2 ^ 32} (omega arith)
  do_receive-numbers (suc n) k loopcount r rest init same small =
      do_receive-clean loopcount (k % 256) (numbers (k + 1) n ++ rest) r _
        (expected (k % 256) r (omega arith) init same)
      ∙ do_receive-numbers n (k + 1) loopcount (record r { sequence = (r.sequence + 1) % 2 ^ 32 })
          rest init (omega arith) (omega arith)
      ∙ ap (λ s. do_receive o loopcount (record r { sequence = s }) (map (clean o can_id) rest))
          {x = ((r.sequence + 1) % 2 ^ 32 + n) % 2 ^ 32} {y = (r.sequence + suc n) % 2 ^ 32}
          (omega arith)

  -- The receiver after a first run of numbers.
  abbrev following : ℕ → ℕ → ℕ → Receiver
  following sequence overflow drops = record {
    sequence_init = false;
    sequence = sequence % 2 ^ 32;
    overflow_old = overflow;
    drop_count = drops;
  }

  first_run :
      (n k loopcount : ℕ) (rest : List ℕ)
      → do_receive o loopcount start_receiver (map (clean o can_id) (numbers k (suc n) ++ rest))
        ≡ do_receive o loopcount (following (k % 2 ^ 8 + suc n) 0 0) (map (clean o can_id) rest)
  unfolding compare_sequence
  first_run n k loopcount rest =
      do_receive-clean loopcount (k % 256) (numbers (k + 1) n ++ rest) start_receiver
        (following (k % 2 ^ 8 + 1) 0 0) (ground arith)
      ∙ do_receive-numbers n (k + 1) loopcount (following (k % 2 ^ 8 + 1) 0 0) rest refl
          (omega arith) (omega arith)
      ∙ ap (λ s. do_receive o loopcount (following s 0 0) (map (clean o can_id) rest))
          {x = (k % 2 ^ 8 + 1) % 2 ^ 32 + n} {y = k % 2 ^ 8 + suc n} (omega arith)

  -- The number after a gap of `j`.
  after_gap :
      (s j : ℕ)
      → 0 < j
      → j < 256
      → o.drop_until_quit ≢ 1
      → compare_sequence o (clean o can_id ((s + j) % 2 ^ 8)) (following s 0 0)
        ≡ some (following ((s + j) % 2 ^ 8 + 1) 0 1)
  unfolding compare_sequence
  after_gap s j pos small quit = ground (arith, pos, small, quit)

  second_run :
      (m s j loopcount : ℕ)
      → 0 < j
      → j < 256
      → o.drop_until_quit ≢ 1
      → do_receive o loopcount (following s 0 0) (map (clean o can_id) (numbers (s + j) (suc m)))
        ≡ some (following ((s + j) % 2 ^ 8 + suc m) 0 1)
  unfolding do_receive
  second_run m s j loopcount pos small quit =
      do_receive-clean loopcount ((s + j) % 2 ^ 8) (numbers (s + j + 1) m) (following s 0 0)
        (following ((s + j) % 2 ^ 8 + 1) 0 1) (after_gap s j pos small quit)
      ∙ ap
          (λ l.
            do_receive o loopcount (following ((s + j) % 2 ^ 8 + 1) 0 1) (map (clean o can_id) l))
          (sym (append-nil (numbers (s + j + 1) m)))
      ∙ do_receive-numbers m (s + j + 1) loopcount (following ((s + j) % 2 ^ 8 + 1) 0 1) [] refl
          (omega arith) (omega arith)
      ∙ ap (λ t. some (following t 0 1)) {x = ((s + j) % 2 ^ 8 + 1) % 2 ^ 32 + m}
          {y = (s + j) % 2 ^ 8 + suc m} (omega arith)

  received :
      (n k loopcount : ℕ)
      → (r : Receiver) × (do_receive o loopcount start_receiver (map (clean o can_id) (numbers k n))
          ≡ some r)
        × (r.drop_count ≡ 0)
  unfolding do_receive
  received zero k loopcount = (start_receiver, refl, refl)
  received (suc n) k loopcount = (
    following (k % 2 ^ 8 + suc n) 0 0,
    ap (λ l. do_receive o loopcount start_receiver (map (clean o can_id) l))
          (sym (append-nil (numbers k (suc n))))
        ∙ first_run n k loopcount [],
    refl,
  )

  -- Whatever the results of its writes, the frames that a sender gets on the bus are received
  -- without an incident, by a receiver that starts with the first of them.
  pub do_receive-do_send :
      (sender : Options) (sends receives : ℕ) (s : Sender) (results : List Write)
      → s.first_byte < 256
      → (r : Receiver) × (do_receive o receives start_receiver
            (map (clean o can_id) (do_send sender sends s results).0)
          ≡ some r)
        × (r.drop_count ≡ 0)
  do_receive-do_send sender sends receives s results small =
      let (r, e, clear) =
        received (length (do_send sender sends s results).0) s.first_byte receives in
      (
        r,
        ap (λ l. do_receive o receives start_receiver (map (clean o can_id) l))
              (do_send-numbers sender sends s results small)
            ∙ e,
        clear,
      )

  -- A gap of 1 to 255 frames between two runs is one incident, and the receiver follows the second
  -- run, if it does not quit at the first incident.
  pub do_receive-gap :
      (k n j m loopcount : ℕ)
      → k < 256
      → 0 < j
      → j < 256
      → o.drop_until_quit ≢ 1
      → (r : Receiver) × (do_receive o loopcount start_receiver
            (map (clean o can_id) (numbers k (suc n) ++ numbers (k + suc n + j) (suc m)))
          ≡ some r)
        × (r.drop_count ≡ 1)
        × (r.sequence % 2 ^ 8 ≡ (k + suc n + j + suc m) % 2 ^ 8)
  do_receive-gap k n j m loopcount byte pos small quit = (
    following ((k + suc n + j) % 2 ^ 8 + suc m) 0 1,
    first_run n k loopcount (numbers (k + suc n + j) (suc m))
        ∙ ap
            (λ s.
              do_receive o loopcount (following s 0 0)
                (map (clean o can_id) (numbers (k + suc n + j) (suc m))))
            {y = k + suc n} (omega arith)
        ∙ second_run m (k + suc n) j loopcount pos small quit,
    refl,
    omega arith,
  )
