-- ===== src/J1939Acd/Rounds.antt =====
-- What the rounds of the loop keep of the table.
use can_utils.Base.{
  Option, none, some, [], ◌∷◌, ℕ, List, false, not, ◌||◌, ◌==◌, ltb, leb, inl, inr, arith,
  Bool-cases,
}
use can_utils.J1939Acd.{Entry, choose_new_sa, j1939_idle_addr}
use can_utils.J1939Acd.Loop.{
  Acd, Kernel, Message, Outcome, running, done, failed, after_recv, on_claimed, on_request,
  on_commanded, collide, claim_address, sent, Call, claim, itimer, requested_pgn,
  j1939_pgn_address_claimed, state_initial, state_req_sent, state_req_pending, state_operational,
  AcdState, before_recv, round, in_state, after_calls, repeat_claim, j1939_pgn_request,
  j1939_pgn_address_commanded, name_of,
}
use can_utils.J1939Acd.Names.{IsTable, learn-IsTable, forget-IsTable}

-- What a round leaves, if it leaves anything.
abbrev pub Leaves : (Acd → Type 0) → Outcome → Type 0
Leaves P (running s calls) = P s
Leaves P (done s) = P s
Leaves P failed = ℕ

sent-Leaves :
    (P : List Entry → Type 0) (kernel : Kernel) (s : Acd) (call : Call)
    → P s.addr
    → Leaves (λ r. P r.addr) (sent kernel s call)
unfolding sent
sent-Leaves P kernel s call h = elim (Bool-cases kernel.sends) [
  | inl good ↦ rw good h
  | inr bad ↦ rw bad h
]

claim_address-Leaves :
    (P : List Entry → Type 0) (kernel : Kernel) (s : Acd) (sa : ℕ)
    → P s.addr
    → Leaves (λ r. P r.addr) (claim_address kernel s sa)
unfolding claim_address sent
claim_address-Leaves P kernel s sa h = elim (Bool-cases kernel.binds) [
  | inl good ↦ rw good (sent-Leaves P kernel (record s { last_sa = sa }) (claim sa) h)
  | inr bad ↦ rw bad 0
]

collide-Leaves :
    (P : List Entry → Type 0) (kernel : Kernel) (s : Acd) (name sa : ℕ)
    → P s.addr
    → Leaves (λ r. P r.addr) (collide kernel s name sa)
unfolding collide
collide-Leaves P kernel s name sa h = elim (Bool-cases (ltb name s.name)) [
  | inl lost ↦ rw lost (elim (Bool-cases (choose_new_sa s.addr s.name sa == j1939_idle_addr)) [
    | inl nothing ↦ rw nothing h
    | inr other ↦ rw other (claim_address-Leaves P kernel s _ h)
  ])
  | inr won ↦ rw won (claim_address-Leaves P kernel s sa h)
]

on_claimed-Leaves :
    (kernel : Kernel) (s : Acd) (m : Message)
    → IsTable s.addr
    → Leaves (λ r. IsTable r.addr) (on_claimed kernel s m)
unfolding on_claimed
on_claimed-Leaves kernel s m t = elim (Bool-cases (leb j1939_idle_addr m.addr)) [
  | inl idle ↦ rw idle (forget-IsTable s.addr m.name m.addr t)
  | inr some_addr ↦
      let learnt = learn-IsTable s.addr m.name m.addr t (ground (arith, some_addr)) in
      rw some_addr (elim (Bool-cases (s.name == m.name)) [
        | inl self ↦ rw self learnt
        | inr other ↦ rw other (elim (Bool-cases (m.addr == s.current_sa)) [
          | inl clash ↦ rw clash (collide-Leaves IsTable kernel _ m.name m.addr learnt)
          | inr apart ↦ rw apart learnt
        ])
      ])
]

on_request-Leaves :
    (P : List Entry → Type 0) (kernel : Kernel) (s : Acd) (m : Message)
    → P s.addr
    → Leaves (λ r. P r.addr) (on_request kernel s m)
unfolding on_request
on_request-Leaves P kernel s m h =
    elim (Bool-cases (ltb m.ret 3 || not (requested_pgn m.dat == j1939_pgn_address_claimed))) [
      | inl ignored ↦ rw ignored h
      | inr asked ↦ rw asked (by_state s.state)
    ]
  where
    by_state :
        (state : AcdState)
        → Leaves
            (λ r. P r.addr)
            (elim state [
              | state_initial ↦ running s []
              | state_req_sent ↦
                  running
                    (record s { sig_alrm = false; state = state_req_pending })
                    (itimer 1250 ∷ [])
              | state_req_pending ↦ running s []
              | state_operational ↦ claim_address kernel s s.current_sa
            ])
    by_state state_initial = h
    by_state state_req_sent = h
    by_state state_req_pending = h
    by_state state_operational = claim_address-Leaves P kernel s s.current_sa h

on_commanded-Leaves :
    (P : List Entry → Type 0) (kernel : Kernel) (s : Acd) (m : Message)
    → P s.addr
    → Leaves (λ r. P r.addr) (on_commanded kernel s m)
unfolding on_commanded
on_commanded-Leaves P kernel s m h = elim (Bool-cases (name_of 8 0 m.dat == s.name)) [
  | inl ours ↦ rw ours (claim_address-Leaves P kernel s _ h)
  | inr other ↦ rw other h
]

after_recv-Leaves :
    (kernel : Kernel) (s : Acd) (m : Message)
    → IsTable s.addr
    → Leaves (λ r. IsTable r.addr) (after_recv kernel s m)
unfolding after_recv
after_recv-Leaves kernel s m t = elim (Bool-cases (m.pgn == j1939_pgn_request)) [
  | inl request ↦ rw request (on_request-Leaves IsTable kernel s m t)
  | inr other ↦ rw other (elim (Bool-cases (m.pgn == j1939_pgn_address_claimed)) [
    | inl claimed ↦ rw claimed (on_claimed-Leaves kernel s m t)
    | inr rest ↦ rw rest (elim (Bool-cases (m.pgn == j1939_pgn_address_commanded)) [
      | inl commanded ↦ rw commanded (on_commanded-Leaves IsTable kernel s m t)
      | inr unknown ↦ rw unknown t
    ])
  ])
]

in_state-Leaves :
    (P : List Entry → Type 0) (kernel : Kernel) (s : Acd) (state : AcdState)
    → P s.addr
    → Leaves (λ r. P r.addr) (in_state kernel s state)
unfolding in_state
in_state-Leaves P kernel s state_initial h = elim (Bool-cases kernel.sends) [
  | inl good ↦ rw good h
  | inr bad ↦ rw bad 0
]
in_state-Leaves P kernel s state_req_sent h = h
in_state-Leaves P kernel s state_req_pending h = elim (Bool-cases s.sig_alrm) [
  | inl alarm ↦
      let sa : ℕ = choose_new_sa s.addr s.name s.current_sa in
      rw alarm (elim (Bool-cases (sa == j1939_idle_addr)) [
        | inl nothing ↦ rw nothing 0
        | inr some_addr ↦ rw some_addr (claim_address-Leaves P kernel _ sa h)
      ])
  | inr quiet ↦ rw quiet h
]
in_state-Leaves P kernel s state_operational h = elim (Bool-cases s.sig_alrm) [
  | inl alarm ↦ rw alarm (sent-Leaves P kernel (record s { sig_alrm = false }) repeat_claim h)
  | inr quiet ↦ rw quiet h
]

after_calls-Leaves :
    (P : Acd → Type 0) (calls : List Call) (o : Outcome)
    → Leaves P o
    → Leaves P (after_calls calls o)
unfolding after_calls
after_calls-Leaves P calls (running s more) h = h
after_calls-Leaves P calls (done s) h = h
after_calls-Leaves P calls failed h = h

-- Every round of the loop keeps a table of 254 entries in which no name stands twice, whatever
-- message arrives and whichever calls fail.
pub round-IsTable :
    (first second : Kernel) (message : Option Message) (s : Acd)
    → IsTable s.addr
    → Leaves (λ r. IsTable r.addr) (round first second message s)
unfolding round before_recv
round-IsTable first second message s t =
    both (in_state first s s.state) message (in_state-Leaves IsTable first s s.state t)
  where
    both :
        (o : Outcome) (message : Option Message)
        → Leaves (λ r. IsTable r.addr) o
        → Leaves
            (λ r. IsTable r.addr)
            (elim o [
              | running next calls ↦ elim message [
                | none ↦ running next calls
                | some m ↦ after_calls calls (after_recv second next m)
              ]
              | done next ↦ done next
              | failed ↦ failed
            ])
    both (running next calls) none h = h
    both (running next calls) (some m) h =
        after_calls-Leaves _ calls _ (after_recv-Leaves second next m h)
    both (done next) message h = h
    both failed message h = h
