-- ===== src/J1939Acd/Loop.antt =====
-- The loop of `main`: a round acts on the state and on pending signals, and then handles one
-- message. What the calls of the kernel return is a parameter.
use can_utils.Base.{
  ℕ, zero, suc, ◌+◌, ◌*◌, ◌^◌, List, [], ◌∷◌, ◌++◌, Bool, true, false, not, ◌&&◌, ◌||◌, ◌==◌, ltb,
  leb, if◌then◌else◌, get_or, set, bit_and, Option, none, some,
}
use can_utils.J1939Acd.{Entry, entry_at, lookup_name, choose_new_sa, j1939_idle_addr}

pub data AcdState : Type 0 where
  state_initial : AcdState
  state_req_sent : AcdState
  state_req_pending : AcdState
  state_operational : AcdState

-- The variables `s` and `addr`.
pub record Acd : Type 0 where
  pub name : ℕ
  pub addr : List Entry
  pub current_sa : ℕ
  pub last_sa : ℕ
  pub sig_alrm : Bool
  pub state : AcdState

-- The calls of the kernel: bind and send an address claim, repeat it, request all claims, set the
-- timer.
pub data Call : Type 0 where
  claim : ℕ → Call
  repeat_claim : Call
  request_claims : Call
  itimer : ℕ → Call

-- Whether `bind` and `sendto` succeed.
pub record Kernel : Type 0 where
  pub binds : Bool
  pub sends : Bool

-- A round goes on, leaves the loop for `done`, or ends the program with an error message.
pub data Outcome : Type 0 where
  running : Acd → List Call → Outcome
  done : Acd → Outcome
  failed : Outcome

-- `schedule_itimer(50)` after a send that failed.
unfoldable pub sent : Kernel → Acd → Call → Outcome
sent kernel s call =
    if kernel.sends
    then running s (call ∷ [])
    else running (record s { sig_alrm = false }) (call ∷ itimer 50 ∷ [])

-- `claim_address`, and the timer if its `repeat_address` fails.
unfoldable pub claim_address : Kernel → Acd → ℕ → Outcome
claim_address kernel s sa =
    if kernel.binds then sent kernel (record s { last_sa = sa }) (claim sa) else failed

-- The switch on the state, before a message is received.
unfoldable pub in_state : Kernel → Acd → AcdState → Outcome
in_state kernel s state_initial =
    if kernel.sends
    then running (record s { state = state_req_sent }) (request_claims ∷ [])
    else failed
in_state kernel s state_req_sent = running s []
in_state kernel s state_req_pending =
    let sa = choose_new_sa s.addr s.name s.current_sa in
    let next = record s { sig_alrm = false; state = state_operational } in
    if not s.sig_alrm
    then running s []
    else if sa == j1939_idle_addr
    then failed
    else claim_address kernel next sa
in_state kernel s state_operational =
    if s.sig_alrm then sent kernel (record s { sig_alrm = false }) repeat_claim else running s []

unfoldable pub before_recv : Kernel → Acd → Outcome
before_recv kernel s = in_state kernel s s.state

-- A message: what `recvfrom` returns, its PGN and sender, and the buffer `dat`.
pub record Message : Type 0 where
  pub ret : ℕ
  pub pgn : ℕ
  pub addr : ℕ
  pub name : ℕ
  pub dat : List ℕ

abbrev pub j1939_pgn_request : ℕ
j1939_pgn_request = 0x0ea00

abbrev pub j1939_pgn_address_claimed : ℕ
j1939_pgn_address_claimed = 0x0ee00

abbrev pub j1939_pgn_address_commanded : ℕ
j1939_pgn_address_commanded = 0x0fed8

-- The PGN that a request asks for.
unfoldable pub requested_pgn : List ℕ → ℕ
requested_pgn dat = get_or dat 0 0 + get_or dat 1 0 * 2 ^ 8 + bit_and (get_or dat 2 0) 0x03 * 2 ^ 16

unfoldable pub on_request : Kernel → Acd → Message → Outcome
on_request kernel s m =
    if ltb m.ret 3 || not (requested_pgn m.dat == j1939_pgn_address_claimed)
    then running s []
    else elim s.state [
      | state_initial ↦ running s []
      | state_req_sent ↦
          running (record s { sig_alrm = false; state = state_req_pending }) (itimer 1250 ∷ [])
      | state_req_pending ↦ running s []
      | state_operational ↦ claim_address kernel s s.current_sa
    ]

unfoldable pub set_name : List Entry → ℕ → ℕ → List Entry
set_name addr j name = set addr j (record (entry_at addr j) { name = name })

unfoldable pub set_seen : List Entry → ℕ → List Entry
set_seen addr j = set addr j (record (entry_at addr j) { seen = true })

-- The name leaves the address where it was. A name that claims the idle address leaves it too.
unfoldable pub forget : List Entry → ℕ → ℕ → List Entry
forget addr name sa =
    let old = lookup_name addr name in
    if not (old == sa) && ltb old j1939_idle_addr then set_name addr old 0 else addr

unfoldable pub learn : List Entry → ℕ → ℕ → List Entry
learn addr name sa = set_seen (set_name (forget addr name sa) sa name) sa

-- Another name claims the address of this node: the stronger one keeps it.
unfoldable pub collide : Kernel → Acd → ℕ → ℕ → Outcome
collide kernel s name sa =
    let other = choose_new_sa s.addr s.name sa in
    if ltb name s.name
    then (if other == j1939_idle_addr
        then done (record s { current_sa = other })
        else claim_address kernel s other)
    else claim_address kernel s sa

unfoldable pub on_claimed : Kernel → Acd → Message → Outcome
on_claimed kernel s m =
    let known = record s { addr = learn s.addr m.name m.addr } in
    if leb j1939_idle_addr m.addr
    then running (record s { addr = forget s.addr m.name m.addr }) []
    else if s.name == m.name
    then running (record known { current_sa = m.addr }) []
    else if m.addr == s.current_sa
    then collide kernel known m.name m.addr
    else running known []

-- The 8 bytes of a name, little-endian.
unfoldable pub name_of : ℕ → ℕ → List ℕ → ℕ
name_of zero i dat = 0
name_of (suc n) i dat = get_or dat i 0 + 2 ^ 8 * name_of n (i + 1) dat

unfoldable pub on_commanded : Kernel → Acd → Message → Outcome
on_commanded kernel s m =
    if name_of 8 0 m.dat == s.name then claim_address kernel s (get_or m.dat 8 0) else running s []

unfoldable pub after_recv : Kernel → Acd → Message → Outcome
after_recv kernel s m =
    if m.pgn == j1939_pgn_request
    then on_request kernel s m
    else if m.pgn == j1939_pgn_address_claimed
    then on_claimed kernel s m
    else if m.pgn == j1939_pgn_address_commanded
    then on_commanded kernel s m
    else running s []

unfoldable pub after_calls : List Call → Outcome → Outcome
after_calls calls (running s more) = running s (calls ++ more)
after_calls calls (done s) = done s
after_calls calls failed = failed

-- A round of the loop; `none` is a receive that a signal interrupts. The two parts may find the
-- kernel in different moods.
unfoldable pub round : Kernel → Kernel → Option Message → Acd → Outcome
round first second message s = elim (before_recv first s) [
  | running next calls ↦ elim message [
    | none ↦ running next calls
    | some m ↦ after_calls calls (after_recv second next m)
  ]
  | done next ↦ done next
  | failed ↦ failed
]

-- From `done:` on: the address is given up.
unfoldable pub shutdown : Kernel → Acd → Outcome
shutdown kernel s = claim_address kernel s j1939_idle_addr
