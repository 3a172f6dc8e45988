-- ===== src/J1939Acd/Defence.antt =====
-- How a node answers a claim of its own address.
use can_utils.Base.{
  [], ℕ, ◌<◌, List, true, false, ◌==◌, leb, ◌≡◌, ◌≢◌, ◌⊎◌, inl, inr, refl, arith, set, length-set,
  subst, ◌∙◌, sym, ne→==, lt→ltb, ==_iff, ==_refl,
}
use can_utils.J1939Acd.{Entry, entry_at, lookup_name, choose_new_sa, j1939_idle_addr}
use can_utils.J1939Acd.Choose.{Claimable, choose_new_sa-Claimable}
use can_utils.J1939Acd.Loop.{
  Acd, Kernel, Message, running, done, learn, forget, set_name, set_seen, on_claimed, collide,
  claim_address,
}
use can_utils.J1939Acd.Names.{
  IsTable, name_at, learn-IsTable, forget-IsTable, name_at-set, lookup_name_finds,
}

learnt :
    (addr : List Entry) (name sa : ℕ)
    → IsTable addr
    → sa < j1939_idle_addr
    → name_at (learn addr name sa) sa ≡ name
unfolding learn set_seen set_name
learnt addr name sa t h =
    let old : List Entry = forget addr name sa in
    let v : Entry = record (entry_at old sa) { name = name } in
    let full = (forget-IsTable addr name sa t).full in
    ground (
      arith,
      full,
      length-set old sa v,
      name_at-set old sa v sa,
      name_at-set (set old sa v) sa (record (entry_at (set old sa v) sa) { seen = true }) sa,
      ==_refl sa,
    )

lookup-learn :
    (addr : List Entry) (name sa : ℕ)
    → IsTable addr
    → name ≢ 0
    → sa < j1939_idle_addr
    → lookup_name (learn addr name sa) name ≡ sa
lookup-learn addr name sa t some_name h =
    let here = learnt addr name sa t h in
    elim (lookup_name_finds (learn addr name sa) name) [
      | inl found ↦
          (learn-IsTable addr name sa t h).once _ sa found.0 h (λ e. some_name (sym found.1 ∙ e))
            (found.1 ∙ sym here)
      | inr missing ↦ absurd (missing.1 sa h here)
    ]

-- A node that hears its own claim takes the address for its own, and finds itself there.
pub on_claimed_self :
    (kernel : Kernel) (s : Acd) (m : Message)
    → IsTable s.addr
    → s.name ≢ 0
    → m.name ≡ s.name
    → m.addr < j1939_idle_addr
    → (r : Acd) × (on_claimed kernel s m ≡ running r [])
      × (r.current_sa ≡ m.addr)
      × (lookup_name r.addr s.name ≡ m.addr)
unfolding on_claimed
on_claimed_self kernel s m t some_name same small =
    rw (not_idle, (==_iff s.name m.name).1 (sym same))
      (
        _,
        refl,
        refl,
        subst (λ n. lookup_name (learn s.addr m.name m.addr) n ≡ m.addr) same
            (lookup-learn s.addr m.name m.addr t (λ e. some_name (sym same ∙ e)) small),
      )
  where
    not_idle : leb j1939_idle_addr m.addr ≡ false
    not_idle = ground (arith, small)

-- When a stronger name claims the address of a node, the node stops only if no address of the range
-- is free and each is held by a stronger name, and else claims an address of the range that is free
-- or held by no stronger name, which is not the one it lost.
pub on_claimed_lost :
    (kernel : Kernel) (s : Acd) (m : Message)
    → IsTable s.addr
    → m.addr ≡ s.current_sa
    → m.addr < j1939_idle_addr
    → m.name ≢ 0
    → m.name < s.name
    → ((on_claimed kernel s m
          ≡ done (record s { addr = learn s.addr m.name m.addr; current_sa = j1939_idle_addr }))
        × ((k : ℕ)
            → k < j1939_idle_addr
            → (entry_at (learn s.addr m.name m.addr) k).in_use ≡ true
            → (name_at (learn s.addr m.name m.addr) k ≢ 0)
              × (name_at (learn s.addr m.name m.addr) k < s.name)))
      ⊎ ((sa : ℕ) × (on_claimed kernel s m
            ≡ claim_address kernel (record s { addr = learn s.addr m.name m.addr }) sa)
          × (sa < j1939_idle_addr)
          × (sa ≢ m.addr)
          × Claimable (learn s.addr m.name m.addr) s.name sa)
unfolding on_claimed collide
on_claimed_lost kernel s m t here small some_name stronger =
    rw (not_idle, other, (==_iff m.addr s.current_sa).1 here, lt→ltb m.name s.name stronger)
      (elim (choose_new_sa-Claimable known s.name m.addr) [
        | inl found ↦ inr (
          choose_new_sa known s.name m.addr,
          rw (ne→== (choose_new_sa known s.name m.addr) j1939_idle_addr (ground (arith, found.0)))
              refl,
          found.0,
          moved found.1,
          found.1,
        )
        | inr nothing ↦ inl (rw (nothing.0) refl, λ k low used. nothing.1 k low used)
      ])
  where
    known : List Entry
    known = learn s.addr m.name m.addr

    not_idle : leb j1939_idle_addr m.addr ≡ false
    not_idle = ground (arith, small)

    other : (s.name == m.name) ≡ false
    other = ground (arith, stronger)

    moved :
        Claimable known s.name (choose_new_sa known s.name m.addr)
        → choose_new_sa known s.name m.addr ≢ m.addr
    moved good e =
        let lost : Claimable known s.name m.addr = subst (Claimable known s.name) e good in
        ground (arith, lost, learnt s.addr m.name m.addr t small)
