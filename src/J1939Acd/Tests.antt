-- ===== src/J1939Acd/Tests.antt =====
-- The daemon at a table of two addresses in range, 0x80 and 0x81.
use can_utils.Base.{
  ==_iff, ℕ, ◌<◌, List, [], ◌∷◌, ◌++◌, true, false, some, ◌≡◌, ◌≢◌, ◌⊎◌, refl, arith, replicate,
  all_below, all_below_sound, ◌==◌,
}
use can_utils.J1939Acd.{
  Entry, entry_at, first_addr, next_addr, lookup_name, choose_new_sa, j1939_idle_addr,
}
use can_utils.J1939Acd.Choose.{Claimable, choose_new_sa-Claimable}
use can_utils.J1939Acd.Loop.{
  Acd, Kernel, Message, running, done, state_operational, on_claimed, learn, claim_address, round,
}
use can_utils.J1939Acd.Names.{IsTable, name_at, lookup_name_finds}
use can_utils.J1939Acd.Rounds.{Leaves, round-IsTable}
use can_utils.J1939Acd.Defence.{on_claimed_self, on_claimed_lost}

abbrev outside : Entry
outside = record { name = 0; in_use = false; seen = false }

abbrev inside : Entry
inside = record { name = 0; in_use = true; seen = false }

abbrev fresh : List Entry
fresh = replicate 128 outside ++ (inside ∷ inside ∷ replicate 124 outside)

first_free : choose_new_sa fresh 7 j1939_idle_addr ≡ 0x80
unfolding choose_new_sa first_addr next_addr
first_free = refl

no_names : all_below 254 (λ i. name_at fresh i == 0) ≡ true
unfolding all_below
no_names = refl

fresh-IsTable : IsTable fresh
fresh-IsTable = record {
  full = refl;
  once = λ i j hi hj ne same. absurd (
      ne (
        (==_iff (name_at fresh i) 0).0
          (all_below_sound 254 (λ i. name_at fresh i == 0) i no_names hi)));
}

abbrev kernel : Kernel
kernel = record { binds = true; sends = true }

abbrev node : Acd
node = record {
  name = 7;
  addr = fresh;
  current_sa = 0x80;
  last_sa = 0x80;
  sig_alrm = false;
  state = state_operational;
}

-- The name 5 claims the address 0x80.
abbrev stronger : Message
stronger = record { ret = 8; pgn = 0x0ee00; addr = 0x80; name = 5; dat = 5 ∷ [] }

abbrev own : Message
own = record { ret = 8; pgn = 0x0ee00; addr = 0x80; name = 7; dat = 7 ∷ [] }

choose_new_sa-Claimable_example :
    ((choose_new_sa fresh 7 0x80 < j1939_idle_addr)
      × Claimable fresh 7 (choose_new_sa fresh 7 0x80))
    ⊎ ((choose_new_sa fresh 7 0x80 ≡ j1939_idle_addr)
        × ((k : ℕ)
            → k < j1939_idle_addr
            → (entry_at fresh k).in_use ≡ true
            → ((entry_at fresh k).name ≢ 0) × ((entry_at fresh k).name < 7)))
choose_new_sa-Claimable_example = choose_new_sa-Claimable fresh 7 0x80

lookup_name_finds_example :
    ((lookup_name fresh 7 < j1939_idle_addr) × (name_at fresh (lookup_name fresh 7) ≡ 7))
    ⊎ ((lookup_name fresh 7 ≡ j1939_idle_addr)
        × ((k : ℕ) → k < j1939_idle_addr → name_at fresh k ≢ 7))
lookup_name_finds_example = lookup_name_finds fresh 7

round-IsTable_example : Leaves (λ r. IsTable r.addr) (round kernel kernel (some stronger) node)
round-IsTable_example = round-IsTable kernel kernel (some stronger) node fresh-IsTable

not_zero_7 : ◌≢◌ {A = ℕ} 7 0
not_zero_7 = ground arith

not_zero_5 : ◌≢◌ {A = ℕ} 5 0
not_zero_5 = ground arith

on_claimed_self_example :
    (r : Acd) × (on_claimed kernel node own ≡ running r [])
    × (r.current_sa ≡ 0x80)
    × (lookup_name r.addr 7 ≡ 0x80)
on_claimed_self_example =
    on_claimed_self kernel node own fresh-IsTable not_zero_7 refl (omega arith)

on_claimed_lost_example :
    ((on_claimed kernel node stronger
        ≡ done (record node { addr = learn fresh 5 0x80; current_sa = j1939_idle_addr }))
      × ((k : ℕ)
          → k < j1939_idle_addr
          → (entry_at (learn fresh 5 0x80) k).in_use ≡ true
          → (name_at (learn fresh 5 0x80) k ≢ 0) × (name_at (learn fresh 5 0x80) k < 7)))
    ⊎ ((sa : ℕ) × (on_claimed kernel node stronger
          ≡ claim_address kernel (record node { addr = learn fresh 5 0x80 }) sa)
        × (sa < j1939_idle_addr)
        × (sa ≢ 0x80)
        × Claimable (learn fresh 5 0x80) 7 sa)
on_claimed_lost_example =
    on_claimed_lost kernel node stronger fresh-IsTable refl (omega arith) not_zero_5 (omega arith)
