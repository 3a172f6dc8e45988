-- ===== src/J1939Acd.antt =====
-- j1939acd.c: the daemon that claims an address on a J1939 bus and defends it.
pub mod Choose
pub mod Names
pub mod Loop
pub mod Rounds
pub mod Defence
mod Tests
use can_utils.Base.{
  ℕ, zero, suc, ◌+◌, List, Bool, true, false, ◌&&◌, ◌||◌, ◌==◌, ltb, leb, if◌then◌else◌, get_or,
  set,
}

abbrev pub j1939_idle_addr : ℕ
j1939_idle_addr = 254

-- An entry of `addr`, its flags F_USE and F_SEEN as fields. The name 0 is none.
pub record Entry : Type 0 where
  pub name : ℕ
  pub in_use : Bool
  pub seen : Bool

abbrev pub entry_at : List Entry → ℕ → Entry
entry_at addr j = get_or addr j (record { name = 0; in_use = false; seen = false })

-- A loop over `n` addresses from `j` on: the first that passes the test, or the idle address.
unfoldable pub first_addr : (ℕ → Bool) → ℕ → ℕ → ℕ
first_addr test j zero = j1939_idle_addr
first_addr test j (suc n) = let rest = first_addr test (j + 1) n in if test j then j else rest

-- The same in a circle.
unfoldable pub next_addr : (ℕ → Bool) → ℕ → ℕ → ℕ
next_addr test j zero = j1939_idle_addr
next_addr test j (suc cnt) =
    let k = if leb j1939_idle_addr j then 0 else j in
    let rest = next_addr test (k + 1) cnt in if test k then k else rest

unfoldable pub lookup_name : List Entry → ℕ → ℕ
lookup_name addr name = first_addr (λ j. (entry_at addr j).name == name) 0 j1939_idle_addr

-- Not taken, or taken by this very name.
abbrev pub is_empty : List Entry → ℕ → ℕ → Bool
is_empty addr name j =
    (entry_at addr j).in_use && ((entry_at addr j).name == 0 || (entry_at addr j).name == name)

-- Taken by a name that loses against this one.
abbrev pub is_weaker : List Entry → ℕ → ℕ → Bool
is_weaker addr name j = (entry_at addr j).in_use && ltb name (entry_at addr j).name

unfoldable pub choose_new_sa : List Entry → ℕ → ℕ → ℕ
choose_new_sa addr name sa =
    let empty = first_addr (is_empty addr name) 0 j1939_idle_addr in
    let weaker = next_addr (is_weaker addr name) (sa + 1) j1939_idle_addr in
    if ltb sa j1939_idle_addr && (is_empty addr name sa || is_weaker addr name sa)
    then sa
    else if ltb empty j1939_idle_addr
    then empty
    else weaker
