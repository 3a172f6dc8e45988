-- ===== src/Dlc.antt =====
-- The conversion between data length codes and payload lengths of CAN FD, in lib.c.
mod Tests
use can_utils.Base.{
  ℕ, ◌≤◌, ◌<◌, List, [], ◌∷◌, ◌++◌, Bool, true, not, ◌≡◌, refl, arith, ltb, leb, ◌==◌, ◌&&◌, ◌||◌,
  if◌then◌else◌, get_or, bit_and, all_below, all_below_sound, replicate,
}

abbrev dlc2len : List ℕ
dlc2len = 0 ∷ 1 ∷ 2 ∷ 3 ∷ 4 ∷ 5 ∷ 6 ∷ 7 ∷ 8 ∷ 12 ∷ 16 ∷ 20 ∷ 24 ∷ 32 ∷ 48 ∷ 64 ∷ []

unfoldable pub can_fd_dlc2len : ℕ → ℕ
can_fd_dlc2len dlc = get_or dlc2len (bit_and dlc 0x0F) 0

-- The rows of the table: 0 to 8, then four codes for 4 lengths, three for 8, and the rest.
abbrev len2dlc : List ℕ
len2dlc =
    (0 ∷ 1 ∷ 2 ∷ 3 ∷ 4 ∷ 5 ∷ 6 ∷ 7 ∷ 8 ∷ [])
    ++ (replicate 4 9
        ++ (replicate 4 10
            ++ (replicate 4 11
                ++ (replicate 4 12 ++ (replicate 8 13 ++ (replicate 16 14 ++ replicate 16 15))))))

unfoldable pub can_fd_len2dlc : ℕ → ℕ
can_fd_len2dlc len = if ltb 64 len then 0xF else get_or len2dlc len 0

-- A code with room for `len` bytes has room for the length of the chosen one.
abbrev tight : ℕ → ℕ → Bool
tight len dlc =
    not (leb len (can_fd_dlc2len dlc))
    || leb (can_fd_dlc2len (can_fd_len2dlc len)) (can_fd_dlc2len dlc)

least_table :
    all_below 65 (λ len. leb len (can_fd_dlc2len (can_fd_len2dlc len)) && all_below 16 (tight len))
    ≡ true
unfolding all_below can_fd_dlc2len can_fd_len2dlc
least_table = refl

-- For a length up to 64, the chosen code has room for it, and no code with room is shorter.
pub len2dlc_least :
    (len : ℕ)
    → len ≤ 64
    → (len ≤ can_fd_dlc2len (can_fd_len2dlc len))
      × ((dlc : ℕ)
          → dlc < 16
          → len ≤ can_fd_dlc2len dlc
          → can_fd_dlc2len (can_fd_len2dlc len) ≤ can_fd_dlc2len dlc)
len2dlc_least len h =
    let row =
      all_below_sound 65 (λ k. leb k (can_fd_dlc2len (can_fd_len2dlc k)) && all_below 16 (tight k))
        len least_table (omega arith) in
    (ground arith, λ dlc small room. ground (arith, all_below_sound 16 (tight len) dlc))

code_table : all_below 16 (λ dlc. can_fd_len2dlc (can_fd_dlc2len dlc) == dlc) ≡ true
unfolding all_below can_fd_dlc2len can_fd_len2dlc
code_table = refl

-- Every code below 16 comes back from its length.
pub len2dlc-dlc2len : (dlc : ℕ) → dlc < 16 → can_fd_len2dlc (can_fd_dlc2len dlc) ≡ dlc
len2dlc-dlc2len dlc h =
    ground
      (arith, all_below_sound 16 (λ k. can_fd_len2dlc (can_fd_dlc2len k) == k) dlc code_table h)
