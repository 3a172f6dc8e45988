-- ===== src/SlcanPty.antt =====
-- slcanpty.c: the SLCAN lines of a terminal, and the frames of a CAN socket.
pub mod Strtoul
pub mod Command
pub mod Loop
pub mod Print
pub mod Ends
pub mod Arrays
pub mod Digits
pub mod Line
pub mod RoundTrip
pub mod Room
mod Tests
use can_utils.Base.{ℕ, zero, suc, ◌+◌, ◌<◌, List, [], ◌∷◌, Bool, ◌==◌, if◌then◌else◌, Option}

-- The static array `buf` of `pty2can`.
abbrev pub Buffer : Type 0
Buffer = ℕ → ℕ

unfoldable pub update : Buffer → ℕ → ℕ → Buffer
update buf i v j = if j == i then v else buf j

-- `buf[i] = buf[from + i]` for `n` rounds.
unfoldable pub copy_down : Buffer → ℕ → ℕ → ℕ → Buffer
copy_down buf from i zero = buf
copy_down buf from i (suc n) = copy_down (update buf i (buf (from + i))) from (i + 1) n

-- What `read` stores from index `i` on.
unfoldable pub store : Buffer → ℕ → List ℕ → Buffer
store buf i [] = buf
store buf i (c ∷ cs) = store (update buf i c) (i + 1) cs

-- The `n` bytes from index `i` on.
unfoldable pub chars : Buffer → ℕ → ℕ → List ℕ
chars buf i zero = []
chars buf i (suc n) = buf i ∷ chars buf (i + 1) n

-- The fields of `struct can_frame` that the program sets, and those that it prints.
pub record SlcFrame : Type 0 where
  pub can_id : ℕ
  pub can_dlc : ℕ
  pub bytes : List ℕ
