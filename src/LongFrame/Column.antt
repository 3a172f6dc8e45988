-- ===== src/LongFrame/Column.antt =====
-- The text behind the data stands at one column for every length.
use can_utils.Base.{
  ℕ, ◌+◌, ◌-◌, ◌*◌, ◌≤◌, List, [], ◌∷◌, ◌++◌, append_assoc, true, false, not, ◌&&◌, ◌≡◌, refl, ap,
  sym, ◌∙◌, arith, length, length-append, length-replicate, replicate, bit_and, ltb, if◌then◌else◌,
  is_set, Bool,
}
use native.Mathlib.Nat.{mul_comm, add-mul}
use can_utils.Frame.{Cu, can_rtr_flag, can_err_flag}
use can_utils.CanFrame.Print.{shown_len}
use can_utils.LongFrame.{
  View, byte_width, long_id, long_len, long_data, long_trailer, long_text, ascii_forward,
  ascii_swapped,
}
use can_utils.LongFrame.Room.{length-long_len, length-long_data}

-- The characters of the data between two marks.
abbrev pub quoted : Cu → View → List ℕ
quoted cu view =
    if view.swap
    then b'`' ∷ ascii_swapped cu (shown_len cu) ++ (b'`' ∷ [])
    else b'\'' ∷ ascii_forward cu 0 (shown_len cu) ++ (b'\'' ∷ [])

blanks : Cu → View → List ℕ
blanks cu view = replicate (byte_width view * (8 - shown_len cu) + 3) b' '

if_behind :
    (b : Bool) (xs ys zs : List ℕ)
    → (if b then xs ++ ys else xs ++ zs) ≡ xs ++ (if b then ys else zs)
if_behind true xs ys zs = refl
if_behind false xs ys zs = refl

columns : (n w : ℕ) → n ≤ 8 → n * w + w * (8 - n) ≡ 8 * w
columns n w h =
    ap (λ k. n * w + k) (mul_comm w (8 - n))
    ∙ sym (add-mul n (8 - n) w)
    ∙ ap (λ k. k * w) (omega (arith, h))

trailer_quoted :
    (cu : Cu) (view : View)
    → shown_len cu ≤ 8
    → is_set (bit_and cu.can_id can_err_flag) ≡ false
    → view.ascii ≡ true
    → long_trailer cu view ≡ blanks cu view ++ quoted cu view
unfolding long_trailer blanks
trailer_quoted cu view short no_err ascii =
    rw (not_long, no_err) (simp ascii (if_behind view.swap (blanks cu view) _ _))
  where
    not_long : ltb 8 (shown_len cu) ≡ false
    not_long = ground (arith, short)

-- The ASCII column. Of a frame that shows at most eight bytes and is neither a remote request nor
-- an error frame, the characters of the data stand between two marks at the end of the text, and
-- where they begin depends on the width of the identifier and the form of the bytes, not on how
-- many there are.
pub long_text_column :
    (cu : Cu) (view : View)
    → shown_len cu ≤ 8
    → is_set (bit_and cu.can_id can_rtr_flag) ≡ false
    → is_set (bit_and cu.can_id can_err_flag) ≡ false
    → view.ascii ≡ true
    → (front : List ℕ) × (long_text cu view ≡ front ++ quoted cu view)
      × (length front ≡ length (long_id cu.can_id view) + 8 + 8 * byte_width view)
unfolding long_text blanks
long_text_column cu view short no_rtr no_err ascii = (
  long_id cu.can_id view ++ (long_len cu view ++ (long_data cu view ++ blanks cu view)),
  rw (no_remote, trailer_quoted cu view short no_err ascii) (simp append_assoc refl),
  omega (
    arith,
    length-append (long_id cu.can_id view)
        (long_len cu view ++ (long_data cu view ++ blanks cu view)),
    length-append (long_len cu view) (long_data cu view ++ blanks cu view),
    length-append (long_data cu view) (blanks cu view),
    length-long_len cu view,
    length-long_data cu view,
    length-replicate (byte_width view * (8 - shown_len cu) + 3) space,
    columns (shown_len cu) (byte_width view) short,
  ),
)
  where
    space : ℕ
    space = b' '

    no_remote : (not (is_set cu.flags) && is_set (bit_and cu.can_id can_rtr_flag)) ≡ false
    no_remote = ground (arith, no_rtr)
