-- ===== src/ErrorText/Reference.antt =====
-- The text of an error frame as a whole, without regard to a buffer.
use can_utils.Base.{
  ℕ, ◌+◌, List, [], ◌∷◌, ◌++◌, Bool, true, false, not, ◌&&◌, ◌||◌, bit_and, ◌==◌, if◌then◌else◌,
  is_set,
}
use can_utils.Base.Text.{codes}
use can_utils.Frame.{Cu, data_at, can_eff_mask}
use can_utils.SlcanPty.Print.{put_decimal}
use can_utils.ErrorText.{
  has_bit, location, error_classes, controller_problems, protocol_violation_types,
}

-- The names of the bits that are set, each but the first behind a comma.
unfoldable pub data_text : ℕ → ℕ → Bool → List (List ℕ) → List ℕ
data_text err i first [] = []
data_text err i first (name ∷ arr) =
    let rest = data_text err (i + 1) (if has_bit err i then false else first) arr in
    if has_bit err i then ((if first then [] else b',' ∷ []) ++ name) ++ rest else rest

unfoldable pub types_text : ℕ → List (List ℕ) → List ℕ
types_text err arr = if is_set err then data_text err 0 true arr else []

unfoldable pub ctrl_text : Cu → List ℕ
ctrl_text cf = (b'{' ∷ []) ++ (types_text (data_at cf 1) controller_problems ++ (b'}' ∷ []))

unfoldable pub prot_text : Cu → List ℕ
prot_text cf =
    codes "{{"
    ++ (types_text (data_at cf 2) protocol_violation_types
        ++ (codes "}{" ++ (location cf ++ codes "}}")))

unfoldable pub cnt_text : Cu → List ℕ
cnt_text cf =
    codes "{{"
    ++ (put_decimal (data_at cf 6) ++ (codes "}{" ++ (put_decimal (data_at cf 7) ++ codes "}}")))

-- What stands behind the name of class `i`.
unfoldable pub class_text : Cu → ℕ → List ℕ
class_text cf i =
    if i == 1
    then codes "{at bit " ++ (put_decimal (data_at cf 0) ++ (b'}' ∷ []))
    else if i == 2
    then ctrl_text cf
    else if i == 3
    then prot_text cf
    else if i == 9
    then cnt_text cf
    else []

unfoldable pub classes_text : Cu → List ℕ → ℕ → Bool → List (List ℕ) → List ℕ
classes_text cf sep i first [] = []
classes_text cf sep i first (name ∷ names) =
    let here = has_bit (bit_and cf.can_id can_eff_mask) i in
    let rest = classes_text cf sep (i + 1) (if here then false else first) names in
    if here then ((if first then [] else sep) ++ name) ++ (class_text cf i ++ rest) else rest

unfoldable pub counters_text : Cu → List ℕ → List ℕ
counters_text cf sep =
    if not (is_set (bit_and cf.can_id 0x200)) && (is_set (data_at cf 6) || is_set (data_at cf 7))
    then (sep ++ codes "error-counter-tx-rx") ++ cnt_text cf
    else []

-- All of the text, without regard to a buffer.
unfoldable pub error_text : Cu → List ℕ → List ℕ
error_text cf sep = classes_text cf sep 0 true error_classes ++ counters_text cf sep
