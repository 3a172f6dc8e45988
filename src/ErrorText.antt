-- ===== src/ErrorText.antt =====
-- `snprintf_can_error_frame` of lib.c: the text of an error frame.
pub mod Whole
pub mod Reference
pub mod Full
mod Tests
use can_utils.Base.{
  ℕ, zero, suc, ◌+◌, ◌-◌, ◌*◌, ◌%◌, ◌^◌, List, [], ◌∷◌, ◌++◌, Bool, true, false, not, ◌&&◌, ◌||◌,
  bit_and, ltb, leb, ◌==◌, if◌then◌else◌, is_set, length, take, get_or, max,
}
use can_utils.Base.Text.{codes}
use can_utils.Frame.{Cu, data_at, can_err_flag, can_eff_mask}
use can_utils.SlcanPty.Print.{put_decimal}

abbrev pub error_classes : List (List ℕ)
error_classes =
    codes "tx-timeout"
    ∷ codes "lost-arbitration"
    ∷ codes "controller-problem"
    ∷ codes "protocol-violation"
    ∷ codes "transceiver-status"
    ∷ codes "no-acknowledgement-on-tx"
    ∷ codes "bus-off"
    ∷ codes "bus-error"
    ∷ codes "restarted-after-bus-off"
    ∷ codes "error-counter-tx-rx"
    ∷ []

abbrev pub controller_problems : List (List ℕ)
controller_problems =
    codes "rx-overflow"
    ∷ codes "tx-overflow"
    ∷ codes "rx-error-warning"
    ∷ codes "tx-error-warning"
    ∷ codes "rx-error-passive"
    ∷ codes "tx-error-passive"
    ∷ codes "back-to-error-active"
    ∷ []

abbrev pub protocol_violation_types : List (List ℕ)
protocol_violation_types =
    codes "single-bit-error"
    ∷ codes "frame-format-error"
    ∷ codes "bit-stuffing-error"
    ∷ codes "tx-dominant-bit-error"
    ∷ codes "tx-recessive-bit-error"
    ∷ codes "bus-overload"
    ∷ codes "active-error"
    ∷ codes "error-on-tx"
    ∷ []

abbrev pub protocol_violation_locations : List (List ℕ)
protocol_violation_locations =
    codes "unspecified"
    ∷ codes "unspecified"
    ∷ codes "id.28-to-id.21"
    ∷ codes "start-of-frame"
    ∷ codes "bit-srtr"
    ∷ codes "bit-ide"
    ∷ codes "id.20-to-id.18"
    ∷ codes "id.17-to-id.13"
    ∷ codes "crc-sequence"
    ∷ codes "reserved-bit-0"
    ∷ codes "data-field"
    ∷ codes "data-length-code"
    ∷ codes "bit-rtr"
    ∷ codes "reserved-bit-1"
    ∷ codes "id.4-to-id.0"
    ∷ codes "id.12-to-id.5"
    ∷ codes "unspecified"
    ∷ codes "active-error-flag"
    ∷ codes "intermission"
    ∷ codes "tolerate-dominant-bits"
    ∷ codes "unspecified"
    ∷ codes "unspecified"
    ∷ codes "passive-error-flag"
    ∷ codes "error-delimiter"
    ∷ codes "crc-delimiter"
    ∷ codes "acknowledge-slot"
    ∷ codes "end-of-frame"
    ∷ codes "acknowledge-delimiter"
    ∷ codes "overload-flag"
    ∷ codes "unspecified"
    ∷ codes "unspecified"
    ∷ codes "unspecified"
    ∷ []

-- The string in the buffer, the index `n`, and the end of the bytes that were written.
pub record Out : Type 0 where
  pub text : List ℕ
  pub n : ℕ
  pub top : ℕ

-- `len - n`, which is a `size_t`.
unfoldable pub room : ℕ → Out → ℕ
room len out = (2 ^ 64 + len - out.n) % 2 ^ 64

-- What a call of `snprintf` at `buf + n` writes.
unfoldable pub write : ℕ → List ℕ → Out → Out
write len s out = if room len out == 0 then out else record out {
  text =
      if ltb (length out.text) out.n
      then out.text
      else take out.n out.text ++ take (room len out - 1) s;
  top = max out.top (out.n + length (take (room len out - 1) s) + 1);
}

-- `n += snprintf(buf + n, len - n, s)`.
unfoldable pub put : ℕ → List ℕ → Out → Out
put len s out = record (write len s out) { n = out.n + length s }

-- A text that is checked: it was written in full, or it was cut.
pub data Checked : Type 0 where
  whole : Out → Checked
  cut : Out → Checked

unfoldable pub put_checked : ℕ → List ℕ → Out → Checked
put_checked len s out =
    if leb (room len out) (length s) then cut (write len s out) else whole (put len s out)

abbrev pub and_then : Checked → (Out → Checked) → Checked
and_then (whole out) f = f out
and_then (cut out) f = cut out

abbrev pub out_of : Checked → Out
out_of (whole out) = out
out_of (cut out) = out

-- A separator, but not before the first, and a name.
unfoldable pub put_item : ℕ → List ℕ → Bool → List ℕ → Out → Checked
put_item len sep first name out =
    and_then (if first then whole out else put_checked len sep out) (put_checked len name)

abbrev pub has_bit : ℕ → ℕ → Bool
has_bit v i = is_set (bit_and v (2 ^ i))

-- The loop over the names from index `i` on.
unfoldable pub data_from : ℕ → ℕ → ℕ → Bool → List (List ℕ) → Out → Checked
data_from len err i first [] out = whole out
data_from len err i first (name ∷ arr) out =
    if has_bit err i
    then elim (put_item len (b',' ∷ []) first name out) [
      | whole next ↦ data_from len err (i + 1) false arr next
      | cut next ↦ cut next
    ]
    else data_from len err (i + 1) first arr out

unfoldable pub error_data : ℕ → ℕ → List (List ℕ) → Out → Out
error_data len err arr out =
    if not (is_set err) || room len out == 0 then out else out_of (data_from len err 0 true arr out)

unfoldable pub error_lostarb : ℕ → Cu → Out → Out
error_lostarb len cf out =
    if room len out == 0
    then out
    else put len (codes "{at bit " ++ (put_decimal (data_at cf 0) ++ (b'}' ∷ []))) out

unfoldable pub error_ctrl : ℕ → Cu → Out → Out
error_ctrl len cf out =
    if room len out == 0
    then out
    else put len (b'}' ∷ [])
        (error_data len (data_at cf 1) controller_problems (put len (b'{' ∷ []) out))

unfoldable pub location : Cu → List ℕ
location cf =
    if ltb 0 (data_at cf 3) && ltb (data_at cf 3) 32
    then get_or protocol_violation_locations (data_at cf 3) []
    else []

unfoldable pub error_prot : ℕ → Cu → Out → Out
error_prot len cf out =
    let types =
      put len (codes "}{")
        (error_data len (data_at cf 2) protocol_violation_types (put len (codes "{{") out)) in
    let located =
      if ltb 0 (data_at cf 3) && ltb (data_at cf 3) 32
      then put len (location cf) types
      else types in
    if room len out == 0 then out else put len (codes "}}") located

unfoldable pub error_cnt : ℕ → Cu → Out → Out
error_cnt len cf out =
    if room len out == 0
    then out
    else put len
        (codes "{{"
          ++ (put_decimal (data_at cf 6)
              ++ (codes "}{" ++ (put_decimal (data_at cf 7) ++ codes "}}"))))
        out

-- What follows the name of class `i`.
unfoldable pub class_data : ℕ → Cu → ℕ → Out → Out
class_data len cf i out =
    if i == 1
    then error_lostarb len cf out
    else if i == 2
    then error_ctrl len cf out
    else if i == 3
    then error_prot len cf out
    else if i == 9
    then error_cnt len cf out
    else out

-- The loop over the classes from index `i` on.
unfoldable pub classes_from : ℕ → Cu → List ℕ → ℕ → Bool → List (List ℕ) → Out → Checked
classes_from len cf sep i first [] out = whole out
classes_from len cf sep i first (name ∷ names) out =
    if has_bit (bit_and cf.can_id can_eff_mask) i
    then elim (put_item len sep first name out) [
      | whole next ↦ classes_from len cf sep (i + 1) false names (class_data len cf i next)
      | cut next ↦ cut next
    ]
    else classes_from len cf sep (i + 1) first names out

-- The counters of a frame that is not of the class for them.
unfoldable pub counters : ℕ → Cu → List ℕ → Out → Out
counters len cf sep out =
    if not (is_set (bit_and cf.can_id 0x200)) && (is_set (data_at cf 6) || is_set (data_at cf 7))
    then error_cnt len cf (put len (sep ++ codes "error-counter-tx-rx") out)
    else out

-- A call with the string that stands in the buffer; the value returned is the index `n`. A class
-- that is cut leaves an empty string.
unfoldable pub snprintf_can_error_frame : ℕ → Cu → List ℕ → List ℕ → Out
snprintf_can_error_frame len cf sep before =
    let start : Out = record { text = before; n = 0; top = 0 } in
    if not (is_set (bit_and cf.can_id can_err_flag))
      || ltb (2 ^ 10) (bit_and cf.can_id can_eff_mask)
    then start
    else elim (classes_from len cf sep 0 true error_classes start) [
      | whole out ↦ counters len cf sep out
      | cut out ↦ record { text = []; n = 0; top = max out.top 1 }
    ]
