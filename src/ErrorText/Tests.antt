-- ===== src/ErrorText/Tests.antt =====
-- Error frames.
use can_utils.Base.{[], ◌∷◌, ◌≡◌, refl, arith, length}
use can_utils.Base.Text.{codes}
use can_utils.Frame.{Cu}
use can_utils.SlcanPty.Print.{put_decimal}
use can_utils.ErrorText.{
  room, write, put, put_checked, put_item, data_from, error_data, error_lostarb, error_ctrl,
  error_cnt, location, class_data, classes_from, counters, snprintf_can_error_frame,
}
use can_utils.ErrorText.Whole.{Shows}
use can_utils.ErrorText.Reference.{
  data_text, types_text, ctrl_text, prot_text, cnt_text, class_text, classes_text, counters_text,
  error_text,
}
use can_utils.ErrorText.Full.{snprintf_can_error_frame-Shows}

-- A controller problem with both warnings, and error counters.
abbrev warnings : Cu
warnings = record {
  can_id = 0x20000004;
  len = 8;
  flags = 0;
  res0 = 0;
  len8_dlc = 0;
  body = 0 ∷ 0x0C ∷ 0 ∷ 0 ∷ 0 ∷ 0 ∷ 96 ∷ 97 ∷ [];
}

warnings_text :
    error_text warnings (b',' ∷ [])
    ≡ codes "controller-problem{rx-error-warning,tx-error-warning},error-counter-tx-rx{{96}{97}}"
unfolding error_text data_text types_text ctrl_text prot_text cnt_text class_text classes_text
    counters_text put_decimal location
warnings_text = refl

warnings_fit : length (error_text warnings (b',' ∷ [])) ≡ 83
warnings_fit = rw warnings_text refl

snprintf_can_error_frame-Shows_example :
    Shows 84
      (error_text warnings (b',' ∷ []))
      (snprintf_can_error_frame 84 warnings (b',' ∷ []) (codes "old"))
snprintf_can_error_frame-Shows_example =
    snprintf_can_error_frame-Shows 84 (omega arith) warnings (b',' ∷ []) (codes "old") refl
      (omega arith) (omega (arith, warnings_fit))

-- A lost arbitration before another class, in a buffer of 20: the index passes the end, the room
-- that is left wraps round, and 48 bytes are written.
abbrev lost : Cu
lost = record warnings { can_id = 0x20000006; body = 5 ∷ [] }

lost_overruns : (snprintf_can_error_frame 20 lost (b',' ∷ []) []).top ≡ 48
unfolding snprintf_can_error_frame room write put put_checked put_item data_from error_data
    error_lostarb error_ctrl error_cnt class_data classes_from counters put_decimal
lost_overruns = refl
