-- ===== src/Time/Tests.antt =====
-- Times before and after a full second.
use can_utils.Base.{◌+◌, ◌*◌, ◌<◌, ◌≡◌, refl, arith}
use can_utils.Base.Int.{pos, negsuc, pos_part, neg_part}
use can_utils.Time.{Timespec, timespec_diff_ms, timespec_add_ms}
use can_utils.Time.Laws.{IsTimespec, in_ns, timespec_diff_ms-timespec_add_ms, timespec_diff_ms_near}

abbrev late : Timespec
late = record { tv_sec = pos 7; tv_nsec = 999500000 }

abbrev next_second : Timespec
next_second = record { tv_sec = pos 8; tv_nsec = 0 }

late-IsTimespec : IsTimespec late
late-IsTimespec = record { after = omega arith; before = omega arith; nsec = omega arith }

next_second-IsTimespec : IsTimespec next_second
next_second-IsTimespec = record { after = omega arith; before = omega arith; nsec = omega arith }

abbrev epoch : Timespec
epoch = record { tv_sec = negsuc 0; tv_nsec = 500000000 }

before_epoch : timespec_diff_ms epoch late ≡ negsuc 8498
unfolding timespec_diff_ms
before_epoch = refl

half : timespec_diff_ms next_second late ≡ pos 1
unfolding timespec_diff_ms
half = refl

timespec_diff_ms-timespec_add_ms_example :
    IsTimespec (timespec_add_ms late 2000)
    × (timespec_diff_ms (timespec_add_ms late 2000) late ≡ pos 2000)
timespec_diff_ms-timespec_add_ms_example =
    timespec_diff_ms-timespec_add_ms late 2000 late-IsTimespec (omega arith) (omega arith)

timespec_diff_ms_near_example :
    (pos_part (timespec_diff_ms late next_second) * 1000000 + in_ns next_second late
      < neg_part (timespec_diff_ms late next_second) * 1000000 + in_ns late next_second + 1000000)
    × (neg_part (timespec_diff_ms late next_second) * 1000000 + in_ns late next_second
        < pos_part (timespec_diff_ms late next_second) * 1000000 + in_ns next_second late + 1000000)
timespec_diff_ms_near_example =
    timespec_diff_ms_near late next_second late-IsTimespec next_second-IsTimespec (omega arith)
      (omega arith)
