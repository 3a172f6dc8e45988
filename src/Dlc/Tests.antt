-- ===== src/Dlc/Tests.antt =====
-- The conversion of data length codes at concrete values.
use can_utils.Base.{ℕ, ◌≤◌, ◌<◌, ◌≡◌, arith}
use can_utils.Dlc.{can_fd_dlc2len, can_fd_len2dlc, len2dlc_least, len2dlc-dlc2len}

len2dlc_least_example :
    (17 ≤ can_fd_dlc2len (can_fd_len2dlc 17))
    × ((dlc : ℕ)
        → dlc < 16
        → 17 ≤ can_fd_dlc2len dlc
        → can_fd_dlc2len (can_fd_len2dlc 17) ≤ can_fd_dlc2len dlc)
len2dlc_least_example = len2dlc_least 17 (omega arith)

code_13 : can_fd_len2dlc (can_fd_dlc2len 13) ≡ 13
code_13 = len2dlc-dlc2len 13 (omega arith)
