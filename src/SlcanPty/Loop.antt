-- ===== src/SlcanPty/Loop.antt =====
-- `pty2can`: the loop over the commands that are complete in the buffer.
use can_utils.Base.{
  ℕ, zero, suc, ◌+◌, ◌-◌, List, [], ◌∷◌, ◌++◌, Bool, true, false, not, ◌&&◌, ◌||◌, ◌==◌, ltb,
  if◌then◌else◌, is_set, bit_and, Option, none, some, ◌>>=◌, length,
}
use can_utils.SlcanPty.{Buffer, update, copy_down, store, SlcFrame}
use can_utils.SlcanPty.Command.{Handled, command}

-- The static variables and those that the caller keeps.
pub record Slcan : Type 0 where
  pub buf : Buffer
  pub rxoffset : ℕ
  pub is_open : Bool
  pub tstamp : Bool

-- Whether the `k`-th command's writes to the socket and to the pty succeed.
pub record Writes : Type 0 where
  pub socket_ok : ℕ → Bool
  pub pty_ok : ℕ → Bool

-- What a call leaves: its result, the state, and what was written.
pub record Run : Type 0 where
  pub ret : ℕ
  pub state : Slcan
  pub frames : List SlcFrame
  pub replies : List (List ℕ)

-- Line ends at the front are removed.
unfoldable pub strip : Buffer → ℕ → Buffer × ℕ
strip buf zero = (buf, 0)
strip buf (suc n) =
    let rest = strip (copy_down buf 1 0 (suc n)) n in if buf 0 == b'\r' then rest else (buf, suc n)

-- Whether there is a line end in the `n` bytes from index `i` on.
unfoldable pub has_cr : Buffer → ℕ → ℕ → Bool
has_cr buf i zero = false
has_cr buf i (suc n) = buf i == b'\r' || has_cr buf (i + 1) n

-- The commands O, C and Z.
unfoldable pub settings : Slcan → Slcan
settings s =
    let cmd = s.buf 0 in
    record s {
      is_open = if cmd == b'O' then true else if cmd == b'C' then false else s.is_open;
      tstamp = if cmd == b'Z' then is_set (bit_and (s.buf 1) 0x01) else s.tstamp;
    }

abbrev pub frames_of : Handled → List SlcFrame
frames_of h = elim h.frame [ none ↦ [] | some f ↦ f ∷ [] ]

abbrev pub add_run : Handled → Run → Run
add_run h r = record r { frames = frames_of h ++ r.frames; replies = h.reply ∷ r.replies }

abbrev pub ended : ℕ → Slcan → Run
ended ret s = record { ret = ret; state = s; frames = []; replies = [] }

-- From the label `rx_restart` on, with `nbytes` in the buffer and `k` commands handled.
unfoldable pub rx_restart : ℕ → Writes → ℕ → Slcan → ℕ → Option Run
rx_restart zero w k s nbytes = none
rx_restart (suc fuel) w k s nbytes =
    let (buf, n) = strip s.buf nbytes in
    let at = settings (record s { buf = update buf n 0 }) in
    let h = command (buf 0) (update buf n 0) n in
    let after = record at { buf = h.buf } in
    let left = n - (h.ptr + 1) in
    let next = record after { buf = copy_down h.buf (h.ptr + 1) 0 left } in
    let rest : Option Run = (rx_restart fuel w (k + 1) next left >>= λ r. some (add_run h r)) in
    if n == 0
    then some (ended 0 (record s { buf = buf }))
    else if not (has_cr buf 0 n)
    then some (ended 0 (record s { buf = buf; rxoffset = n }))
    else if is_set (length (frames_of h)) && not (w.socket_ok k)
    then some (ended 1 after)
    else if not (w.pty_ok k)
    then some (record (ended 1 after) { frames = frames_of h })
    else if ltb (h.ptr + 1) n
    then rest
    else some (add_run h (ended 0 after))

-- The size of `buf`.
abbrev pub buf_size : ℕ
buf_size = 200

-- A call with what `read` delivers; nothing stands for an error and for a closed terminal. The
-- fuel is the number of bytes that the buffer can hold, and one.
unfoldable pub pty2can : Writes → Slcan → List ℕ → Option Run
pty2can w s [] = some (ended 1 s)
pty2can w s (c ∷ input) =
    rx_restart buf_size w 0 (record s { buf = store s.buf s.rxoffset (c ∷ input); rxoffset = 0 })
      (length (c ∷ input) + s.rxoffset)
