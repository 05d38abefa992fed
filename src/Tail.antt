-- ===== src/Tail.antt =====
-- `show_log` and `monitor_syslog` of breakin.c: files that grow are read from where the last call
-- stopped. A file is its bytes (without NUL) at the time of the call, or none if fopen fails; a
-- position of -1 is `none`.
pub mod Once
pub mod Text
use breakin.Base.{
  ℕ, zero, suc, ◌+◌, Bool, true, false, ◌||◌, List, [], ◌∷◌, ◌++◌, Option, none, some, ◌==◌,
  if◌then◌else◌, drop, length, ◌>>=◌,
}
use breakin.Text.{Bytes, codes, contains}
use breakin.Trim.{trim_buffer}
use breakin.Log.{LogCall, error}

-- what `fgets(buf, sizeof(buf), fp)` takes: at most `room` bytes, up to a newline
unfoldable pub take_line : ℕ → Bytes → Bytes × Bytes
take_line zero s = ([], s)
take_line (suc room) [] = ([], [])
take_line (suc room) (c ∷ s) = elim (c == b'\n') [
  | true ↦ (c ∷ [], s)
  | false ↦ let (line, rest) = take_line room s in (c ∷ line, rest)
]

-- `while (fgets(…) != NULL)`: the contents of `buf`, in order. Each round takes a byte at least, and
-- the fuel counts them. The size of `buf` is 1 more than `room`.
unfoldable pub read_lines : ℕ → ℕ → Bytes → List Bytes
read_lines zero room s = []
read_lines (suc fuel) room [] = []
read_lines (suc fuel) room (c ∷ s) =
    let (line, rest) = take_line room (c ∷ s) in line ∷ read_lines fuel room rest

abbrev pub buf_room : ℕ
buf_room = 8191

-- fseek to the end or to the position, the reads, and ftell
unfoldable pub tail_file : Option ℕ → Bytes → List Bytes × ℕ
tail_file none file = ([], length file)
tail_file (some pos) file =
    let unread : Bytes = drop pos file in
    (read_lines (length unread) buf_room unread, pos + length unread)

-- the loop of `show_log`; `none` is a line of white space, for which `trim` leaves the buffer
unfoldable pub log_lines : List Bytes → Option (List LogCall)
unfolding trim_buffer
log_lines [] = some []
log_lines (line ∷ lines) = do
  text ← trim_buffer line
  rest ← log_lines lines
  some (error text ∷ rest)

-- `show_log(win)`: the new `log_pos` and the calls
unfoldable pub show_log : Option ℕ → Option Bytes → Option (Option ℕ × List LogCall)
show_log pos none = some (pos, [])
show_log pos (some file) =
    let (lines, now) = tail_file pos file in log_lines lines >>= λ calls. some (some now, calls)

-- the test of `monitor_syslog`, on the trimmed line
abbrev pub is_severe : Bytes → Bool
is_severe line = if contains (codes ".err") line then true else contains (codes ".emerg") line

unfoldable pub severe_calls : List Bytes → Option (List LogCall)
unfolding trim_buffer
severe_calls [] = some []
severe_calls (line ∷ lines) = do
  text ← trim_buffer line
  rest ← severe_calls lines
  some (if is_severe text then error text ∷ rest else rest)

-- `monitor_syslog()`: the new `syslog_pos` and the calls
unfoldable pub monitor_syslog : Option ℕ → Option Bytes → Option (Option ℕ × List LogCall)
monitor_syslog pos none = some (pos, [])
monitor_syslog pos (some file) =
    let (lines, now) = tail_file pos file in severe_calls lines >>= λ calls. some (some now, calls)
