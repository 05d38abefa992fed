-- ===== src/Tail/Text.antt =====
-- What `show_log` and `monitor_syslog` do with the lines that they read: whether `trim` can be called
-- with them, and what is reported.
use breakin.Base.{
  ◌≡◌, refl, ap, ℕ, List, [], ◌∷◌, ◌++◌, Option, none, some, All, map, if◌then◌else◌,
}
use breakin.Text.{Bytes}
use breakin.Trim.{trim}
use breakin.Trim.Buffer.{HasText, trim_buffer-text}
use breakin.Log.{LogCall, error}
use breakin.Tail.{tail_file, log_lines, show_log, is_severe, severe_calls, monitor_syslog}

-- what a call reads of the file, and where it stops
abbrev pub unread : Option ℕ → Option Bytes → List Bytes
unread pos none = []
unread pos (some file) = (tail_file pos file).0

abbrev pub next_pos : Option ℕ → Option Bytes → Option ℕ
next_pos pos none = pos
next_pos pos (some file) = some (tail_file pos file).1

abbrev pub reports : List Bytes → List LogCall
reports lines = map (λ line. error (trim line)) lines

pub reports-append : (xs ys : List Bytes) → reports (xs ++ ys) ≡ reports xs ++ reports ys
reports-append [] ys = refl
reports-append (x ∷ xs) ys = ap (error (trim x) ∷◌) (reports-append xs ys)

log_lines_text : (lines : List Bytes) → All HasText lines → log_lines lines ≡ some (reports lines)
unfolding log_lines
log_lines_text [] h = refl
log_lines_text (line ∷ lines) h =
    rw (trim_buffer-text line h.0) (rw (log_lines_text lines h.1) refl)

pub show_log_text :
    (pos : Option ℕ) (file : Option Bytes)
    → All HasText (unread pos file)
    → show_log pos file ≡ some (next_pos pos file, reports (unread pos file))
unfolding show_log
show_log_text pos none h = refl
show_log_text pos (some file) h = rw (log_lines_text (tail_file pos file).0 h) refl

abbrev pub severe_reports : List Bytes → List LogCall
severe_reports [] = []
severe_reports (line ∷ lines) =
    let rest = severe_reports lines in
    if is_severe (trim line) then error (trim line) ∷ rest else rest

severe_calls_text :
    (lines : List Bytes) → All HasText lines → severe_calls lines ≡ some (severe_reports lines)
unfolding severe_calls
severe_calls_text [] h = refl
severe_calls_text (line ∷ lines) h =
    rw (trim_buffer-text line h.0) (rw (severe_calls_text lines h.1) refl)

pub monitor_syslog_text :
    (pos : Option ℕ) (file : Option Bytes)
    → All HasText (unread pos file)
    → monitor_syslog pos file ≡ some (next_pos pos file, severe_reports (unread pos file))
unfolding monitor_syslog
monitor_syslog_text pos none h = refl
monitor_syslog_text pos (some file) h = rw (severe_calls_text (tail_file pos file).0 h) refl
