-- ===== src/Log/Replay.antt =====
-- What the log's outputs hold after any sequence of calls.
use breakin.Base.{
  ℕ, ◌≡◌, refl, sym, ap, ◌∙◌, Bool, true, false, List, [], ◌∷◌, ◌++◌, Option, none, some,
  append_assoc, append-nil,
}
use breakin.Text.{Bytes, codes}
use breakin.Log.{
  LogCall, message, error, window, Sinks, append_to, append_serial, stamped, windowed, log_message,
  log_error, log_call, log_calls,
}
use breakin.Log.Clock.{running_time}

-- the text of one call in the log window
abbrev pub window_text : ℕ → LogCall → Bytes
window_text now (message text) = windowed (running_time now) text
window_text now (error text) = windowed (running_time now) text
window_text now (window text) = text

-- its line on the log device and the serial port
abbrev pub device_line : ℕ → LogCall → Bytes
device_line now (message text) = codes "MSG " ++ stamped (running_time now) text
device_line now (error text) = codes "ERR " ++ stamped (running_time now) text
device_line now (window text) = []

-- its line in the log file, where a message is followed by an empty line
abbrev pub file_line : ℕ → LogCall → Bytes
file_line now (message text) = device_line now (message text) ++ b'\n' ∷ []
file_line now (error text) = device_line now (error text)
file_line now (window text) = []

-- the lines of a sequence of calls
abbrev pub lines : (ℕ → LogCall → Bytes) → List (ℕ × LogCall) → Bytes
lines f [] = []
lines f ((now, call) ∷ calls) = f now call ++ lines f calls

-- what the outputs hold if the calls are rendered independently of one another
abbrev pub extended : List (ℕ × LogCall) → Sinks → Sinks
extended calls s = record s {
  log_win = s.log_win ++ lines window_text calls;
  log_file = append_to s.log_file (lines file_line calls);
  logdev_file = append_to s.logdev_file (lines device_line calls);
  serial_file = append_serial s.serial_enabled s.serial_file (lines device_line calls);
}

pub append_to_nil : (o : Option Bytes) → append_to o [] ≡ o
append_to_nil none = refl
append_to_nil (some old) = ap some (append-nil old)

pub append_to_append :
    (o : Option Bytes) (x y : Bytes) → append_to (append_to o x) y ≡ append_to o (x ++ y)
append_to_append none x y = refl
append_to_append (some old) x y = ap some (append_assoc old x y)

pub append_serial_nil : (b : Bool) (o : Option Bytes) → append_serial b o [] ≡ o
append_serial_nil true o = append_to_nil o
append_serial_nil false o = refl

pub append_serial_append :
    (b : Bool) (o : Option Bytes) (x y : Bytes)
    → append_serial b (append_serial b o x) y ≡ append_serial b o (x ++ y)
append_serial_append true o x y = append_to_append o x y
append_serial_append false o x y = refl

Sinks-eq :
    {a b : Sinks}
    → a.log_win ≡ b.log_win
    → a.log_file ≡ b.log_file
    → a.logdev_file ≡ b.logdev_file
    → a.serial_file ≡ b.serial_file
    → a.serial_enabled ≡ b.serial_enabled
    → a ≡ b
Sinks-eq p q r s t = λ i. record {
  log_win = p i;
  log_file = q i;
  logdev_file = r i;
  serial_file = s i;
  serial_enabled = t i;
}

extended-nil : (s : Sinks) → s ≡ extended [] s
extended-nil s =
    Sinks-eq (sym (append-nil s.log_win)) (sym (append_to_nil s.log_file))
      (sym (append_to_nil s.logdev_file)) (sym (append_serial_nil s.serial_enabled s.serial_file))
      refl

-- One call appends its own text to each output.
log_call-extended :
    (now : ℕ) (call : LogCall) (s : Sinks) → log_call now call s ≡ extended ((now, call) ∷ []) s
unfolding log_call log_message log_error
log_call-extended now (message text) s = simp append-nil
log_call-extended now (error text) s = simp (append-nil, append_assoc)
log_call-extended now (window text) s =
    Sinks-eq (rw append-nil) (sym (append_to_nil s.log_file)) (sym (append_to_nil s.logdev_file))
      (sym (append_serial_nil s.serial_enabled s.serial_file)) refl

extended-cons :
    (now : ℕ) (call : LogCall) (calls : List (ℕ × LogCall)) (s : Sinks)
    → extended calls (extended ((now, call) ∷ []) s) ≡ extended ((now, call) ∷ calls) s
extended-cons now call calls s =
    simp (append-nil, append_assoc, append_to_append, append_serial_append)

-- After any calls each output that is open has grown by exactly the calls' lines, in their order;
-- an output that is not open, or a serial port that is not enabled, is as it was.
pub log_calls_lem : (calls : List (ℕ × LogCall)) (s : Sinks) → log_calls calls s ≡ extended calls s
unfolding log_calls
log_calls_lem [] s = extended-nil s
log_calls_lem ((now, call) ∷ calls) s =
    ap (log_calls calls) (log_call-extended now call s)
    ∙ log_calls_lem calls _
    ∙ extended-cons now call calls s
