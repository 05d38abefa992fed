-- ===== src/Log.antt =====
-- The log of breakin.c: `log_message`, `log_error` and what they write to the log window, the log
-- file, the log device's file and the serial port. A file handle that is NULL is `none`; an open
-- one is the bytes written to it so far. Colours and refreshes of the window are left out: they
-- do not change the text. `fflush` is done at once here, since every write is followed by one.
pub mod Clock
pub mod Replay
pub mod Writes
pub mod Outputs
pub mod Threads
mod Examples
use breakin.Base.{
  ℕ, ◌+◌, ◌/◌, ◌%◌, Bool, true, false, List, [], ◌∷◌, ◌++◌, Option, none, some, ◌==◌, if◌then◌else◌,
}
use breakin.Text.{Bytes, codes, decimal2}
use breakin.Log.Clock.{running_time}

-- A call that another component makes to the log. `window` is a bare `wprintw(log_win, …)`.
pub data LogCall : Type 0 where
  message : Bytes → LogCall
  error : Bytes → LogCall
  window : Bytes → LogCall

-- log_win, log_file, logdev_file, serial_file and serial_enabled
pub record Sinks : Type 0 where
  pub log_win : Bytes
  pub log_file : Option Bytes
  pub logdev_file : Option Bytes
  pub serial_file : Option Bytes
  pub serial_enabled : Bool

-- `fprintf` to a handle that is tested against NULL first
abbrev pub append_to : Option Bytes → Bytes → Option Bytes
append_to none text = none
append_to (some old) text = some (old ++ text)

-- `fprintf` to the serial port: `if (serial_enabled && serial_file != NULL)`
abbrev pub append_serial : Bool → Option Bytes → Bytes → Option Bytes
append_serial enabled file text = if enabled then append_to file text else file

abbrev newline : Bytes
newline = b'\n' ∷ []

-- `"%s %s\n"`
abbrev pub stamped : Bytes → Bytes → Bytes
stamped time text = time ++ (b' ' ∷ (text ++ newline))

-- `"%s: %s\n"`, the form of the log window
abbrev pub windowed : Bytes → Bytes → Bytes
windowed time text = time ++ (b':' ∷ b' ' ∷ (text ++ newline))

-- `log_message(message)`, at `now` seconds after the start
unfoldable pub log_message : ℕ → Bytes → Sinks → Sinks
log_message now text s =
    let line : Bytes = codes "MSG " ++ stamped (running_time now) text in
    record s {
      log_win = s.log_win ++ windowed (running_time now) text;
      log_file = append_to s.log_file (line ++ newline);
      logdev_file = append_to s.logdev_file line;
      serial_file = append_serial s.serial_enabled s.serial_file line;
    }

-- `log_error(message)`
unfoldable pub log_error : ℕ → Bytes → Sinks → Sinks
log_error now text s =
    let line : Bytes = codes "ERR " ++ stamped (running_time now) text in
    record s {
      log_win = (s.log_win ++ running_time now ++ (b':' ∷ b' ' ∷ [])) ++ (text ++ newline);
      log_file = append_to s.log_file line;
      logdev_file = append_to s.logdev_file line;
      serial_file = append_serial s.serial_enabled s.serial_file line;
    }

unfoldable pub log_call : ℕ → LogCall → Sinks → Sinks
log_call now (message text) s = log_message now text s
log_call now (error text) s = log_error now text s
log_call now (window text) s = record s { log_win = s.log_win ++ text }

-- calls in their order, each with its time
unfoldable pub log_calls : List (ℕ × LogCall) → Sinks → Sinks
log_calls [] s = s
log_calls ((now, call) ∷ calls) s = log_calls calls (log_call now call s)
