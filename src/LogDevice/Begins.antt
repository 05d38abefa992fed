-- ===== src/LogDevice/Begins.antt =====
-- What the log device and the serial port hold after `start_logdev` and any calls to the log.
use breakin.Base.{
  ℕ, ◌≡◌, refl, ap, ◌∙◌, Bool, true, false, ◌&&◌, List, [], ◌∷◌, ◌++◌, append-nil, Option, none,
  some, if◌then◌else◌, arith,
}
use breakin.Text.{Bytes, codes}
use breakin.Log.{
  LogCall, message, error, Sinks, append_serial, log_message, log_error, log_call, log_calls,
}
use breakin.Log.Replay.{device_line, lines, log_calls_lem}
use breakin.LogDevice.{SerialEnv, start_serial, write_serial, start_logdev}

-- the calls to the log that `start_logdev` makes itself
abbrev pub own_calls : ℕ → Bool → SerialEnv → Bytes → List (ℕ × LogCall)
own_calls now enabled e dev =
    if enabled
    then (now, message (codes "Starting serial port logging"))
      ∷ (if e.open_ok then [] else (now, error (codes "Error opening serial port " ++ dev)) ∷ [])
    else []

-- the outputs right after it
abbrev begun : ℕ → SerialEnv → Bytes → Bytes → Sinks → Sinks
begun now e dev header k =
    let own : Sinks =
      log_calls (own_calls now k.serial_enabled e dev) (record k { logdev_file = some [] }) in
    record own {
      logdev_file = some (lines device_line (own_calls now k.serial_enabled e dev) ++ header);
      serial_file = if k.serial_enabled && e.open_ok then some header else k.serial_file;
      serial_enabled = k.serial_enabled && e.open_ok;
    }

-- The fields of the state apart, so that the flags can be split.
begun_fields :
    (now : ℕ) (win : Bytes) (file old port : Option Bytes) (dev header : Bytes)
    (enabled open_ok fdopen_ok : Bool)
    → port ≡ none
    → (fdopen_ok ≡ false → enabled && open_ok ≡ false)
    → let e : SerialEnv = record { open_ok = open_ok; fdopen_ok = fdopen_ok } in
      let k : Sinks = record {
        log_win = win;
        log_file = file;
        logdev_file = old;
        serial_file = port;
        serial_enabled = enabled;
      } in
      start_logdev now true e dev header k ≡ some (begun now e dev header k)
unfolding start_logdev start_serial write_serial log_calls log_call log_message log_error
begun_fields now win file old port dev header false open_ok fdopen_ok fresh h = refl
begun_fields now win file old none dev header true false fdopen_ok fresh h = simp append-nil
begun_fields now win file old (some text) dev header true false fdopen_ok fresh h = cc
begun_fields now win file old port dev header true true false fresh h = let never = h refl in cc
begun_fields now win file old port dev header true true true fresh h = simp append-nil

start_logdev-begun :
    (now : ℕ) (e : SerialEnv) (dev header : Bytes) (k : Sinks)
    → k.serial_file ≡ none
    → (e.fdopen_ok ≡ false → k.serial_enabled && e.open_ok ≡ false)
    → start_logdev now true e dev header k ≡ some (begun now e dev header k)
start_logdev-begun now e dev header k fresh ok =
    begun_fields now k.log_win k.log_file k.logdev_file k.serial_file dev header k.serial_enabled
      e.open_ok e.fdopen_ok fresh ok

port_lines :
    (b : Bool) (port : Option Bytes) (header text : Bytes)
    → port ≡ none
    → append_serial b (if b then some header else port) text
      ≡ (if b then some (header ++ text) else none)
port_lines true port header text fresh = refl
port_lines false port header text fresh = fresh

no_stream :
    (now : ℕ) (e : SerialEnv) (dev header : Bytes) (k : Sinks)
    → e.fdopen_ok ≡ false
    → k.serial_enabled && e.open_ok ≡ true
    → start_logdev now true e dev header k ≡ none
unfolding start_logdev start_serial write_serial log_message
no_stream now e dev header k bad on = ground arith

-- The device can be opened, and the serial port has not been used. If the port is not both enabled and
-- open without a stream: whatever is logged afterwards, the device holds the lines of what
-- `start_logdev` logs itself, then the header, then a line for each call, in order; the port the same
-- without the first lines, if it is enabled and open, and else nothing; a port that cannot be opened is
-- disabled. If the port is enabled and open but has no stream, the header is written to NULL.
pub start_logdev_lem :
    (now : ℕ) (e : SerialEnv) (dev header : Bytes) (k : Sinks) (calls : List (ℕ × LogCall))
    → k.serial_file ≡ none
    → ((e.fdopen_ok ≡ false → k.serial_enabled && e.open_ok ≡ false)
        → (k' : Sinks) × (start_logdev now true e dev header k ≡ some k')
          × ((log_calls calls k').logdev_file
              ≡ some (
                  (lines device_line (own_calls now k.serial_enabled e dev) ++ header)
                  ++ lines device_line calls))
          × ((log_calls calls k').serial_file ≡ (
              if k.serial_enabled && e.open_ok
              then some (header ++ lines device_line calls)
              else none))
          × ((log_calls calls k').serial_enabled ≡ k.serial_enabled && e.open_ok))
      × (e.fdopen_ok ≡ false
          → k.serial_enabled && e.open_ok ≡ true
          → start_logdev now true e dev header k ≡ none)
start_logdev_lem now e dev header k calls fresh = (
  λ ok. (
    begun now e dev header k,
    start_logdev-begun now e dev header k fresh ok,
    ap (λ s. s.logdev_file) (log_calls_lem calls (begun now e dev header k)),
    ap (λ s. s.serial_file) (log_calls_lem calls (begun now e dev header k))
        ∙ port_lines (k.serial_enabled && e.open_ok) k.serial_file header (lines device_line calls)
            fresh,
    ap (λ s. s.serial_enabled) (log_calls_lem calls (begun now e dev header k)),
  ),
  λ bad on. no_stream now e dev header k bad on,
)
