-- ===== src/Log/Writes.antt =====
-- The writes that `log_message` and `log_error` are made of, one for each wprintw or fprintf, in the
-- order of the source. Each is done under the lock of its stream, so that the calls of several threads
-- interleave between writes.
use breakin.Base.{ℕ, List, [], ◌∷◌, ◌++◌, concat, map}
use breakin.Text.{Bytes, codes}
use breakin.Log.{
  LogCall, message, error, window, Sinks, append_to, append_serial, stamped, windowed,
}
use breakin.Log.Clock.{running_time}

pub data Output : Type 0 where
  win file device serial : Output

pub record Write : Type 0 where
  pub output : Output
  pub text : Bytes

abbrev newline : Bytes
newline = b'\n' ∷ []

abbrev pub to : Output → Bytes → Write
to o text = record { output = o; text = text }

-- a call's writes
unfoldable pub writes_of : ℕ × LogCall → List Write
writes_of (now, message text) =
    let line : Bytes = codes "MSG " ++ stamped (running_time now) text in
    to win (windowed (running_time now) text)
    ∷ to file (line ++ newline)
    ∷ to device line
    ∷ to serial line
    ∷ []
writes_of (now, error text) =
    let line : Bytes = codes "ERR " ++ stamped (running_time now) text in
    to win (running_time now ++ (b':' ∷ b' ' ∷ []))
    ∷ to win (text ++ newline)
    ∷ to file line
    ∷ to device line
    ∷ to serial line
    ∷ []
writes_of (now, window text) = to win text ∷ []

-- one write, with the test of its file handle
abbrev pub put : Output → Bytes → Sinks → Sinks
put win text s = record s { log_win = s.log_win ++ text }
put file text s = record s { log_file = append_to s.log_file text }
put device text s = record s { logdev_file = append_to s.logdev_file text }
put serial text s = record s { serial_file = append_serial s.serial_enabled s.serial_file text }

unfoldable pub run_writes : List Write → Sinks → Sinks
run_writes [] s = s
run_writes (w ∷ ws) s = run_writes ws (put w.output w.text s)

-- what a thread does to the outputs: a call to the log, or a round of `update_logdev`, with the texts of
-- its calls of fprintf on the log device's file and on the serial port
pub data Job : Type 0 where
  call : ℕ → LogCall → Job
  update : List Bytes → List Bytes → Job

abbrev pub job_writes : Job → List Write
job_writes (call now c) = writes_of (now, c)
job_writes (update device_texts serial_texts) =
    map (to device) device_texts ++ map (to serial) serial_texts

-- the writes of a thread that does these jobs
abbrev pub thread_writes : List Job → List Write
thread_writes jobs = concat (map job_writes jobs)
