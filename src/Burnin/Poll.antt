-- ===== src/Burnin/Poll.antt =====
-- The second loop of main's last `while (1)`: the output and the end of each running script. `none`
-- stands for what C leaves undefined: a read from a stream that fclose has freed, and `trim` on a line
-- of white space, which runs below its buffer.
use breakin.Base.{
  ℕ, ◌&&◌, List, [], ◌∷◌, ◌++◌, Option, none, some, ◌==◌, ltb, drop, length, if◌then◌else◌, ◌>>=◌,
}
use breakin.Text.{Bytes, codes, bufsiz, copy_n, strncpy, starts_with}
use breakin.Trim.{trim_buffer}
use breakin.Log.{LogCall, message, error}
use breakin.Burnin.Script.{
  Running, idle, active, disabled, Stream, null, opened, closed, Script, incr64,
}

-- the status that waitpid stores: WIFEXITED with its code, or not
pub data Status : Type 0 where
  exited : ℕ → Status
  signaled : Status

-- the result of waitpid with WNOHANG: 0, -1, or the process
pub data Wait : Type 0 where
  no_change wait_error : Wait
  reaped : Status → Wait

-- `strncpy(last_msg, text, sizeof(last_msg))`
abbrev pub store_msg : Bytes → Script → Script
store_msg text s = record s { last_msg = strncpy bufsiz text }

-- behind `trim(buf)`, with the text that is in the buffer then
unfoldable pub handle_text : Bytes → Script → Script × List LogCall
handle_text line s =
    if starts_with (codes "MSG: ") line && ltb 5 (length line)
    then (store_msg (drop 5 line) s, [])
    else (store_msg line s, error (copy_n bufsiz (s.name ++ (codes " - " ++ line))) ∷ [])

-- one line that fgets has read
unfoldable pub handle_line : Bytes → Script → Option (Script × List LogCall)
unfolding trim_buffer handle_text
handle_line chunk s = trim_buffer chunk >>= λ line. some (handle_text line s)

-- `while (fgets(…) != NULL) { … }`, over what fgets returns until it has no more
unfoldable pub handle_lines : List Bytes → Script → Option (Script × List LogCall)
handle_lines [] s = some (s, [])
handle_lines (chunk ∷ chunks) s = do
  (s', calls) ← handle_line chunk s
  (s'', more) ← handle_lines chunks s'
  some (s'', calls ++ more)

-- `pid > 0` in the source: the stream is closed, and the status decides
pub handle_exit : Status → Script → Script × List LogCall
handle_exit signaled s = (
  record s { fp_stdout = closed; running = disabled },
  message (codes "Execution failed on '" ++ (s.name ++ codes "', disabling.")) ∷ [],
)
handle_exit (exited code) s =
    if code == 255
    then (
      record s {
        fp_stdout = closed;
        running = disabled;
        last_result = 0;
        pass_count = incr64 s.pass_count;
      },
      message (codes "Disabling burnin test '" ++ (s.name ++ codes "'")) ∷ [],
    )
    else if code == 0
    then (
      record s {
        fp_stdout = closed;
        running = idle;
        last_result = 0;
        pass_count = incr64 s.pass_count;
      },
      [],
    )
    else (
      record s {
        fp_stdout = closed;
        running = idle;
        last_result = 1;
        fail_count = incr64 s.fail_count;
      },
      [],
    )

unfoldable pub handle_wait : Wait → Script → Script × List LogCall
unfolding handle_exit
handle_wait no_change s = (s, [])
handle_wait wait_error s =
    (record s { running = idle; last_result = 0; pass_count = incr64 s.pass_count }, [])
handle_wait (reaped status) s = handle_exit status s

-- the body of `if (burnin_scripts[i].running > 0)`, on the script's stream
pub poll_stream : Stream → List Bytes → Wait → Script → Option (Script × List LogCall)
poll_stream null chunks w s =
    some (s, message (codes "Error reading stdout from: " ++ (s.name ++ b'\n' ∷ [])) ∷ [])
poll_stream opened chunks w s = do
  (s', calls) ← handle_lines chunks s
  let (s'', more) = handle_wait w s'
  some (s'', calls ++ more)
poll_stream closed chunks w s = none

pub poll_running : Running → List Bytes → Wait → Script → Option (Script × List LogCall)
poll_running active chunks w s = poll_stream s.fp_stdout chunks w s
poll_running idle chunks w s = some (s, [])
poll_running disabled chunks w s = some (s, [])

-- the loop's body for one script
unfoldable pub poll_script : List Bytes → Wait → Script → Option (Script × List LogCall)
unfolding poll_running poll_stream
poll_script chunks w s = poll_running s.running chunks w s
