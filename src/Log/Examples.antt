-- ===== src/Log/Examples.antt =====
-- The theorem of the log's threads, applied to two threads whose writes interleave.
use breakin.Base.{◌≡◌, refl, true, List, [], ◌∷◌, ◌++◌, map, some, Merge, done, left, right, Merged}
use breakin.Text.{Bytes, codes}
use breakin.Log.{message, error, Sinks, append_to, append_serial, stamped, windowed}
use breakin.Log.Clock.{running_time}
use breakin.Log.Writes.{
  Job, call, update, Output, win, file, device, serial, Write, writes_of, run_writes, thread_writes,
}
use breakin.Log.Threads.{on_file, on_device, on_serial, GrownBy, run_writes-Merged}

abbrev sinks : Sinks
sinks = record {
  log_win = [];
  log_file = some [];
  logdev_file = some [];
  serial_file = some [];
  serial_enabled = true;
}

abbrev first : List Job
first = call 5 (message (codes "a")) ∷ []

-- an error, and a round of `update_logdev` on the log device alone
abbrev second : List Job
second = call 6 (error (codes "b")) ∷ update (codes "test:disk " ∷ codes " pass:1" ∷ []) [] ∷ []

abbrev line : Bytes
line = codes "MSG " ++ stamped (running_time 5) (codes "a")

abbrev bad_line : Bytes
bad_line = codes "ERR " ++ stamped (running_time 6) (codes "b")

abbrev write : Output → Bytes → Write
write o text = record { output = o; text = text }

abbrev schedule : List Write
schedule =
    write win (windowed (running_time 5) (codes "a"))
    ∷ write file (line ++ b'\n' ∷ [])
    ∷ write win (running_time 6 ++ codes ": ")
    ∷ write win (codes "b\n")
    ∷ write file bad_line
    ∷ write device bad_line
    ∷ write serial bad_line
    ∷ write device (codes "test:disk ")
    ∷ write device line
    ∷ write serial line
    ∷ write device (codes " pass:1")
    ∷ []

second_last : Merge (thread_writes second) [] (thread_writes second)
unfolding writes_of
second_last = left (left (left (left (left (left (left done))))))

interleaved : Merged (map thread_writes (first ∷ second ∷ [])) schedule
unfolding writes_of
interleaved = (
  thread_writes second,
  ([], refl, second_last),
  left (left (right (right (right (right (right (right (left (left (right done)))))))))),
)

run_writes-Merged_example :
    GrownBy (append_to (some [])) on_file (first ∷ second ∷ []) (run_writes schedule sinks).log_file
    × GrownBy
        (append_to (some []))
        on_device
        (first ∷ second ∷ [])
        (run_writes schedule sinks).logdev_file
    × GrownBy
        (append_serial true (some []))
        on_serial
        (first ∷ second ∷ [])
        (run_writes schedule sinks).serial_file
run_writes-Merged_example = run_writes-Merged (first ∷ second ∷ []) schedule sinks interleaved

-- The message is first in the log file and last on the serial port, and tears the line of the update
-- on the log device.
two_orders :
    ((run_writes schedule sinks).log_file ≡ some ((line ++ b'\n' ∷ []) ++ bad_line))
    × ((run_writes schedule sinks).serial_file ≡ some (bad_line ++ line))
    × ((run_writes schedule sinks).logdev_file
        ≡ some (((bad_line ++ codes "test:disk ") ++ line) ++ codes " pass:1"))
unfolding run_writes
two_orders = (refl, refl, refl)
