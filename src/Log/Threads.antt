-- ===== src/Log/Threads.antt =====
-- What the log's files hold when several threads log at the same time. Each `fprintf` holds its
-- stream's lock, so the threads' calls interleave between writes, at any point.
use mathlib.Core.Path.{subst}
use breakin.Base.{ℕ, ◌≡◌, refl, ap, ◌∙◌, List, [], ◌∷◌, append_assoc, Option, concat, map, Merged}
use breakin.Text.{Bytes}
use breakin.Log.{
  LogCall, message, error, window, Sinks, append_to, append_serial, log_call, log_message,
  log_error,
}
use breakin.Log.Replay.{device_line, file_line}
use breakin.Log.Writes.{
  Job, call, update, job_writes, Output, file, device, serial, Write, writes_of, run_writes,
  thread_writes,
}
use breakin.Log.Outputs.{
  texts_on-update, texts_on, texts_on-Merged, texts_on-append, run_writes-file, run_writes-device,
  run_writes-serial,
}

-- One thread alone: the writes are the call.
pub run_writes-writes_of :
    (now : ℕ) (call : LogCall) (s : Sinks)
    → run_writes (writes_of (now, call)) s ≡ log_call now call s
unfolding run_writes writes_of log_call log_message log_error
run_writes-writes_of now (message text) s = refl
run_writes-writes_of now (error text) s = simp append_assoc
run_writes-writes_of now (window text) s = refl

-- what a job puts into each of the three, a text that is written at once for each element
abbrev line_of : Bytes → LogCall → List Bytes
line_of line (window text) = []
line_of line _ = line ∷ []

abbrev pub on_file : Job → List Bytes
on_file (call now c) = line_of (file_line now c) c
on_file (update device_texts serial_texts) = []

abbrev pub on_device : Job → List Bytes
on_device (call now c) = line_of (device_line now c) c
on_device (update device_texts serial_texts) = device_texts

abbrev pub on_serial : Job → List Bytes
on_serial (call now c) = line_of (device_line now c) c
on_serial (update device_texts serial_texts) = serial_texts

job_writes-on :
    (job : Job)
    → (texts_on file (job_writes job) ≡ on_file job)
      × (texts_on device (job_writes job) ≡ on_device job)
      × (texts_on serial (job_writes job) ≡ on_serial job)
unfolding writes_of
job_writes-on (call now (message text)) = (ap (λ (l : Bytes). l ∷ []) refl, refl, refl)
job_writes-on (call now (error text)) = (refl, refl, refl)
job_writes-on (call now (window text)) = (refl, refl, refl)
job_writes-on (update device_texts serial_texts) = texts_on-update device_texts serial_texts

-- what the jobs of a thread put into it
abbrev pub texts_by : (Job → List Bytes) → List Job → List Bytes
texts_by on jobs = concat (map on jobs)

texts_on-thread_writes :
    (o : Output) (on : Job → List Bytes)
    → ((job : Job) → texts_on o (job_writes job) ≡ on job)
    → (jobs : List Job) → texts_on o (thread_writes jobs) ≡ texts_by on jobs
texts_on-thread_writes o on h [] = refl
texts_on-thread_writes o on h (job ∷ jobs) =
    texts_on-append o (job_writes job) (thread_writes jobs)
    ∙ cc (h job, texts_on-thread_writes o on h jobs)

map-texts_on :
    (o : Output) (on : Job → List Bytes)
    → ((job : Job) → texts_on o (job_writes job) ≡ on job)
    → (threads : List (List Job))
    → map (texts_on o) (map thread_writes threads) ≡ map (texts_by on) threads
map-texts_on o on h [] = refl
map-texts_on o on h (jobs ∷ threads) =
    cc (texts_on-thread_writes o on h jobs, map-texts_on o on h threads)

-- an output grew by the threads' texts: `write` puts them all, in an order that keeps each thread's
abbrev pub GrownBy :
    (Bytes → Option Bytes) → (Job → List Bytes) → List (List Job) → Option Bytes → Type 0
GrownBy write on threads new =
    (order : List Bytes) × Merged (map (texts_by on) threads) order × new ≡ write (concat order)

grown :
    (o : Output) (on : Job → List Bytes) (h : (job : Job) → texts_on o (job_writes job) ≡ on job)
    (threads : List (List Job)) (ws : List Write)
    → Merged (map thread_writes threads) ws
    → (write : Bytes → Option Bytes) (new : Option Bytes) → new ≡ write (concat (texts_on o ws))
    → GrownBy write on threads new
grown o on h threads ws m write new e = (
  texts_on o ws,
  subst (λ (l : List (List Bytes)). Merged l (texts_on o ws)) (map-texts_on o on h threads)
      (texts_on-Merged o (map thread_writes threads) ws m),
  e,
)

-- However the writes of any number of threads interleave, of calls to the log and of rounds of
-- `update_logdev`: the log file, the log device's file and the serial port each hold what they held
-- before and then all the threads' texts, each whole and once, those of one thread in its order; an
-- output that is closed or disabled stays as it was. A line of the log is one such text; a line of
-- `update_logdev` is several. The texts of different threads may stand in another order in each output.
pub run_writes-Merged :
    (threads : List (List Job)) (ws : List Write) (s : Sinks)
    → Merged (map thread_writes threads) ws
    → GrownBy (append_to s.log_file) on_file threads (run_writes ws s).log_file
      × GrownBy (append_to s.logdev_file) on_device threads (run_writes ws s).logdev_file
      × GrownBy
          (append_serial s.serial_enabled s.serial_file)
          on_serial
          threads
          (run_writes ws s).serial_file
run_writes-Merged threads ws s m = (
  grown file on_file (λ j. (job_writes-on j).0) threads ws m (append_to s.log_file) _
      (run_writes-file ws s),
  grown device on_device (λ j. (job_writes-on j).1) threads ws m (append_to s.logdev_file) _
      (run_writes-device ws s),
  grown serial on_serial (λ j. (job_writes-on j).2) threads ws m
      (append_serial s.serial_enabled s.serial_file) _ (run_writes-serial ws s),
)
