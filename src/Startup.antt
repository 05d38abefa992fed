-- ===== src/Startup.antt =====
-- The phase of `main` in breakin.c behind the options, up to and with its last loop; and `dump_log`,
-- which follows a command in the same way. The n-th call to the log of a phase happens at the time
-- `clock n`. The benchmarks are taken to return. The screen and the threads beside `main` are left out.
pub mod Follow
pub mod Program
pub mod Main
pub mod Whole
mod Examples
mod MainExample
use breakin.Base.{
  ℕ, suc, ◌+◌, Bool, true, false, ◌&&◌, List, [], ◌∷◌, ◌++◌, Option, none, some, ◌==◌,
  if◌then◌else◌, map, concat, length,
}
use breakin.Text.{Bytes, codes}
use breakin.Number.{decimal_signed}
use breakin.Log.{LogCall, message, window, Sinks, log_calls}
use breakin.Options.{Settings}
use breakin.DiskBench.{DiskEnv, Result, bench_disk}
use breakin.LogDevice.{SerialEnv, start_logdev}
use breakin.Burnin.Script.{Script, Stream, null, opened, closed, Pid}
use breakin.Burnin.Fork.{ForkEnv, fork_cmd}
use breakin.Burnin.Find.{find_burnin_tests}
use breakin.Burnin.Round.{ScriptEnv, main_loop}

-- one round of a loop over a command's output: what fgets reads, and whether waitpid returns anything
-- but 0
pub record Look : Type 0 where
  pub lines : List Bytes
  pub reaped : Bool

-- the calls to the log, and whether the command has been waited for
pub record Watch : Type 0 where
  pub calls : List LogCall
  pub finished : Bool

-- the loop: each line is shown, and the end is announced
unfoldable pub watch : (Bytes → LogCall) → List LogCall → List Look → Watch
watch show final [] = record { calls = []; finished = false }
watch show final (l ∷ ls) =
    let rest = watch show final ls in
    if l.reaped
    then record { calls = map show l.lines ++ final; finished = true }
    else record { calls = map show l.lines ++ rest.calls; finished = rest.finished }

-- `while (!finished && fp != NULL)`: whether the loop is over, too
pub record Followed : Type 0 where
  pub calls : List LogCall
  pub finished : Bool
  pub over : Bool

unfoldable pub follow : (Bytes → LogCall) → List LogCall → Stream → List Look → Followed
follow show final null ls = record { calls = []; finished = false; over = true }
follow show final _ ls =
    let w = watch show final ls in
    record { calls = w.calls; finished = w.finished; over = w.finished }

-- a command that is started and followed
unfoldable pub follow_cmd :
    ForkEnv → Pid → Bytes → (Bytes → LogCall) → List LogCall → List Look → Followed
follow_cmd e old label show final ls =
    let f = fork_cmd e old (some label) in
    let w = follow show final f.stream ls in
    record { calls = f.calls ++ w.calls; finished = w.finished; over = w.over }

-- step 1 of `main`; `finished` is `hardware_finished`
unfoldable pub hardware_setup : ForkEnv → Pid → List Look → Followed
hardware_setup e old ls =
    follow_cmd e old (codes "Starting hardware setup") (λ line. window line)
      (message (codes "Finished hardware setup") ∷ []) ls

-- `dump_log()`
unfoldable pub dump_log : ForkEnv → Pid → List Look → Followed
dump_log e old ls =
    follow_cmd e old (codes "Dumping log to USB device") (λ line. message line) [] ls

-- the string that stands at the start of the memory
unfoldable pub c_string : Bytes → Bytes
c_string [] = []
c_string (c ∷ m) = let rest = c_string m in if c == 0 then [] else c ∷ rest

abbrev is_empty : Bytes → Bool
is_empty [] = true
is_empty (c ∷ s) = false

-- `if (strcmp("", breakin_disable) != 0)`
unfoldable pub announce_disabled : Bytes → List LogCall
announce_disabled memory =
    if is_empty (c_string memory)
    then []
    else message (codes "Was asked to disable the following tests: " ++ c_string memory) ∷ []

-- `run_benchmarks()`: the calls to the log, and the results for the disks, by device
unfoldable pub run_benchmarks : (Bytes → DiskEnv) → List Bytes → List LogCall × List Result
run_benchmarks env devices = (
  message (codes "Running memory performance benchmark")
      ∷ map (λ device. message (codes "Running disk benchmark on " ++ device)) devices,
  map (λ device. (bench_disk (env (codes "/dev/" ++ device))).result) devices,
)

abbrev when : Bool → List LogCall → List LogCall
when b calls = if b then calls else []

-- the messages in front of the last loop
unfoldable pub announce : Settings → Bool → List LogCall
announce s serial_enabled =
    when s.enable_updates (
      message (
        codes "Sending updates to "
        ++ (s.url ++ (codes " every " ++ (decimal_signed s.interval ++ codes " seconds"))))
      ∷ [])
    ++ (when serial_enabled (
          message (
            codes "Serial logging enabled on "
            ++ (s.serial_dev ++ (codes " baud " ++ decimal_signed s.serial_baud)))
          ∷ [])
        ++ (when s.enabled_ssh (message (codes "SSH server listing on port 22") ∷ [])
            ++ message (codes "Starting burnin tests") ∷ []))

-- what the phase is answered: by the kernel, by the disks, and by the clock
pub record StartEnv : Type 0 where
  pub fork : ForkEnv
  pub old_pid : Pid
  pub looks : List Look
  pub logdev_ok : Bool
  pub serial : SerialEnv
  pub header : Bytes
  pub devices : List Bytes
  pub bench : Bytes → DiskEnv
  pub clock : ℕ → ℕ

unfoldable pub stamp : (ℕ → ℕ) → ℕ → List LogCall → List (ℕ × LogCall)
stamp clock i [] = []
stamp clock i (call ∷ calls) = (clock i, call) ∷ stamp clock (suc i) calls

-- how far the program is: in its setup, past undefined behaviour, or in its last loop
pub data Progress : Type 0 where
  in_setup : Sinks → Progress
  broken : Progress
  burning : Sinks → (hardware_finished : Bool) → List Script → Progress

-- the outputs after the benchmarks, the messages and the calls of the loop
abbrev pub burn_log : Settings → StartEnv → List LogCall → Sinks → Sinks
burn_log s e calls k =
    let bench : List LogCall =
      if s.enable_benchmarks then (run_benchmarks e.bench e.devices).0 else [] in
    log_calls (stamp e.clock 1 (bench ++ (announce s k.serial_enabled ++ calls))) k

-- the last loop, behind `start_logdev`
unfoldable pub burn :
    Settings → StartEnv → Bool → List Script → List (ℕ → ScriptEnv) → Option Sinks → Progress
burn s e finished scripts envs none = broken
burn s e finished scripts envs (some k) = elim (main_loop envs scripts) [
  | none ↦ broken
  | some (scripts', calls) ↦ burning (burn_log s e calls k) finished scripts'
]

-- behind the hardware setup
unfoldable pub after_setup :
    Settings → StartEnv → Followed → List Script → Bytes → List (ℕ → ScriptEnv) → Sinks → Progress
after_setup s e hw scripts memory envs k = elim hw.over [
  | false ↦ in_setup (log_calls (stamp e.clock 0 hw.calls) k)
  | true ↦ burn s e hw.finished scripts envs (
      start_logdev (e.clock 0) e.logdev_ok e.serial s.serial_dev e.header
        (log_calls (stamp e.clock 0 (hw.calls ++ announce_disabled memory)) k))
]

-- the outputs when `log_file` has been opened, or not
abbrev pub outputs : Settings → Option Bytes → Sinks
outputs s log_file = record {
  log_win = [];
  log_file = log_file;
  logdev_file = none;
  serial_file = none;
  serial_enabled = s.serial_enabled;
}

-- `main` behind its options, for a directory and the memory of `breakin_disable`, and as many turns of
-- the last loop as there are answers
unfoldable pub program :
    Settings
    → StartEnv
    → Bytes
    → Option (List Bytes)
    → Bytes
    → List (ℕ → ScriptEnv)
    → Option Bytes
    → Progress
program s e dir names disable envs log_file = elim (find_burnin_tests dir names disable) [
  | none ↦ broken
  | some (scripts, memory) ↦
      after_setup s e (hardware_setup e.fork e.old_pid e.looks) scripts memory envs
        (outputs s log_file)
]
