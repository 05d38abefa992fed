-- ===== src/Startup/Program.antt =====
-- From its options on the program reaches its last loop, and stays defined there.
use breakin.Base.{
  ℕ, ◌≡◌, refl, ap, ◌∙◌, inl, inr, ◌⊎◌, Bool, true, false, ◌&&◌, List, [], ◌∷◌, ◌++◌, Option, none,
  some, All, AllPairs, arith,
}
use breakin.Text.{Bytes, codes}
use breakin.Log.{LogCall, Sinks, append_serial, log_calls}
use breakin.Log.Replay.{extended, log_calls_lem}
use breakin.Options.{Settings}
use breakin.LogDevice.{SerialEnv, start_logdev}
use breakin.LogDevice.Begins.{start_logdev_lem}
use breakin.Burnin.Script.{Script, Stream, null, opened, Pid}
use breakin.Burnin.Fork.{ForkEnv, fork_cmd}
use breakin.Burnin.Find.{find_burnin_tests}
use breakin.Burnin.Find.Fresh.{find_burnin_tests-IsValid}
use breakin.Burnin.Round.{ScriptEnv}
use breakin.Burnin.Valid.{IsValid, Same, AllPrint, main_loop-IsValid}
use breakin.Startup.{
  Look, Followed, hardware_setup, announce_disabled, StartEnv, stamp, burn_log, Progress, burning,
  burn, after_setup, outputs, program,
}
use breakin.Startup.Follow.{follow_cmd_lem}

-- the port is not open without a stream
abbrev pub HasStream : Settings → SerialEnv → Type 0
HasStream s e = e.fdopen_ok ≡ false → s.serial_enabled && e.open_ok ≡ false

start_logdev_ok :
    (now : ℕ) (device : Bool) (e : SerialEnv) (dev header : Bytes) (k : Sinks)
    → k.serial_file ≡ none
    → (e.fdopen_ok ≡ false → k.serial_enabled && e.open_ok ≡ false)
    → (k' : Sinks) × (start_logdev now device e dev header k ≡ some k')
start_logdev_ok now true e dev header k fresh ok =
    let (k', run, device, port, flag) = (start_logdev_lem now e dev header k [] fresh).0 ok in
    (k', run)
start_logdev_ok now false e dev header k fresh ok =
    (record k { logdev_file = none }, unfold start_logdev in refl)

-- In the last loop, with valid scripts that are those of the table.
abbrev pub Burns : Bool → List Script → Progress → Type 0
Burns finished scripts p =
    (k : Sinks) × (scripts' : List Script) × (p ≡ burning k finished scripts')
    × All IsValid scripts'
    × AllPairs Same scripts scripts'

burn-Burns :
    (s : Settings) (e : StartEnv) (finished : Bool) (scripts : List Script)
    (envs : List (ℕ → ScriptEnv)) (k : Sinks)
    → AllPrint envs
    → All IsValid scripts
    → Burns finished scripts (burn s e finished scripts envs (some k))
unfolding burn
burn-Burns s e finished scripts envs k p v =
    let (scripts', calls, run, v', same) = main_loop-IsValid envs scripts p v in
    (burn_log s e calls k, scripts', rw (run, burn) refl, v', same)

closed_port :
    (b : Bool) (o : Option Bytes) (text : Bytes) → o ≡ none → append_serial b o text ≡ none
closed_port true none text h = refl
closed_port true (some old) text h = cc
closed_port false o text h = h

after_setup-Burns :
    (s : Settings) (e : StartEnv) (hw : Followed) (scripts : List Script) (memory : Bytes)
    (envs : List (ℕ → ScriptEnv)) (k : Sinks)
    → AllPrint envs
    → All IsValid scripts
    → hw.over ≡ true
    → k.serial_file ≡ none
    → (e.serial.fdopen_ok ≡ false → k.serial_enabled && e.serial.open_ok ≡ false)
    → Burns hw.finished scripts (after_setup s e hw scripts memory envs k)
unfolding after_setup
after_setup-Burns s e hw scripts memory envs k p v over fresh ok =
    let calls : List (ℕ × LogCall) = stamp e.clock 0 (hw.calls ++ announce_disabled memory) in
    let same : log_calls calls k ≡ extended calls k = log_calls_lem calls k in
    let port : (log_calls calls k).serial_file ≡ none =
      ap (λ x. x.serial_file) same ∙ closed_port k.serial_enabled k.serial_file _ fresh in
    let flag : (log_calls calls k).serial_enabled ≡ k.serial_enabled =
      ap (λ x. x.serial_enabled) same in
    let (k', run) =
      start_logdev_ok (e.clock 0) e.logdev_ok e.serial s.serial_dev e.header (log_calls calls k)
        port (λ bad. rw flag (ok bad)) in
    rw (over, after_setup) (rw run (burn-Burns s e hw.finished scripts envs k' p v))

-- The hardware script could be started.
abbrev is_opened : Stream → Bool
is_opened opened = true
is_opened _ = false

abbrev pub could_start : StartEnv → Bool
could_start e =
    is_opened (fork_cmd e.fork e.old_pid (some (codes "Starting hardware setup"))).stream

fork_cmd-stream :
    (e : ForkEnv) (old : Pid) (label : Option Bytes)
    → ((fork_cmd e old label).stream ≡ opened) ⊎ ((fork_cmd e old label).stream ≡ null)
unfolding fork_cmd
fork_cmd-stream e old label = ground arith

setup_ends :
    (e : StartEnv) (quiet : List Look) (last : Look) (rest : List Look)
    → e.looks ≡ quiet ++ last ∷ rest
    → All (λ l. l.reaped ≡ false) quiet
    → last.reaped ≡ true
    → ((hardware_setup e.fork e.old_pid e.looks).over ≡ true)
      × ((hardware_setup e.fork e.old_pid e.looks).finished ≡ could_start e)
setup_ends e quiet last rest looks a r =
    let (started, dumped, failed) = follow_cmd_lem e.fork e.old_pid quiet last rest a r in
    rw looks (elim (fork_cmd-stream e.fork e.old_pid (some (codes "Starting hardware setup"))) [
      | inl o ↦ rw (started o, o) (refl, refl)
      | inr n ↦ rw (failed n, n) (refl, refl)
    ])

-- The table can be built; the hardware setup cannot be started, or is waited for in some round; the
-- serial port is not enabled and open without a stream; the benchmarks, if they are run, return; no
-- script prints a line of white space. Then, however long the setup takes and whatever the kernel
-- answers in any number of turns: the program is in its last loop, has neither read a closed stream nor
-- written to a NULL file handle, and its table still holds the scripts of the directory, all valid. The
-- setup counts as finished exactly if it could be started.
pub program-Burns :
    (s : Settings) (e : StartEnv) (dir : Bytes) (names : Option (List Bytes)) (disable : Bytes)
    (envs : List (ℕ → ScriptEnv)) (log_file : Option Bytes) (scripts : List Script) (memory : Bytes)
    (quiet : List Look) (last : Look) (rest : List Look)
    → find_burnin_tests dir names disable ≡ some (scripts, memory)
    → e.looks ≡ quiet ++ last ∷ rest
    → All (λ l. l.reaped ≡ false) quiet
    → last.reaped ≡ true
    → HasStream s e.serial
    → AllPrint envs
    → Burns (could_start e) scripts (program s e dir names disable envs log_file)
unfolding program
program-Burns s e dir names disable envs log_file scripts memory quiet last rest found looks a r ok
      prints =
    let v : All IsValid scripts =
      find_burnin_tests-IsValid dir names disable (scripts, memory) found in
    let (over, finished) = setup_ends e quiet last rest looks a r in
    rw (found, program)
      (rw (← finished) (
        after_setup-Burns s e (hardware_setup e.fork e.old_pid e.looks) scripts memory envs
          (outputs s log_file) prints v over refl ok))
