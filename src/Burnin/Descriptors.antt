-- ===== src/Burnin/Descriptors.antt =====
-- The file descriptors that a burn-in script costs: `fork_cmd` opens a pipe and closes one end of it, and
-- fclose closes the other when the script has been waited for.
use breakin.Base.{
  ℕ, ◌+◌, ◌-◌, ◌≤◌, ◌≡◌, refl, ap, inl, inr, Bool, true, false, Bool-cases, List, [], ◌∷◌, Option,
  some, arith, if◌then◌else◌, ◌>>=◌, All,
}
use breakin.Burnin.Script.{Script, Running, idle, active, disabled, Stream, opened}
use breakin.Burnin.Fork.{ForkEnv, start_script}
use breakin.Burnin.Poll.{Wait, no_change, wait_error, reaped, exited, signaled}
use breakin.Burnin.Round.{ScriptEnv, script_turn}
use breakin.Burnin.Valid.{Prints}
use breakin.Burnin.Tally.{
  IsHealthy, AllOpen, waits, count_until, is_end, running_after, start_healthy, turn_settles,
  turn_disabled,
}

-- what `run_burnin_tests` opens for a script and leaves open
unfoldable pub opened_files : ForkEnv → Running → ℕ
opened_files e idle = if e.set_flags_ok then 1 else 2
opened_files e _ = 0

-- what the poll of a script closes: its stream, if `waitpid` returned its process
unfoldable pub closed_files : Wait → Running → Stream → ℕ
closed_files (reaped status) active opened = 1
closed_files _ _ _ = 0

-- the open descriptors after a turn
unfoldable pub turn_files : ScriptEnv → Script → ℕ → ℕ
turn_files e s n =
    let s1 : Script = (start_script e.fork s).0 in
    n + opened_files e.fork s.running - closed_files e.wait s1.running s1.fp_stdout

-- one script, turn after turn, with the open descriptors
unfoldable pub script_files : List ScriptEnv → Script → ℕ → Option (Script × ℕ)
script_files [] s n = some (s, n)
script_files (e ∷ es) s n = do (s', calls) ← script_turn e s; script_files es s' (turn_files e s n)

abbrev pub is_error : Wait → Bool
is_error wait_error = true
is_error _ = false

-- the one descriptor of a script that runs
abbrev pub in_use : Running → ℕ
in_use active = 1
in_use _ = 0

opened_files-healthy :
    (e : ForkEnv) (s : Script)
    → e.set_flags_ok ≡ true
    → IsHealthy s
    → opened_files e s.running + in_use s.running ≡ 1
unfolding opened_files
opened_files-healthy e s f h = ground arith

closed_files-active :
    (w : Wait)
    → closed_files w active opened + ((if is_error w then 1 else 0) + in_use (running_after w)) ≡ 1
unfolding closed_files
closed_files-active no_change = omega arith
closed_files-active wait_error = omega arith
closed_files-active (reaped signaled) = omega arith
closed_files-active (reaped (exited code)) = ground arith

turn_files-healthy :
    (e : ScriptEnv) (s : Script) (n : ℕ)
    → e.fork.set_flags_ok ≡ true
    → e.fork.fdopen_ok ≡ true
    → IsHealthy s
    → in_use s.running ≤ n
    → turn_files e s n + in_use s.running
      ≡ n + ((if is_error e.wait then 1 else 0) + in_use (running_after e.wait))
unfolding turn_files
turn_files-healthy e s n f o h l =
    let (r, opn, pc, fc) = start_healthy e.fork s f o h in
    rw (r, opn) (omega (arith, l, opened_files-healthy e.fork s f h, closed_files-active e.wait))

-- The script is out of service: nothing is opened or closed any more.
turn_files-disabled :
    (e : ScriptEnv) (s : Script) (n : ℕ) → s.running ≡ disabled → turn_files e s n ≡ n
unfolding turn_files opened_files closed_files start_script
turn_files-disabled e s n d = ground arith

script_files-disabled :
    (es : List ScriptEnv) (s : Script) (n : ℕ)
    → s.running ≡ disabled
    → script_files es s n ≡ some (s, n)
unfolding script_files
script_files-disabled [] s n d = refl
script_files-disabled (e ∷ es) s n d =
    rw (turn_disabled e s d) (rw (turn_files-disabled e s n d) (script_files-disabled es s n d))

-- If `fork_cmd` returns a stream in every turn and no line of white space is printed, a script in
-- service costs, after any number of turns, one descriptor while it runs and one more for good for each error of waitpid in its service: the stream of
-- the run that the error ended is never closed.
pub script_files_lem :
    (es : List ScriptEnv) (s : Script) (n : ℕ)
    → AllOpen es
    → All Prints es
    → IsHealthy s
    → in_use s.running ≤ n
    → (s' : Script) × (n' : ℕ) × (script_files es s n ≡ some (s', n'))
      × (n' + in_use s.running ≡ n + (count_until is_error (waits es) + in_use s'.running))
unfolding script_files
script_files_lem [] s n a q h l = (s, n, refl, omega arith)
script_files_lem (e ∷ es) s n (f, o, a) q h l =
    let (s1, calls, run, settled) = turn_settles e s f o q.0 h in
    let files = turn_files-healthy e s n f o h l in
    let after : in_use s1.running ≡ in_use (running_after e.wait) = ap in_use settled.running in
    elim (Bool-cases (is_end e.wait)) [
      | inl over ↦
          let d : s1.running ≡ disabled = settled.over over in
          (
            s1,
            turn_files e s n,
            rw run (script_files-disabled es s1 (turn_files e s n) d),
            rw over (omega (arith, files, after)),
          )
      | inr lives ↦
          let (s2, n2, runs, rest) =
            script_files_lem es s1 (turn_files e s n) a q.1 (settled.lives lives)
              (omega (arith, files, after, l)) in
          (s2, n2, rw run runs, rw lives (omega (arith, files, after, rest)))
    ]
