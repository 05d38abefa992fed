-- ===== src/Burnin/Tally.antt =====
-- One script over many turns: its counters are the tally of what waitpid reported of it.
use breakin.Base.{
  ℕ, ◌+◌, ◌%◌, ◌<◌, ◌≡◌, refl, ◌⊎◌, inl, inr, Bool, true, false, not, ◌&&◌, ◌||◌, List, [], ◌∷◌,
  ◌++◌, Option, some, arith, ◌==◌, if◌then◌else◌, Bool-cases, map, ◌>>=◌, All,
}
use breakin.Text.{codes}
use breakin.Log.{LogCall, message}
use breakin.Burnin.Script.{Script, Running, idle, active, disabled, null, opened, incr64}
use breakin.Burnin.Fork.{ForkEnv, fork_cmd, start_script}
use breakin.Burnin.Poll.{
  exited, signaled, Wait, no_change, wait_error, reaped, handle_wait, poll_script,
}
use breakin.Burnin.Round.{ScriptEnv, script_turn}
use breakin.Burnin.Valid.{poll_opened, poll_null, handle_lines-Worded, Prints}

-- one script, turn after turn
unfoldable pub script_life : List ScriptEnv → Script → Option Script
script_life [] s = some s
script_life (e ∷ es) s = do (s', _) ← script_turn e s; script_life es s'

-- The outcome that waitpid reports counts as a pass. A script that switches itself off (status 255)
-- does too, and so does an error of waitpid.
abbrev pub is_pass : Wait → Bool
is_pass no_change = false
is_pass wait_error = true
is_pass (reaped signaled) = false
is_pass (reaped (exited code)) = code == 0 || code == 255

-- It counts as a failure.
abbrev pub is_fail : Wait → Bool
is_fail no_change = false
is_fail wait_error = false
is_fail (reaped signaled) = false
is_fail (reaped (exited code)) = if code == 0 then false else if code == 255 then false else true

-- It takes the script out of service.
abbrev pub is_end : Wait → Bool
is_end no_change = false
is_end wait_error = false
is_end (reaped signaled) = true
is_end (reaped (exited code)) = code == 255

-- How many outcomes count, up to the one that ends the script's service.
abbrev pub count_until : (Wait → Bool) → List Wait → ℕ
count_until counts [] = 0
count_until counts (w ∷ ws) =
    (if counts w then 1 else 0) + (if is_end w then 0 else count_until counts ws)

abbrev pub ends : List Wait → Bool
ends [] = false
ends (w ∷ ws) = is_end w || ends ws

abbrev pub waits : List ScriptEnv → List Wait
waits = map (λ e. e.wait)

-- A script in service, with a stream to read if it runs.
abbrev pub IsHealthy : Script → Type 0
IsHealthy s = (s.running ≡ idle) ⊎ ((s.running ≡ active) × (s.fp_stdout ≡ opened))

-- `fork_cmd` returns a stream in every turn.
abbrev pub AllOpen : List ScriptEnv → Type 0
AllOpen [] = Unit {0}
AllOpen (e ∷ es) = (e.fork.set_flags_ok ≡ true) × (e.fork.fdopen_ok ≡ true) × AllOpen es

pub start_healthy :
    (e : ForkEnv) (s : Script)
    → e.set_flags_ok ≡ true
    → e.fdopen_ok ≡ true
    → IsHealthy s
    → ((start_script e s).0.running ≡ active)
      × ((start_script e s).0.fp_stdout ≡ opened)
      × ((start_script e s).0.pass_count ≡ s.pass_count)
      × ((start_script e s).0.fail_count ≡ s.fail_count)
unfolding start_script fork_cmd
start_healthy e s f o h = ground arith

-- what the outcome makes of a script that runs
abbrev pub running_after : Wait → Running
running_after no_change = active
running_after wait_error = idle
running_after (reaped signaled) = disabled
running_after (reaped (exited code)) = if code == 255 then disabled else idle

-- what a turn leaves of a healthy script
pub record Settled (w : Wait) (p f : ℕ) (s' : Script) : Type 0 where
  pub passes : s'.pass_count ≡ (if is_pass w then incr64 p else p)
  pub fails : s'.fail_count ≡ (if is_fail w then incr64 f else f)
  pub running : s'.running ≡ running_after w
  pub over : is_end w ≡ true → s'.running ≡ disabled
  pub lives : is_end w ≡ false → IsHealthy s'

settle :
    (w : Wait) (s : Script) {p f : ℕ}
    → s.running ≡ active
    → s.fp_stdout ≡ opened
    → s.pass_count ≡ p
    → s.fail_count ≡ f
    → Settled w p f (handle_wait w s).0
unfolding handle_wait
settle w s r o ep ef = ground arith

pub turn_settles :
    (e : ScriptEnv) (s : Script)
    → e.fork.set_flags_ok ≡ true
    → e.fork.fdopen_ok ≡ true
    → Prints e
    → IsHealthy s
    → (s' : Script) × (calls : List LogCall) × (script_turn e s ≡ some (s', calls))
      × Settled e.wait s.pass_count s.fail_count s'
unfolding script_turn
turn_settles e s f o q h =
    let (r, opn, pc, fc) = start_healthy e.fork s f o h in
    let s1 : Script = (start_script e.fork s).0 in
    let (m, calls, worded, _) = handle_lines-Worded e.chunks s1 q in
    let s2 : Script = record s1 { last_msg = m } in
    let t : Settled e.wait s.pass_count s.fail_count (handle_wait e.wait s2).0 =
      settle e.wait s2 r opn pc fc in
    (
      (handle_wait e.wait s2).0,
      (start_script e.fork s).1 ++ (calls ++ (handle_wait e.wait s2).1),
      rw (poll_opened e.chunks e.wait s1 s2 calls r opn worded, script_turn) refl,
      t,
    )

-- A turn passes a script that is out of service by.
pub turn_disabled :
    (e : ScriptEnv) (s : Script) → s.running ≡ disabled → script_turn e s ≡ some (s, [])
unfolding script_turn start_script poll_script
turn_disabled e s d = ground arith

-- A script that is out of service stays so, with its counters, its message and all else as they are.
disabled_stays :
    (es : List ScriptEnv) (s : Script) → s.running ≡ disabled → script_life es s ≡ some s
unfolding script_life
disabled_stays [] s d = refl
disabled_stays (e ∷ es) s d = rw (turn_disabled e s d, script_life) (disabled_stays es s d)

pub record Tallied (ws : List Wait) (s s' : Script) : Type 0 where
  pub passes : s'.pass_count ≡ (s.pass_count + count_until is_pass ws) % 18446744073709551616
  pub fails : s'.fail_count ≡ (s.fail_count + count_until is_fail ws) % 18446744073709551616
  pub over : ends ws ≡ true → s'.running ≡ disabled
  pub lives : ends ws ≡ false → IsHealthy s'

tally_end :
    (w : Wait) (ws : List Wait) (s s' : Script)
    → s.pass_count < 18446744073709551616
    → s.fail_count < 18446744073709551616
    → Settled w s.pass_count s.fail_count s'
    → is_end w ≡ true
    → Tallied (w ∷ ws) s s'
tally_end w ws s s' p f t e = ground (arith, t.over e)

tally_step :
    (w : Wait) (ws : List Wait) (s s' s'' : Script)
    → Settled w s.pass_count s.fail_count s'
    → is_end w ≡ false
    → Tallied ws s' s''
    → Tallied (w ∷ ws) s s''
tally_step w ws s s' s'' t e u = ground arith

-- From a script in service with counters below 2 to the 64, with every fork_cmd giving a stream and
-- no line of white space printed: after any turns the counters are the old ones plus the numbers of passing and failing outcomes
-- up to the outcome that ends the service, modulo 2 to the 64; the script is out of service
-- exactly if there was such an outcome.
pub script_life-Tallied :
    (es : List ScriptEnv) (s : Script)
    → AllOpen es
    → All Prints es
    → IsHealthy s
    → s.pass_count < 18446744073709551616
    → s.fail_count < 18446744073709551616
    → (s' : Script) × (script_life es s ≡ some s') × Tallied (waits es) s s'
unfolding script_life
script_life-Tallied [] s o q h p f = (s, refl, ground arith)
script_life-Tallied (e ∷ es) s o q h p f =
    let (s', calls, run, t) = turn_settles e s o.0 o.1 q.0 h in
    elim (Bool-cases (is_end e.wait)) [
      | inl y ↦ (
        s',
        rw (run, script_life) (disabled_stays es s' (t.over y)),
        tally_end e.wait _ s s' p f t y,
      )
      | inr n ↦
          let (s'', life, u) =
            script_life-Tallied es s' o.2 q.1 (t.lives n) (ground arith) (ground arith) in
          (s'', rw (run, script_life) life, tally_step e.wait _ s s' s'' t n u)
    ]

turn_null :
    (e : ScriptEnv) (s : Script)
    → s.running ≡ active
    → s.fp_stdout ≡ null
    → (calls : List LogCall) × (script_turn e s ≡ some (s, calls))
unfolding script_turn start_script poll_script
turn_null e s r f =
    (message (codes "Error reading stdout from: " ++ (s.name ++ b'\n' ∷ [])) ∷ [], ground arith)

null_stays :
    (es : List ScriptEnv) (s : Script)
    → s.running ≡ active
    → s.fp_stdout ≡ null
    → script_life es s ≡ some s
unfolding script_life
null_stays [] s r f = refl
null_stays (e ∷ es) s r f = rw ((turn_null e s r f).1, script_life) (null_stays es s r f)

-- A fork_cmd that returns NULL.
abbrev pub gives_null : ForkEnv → Bool
gives_null e = not (e.set_flags_ok && e.fdopen_ok)

start_null :
    (e : ForkEnv) (s : Script)
    → s.running ≡ idle
    → gives_null e ≡ true
    → ((start_script e s).0.running ≡ active)
      × ((start_script e s).0.fp_stdout ≡ null)
      × ((start_script e s).0.pass_count ≡ s.pass_count)
      × ((start_script e s).0.fail_count ≡ s.fail_count)
unfolding start_script fork_cmd
start_null e s i bad = ground arith

-- If fork_cmd gives an idle script no stream, the script counts as running and is never waited
-- for: whatever the kernel answers in this turn and later, neither counter moves and it is never
-- started again.
pub no_stream_stuck :
    (e : ScriptEnv) (es : List ScriptEnv) (s : Script)
    → s.running ≡ idle
    → gives_null e.fork ≡ true
    → (s' : Script) × (script_life (e ∷ es) s ≡ some s')
      × (s'.running ≡ active)
      × (s'.fp_stdout ≡ null)
      × (s'.pass_count ≡ s.pass_count)
      × (s'.fail_count ≡ s.fail_count)
unfolding script_life script_turn
no_stream_stuck e es s i bad =
    let s1 : Script = (start_script e.fork s).0 in
    let (r, f, p, q) = start_null e.fork s i bad in
    (
      s1,
      rw (poll_null e.chunks e.wait s1 r f, script_life, script_turn) (null_stays es s1 r f),
      r,
      f,
      p,
      q,
    )
