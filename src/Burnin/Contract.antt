-- ===== src/Burnin/Contract.antt =====
-- What the scheduler promises of a script: a job with its counters, which each turn takes a step
-- further by the one thing that can be reported of it. The stream, the process, the messages and the
-- numbers of exit codes are forgotten.
use breakin.Base.{
  ℕ, ◌≡◌, refl, ap, ◌∙◌, ◌⊎◌, inl, inr, List, [], ◌∷◌, some, map, All, ◌==◌, arith, if◌then◌else◌,
  Bool-cases,
}
use breakin.Burnin.Script.{Script, Running, idle, active, disabled, incr64}
use breakin.Burnin.Poll.{Wait, no_change, wait_error, reaped, exited, signaled}
use breakin.Burnin.Round.{ScriptEnv}
use breakin.Burnin.Valid.{Prints}
use breakin.Burnin.Tally.{
  IsHealthy, AllOpen, is_end, Settled, turn_settles, turn_disabled, script_life,
}

pub data Phase : Type 0 where
  ready busy off : Phase

pub record Job : Type 0 where
  pub phase : Phase
  pub passes : ℕ
  pub fails : ℕ

-- what is reported of a run in a turn
pub data Report : Type 0 where
  goes_on passed failed retired crashed : Report

-- A step of the contract. A job that is off stays so. Any other runs at the end of the turn, or has
-- ended: then it is counted once, or not if it crashed, and is ready again or off.
abbrev advance_on : Report → Job → Job
advance_on goes_on j = record j { phase = busy }
advance_on passed j = record j { phase = ready; passes = incr64 j.passes }
advance_on failed j = record j { phase = ready; fails = incr64 j.fails }
advance_on retired j = record j { phase = off; passes = incr64 j.passes }
advance_on crashed j = record j { phase = off }

abbrev advance_in : Phase → Report → Job → Job
advance_in off r j = j
advance_in ready r j = advance_on r j
advance_in busy r j = advance_on r j

abbrev pub advance : Report → Job → Job
advance r j = advance_in j.phase r j

abbrev pub advance_all : List Report → Job → Job
advance_all [] j = j
advance_all (r ∷ rs) j = advance_all rs (advance r j)

-- the report that the kernel's answer stands for
abbrev pub report_of : Wait → Report
report_of no_change = goes_on
report_of wait_error = passed
report_of (reaped signaled) = crashed
report_of (reaped (exited code)) =
    if code == 0 then passed else if code == 255 then retired else failed

abbrev phase_of : Running → Phase
phase_of idle = ready
phase_of active = busy
phase_of disabled = off

abbrev pub view : Script → Job
view s = record { phase = phase_of s.running; passes = s.pass_count; fails = s.fail_count }

-- in service, or switched off
abbrev pub IsServed : Script → Type 0
IsServed s = IsHealthy s ⊎ (s.running ≡ disabled)

view-advance :
    (w : Wait) (s s' : Script)
    → IsHealthy s
    → Settled w s.pass_count s.fail_count s'
    → view s' ≡ advance (report_of w) (view s)
view-advance no_change s s' h t = ground (arith, t.passes, t.fails, t.running)
view-advance wait_error s s' h t = ground (arith, t.passes, t.fails, t.running)
view-advance (reaped signaled) s s' h t = ground (arith, t.passes, t.fails, t.running)
view-advance (reaped (exited code)) s s' h t = ground (arith, t.passes, t.fails, t.running)

Settled-IsServed : (w : Wait) (s' : Script) (p f : ℕ) → Settled w p f s' → IsServed s'
Settled-IsServed w s' p f t = elim (Bool-cases (is_end w)) [
  | inl y ↦ inr (t.over y)
  | inr n ↦ inl (t.lives n)
]

view-off : (r : Report) (s : Script) → s.running ≡ disabled → view s ≡ advance r (view s)
view-off r s d = ground arith

-- A script that is idle, off, or runs with a stream, while every fork_cmd gives a stream and no line of
-- white space is printed: whatever waitpid answers in any number of turns, they are defined, and what
-- they make of the script's phase and counters is what the contract makes of the reports that the answers
-- stand for, one step for each turn.
pub script_life-advance :
    (es : List ScriptEnv) (s : Script)
    → AllOpen es
    → All Prints es
    → IsServed s
    → (s' : Script) × (script_life es s ≡ some s')
      × (view s' ≡ advance_all (map (λ e. report_of e.wait) es) (view s))
      × IsServed s'
unfolding script_life
script_life-advance [] s o q v = (s, refl, refl, v)
script_life-advance (e ∷ es) s o q (inl h) =
    let (s1, calls, run, t) = turn_settles e s o.0 o.1 q.0 h in
    let (s2, runs, same, v) =
      script_life-advance es s1 o.2 q.1 (Settled-IsServed e.wait s1 s.pass_count s.fail_count t) in
    (
      s2,
      rw (run, script_life) runs,
      same ∙ ap (advance_all (map (λ d. report_of d.wait) es)) (view-advance e.wait s s1 h t),
      v,
    )
script_life-advance (e ∷ es) s o q (inr d) =
    let (s2, runs, same, v) = script_life-advance es s o.2 q.1 (inr d) in
    (
      s2,
      rw (turn_disabled e s d, script_life) runs,
      same ∙ ap (advance_all (map (λ x. report_of x.wait) es)) (view-off (report_of e.wait) s d),
      v,
    )
