-- ===== src/Burnin/Round.antt =====
-- One turn of main's last `while (1)`, and any number of them.
use breakin.Base.{ℕ, suc, List, [], ◌∷◌, ◌++◌, Option, some, ◌>>=◌}
use breakin.Text.{Bytes}
use breakin.Log.{LogCall}
use breakin.Burnin.Script.{Script}
use breakin.Burnin.Fork.{ForkEnv, start_script, run_burnin_tests}
use breakin.Burnin.Poll.{Wait, poll_script}

-- what the kernel answers about one script in one turn
pub record ScriptEnv : Type 0 where
  pub fork : ForkEnv
  pub chunks : List Bytes
  pub wait : Wait

-- `for (i = 0; i < burnin_script_count; i ++)`, from the entry `i` on
unfoldable pub poll_scripts :
    (ℕ → ScriptEnv) → ℕ → List Script → Option (List Script × List LogCall)
poll_scripts env i [] = some ([], [])
poll_scripts env i (s ∷ ss) = do
  (s', calls) ← poll_script (env i).chunks (env i).wait s
  (ss', more) ← poll_scripts env (suc i) ss
  some (s' ∷ ss', calls ++ more)

-- the turn: all idle scripts are started, then all are polled
unfoldable pub turn : (ℕ → ScriptEnv) → List Script → Option (List Script × List LogCall)
turn env ss = do
  let (started, calls) = run_burnin_tests (λ i. (env i).fork) 0 ss
  (polled, more) ← poll_scripts env 0 started
  some (polled, calls ++ more)

-- the endless loop, for as many turns as there are answers
unfoldable pub main_loop : List (ℕ → ScriptEnv) → List Script → Option (List Script × List LogCall)
main_loop [] ss = some (ss, [])
main_loop (env ∷ envs) ss = do
  (ss', calls) ← turn env ss
  (ss'', more) ← main_loop envs ss'
  some (ss'', calls ++ more)

-- one script's share of a turn
unfoldable pub script_turn : ScriptEnv → Script → Option (Script × List LogCall)
script_turn e s = do
  let (s', calls) = start_script e.fork s
  (s'', more) ← poll_script e.chunks e.wait s'
  some (s'', calls ++ more)
