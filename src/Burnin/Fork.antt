-- ===== src/Burnin/Fork.antt =====
-- `fork_cmd` and `run_burnin_tests` of breakin.c, in the parent process. The child's half ends in
-- execve. A fork that fails is not told apart from one that succeeds, as in the source.
use breakin.Base.{ℕ, suc, Bool, List, [], ◌∷◌, ◌++◌, Option, none, some, if◌then◌else◌}
use breakin.Text.{Bytes, codes, decimal}
use breakin.Log.{LogCall, message, window}
use breakin.Burnin.Script.{Running, idle, active, Stream, null, opened, Pid, Script}

-- What the kernel answers to one `fork_cmd`: fork's result, whether the two calls of fcntl and the
-- call of fdopen succeed, and errno with its text.
pub record ForkEnv : Type 0 where
  pub forked : Pid
  pub get_flags_ok : Bool
  pub set_flags_ok : Bool
  pub fdopen_ok : Bool
  pub errno : ℕ
  pub strerror : Bytes

-- the stream, the value left in `*returnpid`, and the calls to the log
pub record Forked : Type 0 where
  pub stream : Stream
  pub pid : Pid
  pub calls : List LogCall

abbrev label_calls : Option Bytes → List LogCall
label_calls none = []
label_calls (some label) = message label ∷ []

abbrev get_error : ForkEnv → LogCall
get_error e =
    window (codes "Error getting ! " ++ (decimal e.errno ++ (b' ' ∷ (e.strerror ++ b'\n' ∷ []))))

abbrev open_error : ForkEnv → LogCall
open_error e = window (codes "Error " ++ (e.strerror ++ b'\n' ∷ []))

-- `fork_cmd(returnpid, label, cmd)`; `old` is what `*returnpid` holds before
unfoldable pub fork_cmd : ForkEnv → Pid → Option Bytes → Forked
fork_cmd e old label =
    let start : List LogCall =
      label_calls label ++ (if e.get_flags_ok then [] else get_error e ∷ []) in
    if e.set_flags_ok
    then (if e.fdopen_ok
        then record { stream = opened; pid = e.forked; calls = start }
        else record { stream = null; pid = e.forked; calls = start ++ open_error e ∷ [] })
    else record { stream = null; pid = old; calls = start }

-- one turn of the loop of `run_burnin_tests`
start_idle : Running → ForkEnv → Script → Script × List LogCall
unfolding fork_cmd
start_idle idle e s =
    let f : Forked = fork_cmd e s.pid none in
    (record s { fp_stdout = f.stream; pid = f.pid; running = active }, f.calls)
start_idle _ e s = (s, [])

unfoldable pub start_script : ForkEnv → Script → Script × List LogCall
unfolding start_idle
start_script e s = start_idle s.running e s

-- `run_burnin_tests()`, from the entry `i` of the table on
unfoldable pub run_burnin_tests : (ℕ → ForkEnv) → ℕ → List Script → List Script × List LogCall
run_burnin_tests env i [] = ([], [])
run_burnin_tests env i (s ∷ ss) =
    let (s', calls) = start_script (env i) s in
    let (ss', more) = run_burnin_tests env (suc i) ss in (s' ∷ ss', calls ++ more)
