-- ===== src/Burnin/Script.antt =====
-- An entry of the table `burnin_scripts` (struct burnin_scripts_t of breakin.h). The field
-- `fp_stderr` is left out, since the program never touches it.
use breakin.Base.{ℕ, ◌+◌, ◌%◌}
use breakin.Text.{Bytes}

-- `int running`: 0, 1 and -1
pub data Running : Type 0 where
  idle active disabled : Running

-- `FILE *fp_stdout`: NULL, an open stream, or one that fclose has freed
pub data Stream : Type 0 where
  null opened closed : Stream

-- `int pid`: a process, or the -1 of a fork that failed
pub data Pid : Type 0 where
  process : ℕ → Pid
  fork_failed : Pid

pub record Script : Type 0 where
  pub name : Bytes
  pub path : Bytes
  pub last_msg : Bytes
  pub last_result : ℕ
  pub running : Running
  pub pid : Pid
  pub fp_stdout : Stream
  pub pass_count : ℕ  -- long unsigned int
  pub fail_count : ℕ  -- long unsigned int

-- an increment of a `long unsigned int`
abbrev pub incr64 : ℕ → ℕ
incr64 n = (n + 1) % 18446744073709551616
