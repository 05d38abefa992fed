-- ===== src/Startup/Examples.antt =====
-- The theorems of the start, applied to a directory with two scripts.
use breakin.Base.{◌≡◌, refl, true, false, List, [], ◌∷◌, ◌++◌, some}
use breakin.Text.{Bytes, codes, str_eq}
use breakin.Log.{LogCall, message, window}
use breakin.Options.{default_settings}
use breakin.DiskBench.{DiskEnv}
use breakin.Burnin.Script.{Script, opened, null, process}
use breakin.Burnin.Fork.{ForkEnv, fork_cmd}
use breakin.Burnin.Find.{
  new_script, is_disabled, scan, scan_token, strtok, span_delims, span_token, cut, visit, find_from,
  find_burnin_tests,
}
use breakin.Burnin.Poll.{reaped, exited}
use breakin.Burnin.Round.{ScriptEnv}
use breakin.Startup.{Look, StartEnv, hardware_setup, dump_log, program, c_string, announce_disabled}
use breakin.Startup.Follow.{follow_cmd_lem}
use breakin.Startup.Program.{Burns, could_start, program-Burns}

abbrev fork_ok : ForkEnv
fork_ok = record {
  forked = process 7;
  get_flags_ok = true;
  set_flags_ok = true;
  fdopen_ok = true;
  errno = 0;
  strerror = [];
}

abbrev pub busy : Look
busy = record { lines = codes "loading drivers\n" ∷ []; reaped = false }

abbrev pub last_look : Look
last_look = record { lines = codes "done\n" ∷ []; reaped = true }

abbrev setup_calls : List LogCall
setup_calls = message (codes "Starting hardware setup") ∷ []

follow_cmd_lem_example :
    (opened ≡ opened
      → hardware_setup fork_ok (process 0) (busy ∷ last_look ∷ []) ≡ record {
        calls =
            (fork_cmd fork_ok (process 0) (some (codes "Starting hardware setup"))).calls
            ++ (window (codes "loading drivers\n")
                ∷ window (codes "done\n")
                ∷ message (codes "Finished hardware setup")
                ∷ []);
        finished = true;
        over = true;
      })
    × (opened ≡ opened
        → dump_log fork_ok (process 0) (busy ∷ last_look ∷ []) ≡ record {
          calls =
              (fork_cmd fork_ok (process 0) (some (codes "Dumping log to USB device"))).calls
              ++ (message (codes "loading drivers\n") ∷ message (codes "done\n") ∷ []);
          finished = true;
          over = true;
        })
    × (opened ≡ null
        → hardware_setup fork_ok (process 0) (busy ∷ last_look ∷ []) ≡ record {
          calls =
              (fork_cmd fork_ok (process 0) (some (codes "Starting hardware setup"))).calls ++ [];
          finished = false;
          over = true;
        })
unfolding fork_cmd
follow_cmd_lem_example = follow_cmd_lem fork_ok (process 0) (busy ∷ []) last_look [] (refl, tt) refl

abbrev no_disk : DiskEnv
no_disk = record {
  open_ok = false;
  shmget_ok = false;
  lock_ok = false;
  attach_ok = false;
  rmid_ok = false;
  shmdt_ok = false;
  flush_ok = false;
  timer = 0;
  rounds = [];
}

abbrev pub kernel : StartEnv
kernel = record {
  fork = fork_ok;
  old_pid = process 0;
  looks = busy ∷ last_look ∷ [];
  logdev_ok = true;
  serial = record { open_ok = true; fdopen_ok = true };
  header = codes "header";
  devices = codes "sda" ∷ [];
  bench = λ device. no_disk;
  clock = λ i. i;
}

abbrev pub passes : ScriptEnv
passes = record { fork = fork_ok; chunks = codes "MSG: half way\n" ∷ []; wait = reaped (exited 0) }

abbrev two_names : List Bytes
two_names = codes "memory" ∷ codes "disk" ∷ []

abbrev two_scripts : List Script
two_scripts =
    new_script (codes "/tests") (codes "memory") ∷ new_script (codes "/tests") (codes "disk") ∷ []

found : find_burnin_tests (codes "/tests") (some two_names) (0 ∷ []) ≡ some (two_scripts, 0 ∷ [])
unfolding find_burnin_tests find_from visit is_disabled scan scan_token strtok span_delims
    span_token cut str_eq
found = refl

program-Burns_example : Burns (could_start kernel) two_scripts (
    program default_settings kernel
      (codes "/tests")
      (some two_names)
      (0 ∷ [])
      ((λ i. passes) ∷ (λ i. passes) ∷ [])
      (some []))
program-Burns_example =
    program-Burns default_settings kernel (codes "/tests") (some two_names) (0 ∷ [])
      ((λ i. passes) ∷ (λ i. passes) ∷ []) (some []) two_scripts (0 ∷ []) (busy ∷ []) last_look []
      found refl (refl, tt) refl (λ bad. refl) ((λ i. (refl, tt)), ((λ i. (refl, tt)), tt))

-- After the scan for `memory` the list is cut behind its first name, which the message then shows alone.
announce_disabled_test :
    announce_disabled (is_disabled (codes "disk,hpl" ++ 0 ∷ []) (codes "memory")).1
    ≡ message (codes "Was asked to disable the following tests: disk") ∷ []
unfolding announce_disabled c_string is_disabled scan scan_token strtok span_delims span_token cut
    str_eq
announce_disabled_test = refl
