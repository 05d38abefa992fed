-- ===== src/Burnin/Examples.antt =====
-- The theorems of the burn-in loop, applied to concrete tables and answers of the kernel.
use breakin.Base.{
  ℕ, ◌+◌, ◌≡◌, refl, inl, inr, true, false, zero, suc, List, [], ◌∷◌, ◌++◌, some, get_elem?, map,
  arith,
}
use breakin.Text.{Bytes, codes, starts_with, strncpy, str_eq}
use breakin.Trim.{trim}
use breakin.Burnin.Script.{Script, idle, active, disabled, null, opened, closed, process}
use breakin.Burnin.Fork.{ForkEnv, start_script, run_burnin_tests}
use breakin.Burnin.Find.{
  is_disabled, scan, scan_token, strtok, span_delims, span_token, cut, find_burnin_tests,
}
use breakin.Burnin.Find.Disable.{table, keep_from, find_burnin_tests-one, find_burnin_tests-forgets}
use breakin.Burnin.Poll.{
  wait_error, reaped, exited, signaled, poll_script, handle_wait, handle_line, handle_lines,
}
use breakin.Burnin.Round.{ScriptEnv, poll_scripts, turn, main_loop}
use breakin.Burnin.Valid.{IsValid, Steps, Prints, main_loop-IsValid}
use breakin.Burnin.Tally.{script_life, Tallied, waits, script_life-Tallied, no_stream_stuck}
use breakin.Burnin.Descriptors.{script_files, in_use, script_files_lem}
use breakin.Burnin.Contract.{off, view, IsServed, script_life-advance}
use breakin.Burnin.Share.{main_loop-get}
use breakin.Burnin.Messages.{last_text, complaints, handle_lines_lem}

abbrev fork_ok : ForkEnv
fork_ok = record {
  forked = process 7;
  get_flags_ok = true;
  set_flags_ok = true;
  fdopen_ok = true;
  errno = 0;
  strerror = [];
}

abbrev fork_bad : ForkEnv
fork_bad = record fork_ok { fdopen_ok = false }

abbrev memory_test : Script
memory_test = record {
  name = codes "memory";
  path = codes "/etc/breakin/tests/memory";
  last_msg = [];
  last_result = 0;
  running = idle;
  pid = process 0;
  fp_stdout = null;
  pass_count = 0;
  fail_count = 0;
}

abbrev disk_test : Script
disk_test = record memory_test { name = codes "disk"; running = active; fp_stdout = opened }

abbrev off_test : Script
off_test = record memory_test { running = disabled; fp_stdout = closed; pass_count = 3 }

abbrev passes : ScriptEnv
passes = record { fork = fork_ok; chunks = codes "MSG: half way\n" ∷ []; wait = reaped (exited 0) }

abbrev fails : ScriptEnv
fails = record { fork = fork_ok; chunks = codes "bad sector\n" ∷ []; wait = reaped (exited 1) }

abbrev killed : ScriptEnv
killed = record { fork = fork_ok; chunks = []; wait = reaped signaled }

abbrev two_tests : List Script
two_tests = memory_test ∷ disk_test ∷ []

-- the first script passes and the second fails, in each turn
abbrev answers : ℕ → ScriptEnv
answers zero = passes
answers (suc i) = fails

abbrev two_turns : List (ℕ → ScriptEnv)
two_turns = answers ∷ answers ∷ []

memory_test-IsValid : IsValid memory_test
memory_test-IsValid = record {
  readable = λ h. absurd (cc);
  msg_fits = omega arith;
  result_flag = omega arith;
  pass_fits = omega arith;
  fail_fits = omega arith;
}

disk_test-IsValid : IsValid disk_test
disk_test-IsValid = record {
  readable = λ h. inr refl;
  msg_fits = omega arith;
  result_flag = omega arith;
  pass_fits = omega arith;
  fail_fits = omega arith;
}

answers_print : (i : ℕ) → Prints (answers i)
answers_print zero = (refl, tt)
answers_print (suc i) = (refl, tt)

main_loop-IsValid_example : Steps two_tests (main_loop two_turns two_tests)
main_loop-IsValid_example =
    main_loop-IsValid two_turns two_tests (answers_print, (answers_print, tt))
      (memory_test-IsValid, (disk_test-IsValid, tt))

abbrev life : List ScriptEnv
life = passes ∷ fails ∷ killed ∷ passes ∷ []

script_life-Tallied_example :
    (s' : Script) × (script_life life memory_test ≡ some s') × Tallied (waits life) memory_test s'
script_life-Tallied_example =
    script_life-Tallied life memory_test (refl, refl, (refl, refl, (refl, refl, (refl, refl, tt))))
      ((refl, tt), ((refl, tt), (tt, ((refl, tt), tt)))) (inl refl) (omega arith) (omega arith)

no_stream_stuck_example :
    (s' : Script) × (script_life (record passes { fork = fork_bad } ∷ life) memory_test ≡ some s')
    × (s'.running ≡ active)
    × (s'.fp_stdout ≡ null)
    × (s'.pass_count ≡ 0)
    × (s'.fail_count ≡ 0)
no_stream_stuck_example =
    no_stream_stuck (record passes { fork = fork_bad }) life memory_test refl refl

-- the second and the fourth outcome are errors of waitpid
abbrev lost : ScriptEnv
lost = record passes { wait = wait_error }

abbrev unlucky : List ScriptEnv
unlucky = passes ∷ lost ∷ passes ∷ lost ∷ []

script_files_lem_example :
    (s' : Script) × (n' : ℕ) × (script_files unlucky memory_test 3 ≡ some (s', n'))
    × (n' + 0 ≡ 3 + (2 + in_use s'.running))
script_files_lem_example =
    script_files_lem unlucky memory_test 3
      (refl, refl, (refl, refl, (refl, refl, (refl, refl, tt))))
      ((refl, tt), ((refl, tt), ((refl, tt), ((refl, tt), tt)))) (inl refl) (omega arith)

abbrev reports : List Bytes
reports = codes "MSG: half way\n" ∷ codes "bad sector\n" ∷ codes "MSG: \n" ∷ []

handle_lines_lem_example :
    handle_lines reports memory_test
    ≡ some (
      record memory_test { last_msg = last_text [] reports },
      complaints (codes "memory") reports,
    )
handle_lines_lem_example = handle_lines_lem reports memory_test

abbrev ended : List Script
ended =
    record memory_test {
      last_msg = codes "half way";
      pid = process 7;
      fp_stdout = closed;
      pass_count = 1;
    }
    ∷ []

one_turn : main_loop (answers ∷ []) (memory_test ∷ []) ≡ some (ended, [])
unfolding main_loop turn poll_scripts run_burnin_tests poll_script start_script handle_wait
    handle_lines handle_line starts_with trim strncpy
one_turn = refl

main_loop-get_example :
    (s' : Script) × (get_elem? ended 0 ≡ some s')
    × (script_life (map (λ env. env 0) (answers ∷ [])) memory_test ≡ some s')
main_loop-get_example =
    main_loop-get (answers ∷ []) 0 (memory_test ∷ []) ended [] {s = memory_test} one_turn refl

abbrev dir : Bytes
dir = codes "/etc/breakin/tests"

abbrev entries : List Bytes
entries = codes "." ∷ codes "cpu" ∷ codes "disk" ∷ codes "mem" ∷ []

-- `-t disk`
find_burnin_tests-one_example :
    table (find_burnin_tests dir (some entries) (codes "disk" ++ 0 ∷ []))
    ≡ keep_from dir (codes "disk") 0 entries
find_burnin_tests-one_example =
    find_burnin_tests-one dir (codes "isk") [] b'd' entries (refl, (refl, (refl, (refl, tt))))

first_listed : (is_disabled (codes "disk,mem" ++ 0 ∷ []) (codes ".")).0 ≡ false
unfolding is_disabled scan scan_token strtok span_delims str_eq span_token cut
first_listed = refl

-- `-t disk,mem`: the second name is not disabled
find_burnin_tests-forgets_example :
    table (find_burnin_tests dir (some entries) (codes "disk,mem" ++ 0 ∷ []))
    ≡ keep_from dir (codes "disk") 0 entries
find_burnin_tests-forgets_example =
    find_burnin_tests-forgets dir (codes "isk") (codes "mem" ++ 0 ∷ []) b'd' (codes ".")
      (codes "cpu" ∷ codes "disk" ∷ codes "mem" ∷ []) (refl, (refl, (refl, (refl, tt))))
      first_listed

script_life-advance_example :
    (s' : Script) × (script_life life memory_test ≡ some s')
    × (view s' ≡ record { phase = off; passes = 1; fails = 1 })
    × IsServed s'
script_life-advance_example =
    script_life-advance life memory_test (refl, refl, (refl, refl, (refl, refl, (refl, refl, tt))))
      ((refl, tt), ((refl, tt), (tt, ((refl, tt), tt)))) (inl (inl refl))
