-- ===== src/Startup/Whole.antt =====
-- From its command line the program gets to burn in the tests that were not disabled.
use breakin.Base.{
  ℕ, zero, suc, take, ◌+◌, ◌≡◌, ◌<◌, ◌≤◌, refl, ap, ◌∙◌, Bool, true, false, ◌||◌, List, [], ◌∷◌,
  ◌++◌, Option, none, some, map, All, some-eq, AllPairs, arith, length, leb, ◌>>=◌, if◌then◌else◌,
}
use breakin.Text.{Bytes, copy_n, bufsiz, str_eq, strncpy}
use breakin.Log.{Sinks}
use breakin.Options.{
  Opt, update_url, update_interval, baud, serialdev, disable_test, nobenchmark, ssh, unknown,
  default_settings, do_options,
}
use breakin.Options.Last.{last, any, is_unknown, disable_of, chosen, do_options_lem}
use breakin.Burnin.Script.{Script}
use breakin.Burnin.Find.{is_hidden, max_burnin_scripts, new_script, find_burnin_tests}
use breakin.Burnin.Find.Enabled.{IsNamed, find_burnin_tests-plain}
use breakin.Burnin.Find.Disable.{IsPlain, keep_from, table}
use breakin.Burnin.Round.{ScriptEnv}
use breakin.Burnin.Valid.{IsValid, Same, AllPrint}
use breakin.Startup.{Look, StartEnv, burning, program}
use breakin.Startup.Program.{HasStream, could_start, program-Burns}
use breakin.Startup.Main.{
  disable_array, zeros, Hardware, read_hardware, Run, started, go_on, start, main,
}

-- the directory's entries that become tests: those that are neither hidden nor called `off`
abbrev pub kept : Bytes → List Bytes → List Bytes
kept off [] = []
kept off (name ∷ names) =
    if str_eq off name || is_hidden name then kept off names else name ∷ kept off names

-- However often `-t` is given, the array holds the last list, a NUL, and whatever was there.
disable_array_lem :
    (os : List Opt) (old rest : Bytes)
    → (left : Bytes) × (disable_array os (old ++ 0 ∷ rest) ≡ last disable_of old os ++ 0 ∷ left)
unfolding disable_array
disable_array_lem [] old rest = (rest, refl)
disable_array_lem (disable_test a ∷ os) old rest = disable_array_lem os (copy_n 1024 a) _
disable_array_lem (update_url a ∷ os) old rest = disable_array_lem os old rest
disable_array_lem (update_interval a ∷ os) old rest = disable_array_lem os old rest
disable_array_lem (baud a ∷ os) old rest = disable_array_lem os old rest
disable_array_lem (serialdev a ∷ os) old rest = disable_array_lem os old rest
disable_array_lem (nobenchmark ∷ os) old rest = disable_array_lem os old rest
disable_array_lem (ssh ∷ os) old rest = disable_array_lem os old rest
disable_array_lem (unknown ∷ os) old rest = disable_array_lem os old rest

not_full : (count : ℕ) → count < max_burnin_scripts → leb max_burnin_scripts count ≡ false
not_full count h = ground arith

keep_from-kept :
    (dir off : Bytes) (names : List Bytes) (count : ℕ)
    → count + length (kept off names) ≤ max_burnin_scripts
    → keep_from dir off count names ≡ some (map (new_script dir) (kept off names))
unfolding keep_from
keep_from-kept dir off [] count h = refl
keep_from-kept dir off (name ∷ names) count h =
    go (λ n p. keep_from-kept dir off names n p) (str_eq off name || is_hidden name) h
  where
    go :
        ((n : ℕ)
          → n + length (kept off names) ≤ max_burnin_scripts
          → keep_from dir off n names ≡ some (map (new_script dir) (kept off names)))
        → (b : Bool)
        → count + length (if b then kept off names else name ∷ kept off names) ≤ max_burnin_scripts
        → (elim b [
          | true ↦ keep_from dir off count names
          | false ↦ elim (leb max_burnin_scripts count) [
            | true ↦ none
            | false ↦ keep_from dir off (count + 1) names >>= λ ss. some (new_script dir name ∷ ss)
          ]
        ])
          ≡ some (map (new_script dir) (if b then kept off names else name ∷ kept off names))
    go ih true h = ih count h
    go ih false h = rw (not_full count (omega arith)) (rw (ih (count + 1) (omega arith)) refl)

find-kept :
    (o : Option (List Script × Bytes)) (ss : List Script)
    → table o ≡ some ss
    → (memory : Bytes) × (o ≡ some (ss, memory))
find-kept none ss h = cc
find-kept (some (ss', m)) ss h = (m, ap (λ l. some (l, m)) (some-eq h))

take_all : {A : Type 0} (n : ℕ) (xs : List A) → length xs ≤ n → take n xs ≡ xs
take_all zero [] h = refl
take_all zero (x ∷ xs) h = absurd (omega arith)
take_all (suc n) [] h = refl
take_all (suc n) (x ∷ xs) h = ap (x ∷◌) (take_all n xs (omega arith))

Same-names :
    (dir : Bytes) (names : List Bytes) (scripts : List Script)
    → All (λ name. length name < bufsiz) names
    → AllPairs Same (map (new_script dir) names) scripts
    → map (λ s. s.name) scripts ≡ names
unfolding strncpy
Same-names dir [] [] short same = refl
Same-names dir [] (s ∷ ss) short same = absurd same
Same-names dir (n ∷ ns) [] short same = absurd same
Same-names dir (n ∷ ns) (s ∷ ss) short same =
    let head : s.name ≡ n = same.0.name ∙ take_all bufsiz n (omega (arith, short.0)) in
    cc (head, Same-names dir ns ss short.1 same.1)

abbrev pub BurnsIn : Bytes → List Bytes → Bool → Run → Type 0
BurnsIn off names finished run =
    (k : Sinks) × (scripts : List Script) × (run ≡ started (burning k finished scripts))
    × (map (λ s. s.name) scripts ≡ kept off names)
    × All IsValid scripts

main_started :
    (h : Hardware) (os : List Opt) (e : StartEnv) (dir : Bytes) (names : List Bytes)
    (envs : List (ℕ → ScriptEnv)) (log_file : Option Bytes) (tests : List Script × Bytes)
    → any is_unknown os ≡ false
    → find_burnin_tests dir (some names) (disable_array os (zeros 1024)) ≡ some tests
    → read_hardware h ≡ some true
    → main 0 h os e dir (some names) envs log_file
      ≡ started (
          program
            (chosen os default_settings)
            e
            dir
            (some names)
            (disable_array os (zeros 1024))
            envs
            log_file)
unfolding main start go_on
main_started h os e dir names envs log_file tests known found reads =
    let fine : do_options os default_settings ≡ some (chosen os default_settings) =
      do_options_lem os default_settings ∙ rw known refl in
    ap (start h os e dir (some names) envs log_file) fine ∙ rw (found, start) (rw reads refl)

-- Root gives no unknown option; `off` is what the last `-t` gives, one name, or nothing if there is no
-- `-t`. The entries of the directory have names; at most 64 are neither hidden nor called `off`, and
-- their names fit an entry. What is read of the machine once can be read, one of the looks at the
-- hardware setup finds it ended, the benchmarks return, the serial port is not enabled and open without
-- a stream, and no script prints a line of white space. Then the program gets to its last loop and stays
-- defined there for any number of turns, with exactly those entries as its tests, in the directory's
-- order and all valid.
pub main-BurnsIn :
    (h : Hardware) (os : List Opt) (e : StartEnv) (dir off : Bytes) (names : List Bytes)
    (envs : List (ℕ → ScriptEnv)) (log_file : Option Bytes) (quiet : List Look) (last_look : Look)
    (rest : List Look)
    → any is_unknown os ≡ false
    → last disable_of [] os ≡ off
    → IsPlain off
    → All IsNamed names
    → length (kept off names) ≤ max_burnin_scripts
    → All (λ name. length name < bufsiz) (kept off names)
    → read_hardware h ≡ some true
    → e.looks ≡ quiet ++ last_look ∷ rest
    → All (λ l. l.reaped ≡ false) quiet
    → last_look.reaped ≡ true
    → HasStream (chosen os default_settings) e.serial
    → AllPrint envs
    → BurnsIn off names (could_start e) (main 0 h os e dir (some names) envs log_file)
main-BurnsIn h os e dir off names envs log_file quiet last_look rest known disabled plain named fits
      short reads looks q r ok prints =
    let tests : List Script = map (new_script dir) (kept off names) in
    let (junk, array) = disable_array_lem os [] (zeros 1023) in
    let memory : Bytes = disable_array os (zeros 1024) in
    let listed : memory ≡ off ++ 0 ∷ junk = array ∙ ap (λ (x : Bytes). x ++ 0 ∷ junk) disabled in
    let found : table (find_burnin_tests dir (some names) memory) ≡ some tests =
      ap (λ m. table (find_burnin_tests dir (some names) m)) listed
      ∙ find_burnin_tests-plain dir off junk names plain named
      ∙ keep_from-kept dir off names 0 (omega (arith, fits)) in
    let (left, built) = find-kept _ _ found in
    let (k, scripts, run, valid, same) =
      program-Burns (chosen os default_settings) e dir (some names) memory envs log_file tests left
        quiet last_look rest built looks q r ok prints in
    (
      k,
      scripts,
      main_started h os e dir names envs log_file _ known built reads ∙ ap started run,
      Same-names dir (kept off names) scripts short same,
      valid,
    )
