-- ===== src/Burnin/Find.antt =====
-- `find_burnin_tests` of breakin.c, with the array `breakin_disable` as the bytes that strtok_r
-- writes into. The array ends in a NUL; the end of the list is never met before it. The directory
-- is the list of the names that readdir gives. `none` is a write past the table `burnin_scripts`.
pub mod Disable
pub mod Enabled
pub mod Fresh
use breakin.Base.{
  ℕ, zero, suc, ◌+◌, Bool, true, false, ◌||◌, List, [], ◌∷◌, ◌++◌, Option, none, some, ◌==◌, leb,
  length, if◌then◌else◌, ◌>>=◌,
}
use breakin.Text.{Bytes, codes, bufsiz, copy_n, strncpy, str_eq}
use breakin.Burnin.Script.{Script, idle, null, process}

-- MAX_BURNIN_SCRIPTS of breakin.h
abbrev pub max_burnin_scripts : ℕ
max_burnin_scripts = 64

abbrev pub is_stop : ℕ → Bool
is_stop c = c == 0 || c == b','

-- the delimiters at the head of the memory, and the rest
unfoldable pub span_delims : Bytes → Bytes × Bytes
span_delims [] = ([], [])
span_delims (c ∷ m) =
    let (ds, rest) = span_delims m in if c == b',' then (c ∷ ds, rest) else ([], c ∷ m)

-- the bytes up to a delimiter or a NUL, and the rest
unfoldable pub span_token : Bytes → Bytes × Bytes
span_token [] = ([], [])
span_token (c ∷ m) =
    let (token, rest) = span_token m in if is_stop c then ([], c ∷ m) else (c ∷ token, rest)

-- behind a token: a delimiter is overwritten by a NUL and passed, a NUL stays
unfoldable pub cut : Bytes → Bytes × Bytes
cut [] = ([], [])
cut (c ∷ m) = if c == 0 then ([], c ∷ m) else (0 ∷ [], m)

abbrev pub at_end : Bytes → Bool
at_end [] = true
at_end (c ∷ m) = c == 0

-- one call `strtok_r(…, ",", &strptr)`: the token, the memory that it has passed, as it leaves it,
-- and the memory at the new `strptr`
pub record Token : Type 0 where
  pub token : Option Bytes
  pub passed : Bytes
  pub rest : Bytes

unfoldable pub strtok : Bytes → Token
strtok m =
    let (ds, m1) = span_delims m in
    let (token, m2) = span_token m1 in
    let (nul, m3) = cut m2 in
    if at_end m1
    then record { token = none; passed = ds; rest = m1 }
    else record { token = some token; passed = ds ++ (token ++ nul); rest = m3 }

-- the body of `for (j = 1, str = breakin_disable; ;j++, str = NULL)` on a token; `next` is the rest
-- of the loop, from the new `strptr` on
unfoldable pub scan_token : Token → Bytes → (Bytes → Bool × Bytes) → Bool × Bytes
scan_token t name next = elim t.token [
  | none ↦ (false, t.passed ++ t.rest)
  | some token ↦ elim (str_eq token name) [
    | true ↦ (true, t.passed ++ t.rest)
    | false ↦ let (found, rest) = next t.rest in (found, t.passed ++ rest)
  ]
]

-- the loop: whether a token is the name, and the memory that is left. Each round passes a byte at
-- least, which the fuel counts.
unfoldable pub scan : ℕ → Bytes → Bytes → Bool × Bytes
scan zero m name = (false, m)
scan (suc fuel) m name = scan_token (strtok m) name (λ rest. scan fuel rest name)

unfoldable pub is_disabled : Bytes → Bytes → Bool × Bytes
is_disabled m name = scan (suc (length m)) m name

abbrev pub is_hidden : Bytes → Bool
is_hidden [] = false
is_hidden (c ∷ name) = c == b'.'

-- the entry that is filled in for a directory entry; the table starts zeroed
abbrev pub new_script : Bytes → Bytes → Script
new_script dir name = record {
  name = strncpy bufsiz name;
  path = strncpy bufsiz (copy_n bufsiz (dir ++ (b'/' ∷ name)));
  last_msg = [];
  last_result = 0;
  running = idle;
  pid = process 0;
  fp_stdout = null;
  pass_count = 0;
  fail_count = 0;
}

-- the body of the loop over readdir: what the scan of the disable list gave, and `next`, the rest
-- of the loop with its `burnin_count` and disable list
unfoldable pub visit :
    Bytes
    → ℕ
    → Bytes
    → Bool × Bytes
    → (ℕ → Bytes → Option (List Script × Bytes))
    → Option (List Script × Bytes)
visit dir count name (disable, m) next = elim (disable || is_hidden name) [
  | true ↦ next count m
  | false ↦ elim (leb max_burnin_scripts count) [
    | true ↦ none
    | false ↦ next (count + 1) m >>= λ r. some (new_script dir name ∷ r.0, r.1)
  ]
]

-- the loop, with `burnin_count`
unfoldable pub find_from : Bytes → ℕ → List Bytes → Bytes → Option (List Script × Bytes)
find_from dir count [] m = some ([], m)
find_from dir count (name ∷ names) m =
    visit dir count name (is_disabled m name) (λ n m'. find_from dir n names m')

-- `find_burnin_tests()`; with no directory the table stays empty
unfoldable pub find_burnin_tests :
    Bytes → Option (List Bytes) → Bytes → Option (List Script × Bytes)
find_burnin_tests dir none m = some ([], m)
find_burnin_tests dir (some names) m = find_from dir 0 names m
