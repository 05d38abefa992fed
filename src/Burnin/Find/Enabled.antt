-- ===== src/Burnin/Find/Enabled.antt =====
-- With an empty disable list no test is kept out.
use breakin.Base.{
  ℕ, suc, ◌+◌, ◌<◌, ◌≡◌, refl, ap, ◌∙◌, false, List, [], ◌∷◌, ◌++◌, some, arith, length, All,
}
use breakin.Text.{Bytes, str_eq}
use breakin.Burnin.Find.{is_disabled, visit, find_from, find_burnin_tests}
use breakin.Burnin.Find.Disable.{
  IsPlain, keep_from, table, scan_empty, visit-table, find_burnin_tests-one,
}

-- A directory entry has a name.
abbrev pub IsNamed : Bytes → Type 0
IsNamed name = 0 < length name

str_eq_nil : (name : Bytes) → IsNamed name → str_eq [] name ≡ false
unfolding str_eq
str_eq_nil [] h = absurd (omega arith)
str_eq_nil (c ∷ name) h = refl

find_from-enabled :
    (dir r : Bytes) (count : ℕ) (names : List Bytes)
    → All IsNamed names
    → table (find_from dir count names (0 ∷ r)) ≡ keep_from dir [] count names
unfolding find_from keep_from is_disabled
find_from-enabled dir r count [] h = refl
find_from-enabled dir r count (name ∷ names) h =
    ap (λ s. table (visit dir count name s (λ n m. find_from dir n names m)))
      (scan_empty (suc (length (0 ∷ r))) r name)
    ∙ visit-table dir count name false (0 ∷ r) (λ n m. find_from dir n names m)
        (λ n. keep_from dir [] n names) (find_from-enabled dir r count names h.1)
        (find_from-enabled dir r (count + 1) names h.1)
    ∙ rw (str_eq_nil name h.0, keep_from) refl

-- A list of one name at most.
pub find_burnin_tests-plain :
    (dir off r : Bytes) (names : List Bytes)
    → IsPlain off
    → All IsNamed names
    → table (find_burnin_tests dir (some names) (off ++ 0 ∷ r)) ≡ keep_from dir off 0 names
unfolding find_burnin_tests
find_burnin_tests-plain dir [] r names h named = find_from-enabled dir r 0 names named
find_burnin_tests-plain dir (c ∷ a) r names h named = find_burnin_tests-one dir a r c names h
