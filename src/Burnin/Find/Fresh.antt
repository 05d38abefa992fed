-- ===== src/Burnin/Find/Fresh.antt =====
-- The entries that `find_burnin_tests` fills in are valid.
use breakin.Base.{
  ℕ, ◌+◌, ◌≡◌, refl, sym, ◌∙◌, inl, inr, Bool, false, ◌||◌, Bool-cases, List, [], ◌∷◌, Option, none,
  some, leb, ◌>>=◌, >>=-eq-some, some-eq, All, arith,
}
use breakin.Text.{Bytes}
use breakin.Burnin.Script.{Script}
use breakin.Burnin.Valid.{IsValid}
use breakin.Burnin.Find.{
  max_burnin_scripts, is_hidden, is_disabled, new_script, visit, find_from, find_burnin_tests,
}

new_script-IsValid : (dir name : Bytes) → IsValid (new_script dir name)
new_script-IsValid dir name = record {
  readable = λ h. absurd (cc);
  msg_fits = omega arith;
  result_flag = omega arith;
  pass_fits = omega arith;
  fail_fits = omega arith;
}

-- The rest of the loop gives valid entries.
abbrev Good : (ℕ → Bytes → Option (List Script × Bytes)) → Type 0
Good next = (n : ℕ) (m : Bytes) (r : List Script × Bytes) → next n m ≡ some r → All IsValid r.0

visit_room :
    (dir : Bytes) (count : ℕ) (name : Bytes) (skip : Bool) (m : Bytes)
    (next : ℕ → Bytes → Option (List Script × Bytes))
    → skip || is_hidden name ≡ false
    → leb max_burnin_scripts count ≡ false
    → visit dir count name (skip, m) next
      ≡ (next (count + 1) m >>= λ r. some (new_script dir name ∷ r.0, r.1))
unfolding visit
visit_room dir count name skip m next n room = rw (n, visit) (rw (room, visit) refl)

visit-IsValid :
    (dir : Bytes) (count : ℕ) (name : Bytes) (skip : Bool) (m : Bytes)
    (next : ℕ → Bytes → Option (List Script × Bytes)) (r : List Script × Bytes)
    → Good next
    → visit dir count name (skip, m) next ≡ some r
    → All IsValid r.0
unfolding visit
visit-IsValid dir count name skip m next r good h = elim (Bool-cases (skip || is_hidden name)) [
  | inl y ↦ good count m r (sym (ground arith) ∙ h)
  | inr n ↦ elim (Bool-cases (leb max_burnin_scripts count)) [
    | inl full ↦ absurd (ground arith)
    | inr room ↦
        let run = sym (visit_room dir count name skip m next n room) ∙ h in
        let (r1, first, all) =
          >>=-eq-some (next (count + 1) m) (λ x. some (new_script dir name ∷ x.0, x.1)) run in
        rw (← some-eq all) (new_script-IsValid dir name, good (count + 1) m r1 first)
  ]
]

find_from-IsValid :
    (dir : Bytes) (count : ℕ) (names : List Bytes) (m : Bytes) (r : List Script × Bytes)
    → find_from dir count names m ≡ some r
    → All IsValid r.0
unfolding find_from
find_from-IsValid dir count [] m r h = rw (← some-eq h) tt
find_from-IsValid dir count (name ∷ names) m r h =
    visit-IsValid dir count name (is_disabled m name).0 (is_disabled m name).1
      (λ n m'. find_from dir n names m') r (λ n m' r' e. find_from-IsValid dir n names m' r' e) h

-- Whatever the directory and the disable list.
pub find_burnin_tests-IsValid :
    (dir : Bytes) (names : Option (List Bytes)) (m : Bytes) (r : List Script × Bytes)
    → find_burnin_tests dir names m ≡ some r
    → All IsValid r.0
unfolding find_burnin_tests
find_burnin_tests-IsValid dir none m r h = rw (← some-eq h) tt
find_burnin_tests-IsValid dir (some names) m r h = find_from-IsValid dir 0 names m r h
