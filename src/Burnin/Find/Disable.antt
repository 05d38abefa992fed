-- ===== src/Burnin/Find/Disable.antt =====
-- Which tests the disable list keeps out.
use breakin.Base.{
  ℕ, zero, suc, ◌+◌, ◌≡◌, refl, sym, ap, ◌∙◌, Bool, true, false, ◌||◌, List, [], ◌∷◌, ◌++◌, Option,
  none, some, arith, length, ◌==◌, leb, if◌then◌else◌, append_assoc, append-nil, ◌>>=◌,
}
use breakin.Text.{Bytes, str_eq}
use breakin.Burnin.Script.{Script}
use breakin.Burnin.Find.{
  max_burnin_scripts, is_stop, span_delims, span_token, cut, strtok, scan_token, scan, is_disabled,
  is_hidden, new_script, visit, find_from, find_burnin_tests,
}

-- A name that can stand in the list: no comma and no NUL.
abbrev pub IsPlain : Bytes → Type 0
IsPlain [] = Unit {0}
IsPlain (c ∷ s) = (is_stop c ≡ false) × IsPlain s

span_token_nul : (a r : Bytes) → IsPlain a → span_token (a ++ 0 ∷ r) ≡ (a, 0 ∷ r)
unfolding span_token
span_token_nul [] r h = refl
span_token_nul (c ∷ a) r h = ground (arith, span_token_nul a r h.1)

span_token_comma : (a r : Bytes) → IsPlain a → span_token (a ++ b',' ∷ r) ≡ (a, b',' ∷ r)
unfolding span_token
span_token_comma [] r h = refl
span_token_comma (c ∷ a) r h = ground (arith, span_token_comma a r h.1)

span_delims_stop : (c : ℕ) (m : Bytes) → (c == b',') ≡ false → span_delims (c ∷ m) ≡ ([], c ∷ m)
unfolding span_delims
span_delims_stop c m h = rw h refl

not-delim : (c : ℕ) → is_stop c ≡ false → ((c == b',') ≡ false) × ((c == 0) ≡ false)
not-delim c h = ground arith

-- The first call on a list that begins with a name: it stops at a NUL, or writes one over a comma.
strtok_last :
    (c : ℕ) (a r : Bytes)
    → IsPlain (c ∷ a)
    → strtok (c ∷ (a ++ 0 ∷ r)) ≡ record { token = some (c ∷ a); passed = c ∷ a; rest = 0 ∷ r }
unfolding strtok cut
strtok_last c a r h =
    let (nc, nz) = not-delim c h.0 in
    rw (span_delims_stop c (a ++ 0 ∷ r) nc)
      (rw nz (rw (span_token_nul (c ∷ a) r h) (rw append-nil refl)))

strtok_more :
    (c : ℕ) (a r : Bytes)
    → IsPlain (c ∷ a)
    → strtok (c ∷ (a ++ b',' ∷ r))
      ≡ record { token = some (c ∷ a); passed = c ∷ (a ++ 0 ∷ []); rest = r }
unfolding strtok cut
strtok_more c a r h =
    let (nc, nz) = not-delim c h.0 in
    rw (span_delims_stop c (a ++ b',' ∷ r) nc) (rw nz (rw (span_token_comma (c ∷ a) r h) refl))

strtok_empty : (r : Bytes) → strtok (0 ∷ r) ≡ record { token = none; passed = []; rest = 0 ∷ r }
unfolding strtok span_delims
strtok_empty r = refl

pub scan_empty : (f : ℕ) (r d : Bytes) → scan f (0 ∷ r) d ≡ (false, 0 ∷ r)
unfolding scan scan_token
scan_empty zero r d = refl
scan_empty (suc f) r d = ap (λ t. scan_token t d (λ m. scan f m d)) (strtok_empty r)

-- A list of one name disables exactly that name, and is left as it is.
scan_last :
    (f c : ℕ) (a r d : Bytes)
    → IsPlain (c ∷ a)
    → scan (suc f) (c ∷ (a ++ 0 ∷ r)) d ≡ (str_eq (c ∷ a) d, c ∷ (a ++ 0 ∷ r))
unfolding scan scan_token
scan_last f c a r d h =
    ap (λ t. scan_token t d (λ m. scan f m d)) (strtok_last c a r h)
    ∙ ground (arith, scan_empty f r d)

-- A scan that runs past the first name leaves a NUL behind it.
abbrev after_more : ℕ → Bytes → Bytes → Bytes → Bytes
after_more f a t d = if str_eq a d then t else (scan f t d).1

scan_more :
    (f c : ℕ) (a t d : Bytes)
    → IsPlain (c ∷ a)
    → scan (suc f) (c ∷ (a ++ b',' ∷ t)) d
      ≡ (str_eq (c ∷ a) d || (scan f t d).0, c ∷ (a ++ 0 ∷ after_more f (c ∷ a) t d))
unfolding scan scan_token
scan_more f c a t d h =
    ap (λ x. scan_token x d (λ m. scan f m d)) (strtok_more c a t h)
    ∙ ground (arith, append_assoc a (0 ∷ []) t, append_assoc a (0 ∷ []) (scan f t d).1)

-- What the loop does to the table if one name alone is disabled.
unfoldable pub keep_from : Bytes → Bytes → ℕ → List Bytes → Option (List Script)
keep_from dir off count [] = some []
keep_from dir off count (name ∷ names) = elim (str_eq off name || is_hidden name) [
  | true ↦ keep_from dir off count names
  | false ↦ elim (leb max_burnin_scripts count) [
    | true ↦ none
    | false ↦ keep_from dir off (count + 1) names >>= λ ss. some (new_script dir name ∷ ss)
  ]
]

-- the table that a run of the loop leaves
abbrev pub table : Option (List Script × Bytes) → Option (List Script)
table r = r >>= λ x. some x.0

table-cons :
    (s : Script) (o : Option (List Script × Bytes))
    → table (o >>= λ r. some (s ∷ r.0, r.1)) ≡ (table o >>= λ ss. some (s ∷ ss))
table-cons s none = refl
table-cons s (some r) = refl

pub visit-table :
    (dir : Bytes) (count : ℕ) (name : Bytes) (off : Bool) (m : Bytes)
    (next : ℕ → Bytes → Option (List Script × Bytes)) (spec : ℕ → Option (List Script))
    → (table (next count m) ≡ spec count)
    → (table (next (count + 1) m) ≡ spec (count + 1))
    → table (visit dir count name (off, m) next) ≡ (elim (off || is_hidden name) [
      | true ↦ spec count
      | false ↦ elim (leb max_burnin_scripts count) [
        | true ↦ none
        | false ↦ spec (count + 1) >>= λ ss. some (new_script dir name ∷ ss)
      ]
    ])
unfolding visit
visit-table dir count name off m next spec p q =
    go (off || is_hidden name) (leb max_burnin_scripts count)
  where
    go :
        (b full : Bool)
        → table (elim b [
          | true ↦ next count m
          | false ↦ elim full [
            | true ↦ none
            | false ↦ next (count + 1) m >>= λ r. some (new_script dir name ∷ r.0, r.1)
          ]
        ])
          ≡ (elim b [
            | true ↦ spec count
            | false ↦ elim full [
              | true ↦ none
              | false ↦ spec (count + 1) >>= λ ss. some (new_script dir name ∷ ss)
            ]
          ])
    go true full = p
    go false true = refl
    go false false =
        table-cons (new_script dir name) (next (count + 1) m)
        ∙ ap (λ o. o >>= λ ss. some (new_script dir name ∷ ss)) q

find_from-one :
    (dir a r : Bytes) (c count : ℕ) (names : List Bytes)
    → IsPlain (c ∷ a)
    → table (find_from dir count names (c ∷ (a ++ 0 ∷ r))) ≡ keep_from dir (c ∷ a) count names
unfolding find_from keep_from is_disabled
find_from-one dir a r c count [] h = refl
find_from-one dir a r c count (name ∷ names) h =
    let m : Bytes = c ∷ (a ++ 0 ∷ r) in
    ap (λ s. table (visit dir count name s (λ n m'. find_from dir n names m')))
      (scan_last (length m) c a r name h)
    ∙ visit-table dir count name (str_eq (c ∷ a) name) m (λ n m'. find_from dir n names m')
        (λ n. keep_from dir (c ∷ a) n names) (find_from-one dir a r c count names h)
        (find_from-one dir a r c (count + 1) names h)

-- With one name, which has no comma and no NUL, in the disable list, the table holds a fresh entry
-- for each directory entry, in order, other than the hidden ones and the one with that name; it is
-- undefined only if these do not fit the table.
pub find_burnin_tests-one :
    (dir a r : Bytes) (c : ℕ) (names : List Bytes)
    → IsPlain (c ∷ a)
    → table (find_burnin_tests dir (some names) (c ∷ (a ++ 0 ∷ r))) ≡ keep_from dir (c ∷ a) 0 names
unfolding find_burnin_tests
find_burnin_tests-one dir a r c names h = find_from-one dir a r c 0 names h

-- With more names in the list, if the first directory entry is none of them, all names but the
-- first are forgotten: the table is the one that the first name alone gives.
pub find_burnin_tests-forgets :
    (dir a t : Bytes) (c : ℕ) (first : Bytes) (names : List Bytes)
    → IsPlain (c ∷ a)
    → (is_disabled (c ∷ (a ++ b',' ∷ t)) first).0 ≡ false
    → table (find_burnin_tests dir (some (first ∷ names)) (c ∷ (a ++ b',' ∷ t)))
      ≡ keep_from dir (c ∷ a) 0 (first ∷ names)
unfolding find_burnin_tests find_from is_disabled keep_from
find_burnin_tests-forgets dir a t c first names h off =
    let m : Bytes = c ∷ (a ++ b',' ∷ t) in
    let ran = scan_more (length m) c a t first h in
    let missed : (str_eq (c ∷ a) first || (scan (length m) t first).0) ≡ false =
      ap (λ x. x.0) (sym ran) ∙ off in
    let other : str_eq (c ∷ a) first ≡ false = ground arith in
    let left : Bytes = after_more (length m) (c ∷ a) t first in
    ap (λ s. table (visit dir 0 first s (λ n m'. find_from dir n names m')))
      (ran ∙ ap (λ b. (b, c ∷ (a ++ 0 ∷ left))) missed)
    ∙ visit-table dir 0 first false (c ∷ (a ++ 0 ∷ left)) (λ n m'. find_from dir n names m')
        (λ n. keep_from dir (c ∷ a) n names) (find_from-one dir a left c 0 names h)
        (find_from-one dir a left c (0 + 1) names h)
    ∙ rw (other, keep_from) refl
