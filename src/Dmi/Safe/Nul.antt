-- ===== src/Dmi/Safe/Nul.antt =====
-- The pair of NULs that ends the strings of a structure, and `dmi_string` in front of it.
use breakin.Base.{
  ℕ, zero, suc, ◌+◌, ◌≤◌, ◌≡◌, refl, sym, ap, ◌∙◌, ◌⊎◌, inl, inr, true, false, [], ◌∷◌, ◌++◌,
  append_assoc, some, arith, ◌==◌, Bool-cases, >>=-eq-some, map, get_elem?, take, drop, length,
  get_elem?-append_left, take-append, drop-append, AllPairs,
}
use breakin.Text.{Bytes, codes}
use breakin.Dmi.Strings.{split_string, walk, clean, filtered, dmi_string}

abbrev pub StartsNul : Bytes → Type 0
StartsNul [] = ⊥
StartsNul (c ∷ m) = c ≡ 0

abbrev pub DoubleNul : Bytes → Type 0
DoubleNul [] = ⊥
DoubleNul (c ∷ m) = ((c ≡ 0) × StartsNul m) ⊎ DoubleNul m

-- a place from which strings can be read: at a NUL, or before a pair of them
abbrev pub IsSafe : Bytes → Type 0
IsSafe m = StartsNul m ⊎ DoubleNul m

split_string-cons :
    (c : ℕ) (m str rest : Bytes)
    → (c == 0) ≡ false
    → split_string m ≡ some (str, rest)
    → split_string (c ∷ m) ≡ some (c ∷ str, rest)
unfolding split_string
split_string-cons c m str rest n e = ground arith

walk_nul : (n c : ℕ) (m : Bytes) → (c == 0) ≡ true → walk (suc (suc n)) (c ∷ m) ≡ some ([], c ∷ m)
unfolding walk
walk_nul n c m z = ground arith

walk-cons :
    (n c : ℕ) (m str rest passed bp : Bytes)
    → (c == 0) ≡ false
    → split_string (c ∷ m) ≡ some (str, 0 ∷ rest)
    → walk (suc n) rest ≡ some (passed, bp)
    → walk (suc (suc n)) (c ∷ m) ≡ some (str ++ 0 ∷ passed, bp)
unfolding walk
walk-cons n c m str rest passed bp z e e' = ground arith

split-DoubleNul :
    (m : Bytes)
    → DoubleNul m
    → (str : Bytes) × (rest : Bytes) × (split_string m ≡ some (str, 0 ∷ rest))
      × IsSafe rest
      × (m ≡ str ++ 0 ∷ rest)
unfolding split_string
split-DoubleNul [] h = absurd h
split-DoubleNul (c ∷ m) h = elim (Bool-cases (c == 0)) [
  | inl y ↦ ([], m, ground arith, ground arith, ground arith)
  | inr n ↦
      let (str, rest, e, safe, eq) = split-DoubleNul m (ground arith) in
      (c ∷ str, rest, split_string-cons c m str (0 ∷ rest) n e, safe, ap (◌∷◌ c) eq)
]

split-IsSafe :
    (m : Bytes)
    → IsSafe m
    → (str : Bytes) × (rest : Bytes) × (split_string m ≡ some (str, 0 ∷ rest))
      × (m ≡ str ++ 0 ∷ rest)
unfolding split_string
split-IsSafe [] h = absurd (ground arith)
split-IsSafe (c ∷ m) (inl z) = ([], m, ground arith, ground arith)
split-IsSafe (c ∷ m) (inr d) =
    let (str, rest, e, _, eq) = split-DoubleNul (c ∷ m) d in (str, rest, e, eq)

walk-IsSafe :
    (s : ℕ) (m : Bytes)
    → IsSafe m
    → (passed : Bytes) × (bp : Bytes) × (walk s m ≡ some (passed, bp))
      × IsSafe bp
      × (m ≡ passed ++ bp)
unfolding walk
walk-IsSafe zero m h = ([], m, refl, h, refl)
walk-IsSafe (suc zero) m h = ([], m, refl, h, refl)
walk-IsSafe (suc (suc n)) [] h = absurd (ground arith)
walk-IsSafe (suc (suc n)) (c ∷ m) h = elim (Bool-cases (c == 0)) [
  | inl y ↦ ([], c ∷ m, walk_nul n c m y, h, refl)
  | inr no_nul ↦
      let d : DoubleNul (c ∷ m) = ground arith in
      let (str, rest, e, safe, eq) = split-DoubleNul (c ∷ m) d in
      let (passed, bp, e', safe', eq') = walk-IsSafe (suc n) rest safe in
      (
        str ++ 0 ∷ passed,
        bp,
        walk-cons n c m str rest passed bp no_nul e e',
        safe',
        eq ∙ rw eq' (sym (append_assoc str (0 ∷ passed) bp)),
      )
]

-- Writing over bytes that are no NULs keeps a place safe.
abbrev pub Kept : Bytes → Bytes → Type 0
Kept = AllPairs (λ a b. a ≡ 0 → b ≡ 0)

Kept-StartsNul : (m m' : Bytes) → Kept m m' → StartsNul m → StartsNul m'
Kept-StartsNul [] m' k h = absurd h
Kept-StartsNul (a ∷ m) [] k h = absurd k
Kept-StartsNul (a ∷ m) (b ∷ m') k h = k.0 h

Kept-DoubleNul : (m m' : Bytes) → Kept m m' → DoubleNul m → DoubleNul m'
Kept-DoubleNul [] m' k h = absurd h
Kept-DoubleNul (a ∷ m) [] k h = absurd k
Kept-DoubleNul (a ∷ m) (b ∷ m') k (inl (z, s)) = inl (k.0 z, Kept-StartsNul m m' k.1 s)
Kept-DoubleNul (a ∷ m) (b ∷ m') k (inr d) = inr (Kept-DoubleNul m m' k.1 d)

Kept-IsSafe : (m m' : Bytes) → Kept m m' → IsSafe m → IsSafe m'
Kept-IsSafe m m' k (inl s) = inl (Kept-StartsNul m m' k s)
Kept-IsSafe m m' k (inr d) = inr (Kept-DoubleNul m m' k d)

Kept-length : (m m' : Bytes) → Kept m m' → length m' ≡ length m
Kept-length [] [] k = refl
Kept-length [] (b ∷ m') k = absurd k
Kept-length (a ∷ m) [] k = absurd k
Kept-length (a ∷ m) (b ∷ m') k = ap suc (Kept-length m m' k.1)

Kept-refl : (m : Bytes) → Kept m m
Kept-refl [] = tt
Kept-refl (a ∷ m) = (λ z. z, Kept-refl m)

Kept-append : (p m m' : Bytes) → Kept m m' → Kept (p ++ m) (p ++ m')
Kept-append [] m m' k = k
Kept-append (a ∷ p) m m' k = (λ z. z, Kept-append p m m' k)

-- `split_string` returns no NUL, so the filter overwrites none.
split_string-clean :
    (m str rest : Bytes)
    → split_string m ≡ some (str, rest)
    → Kept (str ++ rest) (map clean str ++ rest)
unfolding split_string
split_string-clean [] str rest e = cc
split_string-clean (c ∷ m) str rest e = elim (Bool-cases (c == 0)) [
  | inl y ↦ let nil : str ≡ [] = ground arith in rw nil (Kept-refl rest)
  | inr n ↦
      let ((s, r), e', f) =
        >>=-eq-some (split_string m) (λ r. some (c ∷ r.0, r.1)) (rw (n, split_string) at e) in
      let es : str ≡ c ∷ s = ground arith in
      let er : rest ≡ r = ground arith in
      rw (es, er) ((λ z. absurd (ground arith)), split_string-clean m s r e')
]

-- What a structure looks like to `dmi_string`: the formatted part `before`, with the length byte,
-- and the strings `r` behind it.
pub record IsStructure (before : Bytes) (base len : ℕ) : Type 0 where
  pub size : length before ≡ base + len
  pub length_byte : get_elem? before (base + 1) ≡ some len
  pub long : 2 ≤ len

clean_tail :
    (before passed str tail : Bytes)
    → filtered before passed str tail
      ≡ ((filtered before passed str tail).0, before ++ (passed ++ (map clean str ++ tail)))
unfolding filtered
clean_tail before passed [] tail = refl
clean_tail before passed (c ∷ str) tail = refl

pub dmi_string_run :
    (m : Bytes) (base s len : ℕ) (passed bp str tail : Bytes)
    → (s == 0) ≡ false
    → get_elem? m (base + 1) ≡ some len
    → walk s (drop (base + len) m) ≡ some (passed, bp)
    → split_string bp ≡ some (str, tail)
    → dmi_string m base s ≡ some (filtered (take (base + len) m) passed str tail)
unfolding dmi_string
dmi_string_run m base s len passed bp str tail n g w p = ground arith

-- On strings that end in a pair of NULs `dmi_string` stays inside the memory, whatever the string's
-- number; it changes nothing in front of the strings, and the strings still end so.
pub dmi_string-IsSafe :
    (before r : Bytes) (base len s : ℕ)
    → IsStructure before base len
    → IsSafe r
    → (str : Bytes) × (r' : Bytes) × (dmi_string (before ++ r) base s ≡ some (str, before ++ r'))
      × IsSafe r'
      × (length r' ≡ length r)
unfolding dmi_string
dmi_string-IsSafe before r base len s st safe = elim (Bool-cases (s == 0)) [
  | inl y ↦ (codes "Not Specified", r, rw (y, dmi_string) refl, safe, refl)
  | inr n ↦
      let (passed, bp, w, safe', eq) = walk-IsSafe s r safe in
      let (str, rest, sp, eq') = split-IsSafe bp safe' in
      let get : get_elem? (before ++ r) (base + 1) ≡ some len =
        get_elem?-append_left before r (base + 1) (omega (arith, st.size, st.long))
        ∙ st.length_byte in
      let dropped : drop (base + len) (before ++ r) ≡ r = rw (← st.size) (drop-append before r) in
      let taken : take (base + len) (before ++ r) ≡ before =
        rw (← st.size) (take-append before r) in
      let k : Kept (passed ++ (str ++ 0 ∷ rest)) (passed ++ (map clean str ++ 0 ∷ rest)) =
        Kept-append passed _ _ (split_string-clean bp str (0 ∷ rest) sp) in
      let whole : r ≡ passed ++ (str ++ 0 ∷ rest) = eq ∙ ap (λ x. passed ++ x) eq' in
      (
        (filtered before passed str (0 ∷ rest)).0,
        passed ++ (map clean str ++ 0 ∷ rest),
        dmi_string_run (before ++ r) base s len passed bp str (0 ∷ rest) n get
              (ap (walk s) dropped ∙ w) sp
            ∙ ap (λ b. some (filtered b passed str (0 ∷ rest))) taken
            ∙ ap some (clean_tail before passed str (0 ∷ rest)),
        Kept-IsSafe _ _ k (rw whole at safe),
        Kept-length _ _ k ∙ ap length (sym whole),
      )
]
