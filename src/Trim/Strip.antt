-- ===== src/Trim/Strip.antt =====
-- `trim` on memory computes `strip_end (strip_front s)` in place.
use breakin.Base.{
  Bool, true, ℕ, zero, suc, ◌+◌, ◌-◌, ◌≤◌, ◌≡◌, ◌≢◌, refl, sym, ap, ◌∙◌, false, [], ◌∷◌, ◌++◌,
  append_assoc, none, some, arith, if◌then◌else◌, get_elem?, set, drop, length, length-append,
  get_elem?-append, set-append, drop-append, inl, inr, ◌⊎◌, Bool-cases, List-cases,
}
use breakin.Text.{Bytes}
use breakin.Trim.{is_space, leading, strip_back, trim_at, strip_front, strip_end, trim}
use breakin.Trim.Shift.{
  NoNul, front, front-strip_front, leading_lem, strip_front-NoNul, close_up_lem,
}

-- `k` NULs
abbrev zeros : ℕ → Bytes
zeros zero = []
zeros (suc k) = 0 ∷ zeros k

strip_back_step :
    (m : Bytes) (p c : ℕ)
    → get_elem? m p ≡ some c
    → strip_back m (suc p) ≡ (if is_space c then strip_back (set m p 0) p else some m)
unfolding strip_back
strip_back_step m p c g = ground arith

strip_back_one :
    (a r : Bytes) (c : ℕ)
    → strip_back ((a ++ c ∷ []) ++ r) (length (a ++ c ∷ []))
      ≡ (if is_space c then strip_back (a ++ 0 ∷ r) (length a) else some (a ++ c ∷ r))
strip_back_one a r c = rw (append_assoc a (c ∷ []) r) (
    ap (strip_back (a ++ c ∷ r)) (omega (arith, length-append a (c ∷ [])))
    ∙ strip_back_step _ (length a) c (get_elem?-append a c r)
    ∙ rw (set-append a c 0 r) refl)

strip_back_snoc :
    (a s t : Bytes) (c : ℕ)
    → strip_back (a ++ (c ∷ (s ++ t))) (length a + suc (length s))
      ≡ strip_back ((a ++ c ∷ []) ++ (s ++ t)) (length (a ++ c ∷ []) + length s)
strip_back_snoc a s t c =
    rw (append_assoc a (c ∷ []) (s ++ t))
      (ap (strip_back (a ++ c ∷ (s ++ t))) (omega (arith, length-append a (c ∷ []))))

strip_end-cons :
    (c : ℕ) (s : Bytes)
    → ((strip_end s ≡ []) × (strip_end (c ∷ s) ≡ (if is_space c then [] else c ∷ [])))
      ⊎ ((strip_end s ≢ []) × (strip_end (c ∷ s) ≡ c ∷ strip_end s))
unfolding strip_end
strip_end-cons c s = elim (List-cases (strip_end s)) [
  | inl e ↦ inl (e, rw e refl)
  | inr (y, ys, e) ↦ inr (λ n. cc, rw e refl)
]

-- A string of white space only is wiped out, and the loop goes on below it.
strip_back_blank :
    (s a t : Bytes)
    → strip_end s ≡ []
    → strip_back (a ++ (s ++ t)) (length a + length s)
      ≡ strip_back (a ++ (zeros (length s) ++ t)) (length a)
strip_back_blank [] a t e = ap (strip_back (a ++ t)) (omega arith)
strip_back_blank (c ∷ s) a t e = elim (strip_end-cons c s) [
  | inl (nil, last) ↦
      strip_back_snoc a s t c
      ∙ strip_back_blank s (a ++ c ∷ []) t nil
      ∙ strip_back_one a (zeros (length s) ++ t) c
      ∙ elim (Bool-cases (is_space c)) [ inl y ↦ rw y refl | inr n ↦ absurd (ground arith) ]
  | inr (_, more) ↦ absurd (cc)
]

-- Any other string loses its trailing white space, and the loop stops inside it.
strip_back_stop :
    (s a t : Bytes)
    → strip_end s ≢ []
    → strip_back (a ++ (s ++ t)) (length a + length s)
      ≡ some (a ++ (strip_end s ++ (zeros (length s - length (strip_end s)) ++ t)))
strip_back_stop [] a t e = absurd (e (unfold strip_end in refl))
strip_back_stop (c ∷ s) a t e = elim (strip_end-cons c s) [
  | inl (nil, last) ↦
      strip_back_snoc a s t c
      ∙ strip_back_blank s (a ++ c ∷ []) t nil
      ∙ strip_back_one a (zeros (length s) ++ t) c
      ∙ elim (Bool-cases (is_space c)) [
        | inl y ↦ absurd (e (last ∙ rw y refl))
        | inr n ↦ rw (last, n) (ap (λ k. some (a ++ c ∷ (zeros k ++ t))) (omega arith))
      ]
  | inr (go, more) ↦
      strip_back_snoc a s t c
      ∙ strip_back_stop s (a ++ c ∷ []) t go
      ∙ rw (more, append_assoc a (c ∷ []))
          (ap (λ k. some (a ++ c ∷ (strip_end s ++ (zeros k ++ t)))) (omega arith))
]

-- `trim` up to its last loop.
trim_at_lem :
    (s a r : Bytes)
    → NoNul s
    → (junk : Bytes) × (length (strip_front s) + length junk ≡ length s + length r)
      × (trim_at (a ++ (s ++ 0 ∷ r)) (length a)
          ≡ strip_back (a ++ (strip_front s ++ 0 ∷ junk)) (length a + length (strip_front s)))
unfolding trim_at
trim_at_lem s a r ns =
    let (junk, len, run) =
      close_up_lem (front s) (strip_front s) a r (a ++ (s ++ 0 ∷ r)) (length (front s))
        (length a + length (front s)) (strip_front-NoNul s ns)
        (ap (λ x. a ++ x)
          (ap (λ x. x ++ 0 ∷ r) (sym (front-strip_front s))
            ∙ append_assoc (front s) (strip_front s) (0 ∷ r)))
        refl refl in
    let start : leading 0 (drop (length a) (a ++ (s ++ 0 ∷ r))) ≡ some (length (front s)) =
      rw (drop-append a (s ++ 0 ∷ r)) (leading_lem s r 0 ∙ ap some (omega arith)) in
    let sizes : length (front s) + length (strip_front s) ≡ length s =
      sym (length-append (front s) (strip_front s)) ∙ ap length (front-strip_front s) in
    (
      junk,
      omega arith,
      rw (start, trim_at)
          (rw (run, trim_at) (ap (strip_back (a ++ (strip_front s ++ 0 ∷ junk))) (omega arith))),
    )

zeros_shift : (k : ℕ) (t : Bytes) → zeros k ++ 0 ∷ t ≡ 0 ∷ (zeros k ++ t)
zeros_shift zero t = refl
zeros_shift (suc k) t = ap (◌∷◌ 0) (zeros_shift k t)

length-zeros : (k : ℕ) (t : Bytes) → length (zeros k ++ t) ≡ k + length t
length-zeros zero t = omega arith
length-zeros (suc k) t = omega (arith, length-zeros k t)

pub length-strip_end : (s : Bytes) → length (strip_end s) ≤ length s
length-strip_end [] = unfold strip_end in omega arith
length-strip_end (c ∷ s) = elim (strip_end-cons c s) [
  | inl (_, e) ↦ ground (arith, ap length e)
  | inr (_, e) ↦ omega (arith, ap length e, length-strip_end s)
]

module _ (s : Bytes) (ns : NoNul s) where
  -- `trim` on a string without NUL inside that is not all white space, wherever it stands in its
  -- object: it stays inside the object, leaves what is below the string alone, and the string
  -- becomes `trim s`.
  pub trim_at-trim :
      (a r : Bytes)
      → trim s ≢ []
      → (junk : Bytes) × (trim_at (a ++ (s ++ 0 ∷ r)) (length a) ≡ some (a ++ (trim s ++ 0 ∷ junk)))
        × (length (trim s) + length junk ≡ length s + length r)
  unfolding trim
  trim_at-trim a r ne =
      let (junk, len, run) = trim_at_lem s a r ns in
      let sf : Bytes = strip_front s in
      let k : ℕ = length sf - length (strip_end sf) in
      (
        zeros k ++ junk,
        run
            ∙ strip_back_stop sf a (0 ∷ junk) ne
            ∙ ap (λ (x : Bytes). some (a ++ (strip_end sf ++ x))) (zeros_shift k junk),
        omega (arith, length-zeros k junk, length-strip_end sf),
      )

  -- `trim` on a string of white space, if the byte below it is none: it stays inside the object,
  -- leaves what is below the string alone, and the string becomes empty.
  trim_at_blank :
      (a r : Bytes) (c : ℕ)
      → trim s ≡ []
      → is_space c ≡ false
      → (junk : Bytes) × (trim_at ((a ++ c ∷ []) ++ (s ++ 0 ∷ r)) (length (a ++ c ∷ []))
          ≡ some ((a ++ c ∷ []) ++ 0 ∷ junk))
        × (length junk ≡ length s + length r)
  unfolding trim
  trim_at_blank a r c e h =
      let (junk, len, run) = trim_at_lem s (a ++ c ∷ []) r ns in
      let sf : Bytes = strip_front s in
      let k : ℕ = length sf in
      (
        zeros k ++ junk,
        run
            ∙ strip_back_blank sf (a ++ c ∷ []) (0 ∷ junk) e
            ∙ strip_back_one a (zeros k ++ 0 ∷ junk) c
            ∙ rw h (
                ap some (
                  rw (append_assoc a (c ∷ []))
                    (ap (λ (x : Bytes). a ++ c ∷ x) (zeros_shift k junk)))),
        omega (arith, length-zeros k junk),
      )

  -- `trim` on a string of white space at the start of its object reads below the object.
  pub trim_at_underrun : (r : Bytes) → trim s ≡ [] → trim_at (s ++ 0 ∷ r) 0 ≡ none
  unfolding trim
  trim_at_underrun r e =
      let (junk, len, run) = trim_at_lem s [] r ns in
      run ∙ strip_back_blank (strip_front s) [] (0 ∷ junk) e ∙ unfold strip_back in refl

length-strip_front : (s : Bytes) → length (strip_front s) ≤ length s
unfolding strip_front
length-strip_front [] = omega arith
length-strip_front (c ∷ s) = ground (arith, length-strip_front s)

pub length-trim : (s : Bytes) → length (trim s) ≤ length s
unfolding trim
length-trim s = omega (arith, length-strip_front s, length-strip_end (strip_front s))

pub strip_end-NoNul : (s : Bytes) → NoNul s → NoNul (strip_end s)
strip_end-NoNul [] h = unfold strip_end in tt
strip_end-NoNul (c ∷ s) h = elim (strip_end-cons c s) [
  | inl (_, e) ↦ rw e (if-NoNul (is_space c))
  | inr (_, e) ↦ rw e (h.0, strip_end-NoNul s h.1)
]
  where
    if-NoNul : (b : Bool) → NoNul (if b then [] else c ∷ [])
    if-NoNul true = tt
    if-NoNul false = (h.0, tt)
