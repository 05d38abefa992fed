-- ===== src/Number/Read.antt =====
-- A number that has been printed is read back.
use breakin.Base.{
  ℕ, zero, suc, ◌+◌, ◌-◌, ◌*◌, ◌/◌, ◌%◌, ◌^◌, ◌<◌, ◌≡◌, refl, ap, ◌∙◌, true, false, Bool-cases, inl,
  inr, [], ◌∷◌, ◌++◌, ◌==◌, All, arith,
}
use native.Mathlib.Nat.{pow-suc}
use breakin.Text.{Bytes, decimal_onto, decimal}
use breakin.Number.{is_white, is_digit, take_digits, take_word}

take_digits-cons :
    (acc d : ℕ) (s : Bytes) → d < 10 → take_digits acc ((48 + d) ∷ s) ≡ take_digits (acc * 10 + d) s
unfolding take_digits
take_digits-cons acc d s h =
    let digit : is_digit (48 + d) ≡ true = ground arith in
    let value : 48 + d - 48 ≡ d = omega arith in rw (digit, value) refl

shrinks : (fuel n : ℕ) → n < 10 ^ suc fuel → n / 10 < 10 ^ fuel
shrinks fuel n h = omega (arith, pow-suc 10 fuel)

take_digits-onto :
    (fuel n : ℕ) (out rest : Bytes)
    → n < 10 ^ fuel
    → take_digits 0 (decimal_onto fuel n out ++ rest) ≡ take_digits n (out ++ rest)
unfolding decimal_onto
take_digits-onto zero n out rest h = ap (λ k. take_digits k (out ++ rest)) (omega (arith, h))
take_digits-onto (suc fuel) n out rest h =
    let more = take_digits-onto fuel (n / 10) ((48 + n % 10) ∷ out) rest (shrinks fuel n h) in
    let next = take_digits-cons (n / 10) (n % 10) (out ++ rest) (omega arith) in
    elim (Bool-cases (n == 0)) [
      | inl y ↦ rw y (ap (λ k. take_digits k (out ++ rest)) (ground arith))
      | inr m ↦ rw m (more ∙ next ∙ ap (λ k. take_digits k (out ++ rest)) (omega arith))
    ]

decimal_pos : (n : ℕ) → (n == 0) ≡ false → decimal n ≡ decimal_onto 20 n []
unfolding decimal
decimal_pos n m = rw m refl

decimal_zero : (n : ℕ) → (n == 0) ≡ true → decimal n ≡ 48 ∷ []
unfolding decimal
decimal_zero n y = rw y refl

-- A printed number with up to 20 digits, in front of a byte that is no digit.
pub take_digits-decimal :
    (n c : ℕ) (rest : Bytes)
    → n < 10 ^ 20
    → is_digit c ≡ false
    → take_digits 0 (decimal n ++ c ∷ rest) ≡ (n, c ∷ rest)
take_digits-decimal n c rest h e =
    let stop : (m : ℕ) → take_digits m (c ∷ rest) ≡ (m, c ∷ rest) =
      λ m. unfold take_digits in rw e refl in
    elim (Bool-cases (n == 0)) [
      | inl y ↦ rw (decimal_zero n y) (
          take_digits-cons 0 0 (c ∷ rest) (omega arith)
          ∙ stop 0
          ∙ ap (λ k. (k, c ∷ rest)) (ground arith))
      | inr m ↦ rw (decimal_pos n m) (take_digits-onto 20 n [] (c ∷ rest) h ∙ stop n)
    ]

-- A word in front of a space.
pub take_word-append :
    (w rest : Bytes) → All (λ c. is_white c ≡ false) w → take_word (w ++ 32 ∷ rest) ≡ (w, 32 ∷ rest)
unfolding take_word
take_word-append [] rest a = refl
take_word-append (c ∷ w) rest a = rw (take_word-append w rest a.1, take_word) (ground arith)

digit_head :
    (fuel n d : ℕ) (out : Bytes)
    → d < 10
    → (c : ℕ) × (s : Bytes) × (decimal_onto fuel n ((48 + d) ∷ out) ≡ c ∷ s) × (is_digit c ≡ true)
unfolding decimal_onto
digit_head zero n d out h = (48 + d, out, refl, ground arith)
digit_head (suc fuel) n d out h =
    let (c, s, run, digit) = digit_head fuel (n / 10) (n % 10) ((48 + d) ∷ out) (omega arith) in
    elim (Bool-cases (n == 0)) [
      | inl y ↦ (48 + d, out, rw y refl, ground arith)
      | inr m ↦ (c, s, rw m run, digit)
    ]

onto_step :
    (fuel n : ℕ)
    → (n == 0) ≡ false
    → decimal_onto (suc fuel) n [] ≡ decimal_onto fuel (n / 10) ((48 + n % 10) ∷ [])
unfolding decimal_onto
onto_step fuel n m = rw m refl

-- A printed number starts with a digit.
pub decimal-head : (n : ℕ) → (c : ℕ) × (s : Bytes) × (decimal n ≡ c ∷ s) × (is_digit c ≡ true)
decimal-head n = elim (Bool-cases (n == 0)) [
  | inl y ↦ (48, [], decimal_zero n y, refl)
  | inr m ↦
      let (c, s, run, digit) = digit_head 19 (n / 10) (n % 10) [] (omega arith) in
      (c, s, decimal_pos n m ∙ onto_step 19 n m ∙ run, digit)
]
