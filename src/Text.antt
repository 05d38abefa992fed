-- ===== src/Text.antt =====
-- C strings as the source uses them. A string is the list of its bytes, without the final NUL; a
-- byte is a number below 256. `strncmp(s, p, strlen(p)) == 0` is `starts_with`, `strcmp` is
-- `str_eq`, `strstr` is `contains`, and a bounded copy (`snprintf`) is `copy_n`.
pub mod Prefix
use Prim.Native.Char.{code}
use Prim.Native.String.{String}
use breakin.Base.{
  ℕ, suc, ◌+◌, ◌-◌, ◌/◌, ◌%◌, ◌≤◌, ◌++◌, refl, ◌<◌, zero, ◌≡◌, ◌↔◌, Bool, true, false, ◌&&◌, ◌||◌,
  List, [], ◌∷◌, arith, ltb, ◌==◌, if◌then◌else◌, take, length, length-take_le, All,
}

abbrev pub Bytes : Type 0
Bytes = List ℕ

-- A literal of the source, which is ASCII.
abbrev pub codes : String → Bytes
codes String.[] = []
codes (String.◌∷◌ c s) = code c ∷ codes s

-- `BUFSIZ` of the C library that the program is built with.
abbrev pub bufsiz : ℕ
bufsiz = 8192

unfoldable pub str_eq : Bytes → Bytes → Bool
str_eq [] [] = true
str_eq (x ∷ xs) (y ∷ ys) = x == y && str_eq xs ys
str_eq _ _ = false

unfoldable pub starts_with : Bytes → Bytes → Bool
starts_with [] s = true
starts_with (p ∷ ps) [] = false
starts_with (p ∷ ps) (c ∷ s) = p == c && starts_with ps s

unfoldable pub contains : Bytes → Bytes → Bool
unfolding starts_with
contains p [] = starts_with p []
contains p (c ∷ s) = starts_with p (c ∷ s) || contains p s

-- `snprintf(dst, n, "%s", s)`: at most n - 1 bytes and a NUL.
unfoldable pub copy_n : ℕ → Bytes → Bytes
copy_n n s = take (n - 1) s

-- `strncpy(dst, s, n)`, as far as the text goes: a longer string is cut, and has no NUL then.
unfoldable pub strncpy : ℕ → Bytes → Bytes
strncpy n s = take n s

-- `%d` of a number that is not negative: `fuel` digits at most.
unfoldable pub decimal_onto : ℕ → ℕ → Bytes → Bytes
decimal_onto zero n out = out
decimal_onto (suc fuel) n out =
    let more = decimal_onto fuel (n / 10) ((48 + n % 10) ∷ out) in if n == 0 then out else more

-- `%d` and `%ld`: no value of 64 bits has more than 20 digits.
unfoldable pub decimal : ℕ → Bytes
unfolding decimal_onto
decimal n = if n == 0 then b'0' ∷ [] else decimal_onto 20 n []

-- `%02d`.
unfoldable pub decimal2 : ℕ → Bytes
unfolding decimal
decimal2 n = if ltb n 10 then b'0' ∷ decimal n else decimal n

pub str_eq_iff : (s t : Bytes) → (str_eq s t ≡ true) ↔ (s ≡ t)
unfolding str_eq
str_eq_iff (x ∷ s) (y ∷ t) = ground (arith, str_eq_iff s t)
str_eq_iff _ _ = ground arith

pub length-copy_n : (n : ℕ) (s : Bytes) → 0 < n → length (copy_n n s) < n
unfolding copy_n
length-copy_n n s h = omega (arith, length-take_le (n - 1) s)

pub length-strncpy : (n : ℕ) (s : Bytes) → length (strncpy n s) ≤ n
unfolding strncpy
length-strncpy n s = length-take_le n s

pub starts_with-append : (p s : Bytes) → starts_with p (p ++ s) ≡ true
unfolding starts_with
starts_with-append [] s = refl
starts_with-append (c ∷ p) s = ground (arith, starts_with-append p s)

-- A string that starts with `p` is `p` and a rest.
pub starts_with-split : (p s : Bytes) → starts_with p s ≡ true → (rest : Bytes) × (s ≡ p ++ rest)
unfolding starts_with
starts_with-split [] s h = (s, refl)
starts_with-split (c ∷ p) [] h = cc
starts_with-split (c ∷ p) (d ∷ s) h =
    let (rest, e) = starts_with-split p s (ground arith) in (rest, ground arith)

if-All : (P : ℕ → Type 0) (b : Bool) (x y : Bytes) → All P x → All P y → All P (if b then x else y)
if-All P true x y p q = p
if-All P false x y p q = q

decimal_onto-All :
    (P : ℕ → Type 0)
    → ((d : ℕ) → d < 10 → P (48 + d))
    → (fuel n : ℕ) (out : Bytes) → All P out
    → All P (decimal_onto fuel n out)
unfolding decimal_onto
decimal_onto-All P p zero n out a = a
decimal_onto-All P p (suc fuel) n out a =
    if-All P (n == 0) _ _ a
      (decimal_onto-All P p fuel (n / 10) ((48 + n % 10) ∷ out) (p (n % 10) (omega arith), a))

-- All bytes of a printed number are digits.
pub decimal-All : (P : ℕ → Type 0) → ((d : ℕ) → d < 10 → P (48 + d)) → (n : ℕ) → All P (decimal n)
unfolding decimal
decimal-All P p n = if-All P (n == 0) _ _ (p 0 (omega arith), tt) (decimal_onto-All P p 20 n [] tt)
