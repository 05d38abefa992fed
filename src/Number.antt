-- ===== src/Number.antt =====
-- Numbers as the C library reads and prints them: `atoi`, and `%d` of a signed number. Values that
-- overflow an `int` while they are read are undefined in C; here they are not cut.
pub mod Read
use breakin.Base.{
  true, ℕ, zero, suc, ◌+◌, ◌-◌, ◌*◌, Bool, ◌&&◌, ◌||◌, [], ◌∷◌, ◌==◌, leb, ltb, if◌then◌else◌,
}
use breakin.Text.{Bytes, decimal}

pub data ℤ : Type 0 where
  pos : ℕ → ℤ
  negsuc : ℕ → ℤ

-- `isspace` and `isdigit`
abbrev pub is_white : ℕ → Bool
is_white c = c == 32 || leb 9 c && leb c 13

abbrev pub is_digit : ℕ → Bool
is_digit c = leb 48 c && leb c 57

unfoldable pub skip_white : Bytes → Bytes
skip_white [] = []
skip_white (c ∷ s) = let rest = skip_white s in if is_white c then rest else c ∷ s

-- the value of the digits at the head, behind those already read
unfoldable pub digits : ℕ → Bytes → ℕ
digits acc [] = acc
digits acc (c ∷ s) = let more = digits (acc * 10 + (c - 48)) s in if is_digit c then more else acc

unfoldable pub negate : ℕ → ℤ
negate zero = pos 0
negate (suc n) = negsuc n

-- an optional sign and digits
unfoldable pub signed : Bytes → ℤ
unfolding digits negate
signed [] = pos 0
signed (c ∷ s) =
    if c == b'-'
    then negate (digits 0 s)
    else if c == b'+'
    then pos (digits 0 s)
    else pos (digits 0 (c ∷ s))

unfoldable pub atoi : Bytes → ℤ
unfolding signed skip_white
atoi s = signed (skip_white s)

-- `%d` of a signed number
unfoldable pub decimal_signed : ℤ → Bytes
decimal_signed (pos n) = decimal n
decimal_signed (negsuc n) = b'-' ∷ decimal (suc n)

-- the digits at the head, as a value, and what follows them
unfoldable pub take_digits : ℕ → Bytes → ℕ × Bytes
take_digits acc [] = (acc, [])
take_digits acc (c ∷ s) =
    let more = take_digits (acc * 10 + (c - 48)) s in if is_digit c then more else (acc, c ∷ s)

-- a word, up to white space, and what follows it: `%s` behind the white space
unfoldable pub take_word : Bytes → Bytes × Bytes
take_word [] = ([], [])
take_word (c ∷ s) =
    let (word, rest) = take_word s in if is_white c then ([], c ∷ s) else (c ∷ word, rest)

-- a - b, as an integer
abbrev pub sub_ℕ : ℕ → ℕ → ℤ
sub_ℕ a b = if leb b a then pos (a - b) else negsuc (b - a - 1)

-- whether an integer is below a number
abbrev pub ltb_ℤ : ℤ → ℕ → Bool
ltb_ℤ (pos m) n = ltb m n
ltb_ℤ (negsuc m) n = true
