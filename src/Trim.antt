-- ===== src/Trim.antt =====
-- `trim` of util.c, on the memory that it walks: a C object is the list of its bytes, and a pointer
-- is an offset into it. `none` is an access outside the object. The pointer of the last loop is
-- kept one higher (`suc p` stands for the offset `p`), so that `zero` is the place before the
-- object, which the loop reaches if nothing stops it.
pub mod Shift
pub mod Strip
pub mod Buffer
use breakin.Base.{
  ℕ, zero, suc, ◌+◌, ◌-◌, ◌≤◌, ◌==◌, Bool, true, false, ◌||◌, List, [], ◌∷◌, Option, none, some,
  if◌then◌else◌, get_elem?, set, drop, length,
}
use breakin.Text.{Bytes}

-- the test of the first loop
abbrev pub is_blank : ℕ → Bool
is_blank c = c == b' ' || c == b'\t'

-- the test of the last loop
abbrev pub is_space : ℕ → Bool
is_space c = c == b' ' || c == b'\n' || c == b'\r' || c == b'\t'

-- `while ((*p == ' ') || (*p == '\t')) { start ++; p ++; }`, over the memory from `p` on
unfoldable pub leading : ℕ → Bytes → Option ℕ
leading start [] = none
leading start (c ∷ m) = elim (is_blank c) [ true ↦ leading (suc start) m | false ↦ some start ]

-- `while (*p) { *(p - start) = *p; p ++; }`: the memory and the final `p`. The fuel bounds the
-- rounds; the size of the memory is enough.
unfoldable pub shift : ℕ → ℕ → Bytes → ℕ → Option (Bytes × ℕ)
shift zero start m p = none
shift (suc fuel) start m p = elim (get_elem? m p) [
  | none ↦ none
  | some c ↦ elim (c == 0) [
    | true ↦ some (m, p)
    | false ↦ shift fuel start (set m (p - start) c) (p + 1)
  ]
]

-- `while (*p) { p ++; }`
unfoldable pub find_end : ℕ → Bytes → ℕ → Option ℕ
find_end zero m p = none
find_end (suc fuel) m p = elim (get_elem? m p) [
  | none ↦ none
  | some c ↦ elim (c == 0) [ true ↦ some p | false ↦ find_end fuel m (p + 1) ]
]

-- the last loop; `suc p` points at offset `p`
unfoldable pub strip_back : Bytes → ℕ → Option Bytes
strip_back m zero = none
strip_back m (suc p) = elim (get_elem? m p) [
  | none ↦ none
  | some c ↦ elim (is_space c) [ true ↦ strip_back (set m p 0) p | false ↦ some m ]
]

-- `if (start) { … *(p - start) = '\0'; } else { … }`: the memory and the pointer
unfoldable pub close_up : ℕ → Bytes → ℕ → Option (Bytes × ℕ)
close_up zero m p = elim (find_end (suc (length m)) m p) [ none ↦ none | some q ↦ some (m, q) ]
close_up (suc n) m p = elim (shift (suc (length m)) (suc n) m p) [
  | none ↦ none
  | some (m', q) ↦ some (set m' (q - suc n) 0, q)
]

-- `trim(string)`, with `string` at offset `s` of the memory `m`: the memory that it leaves
unfoldable pub trim_at : Bytes → ℕ → Option Bytes
trim_at m s = elim (leading 0 (drop s m)) [
  | none ↦ none
  | some start ↦ elim (close_up start m (s + start)) [
    | none ↦ none
    | some (m', q) ↦ strip_back m' (q - start)
  ]
]

-- What `trim` leaves of a string: the blanks in front and the white space behind are gone.
pub strip_front : Bytes → Bytes
strip_front [] = []
strip_front (c ∷ s) = elim (is_blank c) [ true ↦ strip_front s | false ↦ c ∷ s ]

-- A trailing byte is kept only if something that is no white space follows or it is none itself.
abbrev pub keep : ℕ → Bytes → Bytes
keep c [] = if is_space c then [] else c ∷ []
keep c (d ∷ s) = c ∷ d ∷ s

pub strip_end : Bytes → Bytes
strip_end [] = []
strip_end (c ∷ s) = keep c (strip_end s)

-- The value of the string after `trim`, if that stays inside the object.
unfoldable pub trim : Bytes → Bytes
unfolding strip_end strip_front
trim s = strip_end (strip_front s)

-- `trim(buf)` on a buffer that the text starts, and the text that it leaves there. A text of white
-- space has nothing that stops the last loop above the buffer: `none`.
unfoldable pub trim_buffer : Bytes → Option Bytes
unfolding trim strip_end strip_front
trim_buffer s = elim (trim s) [ [] ↦ none | c ∷ t ↦ some (c ∷ t) ]
