-- ===== src/Dmi/Strings.antt =====
-- `dmi_string` of dmidecode.c. A pointer into the strings of a structure is the memory from there
-- on, so that running past the end of the memory meets the empty list.
use breakin.Base.{
  ℕ, zero, suc, ◌+◌, true, false, ◌||◌, [], ◌∷◌, ◌++◌, Option, none, some, ◌==◌, ltb, leb,
  if◌then◌else◌, ◌>>=◌, map, get_elem?, take, drop,
}
use breakin.Text.{Bytes, codes}

-- `strlen`: the string, and the memory from its NUL on
unfoldable pub split_string : Bytes → Option (Bytes × Bytes)
split_string [] = none
split_string (c ∷ m) = elim (c == 0) [
  | true ↦ some ([], c ∷ m)
  | false ↦ split_string m >>= λ r. some (c ∷ r.0, r.1)
]

-- `while(s>1 && *bp) { bp+=strlen(bp); bp++; s--; }`: the memory passed, and the memory at `bp`
unfoldable pub walk : ℕ → Bytes → Option (Bytes × Bytes)
walk zero m = some ([], m)
walk (suc zero) m = some ([], m)
walk (suc (suc n)) [] = none
walk (suc (suc n)) (c ∷ m) = elim (c == 0) [
  | true ↦ some ([], c ∷ m)
  | false ↦ do
    (str, rest) ← split_string (c ∷ m)
    (passed, at) ← walk (suc n) (drop 1 rest)
    some (str ++ (take 1 rest ++ passed), at)
]

-- the ASCII filter on one `char`, which is signed: bytes from 128 on are negative
unfoldable pub clean : ℕ → ℕ
clean c = if ltb c 32 || leb 127 c then b'.' else c

-- what `dmi_string` returns at a string that is not empty: the filter has written into the memory
unfoldable pub filtered : Bytes → Bytes → Bytes → Bytes → Bytes × Bytes
filtered before passed [] tail = (codes "<bad index>", before ++ (passed ++ tail))
filtered before passed (c ∷ str) tail =
    (map clean (c ∷ str), before ++ (passed ++ (map clean (c ∷ str) ++ tail)))

-- `dmi_string(dm, s)` with `dm` at offset `base`: the string, and the memory that is left
unfoldable pub dmi_string : Bytes → ℕ → ℕ → Option (Bytes × Bytes)
dmi_string m base s = elim (s == 0) [
  | true ↦ some (codes "Not Specified", m)
  | false ↦ do
    len ← get_elem? m (base + 1)
    (passed, bp) ← walk s (drop (base + len) m)
    (str, tail) ← split_string bp
    some (filtered (take (base + len) m) passed str tail)
]
