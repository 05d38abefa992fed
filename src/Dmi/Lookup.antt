-- ===== src/Dmi/Lookup.antt =====
-- What `dmi_string` and `checksum` return.

use breakin.Base.{
  ℕ, zero, suc, ◌+◌, ◌%◌, ◌<◌, ◌≤◌, ◌≡◌, ◌≢◌, refl, ap, ◌∙◌, List, [], ◌∷◌, ◌++◌, none, some, arith,
  ◌==◌, map, get_elem?, take, drop, length, length-drop, lt-get_elem?, get_elem?-append_left,
  drop-append, All,
}
use breakin.Text.{Bytes, codes}
use breakin.Trim.Shift.{NoNul}
use breakin.Dmi.Strings.{split_string, walk, clean, filtered, dmi_string}
use breakin.Dmi.Decode.{DmiData}
use breakin.Dmi.Entry.{sum_bytes, checksum, DevMem, smbios_decode}
use breakin.Dmi.Safe.Nul.{IsStructure, dmi_string_run}

-- A string of a structure: not empty, and without NUL.
abbrev pub IsItem : Bytes → Type 0
IsItem s = NoNul s × (s ≢ [])

-- The strings of a structure as the table holds them: each ends in a NUL, and one more NUL ends
-- them all.
abbrev pub area : List Bytes → Bytes → Bytes
area [] rest = 0 ∷ rest
area (s ∷ ss) rest = s ++ 0 ∷ area ss rest

-- String `k`, counted from 1, with unprintable bytes replaced; 0 and a number past the last have
-- texts of their own.
abbrev pub nth_item : ℕ → List Bytes → Bytes
nth_item n [] = codes "<bad index>"
nth_item zero (s ∷ ss) = map clean s
nth_item (suc n) (s ∷ ss) = nth_item n ss

abbrev pub string_number : ℕ → List Bytes → Bytes
string_number zero ss = codes "Not Specified"
string_number (suc n) ss = nth_item n ss

pub split-item : (s rest : Bytes) → NoNul s → split_string (s ++ 0 ∷ rest) ≡ some (s, 0 ∷ rest)
unfolding split_string
split-item [] rest h = refl
split-item (c ∷ s) rest h = ground (arith, split-item s rest h.1)

walk_skip :
    (n : ℕ) (s m passed bp : Bytes)
    → IsItem s
    → walk (suc n) m ≡ some (passed, bp)
    → walk (suc (suc n)) (s ++ 0 ∷ m) ≡ some (s ++ 0 ∷ passed, bp)
unfolding walk
walk_skip n [] m passed bp i w = absurd (i.1 refl)
walk_skip n (c ∷ s) m passed bp i w = ground (arith, split-item (c ∷ s) m i.0)

walk-area :
    (n : ℕ) (ss : List Bytes) (rest : Bytes)
    → All IsItem ss
    → (passed : Bytes) × (walk (suc n) (area ss rest) ≡ some (passed, area (drop n ss) rest))
walk-area zero ss rest a = ([], unfold walk in refl)
walk-area (suc n) [] rest a = ([], unfold walk in refl)
walk-area (suc n) (s ∷ ss) rest a =
    let (passed, e) = walk-area n ss rest a.1 in (s ++ 0 ∷ passed, walk_skip n s _ passed _ a.0 e)

filtered-item :
    (n : ℕ) (ss : List Bytes) (before passed rest : Bytes)
    → All IsItem ss
    → (str : Bytes) × (tail : Bytes) × (split_string (area (drop n ss) rest) ≡ some (str, tail))
      × ((filtered before passed str tail).0 ≡ nth_item n ss)
unfolding filtered
filtered-item zero [] before passed rest a = ([], 0 ∷ rest, unfold split_string in refl, refl)
filtered-item (suc n) [] before passed rest a = ([], 0 ∷ rest, unfold split_string in refl, refl)
filtered-item zero ([] ∷ ss) before passed rest a = absurd (a.0.1 refl)
filtered-item zero ((c ∷ s) ∷ ss) before passed rest a =
    (c ∷ s, 0 ∷ area ss rest, split-item (c ∷ s) _ a.0.0, refl)
filtered-item (suc n) (s ∷ ss) before passed rest a = filtered-item n ss before passed rest a.1

-- Behind a structure with its length byte, if its strings are not empty and have no NUL inside,
-- `dmi_string` finds the string by its number: the k-th of them with the unprintable bytes
-- replaced, and the two fixed texts for 0 and for a number past the last.
pub dmi_string_lem :
    (before rest : Bytes) (base len s : ℕ) (ss : List Bytes)
    → IsStructure before base len
    → All IsItem ss
    → (m : Bytes) × (dmi_string (before ++ area ss rest) base s ≡ some (string_number s ss, m))
dmi_string_lem before rest base len zero ss st a =
    (before ++ area ss rest, unfold dmi_string in refl)
dmi_string_lem before rest base len (suc n) ss st a =
    let r : Bytes = area ss rest in
    let (passed, w) = walk-area n ss rest a in
    let (str, tail, sp, e) = filtered-item n ss (take (base + len) (before ++ r)) passed rest a in
    let dropped : drop (base + len) (before ++ r) ≡ r = rw (← st.size) (drop-append before r) in
    let get : get_elem? (before ++ r) (base + 1) ≡ some len =
      get_elem?-append_left before r (base + 1) (omega (arith, st.size, st.long))
      ∙ st.length_byte in
    (
      (filtered (take (base + len) (before ++ r)) passed str tail).1,
      dmi_string_run (before ++ r) base (suc n) len passed (area (drop n ss) rest) str tail
            (ground arith) get (ap (walk (suc n)) dropped ∙ w) sp
          ∙ ap (λ x. some (x, (filtered (take (base + len) (before ++ r)) passed str tail).1)) e,
    )

-- the sum of some bytes
abbrev pub total : Bytes → ℕ
total [] = 0
total (c ∷ m) = c + total m

sum_bytes_lem :
    (n : ℕ) (m : Bytes) (sum : ℕ)
    → n ≤ length m
    → (r : ℕ) × (sum_bytes n m sum ≡ some r)
      × (r % 256 ≡ (sum + total (take n m)) % 256)
      × (sum < 256 → r < 256)
unfolding sum_bytes
sum_bytes_lem zero m sum h = (sum, refl, omega arith, λ l. l)
sum_bytes_lem (suc n) [] sum h = absurd (omega arith)
sum_bytes_lem (suc n) (c ∷ m) sum h =
    let (r, e, f, l) = sum_bytes_lem n m ((sum + c) % 256) (omega arith) in
    (r, e, omega arith, λ _. l (omega arith))

sum_bytes_short : (n : ℕ) (m : Bytes) (sum : ℕ) → length m < n → sum_bytes n m sum ≡ none
unfolding sum_bytes
sum_bytes_short zero m sum h = absurd (omega arith)
sum_bytes_short (suc n) [] sum h = refl
sum_bytes_short (suc n) (c ∷ m) sum h = sum_bytes_short n m ((sum + c) % 256) (omega arith)

-- `checksum` tells whether the bytes add up to 0 modulo 256, if they lie in the memory; if they do
-- not, and there are any, it reads outside it.
checksum_lem :
    (m : Bytes) (base len : ℕ)
    → (base + len ≤ length m
        → checksum m base len ≡ some (total (take len (drop base m)) % 256 == 0))
      × (length m < base + len → 0 < len → checksum m base len ≡ none)
unfolding checksum
checksum_lem m base len = (
  (λ h.
      let (r, e, f, l) = sum_bytes_lem len (drop base m) 0 (omega (arith, length-drop base m)) in
      rw e (ap some (ap (λ x. x == 0) (omega (arith, f, l (omega arith)))))),
  (λ h pos. rw (sum_bytes_short len (drop base m) 0 (omega (arith, length-drop base m))) refl),
)

-- If the length byte of an entry point reaches past the end of the copied memory, `smbios_decode`
-- reads outside it.
pub smbios_decode_overrun :
    (dev : DevMem) (m : Bytes) (p len : ℕ) (d : DmiData)
    → get_elem? m (p + 5) ≡ some len
    → length m < p + len
    → smbios_decode dev m p d ≡ none
unfolding smbios_decode
smbios_decode_overrun dev m p len d g h =
    let inside = lt-get_elem? m (p + 5) g in
    let out : checksum m p len ≡ none = (checksum_lem m p len).1 h (omega arith) in
    rw (g, smbios_decode) (rw out refl)
