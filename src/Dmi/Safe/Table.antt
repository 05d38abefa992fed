-- ===== src/Dmi/Safe/Table.antt =====
-- `dmi_table` on any bytes at all: the walk stays inside the table.
use native.Mathlib.Numerals.{add-one}
use breakin.Base.{
  ℕ, zero, suc, ◌+◌, ◌≤◌, ◌≡◌, refl, sym, ap, ◌∙◌, ◌⊎◌, inl, inr, true, false, ◌&&◌, [], ◌∷◌, ◌++◌,
  Option, some, arith, ◌==◌, ltb, leb, Bool-cases, get_elem?, take, drop, length, length-append,
  length-take, get_elem?-append_left, get_elem?-lt, take-append-drop, some-eq,
}
use breakin.Text.{Bytes}
use breakin.Dmi.Decode.{DmiData, dmi_decode}
use breakin.Dmi.Table.{find_next, table_step, table_loop, dmi_table}
use breakin.Dmi.Safe.Nul.{StartsNul, DoubleNul, IsStructure}
use breakin.Dmi.Safe.Decode.{Fits, dmi_decode-Decodes, dmi_decode_short}

-- Where the search for the pair ends.
abbrev Found : Bytes → ℕ → ℕ → Option ℕ → Type 0
Found m len from o =
    (n : ℕ) × (o ≡ some n)
    × (from ≤ n)
    × ((len ≤ n + 1) ⊎ ((get_elem? m n ≡ some 0) × (get_elem? m (n + 1) ≡ some 0)))

find_next_step :
    (fuel : ℕ) (m : Bytes) (len next a b : ℕ)
    → ltb (next + 1) len ≡ true
    → get_elem? m next ≡ some a
    → get_elem? m (next + 1) ≡ some b
    → (a == 0 && b == 0) ≡ false
    → find_next (suc fuel) m len next ≡ find_next fuel m len (next + 1)
unfolding find_next
find_next_step fuel m len next a b h p q n = ground arith

find_next_stop :
    (fuel : ℕ) (m : Bytes) (len next a b : ℕ)
    → ltb (next + 1) len ≡ true
    → get_elem? m next ≡ some a
    → get_elem? m (next + 1) ≡ some b
    → (a == 0 && b == 0) ≡ true
    → find_next (suc fuel) m len next ≡ some next
unfolding find_next
find_next_stop fuel m len next a b h p q n = ground arith

find_next_past :
    (fuel : ℕ) (m : Bytes) (len next : ℕ)
    → ltb (next + 1) len ≡ false
    → find_next (suc fuel) m len next ≡ some next
unfolding find_next
find_next_past fuel m len next h = ground arith

find_next-Found :
    (fuel : ℕ) (m : Bytes) (len next : ℕ)
    → length m ≡ len
    → len ≤ next + fuel
    → Found m len next (find_next fuel m len next)
find_next-Found zero m len next l h =
    (next, unfold find_next in refl, omega arith, inl (omega arith))
find_next-Found (suc fuel) m len next l h = elim (Bool-cases (ltb (next + 1) len)) [
  | inl more ↦
      let (a, p) = get_elem?-lt m next (ground arith) in
      let (b, q) = get_elem?-lt m (next + 1) (ground arith) in
      elim (Bool-cases (a == 0 && b == 0)) [
        | inl y ↦
            (next, find_next_stop fuel m len next a b more p q y, omega arith, inr (ground arith))
        | inr n ↦
            let (k, e, le, r) = find_next-Found fuel m len (next + 1) l (omega arith) in
            (k, find_next_step fuel m len next a b more p q n ∙ e, omega arith, r)
      ]
  | inr past ↦ (next, find_next_past fuel m len next past, omega arith, inl (ground arith))
]

pair-StartsNul : (m : Bytes) → get_elem? m 0 ≡ some 0 → StartsNul m
pair-StartsNul [] h = cc
pair-StartsNul (c ∷ m) h = some-eq h

pair-DoubleNul :
    (m : Bytes) (n : ℕ) → get_elem? m n ≡ some 0 → get_elem? m (suc n) ≡ some 0 → DoubleNul m
pair-DoubleNul [] n p q = cc
pair-DoubleNul (c ∷ m) zero p q = inl (some-eq p, pair-StartsNul m q)
pair-DoubleNul (c ∷ m) (suc n) p q = inr (pair-DoubleNul m n p q)

-- A pair of NULs further on makes every place in front of it safe.
drop-DoubleNul :
    (m : Bytes) (k n : ℕ)
    → k ≤ n
    → get_elem? m n ≡ some 0
    → get_elem? m (suc n) ≡ some 0
    → DoubleNul (drop k m)
drop-DoubleNul m zero n le p q = pair-DoubleNul m n p q
drop-DoubleNul [] (suc k) n le p q = cc
drop-DoubleNul (c ∷ m) (suc k) zero le p q = absurd (omega arith)
drop-DoubleNul (c ∷ m) (suc k) (suc n) le p q = drop-DoubleNul m k n (omega arith) p q

table_step_decode :
    (m m' : Bytes) (len at size n : ℕ) (d d' : DmiData)
    → get_elem? m (at + 1) ≡ some size
    → find_next len m len (at + size) ≡ some n
    → leb (n + 2) len ≡ true
    → dmi_decode m at d ≡ some (d', m')
    → table_step m len at d ≡ some (n + 2, d', m')
unfolding table_step
table_step_decode m m' len at size n d d' g f l e = ground arith

table_step_skip :
    (m : Bytes) (len at size n : ℕ) (d : DmiData)
    → get_elem? m (at + 1) ≡ some size
    → find_next len m len (at + size) ≡ some n
    → leb (n + 2) len ≡ false
    → table_step m len at d ≡ some (n + 2, d, m)
unfolding table_step
table_step_skip m len at size n d g f l = ground arith

-- A step on a structure whose header lies in the table is defined; the table keeps its size.
abbrev Advances : ℕ → Option (ℕ × DmiData × Bytes) → Type 0
Advances len o =
    (next : ℕ) × (d : DmiData) × (m : Bytes) × (o ≡ some (next, d, m)) × (length m ≡ len) × Fits d

decode_long :
    (m : Bytes) (at size n : ℕ) (d : DmiData)
    → get_elem? m (at + 1) ≡ some size
    → at + size ≤ n
    → n + 2 ≤ length m
    → 8 ≤ size
    → get_elem? m n ≡ some 0
    → get_elem? m (suc n) ≡ some 0
    → Fits d
    → (d' : DmiData) × (m' : Bytes) × (dmi_decode m at d ≡ some (d', m'))
      × (length m' ≡ length m)
      × Fits d'
decode_long m at size n d g le fits big p q f =
    let k : ℕ = at + size in
    let b : Bytes = take k m in
    let r : Bytes = drop k m in
    let lb : length b ≡ k = length-take k m ∙ omega arith in
    let whole : b ++ r ≡ m = take-append-drop k m in
    let st : IsStructure b at size = record {
      size = lb;
      length_byte =
          sym (get_elem?-append_left b r (at + 1) (omega arith))
          ∙ (ap (λ x. get_elem? x (at + 1)) whole ∙ g);
      long = omega arith;
    } in
    let (d', r', e, _, l, f') =
      dmi_decode-Decodes b r at size d st (inr (drop-DoubleNul m k n le p q)) f in
    (
      d',
      b ++ r',
      ap (λ x. dmi_decode x at d) (sym whole) ∙ e,
      length-append b r' ∙ (omega (arith, l, length-append b r) ∙ ap length whole),
      f',
    )

table_step-Advances :
    (m : Bytes) (len at : ℕ) (d : DmiData)
    → length m ≡ len
    → at + 4 ≤ len
    → Fits d
    → Advances len (table_step m len at d)
table_step-Advances m len at d l h f =
    let (size, g) = get_elem?-lt m (at + 1) (omega arith) in
    let (n, e, le, r) = find_next-Found len m len (at + size) l (omega arith) in
    elim (Bool-cases (leb (n + 2) len)) [
      | inr out ↦ (n + 2, d, m, table_step_skip m len at size n d g e out, l, f)
      | inl fits ↦ elim r [
        | inl past ↦ absurd (ground arith)
        | inr (p, q) ↦ elim (Bool-cases (ltb size 8)) [
          | inl short ↦
              let (d', dec, f') = dmi_decode_short m at size d (omega arith) g (ground arith) f in
              (n + 2, d', m, table_step_decode m m len at size n d d' g e fits dec, l, f')
          | inr long ↦
              let (d', m', dec, l', f') =
                decode_long m at size n d g le (ground arith) (ground arith) p (rw add-one at q)
                  f in
              (n + 2, d', m', table_step_decode m m' len at size n d d' g e fits dec, l' ∙ l, f')
        ]
      ]
    ]

table_loop_run :
    (n : ℕ) (m : Bytes) (len at : ℕ) (d : DmiData) (next : ℕ) (d' : DmiData) (m' : Bytes)
    → leb (at + 4) len ≡ true
    → table_step m len at d ≡ some (next, d', m')
    → table_loop (suc n) m len at d ≡ table_loop n m' len next d'
unfolding table_loop
table_loop_run n m len at d next d' m' h e = ground arith

table_loop_stop :
    (n : ℕ) (m : Bytes) (len at : ℕ) (d : DmiData)
    → leb (at + 4) len ≡ false
    → table_loop (suc n) m len at d ≡ some d
unfolding table_loop
table_loop_stop n m len at d h = ground arith

table_loop-Fits :
    (n : ℕ) (m : Bytes) (len at : ℕ) (d : DmiData)
    → length m ≡ len
    → Fits d
    → (d' : DmiData) × (table_loop n m len at d ≡ some d') × Fits d'
table_loop-Fits zero m len at d l f = (d, unfold table_loop in refl, f)
table_loop-Fits (suc n) m len at d l f = elim (Bool-cases (leb (at + 4) len)) [
  | inr out ↦ (d, table_loop_stop n m len at d out, f)
  | inl fits ↦
      let (next, d', m', e, l', f') = table_step-Advances m len at d l (ground arith) f in
      let (d'', e', f'') = table_loop-Fits n m' len next d' l' f' in
      (d'', table_loop_run n m len at d next d' m' fits e ∙ e', f'')
]

-- Whatever bytes the table holds and however many structures it claims, the walk reads and writes
-- nothing outside the copy of the table; and if every string stored before is shorter than its
-- array, every string stored after it is.
pub dmi_table-Fits :
    (buf : Bytes) (num : ℕ) (d : DmiData)
    → Fits d
    → (d' : DmiData) × (dmi_table (some buf) (length buf) num d ≡ some d') × Fits d'
unfolding dmi_table
dmi_table-Fits buf num d f = table_loop-Fits num buf (length buf) 0 d refl f
