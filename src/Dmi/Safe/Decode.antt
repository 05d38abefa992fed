-- ===== src/Dmi/Safe/Decode.antt =====
-- `dmi_decode` on a structure whose strings end in a pair of NULs: it stays inside the memory, and
-- every field it stores fits its array.
use breakin.Base.{
  ℕ, ◌+◌, ◌<◌, ◌≡◌, refl, ◌∙◌, Bool, true, false, ◌++◌, Option, some, arith, ◌==◌, ltb, get_elem?,
  length, get_elem?-append_left, get_elem?-lt, if◌then◌else◌,
}
use breakin.Text.{Bytes, copy_n, length-copy_n}
use breakin.Trim.Strip.{length-trim}
use breakin.Dmi.Decode.{
  DmiData, read_field, decode_bios, decode_system, decode_board, decode_type, trim_data, dmi_decode,
}
use breakin.Dmi.Safe.Nul.{IsSafe, IsStructure, dmi_string-IsSafe}

-- Every field is shorter than its array of 50 bytes.
pub record Fits (d : DmiData) : Type 0 where
  pub bios_vendor : length d.bios_vendor < 50
  pub bios_version : length d.bios_version < 50
  pub bios_date : length d.bios_date < 50
  pub sys_vendor : length d.sys_vendor < 50
  pub sys_product : length d.sys_product < 50
  pub sys_version : length d.sys_version < 50
  pub sys_serial : length d.sys_serial < 50
  pub board_vendor : length d.board_vendor < 50
  pub board_product : length d.board_product < 50
  pub board_version : length d.board_version < 50
  pub board_serial : length d.board_serial < 50

-- A step on the strings `r` behind `before`: defined, with strings that still end in the pair.
abbrev pub Reads : Bytes → Bytes → Option (Bytes × Bytes) → Type 0
Reads before r o =
    (str : Bytes) × (r' : Bytes) × (o ≡ some (str, before ++ r'))
    × IsSafe r'
    × (length r' ≡ length r)
    × (length str < 50)

abbrev pub Decodes : Bytes → Bytes → Option (DmiData × Bytes) → Type 0
Decodes before r o =
    (d : DmiData) × (r' : Bytes) × (o ≡ some (d, before ++ r'))
    × IsSafe r'
    × (length r' ≡ length r)
    × Fits d

if-Decodes :
    (before r : Bytes) (b : Bool) {x y : Option (DmiData × Bytes)}
    → (b ≡ true → Decodes before r x)
    → (b ≡ false → Decodes before r y)
    → Decodes before r (if b then x else y)
if-Decodes before r true p q = p refl
if-Decodes before r false p q = q refl

module _ (before : Bytes) (base len : ℕ) (st : IsStructure before base len) where
  read_field-Reads :
      (k : ℕ) (r : Bytes) → k < len → IsSafe r → Reads before r (read_field base k (before ++ r))
  unfolding read_field
  read_field-Reads k r lt safe =
      let (s, g) = get_elem?-lt before (base + k) (omega (arith, st.size)) in
      let got : get_elem? (before ++ r) (base + k) ≡ some s =
        get_elem?-append_left before r (base + k) (omega (arith, st.size)) ∙ g in
      let (str, r', run, safe', l) = dmi_string-IsSafe before r base len s st safe in
      (
        copy_n 50 str,
        r',
        rw (got, read_field) (rw (run, read_field) refl),
        safe',
        l,
        length-copy_n 50 str (omega arith),
      )

  decode_bios-Decodes :
      (r : Bytes) (d : DmiData)
      → 7 < len
      → IsSafe r
      → Fits d
      → Decodes before r (decode_bios (before ++ r) base d)
  unfolding decode_bios
  decode_bios-Decodes r d lt safe f =
      let (a, r1, e1, s1, l1, b1) = read_field-Reads 0x04 r (omega arith) safe in
      let (b, r2, e2, s2, l2, b2) = read_field-Reads 0x05 r1 (omega arith) s1 in
      let (c, r3, e3, s3, l3, b3) = read_field-Reads 0x06 r2 (omega arith) s2 in
      (
        record d { bios_vendor = a; bios_version = b; bios_date = c },
        r3,
        rw (e1, decode_bios) (rw (e2, decode_bios) (rw (e3, decode_bios) refl)),
        s3,
        l3 ∙ l2 ∙ l1,
        omega arith,
      )

  decode_system-Decodes :
      (r : Bytes) (d : DmiData)
      → 7 < len
      → IsSafe r
      → Fits d
      → Decodes before r (decode_system (before ++ r) base d)
  unfolding decode_system
  decode_system-Decodes r d lt safe f =
      let (a, r1, e1, s1, l1, b1) = read_field-Reads 0x04 r (omega arith) safe in
      let (b, r2, e2, s2, l2, b2) = read_field-Reads 0x05 r1 (omega arith) s1 in
      let (c, r3, e3, s3, l3, b3) = read_field-Reads 0x06 r2 (omega arith) s2 in
      let (x, r4, e4, s4, l4, b4) = read_field-Reads 0x07 r3 (omega arith) s3 in
      (
        record d { sys_vendor = a; sys_product = b; sys_version = c; sys_serial = x },
        r4,
        rw (e1, decode_system)
            (rw (e2, decode_system) (rw (e3, decode_system) (rw (e4, decode_system) refl))),
        s4,
        l4 ∙ l3 ∙ l2 ∙ l1,
        omega arith,
      )

  decode_board-Decodes :
      (r : Bytes) (d : DmiData)
      → 7 < len
      → IsSafe r
      → Fits d
      → Decodes before r (decode_board (before ++ r) base d)
  unfolding decode_board
  decode_board-Decodes r d lt safe f =
      let (a, r1, e1, s1, l1, b1) = read_field-Reads 0x04 r (omega arith) safe in
      let (b, r2, e2, s2, l2, b2) = read_field-Reads 0x05 r1 (omega arith) s1 in
      let (c, r3, e3, s3, l3, b3) = read_field-Reads 0x06 r2 (omega arith) s2 in
      let (x, r4, e4, s4, l4, b4) = read_field-Reads 0x07 r3 (omega arith) s3 in
      (
        record d { board_vendor = a; board_product = b; board_version = c; board_serial = x },
        r4,
        rw (e1, decode_board)
            (rw (e2, decode_board) (rw (e3, decode_board) (rw (e4, decode_board) refl))),
        s4,
        l4 ∙ l3 ∙ l2 ∙ l1,
        omega arith,
      )

  decode_type-Decodes :
      (type : ℕ) (r : Bytes) (d : DmiData)
      → IsSafe r
      → Fits d
      → Decodes before r (decode_type type len (before ++ r) base d)
  unfolding decode_type
  decode_type-Decodes type r d safe f =
      if-Decodes before r (type == 0)
        (λ _.
          if-Decodes before r (ltb len 0x12) (λ _. stay)
            (λ n. decode_bios-Decodes r d (ground arith) safe f))
        (λ _.
          if-Decodes before r (type == 1)
            (λ _.
              if-Decodes before r (ltb len 0x08) (λ _. stay)
                (λ n. decode_system-Decodes r d (ground arith) safe f))
            (λ _.
              if-Decodes before r (type == 2)
                (λ _.
                  if-Decodes before r (ltb len 0x08) (λ _. stay)
                    (λ n. decode_board-Decodes r d (ground arith) safe f))
                (λ _. stay)))
    where
      stay : Decodes before r (some (d, before ++ r))
      stay = (d, r, refl, safe, refl, f)

trim_data-Fits : (d : DmiData) → Fits d → Fits (trim_data d)
trim_data-Fits d f =
    omega
      (arith, length-trim d.board_vendor, length-trim d.board_product, length-trim d.bios_version)

-- A structure shorter than 8 bytes has none of the fields, and is passed by.
decode_type_short :
    (type len : ℕ) (m : Bytes) (base : ℕ) (d : DmiData)
    → len < 8
    → decode_type type len m base d ≡ some (d, m)
unfolding decode_type
decode_type_short type len m base d h = ground arith

dmi_decode_run :
    (m m' : Bytes) (base type len : ℕ) (d d' : DmiData)
    → get_elem? m base ≡ some type
    → get_elem? m (base + 1) ≡ some len
    → decode_type type len m base d ≡ some (d', m')
    → dmi_decode m base d ≡ some (trim_data d', m')
unfolding dmi_decode
dmi_decode_run m m' base type len d d' t l e = ground arith

-- On a structure with its length byte whose strings end in a pair of NULs, with every string
-- stored before shorter than its array: `dmi_decode` stays inside the memory, changes nothing in
-- front of the strings, which still end so, and every string that is stored then is shorter than
-- its array.
pub dmi_decode-Decodes :
    (before r : Bytes) (base len : ℕ) (d : DmiData)
    → IsStructure before base len
    → IsSafe r
    → Fits d
    → Decodes before r (dmi_decode (before ++ r) base d)
dmi_decode-Decodes before r base len d st safe f =
    let (type, g) = get_elem?-lt before base (omega (arith, st.size, st.long)) in
    let (d', r', run, safe', l, f') = decode_type-Decodes before base len st type r d safe f in
    (
      trim_data d',
      r',
      dmi_decode_run (before ++ r) (before ++ r') base type len d d'
          (get_elem?-append_left before r base (omega (arith, st.size, st.long)) ∙ g)
          (get_elem?-append_left before r (base + 1) (omega (arith, st.size, st.long))
            ∙ st.length_byte)
          run,
      safe',
      l,
      trim_data-Fits d' f',
    )

-- One that is too short.
pub dmi_decode_short :
    (m : Bytes) (base len : ℕ) (d : DmiData)
    → base + 1 < length m
    → get_elem? m (base + 1) ≡ some len
    → len < 8
    → Fits d
    → (d' : DmiData) × (dmi_decode m base d ≡ some (d', m)) × Fits d'
dmi_decode_short m base len d lt l h f =
    let (type, g) = get_elem?-lt m base (omega arith) in
    (
      trim_data d,
      dmi_decode_run m m base type len d d g l (decode_type_short type len m base d h),
      trim_data-Fits d f,
    )
