-- ===== src/Dmi/Entry.antt =====
-- `checksum`, `smbios_decode` and `do_dmi_decode` of dmidecode.c.
use breakin.Base.{
  ℕ, zero, suc, ◌+◌, ◌*◌, ◌%◌, Bool, true, false, ◌&&◌, [], ◌∷◌, Option, none, some, ◌==◌, leb,
  if◌then◌else◌, ◌>>=◌, get_elem?, drop,
}
use breakin.Text.{Bytes, codes}
use breakin.Dmi.Decode.{DmiData}
use breakin.Dmi.Table.{dmi_table}

-- `for(a=0; a<len; a++) sum+=buf[a];` on a `u8`, over the bytes left
unfoldable pub sum_bytes : ℕ → Bytes → ℕ → Option ℕ
sum_bytes zero m sum = some sum
sum_bytes (suc n) [] sum = none
sum_bytes (suc n) (c ∷ m) sum = sum_bytes n m ((sum + c) % 256)

-- `checksum(buf, len)` with `buf` at an offset
unfoldable pub checksum : Bytes → ℕ → ℕ → Option Bool
checksum m base len = sum_bytes len (drop base m) 0 >>= λ sum. some (sum == 0)

-- `memcmp(buf, text, n) == 0`: it may read all of the n bytes
unfoldable pub same_bytes : Bytes → Bytes → Option Bool
same_bytes [] m = some true
same_bytes (c ∷ text) [] = none
same_bytes (c ∷ text) (d ∷ m) = same_bytes text m >>= λ r. some (c == d && r)

-- WORD and DWORD: little-endian values
pub word : Bytes → ℕ → Option ℕ
word m p = do a ← get_elem? m p; b ← get_elem? m (p + 1); some (a + 256 * b)

unfoldable pub dword : Bytes → ℕ → Option ℕ
unfolding word
dword m p = do a ← word m p; b ← word m (p + 2); some (a + 65536 * b)

-- what `mem_chunk(base, len, "/dev/mem")` returns: NULL, or a copy of len bytes
abbrev pub DevMem : Type 0
DevMem = ℕ → ℕ → Option Bytes

-- the call of `dmi_table` with the fields of the entry point
decode_table : DevMem → Bytes → ℕ → DmiData → Option DmiData
decode_table dev m p d = do
  base ← dword m (p + 0x18)
  len ← word m (p + 0x16)
  num ← word m (p + 0x1C)
  dmi_table (dev base len) len num d

-- `smbios_decode(buf, devmem)` with `buf` at offset `p`: the data if it returns 1
unfoldable pub smbios_decode : DevMem → Bytes → ℕ → DmiData → Option (Bool × DmiData)
unfolding decode_table
smbios_decode dev m p d = do
  len ← get_elem? m (p + 0x05)
  whole ← checksum m p len
  elim whole [
    | false ↦ some (false, d)
    | true ↦ do
      anchor ← same_bytes (codes "_DMI_") (drop (p + 0x10) m)
      elim anchor [
        | false ↦ some (false, d)
        | true ↦ do
          part ← checksum m (p + 0x10) 0x0F
          elim part [
            | false ↦ some (false, d)
            | true ↦ do d' ← decode_table dev m p d; some (true, d')
          ]
      ]
  ]

-- `for(fp=0; fp<=0xFFF0; fp+=16)`, with `found`; the fuel bounds the rounds, and 0x1000 of them are
-- enough
unfoldable pub entry_loop : ℕ → DevMem → Bytes → ℕ → ℕ → DmiData → Option (ℕ × DmiData)
entry_loop zero dev m fp found d = some (found, d)
entry_loop (suc fuel) dev m fp found d = elim (leb fp 0xFFF0) [
  | false ↦ some (found, d)
  | true ↦ do
    anchor ← same_bytes (codes "_SM_") (drop fp m)
    elim (anchor && leb fp 0xFFE0) [
      | true ↦ do
        (decoded, d') ← smbios_decode dev m fp d
        entry_loop fuel dev m (fp + 32) (if decoded then found + 1 else found) d'
      | false ↦ entry_loop fuel dev m (fp + 16) found d
    ]
]

-- the end of `do_dmi_decode`: `exit(1)`, or a return with the data found
pub data DmiResult : Type 0 where
  exit_failure : DmiResult
  decoded : DmiData → DmiResult

do_dmi_chunk : DevMem → Option Bytes → DmiData → Option DmiResult
do_dmi_chunk dev none d = some exit_failure
do_dmi_chunk dev (some m) d = do (found, d') ← entry_loop 0x1000 dev m 0 0 d; some (decoded d')

unfoldable pub do_dmi_decode : DevMem → DmiData → Option DmiResult
unfolding do_dmi_chunk
do_dmi_decode dev d = do_dmi_chunk dev (dev 0xF0000 0x10000) d
