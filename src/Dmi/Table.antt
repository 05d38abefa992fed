-- ===== src/Dmi/Table.antt =====
-- `dmi_table` of dmidecode.c: the walk over the structures of a table.
use breakin.Base.{
  ℕ, zero, suc, ◌+◌, true, false, ◌&&◌, Option, none, some, ◌==◌, ltb, leb, ◌>>=◌, get_elem?,
}
use breakin.Text.{Bytes}
use breakin.Dmi.Decode.{DmiData, dmi_decode}

-- `while(next-buf+1<len && (next[0]!=0 || next[1]!=0)) next++;`: the fuel bounds the rounds, and
-- `len` of them are enough
unfoldable pub find_next : ℕ → Bytes → ℕ → ℕ → Option ℕ
find_next zero m len next = some next
find_next (suc fuel) m len next = elim (ltb (next + 1) len) [
  | false ↦ some next
  | true ↦ do
    a ← get_elem? m next
    b ← get_elem? m (next + 1)
    elim (a == 0 && b == 0) [ true ↦ some next | false ↦ find_next fuel m len (next + 1) ]
]

-- the loop's body at the structure at offset `at`: the next offset, the data and the memory
unfoldable pub table_step : Bytes → ℕ → ℕ → DmiData → Option (ℕ × DmiData × Bytes)
table_step m len at d = do
  size ← get_elem? m (at + 1)
  next ← find_next len m len (at + size)
  elim (leb (next + 2) len) [
    | true ↦ dmi_decode m at d >>= λ r. some (next + 2, r.0, r.1)
    | false ↦ some (next + 2, d, m)
  ]

-- `while(i<num && data+sizeof(struct dmi_header)<=buf+len)`, over the rounds left
unfoldable pub table_loop : ℕ → Bytes → ℕ → ℕ → DmiData → Option DmiData
table_loop zero m len at d = some d
table_loop (suc n) m len at d = elim (leb (at + 4) len) [
  | true ↦ table_step m len at d >>= λ r. table_loop n r.2 len r.0 r.1
  | false ↦ some d
]

-- `dmi_table(base, len, num, ver, devmem)`, on the copy that `mem_chunk` returns, or NULL
unfoldable pub dmi_table : Option Bytes → ℕ → ℕ → DmiData → Option DmiData
dmi_table none len num d = some d
dmi_table (some buf) len num d = table_loop num buf len 0 d
