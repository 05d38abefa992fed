-- ===== src/Dmi/Decode.antt =====
-- `struct dmi_data_t` and `dmi_decode` of dmidecode.c. The global `dmi_data` is passed through. The
-- three calls of `trim` at the end read at most the last byte of the field below, which snprintf
-- keeps a NUL, so their effect is that of `trim` on the field.
use breakin.Base.{ℕ, ◌+◌, Option, some, ◌==◌, ltb, if◌then◌else◌, ◌>>=◌, get_elem?}
use breakin.Text.{Bytes, copy_n}
use breakin.Trim.{trim}
use breakin.Dmi.Strings.{dmi_string}

pub record DmiData : Type 0 where
  pub bios_vendor : Bytes
  pub bios_version : Bytes
  pub bios_date : Bytes
  pub sys_vendor : Bytes
  pub sys_product : Bytes
  pub sys_version : Bytes
  pub sys_serial : Bytes
  pub board_vendor : Bytes
  pub board_product : Bytes
  pub board_version : Bytes
  pub board_serial : Bytes

-- `snprintf(field, 50, "%s", dmi_string(h, data[k]))`
unfoldable pub read_field : ℕ → ℕ → Bytes → Option (Bytes × Bytes)
read_field base k m = do
  s ← get_elem? m (base + k)
  (str, m') ← dmi_string m base s
  some (copy_n 50 str, m')

-- `case 0`: BIOS Information
unfoldable pub decode_bios : Bytes → ℕ → DmiData → Option (DmiData × Bytes)
decode_bios m base d = do
  (vendor, m1) ← read_field base 0x04 m
  (version, m2) ← read_field base 0x05 m1
  (date, m3) ← read_field base 0x06 m2
  some (record d { bios_vendor = vendor; bios_version = version; bios_date = date }, m3)

-- `case 1`: System Information
unfoldable pub decode_system : Bytes → ℕ → DmiData → Option (DmiData × Bytes)
decode_system m base d = do
  (vendor, m1) ← read_field base 0x04 m
  (product, m2) ← read_field base 0x05 m1
  (version, m3) ← read_field base 0x06 m2
  (serial, m4) ← read_field base 0x07 m3
  some (
    record d {
      sys_vendor = vendor;
      sys_product = product;
      sys_version = version;
      sys_serial = serial;
    },
    m4,
  )

-- `case 2`: Base Board Information
unfoldable pub decode_board : Bytes → ℕ → DmiData → Option (DmiData × Bytes)
decode_board m base d = do
  (vendor, m1) ← read_field base 0x04 m
  (product, m2) ← read_field base 0x05 m1
  (version, m3) ← read_field base 0x06 m2
  (serial, m4) ← read_field base 0x07 m3
  some (
    record d {
      board_vendor = vendor;
      board_product = product;
      board_version = version;
      board_serial = serial;
    },
    m4,
  )

-- the `switch(h->type)`, with `h->length`
unfoldable pub decode_type : ℕ → ℕ → Bytes → ℕ → DmiData → Option (DmiData × Bytes)
decode_type type len m base d =
    if type == 0
    then (if ltb len 0x12 then some (d, m) else decode_bios m base d)
    else if type == 1
    then (if ltb len 0x08 then some (d, m) else decode_system m base d)
    else if type == 2
    then (if ltb len 0x08 then some (d, m) else decode_board m base d)
    else some (d, m)

-- the three calls of `trim`
abbrev pub trim_data : DmiData → DmiData
trim_data d = record d {
  board_vendor = trim d.board_vendor;
  board_product = trim d.board_product;
  bios_version = trim d.bios_version;
}

-- `dmi_decode(data, ver)` with `data` at offset `base`
unfoldable pub dmi_decode : Bytes → ℕ → DmiData → Option (DmiData × Bytes)
dmi_decode m base d = do
  type ← get_elem? m base
  len ← get_elem? m (base + 1)
  (d', m') ← decode_type type len m base d
  some (trim_data d', m')
