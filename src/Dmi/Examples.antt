-- ===== src/Dmi/Examples.antt =====
-- The theorems of the DMI decoder, applied to concrete tables.
use breakin.Base.{◌≡◌, refl, List, [], ◌∷◌, ◌++◌, none, some, arith, All}
use breakin.Text.{Bytes, codes}
use breakin.Dmi.Strings.{clean, dmi_string}
use breakin.Dmi.Decode.{DmiData}
use breakin.Dmi.Table.{dmi_table}
use breakin.Dmi.Search.{entry_loop-enough}
use breakin.Dmi.Entry.{entry_loop, smbios_decode}
use breakin.Dmi.Safe.Nul.{IsSafe, IsStructure}
use breakin.Dmi.Safe.Decode.{Fits}
use breakin.Dmi.Safe.Table.{dmi_table-Fits}
use breakin.Dmi.Lookup.{IsItem, area, dmi_string_lem, smbios_decode_overrun}

-- a structure of type 1 (System Information), 8 bytes long, with four strings
abbrev formatted : Bytes
formatted = 1 ∷ 8 ∷ 0 ∷ 1 ∷ 1 ∷ 2 ∷ 0 ∷ 3 ∷ []

abbrev names : List Bytes
names = codes "Acme" ∷ codes "R1" ∷ codes "S9" ∷ []

abbrev system : Bytes
system = formatted ++ area names []

abbrev empty_data : DmiData
empty_data = record {
  bios_vendor = [];
  bios_version = [];
  bios_date = [];
  sys_vendor = [];
  sys_product = [];
  sys_version = [];
  sys_serial = [];
  board_vendor = [];
  board_product = [];
  board_version = [];
  board_serial = [];
}

empty_data-Fits : Fits empty_data
empty_data-Fits = record {
  bios_vendor = omega arith;
  bios_version = omega arith;
  bios_date = omega arith;
  sys_vendor = omega arith;
  sys_product = omega arith;
  sys_version = omega arith;
  sys_serial = omega arith;
  board_vendor = omega arith;
  board_product = omega arith;
  board_version = omega arith;
  board_serial = omega arith;
}

formatted-IsStructure : IsStructure formatted 0 8
formatted-IsStructure = record { size = refl; length_byte = refl; long = omega arith }

names-IsSafe : IsSafe (area names [])
names-IsSafe = ground arith

dmi_table-Fits_example :
    (d' : DmiData) × (dmi_table (some system) 20 1 empty_data ≡ some d') × Fits d'
dmi_table-Fits_example = dmi_table-Fits system 1 empty_data empty_data-Fits

names-items : All IsItem names
names-items = ground arith

dmi_string_lem_example : (m : Bytes) × (dmi_string system 0 2 ≡ some (codes "R1", m))
unfolding clean
dmi_string_lem_example = dmi_string_lem formatted [] 0 8 2 names formatted-IsStructure names-items

abbrev short_entry : Bytes
short_entry = codes "_SM_" ++ 0 ∷ 31 ∷ []

smbios_decode_overrun_example : smbios_decode (λ base len. none) short_entry 0 empty_data ≡ none
smbios_decode_overrun_example =
    smbios_decode_overrun (λ base len. none) short_entry 0 31 empty_data refl (omega arith)

entry_loop-enough_example :
    entry_loop 5000 (λ base len. none) short_entry 0 0 empty_data
    ≡ entry_loop 0x1000 (λ base len. none) short_entry 0 0 empty_data
entry_loop-enough_example =
    entry_loop-enough 5000 (λ base len. none) short_entry 0 empty_data (omega arith)
