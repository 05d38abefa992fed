-- ===== src/Sensors.antt =====
-- `get_ipmi_sensors` of breakin.c. The two files are the lines that fgets reads of them, without NUL.
-- `none` is an access outside the line: below it by `trim`, or behind it where a fan's label is taken
-- from its fourth byte on.
pub mod Table
mod Examples
use breakin.Base.{
  ℕ, zero, suc, ◌+◌, Bool, true, false, List, [], ◌∷◌, ◌++◌, Option, none, some, ◌==◌, ltb,
  if◌then◌else◌, ◌>>=◌, drop,
}
use breakin.Text.{Bytes, copy_n}
use breakin.Trim.{trim_at}
use breakin.Number.{ℤ, pos, atoi, is_digit, skip_white}
use breakin.Dmi.Strings.{split_string}

abbrev pub max_temps : ℕ
max_temps = 50

abbrev pub max_fans : ℕ
max_fans = 30

-- struct temp_data_t and struct fan_data_t
pub record Sensor : Type 0 where
  pub name : Bytes
  pub value : ℤ

-- `strsep(&string, "|")`: the chunk, and the new `string`, or none for NULL
unfoldable pub split_bar : Bytes → Bytes × Option Bytes
split_bar [] = ([], none)
split_bar (c ∷ s) = elim (c == b'|') [
  | true ↦ ([], some s)
  | false ↦ let (chunk, rest) = split_bar s in (c ∷ chunk, rest)
]

-- the result of sscanf: -1, 0, or 1 with the number
pub data Scan : Type 0 where
  eof no_match : Scan
  number : ℤ → Scan

abbrev digit_first : Bytes → Bool
digit_first [] = false
digit_first (c ∷ s) = is_digit c

abbrev has_number : Bytes → Bool
has_number [] = false
has_number (c ∷ s) =
    if c == b'-' then digit_first s else if c == b'+' then digit_first s else is_digit c

unfoldable pub scan_head : Bytes → Bytes → Scan
scan_head [] chunk = eof
scan_head (c ∷ s) chunk = if has_number (c ∷ s) then number (atoi chunk) else no_match

-- `sscanf(chunk, "%d ", &value)`
unfoldable pub scan_value : Bytes → Scan
unfolding scan_head
scan_value chunk = scan_head (skip_white chunk) chunk

-- `snprintf(label, sizeof(label), "%s", trim(chunk) + skip)`, with the memory behind the chunk
unfoldable pub read_label : ℕ → Bytes → Bytes → Option Bytes
read_label skip chunk behind = do
  m ← trim_at (chunk ++ 0 ∷ behind) 0
  (label, rest) ← split_string (drop skip m)
  some (copy_n 20 label)

-- what strsep leaves in memory behind the first chunk
abbrev pub behind : Option Bytes → Bytes
behind none = []
behind (some rest) = rest ++ 0 ∷ []

-- the second chunk: whether a value was found, and `value`
unfoldable pub take_value : Option Bytes → ℤ → Bool × ℤ
take_value none old = (false, old)
take_value (some rest) old = elim (scan_value (split_bar rest).0) [
  | eof ↦ (true, old)
  | no_match ↦ (false, old)
  | number v ↦ (true, v)
]

-- the loop over the chunks of a line: the label, `found_value` and `value`
unfoldable pub read_line : ℕ → Bytes → ℤ → Option (Bytes × (Bool × ℤ))
read_line skip line old = do
  let (chunk, rest) = split_bar line
  label ← read_label skip chunk (behind rest)
  some (label, take_value rest old)

-- the end of the loop's body: the sensor is stored if there is room; `next` is the rest of the loop
unfoldable pub store :
    ℕ → Bytes → Bool × ℤ → ℕ → (ℤ → ℕ → Option (List Sensor × ℤ)) → Option (List Sensor × ℤ)
store limit label (found, value) count next = elim (if found then ltb count limit else false) [
  | false ↦ next value count
  | true ↦ next value (count + 1) >>= λ r.
      some (record { name = copy_n 16 label; value = value } ∷ r.0, r.1)
]

-- the loop over the lines, with `value` and the number of sensors so far
unfoldable pub read_sensors : ℕ → ℕ → List Bytes → ℤ → ℕ → Option (List Sensor × ℤ)
read_sensors limit skip [] old count = some ([], old)
read_sensors limit skip (line ∷ lines) old count = read_line skip line old >>= λ r.
    store limit r.0 r.1 count (λ v n. read_sensors limit skip lines v n)

-- one of the two files, if it can be opened
unfoldable pub read_file : ℕ → ℕ → Option (List Bytes) → ℤ → Option (List Sensor × ℤ)
read_file limit skip none old = some ([], old)
read_file limit skip (some lines) old = read_sensors limit skip lines old 0

-- `get_ipmi_sensors()`: the temperatures and the fans
unfoldable pub get_ipmi_sensors :
    Option (List Bytes) → Option (List Bytes) → Option (List Sensor × List Sensor)
get_ipmi_sensors temp_file fan_file = do
  (temps, value) ← read_file max_temps 0 temp_file (pos 0)
  (fans, last) ← read_file max_fans 3 fan_file value
  some (temps, fans)
