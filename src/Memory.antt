-- ===== src/Memory.antt =====
-- `get_mem_usage` of breakin.c. The file is the lines that fgets reads of it. The percentages, doubles,
-- are kept as the fractions that they are computed from.
pub mod Exact
mod Examples
use breakin.Base.{ℕ, Bool, true, false, List, [], ◌∷◌, Option, none, some, ltb, if◌then◌else◌}
use breakin.Text.{Bytes, codes, starts_with}
use breakin.Number.{ℤ, is_digit, skip_white, take_digits, take_word, sub_ℕ}

-- `((double) used / total) * 100`
pub record Percent : Type 0 where
  pub used : ℤ
  pub total : ℕ

-- struct mem_info_t
pub record MemInfo : Type 0 where
  pub mem_total : ℕ
  pub mem_free : ℕ
  pub mem_percent : Percent
  pub swap_total : ℕ
  pub swap_free : ℕ
  pub swap_percent : Percent

abbrev starts_digit : Bytes → Bool
starts_digit [] = false
starts_digit (c ∷ s) = is_digit c

-- The value of a `long int` that `%ld` reads: the C library stops at the largest one.
abbrev pub long_max : ℕ
long_max = 9223372036854775807

unfoldable pub long_of : ℕ → ℕ
long_of n = if ltb long_max n then long_max else n

-- `sscanf(buf, "%*s %ld %*s", &field)`, for a file without signs: without a number the field keeps its
-- value
unfoldable pub scan_amount : Bytes → ℕ → ℕ
scan_amount line old =
    let amount : Bytes = skip_white (take_word (skip_white line)).1 in
    if starts_digit amount then long_of (take_digits 0 amount).0 else old

-- the body of the loop
unfoldable pub mem_line : Bytes → MemInfo → MemInfo
mem_line line m =
    if starts_with (codes "MemTotal") line
    then record m { mem_total = scan_amount line m.mem_total }
    else if starts_with (codes "MemFree") line
    then record m { mem_free = scan_amount line m.mem_free }
    else if starts_with (codes "SwapTotal") line
    then record m { swap_total = scan_amount line m.swap_total }
    else if starts_with (codes "SwapFree") line
    then record m { swap_free = scan_amount line m.swap_free }
    else m

unfoldable pub mem_lines : List Bytes → MemInfo → MemInfo
mem_lines [] m = m
mem_lines (line ∷ lines) m = mem_lines lines (mem_line line m)

-- behind the loop
unfoldable pub percentages : MemInfo → MemInfo
percentages m = record m {
  mem_percent = record { used = sub_ℕ m.mem_total m.mem_free; total = m.mem_total };
  swap_percent = record { used = sub_ℕ m.swap_total m.swap_free; total = m.swap_total };
}

-- `get_mem_usage()`
unfoldable pub get_mem_usage : Option (List Bytes) → MemInfo → MemInfo
get_mem_usage none m = m
get_mem_usage (some lines) m = percentages (mem_lines lines m)
