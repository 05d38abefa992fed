-- ===== src/Cpu.antt =====
-- `get_cpu_usage` of breakin.c. The counters are of type `unsigned int`, so all arithmetic is modulo
-- 2 to the 32. The percentage, a double, is kept as the fraction that it is computed from.
pub mod Wrap
pub mod Info
pub mod Describe
mod Examples
use breakin.Base.{
  ℕ, zero, suc, ◌+◌, ◌-◌, ◌%◌, Bool, true, false, List, [], ◌∷◌, Option, none, some, ltb,
  if◌then◌else◌, ◌>>=◌, get_elem?, set,
}
use breakin.Text.{Bytes, codes, starts_with}
use breakin.Number.{is_digit, skip_white, take_digits, take_word}

abbrev pub max_cpus : ℕ
max_cpus = 16

-- a difference of two `unsigned int`
abbrev pub sub32 : ℕ → ℕ → ℕ
sub32 a b = (a + 4294967296 - b) % 4294967296

-- `((double) used / total) * 100`
pub record Fraction : Type 0 where
  pub used : ℕ
  pub total : ℕ

-- struct cpu_usage_t
pub record Cpu : Type 0 where
  pub cpu_idle : ℕ
  pub cpu_usage : ℕ
  pub last_idle : ℕ
  pub last_usage : ℕ
  pub percent : Fraction

-- the four locals that sscanf fills
pub record Counters : Type 0 where
  pub user : ℕ
  pub nice : ℕ
  pub sys : ℕ
  pub idle : ℕ

-- `%d` into an `unsigned int`: the value and the rest, or `none` if there is no number. /proc/stat has
-- no signs.
abbrev starts_digit : Bytes → Bool
starts_digit [] = false
starts_digit (c ∷ s) = is_digit c

unfoldable pub scan_counter : Bytes → Option (ℕ × Bytes)
scan_counter s =
    let (n, rest) = take_digits 0 (skip_white s) in
    if starts_digit (skip_white s) then some (n % 4294967296, rest) else none

-- the four numbers of a line, as far as there are any; the others keep their values
unfoldable pub scan_numbers : Bytes → Counters → Counters
scan_numbers s0 old = elim (scan_counter s0) [
  | none ↦ old
  | some (user, s1) ↦ elim (scan_counter s1) [
    | none ↦ record old { user = user }
    | some (nice, s2) ↦ elim (scan_counter s2) [
      | none ↦ record old { user = user; nice = nice }
      | some (sys, s3) ↦ elim (scan_counter s3) [
        | none ↦ record old { user = user; nice = nice; sys = sys }
        | some (idle, s4) ↦ record { user = user; nice = nice; sys = sys; idle = idle }
      ]
    ]
  ]
]

-- `sscanf(buf, "%s %d %d %d %d", …)`
unfoldable pub scan_stat : Bytes → Counters → Counters
scan_stat line old = scan_numbers (take_word (skip_white line)).1 old

-- the entry after a sample
pub sample : Counters → Cpu → Cpu
sample c cpu =
    let usage : ℕ = (c.user + c.nice + c.sys) % 4294967296 in
    let time_idle : ℕ = sub32 c.idle cpu.last_idle in
    let time_used : ℕ = sub32 usage cpu.last_usage in
    record {
      cpu_idle = c.idle;
      cpu_usage = usage;
      last_idle = c.idle;
      last_usage = usage;
      percent = record { used = time_used; total = (time_idle + time_used) % 4294967296 };
    }

-- the loop over the lines, with `cpu_count`, the locals and the table; `none` is an access outside
-- the table
pub read_stat : List Bytes → ℕ → Counters → List Cpu → Option (ℕ × List Cpu)
read_stat [] count c cpus = some (count, cpus)
read_stat (line ∷ lines) count c cpus = elim (starts_with (codes "cpu") line) [
  | false ↦ read_stat lines count c cpus
  | true ↦ elim (ltb count max_cpus) [
    | false ↦ read_stat lines count c cpus
    | true ↦ get_elem? cpus count >>= λ cpu.
        read_stat lines (count + 1) (scan_stat line c)
          (set cpus count (sample (scan_stat line c) cpu))
  ]
]

-- `get_cpu_usage()`, with `cpu_qty`; `c` is what the locals hold at the start
unfoldable pub get_cpu_usage : Option (List Bytes) → Counters → ℕ × List Cpu → Option (ℕ × List Cpu)
get_cpu_usage none c old = some old
get_cpu_usage (some lines) c (qty, cpus) = read_stat lines 0 c cpus
