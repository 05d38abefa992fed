-- ===== src/Cpu/Wrap.antt =====
-- The percentages are right although the counters wrap around.
use breakin.Base.{
  ℕ, ◌+◌, ◌-◌, ◌%◌, ◌<◌, ◌≤◌, ◌≡◌, ◌⊎◌, inl, inr, true, false, Bool-cases, List, [], ◌∷◌, some, ltb,
  if◌then◌else◌, get_elem?, get_elem?-lt, set, length, length-set, arith, min, ◌∙◌, ap,
}
use breakin.Text.{Bytes, codes, starts_with}
use breakin.Cpu.{max_cpus, sub32, Cpu, Counters, scan_stat, sample, read_stat, get_cpu_usage}

-- The kernel's counters are numbers that only grow; what is seen of them is their value modulo 2 to
-- the 32.
abbrev pub seen : ℕ → ℕ
seen n = n % 4294967296

pub record Times : Type 0 where
  pub user : ℕ
  pub nice : ℕ
  pub sys : ℕ
  pub idle : ℕ

abbrev pub used : Times → ℕ
used t = t.user + t.nice + t.sys

abbrev pub observe : Times → Counters
observe t = record { user = seen t.user; nice = seen t.nice; sys = seen t.sys; idle = seen t.idle }

sub32_lem : (a b : ℕ) → a ≤ b → b < a + 4294967296 → sub32 (seen b) (seen a) ≡ b - a
sub32_lem a b h l = omega arith

seen_sum : (t : Times) → seen (seen t.user + seen t.nice + seen t.sys) ≡ seen (used t)
seen_sum t = omega arith

-- Two samples of counters that only grow, by less than 2 to the 32 ticks in all between them: the
-- second one stores exactly the ticks used and the ticks passed since the first, although the
-- counters wrap around.
pub sample-sample :
    (t t' : Times) (cpu : Cpu)
    → used t ≤ used t'
    → t.idle ≤ t'.idle
    → used t' + t'.idle < used t + t.idle + 4294967296
    → (sample (observe t') (sample (observe t) cpu)).percent
      ≡ record { used = used t' - used t; total = (used t' - used t) + (t'.idle - t.idle) }
unfolding sample
sample-sample t t' cpu u i l =
    let same : sub32 (seen (seen t'.user + seen t'.nice + seen t'.sys))
          (seen (seen t.user + seen t.nice + seen t.sys))
        ≡ used t' - used t =
      rw (seen_sum t', seen_sum t) (sub32_lem (used t) (used t') u (omega arith)) in
    rw (same, sub32_lem t.idle t'.idle i (omega arith))
      (ap (λ n. record { used = used t' - used t; total = n }) (omega arith))

-- how many lines start with "cpu"
abbrev pub cpu_lines : List Bytes → ℕ
cpu_lines [] = 0
cpu_lines (line ∷ lines) = (if starts_with (codes "cpu") line then 1 else 0) + cpu_lines lines

read_stat_skip :
    (line : Bytes) (lines : List Bytes) (count : ℕ) (c : Counters) (cpus : List Cpu)
    → (starts_with (codes "cpu") line ≡ false) ⊎ (ltb count max_cpus ≡ false)
    → read_stat (line ∷ lines) count c cpus ≡ read_stat lines count c cpus
unfolding read_stat
read_stat_skip line lines count c cpus h = ground arith

read_stat_store :
    (line : Bytes) (lines : List Bytes) (count : ℕ) (c : Counters) (cpus : List Cpu) (cpu : Cpu)
    → starts_with (codes "cpu") line ≡ true
    → ltb count max_cpus ≡ true
    → get_elem? cpus count ≡ some cpu
    → read_stat (line ∷ lines) count c cpus
      ≡ read_stat lines
          (count + 1)
          (scan_stat line c)
          (set cpus count (sample (scan_stat line c) cpu))
unfolding read_stat
read_stat_store line lines count c cpus cpu s l g = ground arith

read_stat-qty :
    (lines : List Bytes) (count : ℕ) (c : Counters) (cpus : List Cpu)
    → length cpus ≡ max_cpus
    → count ≤ max_cpus
    → (cpus' : List Cpu) × (read_stat lines count c cpus
        ≡ some (min max_cpus (count + cpu_lines lines), cpus'))
      × (length cpus' ≡ max_cpus)
unfolding read_stat
read_stat-qty [] count c cpus e h = (cpus, ap (λ n. some (n, cpus)) (omega arith), e)
read_stat-qty (line ∷ lines) count c cpus e h = elim (Bool-cases (starts_with (codes "cpu") line)) [
  | inr n ↦
      let (cpus', run, l) = read_stat-qty lines count c cpus e h in
      (
        cpus',
        read_stat_skip line lines count c cpus (inl n)
            ∙ rw n (run ∙ ap (λ q. some (q, cpus')) (omega arith)),
        l,
      )
  | inl y ↦ elim (Bool-cases (ltb count max_cpus)) [
    | inr n ↦
        let (cpus', run, l) = read_stat-qty lines count c cpus e h in
        (
          cpus',
          read_stat_skip line lines count c cpus (inr n)
              ∙ rw y (run ∙ ap (λ q. some (q, cpus')) (ground arith)),
          l,
        )
    | inl low ↦
        let (cpu, g) = get_elem?-lt cpus count (ground arith) in
        let (cpus', run, l) =
          read_stat-qty lines (count + 1) (scan_stat line c)
            (set cpus count (sample (scan_stat line c) cpu)) (length-set cpus count _ ∙ e)
            (ground arith) in
        (
          cpus',
          read_stat_store line lines count c cpus cpu y low g
              ∙ rw y (run ∙ ap (λ q. some (q, cpus')) (ground arith)),
          l,
        )
  ]
]

-- Whatever lines the file has, a table of 16 entries is never left: `cpu_qty` becomes the number
-- of lines that start with "cpu", but 16 at most.
pub get_cpu_usage-qty :
    (lines : List Bytes) (c : Counters) (qty : ℕ) (cpus : List Cpu)
    → length cpus ≡ max_cpus
    → (cpus' : List Cpu) × (get_cpu_usage (some lines) c (qty, cpus)
        ≡ some (min max_cpus (cpu_lines lines), cpus'))
      × (length cpus' ≡ max_cpus)
unfolding get_cpu_usage
get_cpu_usage-qty lines c qty cpus e =
    let (cpus', run, l) = read_stat-qty lines 0 c cpus e (omega arith) in
    (cpus', run ∙ ap (λ q. some (q, cpus')) (omega arith), l)
