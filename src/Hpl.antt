-- ===== src/Hpl.antt =====
-- hpl_calc_pq.c: the process grid of the HPL benchmark for a number of cores. `ceil(sqrt(cores))`
-- is exact for the values of an `int`, and is the least number whose square reaches `cores`. The
-- argument is taken to be a number that is not negative; `none` is the division by zero.
pub mod Square
pub mod Size
mod Examples
use breakin.Base.{
  ℕ, zero, suc, ◌+◌, ◌*◌, ◌/◌, ◌%◌, true, false, List, [], ◌∷◌, ◌++◌, Option, none, some, ◌==◌, leb,
  ltb, if◌then◌else◌,
}
use breakin.Text.{Bytes, codes, decimal}

-- the least root from `p` on; the fuel bounds the search
pub root_from : ℕ → ℕ → ℕ → ℕ
root_from zero n p = p
root_from (suc fuel) n p = elim (leb n (p * p)) [ true ↦ p | false ↦ root_from fuel n (p + 1) ]

pub ceil_sqrt : ℕ → ℕ
ceil_sqrt n = root_from n n 0

-- `for (p = ceil(sqrt(cores)); p > 1; --p) { if (cores % p == 0) break; }`
pub search_p : ℕ → ℕ → ℕ
search_p cores zero = 0
search_p cores (suc zero) = 1
search_p cores (suc (suc k)) = elim (cores % suc (suc k) == 0) [
  | true ↦ suc (suc k)
  | false ↦ search_p cores (suc k)
]

-- the two numbers that are printed as Ps and Qs
pub record Grid : Type 0 where
  pub ps : ℕ
  pub qs : ℕ

abbrev order_grid : ℕ → ℕ → Grid
order_grid p q = if ltb q p then record { ps = q; qs = p } else record { ps = p; qs = q }

-- `q = cores / p;` and the choice behind it
pub divide_cores : ℕ → ℕ → Option Grid
divide_cores cores zero = none
divide_cores cores (suc k) = some (order_grid (suc k) (cores / suc k))

pub calc_pq : ℕ → Option Grid
unfolding divide_cores
calc_pq cores = divide_cores cores (search_p cores (ceil_sqrt cores))

-- the two lines of output
unfoldable pub print_grid : Grid → Bytes
print_grid g =
    decimal g.ps ++ (codes "            Ps\n" ++ (decimal g.qs ++ codes "            Qs\n"))
