-- ===== src/Hpl/Examples.antt =====
-- The theorem of the HPL problem size, applied to a machine with 1 GB.
use breakin.Base.{ℕ, zero, suc, ◌*◌, ◌/◌, ◌%◌, ◌≤◌, ◌≡◌, leb, if◌then◌else◌, arith}
use breakin.Hpl.Size.{hpl_calc_n, hpl_calc_n_lem}

-- the product with .94 and the root, rounded down
abbrev share_of : ℕ → ℕ
share_of m = m * 94 / 100

root_from : ℕ → ℕ → ℕ
root_from zero m = zero
root_from (suc k) m =
    let less = root_from k m in if leb (8 * (suc k * suc k)) m then suc k else less

root_of : ℕ → ℕ
root_of m = root_from m m

root_from_le : (k m : ℕ) → 8 * (root_from k m * root_from k m) ≤ m
unfolding root_from
root_from_le zero m = omega arith
root_from_le (suc k) m = let less = root_from_le k m in ground arith

root_of_le : (m : ℕ) → 8 * (root_of m * root_of m) ≤ m
unfolding root_of
root_of_le m = root_from_le m m

hpl_calc_n_lem_example :
    (hpl_calc_n share_of root_of 1048576 % 192 ≡ 0)
    × (8 * (hpl_calc_n share_of root_of 1048576 * hpl_calc_n share_of root_of 1048576) * 100
        ≤ 262144 * 1024 * 94)
hpl_calc_n_lem_example =
    hpl_calc_n_lem share_of root_of 1048576 (λ m small. omega arith) (λ m small. root_of_le m)
      (omega arith) (omega arith)
