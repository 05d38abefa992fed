-- ===== src/Hpl/Size.antt =====
-- hpl_calc_n.c: the size of the matrix for a machine with so many kB of memory. Two steps are taken on
-- doubles: the product with .94, and the square root of an eighth; they are parameters.
use breakin.Base.{ℕ, ◌+◌, ◌-◌, ◌*◌, ◌/◌, ◌%◌, ◌<◌, ◌≤◌, ◌≡◌, arith}
use native.Mathlib.Nat.{div-mul-le_self, mul-le-mul, mul-mod_left}

-- MEM_RESERVE, in kB
abbrev pub mem_reserve : ℕ
mem_reserve = 786432

-- `ram - MEM_RESERVE` and `ram * 1024` of an `unsigned long long`
abbrev pub sub64 : ℕ → ℕ → ℕ
sub64 a b = (a + 18446744073709551616 - b) % 18446744073709551616

abbrev pub mul64 : ℕ → ℕ → ℕ
mul64 a b = a * b % 18446744073709551616

bound :
    (n r s m k : ℕ)
    → n * n ≤ r * r
    → 8 * (r * r) ≤ s
    → s * 100 ≤ m * 94
    → m ≡ k
    → 8 * (n * n) * 100 ≤ k * 94
bound n r s m k square small part exact = grind arith

-- `ram * MEM_PERCENT`, and `(long int) sqrtl((long double) ram / 8)`
module _ (share root : ℕ → ℕ) where
  -- `main`, up to what it prints
  unfoldable pub hpl_calc_n : ℕ → ℕ
  hpl_calc_n ram = root (share (mul64 (sub64 ram mem_reserve) 1024)) / 192 * 192

  -- For a machine with more memory than the reserve and less than 64 TB, if for values below 2 to the 46
  -- the product with .94 is at most 94 percent and the root is rounded down: the size is a multiple of
  -- 192, and a square matrix of this size with 8 bytes to an element fits into 94 percent of the memory
  -- behind the reserve.
  pub hpl_calc_n_lem :
      (ram : ℕ)
      → ((m : ℕ) → m < 70368744177664 → share m * 100 ≤ m * 94)
      → ((m : ℕ) → m < 70368744177664 → 8 * (root m * root m) ≤ m)
      → mem_reserve ≤ ram
      → ram < 68719476736
      → (hpl_calc_n ram % 192 ≡ 0)
        × (8 * (hpl_calc_n ram * hpl_calc_n ram) * 100 ≤ (ram - mem_reserve) * 1024 * 94)
  unfolding hpl_calc_n
  hpl_calc_n_lem ram ninety down above below =
      let m : ℕ = mul64 (sub64 ram mem_reserve) 1024 in
      let exact : m ≡ (ram - mem_reserve) * 1024 = omega arith in
      let r : ℕ = root (share m) in
      let part : share m * 100 ≤ m * 94 = ninety m (omega arith) in
      let small : 8 * (r * r) ≤ share m = down (share m) (omega (arith, part)) in
      let fits : r / 192 * 192 ≤ r = div-mul-le_self r 192 in
      let square : r / 192 * 192 * (r / 192 * 192) ≤ r * r = mul-le-mul fits fits in
      (mul-mod_left (r / 192) 192, bound (r / 192 * 192) r (share m) m _ square small part exact)
