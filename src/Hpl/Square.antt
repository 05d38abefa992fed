-- ===== src/Hpl/Square.antt =====
-- The grid has one place for each core, is at least as wide as high, and is as square as can be.
use native.Mathlib.Nat.{mul-mod_right, div-add-mod, mul_comm}
use native.Mathlib.Decide.{dec_lt}
use breakin.Base.{
  ℕ, zero, suc, ◌+◌, ◌-◌, ◌*◌, ◌/◌, ◌%◌, ◌≤◌, ◌<◌, ◌≡◌, refl, ◌∙◌, inl, inr, true, false, some,
  arith, ◌==◌, leb, ltb, Bool-cases, ==_iff,
}
use breakin.Hpl.{root_from, ceil_sqrt, search_p, Grid, divide_cores, calc_pq}

-- `r` is the least number whose square reaches `n`.
pub record IsRoot (n r : ℕ) : Type 0 where
  pub reaches : n ≤ r * r
  pub least : (k : ℕ) → k < r → k * k < n

below_square : (n p : ℕ) → n ≤ p → n ≤ p * p
below_square n zero h = omega arith
below_square n (suc p) h = grind arith

root_from_stop : (fuel n p : ℕ) → leb n (p * p) ≡ true → root_from (suc fuel) n p ≡ p
unfolding root_from
root_from_stop fuel n p h = ground arith

root_from_go :
    (fuel n p : ℕ) → leb n (p * p) ≡ false → root_from (suc fuel) n p ≡ root_from fuel n (p + 1)
unfolding root_from
root_from_go fuel n p h = ground arith

root_from-IsRoot :
    (fuel n p : ℕ) → n ≤ p + fuel → ((k : ℕ) → k < p → k * k < n) → IsRoot n (root_from fuel n p)
root_from-IsRoot zero n p h below =
    unfold root_from in record { reaches = below_square n p (omega arith); least = below }
root_from-IsRoot (suc fuel) n p h below = elim (Bool-cases (leb n (p * p))) [
  | inl y ↦ rw (root_from_stop fuel n p y) (record { reaches = ground arith; least = below })
  | inr more ↦
      rw (root_from_go fuel n p more)
        (root_from-IsRoot fuel n (p + 1) (omega arith) (λ k l. extend k l (ground arith)))
]
  where
    extend : (k : ℕ) → k < p + 1 → p * p < n → k * k < n
    extend k l over = elim (dec_lt k p) [
      | yes low ↦ below k low
      | no high ↦ let e : k ≡ p = omega arith in rw e over
    ]

pub ceil_sqrt-IsRoot : (n : ℕ) → IsRoot n (ceil_sqrt n)
unfolding ceil_sqrt
ceil_sqrt-IsRoot n = root_from-IsRoot n n 0 (omega arith) (λ k h. absurd (omega arith))

record IsLargest (cores r p : ℕ) : Type 0 where
  divides : cores % p ≡ 0
  within : p ≤ r
  largest : (d : ℕ) → 0 < d → d ≤ r → cores % d ≡ 0 → d ≤ p
  pos : 0 < p

search_p_hit :
    (cores k : ℕ) → (cores % suc (suc k) == 0) ≡ true → search_p cores (suc (suc k)) ≡ suc (suc k)
unfolding search_p
search_p_hit cores k h = ground arith

search_p_miss :
    (cores k : ℕ)
    → (cores % suc (suc k) == 0) ≡ false
    → search_p cores (suc (suc k)) ≡ search_p cores (suc k)
unfolding search_p
search_p_miss cores k h = ground arith

search_p-IsLargest : (cores r : ℕ) → 0 < r → IsLargest cores r (search_p cores r)
search_p-IsLargest cores zero h = absurd (omega arith)
search_p-IsLargest cores (suc zero) h =
    unfold search_p in
    record {
      divides = omega arith;
      within = omega arith;
      largest = λ d p l e. l;
      pos = omega arith;
    }
search_p-IsLargest cores (suc (suc k)) h = elim (Bool-cases (cores % suc (suc k) == 0)) [
  | inl y ↦ rw (search_p_hit cores k y) (record {
    divides = (==_iff _ 0).0 y;
    within = omega arith;
    largest = λ d p l e. l;
    pos = omega arith;
  })
  | inr n ↦
      let ih = search_p-IsLargest cores (suc k) (omega arith) in
      rw (search_p_miss cores k n) (record {
        divides = ih.divides;
        within = omega (arith, ih.within);
        largest = λ d p l e. ih.largest d p (smaller d l e n) e;
        pos = ih.pos;
      })
]
  where
    smaller :
        (d : ℕ) → d ≤ suc (suc k) → cores % d ≡ 0 → (cores % suc (suc k) == 0) ≡ false → d ≤ suc k
    smaller d l e n = elim (dec_lt d (suc (suc k))) [
      | yes low ↦ omega arith
      | no high ↦ let same : d ≡ suc (suc k) = omega arith in absurd (ground (arith, rw same at e))
    ]

-- What is printed for `cores`: a factorisation with Ps at most Qs, whose Ps no other factorisation
-- of that kind exceeds.
pub record IsSquarest (cores : ℕ) (g : Grid) : Type 0 where
  pub product : g.ps * g.qs ≡ cores
  pub wide : g.ps ≤ g.qs
  pub squarest : (a b : ℕ) → a * b ≡ cores → a ≤ b → a ≤ g.ps

-- `q = cores / p`, for a divisor.
divides-product : (cores p : ℕ) → cores % p ≡ 0 → p * (cores / p) ≡ cores
divides-product cores p h = omega (arith, div-add-mod cores p)

mul_mono : (x y z w : ℕ) → x ≤ y → z ≤ w → x * z ≤ y * w
mul_mono x y z w h k = grind arith

squarest_below :
    (cores r p : ℕ)
    → 0 < cores
    → IsRoot cores r
    → IsLargest cores r p
    → (a b : ℕ) → a * b ≡ cores
    → a ≤ b
    → a ≤ p
squarest_below cores r p pos root l a b e h =
    l.largest a (positive a e) within (rw (← e) (mul-mod_right a b))
  where
    positive : (a : ℕ) → a * b ≡ cores → 0 < a
    positive zero e = absurd (omega arith)
    positive (suc a) e = omega arith

    within : a ≤ r
    within = elim (dec_lt r a) [
      | yes over ↦
          absurd (omega (arith, mul_mono (suc r) a (suc r) b over (omega arith), root.reaches))
      | no fits ↦ omega arith
    ]

squarest_above :
    (cores r p q : ℕ)
    → 0 < cores
    → IsRoot cores r
    → IsLargest cores r p
    → p * q ≡ cores
    → q < p
    → (a b : ℕ) → a * b ≡ cores
    → a ≤ b
    → a ≤ q
squarest_above cores r p q pos root l e lt a b f h = elim (dec_lt q a) [
  | no fits ↦ omega arith
  | yes over ↦ elim (dec_lt b p) [
    | yes low ↦ absurd (
        omega (
          arith,
          mul_mono a (p - 1) b (p - 1) (omega arith) (omega arith),
          root.least (p - 1) (omega (arith, l.within, l.pos)),
        ))
    | no high ↦
        absurd (omega (arith, mul_mono (suc q) a p b over (omega arith), mul_comm p q, l.pos))
  ]
]

-- For any positive number of cores the program prints two numbers, Ps at most Qs, whose product is
-- the number of cores and whose Ps no other such pair exceeds.
pub calc_pq-IsSquarest :
    (cores : ℕ) → 0 < cores → (g : Grid) × (calc_pq cores ≡ some g) × IsSquarest cores g
unfolding calc_pq
calc_pq-IsSquarest cores pos =
    let root = ceil_sqrt-IsRoot cores in
    finish (search_p cores (ceil_sqrt cores)) root
      (search_p-IsLargest cores (ceil_sqrt cores) (root_pos (ceil_sqrt cores) root.reaches))
  where
    root_pos : (r : ℕ) → cores ≤ r * r → 0 < r
    root_pos zero h = absurd (omega arith)
    root_pos (suc r) h = omega arith

    finish :
        (p : ℕ)
        → IsRoot cores (ceil_sqrt cores)
        → IsLargest cores (ceil_sqrt cores) p
        → (g : Grid) × (divide_cores cores p ≡ some g) × IsSquarest cores g
    finish zero root l = absurd (omega arith)
    finish (suc k) root l = elim (Bool-cases (ltb (cores / suc k) (suc k))) [
      | inl y ↦ (
        record { ps = cores / suc k; qs = suc k },
        rw y refl,
        record {
          product = mul_comm (cores / suc k) (suc k) ∙ divides-product cores (suc k) l.divides;
          wide = ground arith;
          squarest =
              squarest_above cores _ (suc k) (cores / suc k) pos root l
                (divides-product cores (suc k) l.divides) (ground arith);
        },
      )
      | inr n ↦ (
        record { ps = suc k; qs = cores / suc k },
        rw n refl,
        record {
          product = divides-product cores (suc k) l.divides;
          wide = ground arith;
          squarest = squarest_below cores _ (suc k) pos root l;
        },
      )
    ]
