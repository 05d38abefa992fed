-- ===== src/DiskBench/Rounds.antt =====
-- Where the timing loop stops, and with what.
use breakin.Base.{
  ℕ, suc, ◌+◌, ◌*◌, ◌<◌, ◌≤◌, ◌≡◌, ◌≢◌, refl, ap, ◌∙◌, inl, inr, ◌⊎◌, true, false, ◌&&◌, Bool-cases,
  List, [], ◌∷◌, ◌++◌, Option, some, ltb, length, All, arith,
}
use breakin.Text.{Bytes}
use breakin.Number.{ℤ, sub_ℕ, ltb_ℤ}
use breakin.DiskBench.{
  timing_buf_bytes, timing_buf_mb, max_iterations, Read, count, failed, read_big_block, Round,
  LoopEnd, finished, quit, bench_loop,
}

abbrev pub elapsed : ℕ → Round → ℤ
elapsed e1 r = sub_ℕ e1 r.timer

-- A block was read, and three seconds are not over.
pub record IsQuick (e1 : ℕ) (r : Round) : Type 0 where
  pub whole : r.read ≡ count timing_buf_bytes
  pub early : ltb_ℤ (elapsed e1 r) 3000000 ≡ true

-- the time measured last, or none
abbrev pub last_elapsed : ℕ → Option ℤ → List Round → Option ℤ
last_elapsed e1 old [] = old
last_elapsed e1 old (r ∷ rs) = last_elapsed e1 (some (elapsed e1 r)) rs

-- How the loop ends in the round `r`, which is the `n`-th.
pub data Ending (e1 n : ℕ) (before : Option ℤ) (r : Round) (res : LoopEnd) : Type 0 where
  late :
      r.read ≡ count timing_buf_bytes
      → ltb_ℤ (elapsed e1 r) 3000000 ≡ false
      → res ≡ finished (n * timing_buf_mb) (elapsed e1 r)
      → Ending e1 n before r res
  full :
      r.read ≡ count timing_buf_bytes
      → n ≡ max_iterations
      → res ≡ finished (n * timing_buf_mb) (elapsed e1 r)
      → Ending e1 n before r res
  broken :
      (messages : List Bytes)
      → r.read ≢ count timing_buf_bytes
      → res ≡ quit before messages
      → Ending e1 n before r res

read_big_block_lem :
    (rc : Read)
    → (((read_big_block rc).0 ≡ false) × (rc ≡ count timing_buf_bytes))
      ⊎ (((read_big_block rc).0 ≡ true) × (rc ≢ count timing_buf_bytes))
unfolding read_big_block
read_big_block_lem failed = inr (refl, λ e. cc)
read_big_block_lem (count n) = ground arith

bench_loop_broken :
    (e1 : ℕ) (r : Round) (rounds : List Round) (n : ℕ) (el : Option ℤ)
    → (read_big_block r.read).0 ≡ true
    → bench_loop e1 (r ∷ rounds) n el ≡ quit el (read_big_block r.read).1
unfolding bench_loop
bench_loop_broken e1 r rounds n el b = ground arith

bench_loop_finished :
    (e1 : ℕ) (r : Round) (rounds : List Round) (n : ℕ) (el : Option ℤ)
    → (read_big_block r.read).0 ≡ false
    → (ltb_ℤ (elapsed e1 r) 3000000 && ltb (suc n) max_iterations) ≡ false
    → bench_loop e1 (r ∷ rounds) n el ≡ finished (suc n * timing_buf_mb) (elapsed e1 r)
unfolding bench_loop
bench_loop_finished e1 r rounds n el b t = rw (b, bench_loop) (rw (t, bench_loop) refl)

bench_loop_more :
    (e1 : ℕ) (r : Round) (rounds : List Round) (n : ℕ) (el : Option ℤ)
    → (read_big_block r.read).0 ≡ false
    → (ltb_ℤ (elapsed e1 r) 3000000 && ltb (suc n) max_iterations) ≡ true
    → bench_loop e1 (r ∷ rounds) n el ≡ bench_loop e1 rounds (suc n) (some (elapsed e1 r))
unfolding bench_loop
bench_loop_more e1 r rounds n el b t = rw (b, bench_loop) (rw (t, bench_loop) refl)

-- From round `n` on.
abbrev pub Ended : ℕ → ℕ → Option ℤ → List Round → LoopEnd → Type 0
Ended e1 n el rounds res =
    (quick : List Round) × (r : Round) × (rest : List Round) × (rounds ≡ quick ++ r ∷ rest)
    × All (IsQuick e1) quick
    × (n + length quick < max_iterations)
    × Ending e1 (suc (n + length quick)) (last_elapsed e1 el quick) r res

Ended-cons :
    (e1 n : ℕ) (el : Option ℤ) (r : Round) (rounds : List Round) (res : LoopEnd)
    → IsQuick e1 r
    → Ended e1 (suc n) (some (elapsed e1 r)) rounds res
    → Ended e1 n el (r ∷ rounds) res
Ended-cons e1 n el r rounds res q (quick, r', rest, split, all, few, end) =
    let count : suc n + length quick ≡ n + suc (length quick) = omega arith in
    (r ∷ quick, r', rest, ap (◌∷◌ r) split, (q, all), omega arith, rw count at end)

-- With at least 1024 rounds to answer for, the loop ends: all rounds before the last one read a whole
-- block within three seconds, and the last one either reads one after three seconds or as the 1024th,
-- and the loop gives 2 MB for each round with the time of the last, or it does not read one, and no
-- amount is given, with the time of the round before it, if any.
pub bench_loop-Ended :
    (rounds : List Round) (e1 n : ℕ) (el : Option ℤ)
    → n < max_iterations
    → max_iterations ≤ n + length rounds
    → Ended e1 n el rounds (bench_loop e1 rounds n el)
bench_loop-Ended [] e1 n el lt many = absurd (omega arith)
bench_loop-Ended (r ∷ rounds) e1 n el lt many = elim (read_big_block_lem r.read) [
  | inr (b, bad) ↦
      ([], r, rounds, refl, tt, omega arith, broken _ bad (bench_loop_broken e1 r rounds n el b))
  | inl (b, whole) ↦ elim (Bool-cases (ltb_ℤ (elapsed e1 r) 3000000)) [
    | inr over ↦ (
      [],
      r,
      rounds,
      refl,
      tt,
      omega arith,
      late whole over (bench_loop_finished e1 r rounds n el b (rw over refl) ∙ same_round n _),
    )
    | inl early ↦ elim (Bool-cases (ltb (suc n) max_iterations)) [
      | inr last ↦ (
        [],
        r,
        rounds,
        refl,
        tt,
        omega arith,
        full whole (ground arith)
            (bench_loop_finished e1 r rounds n el b (rw (early, last) refl) ∙ same_round n _),
      )
      | inl more ↦ rw (bench_loop_more e1 r rounds n el b (rw (early, more) refl)) (
          Ended-cons e1 n el r rounds _ (record { whole = whole; early = early })
            (bench_loop-Ended rounds e1 (suc n) (some (elapsed e1 r)) (ground arith) (omega arith)))
    ]
  ]
]
  where
    same_round :
        (k : ℕ) (t : ℤ)
        → finished (suc k * timing_buf_mb) t ≡ finished (suc (k + 0) * timing_buf_mb) t
    same_round k t = ap (λ i. finished (suc i * timing_buf_mb) t) (omega arith)
