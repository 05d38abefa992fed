-- ===== src/DiskBench/Examples.antt =====
-- The theorem of the disk benchmark, applied to a device that fails after one good read.
use breakin.Base.{ℕ, zero, suc, ◌≤◌, ◌≡◌, refl, true, false, List, [], ◌∷◌, none, length, arith}
use breakin.DiskBench.{
  max_iterations, timing_buf_bytes, count, failed, Round, DiskEnv, one, bench_disk,
}
use breakin.DiskBench.Rounds.{Ended}
use breakin.DiskBench.Exits.{reached, held_after, result_of, timed, bench_disk_lem}

abbrev copies : ℕ → List Round
copies zero = []
copies (suc n) = record { read = failed; timer = 0 } ∷ copies n

length-copies : (n : ℕ) → length (copies n) ≡ n
length-copies zero = refl
length-copies (suc n) = omega (arith, length-copies n)

many_rounds : List Round
many_rounds = record { read = count timing_buf_bytes; timer = 900 } ∷ copies max_iterations

many_rounds_lem : max_iterations ≤ length many_rounds
unfolding many_rounds
many_rounds_lem = omega (arith, length-copies max_iterations)

abbrev disk : DiskEnv
disk = record {
  open_ok = true;
  shmget_ok = true;
  lock_ok = true;
  attach_ok = true;
  rmid_ok = true;
  shmdt_ok = true;
  flush_ok = true;
  timer = 1000;
  rounds = many_rounds;
}

bench_disk_lem_example :
    ((bench_disk disk).held ≡ held_after disk)
    × (reached disk ≡ false → (bench_disk disk).result ≡ one)
    × (reached disk ≡ true
        → ((bench_disk disk).result ≡ result_of (timed disk))
          × Ended 1000 0 none many_rounds (timed disk))
bench_disk_lem_example = bench_disk_lem disk many_rounds_lem
