-- ===== src/DiskBench/Exits.antt =====
-- What `bench_disk` returns and what it leaves behind, on each of its exits.
use breakin.Base.{
  ℕ, ◌≤◌, ◌≡◌, ◌≢◌, refl, inl, inr, Bool, true, false, ◌&&◌, Bool-cases, List, Option, none, some,
  length, arith, if◌then◌else◌,
}
use breakin.Number.{ℤ}
use breakin.DiskBench.{
  max_iterations, LoopEnd, finished, quit, waiting, Round, bench_loop, Held, DiskEnv,
  segments_after, Result, one, quotient, no_end, close_down, after_loop, bench_disk,
}
use breakin.DiskBench.Rounds.{Ended, late, full, broken, bench_loop-Ended}

-- The calls before the timing all succeed.
abbrev pub reached : DiskEnv → Bool
reached e = e.open_ok && (e.shmget_ok && (e.lock_ok && e.attach_ok))

-- On the early exits the device stays open; on the others it is closed, and the memory is gone if the
-- kernel lets go of it.
abbrev pub held_after : DiskEnv → Held
held_after e =
    if reached e
    then record {
      files = 0;
      segments = segments_after e;
      attached = if e.shmdt_ok then false else true;
    }
    else record {
      files = if e.open_ok then 1 else 0;
      segments = if e.open_ok && e.shmget_ok then segments_after e else 0;
      attached = false;
    }

abbrev pub result_of : LoopEnd → Result
result_of (finished total_mb elapsed) = quotient (some total_mb) (some elapsed)
result_of (quit elapsed messages) = quotient none elapsed
result_of waiting = no_end

abbrev pub timed : DiskEnv → LoopEnd
timed e = bench_loop e.timer e.rounds 0 none

Ended-ne : (e1 n : ℕ) (el : Option ℤ) (rounds : List Round) → Ended e1 n el rounds waiting → ⊥
Ended-ne e1 n el rounds (quick, r, rest, split, all, few, late w o e) = cc
Ended-ne e1 n el rounds (quick, r, rest, split, all, few, full w o e) = cc
Ended-ne e1 n el rounds (quick, r, rest, split, all, few, broken m b e) = cc

-- With the timing done.
bench_disk-reached :
    (e : DiskEnv) (res : LoopEnd)
    → reached e ≡ true
    → timed e ≡ res
    → res ≢ waiting
    → ((bench_disk e).result ≡ result_of res) × ((bench_disk e).held ≡ held_after e)
unfolding bench_disk after_loop close_down
bench_disk-reached e (finished total_mb elapsed) go t w = ground arith
bench_disk-reached e (quit elapsed messages) go t w = ground arith
bench_disk-reached e waiting go t w = absurd (w refl)

bench_disk_early :
    (e : DiskEnv)
    → reached e ≡ false
    → ((bench_disk e).result ≡ one) × ((bench_disk e).held ≡ held_after e)
unfolding bench_disk
bench_disk_early e stop = ground arith

-- If the kernel answers to 1024 reads: `bench_disk` returns; what it holds then is as written in
-- `held_after`; it returns 1 if open, shmget, the lock of the memory or its attachment fails, and
-- otherwise (also if the memory cannot be marked for removal) the amount by the time that the timing loop
-- ended with, either of which may be unset.
pub bench_disk_lem :
    (e : DiskEnv)
    → max_iterations ≤ length e.rounds
    → ((bench_disk e).held ≡ held_after e)
      × (reached e ≡ false → (bench_disk e).result ≡ one)
      × (reached e ≡ true
          → ((bench_disk e).result ≡ result_of (timed e)) × Ended e.timer 0 none e.rounds (timed e))
bench_disk_lem e many =
    let end = bench_loop-Ended e.rounds e.timer 0 none (omega arith) (omega arith) in
    let ended : timed e ≢ waiting = λ w. Ended-ne e.timer 0 none e.rounds (rw w at end) in
    elim (Bool-cases (reached e)) [
      | inl go ↦
          let (r, h) = bench_disk-reached e (timed e) go refl ended in
          (h, (λ f. absurd (cc)), (λ _. (r, end)))
      | inr stop ↦ let (r, h) = bench_disk_early e stop in (h, (λ _. r), (λ f. absurd (cc)))
    ]
