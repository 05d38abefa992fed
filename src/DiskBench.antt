-- ===== src/DiskBench.antt =====
-- `bench_disk` of bench_disk.c: a device is read in blocks of 2 MB for 3 seconds, or 1024 times. What
-- the kernel answers is an argument. Times are in microseconds, where the source has a double of
-- seconds; the rate that is returned is kept as its two parts. A variable that has no value yet is
-- `none`. The message texts are those of perror without errno's part.
pub mod Rounds
pub mod Exits
mod Examples
use breakin.Base.{
  ℕ, zero, suc, ◌+◌, ◌-◌, ◌*◌, Bool, true, false, ◌&&◌, List, [], ◌∷◌, ◌++◌, Option, none, some,
  ◌==◌, ltb, if◌then◌else◌,
}
use breakin.Text.{Bytes, codes, decimal}
use breakin.Number.{ℤ, sub_ℕ, ltb_ℤ}

abbrev pub timing_buf_mb : ℕ
timing_buf_mb = 2

abbrev pub timing_buf_bytes : ℕ
timing_buf_bytes = 2097152

abbrev pub max_iterations : ℕ
max_iterations = 1024

-- the result of `read`: a number of bytes, or -1
pub data Read : Type 0 where
  count : ℕ → Read
  failed : Read

-- `read_big_block(fd, buf)`: what it returns, and the line on stderr
unfoldable pub read_big_block : Read → Bool × List Bytes
read_big_block failed = (true, codes "read() failed" ∷ [])
read_big_block (count rc) =
    if rc == timing_buf_bytes
    then (false, [])
    else if rc == 0
    then (true, codes "read() hit EOF - device too small" ∷ [])
    else (
      true,
      (codes "read("
            ++ (decimal timing_buf_bytes
                ++ (codes ") returned " ++ (decimal rc ++ codes " bytes"))))
          ∷ [],
    )

-- one round of the loop: the answer to `read`, and what is left on the timer after it
pub record Round : Type 0 where
  pub read : Read
  pub timer : ℕ

-- how the loop ends: by its condition, or by `goto quit`; or it has not ended with the rounds given
pub data LoopEnd : Type 0 where
  finished : (total_mb : ℕ) (elapsed : ℤ) → LoopEnd
  quit : (elapsed : Option ℤ) → List Bytes → LoopEnd
  waiting : LoopEnd

-- the `do` loop and the line behind it; `e1` is what was on the timer at the start
unfoldable pub bench_loop : ℕ → List Round → ℕ → Option ℤ → LoopEnd
bench_loop e1 [] iterations elapsed = waiting
bench_loop e1 (r ∷ rounds) iterations elapsed = elim (read_big_block r.read).0 [
  | true ↦ quit elapsed (read_big_block r.read).1
  | false ↦ elim (ltb_ℤ (sub_ℕ e1 r.timer) 3000000 && ltb (suc iterations) max_iterations) [
    | true ↦ bench_loop e1 rounds (suc iterations) (some (sub_ℕ e1 r.timer))
    | false ↦ finished (suc iterations * timing_buf_mb) (sub_ℕ e1 r.timer)
  ]
]

-- what the process holds: the device, the shared memory, and whether that is attached
pub record Held : Type 0 where
  pub files : ℕ
  pub segments : ℕ
  pub attached : Bool

abbrev pub nothing : Held
nothing = record { files = 0; segments = 0; attached = false }

-- what the kernel answers besides
pub record DiskEnv : Type 0 where
  pub open_ok : Bool
  pub shmget_ok : Bool
  pub lock_ok : Bool
  pub attach_ok : Bool
  pub rmid_ok : Bool
  pub shmdt_ok : Bool
  pub flush_ok : Bool
  pub timer : ℕ
  pub rounds : List Round

-- `return 1`, the quotient `total_MB / elapsed`, or no end
pub data Result : Type 0 where
  one : Result
  quotient : (total_mb : Option ℕ) (elapsed : Option ℤ) → Result
  no_end : Result

pub record Outcome : Type 0 where
  pub result : Result
  pub held : Held
  pub messages : List Bytes

abbrev message_if : Bool → Bytes → List Bytes
message_if ok text = if ok then [] else text ∷ []

-- `shmctl(shmid, IPC_RMID, NULL)`
abbrev pub segments_after : DiskEnv → ℕ
segments_after e = if e.rmid_ok then 0 else 1

-- behind `quit:`: the memory is detached, the device flushed and closed
unfoldable pub close_down : DiskEnv → Option ℕ → Option ℤ → List Bytes → Outcome
close_down e total_mb elapsed before = record {
  result = quotient total_mb elapsed;
  held = record {
    files = 0;
    segments = segments_after e;
    attached = if e.shmdt_ok then false else true;
  };
  messages =
      before
      ++ (message_if e.shmdt_ok (codes "could not detach sharedmem buf")
          ++ message_if e.flush_ok (codes "BLKFLSBUF failed"));
}

unfoldable pub after_loop : DiskEnv → List Bytes → LoopEnd → Outcome
after_loop e before (finished total_mb elapsed) = close_down e (some total_mb) (some elapsed) before
after_loop e before (quit elapsed messages) = close_down e none elapsed (before ++ messages)
after_loop e before waiting = record {
  result = no_end;
  held = record { files = 1; segments = segments_after e; attached = true };
  messages = before;
}

abbrev stop : ℕ → ℕ → Bytes → Outcome
stop files segments text = record {
  result = one;
  held = record { files = files; segments = segments; attached = false };
  messages = text ∷ [];
}

-- `bench_disk(device)`
unfoldable pub bench_disk : DiskEnv → Outcome
bench_disk e =
    if e.open_ok
    then (if e.shmget_ok
        then (if e.lock_ok
            then (if e.attach_ok
                then after_loop e (message_if e.rmid_ok (codes "shmctl(,IPC_RMID,) failed"))
                    (bench_loop e.timer e.rounds 0 none)
                else stop 1 (segments_after e) (codes "could not attach sharedmem buf"))
            else stop 1 (segments_after e) (codes "could not lock sharedmem buf"))
        else stop 1 0 (codes "could not allocate sharedmem buf"))
    else record { result = one; held = nothing; messages = [] }
