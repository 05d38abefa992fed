-- ===== src/Devmem.antt =====
-- `myread` and `mem_chunk` of dmidecode.c, with what they leave open, mapped and allocated. A file is
-- the list of its bytes; what the kernel answers is an argument.
pub mod Read
mod Examples
use breakin.Base.{
  ℕ, zero, suc, ◌+◌, ◌-◌, ◌/◌, ◌%◌, Bool, true, false, List, [], ◌∷◌, ◌++◌, Option, none, some,
  ◌==◌, if◌then◌else◌, take, drop, length, min,
}
use breakin.Text.{Bytes}

-- one answer of `read`: up to this many bytes of what is left, an interruption, or another error
pub data Answer : Type 0 where
  bytes : ℕ → Answer
  interrupted : Answer
  failed : Answer

-- how `myread` ends: with the buffer filled, with -1, or not yet, since the kernel has not answered
pub data MyRead : Type 0 where
  filled : Bytes → MyRead
  read_error : MyRead
  unexpected_end : MyRead
  waiting : MyRead

-- the result, and whether the file is still open
pub record ReadResult : Type 0 where
  pub outcome : MyRead
  pub still_open : Bool

-- behind the loop: `if(r2!=count)`
abbrev pub end_read : Bytes → ℕ → ReadResult
end_read buf missing =
    if missing == 0
    then record { outcome = filled buf; still_open = true }
    else record { outcome = unexpected_end; still_open = false }

-- `while(r2!=count && r!=0)`: `buf` is what has been read, `missing` is `count-r2`, `file` is what is
-- left of the file
unfoldable pub read_loop : List Answer → Bytes → ℕ → Bytes → ReadResult
read_loop answers buf zero file = end_read buf 0
read_loop [] buf (suc missing) file = record { outcome = waiting; still_open = true }
read_loop (interrupted ∷ answers) buf (suc missing) file = read_loop answers buf (suc missing) file
read_loop (failed ∷ answers) buf (suc missing) file = record {
  outcome = read_error;
  still_open = false;
}
read_loop (bytes n ∷ answers) buf (suc missing) file =
    let got : Bytes = take (min n (suc missing)) file in
    let rest = read_loop answers (buf ++ got) (suc missing - length got) (drop (length got) file) in
    if length got == 0 then end_read buf (suc missing) else rest

-- `myread(fd, buf, count, prefix)`
unfoldable pub myread : List Answer → ℕ → Bytes → ReadResult
myread answers count file = read_loop answers [] count file

-- what the process holds: open files, mapped pages, allocated bytes
pub record Held : Type 0 where
  pub files : ℕ
  pub pages : ℕ
  pub allocated : ℕ

-- what the kernel answers to one `mem_chunk`
pub record ChunkEnv : Type 0 where
  pub open_ok : Bool
  pub malloc_ok : Bool
  pub mmap_ok : Bool
  pub munmap_ok : Bool
  pub close_ok : Bool

-- the pages that a mapping of `len` bytes touches
abbrev pub pages_of : ℕ → ℕ → ℕ
pages_of page len = (len + page - 1) / page

-- `mem_chunk(base, len, devmem)` for a device with these bytes and this page size: the copy, or NULL,
-- and what is held after it
unfoldable pub mem_chunk : ChunkEnv → ℕ → Bytes → ℕ → ℕ → Held → Option Bytes × Held
mem_chunk e page device base len h =
    let opened : Held = record h { files = h.files + 1 } in
    let mmoffset : ℕ = base % page in
    let mmp : Bytes = drop (base - mmoffset) device in
    let mapped : Held = record opened {
      allocated = h.allocated + len;
      pages = h.pages + pages_of page (mmoffset + len);
    } in
    let unmapped : Held =
      if e.munmap_ok
      then record mapped { pages = mapped.pages - pages_of page (mmoffset + 0x20) }
      else mapped in
    let closed : Held =
      if e.close_ok then record unmapped { files = unmapped.files - 1 } else unmapped in
    if e.open_ok
    then (if e.malloc_ok
        then (if e.mmap_ok then (some (take len (drop mmoffset mmp)), closed) else (none, opened))
        else (none, opened))
    else (none, h)
