-- ===== src/Stats.antt =====
-- `dump_stats` of breakin.c: the file of the program's state. A `double` is a value of any type, with
-- what printf writes for it under `%.0f` and `%f`.
pub mod Counts
mod Examples
use breakin.Base.{
  ℕ, zero, suc, ◌+◌, ◌-◌, ◌%◌, Bool, true, false, List, [], ◌∷◌, ◌++◌, Option, none, some, ltb,
  if◌then◌else◌, length, concat,
}
use breakin.Text.{Bytes, codes, decimal}
use breakin.Number.{ℤ, pos, negsuc, decimal_signed}
use breakin.Network.{Nic}
use breakin.Burnin.Script.{Script, Running, idle, active, disabled}
use breakin.Dmi.Decode.{DmiData}

-- a value of a signed type of 2 * half values
unfoldable pub to_signed : ℕ → ℕ → ℤ
to_signed half n = if ltb n half then pos n else negsuc (half + half - suc n)

-- `%ld` of a `long unsigned int`, and an `int`
abbrev pub as_long : ℕ → ℤ
as_long = to_signed 9223372036854775808

abbrev pub as_int : ℕ → ℤ
as_int n = to_signed 2147483648 (n % 4294967296)

pub record Double (F : Type 0) : Type 0 where
  pub fixed0 : F → Bytes  -- "%.0f"
  pub fixed6 : F → Bytes  -- "%f"

pub record Disk (F : Type 0) : Type 0 where
  pub device : Bytes
  pub size : F
  pub performance : F

pub record Stream (F : Type 0) : Type 0 where
  pub triad : F
  pub add : F
  pub copy : F
  pub scale : F

-- the globals that are printed; `cpu_percent` is the array of percentages
pub record State (F : Type 0) : Type 0 where
  pub cpu_cores : ℕ  -- cpu_info.qty
  pub cpu_speed : F
  pub cpu_model : Bytes
  pub cpu_qty : ℕ
  pub cpu_percent : ℕ → F
  pub mem_total : ℕ
  pub mem_free : ℕ
  pub mem_percent : F
  pub swap_total : ℕ
  pub swap_free : ℕ
  pub swap_percent : F
  pub temps : List F
  pub disks : List (Disk F)
  pub nics : List Nic
  pub dmi : DmiData
  pub benchmarks : Option (Stream F)  -- none until completed
  pub scripts : List Script

-- a line KEY="VALUE", as its two texts
abbrev pub Line : Type 0
Line = Bytes × Bytes

-- a key such as `DISK_%d_NAME`
abbrev pub key : Bytes → ℕ → Bytes → Bytes
key front i back = front ++ (decimal i ++ back)

abbrev pub running_code : Running → ℤ
running_code idle = pos 0
running_code active = pos 1
running_code disabled = negsuc 0

module _ {F : Type 0} (double : Double F) where
  -- `for (i = 1; i < cpu_qty; i ++)`, over the rounds left
  cpu_lines : ℕ → ℕ → (ℕ → F) → List Line
  cpu_lines zero i percent = []
  cpu_lines (suc n) i percent =
      (key (codes "CPU_") (i - 1) (codes "_PERCENT"), double.fixed0 (percent i))
      ∷ cpu_lines n (suc i) percent

  temp_lines : ℕ → List F → List Line
  temp_lines i [] = []
  temp_lines i (t ∷ ts) = (key (codes "TEMP_") i [], double.fixed0 t) ∷ temp_lines (suc i) ts

  disk_lines : ℕ → List (Disk F) → List Line
  disk_lines i [] = []
  disk_lines i (d ∷ ds) =
      (key (codes "DISK_") i (codes "_NAME"), d.device)
      ∷ (key (codes "DISK_") i (codes "_SIZE"), double.fixed6 d.size)
      ∷ (key (codes "DISK_") i (codes "_PERFORMANCE"), double.fixed6 d.performance)
      ∷ disk_lines (suc i) ds

  stream_lines : Option (Stream F) → List Line
  stream_lines none = []
  stream_lines (some b) =
      (codes "MEM_TRIAD", double.fixed6 b.triad)
      ∷ (codes "MEM_ADD", double.fixed6 b.add)
      ∷ (codes "MEM_COPY", double.fixed6 b.copy)
      ∷ (codes "MEM_SCALE", double.fixed6 b.scale)
      ∷ []

  -- from `CPU_QTY` to the loop
  cpu_head : State F → List Line
  cpu_head s =
      (codes "CPU_QTY", decimal s.cpu_cores)
      ∷ (codes "CPU_SPEED", double.fixed0 s.cpu_speed)
      ∷ (codes "CPU_MODEL", s.cpu_model)
      ∷ (codes "CPU_PERCENT", double.fixed0 (s.cpu_percent 0))
      ∷ []

  mem_lines : State F → List Line
  mem_lines s =
      (codes "MEM_TOTAL", decimal s.mem_total)
      ∷ (codes "MEM_FREE", decimal s.mem_free)
      ∷ (codes "MEM_PERCENT", double.fixed0 s.mem_percent)
      ∷ (codes "SWAP_TOTAL", decimal s.swap_total)
      ∷ (codes "SWAP_FREE", decimal s.swap_free)
      ∷ (codes "SWAP_PERCENT", double.fixed0 s.swap_percent)
      ∷ []

nic_lines : ℕ → List Nic → List Line
nic_lines i [] = []
nic_lines i (n ∷ ns) =
    (key (codes "NIC_") i (codes "_NAME"), n.name)
    ∷ (key (codes "NIC_") i (codes "_MAC"), n.macaddr)
    ∷ (key (codes "NIC_") i (codes "_IPADDR"), n.ipaddr)
    ∷ nic_lines (suc i) ns

dmi_lines : DmiData → List Line
dmi_lines d =
    (codes "BIOS_VENDOR", d.bios_vendor)
    ∷ (codes "BIOS_VERSION", d.bios_version)
    ∷ (codes "BIOS_DATE", d.bios_date)
    ∷ (codes "SYS_VENDOR", d.sys_vendor)
    ∷ (codes "SYS_PRODUCT", d.sys_product)
    ∷ (codes "SYS_VERSION", d.sys_version)
    ∷ (codes "SYS_SERIAL", d.sys_serial)
    ∷ (codes "BOARD_VENDOR", d.board_vendor)
    ∷ (codes "BOARD_PRODUCT", d.board_product)
    ∷ (codes "BOARD_VERSION", d.board_version)
    ∷ (codes "BOARD_SERIAL", d.board_serial)
    ∷ []

-- the last loop and the line behind it, with `total_failed` modulo 2 to the 32
pub script_lines : ℕ → ℕ → List Script → List Line
script_lines i total_failed [] =
    (codes "BURNIN_TOTAL_FAIL_QTY", decimal_signed (as_int total_failed)) ∷ []
script_lines i total_failed (s ∷ ss) =
    (key (codes "BURNIN_") i (codes "_NAME"), s.name)
    ∷ (key (codes "BURNIN_") i (codes "_LASTMSG"), s.last_msg)
    ∷ (key (codes "BURNIN_") i (codes "_RUNNING"), decimal_signed (running_code s.running))
    ∷ (key (codes "BURNIN_") i (codes "_PASS_QTY"), decimal_signed (as_long s.pass_count))
    ∷ (key (codes "BURNIN_") i (codes "_FAIL_QTY"), decimal_signed (as_long s.fail_count))
    ∷ script_lines (suc i) ((total_failed + s.fail_count) % 4294967296) ss

-- all the lines, in the order of the calls of fprintf
pub stat_lines : {F : Type 0} → Double F → State F → List Line
unfolding cpu_lines temp_lines disk_lines stream_lines cpu_head mem_lines nic_lines dmi_lines
stat_lines double s = concat (
    cpu_head double s
    ∷ cpu_lines double (s.cpu_qty - 1) 1 s.cpu_percent
    ∷ mem_lines double s
    ∷ ((codes "TEMP_QTY", decimal (length s.temps)) ∷ temp_lines double 0 s.temps)
    ∷ ((codes "DISK_QTY", decimal (length s.disks)) ∷ disk_lines double 0 s.disks)
    ∷ ((codes "NIC_QTY", decimal (length s.nics)) ∷ nic_lines 0 s.nics)
    ∷ dmi_lines s.dmi
    ∷ stream_lines double s.benchmarks
    ∷ ((codes "BURNIN_QTY", decimal (length s.scripts)) ∷ script_lines 0 0 s.scripts)
    ∷ [])

-- the text of some lines
pub print_lines : List Line → Bytes
print_lines [] = []
print_lines ((k, v) ∷ ls) = k ++ (codes "=\"" ++ (v ++ (codes "\"\n" ++ print_lines ls)))

-- `dump_stats()`: the new content of STAT_FILE, after the rename. If the temporary file cannot be
-- opened, the old one stays.
pub dump_stats : {F : Type 0} → Double F → Bool → State F → Option Bytes → Option Bytes
dump_stats double opened s old = if opened then some (print_lines (stat_lines double s)) else old
