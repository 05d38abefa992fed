-- ===== src/LogDevice.antt =====
-- The log device and the serial port of breakin.c: `start_serial`, `start_logdev`, and what
-- `header_logdev` and `update_logdev_write` write. A double is a value of any type, with what the source
-- does with it. What a terminal is set to is left out except for its speed.
pub mod Begins
pub mod Pieces
mod Examples
use breakin.Base.{
  ℕ, zero, suc, Bool, true, false, ◌||◌, ◌==◌, List, [], ◌∷◌, ◌++◌, Option, none, some, ltb,
  if◌then◌else◌, concat, map,
}
use breakin.Text.{Bytes, codes, decimal}
use breakin.Number.{ℤ, pos, negsuc, sub_ℕ, decimal_signed}
use breakin.Log.{Sinks, log_message, log_error}
use breakin.Log.Clock.{running_time}
use breakin.Network.{Nic}
use breakin.Stats.{Disk, Stream, State, as_long}
use breakin.Burnin.Script.{Script}
use breakin.Dmi.Decode.{DmiData}

-- what printf writes for a double, the quotient of a `long` by 1024, and the test `> 0`
pub record Format (F : Type 0) : Type 0 where
  pub fixed0 : F → Bytes  -- "%.0f"
  pub fixed1 : F → Bytes  -- "%.1f"
  pub fixed2 : F → Bytes  -- "%.2f"
  pub in_mb : ℤ → F
  pub positive : F → Bool

abbrev pub newline : Bytes
newline = b'\n' ∷ []

abbrev rule : Bytes
rule = codes "=================================================================\n"

module _ {F : Type 0} (format : Format F) where
  -- the body of the loop over the disks
  unfoldable pub disk_text : Disk F → Bytes
  disk_text d =
      codes "HDD  : "
      ++ (d.device
          ++ (b':'
              ∷ (format.fixed1 d.size
                  ++ (codes "GB "
                      ++ ((if format.positive d.performance
                            then b'(' ∷ (format.fixed1 d.performance ++ codes " MB/s) ")
                            else [])
                          ++ newline)))))

  unfoldable pub disks_text : List (Disk F) → Bytes
  disks_text [] = codes "HDD  : No hard disk drives found\n"
  disks_text (d ∷ ds) = concat (map disk_text (d ∷ ds))

  unfoldable pub memory_text : State F → Bytes
  memory_text s =
      codes "RAM  : "
      ++ (format.fixed0 s.mem_percent
          ++ (codes "% - "
              ++ (format.fixed1 (format.in_mb (sub_ℕ s.mem_total s.mem_free))
                  ++ (codes " MB / "
                      ++ (format.fixed2 (format.in_mb (pos s.mem_total)) ++ codes " MB")))))

  unfoldable pub triad_text : Option (Stream F) → Bytes
  triad_text none = []
  triad_text (some b) = codes " (" ++ (format.fixed2 b.triad ++ codes " MB/s)")

unfoldable pub nic_text : Nic → Bytes
nic_text n =
    codes "NIC  : " ++ (n.name ++ (b' ' ∷ (n.ipaddr ++ (codes " (" ++ (n.macaddr ++ codes ")\n")))))

unfoldable pub nics_text : List Nic → Bytes
nics_text [] = codes "NIC  : No network cards found\n"
nics_text (n ∷ ns) = concat (map nic_text (n ∷ ns))

module _ {F : Type 0} (format : Format F) where
  -- `header_logdev(fp)`: what it writes
  unfoldable pub header_logdev : State F → Bytes
  header_logdev s =
      rule
      ++ (codes "  New breakin test started\n"
          ++ (rule
              ++ (codes "Mobo : "
                  ++ (s.dmi.board_vendor
                      ++ (codes " - "
                          ++ (s.dmi.board_product
                              ++ (codes "\nBIOS : "
                                  ++ (s.dmi.bios_version
                                      ++ (codes "\nCPU  : "
                                          ++ (decimal s.cpu_cores
                                              ++ (codes " x "
                                                  ++ (s.cpu_model
                                                      ++ (codes " ("
                                                          ++ (format.fixed0 s.cpu_speed
                                                            ++ (codes " MHz)\n"
                                                            ++ (memory_text format s
                                                            ++ (triad_text format s.benchmarks
                                                            ++ (newline
                                                            ++ (disks_text format s.disks
                                                            ++ (nics_text s.nics
                                                            ++ newline))))))))))))))))))))

  unfoldable pub temps_text : List F → Bytes
  temps_text [] = []
  temps_text (t ∷ ts) =
      (if format.positive t then format.fixed1 t ++ codes "C  " else []) ++ temps_text ts

  abbrev pub unsupported : List F → Bytes
  unsupported [] = codes "Not supported"
  unsupported (t ∷ ts) = []

-- the line of a script
unfoldable pub script_text : Bytes → Script → Bytes
script_text time s =
    time
    ++ (codes " : test:"
        ++ (s.name
            ++ (codes "  pass:"
                ++ (decimal_signed (as_long s.pass_count)
                    ++ (codes " fail:"
                        ++ (decimal_signed (as_long s.fail_count)
                            ++ (codes " lastmsg:" ++ (s.last_msg ++ newline))))))))

module _ {F : Type 0} (format : Format F) where
  -- `update_logdev_write(fp)`, at `now` seconds after the start
  unfoldable pub update_logdev_write : ℕ → State F → Option Bytes → Option Bytes
  update_logdev_write now s none = none
  update_logdev_write now s (some old) = some (
      old
      ++ (running_time now
          ++ (codes " : temps:"
              ++ (temps_text format s.temps
                  ++ (unsupported format s.temps
                      ++ (newline ++ concat (map (script_text (running_time now)) s.scripts)))))))

  -- a round of `update_logdev`
  unfoldable pub update_logdev : ℕ → State F → Sinks → Sinks
  update_logdev now s k = record k {
    logdev_file = update_logdev_write now s k.logdev_file;
    serial_file =
        if k.serial_enabled then update_logdev_write now s k.serial_file else k.serial_file;
  }

-- the speed that the switch over `serial_baud` sets
unfoldable pub port_speed : ℤ → ℕ
port_speed (negsuc n) = 9600
port_speed (pos n) = if n == 115200 || (n == 57600 || (n == 38400 || n == 19200)) then n else 9600

pub record SerialEnv : Type 0 where
  pub open_ok : Bool
  pub fdopen_ok : Bool

-- `start_serial()`; the port starts with nothing written to it
unfoldable pub start_serial : ℕ → SerialEnv → Bytes → Sinks → Sinks
start_serial now e dev k =
    if e.open_ok
    then record k { serial_file = if e.fdopen_ok then some [] else none }
    else record (log_error now (codes "Error opening serial port " ++ dev) k) {
      serial_enabled = false;
    }

-- `header_logdev(serial_file)`, which does not test for NULL
unfoldable pub write_serial : Bytes → Sinks → Option Sinks
write_serial header k = elim k.serial_enabled [
  | false ↦ some k
  | true ↦ elim k.serial_file [
    | none ↦ none
    | some old ↦ some (record k { serial_file = some (old ++ header) })
  ]
]

abbrev with_serial : ℕ → SerialEnv → Bytes → Sinks → Sinks
with_serial now e dev k =
    if k.serial_enabled
    then start_serial now e dev (log_message now (codes "Starting serial port logging") k)
    else k

abbrev write_logdev : Bytes → Sinks → Sinks
write_logdev header k = record k {
  logdev_file = elim k.logdev_file [ none ↦ none | some old ↦ some (old ++ header) ];
}

-- `start_logdev()`: whether fopen succeeds, the port, its name, and the header; `none` is a write to a
-- file handle that is NULL
unfoldable pub start_logdev : ℕ → Bool → SerialEnv → Bytes → Bytes → Sinks → Option Sinks
start_logdev now open_ok e dev header k =
    if open_ok
    then write_serial header
        (write_logdev header (with_serial now e dev (record k { logdev_file = some [] })))
    else some (record k { logdev_file = none })
