-- ===== src/Monitor.antt =====
-- `update_stats` of breakin.c: one turn of the thread that reads the machine's files, fills the tables,
-- draws the windows and writes the state file; and turns one after another. A file is what fopen and
-- fgets find of it at the time, and the arithmetic on doubles is a parameter. The calls that refresh
-- the screen and the pause between two turns are left out.
pub mod Valid
pub mod Follows
mod Examples
use breakin.Base.{
  ℕ, suc, Bool, List, [], ◌∷◌, ◌++◌, Option, none, some, map, take, get_elem?, ◌>>=◌,
}
use breakin.Text.{Bytes}
use breakin.Number.{ℤ, pos}
use breakin.Log.{LogCall}
use breakin.Tail.{monitor_syslog, show_log}
use breakin.Cpu.{Cpu, Counters, get_cpu_usage}
use breakin.Memory.{MemInfo, get_mem_usage}
use breakin.Sensors.{Sensor, get_ipmi_sensors}
use breakin.Disks.{Sys, HardDisk, get_hd_info}
use breakin.Network.{IfConf, Nics, get_nic_info}
use breakin.Dmi.Decode.{DmiData}
use breakin.Burnin.Script.{Script}
use breakin.Stats.{Double, Disk, Stream, State, dump_stats}
use breakin.LogDevice as LogDevice
use breakin.Screen.{Format, Frame, Temp, Fan, View, draw_stat_window}
use breakin.Screen.Draws.{Draw}
use breakin.Screen.Details.{draw_detail_window}

-- the globals that the turn reads and writes: the two positions and the tables
pub record Machine : Type 0 where
  pub syslog_pos : Option ℕ
  pub log_pos : Option ℕ
  pub cpus : ℕ × List Cpu
  pub mem : MemInfo
  pub temps : List Sensor
  pub fans : List Sensor
  pub disks : List HardDisk
  pub nics : Nics

-- what a turn finds: the files, and what its local arrays hold at the start
pub record Reading : Type 0 where
  pub syslog : Option Bytes
  pub stat : Option (List Bytes)
  pub counters : Counters
  pub meminfo : Option (List Bytes)
  pub temp_file : Option (List Bytes)
  pub fan_file : Option (List Bytes)
  pub sys : Sys
  pub block_dir : Option (List Bytes)
  pub buf : Bytes
  pub hardware_finished : Bool
  pub conf : IfConf
  pub error_log : Option Bytes

-- the calls to the log, in the order in which the turn makes them
pub record Calls : Type 0 where
  pub severe : List LogCall
  pub network : List LogCall
  pub errors : List LogCall

-- the globals and the calls, when the logs and the tables of cpus, sensors and cards have been read
abbrev pub gathered :
    Reading
    → Machine
    → Option ℕ × List LogCall
    → ℕ × List Cpu
    → List Sensor × List Sensor
    → Nics × List LogCall
    → List HardDisk
    → Option ℕ × List LogCall
    → Machine × Calls
gathered r m (syslog_pos, severe) cpus (temps, fans) (nics, network) disks (log_pos, errors) = (
  record {
    syslog_pos = syslog_pos;
    log_pos = log_pos;
    cpus = cpus;
    mem = get_mem_usage r.meminfo m.mem;
    temps = temps;
    fans = fans;
    disks = disks;
    nics = nics;
  },
  record { severe = severe; network = network; errors = errors },
)

-- from `monitor_syslog` to `show_log`; `none` is an access outside a table, a line or a buffer
unfoldable pub gather : Reading → Machine → Option (Machine × Calls)
gather r m = do
  syslog ← monitor_syslog m.syslog_pos r.syslog
  cpus ← get_cpu_usage r.stat r.counters m.cpus
  sensors ← get_ipmi_sensors r.temp_file r.fan_file
  disks ← get_hd_info r.sys r.block_dir r.buf m.disks
  nics ← get_nic_info r.hardware_finished r.conf m.nics
  log ← show_log m.log_pos r.error_log
  some (gathered r m syslog cpus sensors nics disks log)

-- what the other parts of the program have set
pub record Rest (F : Type 0) : Type 0 where
  pub cpu_cores : ℕ
  pub cpu_speed : F
  pub cpu_model : Bytes
  pub performance : ℕ → F  -- of the n-th disk
  pub dmi : DmiData
  pub benchmarks : Option (Stream F)
  pub scripts : List Script

-- the arithmetic and the formats of doubles, the screen, and the stack of `draw_stat_window`
pub record Show (F : Type 0) : Type 0 where
  pub zero_percent : F
  pub percent : ℤ → ℕ → F  -- `((double) used / total) * 100`
  pub degrees : ℤ → F
  pub gigabytes : ℤ → F  -- `sectors / 2097152`
  pub double : Double F
  pub device : LogDevice.Format F
  pub format : Format F
  pub title : Bytes
  pub cols : ℕ
  pub frame : Frame
  pub enabled_ssh : Bool

module _ {F : Type 0} (show : Show F) where
  unfoldable pub percent_of : Option Cpu → F
  percent_of none = show.zero_percent
  percent_of (some c) = show.percent (pos c.percent.used) c.percent.total

  unfoldable pub disks_of : Rest F → ℕ → List HardDisk → List (Disk F)
  disks_of rest i [] = []
  disks_of rest i (d ∷ ds) =
      record {
        device = d.device;
        size = show.gigabytes d.sectors;
        performance = rest.performance i;
      }
      ∷ disks_of rest (suc i) ds

  -- the globals as the state file and the windows show them
  unfoldable pub state_of : Rest F → Machine → State F
  state_of rest m = record {
    cpu_cores = rest.cpu_cores;
    cpu_speed = rest.cpu_speed;
    cpu_model = rest.cpu_model;
    cpu_qty = m.cpus.0;
    cpu_percent = λ i. percent_of (get_elem? m.cpus.1 i);
    mem_total = m.mem.mem_total;
    mem_free = m.mem.mem_free;
    mem_percent = show.percent m.mem.mem_percent.used m.mem.mem_percent.total;
    swap_total = m.mem.swap_total;
    swap_free = m.mem.swap_free;
    swap_percent = show.percent m.mem.swap_percent.used m.mem.swap_percent.total;
    temps = map (λ t. show.degrees t.value) m.temps;
    disks = disks_of rest 0 m.disks;
    nics = take m.nics.0 m.nics.1;
    dmi = rest.dmi;
    benchmarks = rest.benchmarks;
    scripts = rest.scripts;
  }

  unfoldable pub view_of : Rest F → Machine → View F
  view_of rest m = record {
    title = show.title;
    cpu_percent = percent_of (get_elem? m.cpus.1 0);
    mem_percent = show.percent m.mem.mem_percent.used m.mem.mem_percent.total;
    temps = map (λ t. record { name = t.name; value = show.degrees t.value }) m.temps;
    fans = map (λ f. record { name = f.name; value = f.value }) m.fans;
    scripts = rest.scripts;
  }

-- a turn: what it finds, the other globals at its end, and whether the state file could be opened
pub record Turn (F : Type 0) : Type 0 where
  pub reading : Reading
  pub rest : Rest F
  pub opened : Bool

pub record Updated : Type 0 where
  pub machine : Machine
  pub calls : Calls
  pub stat_win : List Draw
  pub details_win : List Draw
  pub stat_file : Option Bytes

module _ {F : Type 0} (show : Show F) where
  -- behind `draw_stat_window`, which made these calls
  unfoldable pub present : Turn F → Option Bytes → Machine × Calls → List Draw → Updated
  present turn old (m, calls) stat_win = record {
    machine = m;
    calls = calls;
    stat_win = stat_win;
    details_win =
        draw_detail_window show.device show.cols show.enabled_ssh (state_of show turn.rest m);
    stat_file = dump_stats show.double turn.opened (state_of show turn.rest m) old;
  }

  -- `update_stats()`, with the content of the state file before it
  unfoldable pub update_stats : Turn F → Machine → Option Bytes → Option Updated
  update_stats turn m old = do
    g ← gather turn.reading m
    win ← draw_stat_window show.format show.cols show.frame (view_of show turn.rest g.0)
    some (present turn old g win)

  -- `while (1)`: turns one after another
  unfoldable pub update_loop : List (Turn F) → Machine → Option Bytes → Option (List Updated)
  update_loop [] m old = some []
  update_loop (turn ∷ turns) m old = elim (update_stats turn m old) [
    | none ↦ none
    | some u ↦ update_loop turns u.machine u.stat_file >>= λ us. some (u ∷ us)
  ]
