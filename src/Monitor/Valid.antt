-- ===== src/Monitor/Valid.antt =====
-- The tables keep their sizes, whatever the machine says.
use breakin.Base.{
  ℕ, ◌+◌, ◌-◌, ◌≤◌, ◌≡◌, refl, Bool, true, false, List, [], ◌∷◌, Option, none, some, arith, All,
  length, push, length-take_le,
}
use breakin.Text.{Bytes}
use breakin.Number.{ℤ, pos}
use breakin.Log.{LogCall}
use breakin.Trim.Buffer.{HasText}
use breakin.Tail.Text.{
  unread, next_pos, reports, severe_reports, show_log_text, monitor_syslog_text,
}
use breakin.Cpu.{Cpu, Counters, max_cpus, get_cpu_usage}
use breakin.Cpu.Wrap.{get_cpu_usage-qty}
use breakin.Sensors.{Sensor, max_temps, max_fans, read_file, get_ipmi_sensors}
use breakin.Sensors.Table.{IsWell, read_sensors-readings, readings}
use breakin.Disks.{max_disks}
use breakin.Disks.Found.{NoBlank, get_hd_info-fits}
use breakin.Network.{Interface, IfConf, no_socket, conf_failed, listed, Nics, get_nic_info}
use breakin.Network.Cards.{card, cards, get_nic_info_lem}
use breakin.Network.{max_num_nics}
use breakin.Screen.{stat_draws}
use breakin.Screen.Room.{IsRoomy, draw_stat_window-IsRoomy}
use breakin.Monitor.{
  view_of, Machine, Reading, Calls, gathered, gather, Turn, Updated, Show, present, update_stats,
  update_loop,
}

get_cpu_usage-fits :
    (file : Option (List Bytes)) (c : Counters) (s : ℕ × List Cpu)
    → s.0 ≤ max_cpus
    → length s.1 ≡ max_cpus
    → (s' : ℕ × List Cpu) × (get_cpu_usage file c s ≡ some s')
      × (s'.0 ≤ max_cpus)
      × (length s'.1 ≡ max_cpus)
get_cpu_usage-fits none c s low size = (s, unfold get_cpu_usage in refl, low, size)
get_cpu_usage-fits (some lines) c (qty, cpus) low size =
    let (cpus', run, size') = get_cpu_usage-qty lines c qty cpus size in
    (_, run, omega arith, size')

-- Each line of a sensor file, if there is one, has what the source takes it to have.
abbrev pub AllWell : ℕ → Option (List Bytes) → Type 0
AllWell skip none = Unit {0}
AllWell skip (some lines) = All (IsWell skip) lines

read_file-fits :
    (limit skip : ℕ) (file : Option (List Bytes)) (old : ℤ)
    → AllWell skip file
    → (r : List Sensor × ℤ) × (read_file limit skip file old ≡ some r) × (length r.0 ≤ limit)
unfolding read_file
read_file-fits limit skip none old w = (([], old), refl, omega arith)
read_file-fits limit skip (some lines) old w =
    let (last, run) = read_sensors-readings lines limit skip old 0 w in
    (_, run, omega (arith, length-take_le (limit - 0) (readings skip lines)))

get_ipmi_sensors-fits :
    (temps fans : Option (List Bytes))
    → AllWell 0 temps
    → AllWell 3 fans
    → (r : List Sensor × List Sensor) × (get_ipmi_sensors temps fans ≡ some r)
      × (length r.0 ≤ max_temps)
      × (length r.1 ≤ max_fans)
unfolding get_ipmi_sensors
get_ipmi_sensors-fits temps fans w v =
    let (t, run, few) = read_file-fits max_temps 0 temps (pos 0) w in
    let (f, run', few') = read_file-fits max_fans 3 fans t.1 v in
    ((t.0, f.0), rw run (rw run' refl), few, few')

-- The list of interfaces, if there is one, fits the local array.
abbrev pub Listed : IfConf → Type 0
Listed (listed is) = length is ≤ max_num_nics
Listed _ = Unit {0}

push_le : {A : Type 0} (o : Option A) (xs : List A) → length (push o xs) ≤ length xs + 1
push_le none xs = omega arith
push_le (some x) xs = omega arith

cards_le : (is : List Interface) → length (cards is) ≤ length is
cards_le [] = omega arith
cards_le (i ∷ is) = omega (arith, push_le (card i) (cards is), cards_le is)

get_nic_info-fits :
    (finished : Bool) (conf : IfConf) (s : Nics)
    → Listed conf
    → s.0 ≤ max_num_nics
    → length s.1 ≡ max_num_nics
    → (r : Nics × List LogCall) × (get_nic_info finished conf s ≡ some r)
      × (r.0.0 ≤ max_num_nics)
      × (length r.0.1 ≡ max_num_nics)
unfolding get_nic_info
get_nic_info-fits false conf s l low size = ((s, []), refl, low, size)
get_nic_info-fits true no_socket s l low size = ((s, []), refl, low, size)
get_nic_info-fits true (conf_failed t) s l low size = (_, refl, low, size)
get_nic_info-fits true (listed is) (qty, table) l low size =
    let ((table', run, same, size'), early, off, bad) =
      get_nic_info_lem is qty table no_socket size l in
    (_, run, omega (arith, l, cards_le is), size')

-- The tables fit their arrays.
pub record Fits (m : Machine) : Type 0 where
  pub cpu_qty : m.cpus.0 ≤ max_cpus
  pub cpus : length m.cpus.1 ≡ max_cpus
  pub temps : length m.temps ≤ max_temps
  pub fans : length m.fans ≤ max_fans
  pub disks : length m.disks ≤ max_disks
  pub nic_qty : m.nics.0 ≤ max_num_nics
  pub nics : length m.nics.1 ≡ max_num_nics

-- What a turn finds can be read.
pub record Readable (r : Reading) : Type 0 where
  pub temps : AllWell 0 r.temp_file
  pub fans : AllWell 3 r.fan_file
  pub sys : NoBlank r.sys
  pub interfaces : Listed r.conf

-- The lines that a turn reads of the two logs are not white space.
abbrev pub Worded : Reading → Option ℕ → Option ℕ → Type 0
Worded r p q = All HasText (unread p r.syslog) × All HasText (unread q r.error_log)

-- So it is in each turn, from these positions on.
abbrev pub AllWorded : {F : Type 0} → List (Turn F) → Option ℕ → Option ℕ → Type 0
AllWorded [] p q = Unit {0}
AllWorded (t ∷ ts) p q =
    Worded t.reading p q
    × AllWorded ts (next_pos p t.reading.syslog) (next_pos q t.reading.error_log)

-- What a turn does to the positions in the logs, and what it reports of the error log.
pub record Shows (r : Reading) (m m' : Machine) (c : Calls) : Type 0 where
  pub syslog : m'.syslog_pos ≡ next_pos m.syslog_pos r.syslog
  pub log : m'.log_pos ≡ next_pos m.log_pos r.error_log
  pub errors : c.errors ≡ reports (unread m.log_pos r.error_log)

gather-Fits :
    (r : Reading) (m : Machine)
    → Readable r
    → Worded r m.syslog_pos m.log_pos
    → Fits m
    → (g : Machine × Calls) × (gather r m ≡ some g) × Fits g.0 × Shows r m g.0 g.1
unfolding gather
gather-Fits r m ok (sys, log) f =
    let run0 = monitor_syslog_text m.syslog_pos r.syslog sys in
    let run4 = show_log_text m.log_pos r.error_log log in
    let (cpus, run1, low, size) = get_cpu_usage-fits r.stat r.counters m.cpus f.cpu_qty f.cpus in
    let (sensors, run2, temps, fans) =
      get_ipmi_sensors-fits r.temp_file r.fan_file ok.temps ok.fans in
    let (disks, run5, listed_disks) =
      get_hd_info-fits r.sys r.block_dir r.buf m.disks ok.sys f.disks in
    let (nics, run3, few, table) =
      get_nic_info-fits r.hardware_finished r.conf m.nics ok.interfaces f.nic_qty f.nics in
    let severe : Option ℕ × List LogCall =
      (next_pos m.syslog_pos r.syslog, severe_reports (unread m.syslog_pos r.syslog)) in
    let errors : Option ℕ × List LogCall =
      (next_pos m.log_pos r.error_log, reports (unread m.log_pos r.error_log)) in
    (
      gathered r m severe cpus sensors nics disks errors,
      rw run0 (rw run1 (rw run2 (rw run5 (rw run3 (rw run4 refl))))),
      record {
        cpu_qty = low;
        cpus = size;
        temps = temps;
        fans = fans;
        disks = listed_disks;
        nic_qty = few;
        nics = table;
      },
      record { syslog = refl; log = refl; errors = refl },
    )

module _ {F : Type 0} (show : Show F) (roomy : IsRoomy show.frame) where
  pub update_stats-Fits :
      (t : Turn F) (m : Machine) (old : Option Bytes)
      → Readable t.reading
      → Worded t.reading m.syslog_pos m.log_pos
      → Fits m
      → (u : Updated) × (update_stats show t m old ≡ some u)
        × Fits u.machine
        × Shows t.reading m u.machine u.calls
  unfolding update_stats present
  update_stats-Fits t m old ok w f =
      let (g, run, f', shows) = gather-Fits t.reading m ok w f in
      let win =
        draw_stat_window-IsRoomy show.format show.cols show.frame (view_of show t.rest g.0) roomy in
      (
        present show t old g
            (stat_draws show.format show.cols show.frame.junk (view_of show t.rest g.0)),
        rw run (rw win refl),
        f',
        shows,
      )

  -- Over any number of turns of `update_stats` in which each line of a sensor file has a label and no
  -- blank value, no file of /sys that can be opened is blank, the interfaces fit the local array, no line
  -- that is read of the two logs is white space, and the compiler leaves a byte behind the arrays of
  -- draw_stat_window, whatever else the files say or cannot be opened: no access is outside a table, and
  -- after each turn every count is within its table and every table has the size that it is declared with,
  -- if this is so before the first.
  pub update_loop-Fits :
      (turns : List (Turn F)) (m : Machine) (old : Option Bytes)
      → All (λ t. Readable t.reading) turns
      → AllWorded turns m.syslog_pos m.log_pos
      → Fits m
      → (us : List Updated) × (update_loop show turns m old ≡ some us)
        × (length us ≡ length turns)
        × All (λ u. Fits u.machine) us
  unfolding update_loop
  update_loop-Fits [] m old ok w f = ([], refl, refl, tt)
  update_loop-Fits (t ∷ ts) m old ok w f =
      let (u, run, f', shows) = update_stats-Fits t m old ok.0 w.0 f in
      let w' : AllWorded ts u.machine.syslog_pos u.machine.log_pos =
        rw (shows.syslog, shows.log) w.1 in
      let (us, runs, l, fs) = update_loop-Fits ts u.machine u.stat_file ok.1 w' f' in
      (u ∷ us, rw (run, update_loop) (rw runs refl), omega (arith, l), (f', fs))
