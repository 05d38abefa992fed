-- ===== src/Monitor/Examples.antt =====
-- The theorems of the thread, applied to two turns: the error log grows by a line between them.
use breakin.Base.{
  ℕ, zero, suc, ◌≡◌, refl, true, false, List, [], ◌∷◌, none, some, arith, All, length, ltb, leb,
}
use breakin.Text.{Bytes, codes, decimal}
use breakin.Number.{pos, skip_white}
use breakin.Trim.{trim}
use breakin.Cpu.{Cpu, max_cpus}
use breakin.Sensors.{split_bar, scan_value}
use breakin.Network.{Nic, max_num_nics, listed}
use breakin.Tail.{tail_file, read_lines, take_line}
use breakin.Tail.Once.{joined}
use breakin.Tail.Text.{reports}
use breakin.Screen.Room.{IsRoomy}
use breakin.Monitor.{Machine, Reading, Rest, Show, Turn, Updated, update_loop}
use breakin.Monitor.Valid.{Readable, AllWorded, Fits, update_loop-Fits}
use breakin.Monitor.Follows.{reported, update_loop-reported}

-- whole numbers for doubles
abbrev whole : Show ℕ
whole = record {
  zero_percent = 0;
  percent = λ used total. total;
  degrees = λ n. 40;
  gigabytes = λ n. 80;
  double = record { fixed0 = decimal; fixed6 = decimal };
  device = record {
    fixed0 = decimal;
    fixed1 = decimal;
    fixed2 = decimal;
    in_mb = λ n. 80;
    positive = λ n. ltb 0 n;
  };
  format = record {
    fixed1 = decimal;
    percent3 = decimal;
    bar = λ n width. 7;
    positive = λ n. ltb 0 n;
    red = λ n. leb 60 n;
    yellow = λ n. leb 50 n;
  };
  title = codes "Breakin";
  cols = 80;
  frame = record { string = 24; label = 16; junk = [] };
  enabled_ssh = false;
}

whole-IsRoomy : IsRoomy whole.frame
whole-IsRoomy = record { string = omega arith; label = omega arith }

abbrev no_cpu : Cpu
no_cpu = record {
  cpu_idle = 0;
  cpu_usage = 0;
  last_idle = 0;
  last_usage = 0;
  percent = record { used = 0; total = 0 };
}

abbrev cpus : ℕ → List Cpu
cpus zero = []
cpus (suc n) = no_cpu ∷ cpus n

length-cpus : (n : ℕ) → length (cpus n) ≡ n
length-cpus zero = refl
length-cpus (suc n) = omega (arith, length-cpus n)

abbrev cards : ℕ → List Nic
cards zero = []
cards (suc n) = record { name = []; macaddr = []; macaddr_num = []; ipaddr = [] } ∷ cards n

length-cards : (n : ℕ) → length (cards n) ≡ n
length-cards zero = refl
length-cards (suc n) = omega (arith, length-cards n)

abbrev new_machine : Machine
new_machine = record {
  syslog_pos = none;
  log_pos = none;
  cpus = (0, cpus max_cpus);
  mem = record {
    mem_total = 0;
    mem_free = 0;
    mem_percent = record { used = pos 0; total = 0 };
    swap_total = 0;
    swap_free = 0;
    swap_percent = record { used = pos 0; total = 0 };
  };
  temps = [];
  fans = [];
  disks = [];
  nics = (0, cards max_num_nics);
}

new_machine-Fits : Fits new_machine
new_machine-Fits = record {
  cpu_qty = omega arith;
  cpus = length-cpus max_cpus;
  temps = omega arith;
  fans = omega arith;
  disks = omega arith;
  nic_qty = omega arith;
  nics = length-cards max_num_nics;
}

-- what a turn finds, with this error log
abbrev finds : Bytes → Reading
finds error_log = record {
  syslog = some (codes "boot\n");
  stat = some (codes "cpu  7 0 2 91\n" ∷ []);
  counters = record { user = 0; nice = 0; sys = 0; idle = 0 };
  meminfo = none;
  temp_file = some (codes "CPU Temp | 40\n" ∷ []);
  fan_file = none;
  sys = λ name. none;
  block_dir = some (codes "sda" ∷ []);
  buf = [];
  hardware_finished = true;
  conf = listed [];
  error_log = some error_log;
}

finds-Readable : (error_log : Bytes) → Readable (finds error_log)
unfolding split_bar scan_value trim skip_white
finds-Readable error_log = record {
  temps = (
    record {
      label = record { no_nul = ground arith; text = λ e. cc; long = omega arith };
      value = λ e. cc;
    },
    tt,
  );
  fans = tt;
  sys = λ name content e. cc;
  interfaces = omega arith;
}

abbrev nothing_else : Rest ℕ
nothing_else = record {
  cpu_cores = 4;
  cpu_speed = 2400;
  cpu_model = codes "Xeon";
  performance = λ i. 0;
  dmi = record {
    bios_vendor = codes "Acme";
    bios_version = [];
    bios_date = [];
    sys_vendor = [];
    sys_product = [];
    sys_version = [];
    sys_serial = [];
    board_vendor = [];
    board_product = [];
    board_version = [];
    board_serial = [];
  };
  benchmarks = none;
  scripts = [];
}

abbrev turn : Bytes → Turn ℕ
turn error_log = record { reading = finds error_log; rest = nothing_else; opened = true }

abbrev two_turns : List (Turn ℕ)
two_turns = turn (codes "old\n") ∷ turn (codes "old\nbad memory\n") ∷ []

two_turns-Worded : AllWorded two_turns none none
unfolding tail_file read_lines take_line
two_turns-Worded = ((tt, tt), ((tt, (refl, tt)), tt))

update_loop-Fits_example :
    (us : List Updated) × (update_loop whole two_turns new_machine none ≡ some us)
    × (length us ≡ length two_turns)
    × All (λ u. Fits u.machine) us
update_loop-Fits_example =
    update_loop-Fits whole whole-IsRoomy two_turns new_machine none
      (finds-Readable (codes "old\n"), (finds-Readable (codes "old\nbad memory\n"), tt))
      two_turns-Worded new_machine-Fits

update_loop-reported_example :
    (us : List Updated) × (lines : List Bytes) × (update_loop whole two_turns new_machine none
      ≡ some us)
    × (reported us ≡ reports lines)
    × (joined lines ≡ joined (codes "bad memory\n" ∷ []))
update_loop-reported_example =
    update_loop-reported whole whole-IsRoomy (turn (codes "old\n"))
      (turn (codes "old\nbad memory\n") ∷ []) new_machine none (codes "old\n")
      (codes "bad memory\n" ∷ []) (finds-Readable (codes "old\n"))
      (finds-Readable (codes "old\nbad memory\n"), tt) two_turns-Worded new_machine-Fits refl refl
      (refl, tt)
