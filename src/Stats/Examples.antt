-- ===== src/Stats/Examples.antt =====
-- The counters in the state file, on a state with two scripts.
use breakin.Base.{ℕ, ◌≡◌, ◌<◌, refl, true, [], ◌∷◌, ◌++◌, none, some}
use breakin.Text.{Bytes, codes, decimal}
use breakin.Number.{decimal_signed}
use breakin.Stats.{Double, State, as_long, dump_stats}
use breakin.Stats.Counts.{quoted, pass_key, fail_key, total_value, dump_stats-counts}
use breakin.Burnin.Script.{Script, disabled, process, closed}
use breakin.Dmi.Decode.{DmiData}

-- numbers for doubles
abbrev whole : Double ℕ
whole = record { fixed0 = decimal; fixed6 = λ n. decimal n ++ codes ".000000" }

abbrev no_dmi : DmiData
no_dmi = record {
  bios_vendor = codes "Acme";
  bios_version = [];
  bios_date = [];
  sys_vendor = [];
  sys_product = [];
  sys_version = [];
  sys_serial = [];
  board_vendor = [];
  board_product = [];
  board_version = [];
  board_serial = [];
}

abbrev cpu_test : Script
cpu_test = record {
  name = codes "cpu";
  path = codes "/t/cpu";
  last_msg = codes "50%";
  last_result = 0;
  running = disabled;
  pid = process 3;
  fp_stdout = closed;
  pass_count = 2;
  fail_count = 1;
}

abbrev state : State ℕ
state = record {
  cpu_cores = 4;
  cpu_speed = 2400;
  cpu_model = codes "Xeon";
  cpu_qty = 3;
  cpu_percent = λ i. i;
  mem_total = 1024;
  mem_free = 512;
  mem_percent = 50;
  swap_total = 0;
  swap_free = 0;
  swap_percent = 0;
  temps = 40 ∷ [];
  disks = record { device = codes "sda"; size = 80; performance = 90 } ∷ [];
  nics =
      record {
        name = codes "eth0";
        macaddr = codes "00:01";
        macaddr_num = codes "0001";
        ipaddr = codes "10.0.0.1";
      }
      ∷ [];
  dmi = no_dmi;
  benchmarks = none;
  scripts = cpu_test ∷ record cpu_test { name = codes "disk"; pass_count = 7; fail_count = 5 } ∷ [];
}

dump_stats-counts_example :
    (before after : Bytes) × (dump_stats whole true state none
      ≡ some (
          before
          ++ (quoted (pass_key 1) (decimal_signed (as_long 7))
              ++ (quoted (fail_key 1) (decimal_signed (as_long 5))
                  ++ (after ++ quoted (codes "BURNIN_TOTAL_FAIL_QTY") (total_value 6))))))
    × (6 < 2147483648 → total_value 6 ≡ decimal 6)
dump_stats-counts_example = dump_stats-counts whole state none 1 refl
