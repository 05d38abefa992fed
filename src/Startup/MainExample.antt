-- ===== src/Startup/MainExample.antt =====
-- The theorem on the whole of `main`, applied to a command line and a directory with three entries.
use breakin.Base.{
  ℕ, zero, suc, ◌+◌, ◌≤◌, drop, ◌≡◌, refl, true, false, List, [], ◌∷◌, none, some, arith,
}
use breakin.Text.{Bytes, codes, str_eq, copy_n}
use breakin.Options.{Opt, disable_test, ssh}
use breakin.Sensors.{get_ipmi_sensors, read_file}
use breakin.Dmi.Decode.{DmiData}
use breakin.Dmi.Entry.{same_bytes}
use breakin.Dmi.Absent.{NoAnchor, do_dmi_decode-NoAnchor}
use breakin.Cpu.Info.{CpuInfo, get_cpu_info}
use breakin.Startup.Main.{Hardware, read_hardware, read_cpu, main}
use breakin.Startup.Whole.{kept, BurnsIn, main-BurnsIn}
use breakin.Startup.Program.{could_start}
use breakin.Startup.Examples.{kernel, passes, busy, last_look}

abbrev no_dmi : DmiData
no_dmi = record {
  bios_vendor = [];
  bios_version = [];
  bios_date = [];
  sys_vendor = [];
  sys_product = [];
  sys_version = [];
  sys_serial = [];
  board_vendor = [];
  board_product = [];
  board_version = [];
  board_serial = [];
}

abbrev no_cpu : CpuInfo
no_cpu = record { qty = 0; model = []; speed = [] }

abbrev command_line : List Opt
command_line = disable_test (codes "hpl,disk") ∷ ssh ∷ disable_test (codes "disk") ∷ []

abbrev tests_dir : List Bytes
tests_dir = codes "." ∷ codes "disk" ∷ codes "memory" ∷ []

kept_memory : kept (codes "disk") tests_dir ≡ codes "memory" ∷ []
unfolding str_eq
kept_memory = refl

-- /dev/mem without an entry point
blank : ℕ → Bytes
blank zero = []
blank (suc n) = 0 ∷ blank n

same_bytes-blank :
    (fp n : ℕ) → fp + 4 ≤ n → same_bytes (codes "_SM_") (drop fp (blank n)) ≡ some false
unfolding blank same_bytes
same_bytes-blank zero (suc (suc (suc (suc n)))) h = refl
same_bytes-blank zero zero h = absurd (omega arith)
same_bytes-blank zero (suc zero) h = absurd (omega arith)
same_bytes-blank zero (suc (suc zero)) h = absurd (omega arith)
same_bytes-blank zero (suc (suc (suc zero))) h = absurd (omega arith)
same_bytes-blank (suc fp) zero h = absurd (omega arith)
same_bytes-blank (suc fp) (suc n) h = same_bytes-blank fp n (omega arith)

blank-NoAnchor : NoAnchor (blank 65536)
blank-NoAnchor fp h = same_bytes-blank fp 65536 (omega arith)

abbrev blank_machine : Hardware
blank_machine = record {
  temp_file = none;
  fan_file = none;
  dev = λ base len. some (blank 65536);
  dmi = no_dmi;
  cpuinfo = none;
  cpu = no_cpu;
}

blank_machine_reads : read_hardware blank_machine ≡ some true
unfolding read_hardware read_cpu get_ipmi_sensors read_file get_cpu_info
blank_machine_reads =
    rw (do_dmi_decode-NoAnchor blank_machine.dev (blank 65536) no_dmi refl blank-NoAnchor) refl

main-BurnsIn_example : BurnsIn (codes "disk") tests_dir (could_start kernel) (
    main 0 blank_machine command_line kernel
      (codes "/tests")
      (some tests_dir)
      ((λ i. passes) ∷ [])
      none)
unfolding str_eq copy_n
main-BurnsIn_example =
    main-BurnsIn blank_machine command_line kernel (codes "/tests") (codes "disk") tests_dir
      ((λ i. passes) ∷ []) none (busy ∷ []) last_look [] refl refl
      (refl, (refl, (refl, (refl, tt)))) (omega arith, (omega arith, (omega arith, tt)))
      (omega arith) (omega arith, tt) blank_machine_reads refl (refl, tt) refl (λ bad. refl)
      ((λ i. (refl, tt)), tt)
