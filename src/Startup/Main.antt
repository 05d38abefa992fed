-- ===== src/Startup/Main.antt =====
-- `main` of breakin.c as a whole: the user, the options, what is read of the machine once, and the
-- program behind that. The options are what getopt_long returns.
use breakin.Base.{
  ℕ, zero, suc, ◌+◌, true, false, Bool, List, [], ◌∷◌, ◌++◌, Option, none, some, ◌==◌, length, drop,
  ◌>>=◌,
}
use breakin.Text.{Bytes, copy_n}
use breakin.Options.{Opt, disable_test, Settings, default_settings, do_options}
use breakin.Sensors.{get_ipmi_sensors}
use breakin.Dmi.Decode.{DmiData}
use breakin.Dmi.Entry.{DevMem, DmiResult, exit_failure, decoded, do_dmi_decode}
use breakin.Cpu.Info.{CpuInfo, get_cpu_info}
use breakin.Burnin.Find.{find_burnin_tests}
use breakin.Burnin.Round.{ScriptEnv}
use breakin.Startup.{StartEnv, Progress, broken, program}

-- `snprintf` into an array that holds something already
abbrev pub overwrite : Bytes → Bytes → Bytes
overwrite text array = text ++ (0 ∷ drop (length text + 1) array)

-- the bytes of `breakin_disable[1024]` behind the options
unfoldable pub disable_array : List Opt → Bytes → Bytes
disable_array [] array = array
disable_array (disable_test arg ∷ os) array = disable_array os (overwrite (copy_n 1024 arg) array)
disable_array (o ∷ os) array = disable_array os array

-- an array that nothing has been written to
abbrev pub zeros : ℕ → Bytes
zeros zero = []
zeros (suc n) = 0 ∷ zeros n

-- what is read once: the two sensor files, /dev/mem, /proc/cpuinfo, and the globals before
pub record Hardware : Type 0 where
  pub temp_file : Option (List Bytes)
  pub fan_file : Option (List Bytes)
  pub dev : DevMem
  pub dmi : DmiData
  pub cpuinfo : Option (List Bytes)
  pub cpu : CpuInfo

-- behind `do_dmi_decode`: whether the program goes on
unfoldable pub read_cpu : Hardware → DmiResult → Option Bool
read_cpu h exit_failure = some false
read_cpu h (decoded d) = get_cpu_info h.cpuinfo h.cpu >>= λ c. some true

-- get_ipmi_sensors, do_dmi_decode and get_cpu_info
unfoldable pub read_hardware : Hardware → Option Bool
read_hardware h = do
  sensors ← get_ipmi_sensors h.temp_file h.fan_file
  result ← do_dmi_decode h.dev h.dmi
  read_cpu h result

pub data Run : Type 0 where
  exited : ℕ → Run
  started : Progress → Run

-- behind what is read
unfoldable pub go_on : Option Bool → Progress → Run
go_on none p = started broken
go_on (some false) p = exited 1
go_on (some true) p = started p

-- behind the loop over the options
unfoldable pub start :
    Hardware
    → List Opt
    → StartEnv
    → Bytes
    → Option (List Bytes)
    → List (ℕ → ScriptEnv)
    → Option Bytes
    → Option Settings
    → Run
start h os e dir names envs log_file none = exited 1
start h os e dir names envs log_file (some s) =
    let array : Bytes = disable_array os (zeros 1024) in
    elim (find_burnin_tests dir names array) [
      | none ↦ started broken
      | some tests ↦ go_on (read_hardware h) (program s e dir names array envs log_file)
    ]

-- `main`, for the user that getuid gives
unfoldable pub main :
    ℕ
    → Hardware
    → List Opt
    → StartEnv
    → Bytes
    → Option (List Bytes)
    → List (ℕ → ScriptEnv)
    → Option Bytes
    → Run
main uid h os e dir names envs log_file = elim (uid == 0) [
  | false ↦ exited 255
  | true ↦ start h os e dir names envs log_file (do_options os default_settings)
]
