-- ===== src/Options.antt =====
-- The options of breakin.c: the loop over `getopt_long` in `main`. What getopt_long returns, with
-- `optarg`, is a list; `unknown` is any result that the switch has no case for.
pub mod Last
use breakin.Base.{
  ℕ, Bool, true, false, List, [], ◌∷◌, Option, none, some, ltb, if◌then◌else◌, ◌>>=◌,
}
use breakin.Text.{Bytes, copy_n}
use breakin.Number.{ℤ, pos, negsuc, atoi}

pub data Opt : Type 0 where
  update_url update_interval baud serialdev disable_test : Bytes → Opt
  nobenchmark ssh unknown : Opt

-- the globals that the options set
pub record Settings : Type 0 where
  pub enable_updates : Bool
  pub url : Bytes  -- update_url[1024]
  pub interval : ℤ  -- update_interval
  pub enable_benchmarks : Bool
  pub enabled_ssh : Bool
  pub serial_baud : ℤ
  pub serial_dev : Bytes
  pub serial_enabled : Bool
  pub breakin_disable : Bytes

-- their values at the start
abbrev pub default_settings : Settings
default_settings = record {
  enable_updates = false;
  url = [];
  interval = pos 300;
  enable_benchmarks = true;
  enabled_ssh = false;
  serial_baud = pos 115200;
  serial_dev = [];
  serial_enabled = false;
  breakin_disable = [];
}

-- `if (update_interval < 10) { update_interval = DEFAULT_UPDATE_INTERVAL; }`
pub at_least_10 : ℤ → ℤ
at_least_10 (pos n) = if ltb n 10 then pos 300 else pos n
at_least_10 (negsuc n) = pos 300

-- the switch; `none` is `exit(1)`
pub do_option : Opt → Settings → Option Settings
do_option (update_url arg) s = some (record s { enable_updates = true; url = copy_n 1024 arg })
do_option (update_interval arg) s = some (record s { interval = at_least_10 (atoi arg) })
do_option nobenchmark s = some (record s { enable_benchmarks = false })
do_option ssh s = some (record s { enabled_ssh = true })
do_option (baud arg) s = some (record s { serial_baud = atoi arg })
do_option (serialdev arg) s =
    some (record s { serial_dev = copy_n 1024 arg; serial_enabled = true })
do_option (disable_test arg) s = some (record s { breakin_disable = copy_n 1024 arg })
do_option unknown s = none

-- the loop
pub do_options : List Opt → Settings → Option Settings
do_options [] s = some s
do_options (o ∷ os) s = do s' ← do_option o s; do_options os s'
