-- ===== src/Options/Last.antt =====
-- The settings do not depend on the order of different options: each is the one that the last
-- option of its kind gives.
use breakin.Base.{
  ℕ, ◌≡◌, ◌<◌, ◌≤◌, refl, Bool, true, false, ◌||◌, List, [], ◌∷◌, Option, none, some, some-eq,
  arith, if◌then◌else◌, length, >>=-eq-some,
}
use breakin.Text.{Bytes, copy_n, length-copy_n}
use breakin.Number.{ℤ, pos, negsuc, atoi}
use breakin.Options.{
  Opt, update_url, update_interval, baud, serialdev, disable_test, nobenchmark, ssh, unknown,
  Settings, at_least_10, do_option, do_options,
}

-- the last value that some options give, or the value from before
abbrev pub last : {A : Type 0} → (Opt → Option A) → A → List Opt → A
last f old [] = old
last f old (o ∷ os) = last f (elim (f o) [ none ↦ old | some new ↦ new ]) os

abbrev pub any : (Opt → Bool) → List Opt → Bool
any f [] = false
any f (o ∷ os) = f o || any f os

abbrev url_of : Opt → Option Bytes
url_of (update_url arg) = some (copy_n 1024 arg)
url_of _ = none

abbrev interval_of : Opt → Option ℤ
interval_of (update_interval arg) = some (at_least_10 (atoi arg))
interval_of _ = none

abbrev baud_of : Opt → Option ℤ
baud_of (baud arg) = some (atoi arg)
baud_of _ = none

abbrev dev_of : Opt → Option Bytes
dev_of (serialdev arg) = some (copy_n 1024 arg)
dev_of _ = none

abbrev pub disable_of : Opt → Option Bytes
disable_of (disable_test arg) = some (copy_n 1024 arg)
disable_of _ = none

abbrev on_url : Opt → Option Bool
on_url (update_url arg) = some true
on_url _ = none

abbrev on_dev : Opt → Option Bool
on_dev (serialdev arg) = some true
on_dev _ = none

abbrev on_ssh : Opt → Option Bool
on_ssh ssh = some true
on_ssh _ = none

abbrev on_nobenchmark : Opt → Option Bool
on_nobenchmark nobenchmark = some false
on_nobenchmark _ = none

abbrev pub is_unknown : Opt → Bool
is_unknown unknown = true
is_unknown _ = false

abbrev pub chosen : List Opt → Settings → Settings
chosen os s = record {
  enable_updates = last on_url s.enable_updates os;
  url = last url_of s.url os;
  interval = last interval_of s.interval os;
  enable_benchmarks = last on_nobenchmark s.enable_benchmarks os;
  enabled_ssh = last on_ssh s.enabled_ssh os;
  serial_baud = last baud_of s.serial_baud os;
  serial_dev = last dev_of s.serial_dev os;
  serial_enabled = last on_dev s.serial_enabled os;
  breakin_disable = last disable_of s.breakin_disable os;
}

-- The program exits if and only if one of the options is unknown; otherwise each setting is what the
-- last option of its kind gives, or as before.
pub do_options_lem :
    (os : List Opt) (s : Settings)
    → do_options os s ≡ (if any is_unknown os then none else some (chosen os s))
unfolding do_options do_option
do_options_lem [] s = refl
do_options_lem (update_url a ∷ os) s = do_options_lem os _
do_options_lem (update_interval a ∷ os) s = do_options_lem os _
do_options_lem (baud a ∷ os) s = do_options_lem os _
do_options_lem (serialdev a ∷ os) s = do_options_lem os _
do_options_lem (disable_test a ∷ os) s = do_options_lem os _
do_options_lem (nobenchmark ∷ os) s = do_options_lem os _
do_options_lem (ssh ∷ os) s = do_options_lem os _
do_options_lem (unknown ∷ os) s = refl

abbrev pub AtLeast : ℕ → ℤ → Type 0
AtLeast n (pos m) = n ≤ m
AtLeast n (negsuc m) = ⊥

-- The strings fit their arrays, and updates are at least 10 seconds apart.
pub record Within (s : Settings) : Type 0 where
  pub url : length s.url < 1024
  pub dev : length s.serial_dev < 1024
  pub disable : length s.breakin_disable < 1024
  pub interval : AtLeast 10 s.interval

at_least_10_lem : (z : ℤ) → AtLeast 10 (at_least_10 z)
unfolding at_least_10
at_least_10_lem (pos n) = ground arith
at_least_10_lem (negsuc n) = omega arith

do_option-Within : (o : Opt) (s s' : Settings) → Within s → do_option o s ≡ some s' → Within s'
unfolding do_option
do_option-Within (update_url a) s s' w e = ground (arith, length-copy_n 1024 a)
do_option-Within (update_interval a) s s' w e = ground (arith, at_least_10_lem (atoi a))
do_option-Within (baud a) s s' w e = ground arith
do_option-Within (serialdev a) s s' w e = ground (arith, length-copy_n 1024 a)
do_option-Within (disable_test a) s s' w e = ground (arith, length-copy_n 1024 a)
do_option-Within nobenchmark s s' w e = ground arith
do_option-Within ssh s s' w e = ground arith
do_option-Within unknown s s' w e = cc

-- Whatever the options are: if the program goes on, the strings fit their arrays and the interval is
-- at least 10 seconds, given that this holds of the settings before.
do_options-Within :
    (os : List Opt) (s s' : Settings) → Within s → do_options os s ≡ some s' → Within s'
unfolding do_options
do_options-Within [] s s' w e = rw (← some-eq e) w
do_options-Within (o ∷ os) s s' w e =
    let (s1, e1, e2) = >>=-eq-some (do_option o s) _ e in
    do_options-Within os s1 s' (do_option-Within o s s1 w e1) e2
