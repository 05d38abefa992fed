-- ===== src/Examples.antt =====
-- The theorems of the smaller parts, applied to concrete inputs.
use breakin.Base.{◌≡◌, ◌+◌, refl, List, [], ◌∷◌, ◌++◌, none, some, arith, length, take}
use breakin.Text.{Bytes, codes, contains, starts_with, decimal2, decimal_onto, decimal}
use breakin.Trim.{trim_at, trim, trim_buffer}
use breakin.Trim.Shift.{NoNul}
use breakin.Trim.Strip.{trim_at-trim, trim_at_underrun}
use breakin.Log.{error}
use breakin.Log.Clock.{running_time, split_time}
use breakin.Tail.{
  tail_file, monitor_syslog, show_log, take_line, read_lines, severe_calls, log_lines,
}
use breakin.Number.{skip_white}
use breakin.Options.{Opt, update_interval, disable_test, ssh, default_settings, do_options}
use breakin.Options.Last.{chosen, do_options_lem}
use breakin.Cpu.{Cpu, sample}
use breakin.Cpu.Wrap.{Times, observe, sample-sample}
use breakin.Disks.{Sys, max_disks, get_hd_info}
use breakin.Disks.Found.{NoBlank, disks_of, get_hd_info_lem}
use breakin.Hpl.{Grid, print_grid, calc_pq}
use breakin.Hpl.Square.{IsSquarest, calc_pq-IsSquarest}

abbrev padded : Bytes
padded = codes " \tab \n"

padded-NoNul : NoNul padded
padded-NoNul = ground arith

blanks-NoNul : NoNul (codes "  ")
blanks-NoNul = ground arith

padded_text : trim padded ≡ codes "ab"
unfolding trim
padded_text = refl

blanks_text : trim (codes "  ") ≡ []
unfolding trim
blanks_text = refl

trim_at-trim_example :
    (junk : Bytes) × (trim_at (1 ∷ (padded ++ 0 ∷ 9 ∷ [])) 1 ≡ some (1 ∷ (trim padded ++ 0 ∷ junk)))
    × (length (trim padded) + length junk ≡ 7)
trim_at-trim_example =
    trim_at-trim padded padded-NoNul (1 ∷ []) (9 ∷ []) (λ e. ground (arith, padded_text))

trim_at_underrun_example : trim_at (codes "  " ++ 0 ∷ []) 0 ≡ none
trim_at_underrun_example = trim_at_underrun (codes "  ") blanks-NoNul [] blanks_text

calc_pq-IsSquarest_example : (g : Grid) × (calc_pq 12 ≡ some g) × IsSquarest 12 g
calc_pq-IsSquarest_example = calc_pq-IsSquarest 12 (omega arith)

abbrev chosen_options : List Opt
chosen_options =
    update_interval (codes "5")
    ∷ disable_test (codes "hpl")
    ∷ update_interval (codes "60")
    ∷ ssh
    ∷ []

do_options_lem_example :
    do_options chosen_options default_settings ≡ some (chosen chosen_options default_settings)
do_options_lem_example = do_options_lem chosen_options default_settings

abbrev before : Times
before = record { user = 4294967290; nice = 0; sys = 10; idle = 4294967000 }

abbrev after : Times
after = record { user = 4294967300; nice = 0; sys = 20; idle = 4294967380 }

abbrev new_cpu : Cpu
new_cpu = record {
  cpu_idle = 0;
  cpu_usage = 0;
  last_idle = 0;
  last_usage = 0;
  percent = record { used = 0; total = 0 };
}

sample-sample_example :
    (sample (observe after) (sample (observe before) new_cpu)).percent
    ≡ record { used = 20; total = 20 + 380 }
sample-sample_example = sample-sample before after new_cpu (omega arith) (omega arith) (omega arith)

-- every attribute reads "0"
abbrev zeros_sys : Sys
zeros_sys name = some (codes "0\n")

zeros_sys-NoBlank : NoBlank zeros_sys
unfolding skip_white
zeros_sys-NoBlank name content e h = cc (e, h)

abbrev block_dir : List Bytes
block_dir = codes "." ∷ codes "sda" ∷ codes "loop0" ∷ codes "hdb" ∷ []

get_hd_info_lem_example :
    get_hd_info zeros_sys (some block_dir) [] []
    ≡ some (take max_disks (disks_of zeros_sys block_dir))
get_hd_info_lem_example = get_hd_info_lem zeros_sys block_dir [] [] zeros_sys-NoBlank

-- Runs of the parts that no theorem stands for.
syslog_run :
    monitor_syslog (some 2) (some (codes "a\nkern.err disk \nkern.info ok\n"))
    ≡ some (some 30, error (codes "kern.err disk") ∷ [])
unfolding monitor_syslog severe_calls tail_file read_lines take_line trim_buffer contains
    starts_with
syslog_run = refl

error_log_run :
    show_log (some 2) (some (codes "a\n  bad fan\n")) ≡ some (some 12, error (codes "bad fan") ∷ [])
unfolding show_log log_lines tail_file read_lines take_line trim_buffer
error_log_run = refl

grid_run : print_grid (record { ps = 3; qs = 4 }) ≡ codes "3            Ps\n4            Qs\n"
unfolding print_grid decimal decimal_onto
grid_run = refl

clock_run : running_time 3661 ≡ codes "01h 01m 01s"
unfolding running_time split_time decimal2 decimal decimal_onto
clock_run = refl
