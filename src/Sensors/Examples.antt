-- ===== src/Sensors/Examples.antt =====
-- The theorems on sensors, applied to lines as ipmi prints them.
use breakin.Base.{◌≡◌, refl, List, [], ◌∷◌, some, arith, All, take}
use breakin.Text.{Bytes, codes, copy_n}
use breakin.Dmi.Strings.{split_string}
use breakin.Trim.{leading, close_up, shift, find_end, strip_back, trim_at, trim}
use breakin.Number.{atoi, signed, digits, negate, ℤ, pos, skip_white}
use breakin.Sensors.{
  read_file, read_label, store, take_value, scan_head, get_ipmi_sensors, max_temps, split_bar,
  scan_value, read_line, read_sensors,
}
use breakin.Sensors.Table.{IsWell, readings, read_sensors-readings}

abbrev temp_lines : List Bytes
temp_lines =
    codes "CPU Temp | 40\n"
    ∷ codes "Fan only\n"
    ∷ codes " VRM Temperature of node | -3 C | ok\n"
    ∷ []

temp_lines-IsWell : All (IsWell 0) temp_lines
unfolding split_bar scan_value trim skip_white
temp_lines-IsWell = (
  record {
    label = record { no_nul = ground arith; text = λ e. cc; long = omega arith };
    value = λ e. cc;
  },
  (
    record {
      label = record { no_nul = ground arith; text = λ e. cc; long = omega arith };
      value = λ e. cc;
    },
    (
      record {
        label = record { no_nul = ground arith; text = λ e. cc; long = omega arith };
        value = λ e. cc;
      },
      tt,
    ),
  ),
)

read_sensors-readings_example :
    (last : ℤ) × (read_sensors max_temps 0 temp_lines (pos 0) 0
      ≡ some (take max_temps (readings 0 temp_lines), last))
read_sensors-readings_example =
    read_sensors-readings temp_lines max_temps 0 (pos 0) 0 temp_lines-IsWell

-- A run on both files: the value of the last temperature is what a blank fan line gets.
ipmi_run :
    get_ipmi_sensors (some (codes "CPU | 40\n" ∷ [])) (some (codes "FAN1 | \n" ∷ []))
    ≡ some (
      record { name = codes "CPU"; value = pos 40 } ∷ [],
      record { name = codes "1"; value = pos 40 } ∷ [],
    )
unfolding get_ipmi_sensors read_file read_sensors read_line read_label store take_value scan_value
    scan_head split_bar trim_at leading close_up shift find_end strip_back split_string copy_n
    skip_white atoi signed digits negate
ipmi_run = refl
