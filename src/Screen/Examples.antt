-- ===== src/Screen/Examples.antt =====
-- The theorem of the statistics window, applied to a machine with four sensors.
use breakin.Base.{ℕ, ◌≤◌, ◌≡◌, refl, List, [], ◌∷◌, none, some, length, All, arith, ltb, leb}
use mathlib.Core.List.{Mem}
use breakin.Text.{codes, copy_n}
use breakin.Number.{pos}
use breakin.Burnin.Script.{Script, idle, null, process}
use breakin.Screen.Draws.{Draw, hline}
use breakin.Screen.{Format, Frame, View, draw_stat_window, temps_fit, cut_label, cell}
use breakin.Screen.Layout.{Fits, last_row, shown_temps, draw_stat_window_lem}
use breakin.Screen.Setup.{setup_screen}
use breakin.Screen.Tiles.{covers, Placed, setup_screen-Placed}
use breakin.Screen.Rows.{shown_fans}

abbrev degrees : Format ℕ
degrees = record {
  fixed1 = λ n. codes "40.0";
  percent3 = λ n. codes " 12%";
  bar = λ n width. 7;
  positive = λ n. ltb 0 n;
  red = λ n. leb 60 n;
  yellow = λ n. leb 50 n;
}

abbrev memory_test : Script
memory_test = record {
  name = codes "memory";
  path = codes "/etc/breakin/tests/memory";
  last_msg = [];
  last_result = 0;
  running = idle;
  pid = process 0;
  fp_stdout = null;
  pass_count = 0;
  fail_count = 0;
}

abbrev node : View ℕ
node = record {
  title = codes "Advanced Clustering Breakin";
  cpu_percent = 12;
  mem_percent = 12;
  temps =
      record { name = codes "CPU1"; value = 40 }
      ∷ record { name = codes "CPU2"; value = 61 }
      ∷ record { name = codes "System"; value = 51 }
      ∷ [];
  fans = record { name = codes "FAN1"; value = pos 4000 } ∷ [];
  scripts = memory_test ∷ [];
}

-- arrays at multiples of 8 bytes
abbrev aligned : Frame
aligned = record { string = 24; label = 16; junk = [] }

draw_stat_window_lem_example :
    (draws : List Draw) × (draw_stat_window degrees 80 aligned node ≡ some draws)
    × All (Fits 12 (hline 12 0 (pos 80))) draws
    × Mem (hline 12 0 (pos 80)) draws
    × (12 ≤ 12)
    × (shown_temps degrees node.temps ≡ length node.temps
        → shown_fans node.fans ≡ length node.fans
        → last_row degrees node ≡ 12)
draw_stat_window_lem_example =
    draw_stat_window_lem degrees 80 aligned node
      (record { string = omega arith; label = omega arith })

-- without a byte behind `string` no sensor can be shown
strict_test :
    draw_stat_window degrees 80 (record { string = 22; label = 10; junk = [] }) node ≡ none
unfolding draw_stat_window temps_fit
strict_test = refl

-- a label of 15 characters is cut to 14, and what stands behind it on the stack is shown
cut_label_test : cut_label 14 (codes "??") (codes "Processor1_Temp") ≡ codes "Processor1_Tem??"
unfolding cut_label
cut_label_test = refl

cell_test : cell (codes "CPU1") (codes "40.0C") ≡ codes "CPU1: 40.0C           "
unfolding cell copy_n
cell_test = refl

setup_screen-Placed_example :
    (covers 12 (setup_screen 40 80 3 1 1) ≡ 0) × All (Placed 40 80) (setup_screen 40 80 3 1 1)
setup_screen-Placed_example =
    setup_screen-Placed 40 80 3 1 1 12 (omega arith) (omega arith) (omega arith) (omega arith)
