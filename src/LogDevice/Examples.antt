-- ===== src/LogDevice/Examples.antt =====
-- The theorem of the log device, applied with a serial port that cannot be opened.
use breakin.Base.{ℕ, zero, suc, ◌≡◌, refl, true, false, ◌&&◌, List, [], ◌∷◌, ◌++◌, none, some}
use breakin.Text.{codes}
use breakin.Number.{pos}
use breakin.Log.{LogCall, message, Sinks, log_calls}
use breakin.Log.Replay.{device_line, lines}
use breakin.LogDevice.{SerialEnv, start_logdev, port_speed, temps_text, Format}
use breakin.LogDevice.Begins.{own_calls, start_logdev_lem}

abbrev no_port : SerialEnv
no_port = record { open_ok = false; fdopen_ok = false }

abbrev ready : Sinks
ready = record {
  log_win = [];
  log_file = some [];
  logdev_file = none;
  serial_file = none;
  serial_enabled = true;
}

abbrev two_calls : List (ℕ × LogCall)
two_calls =
    (4, message (codes "Starting burnin tests")) ∷ (9, message (codes "memory: half way")) ∷ []

start_logdev_lem_example :
    ((true && false ≡ false → true && false ≡ false)
      → (k' : Sinks) × (start_logdev 3 true no_port (codes "/dev/ttyS0") (codes "header") ready
          ≡ some k')
        × ((log_calls two_calls k').logdev_file
            ≡ some (
                (lines device_line (own_calls 3 true no_port (codes "/dev/ttyS0"))
                  ++ codes "header")
                ++ lines device_line two_calls))
        × ((log_calls two_calls k').serial_file ≡ none)
        × ((log_calls two_calls k').serial_enabled ≡ false))
    × (false ≡ false
        → false ≡ true
        → start_logdev 3 true no_port (codes "/dev/ttyS0") (codes "header") ready ≡ none)
start_logdev_lem_example =
    start_logdev_lem 3 no_port (codes "/dev/ttyS0") (codes "header") ready two_calls refl

-- a rate that the switch does not know
port_speed_test : port_speed (pos 4800) ≡ 9600
unfolding port_speed
port_speed_test = refl

port_speed_known : port_speed (pos 57600) ≡ 57600
unfolding port_speed
port_speed_known = refl

abbrev whole_degrees : Format ℕ
whole_degrees = record {
  fixed0 = λ n. codes "t";
  fixed1 = λ n. codes "t";
  fixed2 = λ n. codes "t";
  in_mb = λ z. 0;
  positive = λ n. elim n [ zero ↦ false | suc m ↦ true ];
}

-- a sensor without a reading is left out
temps_text_test : temps_text whole_degrees (40 ∷ 0 ∷ 41 ∷ []) ≡ codes "tC  tC  "
unfolding temps_text
temps_text_test = refl
