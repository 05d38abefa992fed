-- ===== src/Screen/Details.antt =====
-- `draw_detail_window` of breakin.c, and the keys that `handle_keypress` knows. The texts of a disk or a
-- card are the ones of the log device's header; the calls that print one of them are taken together.
use breakin.Base.{ℕ, Bool, List, [], ◌∷◌, ◌++◌, Option, none, some, map, if◌then◌else◌}
use breakin.Text.{Bytes, codes, decimal}
use breakin.Number.{pos}
use breakin.Network.{Nic}
use breakin.Stats.{Disk, State}
use breakin.LogDevice.{Format, disk_text, memory_text, triad_text, nic_text}
use breakin.Burnin.Script.{Stream, null, opened, closed}
use breakin.Screen.Draws.{Draw, print_at, print, hline}

abbrev newline : Bytes
newline = b'\n' ∷ []

module _ {F : Type 0} (format : Format F) where
  unfoldable pub disk_draws : List (Disk F) → List Draw
  disk_draws [] = print (codes "HDD  : No hard disk drives found\n") ∷ []
  disk_draws (d ∷ ds) = map (λ x. print (disk_text format x)) (d ∷ ds)

unfoldable pub nic_draws : List Nic → List Draw
nic_draws [] = print (codes "NIC  : No network cards found\n") ∷ []
nic_draws (n ∷ ns) = map (λ x. print (nic_text x)) (n ∷ ns)

abbrev ssh_draws : Bool → List Draw
ssh_draws enabled =
    if enabled
    then print_at 16 1 (
        codes
          "You can SSH to any IP address assigned above with the username\n 'ssh' to see progress remotely")
      ∷ []
    else []

module _ {F : Type 0} (format : Format F) where
  -- `draw_detail_window(win)`, behind werase
  unfoldable pub draw_detail_window : ℕ → Bool → State F → List Draw
  draw_detail_window cols enabled_ssh s =
      print_at 0 0 (codes "Hardware details\n")
      ∷ hline 1 0 (pos cols)
      ∷ print_at 2 0 (
          codes "Mobo : "
          ++ (s.dmi.board_vendor ++ (codes " - " ++ (s.dmi.board_product ++ newline))))
      ∷ print (codes "BIOS : " ++ (s.dmi.bios_version ++ newline))
      ∷ print (
          codes "SYSTEM : "
          ++ (s.dmi.sys_product ++ (codes " SN: " ++ (s.dmi.sys_serial ++ newline))))
      ∷ print (
          codes "CPU  : "
          ++ (decimal s.cpu_cores
              ++ (codes " x "
                  ++ (s.cpu_model
                      ++ (codes " (" ++ (format.fixed0 s.cpu_speed ++ codes " MHz)\n"))))))
      ∷ print (memory_text format s ++ (triad_text format s.benchmarks ++ newline))
      ∷ (disk_draws format s.disks
          ++ (nic_draws s.nics
              ++ (ssh_draws enabled_ssh ++ print_at 19 0 (codes "Press [ESC] to close") ∷ [])))

-- what getch returns, as far as the loop tells it apart; `no_char` is 0
pub data Key : Type 0 where
  f2 f3 f4 f8 escape other no_char : Key

-- what a key makes the program do
pub data Action : Type 0 where
  show_details hide_details refresh start_dump redraw end_screen close_logdev exec_stop : Action

-- the body of the loop, with `logdev_file`; `none` is a second fclose of the same stream
unfoldable pub press : Key → Stream → Option (List Action × Stream)
press f2 logdev = some (show_details ∷ refresh ∷ [], logdev)
press f3 logdev = some (start_dump ∷ [], logdev)
press f4 logdev = some (redraw ∷ refresh ∷ [], logdev)
press f8 null = some (end_screen ∷ exec_stop ∷ [], null)
press f8 opened = some (end_screen ∷ close_logdev ∷ exec_stop ∷ [], closed)
press f8 closed = none
press escape logdev = some (hide_details ∷ refresh ∷ [], logdev)
press other logdev = some ([], logdev)
press no_char logdev = some ([], logdev)

-- the loop, which 0 ends, for keys after which execv has not replaced the program
unfoldable pub handle_keypress : List Key → Stream → Option (List Action × Stream)
handle_keypress [] logdev = some ([], logdev)
handle_keypress (no_char ∷ keys) logdev = some ([], logdev)
handle_keypress (key ∷ keys) logdev = elim (press key logdev) [
  | none ↦ none
  | some (actions, logdev') ↦ elim (handle_keypress keys logdev') [
    | none ↦ none
    | some (more, end) ↦ some (actions ++ more, end)
  ]
]
