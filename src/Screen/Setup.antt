-- ===== src/Screen/Setup.antt =====
-- `setup_screen` of breakin.c with `create_newwin` and `create_subwin`: the calls to ncurses that it
-- makes, in order. What ncurses answers is not kept: the source never looks at it.
use breakin.Base.{ℕ, List, [], ◌∷◌, ◌++◌}
use breakin.Number.{pos}
use breakin.Screen.{Window, stat_height, stat_window, log_window, bottom_window}

-- the screen of ncurses, and the windows of the program
pub data Name : Type 0 where
  stdscr main_win log_win stat_win bottom_bar details_border details_win : Name

pub data Panel : Type 0 where
  details_panel main_panel : Panel

pub data Color : Type 0 where
  red green yellow black : Color

pub data Call : Type 0 where
  initscr cbreak start_color noecho clrtobot update_panels doupdate refresh : Call
  keypad nodelay scrollok wrefresh frame touchwin : Name → Call
  init_pair : ℕ → Color → Color → Call
  newwin : Name → Window → Call
  subwin : Name → (parent : Name) → Window → Call
  mvwhline : Name → (y : ℕ) → (x : ℕ) → (n : ℕ) → Call
  new_panel : Panel → Name → Call
  hide_panel : Panel → Call

-- `name = create_newwin(…)`
unfoldable pub create_newwin : Name → Window → List Call
create_newwin name w = newwin name w ∷ wrefresh name ∷ []

-- `name = create_subwin(parent, …)`
unfoldable pub create_subwin : Name → Name → Window → List Call
create_subwin name parent w = subwin name parent w ∷ wrefresh name ∷ []

abbrev pub whole : ℕ → ℕ → Window
whole lines cols = record { height = pos lines; width = cols; y = pos 0; x = 0 }

-- the calls in front of the windows
abbrev prepare : List Call
prepare =
    initscr
    ∷ cbreak
    ∷ keypad stdscr
    ∷ nodelay stdscr
    ∷ start_color
    ∷ noecho
    ∷ clrtobot
    ∷ init_pair 1 red black
    ∷ init_pair 2 green black
    ∷ init_pair 3 yellow black
    ∷ []

-- `details_border` and `details_win`
abbrev pub border_window : Window
border_window = record { height = pos 22; width = 72; y = pos 1; x = 4 }

abbrev pub inner_window : Window
inner_window = record { height = pos 20; width = 68; y = pos 2; x = 6 }

-- `setup_screen()`, on a screen of `lines` rows and `cols` columns
unfoldable pub setup_screen :
    (lines : ℕ) (cols : ℕ) (temp_qty : ℕ) (fan_qty : ℕ) (burnin_script_count : ℕ) → List Call
setup_screen lines cols temp_qty fan_qty burnin_script_count =
    let height : ℕ = stat_height temp_qty fan_qty burnin_script_count in
    prepare
    ++ (create_newwin main_win (whole lines cols)
        ++ (create_subwin log_win main_win (log_window lines cols height)
            ++ (create_subwin stat_win main_win (stat_window cols height)
                ++ (create_subwin bottom_bar main_win (bottom_window lines cols)
                    ++ (mvwhline bottom_bar 0 0 cols
                        ∷ (create_newwin details_border border_window
                            ++ (create_subwin details_win details_border inner_window
                                ++ (frame details_border
                                    ∷ new_panel details_panel details_border
                                    ∷ hide_panel details_panel
                                    ∷ new_panel main_panel main_win
                                    ∷ update_panels
                                    ∷ doupdate
                                    ∷ scrollok log_win
                                    ∷ touchwin stdscr
                                    ∷ refresh
                                    ∷ []))))))))
