-- ===== src/Screen/Tiles.antt =====
-- How the windows of `setup_screen` lie on the screen.
use breakin.Base.{
  ℕ, ◌+◌, ◌-◌, ◌≤◌, ◌<◌, ◌≡◌, refl, Bool, true, false, ◌&&◌, List, [], ◌∷◌, ltb, leb, ◌==◌,
  if◌then◌else◌, All, arith,
}
use breakin.Number.{ℤ, pos, negsuc}
use breakin.Screen.{Window, stat_height, stat_window, log_window, bottom_window}
use breakin.Screen.Setup.{
  main_win, details_border, Call, newwin, subwin, create_newwin, create_subwin, whole,
  border_window, setup_screen,
}

-- whether a row of the screen lies in a window
abbrev spans : ℕ → ℤ → ℤ → Bool
spans row (pos y) (pos h) = leb y row && ltb row (y + h)
spans row (pos y) (negsuc h) = false
spans row (negsuc y) h = false

abbrev has_row : ℕ → Window → ℕ
has_row row w = if spans row w.y w.height then 1 else 0

-- how many of the windows in the main window have the row
abbrev pub covers : ℕ → List Call → ℕ
covers row [] = 0
covers row (subwin name main_win w ∷ calls) = has_row row w + covers row calls
covers row (c ∷ calls) = covers row calls

-- One stretch lies in another, with `room` free on both sides, and is not empty.
abbrev Lies : ℕ → ℤ → ℤ → ℤ → ℤ → Type 0
Lies room (pos y) (pos h) (pos y') (pos h') = (y' + room ≤ y) × (y + h + room ≤ y' + h') × (0 < h)
Lies room _ _ _ _ = ⊥

abbrev pub LiesIn : ℕ → Window → Window → Type 0
LiesIn room w v =
    Lies room w.y w.height v.y v.height × Lies room (pos w.x) (pos w.width) (pos v.x) (pos v.width)

-- What a call creates lies on the screen, in the main window, or inside the frame of the details.
abbrev pub Placed : ℕ → ℕ → Call → Type 0
Placed lines cols (newwin name w) = LiesIn 0 w (whole lines cols)
Placed lines cols (subwin name main_win w) = LiesIn 0 w (whole lines cols)
Placed lines cols (subwin name details_border w) = LiesIn 1 w border_window
Placed lines cols (subwin name _ w) = ⊥
Placed lines cols _ = Unit {0}

log_window_eq :
    (lines cols h : ℕ)
    → h + 4 ≤ lines
    → log_window lines cols h
      ≡ record { height = pos (lines - (h + 3)); width = cols; y = pos (h + 1); x = 0 }
unfolding log_window
log_window_eq lines cols h l = let q : leb (h + 3) lines ≡ true = ground arith in rw q refl

bottom_window_eq :
    (lines cols : ℕ)
    → 2 ≤ lines
    → bottom_window lines cols ≡ record { height = pos 2; width = cols; y = pos (lines - 2); x = 0 }
unfolding bottom_window
bottom_window_eq lines cols l = let q : leb 2 lines ≡ true = ground arith in rw q refl

-- The three windows of the main window, counted.
tiles :
    (lines cols h row : ℕ)
    → h + 4 ≤ lines
    → row < lines
    → has_row row (log_window lines cols h)
        + (has_row row (stat_window cols h) + (has_row row (bottom_window lines cols) + 0))
      ≡ (if row == h then 0 else 1)
unfolding stat_window
tiles lines cols h row l b =
    rw (log_window_eq lines cols h l, bottom_window_eq lines cols (omega arith)) (ground arith)

-- On a screen of 23 rows and 76 columns or more, with at least four rows more than the statistics need:
-- every row of the screen lies in exactly one of the three windows in the main window, but for the row
-- under the statistics, which is in none; every window lies where it can be created, none is empty, and
-- the details leave their frame free on all sides.
pub setup_screen-Placed :
    (lines cols temps fans scripts row : ℕ)
    → stat_height temps fans scripts + 4 ≤ lines
    → 23 ≤ lines
    → 76 ≤ cols
    → row < lines
    → (covers row (setup_screen lines cols temps fans scripts)
        ≡ (if row == stat_height temps fans scripts then 0 else 1))
      × All (Placed lines cols) (setup_screen lines cols temps fans scripts)
unfolding setup_screen create_newwin create_subwin stat_window
setup_screen-Placed lines cols temps fans scripts row l tall wide b =
    let h : ℕ = stat_height temps fans scripts in
    (
      tiles lines cols h row l b,
      rw (log_window_eq lines cols h l, bottom_window_eq lines cols (omega arith)) (ground arith),
    )
