-- ===== src/Screen.antt =====
-- The statistics window of breakin.c: `draw_stat_window` with `draw_graph`, as the calls that they make
-- to ncurses, and the sizes that `setup_screen` gives its windows. A double is a value of any type, with
-- what the source does with it. The screen has 33 columns or more. The loops over the sensors write a
-- byte behind `string` (line 766 and 815) and may write one behind the `label` of a fan; how much room the
-- compiler leaves there is a parameter, and `none` is a write behind it.
pub mod Draws
pub mod Rows
pub mod Room
pub mod Layout
pub mod Details
pub mod Setup
pub mod Tiles
mod Examples
use breakin.Base.{
  ℕ, zero, suc, ◌+◌, ◌-◌, ◌/◌, ◌%◌, Bool, true, false, List, [], ◌∷◌, ◌++◌, Option, none, some, ltb,
  leb, ◌==◌, ◌&&◌, if◌then◌else◌, length, take, concat, map,
}
use breakin.Text.{Bytes, codes, copy_n}
use breakin.Number.{ℤ, pos, negsuc, sub_ℕ, decimal_signed}
use breakin.Log.Clock.{running_time}
use breakin.Stats.{as_long}
use breakin.Burnin.Script.{Script, Running, idle, active, disabled}
use breakin.Screen.Draws.{
  Draw, print_at, print, hline, vline, color_on, color_off, blanks, pad_to, pad_left,
}

-- How the compiler places the arrays on the stack: the bytes from the start of `string[22]` and of
-- `label[10]` that belong to nothing else, and what stands behind a label that is cut, up to a NUL.
pub record Frame : Type 0 where
  pub string : ℕ
  pub label : ℕ
  pub junk : Bytes

-- what the source does with a double
pub record Format (F : Type 0) : Type 0 where
  pub fixed1 : F → Bytes  -- "%.1f"
  pub percent3 : F → Bytes  -- "%3.0f%%"
  pub bar : F → ℕ → ℕ  -- `percent * ((double) bar_width / 100)` as an int
  pub positive : F → Bool  -- `> 0`
  pub red : F → Bool  -- `>= TEMP_RED`
  pub yellow : F → Bool  -- `>= TEMP_YELLOW`

pub record Temp (F : Type 0) : Type 0 where
  pub name : Bytes
  pub value : F

pub record Fan : Type 0 where
  pub name : Bytes
  pub value : ℤ

-- the globals that are shown; `title` is the first line
pub record View (F : Type 0) : Type 0 where
  pub title : Bytes
  pub cpu_percent : F
  pub mem_percent : F
  pub temps : List (Temp F)
  pub fans : List Fan
  pub scripts : List Script

-- `label`, of `limit` characters: a longer name is cut, without a NUL
unfoldable pub cut_label : ℕ → Bytes → Bytes → Bytes
cut_label limit junk name = if ltb limit (length name) then take limit name ++ junk else name

-- `string`: 21 characters at most, filled up with spaces to 22
unfoldable pub cell : Bytes → Bytes → Bytes
cell label text = pad_to 22 (copy_n 22 (label ++ (codes ": " ++ text)))

-- behind a sensor: a new line after each third, at `row` + 1
unfoldable pub break_line : ℕ → ℕ → List Draw × ℕ
break_line row displayed =
    if displayed % 3 == 0 then (print_at (suc row) 1 (blanks 12) ∷ [], suc row) else ([], row)

unfoldable pub unsupported : ℕ → List Draw
unsupported qty = if qty == 0 then print (codes "Not supported") ∷ [] else []

-- a sensor that is shown: its cell, the line break, and the rest of the loop with its `linepos` and
-- number of sensors
unfoldable pub place : List Draw → ℕ → ℕ → (ℕ → ℕ → List Draw × ℕ) → List Draw × ℕ
place cells row displayed next =
    let (draws, below) = break_line row (suc displayed) in
    let (more, end) = next below (suc displayed) in (cells ++ (draws ++ more), end)

abbrev pub fan_cell : Bytes → Bytes → ℕ → List Draw
fan_cell junk name value =
    print (cell (cut_label 10 junk name) (decimal_signed (pos value) ++ codes " RPM") ++ b' ' ∷ [])
    ∷ []

-- the loop over the fans, with `linepos` and `fan_displayed`
unfoldable pub fan_draws : Bytes → List Fan → ℕ → ℕ → List Draw × ℕ
fan_draws junk [] row displayed = ([], row)
fan_draws junk (f ∷ fs) row displayed = elim f.value [
  | negsuc n ↦ fan_draws junk fs row displayed
  | pos n ↦ place (fan_cell junk f.name n) row displayed (λ r d. fan_draws junk fs r d)
]

module _ {F : Type 0} (format : Format F) where
  -- `draw_graph(win, y, label, percent)`
  unfoldable pub draw_graph : ℕ → ℕ → Bytes → F → List Draw
  draw_graph cols y label percent =
      let width : ℕ = cols - 21 in
      let show : ℕ = format.bar percent width in
      print_at y 1 label
      ∷ color_on 2
      ∷ print_at y 13 (b'|' ∷ [])
      ∷ hline y (14 + show) (sub_ℕ width show)
      ∷ hline y 14 (pos show)
      ∷ print_at y (width + 14) (b'|' ∷ [])
      ∷ color_off 2
      ∷ print_at y (width + 16) (format.percent3 percent)
      ∷ []

  -- a temperature, in its color
  unfoldable pub temp_cell : Bytes → Temp F → List Draw
  temp_cell junk t =
      let text : Bytes =
        cell (cut_label 14 junk t.name) (format.fixed1 t.value ++ codes "C") ++ b' ' ∷ [] in
      if format.red t.value
      then color_on 1 ∷ print text ∷ color_off 1 ∷ []
      else if format.yellow t.value
      then color_on 3 ∷ print text ∷ color_off 3 ∷ []
      else print text ∷ []

  -- the loop over the temperatures, with `linepos` and `temp_displayed`
  unfoldable pub temp_draws : Bytes → List (Temp F) → ℕ → ℕ → List Draw × ℕ
  temp_draws junk [] row displayed = ([], row)
  temp_draws junk (t ∷ ts) row displayed = elim (format.positive t.value) [
    | false ↦ temp_draws junk ts row displayed
    | true ↦ place (temp_cell junk t) row displayed (λ r d. temp_draws junk ts r d)
  ]

-- `string[22] = '\0'`, and sprintf of a name of up to 10 characters to `label`
unfoldable pub fan_fits : Frame → Fan → Bool
fan_fits frame f = elim f.value [
  | negsuc n ↦ true
  | pos n ↦
      leb 23 frame.string
      && (if ltb 10 (length f.name) then true else ltb (length f.name) frame.label)
]

unfoldable pub fans_fit : Frame → List Fan → Bool
fans_fit frame [] = true
fans_fit frame (f ∷ fs) = fan_fits frame f && fans_fit frame fs

module _ {F : Type 0} (format : Format F) where
  -- `string[22] = '\0'` for each temperature that is shown
  unfoldable pub temps_fit : Frame → List (Temp F) → Bool
  temps_fit frame [] = true
  temps_fit frame (t ∷ ts) =
      (if format.positive t.value then leb 23 frame.string else true) && temps_fit frame ts

abbrev is_active : Running → Bool
is_active active = true
is_active _ = false

abbrev counter : ℕ → Bytes
counter n = pad_left 4 (decimal_signed (as_long n))

abbrev colored : Bool → ℕ → Draw → List Draw
colored b color d = if b then color_on color ∷ d ∷ color_off color ∷ [] else d ∷ []

-- the row of a script
unfoldable pub script_draws : ℕ → ℕ → Script → List Draw
script_draws cols row s =
    colored (is_active s.running) 2 (print_at row 1 s.name)
    ++ (vline row 16
        ∷ vline row 21
        ∷ vline row 26
        ∷ print_at row 17 (counter s.pass_count)
        ∷ (colored (ltb 0 s.fail_count) 1 (print_at row 22 (counter s.fail_count))
            ++ print_at row 27 (take (cols - 30) s.last_msg) ∷ []))

-- the loop over the scripts
unfoldable pub scripts_draws : ℕ → ℕ → List Script → List Draw
scripts_draws cols row [] = []
scripts_draws cols row (s ∷ ss) = script_draws cols row s ++ scripts_draws cols (suc row) ss

-- the head of the table and its two rules; `count` is `burnin_script_count`
unfoldable pub table_draws : ℕ → ℕ → ℕ → List Draw
table_draws cols start count =
    print_at start 6 (codes "Test")
    ∷ print_at start 17 (codes "Pass")
    ∷ print_at start 22 (codes "Fail")
    ∷ print_at start (cols - 33) (codes "Last message")
    ∷ hline (start + 1) 0 (pos cols)
    ∷ hline (start + count + 2) 0 (pos cols)
    ∷ []

-- below the sensors, which end on the row `end`
unfoldable pub below_draws : ℕ → ℕ → List Script → List Draw
below_draws cols end scripts =
    hline (end + 2) 0 (pos cols)
    ∷ (table_draws cols (end + 3) (length scripts) ++ scripts_draws cols (end + 5) scripts)

module _ {F : Type 0} (format : Format F) where
  -- the calls of `draw_stat_window(win)`
  unfoldable pub stat_draws : ℕ → Bytes → View F → List Draw
  stat_draws cols junk v =
      let (temps, row) = temp_draws format junk v.temps 4 0 in
      let (fans, end) = fan_draws junk v.fans (suc row) 0 in
      print_at 0 1 v.title
      ∷ hline 1 0 (pos cols)
      ∷ (draw_graph format cols 2 (codes "CPU usage") v.cpu_percent
          ++ (draw_graph format cols 3 (codes "Mem Usage") v.mem_percent
              ++ (print_at 4 1 (codes "Temps       ")
                  ∷ (temps
                      ++ (unsupported (length v.temps)
                          ++ (print_at (suc row) 1 (codes "Fans        ")
                              ∷ (fans
                                  ++ (unsupported (length v.fans)
                                      ++ below_draws cols end v.scripts))))))))

  -- `draw_stat_window(win)`, on its window
  unfoldable pub draw_stat_window : ℕ → Frame → View F → Option (List Draw)
  draw_stat_window cols frame v =
      if temps_fit format frame v.temps && fans_fit frame v.fans
      then some (stat_draws cols frame.junk v)
      else none

  -- its two texts on the bottom bar
  unfoldable pub bottom_draws : ℕ → ℕ → List Draw
  bottom_draws cols now =
      print_at 1 0 (codes " [F2]=hardware info  [F3]=dump log to usb [F4]=redraw scr. [F8]=quit")
      ∷ color_on 2
      ∷ print_at 1 (cols - 13) (running_time now)
      ∷ color_off 2
      ∷ []

-- a window of `setup_screen`
pub record Window : Type 0 where
  pub height : ℤ
  pub width : ℕ
  pub y : ℤ
  pub x : ℕ

-- `stat_height`
abbrev pub stat_height : ℕ → ℕ → ℕ → ℕ
stat_height temps fans scripts = 10 + temps / 3 + fans / 3 + scripts

-- `stat_win`, `log_win` and `bottom_bar`, on a screen of `lines` rows
unfoldable pub stat_window : ℕ → ℕ → Window
stat_window cols height = record { height = pos height; width = cols; y = pos 0; x = 0 }

unfoldable pub log_window : ℕ → ℕ → ℕ → Window
log_window lines cols height = record {
  height = sub_ℕ lines (height + 3);
  width = cols;
  y = pos (height + 1);
  x = 0;
}

unfoldable pub bottom_window : ℕ → ℕ → Window
bottom_window lines cols = record { height = pos 2; width = cols; y = sub_ℕ lines 2; x = 0 }
