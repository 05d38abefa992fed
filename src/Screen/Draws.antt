-- ===== src/Screen/Draws.antt =====
-- The calls to ncurses that draw in a window, and the texts that printf pads.
use breakin.Base.{ℕ, zero, suc, ◌-◌, [], ◌∷◌, ◌++◌, Option, none, some, length}
use breakin.Text.{Bytes}
use breakin.Number.{ℤ}

-- mvwprintw, wprintw, mvwhline, mvwvline of length 1, wattron and wattroff
pub data Draw : Type 0 where
  print_at : (y : ℕ) (x : ℕ) → Bytes → Draw
  print : Bytes → Draw
  hline : (y : ℕ) (x : ℕ) → ℤ → Draw
  vline : (y : ℕ) (x : ℕ) → Draw
  color_on : ℕ → Draw
  color_off : ℕ → Draw

-- the row that a call moves to
abbrev pub row_of : Draw → Option ℕ
row_of (print_at y x text) = some y
row_of (hline y x n) = some y
row_of (vline y x) = some y
row_of _ = none

abbrev pub blanks : ℕ → Bytes
blanks zero = []
blanks (suc n) = 32 ∷ blanks n

-- filled up with spaces at the end, or at the front (`%4ld`)
abbrev pub pad_to : ℕ → Bytes → Bytes
pad_to n text = text ++ blanks (n - length text)

abbrev pub pad_left : ℕ → Bytes → Bytes
pad_left n text = blanks (n - length text) ++ text
