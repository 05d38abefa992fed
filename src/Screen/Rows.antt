-- ===== src/Screen/Rows.antt =====
-- The rows that the statistics window is drawn on, against the height that `setup_screen` gives it.
use breakin.Base.{
  ℕ, suc, ◌+◌, ◌/◌, ◌%◌, ◌<◌, ◌≤◌, ◌≡◌, refl, inl, inr, ◌⊎◌, Bool-cases, List, [], ◌∷◌, ◌==◌, All,
  All-append, arith,
}
use breakin.Text.{Bytes}
use breakin.Number.{ℤ, pos, negsuc}
use breakin.Screen.Draws.{Draw, print_at, print, hline, vline, color_on, color_off}
use breakin.Screen.{Fan, break_line, place, fan_cell, fan_draws}

-- A call that stays on the rows below `h`.
abbrev pub Within : ℕ → Draw → Type 0
Within h (print_at y x text) = y < h
Within h (hline y x n) = y < h
Within h (vline y x) = y < h
Within h (print text) = Unit {0}
Within h (color_on c) = Unit {0}
Within h (color_off c) = Unit {0}

Within-mono : (h k : ℕ) (d : Draw) → h ≤ k → Within h d → Within k d
Within-mono h k (print_at y x text) l w = omega arith
Within-mono h k (hline y x n) l w = omega arith
Within-mono h k (vline y x) l w = omega arith
Within-mono h k (print text) l w = tt
Within-mono h k (color_on c) l w = tt
Within-mono h k (color_off c) l w = tt

pub All-Within-mono : (h k : ℕ) (ds : List Draw) → h ≤ k → All (Within h) ds → All (Within k) ds
All-Within-mono h k [] l a = tt
All-Within-mono h k (d ∷ ds) l a = (Within-mono h k d l a.0, All-Within-mono h k ds l a.1)

-- What the loops leave: the new row, and no call behind it.
abbrev pub Reaches : ℕ → List Draw × ℕ → Type 0
Reaches end r = (r.1 ≡ end) × All (Within (suc end)) r.0

break_line-Reaches :
    (base row d : ℕ) → row ≡ base + d / 3 → Reaches (base + suc d / 3) (break_line row (suc d))
unfolding break_line
break_line-Reaches base row d e = elim (Bool-cases (suc d % 3 == 0)) [
  | inl y ↦ rw y (ground arith)
  | inr n ↦ rw n (ground arith)
]

pub place-Reaches :
    (cells : List Draw) (base row d k : ℕ) (next : ℕ → ℕ → List Draw × ℕ)
    → All (Within 0) cells
    → row ≡ base + d / 3
    → ((r : ℕ) → r ≡ base + suc d / 3 → Reaches (base + (suc d + k) / 3) (next r (suc d)))
    → Reaches (base + (suc d + k) / 3) (place cells row d next)
unfolding place
place-Reaches cells base row d k next a e more =
    let (place_row, place_all) = break_line-Reaches base row d e in
    let (end_row, end_all) = more (break_line row (suc d)).1 place_row in
    let end : ℕ = base + (suc d + k) / 3 in
    (
      end_row,
      All-append (Within (suc end)) cells _ (All-Within-mono 0 (suc end) cells (omega arith) a) (
          All-append (Within (suc end)) (break_line row (suc d)).0 _
            (All-Within-mono (suc (base + suc d / 3)) (suc end) _ (grind arith) place_all) end_all),
    )

-- how many of the sensors are shown
abbrev shown_fan : ℤ → ℕ
shown_fan (pos n) = 1
shown_fan (negsuc n) = 0

abbrev pub shown_fans : List Fan → ℕ
shown_fans [] = 0
shown_fans (f ∷ fs) = shown_fan f.value + shown_fans fs

ℤ-cases : (z : ℤ) → ((n : ℕ) × (z ≡ pos n)) ⊎ ((n : ℕ) × (z ≡ negsuc n))
ℤ-cases (pos n) = inl (n, refl)
ℤ-cases (negsuc n) = inr (n, refl)

fan_pos :
    (junk : Bytes) (f : Fan) (fs : List Fan) (row d n : ℕ)
    → f.value ≡ pos n
    → fan_draws junk (f ∷ fs) row d
      ≡ place (fan_cell junk f.name n) row d (λ r k. fan_draws junk fs r k)
unfolding fan_draws
fan_pos junk f fs row d n e = rw (e, fan_draws) refl

fan_neg :
    (junk : Bytes) (f : Fan) (fs : List Fan) (row d n : ℕ)
    → f.value ≡ negsuc n
    → fan_draws junk (f ∷ fs) row d ≡ fan_draws junk fs row d
unfolding fan_draws
fan_neg junk f fs row d n e = rw (e, fan_draws) refl

pub fan_draws-Reaches :
    (junk : Bytes) (fs : List Fan) (base row d : ℕ)
    → row ≡ base + d / 3
    → Reaches (base + (d + shown_fans fs) / 3) (fan_draws junk fs row d)
fan_draws-Reaches junk [] base row d e = unfold fan_draws in (grind arith, tt)
fan_draws-Reaches junk (f ∷ fs) base row d e = elim (ℤ-cases f.value) [
  | inl (n, v) ↦
      rw (fan_pos junk f fs row d n v, v, sums)
        (place-Reaches (fan_cell junk f.name n) base row d (shown_fans fs)
          (λ r k. fan_draws junk fs r k) (tt, tt) e
          (λ r q. fan_draws-Reaches junk fs base r (suc d) q))
  | inr (n, v) ↦ rw (fan_neg junk f fs row d n v, v, zeros) (fan_draws-Reaches junk fs base row d e)
]
  where
    sums : d + (1 + shown_fans fs) ≡ suc d + shown_fans fs
    sums = omega arith

    zeros : 0 + shown_fans fs ≡ shown_fans fs
    zeros = omega arith
