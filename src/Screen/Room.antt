-- ===== src/Screen/Room.antt =====
-- When the writes of `draw_stat_window` stay in the room that the compiler leaves for them.
use breakin.Base.{ℕ, ◌≤◌, ◌≡◌, refl, true, List, [], ◌∷◌, some, arith}
use breakin.Screen.{
  Format, Frame, Temp, Fan, View, fan_fits, fans_fit, temps_fit, stat_draws, draw_stat_window,
}

-- The compiler leaves a byte behind each of the two arrays.
pub record IsRoomy (f : Frame) : Type 0 where
  pub string : 23 ≤ f.string
  pub label : 11 ≤ f.label

fans_fit-IsRoomy : (f : Frame) (fs : List Fan) → IsRoomy f → fans_fit f fs ≡ true
unfolding fans_fit fan_fits
fans_fit-IsRoomy f [] r = refl
fans_fit-IsRoomy f (x ∷ fs) r =
    let more = fans_fit-IsRoomy f fs r in ground (arith, r.string, r.label)

module _ {F : Type 0} (format : Format F) where
  temps_fit-IsRoomy : (f : Frame) (ts : List (Temp F)) → IsRoomy f → temps_fit format f ts ≡ true
  unfolding temps_fit
  temps_fit-IsRoomy f [] r = refl
  temps_fit-IsRoomy f (t ∷ ts) r = let more = temps_fit-IsRoomy f ts r in ground (arith, r.string)

  pub draw_stat_window-IsRoomy :
      (cols : ℕ) (f : Frame) (v : View F)
      → IsRoomy f
      → draw_stat_window format cols f v ≡ some (stat_draws format cols f.junk v)
  unfolding draw_stat_window
  draw_stat_window-IsRoomy cols f v r =
      rw (temps_fit-IsRoomy f v.temps r, fans_fit-IsRoomy f v.fans r) refl
