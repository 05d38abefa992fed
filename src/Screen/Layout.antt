-- ===== src/Screen/Layout.antt =====
-- The statistics window as a whole.
use breakin.Base.{
  ℕ, suc, ◌+◌, ◌/◌, ◌<◌, ◌≤◌, ◌≡◌, refl, sym, ap, inl, inr, ◌⊎◌, Bool, true, false, Bool-cases,
  List, [], ◌∷◌, ◌++◌, length, All, All-append, arith, some,
}
use mathlib.Core.List.{Mem, mem-append_left, mem-append_right, mem-cons_self, mem-cons_of_mem}
use breakin.Text.{Bytes}
use breakin.Number.{pos}
use breakin.Burnin.Script.{Script}
use breakin.Screen.Draws.{Draw, hline}
use breakin.Screen.{
  Format, Temp, Fan, View, unsupported, place, fan_draws, draw_graph, temp_cell, temp_draws,
  script_draws, scripts_draws, table_draws, below_draws, stat_draws, draw_stat_window, stat_height,
  Frame,
}
use breakin.Screen.Room.{IsRoomy, draw_stat_window-IsRoomy}
use breakin.Screen.Rows.{
  Within, All-Within-mono, Reaches, place-Reaches, shown_fans, fan_draws-Reaches,
}

module _ {F : Type 0} (format : Format F) where
  abbrev shown_temp : Bool → ℕ
  shown_temp true = 1
  shown_temp false = 0

  abbrev pub shown_temps : List (Temp F) → ℕ
  shown_temps [] = 0
  shown_temps (t ∷ ts) = shown_temp (format.positive t.value) + shown_temps ts

  temp_cell-Within : (junk : Bytes) (t : Temp F) → All (Within 0) (temp_cell format junk t)
  unfolding temp_cell
  temp_cell-Within junk t = ground arith

  temp_shown :
      (junk : Bytes) (t : Temp F) (ts : List (Temp F)) (row d : ℕ)
      → format.positive t.value ≡ true
      → temp_draws format junk (t ∷ ts) row d
        ≡ place (temp_cell format junk t) row d (λ r k. temp_draws format junk ts r k)
  unfolding temp_draws
  temp_shown junk t ts row d e = rw (e, temp_draws) refl

  temp_hidden :
      (junk : Bytes) (t : Temp F) (ts : List (Temp F)) (row d : ℕ)
      → format.positive t.value ≡ false
      → temp_draws format junk (t ∷ ts) row d ≡ temp_draws format junk ts row d
  unfolding temp_draws
  temp_hidden junk t ts row d e = rw (e, temp_draws) refl

  temp_draws-Reaches :
      (junk : Bytes) (ts : List (Temp F)) (base row d : ℕ)
      → row ≡ base + d / 3
      → Reaches (base + (d + shown_temps ts) / 3) (temp_draws format junk ts row d)
  temp_draws-Reaches junk [] base row d e = unfold temp_draws in (grind arith, tt)
  temp_draws-Reaches junk (t ∷ ts) base row d e = elim (Bool-cases (format.positive t.value)) [
    | inl p ↦
        rw (temp_shown junk t ts row d p, p, sums)
          (place-Reaches (temp_cell format junk t) base row d (shown_temps ts)
            (λ r k. temp_draws format junk ts r k) (temp_cell-Within junk t) e
            (λ r q. temp_draws-Reaches junk ts base r (suc d) q))
    | inr n ↦ rw (temp_hidden junk t ts row d n, n, zeros) (temp_draws-Reaches junk ts base row d e)
  ]
    where
      sums : d + (1 + shown_temps ts) ≡ suc d + shown_temps ts
      sums = omega arith

      zeros : 0 + shown_temps ts ≡ shown_temps ts
      zeros = omega arith

  draw_graph-Within :
      (cols y : ℕ) (label : Bytes) (percent : F)
      → All (Within (suc y)) (draw_graph format cols y label percent)
  unfolding draw_graph
  draw_graph-Within cols y label percent = ground arith

unsupported-Within : (qty : ℕ) → All (Within 0) (unsupported qty)
unfolding unsupported
unsupported-Within qty = ground arith

script_draws-Within : (cols row : ℕ) (s : Script) → All (Within (suc row)) (script_draws cols row s)
unfolding script_draws
script_draws-Within cols row s = ground arith

scripts_draws-Within :
    (cols row : ℕ) (ss : List Script) → All (Within (row + length ss)) (scripts_draws cols row ss)
unfolding scripts_draws
scripts_draws-Within cols row [] = tt
scripts_draws-Within cols row (s ∷ ss) =
    All-append (Within (row + suc (length ss))) (script_draws cols row s) _
      (All-Within-mono (suc row) _ _ (omega arith) (script_draws-Within cols row s))
      (All-Within-mono (suc row + length ss) _ _ (omega arith)
        (scripts_draws-Within cols (suc row) ss))

-- A call that is below row `h`, or the given one.
abbrev pub Fits : ℕ → Draw → Draw → Type 0
Fits h rule d = Within h d ⊎ (d ≡ rule)

All-Fits :
    (h k : ℕ) (rule : Draw) (ds : List Draw) → h ≤ k → All (Within h) ds → All (Fits k rule) ds
All-Fits h k rule [] l a = tt
All-Fits h k rule (d ∷ ds) l a =
    (inl (All-Within-mono h k (d ∷ []) l (a.0, tt)).0, All-Fits h k rule ds l a.1)

table_draws-Fits :
    (cols start count row h : ℕ)
    → row ≡ start + count + 2
    → suc start < h
    → All (Fits h (hline row 0 (pos cols))) (table_draws cols start count)
unfolding table_draws
table_draws-Fits cols start count row h e l = (
  inl (omega arith),
  (
    inl (omega arith),
    (
      inl (omega arith),
      (inl (omega arith), (inl (omega arith), (inr (ap (λ r. hline r 0 (pos cols)) (sym e)), tt))),
    ),
  ),
)

Mem-table_draws :
    (cols start count row : ℕ)
    → row ≡ start + count + 2
    → Mem (hline row 0 (pos cols)) (table_draws cols start count)
unfolding table_draws
Mem-table_draws cols start count row e = mem-cons_of_mem _ (
    mem-cons_of_mem _
      (mem-cons_of_mem _ (mem-cons_of_mem _ (mem-cons_of_mem _ (rw e mem-cons_self)))))

below_draws-Fits :
    (cols end row h : ℕ) (scripts : List Script)
    → row ≡ end + 5 + length scripts
    → row ≤ h
    → All (Fits h (hline row 0 (pos cols))) (below_draws cols end scripts)
      × Mem (hline row 0 (pos cols)) (below_draws cols end scripts)
unfolding below_draws
below_draws-Fits cols end row h scripts e l =
    let same : row ≡ end + 3 + length scripts + 2 = omega arith in
    let rule : Draw = hline row 0 (pos cols) in
    let fits : All (Fits h rule) (scripts_draws cols (end + 5) scripts) =
      All-Fits (end + 5 + length scripts) h rule _ (omega arith)
        (scripts_draws-Within cols (end + 5) scripts) in
    (
      (
        inl (omega arith),
        All-append (Fits h rule) (table_draws cols (end + 3) (length scripts)) _
            (table_draws-Fits cols (end + 3) (length scripts) row h same (omega arith)) fits,
      ),
      mem-cons_of_mem _
          (mem-append_left _ (Mem-table_draws cols (end + 3) (length scripts) row same)),
    )

shown_fans_le : (fs : List Fan) → shown_fans fs ≤ length fs
shown_fans_le [] = omega arith
shown_fans_le (f ∷ fs) = let more = shown_fans_le fs in ground arith

module _ {F : Type 0} (format : Format F) where
  shown_temps_le : (ts : List (Temp F)) → shown_temps format ts ≤ length ts
  shown_temps_le [] = omega arith
  shown_temps_le (t ∷ ts) = let more = shown_temps_le ts in ground arith

  -- the row of the rule under the table
  abbrev pub last_row : View F → ℕ
  last_row v = 10 + shown_temps format v.temps / 3 + shown_fans v.fans / 3 + length v.scripts

  -- where the calls go
  stat_draws_lem :
      (cols : ℕ) (junk : Bytes) (v : View F)
      → let h : ℕ = stat_height (length v.temps) (length v.fans) (length v.scripts) in
        let rule : Draw = hline (last_row v) 0 (pos cols) in
        All (Fits h rule) (stat_draws format cols junk v)
        × Mem rule (stat_draws format cols junk v)
        × (last_row v ≤ h)
        × (shown_temps format v.temps ≡ length v.temps
            → shown_fans v.fans ≡ length v.fans
            → last_row v ≡ h)
  unfolding stat_draws
  stat_draws_lem cols junk v =
      let h : ℕ = stat_height (length v.temps) (length v.fans) (length v.scripts) in
      let (trow, tall) = temp_draws-Reaches format junk v.temps 4 4 0 (grind arith) in
      let row : ℕ = (temp_draws format junk v.temps 4 0).1 in
      let (frow, fall) = fan_draws-Reaches junk v.fans (suc row) (suc row) 0 (grind arith) in
      let end : ℕ = (fan_draws junk v.fans (suc row) 0).1 in
      let some_temps = shown_temps_le v.temps in
      let some_fans = shown_fans_le v.fans in
      let place : last_row v ≡ end + 5 + length v.scripts = grind (arith, trow, frow) in
      let inside : last_row v ≤ h = grind (arith, some_temps, some_fans) in
      let (all, last) = below_draws-Fits cols end (last_row v) h v.scripts place inside in
      let rule : Draw = hline (last_row v) 0 (pos cols) in
      let to : (n : ℕ) (ds : List Draw) → n ≤ h → All (Within n) ds → All (Fits h rule) ds =
        λ n ds l a. All-Fits n h rule ds l a in
      let join : (xs ys : List Draw)
          → All (Fits h rule) xs
          → All (Fits h rule) ys
          → All (Fits h rule) (xs ++ ys) =
        λ xs ys a b. All-append (Fits h rule) xs ys a b in
      let high : 10 ≤ h = omega arith in
      (
        (
          inl (omega arith),
          (
            inl (omega arith),
            join _ _ (to 3 _ (omega arith) (draw_graph-Within format cols 2 _ v.cpu_percent)) (
                join _ _ (to 4 _ (omega arith) (draw_graph-Within format cols 3 _ v.mem_percent)) (
                  inl (omega arith),
                  join _ _ (to _ _ (grind (arith, some_temps)) tall) (
                      join _ _ (to 0 _ (omega arith) (unsupported-Within (length v.temps))) (
                        inl (grind (arith, trow, some_temps)),
                        join _ _ (to _ _ (grind (arith, trow, some_temps, some_fans)) fall) (
                            join _ _ (to 0 _ (omega arith) (unsupported-Within (length v.fans)))
                              all),
                      )),
                )),
          ),
        ),
        mem-cons_of_mem _ (
            mem-cons_of_mem _ (
              mem-append_right (draw_graph format cols 2 _ v.cpu_percent) (
                mem-append_right (draw_graph format cols 3 _ v.mem_percent) (
                  mem-cons_of_mem _ (
                    mem-append_right (temp_draws format junk v.temps 4 0).0 (
                      mem-append_right (unsupported (length v.temps)) (
                        mem-cons_of_mem _ (
                          mem-append_right (fan_draws junk v.fans (suc row) 0).0
                            (mem-append_right (unsupported (length v.fans)) last))))))))),
        inside,
        λ t f. grind (arith, t, f),
      )

module _ {F : Type 0} (format : Format F) where
  -- If the compiler leaves a byte behind `string` and behind the fans' `label`, the window is drawn; and
  -- if it has the height that `setup_screen` computes for these sensors and scripts, every call moves to
  -- a row of the window, except for the rule under the table. The rule is drawn; its row is at most the
  -- one behind the window's last, and is that one if all sensors are shown.
  pub draw_stat_window_lem :
      (cols : ℕ) (f : Frame) (v : View F)
      → IsRoomy f
      → let h : ℕ = stat_height (length v.temps) (length v.fans) (length v.scripts) in
        let rule : Draw = hline (last_row format v) 0 (pos cols) in
        (draws : List Draw) × (draw_stat_window format cols f v ≡ some draws)
        × All (Fits h rule) draws
        × Mem rule draws
        × (last_row format v ≤ h)
        × (shown_temps format v.temps ≡ length v.temps
            → shown_fans v.fans ≡ length v.fans
            → last_row format v ≡ h)
  draw_stat_window_lem cols f v r =
      let (fits, rule, low, full) = stat_draws_lem format cols f.junk v in
      (
        stat_draws format cols f.junk v,
        draw_stat_window-IsRoomy format cols f v r,
        fits,
        rule,
        low,
        full,
      )
