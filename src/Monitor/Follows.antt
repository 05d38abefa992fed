-- ===== src/Monitor/Follows.antt =====
-- What the thread reports of the error log, over its turns.
use breakin.Base.{
  ℕ, ◌≡◌, refl, sym, ap, ◌∙◌, List, [], ◌∷◌, ◌++◌, Option, none, some, All, map, concat, length,
}
use breakin.Text.{Bytes}
use breakin.Log.{LogCall}
use breakin.Tail.{tail_file}
use breakin.Tail.Text.{unread, next_pos, reports, reports-append}
use breakin.Tail.Once.{joined, follow, follow-joined}
use breakin.Screen.Room.{IsRoomy}
use breakin.Monitor.{Machine, Turn, Updated, Show, update_loop}
use breakin.Monitor.Valid.{Readable, AllWorded, Fits, update_stats-Fits}

module _ {F : Type 0} where
  -- Each turn finds the error log as the one before did, and what has been appended since.
  abbrev pub Grows : Bytes → List Bytes → List (Turn F) → Type 0
  Grows file [] [] = Unit {0}
  Grows file [] (t ∷ ts) = ⊥
  Grows file (new ∷ news) [] = ⊥
  Grows file (new ∷ news) (t ∷ ts) =
      (t.reading.error_log ≡ some (file ++ new)) × Grows (file ++ new) news ts

-- all that some turns report of the error log
abbrev pub reported : List Updated → List LogCall
reported us = concat (map (λ u. u.calls.errors) us)

module _ {F : Type 0} (show : Show F) (roomy : IsRoomy show.frame) where
  update_loop-follow :
      (turns : List (Turn F)) (m : Machine) (old : Option Bytes) (file : Bytes) (news : List Bytes)
      (p : ℕ)
      → All (λ t. Readable t.reading) turns
      → AllWorded turns m.syslog_pos m.log_pos
      → Fits m
      → m.log_pos ≡ some p
      → Grows file news turns
      → (us : List Updated) × (update_loop show turns m old ≡ some us)
        × (reported us ≡ reports (follow p file news))
  unfolding update_loop
  update_loop-follow [] m old file [] p ok w f at_p g = ([], refl, refl)
  update_loop-follow [] m old file (new ∷ news) p ok w f at_p g = absurd g
  update_loop-follow (t ∷ ts) m old file [] p ok w f at_p g = absurd g
  update_loop-follow (t ∷ ts) m old file (new ∷ news) p ok w f at_p g =
      let (u, run, f', shows) = update_stats-Fits show roomy t m old ok.0 w.0 f in
      let moved : next_pos m.log_pos t.reading.error_log
          ≡ some (tail_file (some p) (file ++ new)).1 =
        rw (at_p, g.0) refl in
      let seen : unread m.log_pos t.reading.error_log ≡ (tail_file (some p) (file ++ new)).0 =
        rw (at_p, g.0) refl in
      let w' : AllWorded ts u.machine.syslog_pos u.machine.log_pos =
        rw (shows.syslog, shows.log) w.1 in
      let (us, runs, rest) =
        update_loop-follow ts u.machine u.stat_file (file ++ new) news _ ok.1 w' f'
          (shows.log ∙ moved) g.1 in
      (
        u ∷ us,
        rw (run, update_loop) (rw runs refl),
        ap (λ c. c ++ reported us) (shows.errors ∙ ap reports seen)
            ∙ ap (λ c. reports (tail_file (some p) (file ++ new)).0 ++ c) rest
            ∙ sym (reports-append (tail_file (some p) (file ++ new)).0 _),
      )

  -- The thread starts while the error log holds `file`, and each later turn finds it grown, by whatever
  -- and however much. In every turn each line of a sensor file has a label and no blank value, no file of
  -- /sys that can be opened is blank, the interfaces fit the local array, and no line that is read of the
  -- two logs is white space; the tables fit their arrays at the start, and the compiler leaves a byte
  -- behind the arrays of draw_stat_window. Then the thread makes its turns, and the errors that it reports
  -- of the log are, over all turns, the trimmed lines of a list that put together is exactly what was
  -- appended: nothing that stood there at the start, nothing twice, nothing left out, and in order.
  pub update_loop-reported :
      (t : Turn F) (turns : List (Turn F)) (m : Machine) (old : Option Bytes) (file : Bytes)
      (news : List Bytes)
      → Readable t.reading
      → All (λ t. Readable t.reading) turns
      → AllWorded (t ∷ turns) m.syslog_pos m.log_pos
      → Fits m
      → m.log_pos ≡ none
      → t.reading.error_log ≡ some file
      → Grows file news turns
      → (us : List Updated) × (lines : List Bytes) × (update_loop show (t ∷ turns) m old ≡ some us)
        × (reported us ≡ reports lines)
        × (joined lines ≡ joined news)
  unfolding update_loop tail_file
  update_loop-reported t turns m old file news ok oks w f fresh found g =
      let (u, run, f', shows) = update_stats-Fits show roomy t m old ok w.0 f in
      let moved : next_pos m.log_pos t.reading.error_log ≡ some (length file) =
        rw (fresh, found) refl in
      let seen : unread m.log_pos t.reading.error_log ≡ [] = rw (fresh, found) refl in
      let w' : AllWorded turns u.machine.syslog_pos u.machine.log_pos =
        rw (shows.syslog, shows.log) w.1 in
      let (us, runs, rest) =
        update_loop-follow turns u.machine u.stat_file file news (length file) oks w' f'
          (shows.log ∙ moved) g in
      (
        u ∷ us,
        follow (length file) file news,
        rw (run, update_loop) (rw runs refl),
        ap (λ c. c ++ reported us) (shows.errors ∙ ap reports seen) ∙ rest,
        follow-joined news (length file) file refl,
      )
