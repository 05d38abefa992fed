-- ===== src/LogDevice/Pieces.antt =====
-- The calls of fprintf that a round of `update_logdev` is made of, as Log/Writes takes them.
use breakin.Base.{
  ℕ, ◌≡◌, refl, sym, ap, ◌∙◌, List, [], ◌∷◌, ◌++◌, append-nil, append_assoc, Option, none, some,
  map, concat, if◌then◌else◌, Bool, true, false, Bool-cases, inl, inr,
}
use breakin.Text.{Bytes, codes}
use breakin.Number.{decimal_signed}
use breakin.Log.Clock.{running_time}
use breakin.Log.{Sinks, append_to, append_serial}
use breakin.Log.Writes.{Write, update, job_writes, run_writes}
use breakin.Log.Outputs.{texts_on-update, run_writes-device, run_writes-serial}
use breakin.Stats.{State, as_long}
use breakin.Burnin.Script.{Script}
use breakin.LogDevice.{
  Format, newline, temps_text, unsupported, script_text, update_logdev_write, update_logdev,
}

-- the five calls for a script
unfoldable pub script_texts : Bytes → Script → List Bytes
script_texts time s =
    (time ++ codes " : ")
    ∷ (codes "test:" ++ (s.name ++ codes " "))
    ∷ (codes " pass:"
        ++ (decimal_signed (as_long s.pass_count)
            ++ (codes " fail:" ++ decimal_signed (as_long s.fail_count))))
    ∷ (codes " lastmsg:" ++ s.last_msg)
    ∷ newline
    ∷ []

module _ {F : Type 0} (format : Format F) where
  -- one call for each temperature that is shown
  unfoldable pub temp_texts : List F → List Bytes
  temp_texts [] = []
  temp_texts (t ∷ ts) =
      if format.positive t then (format.fixed1 t ++ codes "C  ") ∷ temp_texts ts else temp_texts ts

  -- `update_logdev_write(fp)`, call by call; a text that is empty stands for no call
  unfoldable pub update_texts : ℕ → State F → List Bytes
  update_texts now s =
      (running_time now ++ codes " : temps:")
      ∷ (temp_texts s.temps
          ++ (unsupported format s.temps
              ∷ newline
              ∷ concat (map (script_texts (running_time now)) s.scripts)))

concat-append : (xs ys : List Bytes) → concat (xs ++ ys) ≡ concat xs ++ concat ys
concat-append [] ys = refl
concat-append (x ∷ xs) ys = rw (concat-append xs ys) (sym (append_assoc x (concat xs) (concat ys)))

concat-script_texts :
    (time : Bytes) (s : Script) → concat (script_texts time s) ≡ script_text time s
unfolding script_texts script_text
concat-script_texts time s = simp (append_assoc, append-nil)

concat-scripts :
    (time : Bytes) (ss : List Script)
    → concat (concat (map (script_texts time) ss)) ≡ concat (map (script_text time) ss)
concat-scripts time [] = refl
concat-scripts time (s ∷ ss) =
    concat-append (script_texts time s) (concat (map (script_texts time) ss))
    ∙ rw (concat-script_texts time s) (rw (concat-scripts time ss) refl)

module _ {F : Type 0} (format : Format F) where
  concat-temp_texts : (ts : List F) → concat (temp_texts format ts) ≡ temps_text format ts
  unfolding temp_texts temps_text
  concat-temp_texts [] = refl
  concat-temp_texts (t ∷ ts) = elim (Bool-cases (format.positive t)) [
    | inl y ↦ rw y (ap (◌++◌ (format.fixed1 t ++ codes "C  ")) (concat-temp_texts ts))
    | inr n ↦ rw n (concat-temp_texts ts)
  ]

  -- The texts of the calls, put together, are what the round writes.
  concat-update_texts :
      (now : ℕ) (s : State F) (old : Bytes)
      → update_logdev_write format now s (some old)
        ≡ some (old ++ concat (update_texts format now s))
  unfolding update_logdev_write update_texts
  concat-update_texts now s old = simp (
    append_assoc,
    concat-append,
    concat-temp_texts s.temps,
    concat-scripts (running_time now) s.scripts,
  )

  update_write :
      (now : ℕ) (s : State F) (o : Option Bytes)
      → append_to o (concat (update_texts format now s)) ≡ update_logdev_write format now s o
  unfolding update_logdev_write
  update_write now s none = refl
  update_write now s (some old) = sym (concat-update_texts now s old)

  serial_write :
      (now : ℕ) (s : State F) (b : Bool) (o : Option Bytes)
      → append_serial b o (concat (update_texts format now s))
        ≡ (if b then update_logdev_write format now s o else o)
  serial_write now s true o = update_write now s o
  serial_write now s false o = refl

  -- Of one thread alone, these writes are the round.
  run_writes-update_logdev :
      (now : ℕ) (s : State F) (k : Sinks)
      → let ws : List Write =
          job_writes (update (update_texts format now s) (update_texts format now s)) in
        ((run_writes ws k).logdev_file ≡ (update_logdev format now s k).logdev_file)
        × ((run_writes ws k).serial_file ≡ (update_logdev format now s k).serial_file)
  unfolding update_logdev
  run_writes-update_logdev now s k =
      let texts : List Bytes = update_texts format now s in
      let (on_file, on_device, on_serial) = texts_on-update texts texts in
      (
        run_writes-device _ k ∙ rw on_device (update_write now s k.logdev_file),
        run_writes-serial _ k ∙ rw on_serial (serial_write now s k.serial_enabled k.serial_file),
      )
