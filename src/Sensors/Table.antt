-- ===== src/Sensors/Table.antt =====
-- The tables of sensors are what a look at each line alone gives.
use breakin.Base.{
  push, take-nil, ℕ, zero, suc, ◌+◌, ◌-◌, ◌≤◌, ◌≡◌, ◌≢◌, refl, sym, ap, ◌∙◌, inl, inr, ◌⊎◌, Bool,
  true, false, Bool-cases, List, [], ◌∷◌, ◌++◌, Option, none, some, arith, ltb, take, drop, length,
  All,
}
use breakin.Text.{Bytes, copy_n}
use breakin.Number.{ℤ}
use breakin.Trim.{trim, strip_front}
use breakin.Trim.Shift.{NoNul, strip_front-NoNul}
use breakin.Trim.Strip.{trim_at-trim, strip_end-NoNul}
use breakin.Dmi.Strings.{split_string}
use breakin.Dmi.Lookup.{split-item}
use breakin.Sensors.{
  Sensor, split_bar, Scan, eof, no_match, number, scan_value, read_label, behind, take_value,
  read_line, store, read_sensors,
}

-- The label that stands in a line, in front of the first bar.
abbrev pub label_of : ℕ → Bytes → Bytes
label_of skip chunk = copy_n 20 (drop skip (trim chunk))

-- the sensor that stands in a line, if its second chunk is a number
abbrev pub sensor_of : Bytes → Scan → Option Sensor
sensor_of label eof = none
sensor_of label no_match = none
sensor_of label (number v) = some (record { name = copy_n 16 label; value = v })

abbrev pub scan_of : Option Bytes → Scan
scan_of none = no_match
scan_of (some rest) = scan_value (split_bar rest).0

abbrev pub reading : ℕ → Bytes → Option Sensor
reading skip line = sensor_of (label_of skip (split_bar line).0) (scan_of (split_bar line).1)

abbrev pub readings : ℕ → List Bytes → List Sensor
readings skip [] = []
readings skip (line ∷ lines) = push (reading skip line) (readings skip lines)

-- A label that can be read: not blank, and longer than what is skipped.
pub record HasLabel (skip : ℕ) (chunk : Bytes) : Type 0 where
  pub no_nul : NoNul chunk
  pub text : trim chunk ≢ []
  pub long : skip ≤ length (trim chunk)

-- A line with a label whose second chunk, if there is one, is not blank.
pub record IsWell (skip : ℕ) (line : Bytes) : Type 0 where
  pub label : HasLabel skip (split_bar line).0
  pub value : scan_of (split_bar line).1 ≢ eof

drop-NoNul : (n : ℕ) (s : Bytes) → NoNul s → NoNul (drop n s)
drop-NoNul zero s h = h
drop-NoNul (suc n) [] h = tt
drop-NoNul (suc n) (c ∷ s) h = drop-NoNul n s h.1

drop-append_le : (n : ℕ) (s t : Bytes) → n ≤ length s → drop n (s ++ t) ≡ drop n s ++ t
drop-append_le zero s t h = refl
drop-append_le (suc n) [] t h = absurd (omega arith)
drop-append_le (suc n) (c ∷ s) t h = drop-append_le n s t (omega arith)

pub trim-NoNul : (s : Bytes) → NoNul s → NoNul (trim s)
unfolding trim
trim-NoNul s h = strip_end-NoNul (strip_front s) (strip_front-NoNul s h)

read_label_lem :
    (skip : ℕ) (chunk rest : Bytes)
    → HasLabel skip chunk
    → read_label skip chunk rest ≡ some (label_of skip chunk)
unfolding read_label
read_label_lem skip chunk rest h =
    let (junk, run, size) = trim_at-trim chunk h.no_nul [] rest h.text in
    let text : Bytes = drop skip (trim chunk) in
    let found : split_string (text ++ 0 ∷ junk) ≡ some (text, 0 ∷ junk) =
      split-item text junk (drop-NoNul skip (trim chunk) (trim-NoNul chunk h.no_nul)) in
    rw (run, read_label)
      (rw (drop-append_le skip (trim chunk) (0 ∷ junk) h.long, read_label)
        (rw (found, read_label) refl))

read_line_lem :
    (skip : ℕ) (line : Bytes) (old : ℤ)
    → HasLabel skip (split_bar line).0
    → read_line skip line old
      ≡ some (label_of skip (split_bar line).0, take_value (split_bar line).1 old)
unfolding read_line
read_line_lem skip line old h =
    rw (read_label_lem skip (split_bar line).0 (behind (split_bar line).1) h, read_line) refl

-- The last two kinds of a scan, and what they do to `value`.
take_value-number :
    (rest : Option Bytes) (old v : ℤ) → scan_of rest ≡ number v → take_value rest old ≡ (true, v)
unfolding take_value
take_value-number none old v e = cc
take_value-number (some rest) old v e = ground arith

take_value-none :
    (rest : Option Bytes) (old : ℤ) → scan_of rest ≡ no_match → take_value rest old ≡ (false, old)
unfolding take_value
take_value-none none old e = refl
take_value-none (some rest) old e = ground arith

take_value_blank :
    (rest : Bytes) (old : ℤ) → scan_of (some rest) ≡ eof → take_value (some rest) old ≡ (true, old)
unfolding take_value
take_value_blank rest old e = ground arith

Scan-cases : (s : Scan) → s ≢ eof → (s ≡ no_match) ⊎ ((v : ℤ) × (s ≡ number v))
Scan-cases eof h = absurd (h refl)
Scan-cases no_match h = inl refl
Scan-cases (number v) h = inr (v, refl)

-- the rest of the loop, and what it gives
abbrev Loop : Type 0
Loop = ℤ → ℕ → Option (List Sensor × ℤ)

store_skip :
    (limit : ℕ) (label : Bytes) (found : Bool) (value : ℤ) (count : ℕ) (next : Loop)
    → (found ≡ false) ⊎ (ltb count limit ≡ false)
    → store limit label (found, value) count next ≡ next value count
unfolding store
store_skip limit label found value count next h = ground arith

store_add :
    (limit : ℕ) (label : Bytes) (value : ℤ) (count : ℕ) (next : Loop) (ss : List Sensor) (last : ℤ)
    → ltb count limit ≡ true
    → next value (count + 1) ≡ some (ss, last)
    → store limit label (true, value) count next
      ≡ some (record { name = copy_n 16 label; value = value } ∷ ss, last)
unfolding store
store_add limit label value count next ss last room e = rw (room, store) (rw e refl)

read_sensors-cons :
    (limit skip : ℕ) (line : Bytes) (lines : List Bytes) (old : ℤ) (count : ℕ)
    → IsWell skip line
    → read_sensors limit skip (line ∷ lines) old count
      ≡ store limit
          (label_of skip (split_bar line).0)
          (take_value (split_bar line).1 old)
          count
          (λ v n. read_sensors limit skip lines v n)
unfolding read_sensors
read_sensors-cons limit skip line lines old count w = rw (read_line_lem skip line old w.label) refl

-- Lines that each have a label, not blank and longer than what is skipped, and no blank second
-- chunk give the sensors that stand in them, in order, each taken from its line alone, as far as
-- the table has room: `limit` sensors, less those it holds.
pub read_sensors-readings :
    (lines : List Bytes) (limit skip : ℕ) (old : ℤ) (count : ℕ)
    → All (IsWell skip) lines
    → (last : ℤ) × (read_sensors limit skip lines old count
        ≡ some (take (limit - count) (readings skip lines), last))
read_sensors-readings [] limit skip old count a =
    (old, unfold read_sensors in ap (λ ss. some (ss, old)) (sym (take-nil (limit - count))))
read_sensors-readings (line ∷ lines) limit skip old count a =
    let first = read_sensors-cons limit skip line lines old count a.0 in
    elim (Scan-cases (scan_of (split_bar line).1) a.0.value) [
      | inl e ↦
          let (last, run) = read_sensors-readings lines limit skip old count a.1 in
          (
            last,
            first
                ∙ rw (take_value-none _ old e, e)
                    (store_skip limit _ false old count _ (inl refl) ∙ run),
          )
      | inr (v, e) ↦ elim (Bool-cases (ltb count limit)) [
        | inr full ↦
            let (last, run) = read_sensors-readings lines limit skip v count a.1 in
            let over : limit - count ≡ 0 = ground arith in
            (
              last,
              first
                  ∙ rw (take_value-number _ old v e, e, over)
                      (store_skip limit _ true v count _ (inr full) ∙ run ∙ rw over refl),
            )
        | inl room ↦
            let (last, run) = read_sensors-readings lines limit skip v (count + 1) a.1 in
            let more : limit - count ≡ suc (limit - (count + 1)) = ground arith in
            (
              last,
              first
                  ∙ rw (take_value-number _ old v e, e, more)
                      (store_add limit _ v count _ _ last room run),
            )
      ]
    ]
