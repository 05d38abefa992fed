-- ===== src/Cpu/Describe.antt =====
-- What `get_cpu_info` takes from the lines of /proc/cpuinfo.
use breakin.Base.{
  ℕ, suc, ◌+◌, ◌≡◌, ◌≢◌, refl, sym, ap, ◌∙◌, inl, inr, Bool, true, false, Bool-cases, List, [], ◌∷◌,
  ◌++◌, append_assoc, map, Option, some, ◌==◌, ltb, All, length, length-append, drop, drop-append,
  if◌then◌else◌, and-right, and-left, not, arith,
}
use breakin.Text.{Bytes, codes, starts_with}
use breakin.Text.Prefix.{no_colon, starts_with-key, clash}
use breakin.Trim.{trim}
use breakin.Trim.Shift.{NoNul}
use breakin.Trim.Strip.{trim_at-trim}
use breakin.Dmi.Strings.{split_string}
use breakin.Dmi.Lookup.{split-item}
use breakin.Sensors.Table.{trim-NoNul}
use breakin.Cpu.Info.{
  CpuInfo, colon_at, value_at, read_model, read_speed, cpu_line, cpu_lines, get_cpu_info,
}

-- a line of the file: what is in front of the colon, and what is behind the colon and a space
pub record Field : Type 0 where
  pub key : Bytes
  pub value : Bytes

-- a line that is one, or any line that starts with none of the three names, such as an empty one
pub data Line : Type 0 where
  field : Field → Line
  other : Bytes → Line

abbrev line_of : Field → Bytes
line_of f = (f.key ++ b':' ∷ []) ++ b' ' ∷ f.value

-- The key has no colon; a model's name is not blank.
pub record IsPlain (f : Field) : Type 0 where
  pub key_plain : no_colon f.key ≡ true
  pub no_nul : NoNul f.value
  pub named : starts_with (codes "model name") f.key ≡ true → trim f.value ≢ []

abbrev pub text_of : Line → Bytes
text_of (field f) = line_of f
text_of (other s) = s

-- The line starts with none of the names.
pub record IsOther (s : Bytes) : Type 0 where
  pub processor : starts_with (codes "processor") s ≡ false
  pub model : starts_with (codes "model name") s ≡ false
  pub speed : starts_with (codes "cpu MHz") s ≡ false

abbrev pub IsKnown : Line → Type 0
IsKnown (field f) = IsPlain f
IsKnown (other s) = IsOther s

colon_at-key :
    (i : ℕ) (k t : Bytes)
    → no_colon k ≡ true
    → colon_at i ((k ++ b':' ∷ []) ++ t) ≡ some (i + length k)
unfolding colon_at
colon_at-key i [] t h = ap some (omega arith)
colon_at-key i (c ∷ k) t h =
    let more = colon_at-key (suc i) k t (and-right (not (c == b':')) (no_colon k) h) in
    let here = and-left (not (c == b':')) (no_colon k) h in
    let other : (c == b':') ≡ false = ground arith in
    rw (other, colon_at) (more ∙ ap some (omega arith))

-- what is in front of the value
abbrev front : Bytes → Bytes
front key = (key ++ b':' ∷ []) ++ b' ' ∷ []

length-front : (key : Bytes) → length (front key) ≡ length key + 2
length-front key =
    omega (arith, length-append (key ++ b':' ∷ []) (b' ' ∷ []), length-append key (b':' ∷ []))

line_of-front : (f : Field) → line_of f ≡ front f.key ++ f.value
line_of-front f = sym (append_assoc (f.key ++ b':' ∷ []) (b' ' ∷ []) f.value)

value_at-line_of : (f : Field) → IsPlain f → value_at (line_of f) ≡ some (length (front f.key))
unfolding value_at
value_at-line_of f p =
    let size : length (line_of f) ≡ length (front f.key) + length f.value =
      ap length (line_of-front f) ∙ length-append (front f.key) f.value in
    let place : length (front f.key) ≡ length f.key + 2 = length-front f.key in
    let room : ltb (length (line_of f)) (0 + length f.key + 2) ≡ false =
      ground (arith, size, place) in
    let end : 0 + length f.key + 2 ≡ length (front f.key) = omega (arith, place) in
    rw (colon_at-key 0 f.key (b' ' ∷ f.value) p.key_plain, value_at) (rw (room, end) refl)

read_speed-line_of : (f : Field) → IsPlain f → read_speed (line_of f) ≡ some f.value
unfolding read_speed
read_speed-line_of f p =
    rw (value_at-line_of f p, read_speed)
      (ap some
        (ap (drop (length (front f.key))) (line_of-front f) ∙ drop-append (front f.key) f.value))

read_model-line_of :
    (f : Field) → IsPlain f → trim f.value ≢ [] → read_model (line_of f) ≡ some (trim f.value)
unfolding read_model
read_model-line_of f p named =
    let (junk, run, size) = trim_at-trim f.value p.no_nul (front f.key) [] named in
    let memory : line_of f ++ 0 ∷ [] ≡ front f.key ++ (f.value ++ 0 ∷ []) =
      ap (λ s. s ++ 0 ∷ []) (line_of-front f) ∙ append_assoc (front f.key) f.value (0 ∷ []) in
    let found : split_string (trim f.value ++ 0 ∷ junk) ≡ some (trim f.value, 0 ∷ junk) =
      split-item (trim f.value) junk (trim-NoNul f.value p.no_nul) in
    rw (value_at-line_of f p, read_model)
      (rw (memory, run, read_model)
        (rw (drop-append (front f.key) (trim f.value ++ 0 ∷ junk), found, read_model) refl))

-- a value, if the key starts with this name
abbrev pub pick : Bytes → Bytes → Bytes → Bytes → Bytes
pick name key value old = if starts_with name key then value else old

abbrev noted : Field → CpuInfo → CpuInfo
noted f c = record {
  qty = if starts_with (codes "processor") f.key then c.qty + 1 else c.qty;
  model = pick (codes "model name") f.key (trim f.value) c.model;
  speed = pick (codes "cpu MHz") f.key f.value c.speed;
}

-- The three names exclude each other.
processor_alone :
    (k : Bytes)
    → starts_with (codes "processor") k ≡ true
    → (starts_with (codes "model name") k ≡ false) × (starts_with (codes "cpu MHz") k ≡ false)
unfolding starts_with
processor_alone k h = (
  clash (codes "processor") (codes "model name") k refl refl h,
  clash (codes "processor") (codes "cpu MHz") k refl refl h,
)

model_alone :
    (k : Bytes)
    → starts_with (codes "model name") k ≡ true
    → starts_with (codes "cpu MHz") k ≡ false
unfolding starts_with
model_alone k h = clash (codes "model name") (codes "cpu MHz") k refl refl h

cpu_line-noted : (f : Field) (c : CpuInfo) → IsPlain f → cpu_line (line_of f) c ≡ some (noted f c)
unfolding cpu_line
cpu_line-noted f c p =
    let rest : Bytes = b' ' ∷ f.value in
    let k1 = starts_with-key (codes "processor") f.key rest refl in
    let k2 = starts_with-key (codes "model name") f.key rest refl in
    let k3 = starts_with-key (codes "cpu MHz") f.key rest refl in
    elim (Bool-cases (starts_with (codes "processor") f.key)) [
      | inl y ↦ rw (k1, y, (processor_alone f.key y).0, (processor_alone f.key y).1) refl
      | inr n ↦ elim (Bool-cases (starts_with (codes "model name") f.key)) [
        | inl y ↦
            rw (k1, n, k2, y, model_alone f.key y)
              (rw (read_model-line_of f p (p.named y), cpu_line) refl)
        | inr m ↦ elim (Bool-cases (starts_with (codes "cpu MHz") f.key)) [
          | inl y ↦ rw (k1, n, k2, m, k3, y) (rw (read_speed-line_of f p, cpu_line) refl)
          | inr o ↦ rw (k1, n, k2, m, k3, o) refl
        ]
      ]
    ]

cpu_line-other : (s : Bytes) (c : CpuInfo) → IsOther s → cpu_line s c ≡ some c
unfolding cpu_line
cpu_line-other s c o = rw (o.processor, o.model, o.speed) refl

-- the number of lines whose key starts with `processor`, and the last value of a key
abbrev pub count_processors : List Line → ℕ
count_processors [] = 0
count_processors (other s ∷ fs) = count_processors fs
count_processors (field f ∷ fs) =
    (if starts_with (codes "processor") f.key then 1 else 0) + count_processors fs

abbrev pub last_value : Bytes → (Bytes → Bytes) → List Line → Bytes → Bytes
last_value name read [] old = old
last_value name read (other s ∷ fs) old = last_value name read fs old
last_value name read (field f ∷ fs) old =
    last_value name read fs (pick name f.key (read f.value) old)

more_processors :
    (b : Bool) (q k : ℕ) → (if b then q + 1 else q) + k ≡ q + ((if b then 1 else 0) + k)
more_processors true q k = omega arith
more_processors false q k = omega arith

with_qty :
    {q q' : ℕ} (model speed : Bytes)
    → q ≡ q'
    → ◌≡◌ {A = Option CpuInfo}
        (some (record { qty = q; model = model; speed = speed }))
        (some (record { qty = q'; model = model; speed = speed }))
with_qty model speed e = λ i. some (record { qty = e i; model = model; speed = speed })

cpu_lines-last :
    (fs : List Line) (c : CpuInfo)
    → All IsKnown fs
    → cpu_lines (map text_of fs) c
      ≡ some (record {
        qty = c.qty + count_processors fs;
        model = last_value (codes "model name") trim fs c.model;
        speed = last_value (codes "cpu MHz") (λ v. v) fs c.speed;
      })
unfolding cpu_lines
cpu_lines-last [] c a = with_qty c.model c.speed (omega arith)
cpu_lines-last (other s ∷ fs) c a = rw (cpu_line-other s c a.0, cpu_lines) (cpu_lines-last fs c a.1)
cpu_lines-last (field f ∷ fs) c a =
    rw (cpu_line-noted f c a.0, cpu_lines)
      (cpu_lines-last fs (noted f c) a.1
        ∙ with_qty _ _
            (more_processors (starts_with (codes "processor") f.key) c.qty (count_processors fs)))

-- On a file whose lines each start with none of the three names, or are a key without a colon, a colon,
-- a space and a value, which for a model's name is not blank: the number of processors is the number of lines whose key starts with `processor`; the model is the
-- stripped value of the last line whose key starts with `model name`, and the speed's text the value of
-- the last one with `cpu MHz`, or what they were if there is none.
pub get_cpu_info_lem :
    (fs : List Line) (c : CpuInfo)
    → All IsKnown fs
    → get_cpu_info (some (map text_of fs)) c
      ≡ some (record {
        qty = count_processors fs;
        model = last_value (codes "model name") trim fs c.model;
        speed = last_value (codes "cpu MHz") (λ v. v) fs c.speed;
      })
unfolding get_cpu_info
get_cpu_info_lem fs c a = cpu_lines-last fs (record c { qty = 0 }) a ∙ with_qty _ _ (omega arith)
