-- ===== src/Burnin/Shared.antt =====
-- `last_msg` of a script, which the main thread writes while the other threads print it, with no lock.
-- strncpy writes the bytes of the new text and NULs behind it, up to the end of the array, in an order
-- that is its own; printf reads one byte after another up to a NUL. The steps of both come in any order.
use breakin.Base.{
  ℕ, zero, suc, ◌≡◌, ◌<◌, ◌≤◌, refl, ap, ◌∙◌, Bool-cases, inl, inr, false, ◌&&◌, [], ◌∷◌, some,
  arith, length, set, get_elem?, length-set, get_elem?-lt, ◌==◌, length-take, ltb, drop,
  length-drop, some-eq, >>=-eq-some, List,
}
use breakin.Text.{Bytes, codes, bufsiz, strncpy, starts_with}
use breakin.Trim.{trim_buffer}
use breakin.Trim.Buffer.{trim_buffer-some}
use breakin.Trim.Strip.{length-trim}
use breakin.Log.{LogCall}
use breakin.Burnin.Script.{Script}
use breakin.Burnin.Poll.{handle_text, handle_line}

-- the array, the text that is being written, and where a thread is that prints the array
pub record Shared : Type 0 where
  pub array : Bytes
  pub text : Bytes
  pub at : ℕ

-- the byte that strncpy writes at `i`
abbrev pub byte : Bytes → ℕ → ℕ
byte [] i = 0
byte (c ∷ s) zero = c
byte (c ∷ s) (suc i) = byte s i

pub data Move : Shared → Shared → Type 0 where
  -- the main thread has read a line of at most BUFSIZ - 1 bytes
  next_line :
      {m : Shared} (chunk : Bytes) (s s' : Script) (calls : List LogCall)
      → length chunk < bufsiz
      → handle_line chunk s ≡ some (s', calls)
      → Move m (record m { text = s'.last_msg })
  write :
      {m : Shared} (i : ℕ)
      → i < bufsiz
      → Move m (record m { array = set m.array i (byte m.text i) })
  -- a printing thread reads a byte that is no NUL, or starts over
  read :
      {m : Shared} (c : ℕ)
      → get_elem? m.array m.at ≡ some c
      → (c == 0) ≡ false
      → Move m (record m { at = suc m.at })
  print : {m : Shared} → Move m (record m { at = 0 })

pub data Moves : Shared → Shared → Type 0 where
  start : {m : Shared} → Moves m m
  more : {m n o : Shared} → Moves m n → Move n o → Moves m o

-- The array ends in a NUL, the text has room for one, and the printing thread is in the array.
pub record Ended (m : Shared) : Type 0 where
  pub size : length m.array ≡ bufsiz
  pub end : get_elem? m.array 8191 ≡ some 0
  pub text : length m.text < bufsiz
  pub inside : m.at < bufsiz

byte-past : (s : Bytes) (i : ℕ) → length s ≤ i → byte s i ≡ 0
byte-past [] i h = refl
byte-past (c ∷ s) zero h = absurd (omega arith)
byte-past (c ∷ s) (suc i) h = byte-past s i (omega arith)

set-last :
    (xs : Bytes) (i l v : ℕ)
    → get_elem? xs l ≡ some 0
    → (i ≡ l → v ≡ 0)
    → get_elem? (set xs i v) l ≡ some 0
set-last [] i l v e h = e
set-last (x ∷ xs) zero zero v e h = ap some (h refl)
set-last (x ∷ xs) zero (suc l) v e h = e
set-last (x ∷ xs) (suc i) zero v e h = e
set-last (x ∷ xs) (suc i) (suc l) v e h = set-last xs i l v e (λ p. h (ap suc p))

strncpy_fits : (s : Bytes) → length s < bufsiz → length (strncpy bufsiz s) < bufsiz
unfolding strncpy
strncpy_fits s h = omega (arith, length-take bufsiz s)

-- A byte that is no NUL is not the last one.
not-last :
    (array : Bytes) (at c : ℕ)
    → get_elem? array at ≡ some c
    → get_elem? array 8191 ≡ some 0
    → (c == 0) ≡ false
    → at < bufsiz
    → suc at < bufsiz
not-last array at c found end nz h = elim (Bool-cases (at == 8191)) [
  | inl e ↦
      let same : at ≡ 8191 = ground arith in
      let zero_byte : some c ≡ some 0 = cc in
      let nul : c ≡ 0 = some-eq zero_byte in absurd (ground arith)
  | inr n ↦ ground arith
]

-- Of a line that fgets has read, the new text leaves room for a NUL.
handle_text_fits :
    (line : Bytes) (s : Script)
    → length line < bufsiz
    → length (handle_text line s).0.last_msg < bufsiz
unfolding handle_text
handle_text_fits line s short =
    elim (Bool-cases (starts_with (codes "MSG: ") line && ltb 5 (length line))) [
      | inl y ↦ rw y (strncpy_fits (drop 5 line) (omega (arith, length-drop 5 line)))
      | inr n ↦ rw n (strncpy_fits line (omega arith))
    ]

last_msg_fits :
    (chunk : Bytes) (s s' : Script) (calls : List LogCall)
    → length chunk < bufsiz
    → handle_line chunk s ≡ some (s', calls)
    → length s'.last_msg < bufsiz
unfolding handle_line
last_msg_fits chunk s s' calls h run =
    let (line, e, same) = >>=-eq-some (trim_buffer chunk) (λ x. some (handle_text x s)) run in
    let short : length line < bufsiz =
      rw ((trim_buffer-some chunk line e).1) (omega (arith, length-trim chunk)) in
    rw (← ap (λ x. x.0) (some-eq same)) (handle_text_fits line s short)

Move-Ended : {m n : Shared} → Move m n → Ended m → Ended n
Move-Ended (next_line {m} chunk s s' calls h run) e = record {
  size = e.size;
  end = e.end;
  text = last_msg_fits chunk s s' calls h run;
  inside = e.inside;
}
Move-Ended (write {m} i h) e = record {
  size = length-set m.array i _ ∙ e.size;
  end = set-last m.array i 8191 _ e.end (λ p. byte-past m.text i (omega (arith, e.text, p)));
  text = e.text;
  inside = e.inside;
}
Move-Ended (read {m} c found nz) e = record {
  size = e.size;
  end = e.end;
  text = e.text;
  inside = not-last m.array m.at c found e.end nz e.inside;
}
Move-Ended (print {m}) e = record {
  size = e.size;
  end = e.end;
  text = e.text;
  inside = omega arith;
}

-- Of an array that ends in a NUL: however the main thread's writes, of any number of messages whose
-- lines fgets has cut to the buffer, come between the reads of a thread that prints it, the array keeps
-- its size and its last NUL, the next read is inside the array, and so a printing passes fewer bytes
-- than the array has.
pub Moves-Ended :
    {m n : Shared} → Moves m n → Ended m → Ended n × ((c : ℕ) × (get_elem? n.array n.at ≡ some c))
Moves-Ended {m} start e = (e, get_elem?-lt m.array m.at (omega (arith, e.size, e.inside)))
Moves-Ended {n = o} (more ss s) e =
    let e' : Ended o = Move-Ended s (Moves-Ended ss e).0 in
    (e', get_elem?-lt o.array o.at (omega (arith, e'.size, e'.inside)))
