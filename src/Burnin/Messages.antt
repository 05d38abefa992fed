-- ===== src/Burnin/Messages.antt =====
-- What a script's output does: its last message and the entries of the error log.
use breakin.Base.{
  ℕ, suc, ◌≡◌, ◌≢◌, refl, ap, ◌∙◌, inl, inr, Bool, true, false, ◌&&◌, List, [], ◌∷◌, ◌++◌, arith,
  ltb, length, Bool-cases, List-cases, none, some, if◌then◌else◌, and-left, and-right,
}
use breakin.Text.{
  Bytes, codes, bufsiz, copy_n, strncpy, starts_with, starts_with-append, starts_with-split,
}
use breakin.Trim.{trim}
use breakin.Trim.Buffer.{has_text, all_text, trim_buffer-text, trim_buffer-blank}
use breakin.Log.{LogCall, error}
use breakin.Burnin.Script.{Script}
use breakin.Burnin.Poll.{handle_text, handle_line, handle_lines}

abbrev pub msg_tag : Bytes
msg_tag = codes "MSG: "

-- A line of a script: a progress message, which is the tag and some text, or anything else.
pub data Report (line : Bytes) : Type 0 where
  progress : (c : ℕ) (text : Bytes) → line ≡ msg_tag ++ c ∷ text → Report line
  complaint : ((c : ℕ) (text : Bytes) → line ≢ msg_tag ++ c ∷ text) → Report line

-- Its text, and what it adds to the log.
abbrev pub report_text : {line : Bytes} → Report line → Bytes
report_text (progress c text e) = c ∷ text
report_text {line} (complaint n) = line

abbrev pub report_calls : Bytes → {line : Bytes} → Report line → List LogCall
report_calls name (progress c text e) = []
report_calls name {line} (complaint n) = error (copy_n bufsiz (name ++ (codes " - " ++ line))) ∷ []

-- the test of the source
abbrev is_msg : Bytes → Bool
is_msg line = starts_with msg_tag line && ltb 5 (length line)

is_msg_progress :
    (line : Bytes) (c : ℕ) (text : Bytes) → line ≡ msg_tag ++ c ∷ text → is_msg line ≡ true
is_msg_progress line c text e =
    rw e (rw (starts_with-append msg_tag (c ∷ text)) (long (length text)))
  where
    long : (n : ℕ) → ltb 5 (suc (suc (suc (suc (suc (suc n)))))) ≡ true
    long n = ground arith

is_msg-split :
    (line : Bytes) → is_msg line ≡ true → (c : ℕ) × (text : Bytes) × (line ≡ msg_tag ++ c ∷ text)
is_msg-split line y =
    let (rest, e) = starts_with-split msg_tag line (and-left _ _ y) in
    elim (List-cases rest) [
      | inl nil ↦ absurd (
          short (length line) (and-right (starts_with msg_tag line) _ y)
            (ap length e ∙ rw nil refl))
      | inr (c, text, f) ↦ (c, text, e ∙ rw f refl)
    ]
  where
    short : (n : ℕ) → ltb 5 n ≡ true → n ≡ 5 → ⊥
    short n h e = ground arith

is_msg_complaint :
    (line : Bytes) → ((c : ℕ) (text : Bytes) → line ≢ msg_tag ++ c ∷ text) → is_msg line ≡ false
is_msg_complaint line n = elim (Bool-cases (is_msg line)) [
  | inl y ↦ let (c, text, e) = is_msg-split line y in absurd (n c text e)
  | inr no_msg ↦ no_msg
]

-- Every line is one or the other.
pub report : (line : Bytes) → Report line
report line = elim (Bool-cases (is_msg line)) [
  | inl y ↦ let (c, text, e) = is_msg-split line y in progress c text e
  | inr n ↦ complaint (λ c text e. cc (is_msg_progress line c text e, n))
]

handle_text_lem :
    (line : Bytes) (s : Script) (r : Report line)
    → handle_text line s
      ≡ (record s { last_msg = strncpy bufsiz (report_text r) }, report_calls s.name r)
unfolding handle_text
handle_text_lem line s (progress c text e) = rw (is_msg_progress line c text e) (rw e refl)
handle_text_lem line s (complaint n) = rw (is_msg_complaint line n) refl

-- the message after some lines: the text of the last one, or the message from before
abbrev pub last_text : Bytes → List Bytes → Bytes
last_text old [] = old
last_text old (chunk ∷ chunks) =
    last_text (strncpy bufsiz (report_text (report (trim chunk)))) chunks

-- the log entries: one for each complaint, in order
abbrev pub complaints : Bytes → List Bytes → List LogCall
complaints name [] = []
complaints name (chunk ∷ chunks) = report_calls name (report (trim chunk)) ++ complaints name chunks

-- Whatever lines come: if one of them is white space, `trim` leaves its buffer. If none is: the last
-- message becomes the text of the last line, trimmed, without its tag if it is a progress message and
-- cut to the field; the log gets an error entry for each line that is none, in their order; and nothing
-- else of the script's entry changes.
pub handle_lines_lem :
    (chunks : List Bytes) (s : Script)
    → handle_lines chunks s ≡ (
        if all_text chunks
        then some (record s { last_msg = last_text s.last_msg chunks }, complaints s.name chunks)
        else none)
unfolding handle_lines handle_line
handle_lines_lem [] s = refl
handle_lines_lem (chunk ∷ chunks) s =
    let m : Bytes = strncpy bufsiz (report_text (report (trim chunk))) in
    elim (Bool-cases (has_text chunk)) [
      | inr n ↦ rw (trim_buffer-blank chunk n, n) refl
      | inl y ↦
          rw (trim_buffer-text chunk y, y)
            (rw (handle_text_lem (trim chunk) s (report (trim chunk)))
              (rw (handle_lines_lem chunks (record s { last_msg = m })) (ground arith)))
    ]
