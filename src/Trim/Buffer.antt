-- ===== src/Trim/Buffer.antt =====
-- `trim` on a buffer whose text starts it: which texts it may be called with.
use breakin.Base.{
  ℕ, ◌≡◌, ◌≢◌, refl, ◌∙◌, inl, inr, Bool, true, false, not, ◌&&◌, ◌||◌, List, [], ◌∷◌, ◌++◌, none,
  some, arith, Bool-cases, some-eq,
}
use breakin.Text.{Bytes}
use breakin.Trim.{is_space, keep, strip_front, strip_end, trim, trim_at, trim_buffer}
use breakin.Trim.Shift.{NoNul}
use breakin.Trim.Strip.{trim_at-trim, trim_at_underrun}

-- Some byte is no white space.
abbrev pub has_text : Bytes → Bool
has_text [] = false
has_text (c ∷ s) = not (is_space c) || has_text s

abbrev pub all_text : List Bytes → Bool
all_text [] = true
all_text (line ∷ lines) = has_text line && all_text lines

abbrev pub HasText : Bytes → Type 0
HasText s = has_text s ≡ true

strip_end-nil : (s : Bytes) → has_text s ≡ false → strip_end s ≡ []
unfolding strip_end
strip_end-nil [] h = refl
strip_end-nil (c ∷ s) h = rw (strip_end-nil s (ground arith)) (ground arith)

keep-ne : (c : ℕ) (s : Bytes) → (is_space c ≡ true → s ≢ []) → keep c s ≢ []
keep-ne c [] h = λ e. ground (arith, h)
keep-ne c (d ∷ s) h = λ e. cc

strip_end-ne : (s : Bytes) → HasText s → strip_end s ≢ []
unfolding strip_end
strip_end-ne [] h = absurd (cc)
strip_end-ne (c ∷ s) h = keep-ne c (strip_end s) (λ y. strip_end-ne s (ground arith))

strip_front-text : (s : Bytes) → has_text (strip_front s) ≡ has_text s
unfolding strip_front
strip_front-text [] = refl
strip_front-text (c ∷ s) = ground (arith, strip_front-text s)

-- The text is not empty behind `trim` exactly if it has a byte that is no white space.
trim-ne : (s : Bytes) → HasText s → trim s ≢ []
unfolding trim
trim-ne s h = strip_end-ne (strip_front s) (strip_front-text s ∙ h)

trim-nil : (s : Bytes) → has_text s ≡ false → trim s ≡ []
unfolding trim
trim-nil s h = strip_end-nil (strip_front s) (strip_front-text s ∙ h)

pub trim_buffer-text : (s : Bytes) → HasText s → trim_buffer s ≡ some (trim s)
unfolding trim_buffer
trim_buffer-text s h = full (trim s) (trim-ne s h)
  where
    full : (t : Bytes) → t ≢ [] → elim t [ [] ↦ none | c ∷ u ↦ some (c ∷ u) ] ≡ some t
    full [] ne = absurd (ne refl)
    full (c ∷ u) ne = refl

pub trim_buffer-blank : (s : Bytes) → has_text s ≡ false → trim_buffer s ≡ none
unfolding trim_buffer
trim_buffer-blank s h = rw (trim-nil s h, trim_buffer) refl

-- A text that `trim` leaves is the trimmed one.
pub trim_buffer-some : (s t : Bytes) → trim_buffer s ≡ some t → (HasText s) × (t ≡ trim s)
trim_buffer-some s t h = elim (Bool-cases (has_text s)) [
  | inl y ↦ (y, some-eq (cc (h, trim_buffer-text s y)))
  | inr n ↦ absurd (cc (h, trim_buffer-blank s n))
]

-- The memory says the same: of a text without NUL the run on the buffer's bytes is defined exactly if
-- the text has a byte that is no white space, and leaves the trimmed text in the buffer.
trim_buffer-trim_at :
    (s r : Bytes)
    → NoNul s
    → (HasText s → (junk : Bytes) × (trim_at (s ++ 0 ∷ r) 0 ≡ some (trim s ++ 0 ∷ junk)))
      × (has_text s ≡ false → trim_at (s ++ 0 ∷ r) 0 ≡ none)
trim_buffer-trim_at s r h = (
  λ y. let (junk, run, size) = trim_at-trim s h [] r (trim-ne s y) in (junk, run),
  λ n. trim_at_underrun s h r (trim-nil s n),
)
