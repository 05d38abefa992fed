-- ===== src/Trim/Shift.antt =====
-- The loops of `trim` that find the string's text and move it to the front.
use breakin.Base.{
  ℕ, zero, suc, ◌+◌, ◌-◌, ◌<◌, ◌≡◌, ◌≢◌, refl, sym, ap, ◌∙◌, true, false, [], ◌∷◌, ◌++◌,
  append_assoc, some, arith, get_elem?, set, length, length-append, get_elem?-append, get_at,
  set_at, some-pair,
}
use breakin.Text.{Bytes}
use breakin.Trim.{is_blank, leading, shift, find_end, close_up, strip_front}

-- No NUL stands in the bytes.
abbrev pub NoNul : Bytes → Type 0
NoNul [] = Unit {0}
NoNul (c ∷ s) = (c ≢ 0) × NoNul s

-- the blanks in front of a string
abbrev pub front : Bytes → Bytes
front [] = []
front (c ∷ s) = elim (is_blank c) [ true ↦ c ∷ front s | false ↦ [] ]

pub front-strip_front : (s : Bytes) → front s ++ strip_front s ≡ s
unfolding strip_front
front-strip_front [] = refl
front-strip_front (c ∷ s) = ground (arith, front-strip_front s)

pub leading_lem : (s r : Bytes) (n : ℕ) → leading n (s ++ 0 ∷ r) ≡ some (n + length (front s))
unfolding leading
leading_lem [] r n = ground arith
leading_lem (c ∷ s) r n = ground (arith, leading_lem s r (suc n))

pub strip_front-NoNul : (s : Bytes) → NoNul s → NoNul (strip_front s)
unfolding strip_front
strip_front-NoNul [] h = tt
strip_front-NoNul (c ∷ s) h = ground (arith, strip_front-NoNul s h.1)

find_end_step :
    (f : ℕ) (m : Bytes) (p c : ℕ)
    → get_elem? m p ≡ some c
    → c ≢ 0
    → find_end (suc f) m p ≡ find_end f m (p + 1)
unfolding find_end
find_end_step f m p c g n = ground arith

find_end_lem :
    (s a r : Bytes) (fuel : ℕ)
    → NoNul s
    → length s < fuel
    → find_end fuel (a ++ (s ++ 0 ∷ r)) (length a) ≡ some (length a + length s)
find_end_lem s a r zero n h = elim h [ ]
find_end_lem [] a r (suc fuel) n h =
    unfold find_end in rw (get_elem?-append a 0 r, find_end) (ap some (omega arith))
find_end_lem (c ∷ s) a r (suc fuel) n h =
    find_end_step fuel _ _ c (get_elem?-append a c (s ++ 0 ∷ r)) n.0
    ∙ (rw (append_assoc a (c ∷ []) (s ++ 0 ∷ r), length-append a (c ∷ [])) at
        (find_end_lem s (a ++ c ∷ []) r fuel n.1 (omega arith)))
    ∙ ap some (omega arith)

shift_step :
    (f n : ℕ) (m : Bytes) (p c : ℕ)
    → get_elem? m p ≡ some c
    → c ≢ 0
    → shift (suc f) n m p ≡ shift f n (set m (p - n) c) (p + 1)
unfolding shift
shift_step f n m p c g h = ground arith

-- The loop moves `s` down over the gap `g`, which stays as long as it was.
shift_lem :
    (s a g r m : Bytes) (fuel n p : ℕ)
    → NoNul s
    → length s < fuel
    → m ≡ a ++ (g ++ (s ++ 0 ∷ r))
    → n ≡ length g
    → p ≡ length a + length g
    → 0 < length g
    → (h : Bytes) × (length h ≡ length g)
      × (shift fuel n m p ≡ some (a ++ (s ++ (h ++ 0 ∷ r)), length a + length s + length g))
shift_lem s a g r m zero n p ns lt em en ep pos = elim lt [ ]
shift_lem [] a g r m (suc fuel) n p ns lt em en ep pos =
    let e : m ≡ (a ++ g) ++ 0 ∷ r = em ∙ sym (append_assoc a g (0 ∷ r)) in
    let q : p ≡ length (a ++ g) = ep ∙ sym (length-append a g) in
    (g, refl, unfold shift in rw (get_at (a ++ g) 0 r e q, shift) (ground arith))
shift_lem (c ∷ s) a [] r m (suc fuel) n p ns lt em en ep pos = absurd (omega arith)
shift_lem (c ∷ s) a (x ∷ g) r m (suc fuel) n p ns lt em en ep pos =
    let e : m ≡ (a ++ x ∷ g) ++ c ∷ (s ++ 0 ∷ r) =
      em ∙ sym (append_assoc a (x ∷ g) (c ∷ (s ++ 0 ∷ r))) in
    let q : p ≡ length (a ++ x ∷ g) = ep ∙ sym (length-append a (x ∷ g)) in
    let w : set m (p - n) c ≡ a ++ c ∷ (g ++ c ∷ (s ++ 0 ∷ r)) =
      set_at a x c (g ++ c ∷ (s ++ 0 ∷ r)) em (omega arith) in
    let (h, len, run) =
      shift_lem s (a ++ c ∷ []) (g ++ c ∷ []) r (set m (p - n) c) fuel n (p + 1) ns.1 (omega arith)
        (w ∙ simp append_assoc) (en ∙ omega (arith, length-append g (c ∷ [])))
        (omega (arith, length-append g (c ∷ []), length-append a (c ∷ [])))
        (omega (arith, length-append g (c ∷ []))) in
    (
      h,
      len ∙ omega (arith, length-append g (c ∷ [])),
      shift_step fuel n m p c (get_at (a ++ x ∷ g) c (s ++ 0 ∷ r) e q) ns.0
          ∙ run
          ∙ some-pair (append_assoc a (c ∷ []) (s ++ (h ++ 0 ∷ r)))
              (omega (arith, length-append g (c ∷ []), length-append a (c ∷ []))),
    )

-- The state of the memory before the last loop: the gap is closed.
pub close_up_lem :
    (g s a r m : Bytes) (n p : ℕ)
    → NoNul s
    → m ≡ a ++ (g ++ (s ++ 0 ∷ r))
    → n ≡ length g
    → p ≡ length a + length g
    → (junk : Bytes) × (length junk ≡ length g + length r)
      × (close_up n m p ≡ some (a ++ (s ++ 0 ∷ junk), length a + length s + length g))
unfolding close_up
close_up_lem [] s a r m n p ns em en ep =
    let big : length m ≡ length a + (length s + suc (length r)) =
      ap length em ∙ length-append a (s ++ 0 ∷ r) ∙ omega (arith, length-append s (0 ∷ r)) in
    let q : p ≡ length a = ep ∙ omega arith in
    let stop : find_end (suc (length m)) m p ≡ some (length a + length s) =
      rw (em, q)
        (find_end_lem s a r (suc (length (a ++ (s ++ 0 ∷ r)))) ns (omega (arith, ap length em))) in
    (r, omega arith, rw (en, stop, close_up) (some-pair em (omega arith)))
close_up_lem (x ∷ g) s a r m n p ns em en ep =
    let big : length m ≡ length a + (suc (length g) + (length s + suc (length r))) =
      ap length em
      ∙ length-append a (x ∷ g ++ (s ++ 0 ∷ r))
      ∙ omega (arith, length-append (x ∷ g) (s ++ 0 ∷ r), length-append s (0 ∷ r)) in
    let (h, len, run) =
      shift_lem s a (x ∷ g) r m (suc (length m)) (suc (length g)) p ns (omega arith) em refl ep
        (omega arith) in
    finish h len run
  where
    finish :
        (h : Bytes)
        → length h ≡ suc (length g)
        → shift (suc (length m)) (suc (length g)) m p
          ≡ some (a ++ (s ++ (h ++ 0 ∷ r)), length a + length s + suc (length g))
        → (junk : Bytes) × (length junk ≡ suc (length g) + length r)
          × (close_up n m p ≡ some (a ++ (s ++ 0 ∷ junk), length a + length s + suc (length g)))
    finish [] len run = absurd (omega arith)
    finish (y ∷ h) len run = (
      h ++ 0 ∷ r,
      omega (arith, length-append h (0 ∷ r)),
      rw (en, run, close_up)
          (some-pair
            (set_at (a ++ s) y 0 (h ++ 0 ∷ r) (sym (append_assoc a s (y ∷ (h ++ 0 ∷ r))))
                (omega (arith, length-append a s))
              ∙ append_assoc a s (0 ∷ (h ++ 0 ∷ r)))
            refl),
    )
