-- ===== src/Base/Interleave.antt =====
-- Interleavings: a list that holds two lists, or any number of them, each in its own order.
use mathlib.Core.Path.{◌≡◌}
use mathlib.Core.List.{List, [], ◌∷◌, ◌++◌}

pub data Merge {A : Type 0} : List A → List A → List A → Type 0 where
  done : Merge [] [] []
  left : {x : A} {xs ys zs : List A} → Merge xs ys zs → Merge (x ∷ xs) ys (x ∷ zs)
  right : {y : A} {xs ys zs : List A} → Merge xs ys zs → Merge xs (y ∷ ys) (y ∷ zs)

-- of any number of lists
abbrev pub Merged : {A : Type 0} → List (List A) → List A → Type 0
Merged [] zs = zs ≡ []
Merged {A} (xs ∷ xss) zs = (ys : List A) × Merged xss ys × Merge xs ys zs

-- A prefix on both sides.
pub Merge-left :
    {A : Type 0} (ws : List A) {xs ys zs : List A} → Merge xs ys zs → Merge (ws ++ xs) ys (ws ++ zs)
Merge-left [] m = m
Merge-left (w ∷ ws) m = left (Merge-left ws m)

pub Merge-right :
    {A : Type 0} (ws : List A) {xs ys zs : List A} → Merge xs ys zs → Merge xs (ws ++ ys) (ws ++ zs)
Merge-right [] m = m
Merge-right (w ∷ ws) m = right (Merge-right ws m)
