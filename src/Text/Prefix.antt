-- ===== src/Text/Prefix.antt =====
-- Keys in front of a colon, told apart by what they start with.
use breakin.Base.{◌≡◌, refl, Bool, true, false, not, ◌&&◌, and-right, [], ◌∷◌, ◌++◌, ◌==◌, arith}
use breakin.Text.{Bytes, starts_with}

abbrev pub no_colon : Bytes → Bool
no_colon [] = true
no_colon (c ∷ p) = not (c == b':') && no_colon p

-- The key decides which field a line is about: a name without a colon that is sought does not reach behind it.
pub starts_with-key :
    (p k t : Bytes) → no_colon p ≡ true → starts_with p ((k ++ b':' ∷ []) ++ t) ≡ starts_with p k
unfolding starts_with
starts_with-key [] k t a = refl
starts_with-key (c ∷ p) [] t a = ground arith
starts_with-key (c ∷ p) (d ∷ k) t a =
    rw (starts_with-key p k t (and-right (not (c == b':')) (no_colon p) a)) refl

pub clash :
    (p q k : Bytes)
    → starts_with p q ≡ false
    → starts_with q p ≡ false
    → starts_with p k ≡ true
    → starts_with q k ≡ false
unfolding starts_with
clash [] q k no1 no2 h = cc
clash (c ∷ p) [] k no1 no2 h = cc
clash (c ∷ p) (d ∷ q) [] no1 no2 h = cc
clash (c ∷ p) (d ∷ q) (e ∷ k) no1 no2 h = let more = clash p q k in ground arith
