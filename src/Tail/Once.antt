-- ===== src/Tail/Once.antt =====
-- Every byte that is appended to a followed file is read once.
use breakin.Base.{
  ℕ, zero, suc, ◌+◌, ◌<◌, ◌≤◌, ◌≡◌, refl, sym, ap, ◌∙◌, List, [], ◌∷◌, ◌++◌, append_assoc, none,
  some, arith, drop, length, length-append, drop-append, All,
}
use breakin.Text.{Bytes}
use breakin.Tail.{take_line, read_lines, buf_room, tail_file}

abbrev pub joined : List Bytes → Bytes
joined [] = []
joined (x ∷ xs) = x ++ joined xs

take_line-joined : (room : ℕ) (s : Bytes) → (take_line room s).0 ++ (take_line room s).1 ≡ s
unfolding take_line
take_line-joined zero s = refl
take_line-joined (suc room) [] = refl
take_line-joined (suc room) (c ∷ s) = ground (arith, take_line-joined room s)

take_line-rest : (room : ℕ) (s : Bytes) → length (take_line room s).1 ≤ length s
unfolding take_line
take_line-rest zero s = omega arith
take_line-rest (suc room) [] = omega arith
take_line-rest (suc room) (c ∷ s) = ground (arith, take_line-rest room s)

-- fgets fills `buf` and no more, and takes something if there is anything.
take_line-bounds :
    (room : ℕ) (c : ℕ) (s : Bytes)
    → (0 < length (take_line (suc room) (c ∷ s)).0)
      × (length (take_line (suc room) (c ∷ s)).1 ≤ length s)
unfolding take_line
take_line-bounds room c s = ground (arith, take_line-rest room s)

length-take_line : (room : ℕ) (s : Bytes) → length (take_line room s).0 ≤ room
unfolding take_line
length-take_line zero s = omega arith
length-take_line (suc room) [] = omega arith
length-take_line (suc room) (c ∷ s) = ground (arith, length-take_line room s)

read_lines-joined :
    (fuel room : ℕ) (s : Bytes) → length s ≤ fuel → joined (read_lines fuel (suc room) s) ≡ s
unfolding read_lines
read_lines-joined zero room [] h = refl
read_lines-joined zero room (c ∷ s) h = absurd (omega arith)
read_lines-joined (suc fuel) room [] h = refl
read_lines-joined (suc fuel) room (c ∷ s) h =
    ap (λ x. (take_line (suc room) (c ∷ s)).0 ++ x)
      (read_lines-joined fuel room (take_line (suc room) (c ∷ s)).1
        (omega (arith, take_line-bounds room c s)))
    ∙ take_line-joined (suc room) (c ∷ s)

read_lines-All :
    (fuel room : ℕ) (s : Bytes) → All (λ line. length line ≤ room) (read_lines fuel room s)
unfolding read_lines
read_lines-All zero room s = tt
read_lines-All (suc fuel) room [] = tt
read_lines-All (suc fuel) room (c ∷ s) =
    (length-take_line room (c ∷ s), read_lines-All fuel room (take_line room (c ∷ s)).1)

-- One call after `old` was read, with `new` appended since: the lines are `new` cut up, each fits
-- the buffer, and the position moves to the end.
tail_file-append :
    (old new : Bytes)
    → (joined (tail_file (some (length old)) (old ++ new)).0 ≡ new)
      × All (λ line. length line ≤ buf_room) (tail_file (some (length old)) (old ++ new)).0
      × ((tail_file (some (length old)) (old ++ new)).1 ≡ length (old ++ new))
unfolding tail_file
tail_file-append old new = rw (drop-append old new) (
  read_lines-joined (length new) 8190 new (omega arith),
  read_lines-All (length new) buf_room new,
  sym (length-append old new),
)

-- calls at the times when more and more has been appended
abbrev pub follow : ℕ → Bytes → List Bytes → List Bytes
follow pos file [] = []
follow pos file (new ∷ news) =
    (tail_file (some pos) (file ++ new)).0
    ++ follow (tail_file (some pos) (file ++ new)).1 (file ++ new) news

joined-append : (xs ys : List Bytes) → joined (xs ++ ys) ≡ joined xs ++ joined ys
joined-append [] ys = refl
joined-append (x ∷ xs) ys = rw (joined-append xs ys, append_assoc x) refl

follow_first : (file new : Bytes) → joined (tail_file (some (length file)) (file ++ new)).0 ≡ new
follow_first file new = (tail_file-append file new).0

pub follow_last :
    (file new : Bytes) → (tail_file (some (length file)) (file ++ new)).1 ≡ length (file ++ new)
follow_last file new = let (same, fits, last) = tail_file-append file new in last

pub follow-joined :
    (news : List Bytes) (pos : ℕ) (file : Bytes)
    → pos ≡ length file
    → joined (follow pos file news) ≡ joined news
follow-joined [] pos file e = refl
follow-joined (new ∷ news) pos file e =
    rw (e, joined-append)
      (λ i.
        follow_first file new i
        ++ follow-joined news (tail_file (some (length file)) (file ++ new)).1 (file ++ new)
            (follow_last file new) i)

-- The first call reads nothing. From then on, however the file grows between the calls, the lines
-- read are together exactly the bytes appended since: nothing is lost, repeated or out of order.
follow_lem :
    (file : Bytes) (news : List Bytes)
    → ((tail_file none file).0 ≡ [])
      × (joined (follow (tail_file none file).1 file news) ≡ joined news)
unfolding tail_file
follow_lem file news = (refl, follow-joined news (length file) file refl)

drop-eq_nil : (n : ℕ) (s : Bytes) → length s ≤ n → drop n s ≡ []
drop-eq_nil zero [] h = refl
drop-eq_nil zero (c ∷ s) h = absurd (omega arith)
drop-eq_nil (suc n) [] h = refl
drop-eq_nil (suc n) (c ∷ s) h = drop-eq_nil n s (omega arith)

pos_same : (pos : ℕ) → pos + 0 ≡ pos
pos_same pos = omega arith

-- If the file is no longer than the position of the last call, nothing is read and the position
-- stays.
tail_file_truncated :
    (pos : ℕ) (file : Bytes) → length file ≤ pos → tail_file (some pos) file ≡ ([], pos)
unfolding tail_file read_lines
tail_file_truncated pos file h = rw (drop-eq_nil pos file h) (λ i. ([], pos_same pos i))
