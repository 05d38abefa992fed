-- ===== src/Devmem/Read.antt =====
-- However the kernel cuts a read up, the buffer gets the next bytes of the file.
use breakin.Base.{
  ℕ, zero, suc, ◌+◌, ◌-◌, ◌<◌, ◌≤◌, ◌≡◌, refl, sym, ap, ◌∙◌, true, false, List, [], ◌∷◌, ◌++◌,
  append_assoc, append-nil, ◌==◌, take, drop, take-nil, length, length-take, length-drop, min,
  arith,
}
use breakin.Text.{Bytes}
use breakin.Devmem.{Answer, bytes, interrupted, failed, filled, read_loop, myread}

-- the bytes that the answers hand over at most, if none fails: a read of 0 bytes ends the loop
abbrev pub offered : List Answer → ℕ
offered [] = 0
offered (interrupted ∷ as') = offered as'
offered (failed ∷ as') = 0
offered (bytes n ∷ as') = n + offered as'

-- an answer that moves the read on, or an interruption
abbrev pub Progress : List Answer → Type 0
Progress [] = Unit {0}
Progress (interrupted ∷ as') = Progress as'
Progress (failed ∷ as') = ⊥
Progress (bytes n ∷ as') = (0 < n) × Progress as'

take-take : (n m : ℕ) (s : Bytes) → n ≤ m → take m s ≡ take n s ++ take (m - n) (drop n s)
take-take zero m s h = ap (λ k. take k s) (omega arith)
take-take (suc n) zero s h = absurd (omega arith)
take-take (suc n) (suc m) [] h = sym (take-nil (suc m - suc n))
take-take (suc n) (suc m) (c ∷ s) h =
    ap (◌∷◌ c)
      (take-take n m s (omega arith) ∙ ap (λ k. take n s ++ take k (drop n s)) (omega arith))

read_loop-bytes :
    (n : ℕ) (answers : List Answer) (buf : Bytes) (missing : ℕ) (file : Bytes) (k : ℕ)
    → length (take (min n (suc missing)) file) ≡ k
    → 0 < k
    → read_loop (bytes n ∷ answers) buf (suc missing) file
      ≡ read_loop answers (buf ++ take (min n (suc missing)) file) (suc missing - k) (drop k file)
unfolding read_loop
read_loop-bytes n answers buf missing file k e h =
    let some_bytes : (k == 0) ≡ false = ground arith in rw (e, some_bytes) refl

-- what the loop gives if it ends well
read_loop-filled :
    (answers : List Answer) (buf : Bytes) (missing : ℕ) (file : Bytes)
    → Progress answers
    → missing ≤ length file
    → missing ≤ offered answers
    → read_loop answers buf missing file
      ≡ record { outcome = filled (buf ++ take missing file); still_open = true }
unfolding read_loop
read_loop-filled answers buf zero file p l o =
    ap (λ b. record { outcome = filled b; still_open = true }) (sym (append-nil buf))
read_loop-filled [] buf (suc missing) file p l o = absurd (omega arith)
read_loop-filled (interrupted ∷ answers) buf (suc missing) file p l o =
    read_loop-filled answers buf (suc missing) file p l o
read_loop-filled (failed ∷ answers) buf (suc missing) file p l o = absurd p
read_loop-filled (bytes n ∷ answers) buf (suc missing) file p l o =
    let k : ℕ = min n (suc missing) in
    let whole : length (take k file) ≡ k = omega (arith, length-take k file) in
    read_loop-bytes n answers buf missing file k whole (omega arith)
    ∙ read_loop-filled answers (buf ++ take k file) (suc missing - k) (drop k file) p.1
        (omega (arith, length-drop k file)) (omega arith)
    ∙ ap (λ b. record { outcome = filled b; still_open = true })
        (append_assoc buf (take k file) (take (suc missing - k) (drop k file))
          ∙ ap (λ x. buf ++ x) (sym (take-take k (suc missing) file (omega arith))))

-- A read of at least as much as is wanted, in any pieces and with any interruptions, fills the buffer
-- with the first `count` bytes of the file, which stays open.
pub myread-filled :
    (answers : List Answer) (count : ℕ) (file : Bytes)
    → Progress answers
    → count ≤ length file
    → count ≤ offered answers
    → myread answers count file ≡ record { outcome = filled (take count file); still_open = true }
unfolding myread
myread-filled answers count file p l o = read_loop-filled answers [] count file p l o
