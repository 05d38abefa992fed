-- ===== src/Network/Updates.antt =====
-- What `do_update` sends, and under which card's number.
use breakin.Base.{
  suc, ◌≡◌, refl, ap, ◌∙◌, Bool, true, false, Bool-cases, inl, inr, List, [], ◌∷◌, ◌++◌, map,
  Option, none, some, drop, drop-append, length, All, arith,
}
use breakin.Text.{Bytes, codes}
use breakin.Number.{ℤ}
use breakin.Network.{
  Nic, Upload, upload_data, is_wired, choose_id, send_state, Round, Target, update_rounds,
  do_update,
}

-- the number of the first wired card
abbrev pub wired_id : List Nic → Option Bytes
wired_id [] = none
wired_id (nic ∷ nics) = elim (is_wired nic.name) [
  | true ↦ some nic.macaddr_num
  | false ↦ wired_id nics
]

abbrev pub report : Target → Bytes → Round → Upload
report t id r =
    upload_data r.run_time id t.interval t.url (codes "/var/run/breakin.dat")
      (codes "/var/log/breakin.log")

abbrev pub sent : Option Upload → Bool
sent none = false
sent (some u) = true

choose_id-none : (nics : List Nic) (s : Bool × Bytes) → wired_id nics ≡ none → choose_id nics s ≡ s
unfolding choose_id
choose_id-none [] s h = refl
choose_id-none (nic ∷ nics) s h = elim (Bool-cases (is_wired nic.name)) [
  | inl y ↦ absurd (ground arith)
  | inr n ↦ rw n (choose_id-none nics s (ground arith))
]

choose_id-some :
    (nics : List Nic) (s : Bool × Bytes) (id : Bytes)
    → wired_id nics ≡ some id
    → choose_id nics s ≡ (true, id)
unfolding choose_id
choose_id-some [] s id h = cc
choose_id-some (nic ∷ nics) s id h = elim (Bool-cases (is_wired nic.name)) [
  | inl y ↦ ground arith
  | inr n ↦ rw n (choose_id-some nics s id (ground arith))
]

-- `found` and `id` after some rounds
abbrev known : List Round → Bool × Bytes → Bool × Bytes
known [] s = s
known (r ∷ rs) s = known rs (choose_id r.nics s)

update_rounds-append :
    (t : Target) (xs ys : List Round) (s : Bool × Bytes)
    → update_rounds t (xs ++ ys) s ≡ update_rounds t xs s ++ update_rounds t ys (known xs s)
unfolding update_rounds
update_rounds-append t [] ys s = refl
update_rounds-append t (x ∷ xs) ys s =
    ap (◌∷◌ (send_state t x.run_time (choose_id x.nics s)))
      (update_rounds-append t xs ys (choose_id x.nics s))

length-update_rounds :
    (t : Target) (rs : List Round) (s : Bool × Bytes) → length (update_rounds t rs s) ≡ length rs
unfolding update_rounds
length-update_rounds t [] s = refl
length-update_rounds t (r ∷ rs) s = ap suc (length-update_rounds t rs (choose_id r.nics s))

drop-update_rounds :
    (t : Target) (xs ys : List Round) (s : Bool × Bytes)
    → drop (length xs) (update_rounds t (xs ++ ys) s) ≡ update_rounds t ys (known xs s)
drop-update_rounds t xs ys s =
    rw (update_rounds-append t xs ys s, ← length-update_rounds t xs s)
      (drop-append (update_rounds t xs s) (update_rounds t ys (known xs s)))

-- Rounds without a wired card keep to the number that is known.
quiet_rounds :
    (t : Target) (quiet : List Round) (id : Bytes)
    → All (λ q. wired_id q.nics ≡ none) quiet
    → update_rounds t quiet (true, id) ≡ map (λ q. some (report t id q)) quiet
unfolding update_rounds
quiet_rounds t [] id a = refl
quiet_rounds t (q ∷ quiet) id a =
    rw (choose_id-none q.nics (true, id) a.0)
      (ap (◌∷◌ (some (report t id q))) (quiet_rounds t quiet id a.1))

silent_rounds :
    (t : Target) (quiet : List Round)
    → All (λ q. wired_id q.nics ≡ none) quiet
    → update_rounds t quiet (false, []) ≡ map (λ q. none) quiet
unfolding update_rounds
silent_rounds t [] a = refl
silent_rounds t (q ∷ quiet) a =
    rw (choose_id-none q.nics (false, []) a.0) (ap (◌∷◌ none) (silent_rounds t quiet a.1))

choose_id-found : (nics : List Nic) (s : Bool × Bytes) → s.0 ≡ true → (choose_id nics s).0 ≡ true
unfolding choose_id
choose_id-found [] s h = h
choose_id-found (nic ∷ nics) s h = let more = choose_id-found nics s h in ground arith

send_state-sent :
    (t : Target) (run_time : ℤ) (s : Bool × Bytes)
    → s.0 ≡ true
    → sent (send_state t run_time s) ≡ true
send_state-sent t run_time (true, id) h = refl
send_state-sent t run_time (false, id) h = cc

All-sent :
    (t : Target) (rs : List Round) (s : Bool × Bytes)
    → s.0 ≡ true
    → All (λ u. sent u ≡ true) (update_rounds t rs s)
unfolding update_rounds
All-sent t [] s h = tt
All-sent t (r ∷ rs) s h =
    let found : (choose_id r.nics s).0 ≡ true = choose_id-found r.nics s h in
    (send_state-sent t r.run_time _ found, All-sent t rs (choose_id r.nics s) found)

-- Once a round finds a wired card in the table, every round from it on sends the state; and until
-- another round finds one, under the number of the first wired card that this round found. As long as
-- no round has found one, nothing is sent.
pub do_update_lem :
    (t : Target) (before : List Round) (r : Round) (quiet after : List Round) (id : Bytes)
    → wired_id r.nics ≡ some id
    → All (λ q. wired_id q.nics ≡ none) quiet
    → (drop (length before) (do_update t (before ++ r ∷ quiet))
        ≡ map (λ q. some (report t id q)) (r ∷ quiet))
      × All (λ u. sent u ≡ true) (drop (length before) (do_update t (before ++ r ∷ after)))
      × (do_update t quiet ≡ map (λ q. none) quiet)
unfolding do_update
do_update_lem t before r quiet after id h a =
    let s : Bool × Bytes = known before (false, []) in
    let found : choose_id r.nics s ≡ (true, id) = choose_id-some r.nics s id h in
    (
      drop-update_rounds t before (r ∷ quiet) (false, [])
          ∙ unfold update_rounds in
            rw found (ap (◌∷◌ (some (report t id r))) (quiet_rounds t quiet id a)),
      rw (drop-update_rounds t before (r ∷ after) (false, []))
          (unfold update_rounds in rw found (refl, All-sent t after (true, id) refl)),
      silent_rounds t quiet a,
    )
