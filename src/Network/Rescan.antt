-- ===== src/Network/Rescan.antt =====
-- What a thread that reads the table of cards sees while `get_nic_info` scans the interfaces again: the
-- table after any number of them, with the count of the scan before.
use breakin.Base.{
  ℕ, suc, ◌+◌, ◌≡◌, refl, sym, ap, ◌∙◌, All, inl, inr, ◌⊎◌, Bool, true, false, Bool-cases, List, [],
  ◌∷◌, ◌++◌, append_assoc, append-nil, Option, none, some, push, take, length, length-append,
  get_elem?-append, set-append, arith,
}
use breakin.Text.{Bytes, codes, copy_n, starts_with}
use breakin.Network.{
  Nic, Mac, mac_text, mac_number, Interface, describe, write_nic, probe_nic, probe_nics, is_wired,
  choose_id,
}
use breakin.Network.Cards.{filled, card, cards}

-- An interface that is skipped, or has an IP address.
abbrev pub IsComplete : Interface → Type 0
IsComplete i =
    (i.hwaddr ≡ none)
    ⊎ ((starts_with (codes "lo") i.name ≡ true) ⊎ ((ip : Bytes) × (i.address ≡ some ip)))

-- A card is written over itself.
write_nic_same :
    (i : Interface) (mac : Mac) (ip : Bytes) (done rest : List Nic)
    → i.address ≡ some ip
    → let c : Nic = record {
      name = copy_n 16 i.name;
      macaddr = mac_text mac;
      macaddr_num = mac_number mac;
      ipaddr = ip;
    } in
      write_nic i mac (length done, done ++ c ∷ rest) ≡ some (length done + 1, done ++ c ∷ rest)
unfolding write_nic
write_nic_same i mac ip done rest e =
    let c : Nic = record {
      name = copy_n 16 i.name;
      macaddr = mac_text mac;
      macaddr_num = mac_number mac;
      ipaddr = ip;
    } in
    rw (e, write_nic)
      (rw (get_elem?-append done c rest, write_nic) (rw (set-append done c c rest) refl))

-- The fields apart, for an interface that is no loopback.
abbrev Unchanged : Interface → Option Nic → List Nic → List Nic → Type 0
Unchanged i c done rest =
    probe_nic i (length done, done ++ push c rest)
    ≡ some (length done + length (push c []), done ++ push c rest)

no_new :
    (done : List Nic) (t : List Nic)
    → ◌≡◌ {A = Option (ℕ × List Nic)} (some (length done, t)) (some (length done + 0, t))
no_new done t = ap (λ n. some (n, t)) (omega arith)

fields_same :
    (name : Bytes) (hwaddr : Option Mac) (address : Option Bytes) (done rest : List Nic)
    → starts_with (codes "lo") name ≡ false
    → (hwaddr ≡ none) ⊎ ((ip : Bytes) × (address ≡ some ip))
    → Unchanged
        (record { name = name; hwaddr = hwaddr; address = address })
        (filled name hwaddr address)
        done
        rest
unfolding probe_nic
fields_same name none address done rest l p = no_new done (done ++ rest)
fields_same name (some mac) (some ip) done rest l p = rw l (
    write_nic_same (record { name = name; hwaddr = some mac; address = some ip }) mac ip done rest
      refl)
fields_same name (some mac) none done rest l p = elim p [
  | inl h ↦ absurd (cc)
  | inr (ip, h) ↦ absurd (cc)
]

lo_same :
    (i : Interface) (done rest : List Nic)
    → starts_with (codes "lo") i.name ≡ true
    → probe_nic i (length done, done ++ rest) ≡ some (length done + 0, done ++ rest)
unfolding probe_nic
lo_same i done rest l = let more = no_new done (done ++ rest) in ground arith

probe_nic_same :
    (i : Interface) (done rest : List Nic) → IsComplete i → Unchanged i (card i) done rest
unfolding starts_with
probe_nic_same i done rest p = elim (Bool-cases (starts_with (codes "lo") i.name)) [
  | inl l ↦ rw l (lo_same i done rest l)
  | inr n ↦ rw n (
      fields_same i.name i.hwaddr i.address done rest n
        (elim p [ inl h ↦ inl h | inr (inl l) ↦ absurd (cc) | inr (inr (ip, h)) ↦ inr (ip, h) ]))
]

push-inside : (c : Option Nic) (xs ys : List Nic) → push c xs ++ ys ≡ push c (xs ++ ys)
push-inside none xs ys = refl
push-inside (some x) xs ys = refl

push-between :
    (done : List Nic) (c : Option Nic) (ys : List Nic)
    → done ++ push c ys ≡ (done ++ push c []) ++ ys
push-between done none ys = ap (λ d. d ++ ys) (sym (append-nil done))
push-between done (some x) ys = sym (append_assoc done (x ∷ []) ys)

length-push : (c : Option Nic) (xs : List Nic) → length (push c xs) ≡ length (push c []) + length xs
length-push none xs = omega arith
length-push (some x) xs = omega arith

probe_nics_same :
    (xs : List Interface) (done rest : List Nic) (n : ℕ) (t : List Nic)
    → n ≡ length done
    → t ≡ done ++ (cards xs ++ rest)
    → All IsComplete xs
    → probe_nics xs (n, t) ≡ some (n + length (cards xs), t)
unfolding probe_nics
probe_nics_same [] done rest n t en et a = ap (λ k. some (k, t)) (omega arith)
probe_nics_same (i ∷ xs) done rest n t en et a =
    let c : Option Nic = card i in
    let first : t ≡ done ++ push c (cards xs ++ rest) =
      et ∙ ap (λ s. done ++ s) (push-inside c (cards xs) rest) in
    let step : probe_nic i (n, t) ≡ some (n + length (push c []), t) =
      rw (en, first) (probe_nic_same i done (cards xs ++ rest) a.0) in
    rw (step, probe_nics)
      (probe_nics_same xs (done ++ push c []) rest (n + length (push c [])) t
          (omega (arith, en, length-append done (push c [])))
          (first ∙ push-between done c (cards xs ++ rest)) a.1
        ∙ ap (λ k. some (k, t)) (omega (arith, length-push c (cards xs))))

cards-append : (xs ys : List Interface) → cards (xs ++ ys) ≡ cards xs ++ cards ys
cards-append [] ys = refl
cards-append (x ∷ xs) ys =
    ap (push (card x)) (cards-append xs ys) ∙ sym (push-inside (card x) (cards xs) (cards ys))

All-front : (xs ys : List Interface) → All IsComplete (xs ++ ys) → All IsComplete xs
All-front [] ys a = tt
All-front (x ∷ xs) ys a = (a.0, All-front xs ys a.1)

filled-none :
    (name : Bytes) (hwaddr : Option Mac) (address : Option Bytes)
    → address ≡ none
    → filled name hwaddr address ≡ none
filled-none name none address e = refl
filled-none name (some mac) none e = refl
filled-none name (some mac) (some ip) e = absurd (cc)

card-none : (i : Interface) → i.address ≡ none → card i ≡ none
unfolding starts_with
card-none i e = elim (Bool-cases (starts_with (codes "lo") i.name)) [
  | inl l ↦ rw l refl
  | inr n ↦ rw n (filled-none i.name i.hwaddr i.address e)
]

write_nic_half :
    (i : Interface) (mac : Mac) (nic : Nic) (table : List Nic)
    → i.address ≡ none
    → write_nic i mac (0, nic ∷ table) ≡ some (0, describe i mac nic ∷ table)
unfolding write_nic
write_nic_half i mac nic table e = rw (e, write_nic) refl

probe_nic_half :
    (i : Interface) (mac : Mac) (nic : Nic) (table : List Nic)
    → i.hwaddr ≡ some mac
    → i.address ≡ none
    → starts_with (codes "lo") i.name ≡ false
    → probe_nic i (0, nic ∷ table) ≡ some (0, describe i mac nic ∷ table)
unfolding probe_nic
probe_nic_half i mac nic table h e l =
    rw (h, probe_nic) (rw (l, probe_nic) (write_nic_half i mac nic table e))

-- While the interfaces of the last scan are scanned again: if each of them is skipped or has an IP
-- address, then after any number of them the table is as it was. But if the first is a wired card with a
-- hardware address and no IP address, then after it the first slot, which belongs to another card, has
-- its name and its number, and `do_update` would send under that number, though the card is not one that
-- the scan lists.
pub rescan_lem :
    (xs ys : List Interface) (rest : List Nic) (i : Interface) (mac : Mac) (nic : Nic)
    (table : List Nic) (qty : ℕ) (s : Bool × Bytes)
    → All IsComplete (xs ++ ys)
    → i.hwaddr ≡ some mac
    → i.address ≡ none
    → starts_with (codes "lo") i.name ≡ false
    → is_wired (copy_n 16 i.name) ≡ true
    → (probe_nics xs (0, cards (xs ++ ys) ++ rest)
        ≡ some (length (cards xs), cards (xs ++ ys) ++ rest))
      × (probe_nic i (0, nic ∷ table) ≡ some (0, describe i mac nic ∷ table))
      × (choose_id (take (suc qty) (describe i mac nic ∷ table)) s ≡ (true, mac_number mac))
      × (card i ≡ none)
unfolding choose_id
rescan_lem xs ys rest i mac nic table qty s a h e l w = (
  probe_nics_same xs [] (cards ys ++ rest) 0 (cards (xs ++ ys) ++ rest) refl
        (ap (λ t. t ++ rest) (cards-append xs ys) ∙ append_assoc (cards xs) (cards ys) rest)
        (All-front xs ys a)
      ∙ ap (λ k. some (k, cards (xs ++ ys) ++ rest)) (omega arith),
  probe_nic_half i mac nic table h e l,
  rw w refl,
  card-none i e,
)
