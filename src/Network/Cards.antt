-- ===== src/Network/Cards.antt =====
-- What the table of cards holds after `get_nic_info`.
use breakin.Base.{
  ℕ, zero, suc, ◌+◌, ◌≤◌, ◌<◌, ◌≡◌, refl, sym, ap, ◌∙◌, true, false, Bool-cases, inl, inr, List, [],
  ◌∷◌, ◌++◌, append-nil, append_assoc, Option, none, some, push, take, length, set, get_elem?-lt,
  length-set, length-append, arith,
}
use breakin.Text.{Bytes, codes, copy_n, starts_with}
use breakin.Log.{message}
use breakin.Network.{
  max_num_nics, Nic, Mac, mac_text, mac_number, Interface, describe, write_nic, probe_nic,
  probe_nics, IfConf, no_socket, conf_failed, listed, Nics, get_nic_info,
}

-- the card that an interface counts as: one with a hardware and an IP address that is not a loopback
abbrev pub filled : Bytes → Option Mac → Option Bytes → Option Nic
filled name none address = none
filled name (some mac) none = none
filled name (some mac) (some ip) = some (record {
  name = copy_n 16 name;
  macaddr = mac_text mac;
  macaddr_num = mac_number mac;
  ipaddr = ip;
})

abbrev pub card : Interface → Option Nic
card i = elim (starts_with (codes "lo") i.name) [
  | true ↦ none
  | false ↦ filled i.name i.hwaddr i.address
]

abbrev pub cards : List Interface → List Nic
cards [] = []
cards (i ∷ is) = push (card i) (cards is)

-- A slot is written where the counted ones end.
take-set : (xs : List Nic) (i : ℕ) (v : Nic) → take i (set xs i v) ≡ take i xs
take-set [] i v = refl
take-set (x ∷ xs) zero v = refl
take-set (x ∷ xs) (suc i) v = ap (◌∷◌ x) (take-set xs i v)

take-suc-set :
    (xs : List Nic) (i : ℕ) (v : Nic)
    → i < length xs
    → take (suc i) (set xs i v) ≡ take i xs ++ v ∷ []
take-suc-set [] i v h = absurd (omega arith)
take-suc-set (x ∷ xs) zero v h = refl
take-suc-set (x ∷ xs) (suc i) v h = ap (◌∷◌ x) (take-suc-set xs i v (omega arith))

-- The table after `new` more cards.
record Extends (s : Nics) (new : List Nic) (s' : Nics) : Type 0 where
  counted : s'.0 ≡ s.0 + length new
  size : length s'.1 ≡ length s.1
  content : take s'.0 s'.1 ≡ take s.0 s.1 ++ new

abbrev Gives : Nics → List Nic → Option Nics → Type 0
Gives s new r = (s' : Nics) × (r ≡ some s') × Extends s new s'

Extends-none : (s : Nics) → Extends s [] s
Extends-none s = record { counted = omega arith; size = refl; content = sym (append-nil _) }

-- Stated with the interface's fields apart, so that they can be split.
write_nic-Gives :
    (name : Bytes) (hwaddr : Option Mac) (mac : Mac) (address : Option Bytes) (nics : ℕ)
    (table : List Nic)
    → nics < length table
    → Gives
        (nics, table)
        (push (filled name (some mac) address) [])
        (write_nic (record { name = name; hwaddr = hwaddr; address = address }) mac (nics, table))
unfolding write_nic
write_nic-Gives name hwaddr mac none nics table room =
    let (nic, at) = get_elem?-lt table nics room in
    let i : Interface = record { name = name; hwaddr = hwaddr; address = none } in
    (
      (nics, set table nics (describe i mac nic)),
      rw (at, write_nic) refl,
      record {
        counted = omega arith;
        size = length-set table nics (describe i mac nic);
        content = take-set table nics _ ∙ sym (append-nil _);
      },
    )
write_nic-Gives name hwaddr mac (some ip) nics table room =
    let (nic, at) = get_elem?-lt table nics room in
    let i : Interface = record { name = name; hwaddr = hwaddr; address = some ip } in
    let new : Nic = record (describe i mac nic) { ipaddr = ip } in
    let one_more : nics + 1 ≡ suc nics = omega arith in
    (
      (nics + 1, set table nics new),
      rw (at, write_nic) refl,
      record {
        counted = omega arith;
        size = length-set table nics _;
        content = rw one_more (take-suc-set table nics new room);
      },
    )

probe_some :
    (name : Bytes) (hwaddr : Option Mac) (address : Option Bytes) (nics : ℕ) (table : List Nic)
    → nics < length table
    → starts_with (codes "lo") name ≡ false
    → Gives
        (nics, table)
        (push (filled name hwaddr address) [])
        (probe_nic (record { name = name; hwaddr = hwaddr; address = address }) (nics, table))
unfolding probe_nic
probe_some name none address nics table room l = ((nics, table), refl, Extends-none (nics, table))
probe_some name (some mac) address nics table room l =
    rw l (write_nic-Gives name (some mac) mac address nics table room)

probe_lo :
    (i : Interface) (s : Nics) → starts_with (codes "lo") i.name ≡ true → probe_nic i s ≡ some s
unfolding probe_nic
probe_lo i s l = ground arith

probe_nic-Gives :
    (i : Interface) (nics : ℕ) (table : List Nic)
    → nics < length table
    → Gives (nics, table) (push (card i) []) (probe_nic i (nics, table))
unfolding starts_with
probe_nic-Gives i nics table room = elim (Bool-cases (starts_with (codes "lo") i.name)) [
  | inl l ↦ ((nics, table), probe_lo i (nics, table) l, rw l (Extends-none (nics, table)))
  | inr l ↦ rw l (probe_some i.name i.hwaddr i.address nics table room l)
]

Extends-trans :
    {a b c : Nics} (xs ys : List Nic) → Extends a xs b → Extends b ys c → Extends a (xs ++ ys) c
Extends-trans xs ys p q = record {
  counted = omega (arith, p.counted, q.counted, length-append xs ys);
  size = q.size ∙ p.size;
  content = q.content ∙ ap (λ t. t ++ ys) p.content ∙ append_assoc _ xs ys;
}

push-append : (o : Option Nic) (xs : List Nic) → push o xs ≡ push o [] ++ xs
push-append none xs = refl
push-append (some x) xs = refl

length-push : (o : Option Nic) → length (push o []) ≤ 1
length-push none = omega arith
length-push (some x) = omega arith

probe_nics-Gives :
    (is : List Interface) (s : Nics)
    → s.0 + length is ≤ length s.1
    → Gives s (cards is) (probe_nics is s)
unfolding probe_nics
probe_nics-Gives [] s room = (s, refl, Extends-none s)
probe_nics-Gives (i ∷ is) (nics, table) room =
    let (s1, run, one) = probe_nic-Gives i nics table (omega arith) in
    let (s2, run', rest) =
      probe_nics-Gives is s1 (omega (arith, one.counted, one.size, length-push (card i))) in
    (
      s2,
      rw (run, probe_nics) run',
      rw (push-append (card i) (cards is)) (Extends-trans (push (card i) []) (cards is) one rest),
    )

-- A table of 32 slots and a list of at most 32 interfaces: no slot outside the table is written, and
-- the counted slots are the cards of the interfaces that have a hardware and an IP address and are not
-- called `lo…`, in order, each wholly rewritten. Before the hardware setup is finished, and if the list
-- cannot be had, table and count stay.
pub get_nic_info_lem :
    (is : List Interface) (qty : ℕ) (table : List Nic) (conf : IfConf)
    → length table ≡ max_num_nics
    → length is ≤ max_num_nics
    → ((table' : List Nic) × (get_nic_info true (listed is) (qty, table)
          ≡ some ((length (cards is), table'), []))
        × (take (length (cards is)) table' ≡ cards is)
        × (length table' ≡ max_num_nics))
      × (get_nic_info false conf (qty, table) ≡ some ((qty, table), []))
      × (get_nic_info true no_socket (qty, table) ≡ some ((qty, table), []))
      × ((text : Bytes)
          → get_nic_info true (conf_failed text) (qty, table)
            ≡ some ((qty, table), message text ∷ []))
unfolding get_nic_info
get_nic_info_lem is qty table conf size few =
    let (s, run, e) = probe_nics-Gives is (0, table) (omega (arith, size, few)) in
    let counted : s.0 ≡ length (cards is) = omega (arith, e.counted) in
    (
      (
        s.1,
        rw (run, get_nic_info) (ap (λ n. some ((n, s.1), [])) counted),
        ap (λ n. take n s.1) (sym counted) ∙ e.content,
        e.size ∙ size,
      ),
      refl,
      refl,
      λ text. refl,
    )
