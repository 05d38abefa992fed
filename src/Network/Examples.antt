-- ===== src/Network/Examples.antt =====
-- The theorems of the network cards, applied to concrete interfaces and rounds.
use breakin.Base.{
  ℕ, zero, suc, ◌≡◌, refl, inr, true, false, List, [], ◌∷◌, ◌++◌, map, none, some, take, drop,
  length, All, arith,
}
use breakin.Text.{Bytes, codes, copy_n, starts_with}
use breakin.Number.{pos}
use breakin.Log.{message}
use breakin.Network.{
  max_num_nics, Nic, Interface, Mac, listed, no_socket, conf_failed, get_nic_info, Round, Target,
  do_update, mac_number, hex2, probe_nic, probe_nics, describe, choose_id,
}
use breakin.Network.Cards.{card, cards, get_nic_info_lem}
use breakin.Network.Rescan.{rescan_lem}
use breakin.Network.Updates.{report, sent, do_update_lem}

abbrev empty_nic : Nic
empty_nic = record { name = []; macaddr = []; macaddr_num = []; ipaddr = [] }

abbrev blank : ℕ → List Nic
blank zero = []
blank (suc n) = empty_nic ∷ blank n

abbrev mac : Mac
mac = record { b0 = 0; b1 = 37; b2 = 144; b3 = 171; b4 = 205; b5 = 239 }

abbrev other_mac : Mac
other_mac = record mac { b5 = 240 }

-- a loopback, a card without an IP address, and two cards
abbrev interfaces : List Interface
interfaces =
    record { name = codes "lo"; hwaddr = some mac; address = some (codes "127.0.0.1") }
    ∷ record { name = codes "eth1"; hwaddr = some mac; address = none }
    ∷ record { name = codes "eth0"; hwaddr = some mac; address = some (codes "10.0.0.7") }
    ∷ record { name = codes "ib0"; hwaddr = some mac; address = some (codes "10.1.0.7") }
    ∷ []

mac_number_test : mac_number mac ≡ codes "002590abcdef"
unfolding mac_number hex2
mac_number_test = refl

get_nic_info_lem_example :
    ((table' : List Nic) × (get_nic_info true (listed interfaces) (0, blank 32)
        ≡ some ((length (cards interfaces), table'), []))
      × (take (length (cards interfaces)) table' ≡ cards interfaces)
      × (length table' ≡ max_num_nics))
    × (get_nic_info false no_socket (0, blank 32) ≡ some ((0, blank 32), []))
    × (get_nic_info true no_socket (0, blank 32) ≡ some ((0, blank 32), []))
    × ((text : Bytes)
        → get_nic_info true (conf_failed text) (0, blank 32)
          ≡ some ((0, blank 32), message text ∷ []))
get_nic_info_lem_example = get_nic_info_lem interfaces 0 (blank 32) no_socket refl (omega arith)

abbrev target : Target
target = record { interval = pos 300; url = codes "http://burnin/" }

abbrev eth_card : Nic
eth_card = record empty_nic { name = codes "eth0"; macaddr_num = codes "002590abcdef" }

abbrev no_cards : Round
no_cards = record { nics = []; run_time = pos 300 }

abbrev one_card : Round
one_card = record { nics = eth_card ∷ []; run_time = pos 600 }

abbrev ib_only : List Round
ib_only =
    record { nics = record empty_nic { name = codes "ib0" } ∷ []; run_time = pos 900 }
    ∷ no_cards
    ∷ []

do_update_lem_example :
    (drop 1 (do_update target (no_cards ∷ one_card ∷ ib_only))
      ≡ map (λ q. some (report target (codes "002590abcdef") q)) (one_card ∷ ib_only))
    × All (λ u. sent u ≡ true) (drop 1 (do_update target (no_cards ∷ one_card ∷ no_cards ∷ [])))
    × (do_update target ib_only ≡ map (λ q. none) ib_only)
unfolding starts_with
do_update_lem_example =
    do_update_lem target (no_cards ∷ []) one_card ib_only (no_cards ∷ []) (codes "002590abcdef")
      refl (refl, (refl, tt))

abbrev eth0 : Interface
eth0 = record { name = codes "eth0"; hwaddr = some mac; address = some (codes "10.0.0.7") }

abbrev ib0 : Interface
ib0 = record { name = codes "ib0"; hwaddr = some mac; address = some (codes "10.1.0.7") }

abbrev eth1 : Interface
eth1 = record { name = codes "eth1"; hwaddr = some other_mac; address = none }

rescan_lem_example :
    (probe_nics (eth0 ∷ []) (0, cards (eth0 ∷ ib0 ∷ []) ++ [])
      ≡ some (1, cards (eth0 ∷ ib0 ∷ []) ++ []))
    × (probe_nic eth1 (0, eth_card ∷ []) ≡ some (0, describe eth1 other_mac eth_card ∷ []))
    × (choose_id (take 1 (describe eth1 other_mac eth_card ∷ [])) (false, [])
        ≡ (true, mac_number other_mac))
    × (card eth1 ≡ none)
unfolding starts_with copy_n
rescan_lem_example =
    rescan_lem (eth0 ∷ []) (ib0 ∷ []) [] eth1 other_mac eth_card [] 0 (false, [])
      (inr (inr (codes "10.0.0.7", refl)), (inr (inr (codes "10.1.0.7", refl)), tt)) refl refl refl
      refl
