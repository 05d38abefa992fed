-- ===== src/Network.antt =====
-- `get_nic_info` of breakin.c, and `upload_data` and `do_update`, which send the state file under the
-- address of a card. What the ioctls and libcurl answer is an argument; inet_ntoa's text stands for the
-- IP address.
pub mod Cards
pub mod Updates
pub mod Rescan
mod Examples
use breakin.Base.{
  ℕ, ◌+◌, ◌-◌, ◌/◌, ◌%◌, Bool, true, false, ◌&&◌, ◌||◌, List, [], ◌∷◌, ◌++◌, Option, none, some,
  ◌==◌, ltb, leb, if◌then◌else◌, get_elem?, set,
}
use breakin.Text.{Bytes, codes, copy_n, starts_with}
use breakin.Number.{ℤ, decimal_signed}
use breakin.Log.{LogCall, message}

abbrev pub max_num_nics : ℕ
max_num_nics = 32

-- struct nic_data_t
pub record Nic : Type 0 where
  pub name : Bytes
  pub macaddr : Bytes
  pub macaddr_num : Bytes
  pub ipaddr : Bytes

-- the first six bytes of `req.ifr_hwaddr.sa_data`
pub record Mac : Type 0 where
  pub b0 : ℕ
  pub b1 : ℕ
  pub b2 : ℕ
  pub b3 : ℕ
  pub b4 : ℕ
  pub b5 : ℕ

-- `%02x` of a value `& 0xff`
abbrev pub hex_digit : ℕ → ℕ
hex_digit d = if ltb d 10 then 48 + d else 87 + d

unfoldable pub hex2 : ℕ → Bytes
hex2 n = hex_digit (n % 256 / 16) ∷ hex_digit (n % 16) ∷ []

-- `"%02x:%02x:%02x:%02x:%02x:%02x"`
unfoldable pub mac_text : Mac → Bytes
mac_text m =
    hex2 m.b0
    ++ (b':'
        ∷ (hex2 m.b1
            ++ (b':'
                ∷ (hex2 m.b2
                    ++ (b':' ∷ (hex2 m.b3 ++ (b':' ∷ (hex2 m.b4 ++ (b':' ∷ hex2 m.b5)))))))))

-- `"%02x%02x%02x%02x%02x%02x"`
unfoldable pub mac_number : Mac → Bytes
mac_number m = hex2 m.b0 ++ (hex2 m.b1 ++ (hex2 m.b2 ++ (hex2 m.b3 ++ (hex2 m.b4 ++ hex2 m.b5))))

-- an interface that SIOCGIFCONF lists, with what SIOCGIFHWADDR and SIOCGIFADDR answer about it
pub record Interface : Type 0 where
  pub name : Bytes
  pub hwaddr : Option Mac
  pub address : Option Bytes

-- the writes to a slot in front of SIOCGIFADDR
abbrev pub describe : Interface → Mac → Nic → Nic
describe i mac nic = record nic {
  name = copy_n 16 i.name;
  macaddr = mac_text mac;
  macaddr_num = mac_number mac;
}

-- `nic_data[nics]` changed; `none` is an access outside the table
abbrev pub update_at : (Nic → Nic) → ℕ → List Nic → Option (List Nic)
update_at f i table = elim (get_elem? table i) [
  | none ↦ none
  | some nic ↦ some (set table i (f nic))
]

-- behind the two tests: the slot is written, and counted if there is an IP address
unfoldable pub write_nic : Interface → Mac → ℕ × List Nic → Option (ℕ × List Nic)
write_nic i mac (nics, table) = elim i.address [
  | none ↦ elim (update_at (describe i mac) nics table) [
    | none ↦ none
    | some table' ↦ some (nics, table')
  ]
  | some ip ↦ elim (update_at (λ nic. record (describe i mac nic) { ipaddr = ip }) nics table) [
    | none ↦ none
    | some table' ↦ some (nics + 1, table')
  ]
]

-- the body of the loop
unfoldable pub probe_nic : Interface → ℕ × List Nic → Option (ℕ × List Nic)
probe_nic i s = elim i.hwaddr [
  | none ↦ some s
  | some mac ↦ if starts_with (codes "lo") i.name then some s else write_nic i mac s
]

-- the loop over what SIOCGIFCONF lists
unfoldable pub probe_nics : List Interface → ℕ × List Nic → Option (ℕ × List Nic)
probe_nics [] s = some s
probe_nics (i ∷ is) s = elim (probe_nic i s) [ none ↦ none | some s' ↦ probe_nics is s' ]

-- what the kernel answers: whether there is a socket, and the list or errno's text
pub data IfConf : Type 0 where
  no_socket : IfConf
  conf_failed : Bytes → IfConf
  listed : List Interface → IfConf

-- `nic_qty` and `nic_data`
abbrev pub Nics : Type 0
Nics = ℕ × List Nic

-- `get_nic_info()`; the list has as many entries as the local array, at most
unfoldable pub get_nic_info :
    (hardware_finished : Bool) → IfConf → Nics → Option (Nics × List LogCall)
get_nic_info false conf s = some (s, [])
get_nic_info true no_socket s = some (s, [])
get_nic_info true (conf_failed text) s = some (s, message text ∷ [])
get_nic_info true (listed is) (qty, table) = elim (probe_nics is (0, table)) [
  | none ↦ none
  | some s ↦ some (s, [])
]

-- a part of the form: its name, and a file or a text
pub data Content : Type 0 where
  file : Bytes → Content
  text : Bytes → Content

-- what is sent, and where to
pub record Upload : Type 0 where
  pub url : Bytes
  pub parts : List (Bytes × Content)

-- `upload_data(id, interval, url, datafile, logfile)`: the form, with the seconds since the start
unfoldable pub upload_data : ℤ → Bytes → ℤ → Bytes → Bytes → Bytes → Upload
upload_data run_time id interval url datafile logfile = record {
  url = url;
  parts =
      (codes "data", file datafile)
      ∷ (codes "log", file logfile)
      ∷ (codes "id", text id)
      ∷ (codes "time", text (decimal_signed run_time))
      ∷ (codes "interval", text (decimal_signed interval))
      ∷ [];
}

-- its result, from what curl_easy_perform returns and the response code
abbrev pub upload_ok : ℕ → ℕ → Bool
upload_ok res code = res == 0 && (leb 200 code && leb code 299)

abbrev pub is_wired : Bytes → Bool
is_wired name = starts_with (codes "eth") name || starts_with (codes "ath") name

-- the loop over the cards: `found` and `id`
unfoldable pub choose_id : List Nic → Bool × Bytes → Bool × Bytes
choose_id [] s = s
choose_id (nic ∷ nics) s = if is_wired nic.name then (true, nic.macaddr_num) else choose_id nics s

-- a round of `do_update`: the cards in the table, and the seconds since the start
pub record Round : Type 0 where
  pub nics : List Nic
  pub run_time : ℤ

-- `update_interval` and `update_url`
pub record Target : Type 0 where
  pub interval : ℤ
  pub url : Bytes

-- behind the loop over the cards: what is sent before the round sleeps
abbrev pub send_state : Target → ℤ → Bool × Bytes → Option Upload
send_state t run_time (false, id) = none
send_state t run_time (true, id) = some (
    upload_data run_time id t.interval t.url (codes "/var/run/breakin.dat")
      (codes "/var/log/breakin.log"))

-- the endless loop of `do_update`, for as many rounds as are given
unfoldable pub update_rounds : Target → List Round → Bool × Bytes → List (Option Upload)
update_rounds t [] s = []
update_rounds t (r ∷ rounds) s =
    send_state t r.run_time (choose_id r.nics s) ∷ update_rounds t rounds (choose_id r.nics s)

unfoldable pub do_update : Target → List Round → List (Option Upload)
do_update t rounds = update_rounds t rounds (false, [])
