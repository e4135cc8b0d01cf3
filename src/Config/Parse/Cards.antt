-- ===== src/Config/Parse/Cards.antt =====
-- `parse_system`, `parse_card_port`, `parse_card` and `parse_logical_if` of
-- sw/libpacketwyrm/src/config.c, and `pw_tap_name` of ids.c.
use packet_wyrm.Base.{
  ℕ, false, ◌||◌, Option, none, some, List, [], ◌∷◌, ◌++◌, ltb, ◌==◌, if◌then◌else◌, Text, codes,
  words_eq, Result, ok, Error, ◌>>=◌, ◌>>◌, reject_if,
}
use packet_wyrm.Base.Texts.{decimal}
use packet_wyrm.Yaml.{Node, Items, nil, cons, map_get, count_items}
use packet_wyrm.Scalar.{at_most, parse_bool, parse_u8, parse_u16, parse_u32, parse_mac}
use packet_wyrm.Config.{CardPort, Card, PuntFlags, LogicalIf, System}
use packet_wyrm.Config.Parse.Fields.{
  name_max, secret_max, pci_bdf_max, copy_str, req_map, req_seq, required_field, optional_field,
  optional_map, text_field,
}

-- a text that must be the word after it is copied
abbrev pub exactly : ℕ → Text → Text → Option Text
exactly n word s = let copy = copy_str n s in if words_eq copy word then some copy else none

-- `parse_system`
unfoldable pub parse_system : Option Node → Result System
parse_system sys = do
  m ← req_map sys
  name ← required_field m (codes "name") (text_field name_max) Error.parse
  mode ← required_field m (codes "mode") (exactly name_max (codes "multi-card")) Error.inval
  speed ← required_field m (codes "default_speed") (exactly 8 (codes "10g")) Error.inval
  poll ← optional_field m (codes "stats_poll_interval_ms") parse_u32 Error.parse 100
  socket ←
      optional_field m (codes "control_socket") (text_field 128) Error.parse
        (copy_str 128 (codes "/run/packetwyrm/packetwyrmd.sock"))
  secret ← optional_field m (codes "secret") (text_field secret_max) Error.parse []
  ok (record {
    name = name;
    mode = mode;
    default_speed = speed;
    stats_poll_interval_ms = poll;
    control_socket = socket;
    secret = secret;
  })

-- `parse_card_port`
unfoldable pub parse_card_port : Node → Result CardPort
parse_card_port node = do
  m ← req_map (some node)
  local ← required_field m (codes "local_port") (λ s. at_most 1 (parse_u8 s)) Error.out_of_range
  gp ← required_field m (codes "global_port") parse_u16 Error.parse
  name ←
      optional_field m (codes "name") (text_field name_max) Error.parse
        (copy_str name_max (codes "p" ++ decimal gp))
  ok (record { local_port = local; global_port = gp; name = name })

-- A loop over a sequence that stops at the first error.
unfoldable pub each_item {ℓ} : {A : Type ℓ} → (Node → Result A) → Items → Result (List A)
each_item parse nil = ok []
each_item parse (cons x rest) = parse x >>= λ a. each_item parse rest >>= λ as_. ok (a ∷ as_)

-- `parse_card`
unfoldable pub parse_card : Node → Result Card
unfolding parse_card_port each_item
parse_card node = do
  m ← req_map (some node)
  id ← required_field m (codes "id") parse_u16 Error.parse
  name ←
      optional_field m (codes "name") (text_field name_max) Error.parse
        (copy_str name_max (codes "card" ++ decimal id))
  pci ← required_field m (codes "pci") (text_field pci_bdf_max) Error.parse
  entries ← req_seq (map_get m (codes "ports"))
  let n = count_items entries
  reject_if (n == 0 || ltb 2 n) Error.out_of_range
  ports ← each_item parse_card_port entries
  ok (record { id = id; name = name; pci = pci; ports = ports })

-- `pw_tap_name`, into an array of `n` characters
unfoldable pub tap_name : ℕ → ℕ → ℕ → Text
tap_name n gp vlan = copy_str n (codes "tap-pw-p" ++ (decimal gp ++ (codes "-v" ++ decimal vlan)))

abbrev no_punt : PuntFlags
no_punt = record {
  arp = false;
  ipv6_nd = false;
  lldp = false;
  icmp = false;
  bgp = false;
  ospf = false;
  is_is = false;
}

-- the `PUNT` lines of `parse_logical_if`
unfoldable pub parse_punt : Node → Result PuntFlags
parse_punt punt = do
  arp ← optional_field punt (codes "arp") parse_bool Error.parse false
  ipv6_nd ← optional_field punt (codes "ipv6_nd") parse_bool Error.parse false
  lldp ← optional_field punt (codes "lldp") parse_bool Error.parse false
  icmp ← optional_field punt (codes "icmp") parse_bool Error.parse false
  bgp ← optional_field punt (codes "bgp") parse_bool Error.parse false
  ospf ← optional_field punt (codes "ospf") parse_bool Error.parse false
  is_is ← optional_field punt (codes "is_is") parse_bool Error.parse false
  ok (record {
    arp = arp;
    ipv6_nd = ipv6_nd;
    lldp = lldp;
    icmp = icmp;
    bgp = bgp;
    ospf = ospf;
    is_is = is_is;
  })

-- `parse_logical_if`
unfoldable pub parse_logical_if : Node → Result LogicalIf
unfolding parse_punt tap_name
parse_logical_if node = do
  m ← req_map (some node)
  id ← required_field m (codes "id") parse_u32 Error.parse
  gp ← required_field m (codes "global_port") parse_u16 Error.parse
  vlan ← optional_field m (codes "vlan") (λ s. at_most 4094 (parse_u16 s)) Error.out_of_range 0
  name ←
      optional_field m (codes "name") (text_field name_max) Error.parse (tap_name name_max gp vlan)
  mac ← required_field m (codes "mac") parse_mac Error.parse
  mtu ← optional_field m (codes "mtu") parse_u16 Error.parse 1500
  netns ← optional_field m (codes "netns") (text_field name_max) Error.parse []
  punt ← optional_map m (codes "punt") parse_punt no_punt
  ok (record {
    id = id;
    name = name;
    global_port = gp;
    vlan = vlan;
    mac = mac;
    mtu = mtu;
    netns = netns;
    punt = punt;
  })
