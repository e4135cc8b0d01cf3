-- ===== src/Config/Parse/Entries.antt =====
-- `parse_flow` and `parse_forward` of sw/libpacketwyrm/src/config.c.
use packet_wyrm.Base.{
  ℕ, false, not, Option, none, some, List, [], ◌∷◌, ◌==◌, Text, codes, Result, ok, Error, ◌>>=◌,
}
use packet_wyrm.Yaml.{Node, map_get}
use packet_wyrm.Scalar.{Net, at_most, parse_bool, parse_u8, parse_u16, parse_u32}
use packet_wyrm.Config.{ForwardRule}
use packet_wyrm.Config.FlowModel.{Flow}
use packet_wyrm.Config.Parse.Fields.{
  name_max, req_map, required_field, optional_field, optional_map, text_field, one_of, is_absent,
}
use packet_wyrm.Config.Parse.Addresses.{parse_ipv6_cidr, zero16, parse_ip_endpoint}
use packet_wyrm.Config.Parse.Traffic.{parse_traffic, no_meas, parse_meas}
use packet_wyrm.Config.Parse.FlowBlocks.{
  no_l2, parse_l2, no_encap, parse_encap, parse_l4, no_modifiers, parse_modifiers, full_match,
  parse_match, as_option, or_zero16,
}

abbrev pub expectations : List (Text × ℕ)
expectations = (codes "inner", 0) ∷ (codes "tunneled", 1) ∷ []

abbrev pub classifiers : List (Text × ℕ)
classifiers = (codes "header", 1) ∷ (codes "map", 0) ∷ []

-- `parse_flow`
unfoldable pub parse_flow : Net → Node → Result Flow
unfolding parse_l2 parse_encap parse_l4 parse_modifiers parse_match
parse_flow net node = do
  m ← req_map (some node)
  id ← required_field m (codes "id") parse_u32 Error.parse
  name ← optional_field m (codes "name") (text_field name_max) Error.parse []
  tx ← required_field m (codes "tx_global_port") parse_u16 Error.parse
  rx ← required_field m (codes "rx_global_port") parse_u16 Error.parse
  lif ← optional_field m (codes "logical_if_id") parse_u32 Error.parse 0
  l2 ← optional_map m (codes "l2") parse_l2 no_l2
  ip ← parse_ip_endpoint net m
  encap ← optional_map m (codes "encap") (parse_encap net) no_encap
  rx_expect ← optional_field m (codes "rx_expect") (one_of expectations) Error.parse 0
  l4 ← parse_l4 m
  traffic ← parse_traffic (map_get m (codes "traffic"))
  meas ← optional_map m (codes "measurements") parse_meas no_meas
  modifiers ← optional_map m (codes "modifiers") (parse_modifiers net ip.1.present) no_modifiers
  background ← optional_field m (codes "background") parse_bool Error.parse false
  masks ← optional_map m (codes "match") (parse_match ip.1.present) full_match
  classify ← optional_field m (codes "classify") (one_of classifiers) Error.inval 0
  ok (record {
    id = id;
    name = name;
    tx_global_port = tx;
    rx_global_port = rx;
    logical_if_id = lif;
    l2 = l2;
    ipv4 = ip.0;
    ipv6 = ip.1;
    udp = l4;
    traffic = traffic;
    meas = meas;
    modifiers = modifiers;
    background = background;
    encap = encap;
    rx_expect = rx_expect;
    match_udp_dst_mask = masks.udp_dst;
    match_ipv4_dst_mask = masks.ipv4_dst;
    match_ipv6_dst_set = not (is_absent masks.ipv6_dst);
    match_ipv6_dst_mask = or_zero16 masks.ipv6_dst;
    match_ipv6_src_set = not (is_absent masks.ipv6_src);
    match_ipv6_src_mask = or_zero16 masks.ipv6_src;
    classify_header = classify == 1;
  })

-- the address of a prefix that may be absent, and its mask
abbrev pub address_of : Option (List ℕ × List ℕ) → List ℕ
address_of none = zero16
address_of (some (addr, mask)) = addr

abbrev pub mask_of : Option (List ℕ × List ℕ) → List ℕ
mask_of none = zero16
mask_of (some (addr, mask)) = mask

-- `parse_forward`
unfoldable pub parse_forward : Net → Node → Result ForwardRule
parse_forward net node = do
  m ← req_map (some node)
  ingress ← required_field m (codes "ingress_port") parse_u16 Error.parse
  egress ← required_field m (codes "egress_port") parse_u16 Error.parse
  name ← optional_field m (codes "name") (text_field name_max) Error.parse []
  priority ← optional_field m (codes "priority") parse_u8 Error.out_of_range 40
  ethertype ← optional_field m (codes "ethertype") parse_u16 Error.parse 0
  ip_proto ← optional_field m (codes "ip_proto") parse_u8 Error.parse 0
  udp_dst ← optional_field m (codes "udp_dst") parse_u16 Error.parse 0
  vlan ← optional_field m (codes "vlan") (λ s. at_most 4094 (parse_u16 s)) Error.out_of_range 0
  dst ← optional_field m (codes "ipv6_dst") (as_option (parse_ipv6_cidr net)) Error.parse none
  src ← optional_field m (codes "ipv6_src") (as_option (parse_ipv6_cidr net)) Error.parse none
  ok (record {
    name = name;
    ingress_port = ingress;
    egress_port = egress;
    priority = priority;
    ethertype = ethertype;
    ip_proto = ip_proto;
    udp_dst = udp_dst;
    vlan = vlan;
    ipv6_dst_set = not (is_absent dst);
    ipv6_dst = address_of dst;
    ipv6_dst_mask = mask_of dst;
    ipv6_src_set = not (is_absent src);
    ipv6_src = address_of src;
    ipv6_src_mask = mask_of src;
  })
