-- ===== src/Config/Parse/FlowBlocks.antt =====
-- The blocks of a flow besides its traffic and addresses: parts of `parse_flow` in
-- sw/libpacketwyrm/src/config.c.
use packet_wyrm.Base.{
  ℕ, Bool, true, false, not, Option, none, some, List, [], ◌∷◌, ltb, replicate, if◌then◌else◌, Text,
  codes, Result, ok, err, Error, ◌>>=◌, ◌>>◌, reject_if,
}
use packet_wyrm.Yaml.{Node, map_get}
use packet_wyrm.Scalar.{Net, at_most, parse_u8, parse_u16, parse_u32, parse_mac}
use packet_wyrm.Config.FlowModel.{
  FlowL2, FlowIpv4, FlowIpv6, FlowEncap, FlowUdp, FlowModifiers, FieldMod, encap_ipip, encap_gre,
  encap_etherip,
}
use packet_wyrm.Config.Parse.Fields.{
  req_map, required_field, optional_field, optional_map, one_of, is_absent,
}
use packet_wyrm.Config.Parse.Addresses.{
  v6_prefix_mask, prefix_length, no_mod, parse_field_mod, parse_ipv6_field_mod, zero16, no_ipv4,
  no_ipv6, parse_ip_endpoint,
}

abbrev pub zero6 : List ℕ
zero6 = replicate 6 0

abbrev pub no_l2 : FlowL2
no_l2 = record {
  src_mac = zero6;
  dst_mac = zero6;
  vlan_set = false;
  vlan = 0;
  pcp = 0;
  ethertype = 0;
}

-- A field that may be absent, as an option.
abbrev pub as_option {ℓ} : {A : Type ℓ} → (Text → Option A) → Text → Option (Option A)
as_option parse s = elim (parse s) [ none ↦ none | some v ↦ some (some v) ]

abbrev pub or_zero : Option ℕ → ℕ
or_zero none = 0
or_zero (some v) = v

-- `pcp` has an error of its own for a number that does not fit 3 bits.
unfoldable pub parse_pcp : Node → Result ℕ
parse_pcp l2 = do
  pcp ← optional_field l2 (codes "pcp") parse_u8 Error.parse 0
  reject_if (ltb 7 pcp) Error.out_of_range
  ok pcp

-- the block `l2`
unfoldable pub parse_l2 : Node → Result FlowL2
unfolding parse_pcp
parse_l2 l2 = do
  src ← required_field l2 (codes "src_mac") parse_mac Error.parse
  dst ← required_field l2 (codes "dst_mac") parse_mac Error.parse
  vlan ←
      optional_field l2 (codes "vlan") (as_option (λ s. at_most 4094 (parse_u16 s)))
        Error.out_of_range none
  pcp ← parse_pcp l2
  ethertype ← optional_field l2 (codes "ethertype") parse_u16 Error.parse 0
  ok (record {
    src_mac = src;
    dst_mac = dst;
    vlan_set = not (is_absent vlan);
    vlan = or_zero vlan;
    pcp = pcp;
    ethertype = ethertype;
  })

abbrev pub encaps : List (Text × ℕ)
encaps =
    (codes "ipip", encap_ipip) ∷ (codes "gre", encap_gre) ∷ (codes "etherip", encap_etherip) ∷ []

abbrev pub no_encap : FlowEncap
no_encap = record {
  present = false;
  kind = 0;
  outer_ipv4 = no_ipv4;
  outer_ipv6 = no_ipv6;
  inner_mac_set = false;
  inner_src_mac = zero6;
  inner_dst_mac = zero6;
}

-- the block `inner_l2`: source and destination
unfoldable pub parse_inner_l2 : Node → Result (Option (List ℕ × List ℕ))
parse_inner_l2 il2 = do
  src ← required_field il2 (codes "src_mac") parse_mac Error.parse
  dst ← required_field il2 (codes "dst_mac") parse_mac Error.parse
  ok (some (src, dst))

unfoldable pub parse_outer : Net → Option Node → Result (FlowIpv4 × FlowIpv6)
parse_outer net none = err Error.missing_field
parse_outer net (some node) = do outer ← req_map (some node); parse_ip_endpoint net outer

abbrev pub encap_of : ℕ → FlowIpv4 × FlowIpv6 → Option (List ℕ × List ℕ) → FlowEncap
encap_of kind (v4, v6) none = record {
  present = true;
  kind = kind;
  outer_ipv4 = v4;
  outer_ipv6 = v6;
  inner_mac_set = false;
  inner_src_mac = zero6;
  inner_dst_mac = zero6;
}
encap_of kind (v4, v6) (some (src, dst)) = record {
  present = true;
  kind = kind;
  outer_ipv4 = v4;
  outer_ipv6 = v6;
  inner_mac_set = true;
  inner_src_mac = src;
  inner_dst_mac = dst;
}

-- the block `encap`
unfoldable pub parse_encap : Net → Node → Result FlowEncap
unfolding parse_inner_l2 parse_outer
parse_encap net enc = do
  kind ← required_field enc (codes "type") (one_of encaps) Error.parse
  outer ← parse_outer net (map_get enc (codes "outer"))
  inner ← optional_map enc (codes "inner_l2") parse_inner_l2 none
  ok (encap_of kind outer inner)

-- `udp` or `tcp`: the ports, and the flags of TCP
unfoldable pub parse_ports : Bool → Node → Result FlowUdp
parse_ports tcp node = do
  l4 ← req_map (some node)
  src ← required_field l4 (codes "src_port") parse_u16 Error.parse
  dst ← required_field l4 (codes "dst_port") parse_u16 Error.parse
  flags ← if tcp then optional_field l4 (codes "flags") parse_u8 Error.parse 0x02 else ok 0x02
  ok (record {
    src_port = src;
    dst_port = dst;
    l4_proto = if tcp then 6 else 17;
    tcp_flags = flags;
  })

-- exactly one of the two
unfoldable pub parse_l4 : Node → Result FlowUdp
unfolding parse_ports
parse_l4 m = elim (map_get m (codes "udp")) [
  | some udp ↦ elim (map_get m (codes "tcp")) [
    | some tcp ↦ err Error.inval
    | none ↦ parse_ports false udp
  ]
  | none ↦ elim (map_get m (codes "tcp")) [
    | some tcp ↦ parse_ports true tcp
    | none ↦ err Error.missing_field
  ]
]

abbrev pub no_modifiers : FlowModifiers
no_modifiers = record {
  src_ipv4 = no_mod;
  dst_ipv4 = no_mod;
  udp_src = no_mod;
  udp_dst = no_mod;
  src_mac = no_mod;
  dst_mac = no_mod;
  vlan = no_mod;
  src_ipv6_mask = zero16;
  dst_ipv6_mask = zero16;
}

-- the modifier of an address, by the family of the flow
unfoldable pub parse_address_mod : Net → Bool → Node → Text → Text → Result (FieldMod × List ℕ)
parse_address_mod net true mods key4 key6 = parse_ipv6_field_mod net mods key6
parse_address_mod net false mods key4 key6 = do m ← parse_field_mod mods key4; ok (m, zero16)

-- the block `modifiers`
unfoldable pub parse_modifiers : Net → Bool → Node → Result FlowModifiers
unfolding parse_address_mod
parse_modifiers net v6 mods = do
  src ← parse_address_mod net v6 mods (codes "src_ipv4") (codes "src_ipv6")
  dst ← parse_address_mod net v6 mods (codes "dst_ipv4") (codes "dst_ipv6")
  udp_src ← parse_field_mod mods (codes "udp_src")
  udp_dst ← parse_field_mod mods (codes "udp_dst")
  src_mac ← parse_field_mod mods (codes "src_mac")
  dst_mac ← parse_field_mod mods (codes "dst_mac")
  vlan ← parse_field_mod mods (codes "vlan")
  ok (record {
    src_ipv4 = src.0;
    dst_ipv4 = dst.0;
    udp_src = udp_src;
    udp_dst = udp_dst;
    src_mac = src_mac;
    dst_mac = dst_mac;
    vlan = vlan;
    src_ipv6_mask = src.1;
    dst_ipv6_mask = dst.1;
  })

-- the masks of the block `match`; an IPv6 mask is there when its prefix is set
pub record Masks : Type 0 where
  pub udp_dst : ℕ
  pub ipv4_dst : ℕ
  pub ipv6_dst : Option (List ℕ)
  pub ipv6_src : Option (List ℕ)

abbrev pub full_match : Masks
full_match = record { udp_dst = 0xFFFF; ipv4_dst = 0xFFFFFFFF; ipv6_dst = none; ipv6_src = none }

-- a prefix length, which an IPv6 flow may have
unfoldable pub parse_match_prefix : Bool → Node → Text → Result (Option (List ℕ))
parse_match_prefix v6 mm key = do
  text ← optional_field mm key (λ s. some (some s)) Error.parse none
  elim text [
    | none ↦ ok none
    | some s ↦ elim v6 [
      | false ↦ err Error.inval
      | true ↦ elim (prefix_length s) [
        | none ↦ err Error.parse
        | some prefix ↦ ok (some (v6_prefix_mask prefix))
      ]
    ]
  ]

unfoldable pub parse_match : Bool → Node → Result Masks
unfolding parse_match_prefix
parse_match v6 mm = do
  udp_dst ← optional_field mm (codes "udp_dst") parse_u16 Error.parse 0xFFFF
  ipv4_dst ← optional_field mm (codes "ipv4_dst") parse_u32 Error.parse 0xFFFFFFFF
  ipv6_dst ← parse_match_prefix v6 mm (codes "ipv6_dst_prefix")
  ipv6_src ← parse_match_prefix v6 mm (codes "ipv6_src_prefix")
  ok (record { udp_dst = udp_dst; ipv4_dst = ipv4_dst; ipv6_dst = ipv6_dst; ipv6_src = ipv6_src })

abbrev pub or_zero16 : Option (List ℕ) → List ℕ
or_zero16 none = zero16
or_zero16 (some b) = b
