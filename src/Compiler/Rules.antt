-- ===== src/Compiler/Rules.antt =====
-- The punt and forward rules of sw/libpacketwyrm/src/flow_compiler.c: `add_punt_rule`,
-- `compile_punt_rules`, `compile_forward_rules`.
pub mod Meaning
pub mod Drafts
pub mod Punt
pub mod Punted
pub mod Forward
use packet_wyrm.Base.{
  ℕ, Option, Bool, not, ◌&&◌, ◌||◌, List, [], ◌∷◌, ◌==◌, if◌then◌else◌, Result, ok, err, Error,
  ◌>>=◌, ◌>>◌, reject_if,
}
use packet_wyrm.Config.{Config, LogicalIf, ForwardRule, PortRef}
use packet_wyrm.Config.Resolve.{resolve_port}
use packet_wyrm.Compiler.Tables.{FcCmp, FcUdf, FcRule, CardProgram, Program}
use packet_wyrm.Compiler.Append.{
  Draft, update_card, need_cmp, need_udf, append_ipv6_cmps, append_fc_rule,
}

-- `enum pwfpga_fc_src` (csr.h)
abbrev pub src_l4_dst : ℕ
src_l4_dst = 0

abbrev pub src_l4_src : ℕ
src_l4_src = 1

abbrev pub src_ethertype : ℕ
src_ethertype = 8

abbrev pub src_l3_proto : ℕ
src_l3_proto = 9

abbrev pub src_vlan : ℕ
src_vlan = 10

abbrev pub src_flags : ℕ
src_flags = 12

abbrev pub src_ingress : ℕ
src_ingress = 13

-- PWFPGA_FC_FLAG_IS_IPV6
abbrev pub flag_is_ipv6 : ℕ
flag_is_ipv6 = 8

-- PWFPGA_ACT_PUNT_TO_HOST and PWFPGA_ACT_FORWARD_PORT
abbrev pub act_punt_to_host : ℕ
act_punt_to_host = 2

abbrev pub act_forward_port : ℕ
act_forward_port = 4

abbrev pub comparator : ℕ → ℕ → ℕ → FcCmp
comparator src mask value = record { src = src; mask = mask; value = value }

-- `if (value) { … one comparator … }`
abbrev pub need_cmp_if : ℕ → FcCmp → Draft → Result Draft
need_cmp_if value c d = if value == 0 then ok d else need_cmp c d

-- the arguments of `add_punt_rule` behind the interface
pub record PuntMatch : Type 0 where
  pub eth : ℕ
  pub l3p : ℕ
  pub l4lane : ℕ
  pub l4port : ℕ
  pub udf_off : ℕ
  pub udf_val : ℕ
  pub prio : ℕ

unfoldable pub punt_conditions : PortRef → LogicalIf → PuntMatch → Draft → Result Draft
unfolding need_cmp need_udf
punt_conditions ref l m d = do
  d1 ← need_cmp (comparator src_ingress 0xF ref.local_port_id) d
  d2 ← need_cmp_if l.vlan (comparator src_vlan 0x0FFF l.vlan) d1
  d3 ← need_cmp_if m.eth (comparator src_ethertype 0xFFFF m.eth) d2
  d4 ← need_cmp_if m.l3p (comparator src_l3_proto 0xFF m.l3p) d3
  d5 ← need_cmp_if m.l4port (comparator m.l4lane 0xFFFF m.l4port) d4
  if m.udf_val == 0
      then ok d5
      else need_udf (record { offset = m.udf_off; mask = 0xFFFF0000; value = m.udf_val }) d5

unfoldable pub punt_rule : LogicalIf → PuntMatch → ℕ → FcRule
punt_rule l m care = record {
  care = care;
  action = act_punt_to_host;
  egress = 0;
  local_flow_id = 0;
  logical_if_id = l.id;
  priority = m.prio;
}

unfoldable pub add_punt_rule : PortRef → LogicalIf → PuntMatch → CardProgram → Result CardProgram
unfolding punt_conditions append_fc_rule punt_rule
add_punt_rule ref l m cp =
    punt_conditions ref l m (0, cp) >>= λ (d : Draft). append_fc_rule (punt_rule l m d.0) d.1

abbrev pub proto_match : ℕ → ℕ → ℕ → PuntMatch
proto_match eth l3p prio = record {
  eth = eth;
  l3p = l3p;
  l4lane = 0;
  l4port = 0;
  udf_off = 0;
  udf_val = 0;
  prio = prio;
}

-- BGP: TCP port 179, on one side
abbrev pub bgp_match : ℕ → ℕ → PuntMatch
bgp_match eth lane = record {
  eth = eth;
  l3p = 6;
  l4lane = lane;
  l4port = 179;
  udf_off = 0;
  udf_val = 0;
  prio = 30;
}

abbrev pub is_is_match : PuntMatch
is_is_match = record {
  eth = 0;
  l3p = 0;
  l4lane = 0;
  l4port = 0;
  udf_off = 0;
  udf_val = 0xFEFE0000;
  prio = 30;
}

-- `if (l->punt.x) PUNT(…);` adds the match to those of the interface
abbrev pub punt_if : Bool → PuntMatch → List PuntMatch → List PuntMatch
punt_if test m rest = if test then m ∷ rest else rest

-- the PUNT calls of one interface, in order
unfoldable pub punt_matches : LogicalIf → List PuntMatch
punt_matches l = punt_if l.punt.arp (proto_match 0x0806 0 20) (
    punt_if l.punt.ipv6_nd (proto_match 0x86DD 58 20) (
      punt_if l.punt.lldp (proto_match 0x88CC 0 20) (
        punt_if l.punt.icmp (proto_match 0x0800 1 25) (
          punt_if l.punt.bgp (bgp_match 0x0800 src_l4_dst) (
            punt_if l.punt.bgp (bgp_match 0x0800 src_l4_src) (
              punt_if l.punt.ospf (proto_match 0x0800 89 30) (
                punt_if (l.punt.ospf && l.punt.ipv6_nd) (proto_match 0x86DD 89 30) (
                  punt_if (l.punt.bgp && l.punt.ipv6_nd) (bgp_match 0x86DD src_l4_dst) (
                    punt_if (l.punt.bgp && l.punt.ipv6_nd) (bgp_match 0x86DD src_l4_src)
                      (punt_if l.punt.is_is is_is_match []))))))))))

unfoldable pub add_punt_rules :
    PortRef → LogicalIf → List PuntMatch → CardProgram → Result CardProgram
unfolding add_punt_rule
add_punt_rules ref l [] cp = ok cp
add_punt_rules ref l (m ∷ ms) cp = add_punt_rule ref l m cp >>= add_punt_rules ref l ms

-- one interface
unfoldable pub compile_punt : Config → LogicalIf → List CardProgram → Result (List CardProgram)
unfolding add_punt_rules punt_matches update_card
compile_punt cfg l cards = resolve_port cfg l.global_port >>= λ (ref : PortRef).
    update_card ref.card_id (add_punt_rules ref l (punt_matches l)) cards

-- `compile_punt_rules`
unfoldable pub compile_punt_rules :
    Config → List LogicalIf → List CardProgram → Result (List CardProgram)
unfolding compile_punt
compile_punt_rules cfg [] cards = ok cards
compile_punt_rules cfg (l ∷ ls) cards = compile_punt cfg l cards >>= compile_punt_rules cfg ls

-- PWFPGA_FC_SRC_IPV6_DST_3 … _0 and PWFPGA_FC_SRC_IPV6_SRC_3 … _0
abbrev pub dst_selectors : List ℕ
dst_selectors = 4 ∷ 5 ∷ 6 ∷ 7 ∷ []

abbrev pub src_selectors : List ℕ
src_selectors = 15 ∷ 17 ∷ 16 ∷ 14 ∷ []

unfoldable pub forward_conditions : PortRef → ForwardRule → Draft → Result Draft
unfolding need_cmp append_ipv6_cmps
forward_conditions ing fr d = do
  d1 ← need_cmp (comparator src_ingress 0xF ing.local_port_id) d
  d2 ← need_cmp_if fr.vlan (comparator src_vlan 0x0FFF fr.vlan) d1
  d3 ← need_cmp_if fr.ethertype (comparator src_ethertype 0xFFFF fr.ethertype) d2
  d4 ← need_cmp_if fr.ip_proto (comparator src_l3_proto 0xFF fr.ip_proto) d3
  d5 ← need_cmp_if fr.udp_dst (comparator src_l4_dst 0xFFFF fr.udp_dst) d4
  d6 ←
      if fr.ipv6_dst_set || fr.ipv6_src_set
      then need_cmp (comparator src_flags flag_is_ipv6 flag_is_ipv6) d5
      else ok d5
  d7 ←
      if fr.ipv6_dst_set
      then append_ipv6_cmps fr.ipv6_dst fr.ipv6_dst_mask 0 dst_selectors d6
      else ok d6
  if fr.ipv6_src_set
      then append_ipv6_cmps fr.ipv6_src fr.ipv6_src_mask 0 src_selectors d7
      else ok d7

unfoldable pub forward_rule : PortRef → ForwardRule → ℕ → FcRule
forward_rule egr fr care = record {
  care = care;
  action = act_forward_port;
  egress = egr.local_port_id;
  local_flow_id = 0;
  logical_if_id = 0;
  priority = fr.priority;
}

unfoldable pub add_forward_rule : PortRef → PortRef → ForwardRule → CardProgram → Result CardProgram
unfolding forward_conditions append_fc_rule forward_rule
add_forward_rule ing egr fr cp = forward_conditions ing fr (0, cp) >>= λ (d : Draft).
    append_fc_rule (forward_rule egr fr d.0) d.1

-- one forward rule
unfoldable pub compile_forward : Config → ForwardRule → List CardProgram → Result (List CardProgram)
unfolding add_forward_rule update_card
compile_forward cfg fr cards = do
  ing ← resolve_port cfg fr.ingress_port
  egr ← resolve_port cfg fr.egress_port
  reject_if (not (ing.card_id == egr.card_id)) Error.inval
  update_card ing.card_id (add_forward_rule ing egr fr) cards

-- `compile_forward_rules`
unfoldable pub compile_forward_rules :
    Config → List ForwardRule → List CardProgram → Result (List CardProgram)
unfolding compile_forward
compile_forward_rules cfg [] cards = ok cards
compile_forward_rules cfg (fr ∷ frs) cards =
    compile_forward cfg fr cards >>= compile_forward_rules cfg frs
