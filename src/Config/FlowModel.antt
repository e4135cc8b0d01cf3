-- ===== src/Config/FlowModel.antt =====
-- `struct pw_flow` and its parts: sw/libpacketwyrm/include/packetwyrm/config.h.
use packet_wyrm.Base.{ℕ, Bool, List}

pub record FlowL2 : Type 0 where
  pub src_mac : List ℕ
  pub dst_mac : List ℕ
  pub vlan_set : Bool
  pub vlan : ℕ
  pub pcp : ℕ
  pub ethertype : ℕ

pub record FlowIpv4 : Type 0 where
  pub present : Bool
  pub src : ℕ
  pub dst : ℕ
  pub ttl : ℕ
  pub dscp : ℕ

pub record FlowIpv6 : Type 0 where
  pub present : Bool
  pub src : List ℕ
  pub dst : List ℕ
  pub hop_limit : ℕ
  pub dscp : ℕ

-- `enum pw_encap_kind`, the values of `FlowEncap.kind`
abbrev pub encap_ipip : ℕ
encap_ipip = 1

abbrev pub encap_gre : ℕ
encap_gre = 2

abbrev pub encap_etherip : ℕ
encap_etherip = 3

-- `kind` is the field `type`.
pub record FlowEncap : Type 0 where
  pub present : Bool
  pub kind : ℕ
  pub outer_ipv4 : FlowIpv4
  pub outer_ipv6 : FlowIpv6
  pub inner_mac_set : Bool
  pub inner_src_mac : List ℕ
  pub inner_dst_mac : List ℕ

pub record FlowUdp : Type 0 where
  pub src_port : ℕ
  pub dst_port : ℕ
  pub l4_proto : ℕ
  pub tcp_flags : ℕ

-- `enum pw_frame_template`, the values of `FlowTraffic.frame_template`
abbrev pub template_test : ℕ
template_test = 0

abbrev pub template_l4raw : ℕ
template_l4raw = 1

abbrev pub template_l3raw : ℕ
template_l3raw = 2

abbrev pub template_l2raw : ℕ
template_l2raw = 3

pub record FlowTraffic : Type 0 where
  pub frame_template : ℕ
  pub frame_len_fixed_set : Bool
  pub frame_len_fixed : ℕ
  pub frame_len_min : ℕ
  pub frame_len_max : ℕ
  pub frame_len_step : ℕ
  pub rate_bps : ℕ
  pub rate_pps : ℕ
  pub burst_size : ℕ
  pub burst_gap_ticks : ℕ
  pub payload_mode : ℕ
  pub payload_seed : ℕ
  pub insert_sequence : Bool
  pub insert_timestamp : Bool

pub record FlowMeas : Type 0 where
  pub loss : Bool
  pub latency : Bool
  pub jitter : Bool

-- `mode` is 0 static, 1 increment, 2 random; `mask` has at most 48 bits.
pub record FieldMod : Type 0 where
  pub mode : ℕ
  pub mask : ℕ

pub record FlowModifiers : Type 0 where
  pub src_ipv4 : FieldMod
  pub dst_ipv4 : FieldMod
  pub udp_src : FieldMod
  pub udp_dst : FieldMod
  pub src_mac : FieldMod
  pub dst_mac : FieldMod
  pub vlan : FieldMod
  pub src_ipv6_mask : List ℕ
  pub dst_ipv6_mask : List ℕ

-- `modifiers` is the field `mod`.
pub record Flow : Type 0 where
  pub id : ℕ
  pub name : List ℕ
  pub tx_global_port : ℕ
  pub rx_global_port : ℕ
  pub logical_if_id : ℕ
  pub l2 : FlowL2
  pub ipv4 : FlowIpv4
  pub ipv6 : FlowIpv6
  pub udp : FlowUdp
  pub traffic : FlowTraffic
  pub meas : FlowMeas
  pub modifiers : FlowModifiers
  pub background : Bool
  pub encap : FlowEncap
  pub rx_expect : ℕ
  pub match_udp_dst_mask : ℕ
  pub match_ipv4_dst_mask : ℕ
  pub match_ipv6_dst_set : Bool
  pub match_ipv6_dst_mask : List ℕ
  pub match_ipv6_src_set : Bool
  pub match_ipv6_src_mask : List ℕ
  pub classify_header : Bool
