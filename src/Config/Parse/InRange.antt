-- ===== src/Config/Parse/InRange.antt =====
-- When a configuration fits its structures (sw/libpacketwyrm/include/packetwyrm/config.h) and the
-- ranges that the parsers promise: numbers in the width of their fields, texts in their arrays,
-- addresses of their length, and one of each pair of blocks that exclude one another.
use packet_wyrm.Base.{◌≤◌, ◌<◌, ◌^◌, ◌≡◌, ◌≢◌, ◌⊎◌, true, false, length, All, codes}
use packet_wyrm.Config.{CardPort, Card, LogicalIf, ForwardRule, System, Config}
use packet_wyrm.Config.FlowModel.{
  Flow, FlowL2, FlowIpv4, FlowIpv6, FlowEncap, FlowUdp, FlowTraffic, FieldMod, FlowModifiers,
}
use packet_wyrm.Config.Parse.Ranges.{IsBytes}

pub record IsSystem (s : System) : Type 0 where
  pub name : length s.name < 32
  pub mode : s.mode ≡ codes "multi-card"
  pub speed : s.default_speed ≡ codes "10g"
  pub poll : s.stats_poll_interval_ms ≤ 0xFFFFFFFF
  pub socket : length s.control_socket < 128
  pub secret : length s.secret < 128

pub record IsPort (p : CardPort) : Type 0 where
  pub local : p.local_port ≤ 1
  pub global : p.global_port ≤ 0xFFFF
  pub name : length p.name < 32

pub record IsCard (c : Card) : Type 0 where
  pub id : c.id ≤ 0xFFFF
  pub name : length c.name < 32
  pub pci : length c.pci < 16
  pub one_or_two : (1 ≤ length c.ports) × (length c.ports ≤ 2)
  pub ports : All IsPort c.ports

pub record IsLogicalIf (l : LogicalIf) : Type 0 where
  pub id : l.id ≤ 0xFFFFFFFF
  pub global : l.global_port ≤ 0xFFFF
  pub vlan : l.vlan ≤ 4094
  pub name : length l.name < 32
  pub mac : IsBytes 6 l.mac
  pub mtu : l.mtu ≤ 0xFFFF
  pub netns : length l.netns < 32

pub record IsL2 (l : FlowL2) : Type 0 where
  pub src : IsBytes 6 l.src_mac
  pub dst : IsBytes 6 l.dst_mac
  pub vlan : l.vlan ≤ 4094
  pub pcp : l.pcp ≤ 7
  pub ethertype : l.ethertype ≤ 0xFFFF

pub record IsIpv4 (ip : FlowIpv4) : Type 0 where
  pub src : ip.src ≤ 0xFFFFFFFF
  pub dst : ip.dst ≤ 0xFFFFFFFF
  pub ttl : ip.ttl ≤ 0xFF
  pub dscp : ip.dscp ≤ 63

pub record IsIpv6 (ip : FlowIpv6) : Type 0 where
  pub src : IsBytes 16 ip.src
  pub dst : IsBytes 16 ip.dst
  pub hop_limit : ip.hop_limit ≤ 0xFF
  pub dscp : ip.dscp ≤ 63

-- one address family, and not the other
pub record IsEndpoint (ip : FlowIpv4 × FlowIpv6) : Type 0 where
  pub v4 : IsIpv4 ip.0
  pub v6 : IsIpv6 ip.1
  pub one_family :
      ((ip.0.present ≡ true) × (ip.1.present ≡ false))
      ⊎ ((ip.0.present ≡ false) × (ip.1.present ≡ true))

pub record IsEncap (e : FlowEncap) : Type 0 where
  pub known : e.present ≡ true → (1 ≤ e.kind) × (e.kind ≤ 3)
  pub outer : e.present ≡ true → IsEndpoint (e.outer_ipv4, e.outer_ipv6)
  pub inner_src : IsBytes 6 e.inner_src_mac
  pub inner_dst : IsBytes 6 e.inner_dst_mac

pub record IsL4 (u : FlowUdp) : Type 0 where
  pub src : u.src_port ≤ 0xFFFF
  pub dst : u.dst_port ≤ 0xFFFF
  pub proto : (u.l4_proto ≡ 6) ⊎ (u.l4_proto ≡ 17)
  pub flags : u.tcp_flags ≤ 0xFF

-- one frame length or a range, within the limits of the generator, and exactly one rate
pub record IsTraffic (t : FlowTraffic) : Type 0 where
  pub fixed :
      t.frame_len_fixed_set ≡ true
      → (60 ≤ t.frame_len_fixed) × (t.frame_len_fixed ≤ 1518) × (t.frame_len_max ≡ 0)
  pub range :
      t.frame_len_fixed_set ≡ false
      → (60 ≤ t.frame_len_min)
        × (t.frame_len_min ≤ t.frame_len_max)
        × (t.frame_len_max ≤ 1518)
        × (1 ≤ t.frame_len_step)
  pub one_rate : ((t.rate_bps ≡ 0) × (t.rate_pps ≢ 0)) ⊎ ((t.rate_bps ≢ 0) × (t.rate_pps ≡ 0))
  pub bps : t.rate_bps < 2 ^ 64
  pub pps : t.rate_pps < 2 ^ 64
  pub burst : t.burst_size ≤ 0xFFFFFFFF
  pub gap : t.burst_gap_ticks ≤ 0xFFFFFFFF
  pub payload : t.payload_mode ≤ 3
  pub seed : t.payload_seed ≤ 0xFFFFFFFF
  pub template : t.frame_template ≤ 3

pub record IsMod (m : FieldMod) : Type 0 where
  pub mode : m.mode ≤ 2
  pub mask : m.mask ≤ 0xFFFFFFFFFFFF

pub record IsModifiers (m : FlowModifiers) : Type 0 where
  pub src_ipv4 : IsMod m.src_ipv4
  pub dst_ipv4 : IsMod m.dst_ipv4
  pub udp_src : IsMod m.udp_src
  pub udp_dst : IsMod m.udp_dst
  pub src_mac : IsMod m.src_mac
  pub dst_mac : IsMod m.dst_mac
  pub vlan : IsMod m.vlan
  pub src_ipv6 : IsBytes 16 m.src_ipv6_mask
  pub dst_ipv6 : IsBytes 16 m.dst_ipv6_mask

pub record IsFlow (f : Flow) : Type 0 where
  pub id : f.id ≤ 0xFFFFFFFF
  pub name : length f.name < 32
  pub tx : f.tx_global_port ≤ 0xFFFF
  pub rx : f.rx_global_port ≤ 0xFFFF
  pub lif : f.logical_if_id ≤ 0xFFFFFFFF
  pub l2 : IsL2 f.l2
  pub ip : IsEndpoint (f.ipv4, f.ipv6)
  pub l4 : IsL4 f.udp
  pub traffic : IsTraffic f.traffic
  pub modifiers : IsModifiers f.modifiers
  pub encap : IsEncap f.encap
  pub rx_expect : f.rx_expect ≤ 1
  pub udp_mask : f.match_udp_dst_mask ≤ 0xFFFF
  pub ipv4_mask : f.match_ipv4_dst_mask ≤ 0xFFFFFFFF
  pub dst_mask : IsBytes 16 f.match_ipv6_dst_mask
  pub src_mask : IsBytes 16 f.match_ipv6_src_mask
  pub v6_only : f.match_ipv6_dst_set ≡ true → f.ipv6.present ≡ true

pub record IsForward (r : ForwardRule) : Type 0 where
  pub name : length r.name < 32
  pub ingress : r.ingress_port ≤ 0xFFFF
  pub egress : r.egress_port ≤ 0xFFFF
  pub priority : r.priority ≤ 0xFF
  pub ethertype : r.ethertype ≤ 0xFFFF
  pub ip_proto : r.ip_proto ≤ 0xFF
  pub udp_dst : r.udp_dst ≤ 0xFFFF
  pub vlan : r.vlan ≤ 4094
  pub dst : IsBytes 16 r.ipv6_dst
  pub dst_mask : IsBytes 16 r.ipv6_dst_mask
  pub src : IsBytes 16 r.ipv6_src
  pub src_mask : IsBytes 16 r.ipv6_src_mask

-- A configuration of an environment has a system; one of a test may have none.
pub record IsConfig (c : Config) : Type 0 where
  pub few_cards : length c.cards ≤ 16
  pub cards : All IsCard c.cards
  pub logical_if : All IsLogicalIf c.logical_if
  pub flows : All IsFlow c.flows
  pub forwards : All IsForward c.forwards
