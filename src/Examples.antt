-- ===== src/Examples.antt =====
-- A small configuration and a small card, on which the theorems are applied in the children.
pub mod Compiled
pub mod Hardware
pub mod Flash
pub mod Frames
pub mod Parsing
pub mod Plane
pub mod Quiet
pub mod Rules
pub mod Socket
pub mod Sync
use packet_wyrm.Base.{ℕ, ◌+◌, Bool, true, false, List, [], ◌∷◌, replicate, get_or, Result, ok, err}
use packet_wyrm.Config.{Config, Card, CardPort, PuntFlags, LogicalIf, ForwardRule, System}
use packet_wyrm.Config.FlowModel.{
  Flow, FlowL2, FlowIpv4, FlowIpv6, FlowEncap, FlowUdp, FlowTraffic, FlowMeas, FieldMod,
  FlowModifiers,
}
use packet_wyrm.Config.Resolve.{resolve_port}
use packet_wyrm.Config.Validate.{validate}
use packet_wyrm.Compiler.Append.{find_cmp}
use packet_wyrm.Compiler.Hash.{hash_index, relax_mask}
use packet_wyrm.Compiler.Seed.{and_words, seed_of}
use packet_wyrm.Compiler.{fresh_program, flow_compile}
use packet_wyrm.Compiler.Tables.{Program, FlowMeta, zero_meta}

abbrev static_field : FieldMod
static_field = record { mode = 0; mask = 0 }

abbrev no_ipv6 : FlowIpv6
no_ipv6 = record {
  present = false;
  src = replicate 16 0;
  dst = replicate 16 0;
  hop_limit = 0;
  dscp = 0;
}

abbrev no_ipv4 : FlowIpv4
no_ipv4 = record { present = false; src = 0; dst = 0; ttl = 0; dscp = 0 }

-- a UDP flow of 128-byte frames at 1000 frames a second
abbrev pub demo_flow : ℕ → ℕ → ℕ → Bool → Bool → Flow
demo_flow id tx rx background header = record {
  id = id;
  name = id ∷ [];
  tx_global_port = tx;
  rx_global_port = rx;
  logical_if_id = 0;
  l2 = record {
    src_mac = 2 ∷ 0 ∷ 0 ∷ 0 ∷ 0 ∷ 1 ∷ [];
    dst_mac = 2 ∷ 0 ∷ 0 ∷ 0 ∷ 0 ∷ 2 ∷ [];
    vlan_set = false;
    vlan = 0;
    pcp = 0;
    ethertype = 0x0800;
  };
  ipv4 = record { present = true; src = 0x0A000001; dst = 0x0A000002; ttl = 64; dscp = 0 };
  ipv6 = no_ipv6;
  udp = record { src_port = 1000; dst_port = 2000 + id; l4_proto = 17; tcp_flags = 0 };
  traffic = record {
    frame_template = 0;
    frame_len_fixed_set = false;
    frame_len_fixed = 0;
    frame_len_min = 128;
    frame_len_max = 128;
    frame_len_step = 0;
    rate_bps = 0;
    rate_pps = 1000;
    burst_size = 2;
    burst_gap_ticks = 0;
    payload_mode = 0;
    payload_seed = 0;
    insert_sequence = true;
    insert_timestamp = true;
  };
  meas = record { loss = false; latency = false; jitter = false };
  modifiers = record {
    src_ipv4 = static_field;
    dst_ipv4 = static_field;
    udp_src = static_field;
    udp_dst = static_field;
    src_mac = static_field;
    dst_mac = static_field;
    vlan = static_field;
    src_ipv6_mask = replicate 16 0;
    dst_ipv6_mask = replicate 16 0;
  };
  background = background;
  encap = record {
    present = false;
    kind = 0;
    outer_ipv4 = no_ipv4;
    outer_ipv6 = no_ipv6;
    inner_mac_set = false;
    inner_src_mac = [];
    inner_dst_mac = [];
  };
  rx_expect = 0;
  match_udp_dst_mask = 0xFFFF;
  match_ipv4_dst_mask = 0xFFFFFFFF;
  match_ipv6_dst_set = false;
  match_ipv6_dst_mask = [];
  match_ipv6_src_set = false;
  match_ipv6_src_mask = [];
  classify_header = header;
}

abbrev port : ℕ → ℕ → CardPort
port l g = record { local_port = l; global_port = g; name = [] }

abbrev card : ℕ → List CardPort → Card
card id ports = record { id = id; name = []; pci = id ∷ []; ports = ports }

-- an interface that takes ARP and BGP
abbrev pub demo_lif : LogicalIf
demo_lif = record {
  id = 7;
  name = 97 ∷ [];
  global_port = 0;
  vlan = 100;
  mac = [];
  mtu = 1500;
  netns = [];
  punt = record {
    arp = true;
    ipv6_nd = false;
    lldp = false;
    icmp = false;
    bgp = true;
    ospf = false;
    is_is = false;
  };
}

abbrev pub demo_forward : ForwardRule
demo_forward = record {
  name = [];
  ingress_port = 0;
  egress_port = 1;
  priority = 9;
  ethertype = 0x86DD;
  ip_proto = 0;
  udp_dst = 0;
  vlan = 0;
  ipv6_dst_set = true;
  ipv6_dst = replicate 16 1;
  ipv6_dst_mask = 255 ∷ 255 ∷ 255 ∷ 255 ∷ replicate 12 0;
  ipv6_src_set = false;
  ipv6_src = [];
  ipv6_src_mask = [];
}

-- Flow 1 goes from card 0 to card 1, flow 2 stays on card 0 and is found by its header, flow 3 is
-- background load.
abbrev pub demo : Config
demo = record {
  system = record {
    name = [];
    mode = [];
    default_speed = [];
    stats_poll_interval_ms = 1000;
    control_socket = [];
    secret = [];
  };
  cards = card 0 (port 0 0 ∷ port 1 1 ∷ []) ∷ card 1 (port 0 2 ∷ []) ∷ [];
  logical_if = demo_lif ∷ [];
  flows =
      demo_flow 1 0 2 false false ∷ demo_flow 2 0 1 false true ∷ demo_flow 3 1 2 true false ∷ [];
  forwards = demo_forward ∷ [];
}

-- the compiled configuration
unfoldable pub demo_out : Program
unfolding flow_compile validate resolve_port find_cmp hash_index and_words relax_mask seed_of
demo_out = elim (flow_compile demo) [ ok p ↦ p | err e ↦ fresh_program demo ]

unfoldable pub demo_meta : ℕ → FlowMeta
unfolding demo_out
demo_meta i = get_or demo_out.flow_meta i zero_meta
