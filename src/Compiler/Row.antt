-- ===== src/Compiler/Row.antt =====
-- The flow row that `compile_one_flow` builds, `pw_flow_min_legal_frame`, and the token bucket:
-- sw/libpacketwyrm/src/flow_compiler.c.
pub mod Bucket
use packet_wyrm.Base.{
  ℕ, ◌+◌, ◌*◌, ◌-◌, ◌/◌, ◌^◌, Bool, not, ◌&&◌, List, [], ◌∷◌, map, get_or, bit_and, shr, u8, u16,
  u32, ◌==◌, ltb, if◌then◌else◌, replicate, range_from,
}
use packet_wyrm.Config.{PortRef}
use packet_wyrm.Config.FlowModel.{
  Flow, FlowTraffic, encap_gre, encap_etherip, template_test, template_l3raw, template_l2raw,
}
use packet_wyrm.Compiler.Tables.{FlowRow, zero_row}

-- `b ? 1 : 0`
abbrev pub flag : Bool → ℕ
flag b = if b then 1 else 0

-- `v ? v : d`
abbrev pub or_default : ℕ → ℕ → ℕ
or_default v d = if v == 0 then d else v

-- the bytes of the outer headers
unfoldable pub encap_bytes : Flow → ℕ
encap_bytes f =
    if f.encap.present
    then (if f.encap.outer_ipv6.present then 40 else 20)
      + (if f.encap.kind == encap_gre then 4 else if f.encap.kind == encap_etherip then 16 else 0)
    else 0

-- `pw_flow_min_legal_frame`
unfoldable pub min_legal_frame : Flow → ℕ
unfolding encap_bytes
min_legal_frame f =
    if template == template_l2raw
    then l
    else if template == template_l3raw
    then l + inner_ip
    else l
      + encap_bytes f
      + inner_ip
      + (if f.udp.l4_proto == 6 then 20 else 8)
      + (if template == template_test then 32 else 0)
  where
    template : ℕ
    template = f.traffic.frame_template

    l : ℕ
    l = if f.l2.vlan_set then 14 + 4 else 14

    inner_ip : ℕ
    inner_ip = if f.ipv6.present then 40 else 20

-- PWFPGA_DATA_PLANE_CLOCK_HZ
abbrev pub clock_hz : ℕ
clock_hz = 156250000

abbrev pub u64_max : ℕ
u64_max = 2 ^ 64 - 1

-- `if (flen < minf) flen = minf;`
abbrev pub at_least : ℕ → ℕ → ℕ
at_least minf flen = if ltb flen minf then minf else flen

-- the byte rate that the bucket meters, in bits; the product has 128 bits, so it does not wrap
unfoldable pub effective_rate : Flow → ℕ
unfolding min_legal_frame
effective_rate f =
    if t.rate_bps == 0 && not (t.rate_pps == 0)
    then (if ltb u64_max product then u64_max else product)
    else t.rate_bps
  where
    t : FlowTraffic
    t = f.traffic

    flen : ℕ
    flen = if t.frame_len_fixed_set then t.frame_len_fixed else t.frame_len_min

    product : ℕ
    product = t.rate_pps * at_least (min_legal_frame f) flen * 8

-- `tokens_per_tick_fp`, in 128-bit arithmetic
unfoldable pub tokens_per_tick : Flow → ℕ
unfolding effective_rate
tokens_per_tick f = if ltb 0xFFFFFFFF q then 0xFFFFFFFF else q
  where
    q : ℕ
    q = effective_rate f * 65536 / (clock_hz * 8)

-- `burst_bytes`, at the row's `frame_len_max`; the product of two 32-bit words fits `uint64_t`
unfoldable pub burst_bytes : Flow → ℕ → ℕ
unfolding min_legal_frame
burst_bytes f frame_len_max = if ltb 0xFFFF cap then 0xFFFF else cap
  where
    flen : ℕ
    flen = at_least (min_legal_frame f) (or_default frame_len_max 1518)

    cap : ℕ
    cap = at_least flen (or_default f.traffic.burst_size 1 * flen)

-- `hi[i] = mask[11 - i]`
abbrev pub mask_hi : List ℕ → List ℕ
mask_hi mask = map (λ i. get_or mask (11 - i) 0) (range_from 0 12)

-- `(uint8_t)(mask >> (8 * (5 - i)))`
abbrev pub mac_mask : ℕ → List ℕ
mac_mask mask = map (λ i. u8 (shr mask (8 * (5 - i)))) (range_from 0 6)

-- The frame length fields: smallest, largest, step.
unfoldable pub length_min : FlowTraffic → ℕ
length_min t = if t.frame_len_fixed_set then t.frame_len_fixed else t.frame_len_min

unfoldable pub length_max : FlowTraffic → ℕ
length_max t = if t.frame_len_fixed_set then t.frame_len_fixed else t.frame_len_max

unfoldable pub length_step : FlowTraffic → ℕ
length_step t = if t.frame_len_fixed_set then 1 else or_default t.frame_len_step 1

-- the addressing part of the row, over the zeroed one
unfoldable pub address_row : PortRef → ℕ → Flow → FlowRow
address_row tx tx_lfid f = record zero_row {
  enable = 1;
  egress_local_port = tx.local_port_id;
  global_flow_id = f.id;
  local_flow_id = tx_lfid;
  logical_if_id = f.logical_if_id;
  src_mac = f.l2.src_mac;
  dst_mac = f.l2.dst_mac;
  vlan_enable = flag f.l2.vlan_set;
  vlan_id = f.l2.vlan;
  pcp = f.l2.pcp;
  ip_version = if v6 then 6 else 4;
  ipv6_src = if v6 then f.ipv6.src else zero_row.ipv6_src;
  ipv6_dst = if v6 then f.ipv6.dst else zero_row.ipv6_dst;
  src_ipv4 = if v6 then 0 else f.ipv4.src;
  dst_ipv4 = if v6 then 0 else f.ipv4.dst;
  ttl = if v6 then f.ipv6.hop_limit else f.ipv4.ttl;
  dscp = if v6 then f.ipv6.dscp else f.ipv4.dscp;
}
  where
    v6 : Bool
    v6 = f.ipv6.present

-- the outer header, when there is one
unfoldable pub encap_row : Flow → FlowRow → FlowRow
encap_row f r =
    if f.encap.present
    then record r {
      encap_type = f.encap.kind;
      rx_expect = f.rx_expect;
      outer_ip_version = if v6 then 6 else 4;
      outer_ipv6_src = if v6 then f.encap.outer_ipv6.src else r.outer_ipv6_src;
      outer_ipv6_dst = if v6 then f.encap.outer_ipv6.dst else r.outer_ipv6_dst;
      outer_src_ipv4 = if v6 then r.outer_src_ipv4 else f.encap.outer_ipv4.src;
      outer_dst_ipv4 = if v6 then r.outer_dst_ipv4 else f.encap.outer_ipv4.dst;
      outer_ttl = if v6 then f.encap.outer_ipv6.hop_limit else f.encap.outer_ipv4.ttl;
      outer_dscp = if v6 then f.encap.outer_ipv6.dscp else f.encap.outer_ipv4.dscp;
      inner_src_mac = if f.encap.inner_mac_set then f.encap.inner_src_mac else f.l2.src_mac;
      inner_dst_mac = if f.encap.inner_mac_set then f.encap.inner_dst_mac else f.l2.dst_mac;
    }
    else r
  where
    v6 : Bool
    v6 = f.encap.outer_ipv6.present

-- ports, template and per-field modifiers
unfoldable pub modifier_row : Flow → FlowRow → FlowRow
modifier_row f r = record r {
  udp_src_port = f.udp.src_port;
  udp_dst_port = f.udp.dst_port;
  l4_proto = or_default f.udp.l4_proto 17;
  tcp_flags = f.udp.tcp_flags;
  frame_template = f.traffic.frame_template;
  l2_ethertype = f.l2.ethertype;
  src_ipv4_mod = f.modifiers.src_ipv4.mode;
  src_ipv4_mask = u32 f.modifiers.src_ipv4.mask;
  dst_ipv4_mod = f.modifiers.dst_ipv4.mode;
  dst_ipv4_mask = u32 f.modifiers.dst_ipv4.mask;
  src_ipv6_mask_hi =
      if f.ipv6.present then mask_hi f.modifiers.src_ipv6_mask else r.src_ipv6_mask_hi;
  dst_ipv6_mask_hi =
      if f.ipv6.present then mask_hi f.modifiers.dst_ipv6_mask else r.dst_ipv6_mask_hi;
  udp_src_mod = f.modifiers.udp_src.mode;
  udp_src_mask = u16 f.modifiers.udp_src.mask;
  udp_dst_mod = f.modifiers.udp_dst.mode;
  udp_dst_mask = u16 f.modifiers.udp_dst.mask;
  src_mac_mod = f.modifiers.src_mac.mode;
  dst_mac_mod = f.modifiers.dst_mac.mode;
  src_mac_mask = mac_mask f.modifiers.src_mac.mask;
  dst_mac_mask = mac_mask f.modifiers.dst_mac.mask;
  vlan_mod = f.modifiers.vlan.mode;
  vlan_mask = u16 (bit_and f.modifiers.vlan.mask 0x0FFF);
}

-- lengths, rates and the token bucket
unfoldable pub traffic_row : Flow → FlowRow → FlowRow
unfolding length_min length_max length_step tokens_per_tick burst_bytes
traffic_row f r = record r {
  frame_len_min = length_min f.traffic;
  frame_len_max = length_max f.traffic;
  frame_len_step = length_step f.traffic;
  rate_bps = f.traffic.rate_bps;
  rate_pps = f.traffic.rate_pps;
  burst_size = f.traffic.burst_size;
  burst_gap_ticks = f.traffic.burst_gap_ticks;
  tokens_per_tick_fp = tokens_per_tick f;
  burst_bytes = burst_bytes f (length_max f.traffic);
  payload_mode = f.traffic.payload_mode;
  payload_seed = f.traffic.payload_seed;
  insert_sequence = flag f.traffic.insert_sequence;
  insert_timestamp = flag f.traffic.insert_timestamp;
}

-- the TX row of a flow
unfoldable pub make_tx_row : PortRef → ℕ → Bool → Flow → FlowRow
unfolding address_row encap_row modifier_row traffic_row
make_tx_row tx tx_lfid same_card f =
    record (traffic_row f (modifier_row f (encap_row f (address_row tx tx_lfid f)))) {
      tx_enable = 1;
      rx_check_enable = flag (same_card && not f.background);
    }

-- the row on the receiving card of a cross-card flow
unfoldable pub make_rx_row : PortRef → ℕ → FlowRow → FlowRow
make_rx_row rx rx_lfid tx_row = record tx_row {
  local_flow_id = rx_lfid;
  egress_local_port = rx.local_port_id;
  tx_enable = 0;
  rx_check_enable = 1;
}
