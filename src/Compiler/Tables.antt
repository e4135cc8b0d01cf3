-- ===== src/Compiler/Tables.antt =====
-- The compiled program: `struct pw_program` and its parts (sw/libpacketwyrm/include/packetwyrm/
-- flow_compiler.h), the flow row `struct pwfpga_flow_config` and the table sizes (csr.h).
use packet_wyrm.Base.{ℕ, Bool, false, List, [], replicate}

-- PWFPGA_FLOW_TABLE_ROWS: (0xA000 - 0x6000) / 256
abbrev pub flow_table_rows : ℕ
flow_table_rows = 64

abbrev pub flowid_map_depth : ℕ
flowid_map_depth = 256

abbrev pub num_cmp : ℕ
num_cmp = 12

abbrev pub num_udf : ℕ
num_udf = 2

abbrev pub num_rule : ℕ
num_rule = 32

abbrev pub hash_depth : ℕ
hash_depth = 128

abbrev pub hash_key_words : ℕ
hash_key_words = 11

pub record FlowRow : Type 0 where
  pub enable : ℕ
  pub egress_local_port : ℕ
  pub global_flow_id : ℕ
  pub local_flow_id : ℕ
  pub logical_if_id : ℕ
  pub dst_mac : List ℕ
  pub src_mac : List ℕ
  pub vlan_enable : ℕ
  pub vlan_id : ℕ
  pub pcp : ℕ
  pub ip_version : ℕ
  pub src_ipv4 : ℕ
  pub dst_ipv4 : ℕ
  pub dscp : ℕ
  pub ttl : ℕ
  pub udp_src_port : ℕ
  pub udp_dst_port : ℕ
  pub frame_len_min : ℕ
  pub frame_len_max : ℕ
  pub frame_len_step : ℕ
  pub rate_bps : ℕ
  pub rate_pps : ℕ
  pub burst_size : ℕ
  pub burst_gap_ticks : ℕ
  pub tokens_per_tick_fp : ℕ
  pub burst_bytes : ℕ
  pub payload_mode : ℕ
  pub payload_seed : ℕ
  pub insert_sequence : ℕ
  pub insert_timestamp : ℕ
  pub tx_enable : ℕ
  pub rx_check_enable : ℕ
  pub src_ipv4_mod : ℕ
  pub src_ipv4_mask : ℕ
  pub dst_ipv4_mod : ℕ
  pub dst_ipv4_mask : ℕ
  pub udp_src_mod : ℕ
  pub udp_src_mask : ℕ
  pub udp_dst_mod : ℕ
  pub udp_dst_mask : ℕ
  pub ipv6_src : List ℕ
  pub ipv6_dst : List ℕ
  pub src_mac_mod : ℕ
  pub src_mac_mask : List ℕ
  pub dst_mac_mod : ℕ
  pub dst_mac_mask : List ℕ
  pub vlan_mod : ℕ
  pub vlan_mask : ℕ
  pub encap_type : ℕ
  pub outer_ip_version : ℕ
  pub rx_expect : ℕ
  pub outer_ttl : ℕ
  pub outer_dscp : ℕ
  pub outer_src_ipv4 : ℕ
  pub outer_dst_ipv4 : ℕ
  pub outer_ipv6_src : List ℕ
  pub outer_ipv6_dst : List ℕ
  pub inner_dst_mac : List ℕ
  pub inner_src_mac : List ℕ
  pub src_ipv6_mask_hi : List ℕ
  pub dst_ipv6_mask_hi : List ℕ
  pub l4_proto : ℕ
  pub tcp_flags : ℕ
  pub frame_template : ℕ
  pub l2_ethertype : ℕ

pub record FlowMeta : Type 0 where
  pub global_flow_id : ℕ
  pub tx_card_id : ℕ
  pub rx_card_id : ℕ
  pub tx_local_flow_id : ℕ
  pub rx_local_flow_id : ℕ
  pub latency_valid : Bool
  pub rx_slot_valid : Bool

pub record MapEntry : Type 0 where
  pub flow_id : ℕ
  pub local_flow_id : ℕ

pub record FcCmp : Type 0 where
  pub src : ℕ
  pub mask : ℕ
  pub value : ℕ

pub record FcUdf : Type 0 where
  pub offset : ℕ
  pub mask : ℕ
  pub value : ℕ

pub record FcRule : Type 0 where
  pub care : ℕ
  pub action : ℕ
  pub egress : ℕ
  pub local_flow_id : ℕ
  pub logical_if_id : ℕ
  pub priority : ℕ

pub record HashEntry : Type 0 where
  pub index : ℕ
  pub key_word : List ℕ
  pub local_flow_id : ℕ

-- The arrays with their counts are lists.
pub record CardProgram : Type 0 where
  pub card_id : ℕ
  pub flow_rows : List FlowRow
  pub map_entries : List MapEntry
  pub fc_cmps : List FcCmp
  pub fc_udfs : List FcUdf
  pub fc_rules : List FcRule
  pub hash_seed : ℕ
  pub hash_mask : List ℕ
  pub hash_entries : List HashEntry

pub record Program : Type 0 where
  pub per_card : List CardProgram
  pub flow_meta : List FlowMeta

-- what `calloc` gives
abbrev pub zero_meta : FlowMeta
zero_meta = record {
  global_flow_id = 0;
  tx_card_id = 0;
  rx_card_id = 0;
  tx_local_flow_id = 0;
  rx_local_flow_id = 0;
  latency_valid = false;
  rx_slot_valid = false;
}

abbrev pub empty_card : ℕ → CardProgram
empty_card id = record {
  card_id = id;
  flow_rows = [];
  map_entries = [];
  fc_cmps = [];
  fc_udfs = [];
  fc_rules = [];
  hash_seed = 0;
  hash_mask = replicate 11 0;
  hash_entries = [];
}

-- `struct pwfpga_flow_config zf = {0}`
abbrev pub zero_row : FlowRow
zero_row = record {
  enable = 0;
  egress_local_port = 0;
  global_flow_id = 0;
  local_flow_id = 0;
  logical_if_id = 0;
  dst_mac = replicate 6 0;
  src_mac = replicate 6 0;
  vlan_enable = 0;
  vlan_id = 0;
  pcp = 0;
  ip_version = 0;
  src_ipv4 = 0;
  dst_ipv4 = 0;
  dscp = 0;
  ttl = 0;
  udp_src_port = 0;
  udp_dst_port = 0;
  frame_len_min = 0;
  frame_len_max = 0;
  frame_len_step = 0;
  rate_bps = 0;
  rate_pps = 0;
  burst_size = 0;
  burst_gap_ticks = 0;
  tokens_per_tick_fp = 0;
  burst_bytes = 0;
  payload_mode = 0;
  payload_seed = 0;
  insert_sequence = 0;
  insert_timestamp = 0;
  tx_enable = 0;
  rx_check_enable = 0;
  src_ipv4_mod = 0;
  src_ipv4_mask = 0;
  dst_ipv4_mod = 0;
  dst_ipv4_mask = 0;
  udp_src_mod = 0;
  udp_src_mask = 0;
  udp_dst_mod = 0;
  udp_dst_mask = 0;
  ipv6_src = replicate 16 0;
  ipv6_dst = replicate 16 0;
  src_mac_mod = 0;
  src_mac_mask = replicate 6 0;
  dst_mac_mod = 0;
  dst_mac_mask = replicate 6 0;
  vlan_mod = 0;
  vlan_mask = 0;
  encap_type = 0;
  outer_ip_version = 0;
  rx_expect = 0;
  outer_ttl = 0;
  outer_dscp = 0;
  outer_src_ipv4 = 0;
  outer_dst_ipv4 = 0;
  outer_ipv6_src = replicate 16 0;
  outer_ipv6_dst = replicate 16 0;
  inner_dst_mac = replicate 6 0;
  inner_src_mac = replicate 6 0;
  src_ipv6_mask_hi = replicate 12 0;
  dst_ipv6_mask_hi = replicate 12 0;
  l4_proto = 0;
  tcp_flags = 0;
  frame_template = 0;
  l2_ethertype = 0;
}
