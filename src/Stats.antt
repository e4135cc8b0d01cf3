-- ===== src/Stats.antt =====
-- `pw_stats_aggregate` (sw/libpacketwyrm/src/stats.c, include/packetwyrm/stats.h). No pointer is
-- NULL here; `out` comes back whole, with what is left of it behind the flows.
pub mod Entries
use packet_wyrm.Base.{
  ℕ, ◌*◌, ◌-◌, ◌/◌, ◌^◌, Bool, true, false, not, List, [], ◌∷◌, length, ltb, if◌then◌else◌, Result,
  ok, Error, ◌>>◌, reject_if,
}
use packet_wyrm.Compiler.Tables.{FlowMeta}
use packet_wyrm.Backend.{FlowStats}

pub record GlobalFlowStats : Type 0 where
  pub global_flow_id : ℕ
  pub tx_frames : ℕ
  pub tx_bytes : ℕ
  pub rx_frames : ℕ
  pub rx_bytes : ℕ
  pub lost_est : ℕ
  pub duplicate : ℕ
  pub out_of_order : ℕ
  pub late : ℕ
  pub sequence_gap_count : ℕ
  pub latency_valid : Bool
  pub cross_card : Bool
  pub min_latency_ns : ℕ
  pub max_latency_ns : ℕ
  pub sum_latency_ns : ℕ
  pub sample_count : ℕ
  pub jitter_min_ns : ℕ
  pub jitter_max_ns : ℕ
  pub jitter_sum_ns : ℕ

-- SIZE_MAX on a 64-bit host, and `sizeof(struct pw_global_flow_stats)` there
abbrev pub size_max : ℕ
size_max = 2 ^ 64 - 1

abbrev pub sizeof_out : ℕ
sizeof_out = 128

-- `memset`, and the transmit side
abbrev pub tx_side : FlowMeta → FlowStats → GlobalFlowStats
tx_side m tx_s = record {
  global_flow_id = m.global_flow_id;
  tx_frames = tx_s.tx_frames;
  tx_bytes = tx_s.tx_bytes;
  rx_frames = 0;
  rx_bytes = 0;
  lost_est = 0;
  duplicate = 0;
  out_of_order = 0;
  late = 0;
  sequence_gap_count = 0;
  latency_valid = false;
  cross_card = false;
  min_latency_ns = 0;
  max_latency_ns = 0;
  sum_latency_ns = 0;
  sample_count = 0;
  jitter_min_ns = 0;
  jitter_max_ns = 0;
  jitter_sum_ns = 0;
}

-- the body of the loop
unfoldable pub flow_entry : FlowMeta → FlowStats → FlowStats → GlobalFlowStats
flow_entry m tx_s rx_s = if not m.rx_slot_valid then tx_side m tx_s else record (tx_side m tx_s) {
  rx_frames = rx_s.rx_frames;
  rx_bytes = rx_s.rx_bytes;
  lost_est = rx_s.lost_packets_estimated;
  duplicate = rx_s.duplicate_count;
  out_of_order = rx_s.out_of_order_count;
  late = rx_s.late_packet_count;
  sequence_gap_count = rx_s.sequence_gap_count;
  latency_valid = true;
  cross_card = not m.latency_valid;
  min_latency_ns = rx_s.min_latency;
  max_latency_ns = rx_s.max_latency;
  sum_latency_ns = rx_s.sum_latency;
  sample_count = rx_s.sample_count;
  jitter_min_ns = rx_s.jitter_min;
  jitter_max_ns = rx_s.jitter_max;
  jitter_sum_ns = rx_s.jitter_sum;
}

-- The loop; the guards of `aggregate` keep it inside the arrays, so that the last clauses, for
-- an array that ends early, are not reached.
unfoldable pub fill : List FlowMeta → List FlowStats → List GlobalFlowStats → List GlobalFlowStats
unfolding flow_entry
fill [] ss out = out
fill (m ∷ ms) (tx_s ∷ rx_s ∷ ss) (o ∷ out) = flow_entry m tx_s rx_s ∷ fill ms ss out
fill ms ss out = out

unfoldable pub aggregate :
    List FlowMeta → List FlowStats → List GlobalFlowStats → Result (List GlobalFlowStats)
unfolding fill
aggregate flow_meta per_card_flow_stats out = do
  reject_if (ltb (size_max / 2) (length flow_meta)) Error.inval
  reject_if (ltb (size_max / sizeof_out) (length flow_meta)) Error.inval
  reject_if (ltb (length out) (length flow_meta)) Error.inval
  reject_if (ltb (length per_card_flow_stats) (length flow_meta * 2)) Error.inval
  ok (fill flow_meta per_card_flow_stats out)
