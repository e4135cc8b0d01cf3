-- ===== src/Backend.antt =====
-- The card backend: `struct pw_card_info`, `struct pw_flow_stats` and the operations that the
-- programming uses of `struct pw_card_backend_ops` (sw/libpacketwyrm/include/packetwyrm/
-- backend.h). `D` is the device behind `ctx`; an operation that is NULL is `none`.
use packet_wyrm.Base.{ℕ, Option, Result, Status}
use packet_wyrm.Compiler.Tables.{FlowRow}

pub record CardInfo : Type 0 where
  pub device_id : ℕ
  pub version : ℕ
  pub build_id : ℕ
  pub git_hash : ℕ
  pub capabilities : ℕ
  pub num_local_ports : ℕ
  pub num_local_flows : ℕ
  pub num_logical_interfaces : ℕ
  pub num_classifier_entries : ℕ

pub record FlowStats : Type 0 where
  pub tx_frames : ℕ
  pub tx_bytes : ℕ
  pub rx_frames : ℕ
  pub rx_bytes : ℕ
  pub last_sequence : ℕ
  pub sequence_gap_count : ℕ
  pub lost_packets_estimated : ℕ
  pub duplicate_count : ℕ
  pub out_of_order_count : ℕ
  pub late_packet_count : ℕ
  pub min_latency : ℕ
  pub max_latency : ℕ
  pub sum_latency : ℕ
  pub sample_count : ℕ
  pub jitter_min : ℕ
  pub jitter_max : ℕ
  pub jitter_sum : ℕ

pub record BackendOps (D : Type 0) : Type 0 where
  pub write32 : Option (ℕ → ℕ → D → Status × D)
  pub card_info : Option (D → Result CardInfo × D)
  pub flow_write : Option (ℕ → FlowRow → D → Status × D)
  pub flow_commit : Option (D → Status × D)
