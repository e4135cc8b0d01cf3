-- ===== src/Examples/Compiled.antt =====
-- The theorems about the compiler on the small configuration.
use packet_wyrm.Base.{◌≡◌, refl, false, true, some, All, get_elem?, ok, arith}
use packet_wyrm.Config.Resolve.{resolve_port}
use packet_wyrm.Config.Validate.{validate}
use packet_wyrm.Config.Valid.{IsValid}
use packet_wyrm.Compiler.{flow_compile}
use packet_wyrm.Compiler.Append.{find_cmp}
use packet_wyrm.Compiler.Hash.{hash_index, relax_mask}
use packet_wyrm.Compiler.Seed.{and_words, seed_of}
use packet_wyrm.Compiler.Flows.{Compiled, flow_compile-ok}
use packet_wyrm.Compiler.Apart.{flow_compile-tx_apart, flow_compile-rx_apart}
use packet_wyrm.Programming.Fits.{Fits}
use packet_wyrm.Pipeline.{flow_compile-Fits}
use packet_wyrm.Backend.{FlowStats}
use packet_wyrm.Examples.{demo, demo_flow, demo_out, demo_meta}

pub demo_compiled : flow_compile demo ≡ ok demo_out
unfolding flow_compile validate resolve_port demo_out find_cmp hash_index and_words relax_mask
    seed_of
demo_compiled = refl

meta_0 : get_elem? demo_out.flow_meta 0 ≡ some (demo_meta 0)
unfolding flow_compile validate resolve_port demo_meta demo_out find_cmp hash_index and_words
    relax_mask seed_of
meta_0 = refl

meta_1 : get_elem? demo_out.flow_meta 1 ≡ some (demo_meta 1)
unfolding flow_compile validate resolve_port demo_meta demo_out find_cmp hash_index and_words
    relax_mask seed_of
meta_1 = refl

flow_compile-ok_example : IsValid demo × Compiled demo demo_out
flow_compile-ok_example = flow_compile-ok demo demo_out demo_compiled

flow_compile-tx_apart_example : ¬ (
    ((demo_meta 0).tx_card_id ≡ (demo_meta 1).tx_card_id)
    × ((demo_meta 0).tx_local_flow_id ≡ (demo_meta 1).tx_local_flow_id))
flow_compile-tx_apart_example =
    flow_compile-tx_apart demo demo_out demo_compiled 0 1 (demo_flow 1 0 2 false false)
      (demo_flow 2 0 1 false true) (demo_meta 0) (demo_meta 1) (omega arith) refl refl meta_0 meta_1

flow_compile-rx_apart_example : ¬ (
    ((demo_meta 0).rx_card_id ≡ (demo_meta 1).rx_card_id)
    × ((demo_meta 0).rx_local_flow_id ≡ (demo_meta 1).rx_local_flow_id))
flow_compile-rx_apart_example =
    flow_compile-rx_apart demo demo_out demo_compiled 0 1 (demo_flow 1 0 2 false false)
      (demo_flow 2 0 1 false true) (demo_meta 0) (demo_meta 1) (omega arith) refl refl meta_0 meta_1
      refl refl

flow_compile-Fits_example : All Fits demo_out.per_card
flow_compile-Fits_example = flow_compile-Fits demo demo_out demo_compiled

abbrev seen : FlowStats
seen = record {
  tx_frames = 10;
  tx_bytes = 1280;
  rx_frames = 9;
  rx_bytes = 1152;
  last_sequence = 9;
  sequence_gap_count = 1;
  lost_packets_estimated = 1;
  duplicate_count = 0;
  out_of_order_count = 0;
  late_packet_count = 0;
  min_latency = 100;
  max_latency = 300;
  sum_latency = 1800;
  sample_count = 9;
  jitter_min = 1;
  jitter_max = 5;
  jitter_sum = 20;
}
