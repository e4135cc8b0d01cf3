-- ===== src/Examples/Frames.antt =====
-- The preview of the first flow of the demo, and of an IPv4 header of its own.
use packet_wyrm.Base.{◌≡◌, refl, false, ℕ, ◌∷◌, [], List, none, some}
use packet_wyrm.Config.FlowModel.{Flow}
use packet_wyrm.Examples.{demo_flow}
use packet_wyrm.Preview.{
  ones_csum, wbe16, window, put, puts, reject_when, fold_carries, ipv4_header, put_ipv4,
  ipv6_header,
}
use packet_wyrm.Preview.Modifiers.{
  effective, pv_scramble, pv_mod16, pv_mod32, pv_mod48, pv_mod128, pv_lane, word_at, word_bytes,
  u48_to_mac,
}
use packet_wyrm.Preview.Build.{
  Preview, ethernet, prefix_len, clamped, outer_proto, put_outer, tunnel, put_prefix, put_inner,
  l4_header, test_header, word_sum, pseudo_sum, finish_l4, put_layers, build_preview,
}
use packet_wyrm.Preview.Ipv4.{put_ipv4_verified}

abbrev shown_flow : Flow
shown_flow = demo_flow 1 0 2 false false

-- the preview in a buffer of 256 bytes
unfoldable shown : Preview
unfolding build_preview
shown = elim (build_preview shown_flow 7 256) [
  | none ↦ record { frame_len = 0; built = 0; buf = [] }
  | some r ↦ r
]

-- a preview of 128 bytes, 74 of which are written
shown_sizes : shown.frame_len ∷ shown.built ∷ [] ≡ 128 ∷ 74 ∷ []
unfolding shown build_preview fold_carries ones_csum wbe16 window put puts reject_when ipv4_header
    put_ipv4 ipv6_header effective pv_scramble pv_mod16 pv_mod32 pv_mod48 pv_mod128 pv_lane word_at
    word_bytes u48_to_mac ethernet prefix_len clamped outer_proto put_outer tunnel put_prefix
    put_inner l4_header test_header word_sum pseudo_sum finish_l4 put_layers
shown_sizes = refl

-- the header behind one byte, 10.0.0.1 to 10.0.0.2
abbrev header_out : List ℕ
header_out =
    9 ∷ 0x45 ∷ 0 ∷ 0 ∷ 100 ∷ 0 ∷ 0 ∷ 0x40 ∷ 0 ∷ 64 ∷ 17 ∷ 0x26 ∷ 0x87 ∷ 10 ∷ 0 ∷ 0 ∷ 1 ∷ 10 ∷ 0 ∷ 0
    ∷ 2 ∷ []

header_out_is :
    put_ipv4 64 (9 ∷ []) (ipv4_header shown_flow.ipv4 100 17 0x0A000001 0x0A000002)
    ≡ some header_out
unfolding put_ipv4 puts put ipv4_header ones_csum fold_carries window wbe16
header_out_is = refl

put_ipv4_verified_example : ones_csum (window header_out 1 20) 0 ≡ 0
put_ipv4_verified_example =
    put_ipv4_verified 64 (9 ∷ []) shown_flow.ipv4 100 17 0x0A000001 0x0A000002 header_out
      header_out_is
