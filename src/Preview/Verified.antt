-- ===== src/Preview/Verified.antt =====
-- The L4 checksum of a whole preview (sw/libpacketwyrm/src/frame_preview.c).
use packet_wyrm.Base.{ℕ, ◌+◌, ◌-◌, ◌≡◌}
use packet_wyrm.Config.FlowModel.{Flow}
use packet_wyrm.Preview.Modifiers.{Effective}
use packet_wyrm.Preview.{ones_csum, window}
use packet_wyrm.Preview.Build.{prefix_len, inner_ip_len, pseudo_sum, Preview}

-- where the L4 header starts
abbrev pub l4_at : Flow → ℕ → ℕ
l4_at f o = prefix_len f o + inner_ip_len f

-- what `build_preview-Verifies` states of a result
abbrev pub Verifies : Flow → Effective → ℕ → Preview → Type 0
Verifies f eff l4 r =
    ones_csum (window r.buf l4 (r.frame_len - l4)) (pseudo_sum f eff (r.frame_len - l4)) ≡ 0
