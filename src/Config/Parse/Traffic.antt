-- ===== src/Config/Parse/Traffic.antt =====
-- The blocks `traffic` and `measurements` of a flow: the middle of `parse_flow` in
-- sw/libpacketwyrm/src/config.c.
use packet_wyrm.Base.{
  ℕ, Bool, true, false, not, ◌&&◌, ◌||◌, Option, none, some, List, [], ◌∷◌, ltb, ◌==◌,
  if◌then◌else◌, Text, codes, Result, ok, err, Error, ◌>>=◌, ◌>>◌, reject_if,
}
use packet_wyrm.Yaml.{Node, map_get}
use packet_wyrm.Scalar.{parse_bool, parse_u16, parse_u32, parse_u64}
use packet_wyrm.Config.FlowModel.{
  FlowTraffic, FlowMeas, template_test, template_l4raw, template_l3raw, template_l2raw,
}
use packet_wyrm.Config.Parse.Fields.{
  req_map, get_scalar, accept, required_field, optional_field, one_of, is_absent,
}

-- `frame_len`, or the range of frame lengths
pub record FrameLengths : Type 0 where
  pub fixed_set : Bool
  pub fixed : ℕ
  pub least : ℕ
  pub most : ℕ
  pub stride : ℕ

unfoldable pub parse_range : Node → Result FrameLengths
parse_range tr = do
  least ← required_field tr (codes "frame_len_min") parse_u16 Error.parse
  most ← required_field tr (codes "frame_len_max") parse_u16 Error.parse
  stride ← optional_field tr (codes "frame_len_step") parse_u16 Error.parse 1
  ok (record { fixed_set = false; fixed = 0; least = least; most = most; stride = stride })

unfoldable pub parse_lengths : Node → Result FrameLengths
unfolding parse_range
parse_lengths tr = elim (get_scalar tr (codes "frame_len") false) [
  | err code ↦ err code
  | ok none ↦ parse_range tr
  | ok (some s) ↦ do
    fixed ← accept parse_u16 Error.parse s
    ok (record { fixed_set = true; fixed = fixed; least = 0; most = 0; stride = 0 })
]

-- the frame-length validation
unfoldable pub check_lengths : Node → FrameLengths → Result (Unit {0})
check_lengths tr l = do
  reject_if
      (l.fixed_set
        && (not (is_absent (map_get tr (codes "frame_len_min")))
            || (not (is_absent (map_get tr (codes "frame_len_max")))
                || not (is_absent (map_get tr (codes "frame_len_step"))))))
      Error.inval
  reject_if (ltb flo 60 || ltb 1518 fhi) Error.inval
  reject_if (ltb fhi flo) Error.inval
  reject_if (not l.fixed_set && l.stride == 0) Error.inval
  where
    flo : ℕ
    flo = if l.fixed_set then l.fixed else l.least

    fhi : ℕ
    fhi = if l.fixed_set then l.fixed else l.most

-- exactly one of the two rates
unfoldable pub check_rates : ℕ → ℕ → Result (Unit {0})
check_rates bps pps =
    reject_if ((bps == 0 && pps == 0) || (not (bps == 0) && not (pps == 0))) Error.inval

abbrev pub payloads : List (Text × ℕ)
payloads = (codes "zero", 0) ∷ (codes "increment", 1) ∷ (codes "prbs", 2) ∷ (codes "random", 3) ∷ []

abbrev pub templates : List (Text × ℕ)
templates =
    (codes "test", template_test)
    ∷ (codes "raw", template_l4raw)
    ∷ (codes "ip", template_l3raw)
    ∷ (codes "eth", template_l2raw)
    ∷ []

-- what follows the checks of lengths and rates
pub record Pattern : Type 0 where
  pub burst_size : ℕ
  pub burst_gap_ticks : ℕ
  pub payload_mode : ℕ
  pub payload_seed : ℕ
  pub insert_sequence : Bool
  pub insert_timestamp : Bool
  pub frame_template : ℕ

unfoldable pub parse_pattern : Node → Result Pattern
parse_pattern tr = do
  size ← optional_field tr (codes "burst_size") parse_u32 Error.parse 1
  gap ← optional_field tr (codes "burst_gap_ticks") parse_u32 Error.parse 0
  payload ← optional_field tr (codes "payload") (one_of payloads) Error.inval 1
  seed ← optional_field tr (codes "payload_seed") parse_u32 Error.parse 0
  seq ← optional_field tr (codes "insert_sequence") parse_bool Error.parse true
  ts ← optional_field tr (codes "insert_timestamp") parse_bool Error.parse true
  template ← optional_field tr (codes "frame_template") (one_of templates) Error.inval template_test
  ok (record {
    burst_size = size;
    burst_gap_ticks = gap;
    payload_mode = payload;
    payload_seed = seed;
    insert_sequence = seq;
    insert_timestamp = ts;
    frame_template = template;
  })

abbrev pub traffic_of : FrameLengths → ℕ → ℕ → Pattern → FlowTraffic
traffic_of l bps pps p = record {
  frame_template = p.frame_template;
  frame_len_fixed_set = l.fixed_set;
  frame_len_fixed = l.fixed;
  frame_len_min = l.least;
  frame_len_max = l.most;
  frame_len_step = l.stride;
  rate_bps = bps;
  rate_pps = pps;
  burst_size = p.burst_size;
  burst_gap_ticks = p.burst_gap_ticks;
  payload_mode = p.payload_mode;
  payload_seed = p.payload_seed;
  insert_sequence = p.insert_sequence;
  insert_timestamp = p.insert_timestamp;
}

-- the block `traffic`
unfoldable pub parse_traffic : Option Node → Result FlowTraffic
unfolding parse_lengths check_lengths check_rates parse_pattern
parse_traffic none = err Error.missing_field
parse_traffic (some node) = do
  tr ← req_map (some node)
  lengths ← parse_lengths tr
  bps ← optional_field tr (codes "rate_bps") parse_u64 Error.parse 0
  pps ← optional_field tr (codes "rate_pps") parse_u64 Error.parse 0
  check_lengths tr lengths
  check_rates bps pps
  pattern_ ← parse_pattern tr
  ok (traffic_of lengths bps pps pattern_)

abbrev pub no_meas : FlowMeas
no_meas = record { loss = false; latency = false; jitter = false }

-- the `MFLAG` lines of `parse_flow`
unfoldable pub parse_meas : Node → Result FlowMeas
parse_meas meas = do
  loss ← optional_field meas (codes "loss") parse_bool Error.parse false
  latency ← optional_field meas (codes "latency") parse_bool Error.parse false
  jitter ← optional_field meas (codes "jitter") parse_bool Error.parse false
  ok (record { loss = loss; latency = latency; jitter = jitter })
