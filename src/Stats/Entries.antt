-- ===== src/Stats/Entries.antt =====
-- What `pw_stats_aggregate` writes, entry by entry.
use packet_wyrm.Base.{
  ℕ, zero, suc, ◌+◌, ◌*◌, ◌/◌, ◌≡◌, ◌≤◌, ◌<◌, ◌⊎◌, refl, ap, ◌∙◌, some, false, not, List, [], ◌∷◌,
  length, get_elem?, if◌then◌else◌, arith, ok, err, Error,
}
use packet_wyrm.Compiler.Tables.{FlowMeta}
use packet_wyrm.Backend.{FlowStats}
use packet_wyrm.Stats.{GlobalFlowStats, size_max, sizeof_out, flow_entry, fill, aggregate}

-- the entry of one flow, from its pair of counters
pub record IsEntry (m : FlowMeta) (i : ℕ) (ss : List FlowStats) (out : List GlobalFlowStats)
    : Type 0 where
  pub tx_s : FlowStats
  pub rx_s : FlowStats
  pub tx_at : get_elem? ss (i * 2) ≡ some tx_s
  pub rx_at : get_elem? ss (i * 2 + 1) ≡ some rx_s
  pub entry : get_elem? out i ≡ some (flow_entry m tx_s rx_s)

pair-shift :
    (i : ℕ) (a b : FlowStats) (ss : List FlowStats)
    → (get_elem? (a ∷ b ∷ ss) (suc i * 2) ≡ get_elem? ss (i * 2))
      × (get_elem? (a ∷ b ∷ ss) (suc i * 2 + 1) ≡ get_elem? ss (i * 2 + 1))
pair-shift i a b ss =
    let e : suc i * 2 ≡ suc (suc (i * 2)) = omega arith in
    let e' : suc i * 2 + 1 ≡ suc (suc (i * 2 + 1)) = omega arith in
    (ap (get_elem? (a ∷ b ∷ ss)) e, ap (get_elem? (a ∷ b ∷ ss)) e')

fill-IsEntry :
    (ms : List FlowMeta) (ss : List FlowStats) (out : List GlobalFlowStats) (i : ℕ) (m : FlowMeta)
    → length ms * 2 ≤ length ss
    → length ms ≤ length out
    → get_elem? ms i ≡ some m
    → IsEntry m i ss (fill ms ss out)
unfolding fill
fill-IsEntry [] ss out i m hs ho at = cc
fill-IsEntry (n ∷ ms) [] out i m hs ho at = absurd (omega arith)
fill-IsEntry (n ∷ ms) (a ∷ []) out i m hs ho at = absurd (omega arith)
fill-IsEntry (n ∷ ms) (a ∷ b ∷ ss) [] i m hs ho at = absurd (omega arith)
fill-IsEntry (n ∷ ms) (a ∷ b ∷ ss) (o ∷ out) zero m hs ho at =
    let e : n ≡ m = cc in
    record { tx_s = a; rx_s = b; tx_at = refl; rx_at = refl; entry = rw e refl }
fill-IsEntry (n ∷ ms) (a ∷ b ∷ ss) (o ∷ out) (suc i) m hs ho at =
    let rest = fill-IsEntry ms ss out i m (omega arith) (omega arith) at in
    let (even, odd) = pair-shift i a b ss in
    record {
      tx_s = rest.tx_s;
      rx_s = rest.rx_s;
      tx_at = even ∙ rest.tx_at;
      rx_at = odd ∙ rest.rx_at;
      entry = rest.entry;
    }

fill-length :
    (ms : List FlowMeta) (ss : List FlowStats) (out : List GlobalFlowStats)
    → length (fill ms ss out) ≡ length out
unfolding fill
fill-length [] ss out = refl
fill-length (m ∷ ms) [] out = refl
fill-length (m ∷ ms) (a ∷ []) out = refl
fill-length (m ∷ ms) (a ∷ b ∷ ss) [] = refl
fill-length (m ∷ ms) (a ∷ b ∷ ss) (o ∷ out) = omega (arith, fill-length ms ss out)

fill-beyond :
    (ms : List FlowMeta) (ss : List FlowStats) (out : List GlobalFlowStats) (j : ℕ)
    → length ms ≤ j
    → get_elem? (fill ms ss out) j ≡ get_elem? out j
unfolding fill
fill-beyond [] ss out j h = refl
fill-beyond (m ∷ ms) [] out j h = refl
fill-beyond (m ∷ ms) (a ∷ []) out j h = refl
fill-beyond (m ∷ ms) (a ∷ b ∷ ss) [] j h = refl
fill-beyond (m ∷ ms) (a ∷ b ∷ ss) (o ∷ out) zero h = absurd (omega arith)
fill-beyond (m ∷ ms) (a ∷ b ∷ ss) (o ∷ out) (suc j) h = fill-beyond ms ss out j (omega arith)

-- what the aggregation makes of the output array
pub record Aggregated (ms : List FlowMeta) (ss : List FlowStats) (out out' : List GlobalFlowStats)
    : Type 0 where
  pub entries : (i : ℕ) (m : FlowMeta) → get_elem? ms i ≡ some m → IsEntry m i ss out'
  pub size : length out' ≡ length out
  pub beyond : (j : ℕ) → length ms ≤ j → get_elem? out' j ≡ get_elem? out j

-- When the output array has an entry and the counter array a pair for each flow, and there are no
-- more flows than the host can address, the aggregation succeeds: entry `i` is made from the
-- metadata and the pair of counters of flow `i`, and nothing behind the flows is written.
pub aggregate-ok :
    (ms : List FlowMeta) (ss : List FlowStats) (out : List GlobalFlowStats)
    → length ms ≤ size_max / sizeof_out
    → length ms ≤ length out
    → length ms * 2 ≤ length ss
    → (out' : List GlobalFlowStats) × (aggregate ms ss out ≡ ok out') × Aggregated ms ss out out'
unfolding aggregate
aggregate-ok ms ss out small ho hs = (
  fill ms ss out,
  ground arith,
  record {
    entries = λ i m at. fill-IsEntry ms ss out i m hs ho at;
    size = fill-length ms ss out;
    beyond = fill-beyond ms ss out;
  },
)

-- When an array is too short for the flows, the aggregation reports PW_E_INVAL.
pub aggregate-short :
    (ms : List FlowMeta) (ss : List FlowStats) (out : List GlobalFlowStats)
    → (length out < length ms) ⊎ (length ss < length ms * 2)
    → aggregate ms ss out ≡ err Error.inval
unfolding aggregate
aggregate-short ms ss out h = ground arith

-- The entry of a flow without a receiving slot counts transmission only, and claims no latency;
-- that of any other flow reports what its checker counted, and marks a flow whose latency is not
-- meaningful as crossing cards.
pub flow_entry_lem :
    (m : FlowMeta) (tx_s rx_s : FlowStats)
    → let e = flow_entry m tx_s rx_s in
      (e.global_flow_id ≡ m.global_flow_id)
      × (e.tx_frames ≡ tx_s.tx_frames)
      × (e.rx_frames ≡ (if m.rx_slot_valid then rx_s.rx_frames else 0))
      × (e.lost_est ≡ (if m.rx_slot_valid then rx_s.lost_packets_estimated else 0))
      × (e.sample_count ≡ (if m.rx_slot_valid then rx_s.sample_count else 0))
      × (e.latency_valid ≡ m.rx_slot_valid)
      × (e.cross_card ≡ (if m.rx_slot_valid then not m.latency_valid else false))
unfolding flow_entry
flow_entry_lem m tx_s rx_s = ground arith
