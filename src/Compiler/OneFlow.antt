-- ===== src/Compiler/OneFlow.antt =====
-- `compile_one_flow` of sw/libpacketwyrm/src/flow_compiler.c. What an error leaves half built is
-- dropped, as the callers drop the whole program then.
pub mod Capacity
pub mod Plan
pub mod Placed
pub mod Sound
pub mod Step
use packet_wyrm.Base.{
  ℕ, ◌+◌, Option, none, some, Bool, not, ◌&&◌, ◌||◌, List, [], length, set, ◌==◌, leb,
  if◌then◌else◌, Result, ok, err, Error, ◌>>=◌, ◌>>◌, reject_if,
}
use packet_wyrm.Config.{Config, PortRef}
use packet_wyrm.Config.FlowModel.{Flow}
use packet_wyrm.Config.Resolve.{resolve_port}
use packet_wyrm.Compiler.Tables.{
  FlowRow, FlowMeta, CardProgram, Program, flow_table_rows, flowid_map_depth,
}
use packet_wyrm.Compiler.Append.{card_slot, update_card, append_flow, append_map}
use packet_wyrm.Compiler.Hash.{compile_header_classify}
use packet_wyrm.Compiler.Row.{make_tx_row, make_rx_row}

-- `card_slot(…)`, and PW_E_UNKNOWN_CARD on NULL
unfoldable pub slot_or_error : ℕ → List CardProgram → Result CardProgram
unfolding card_slot
slot_or_error id cards = elim (card_slot id cards) [
  | some cp ↦ ok cp
  | none ↦ err Error.unknown_card
]

-- where a flow goes: its ports, and its slots on the two cards
pub record Slots : Type 0 where
  pub tx : PortRef
  pub rx : PortRef
  pub tx_lfid : ℕ
  pub rx_lfid : ℕ

abbrev pub same_card : PortRef → PortRef → Bool
same_card tx rx = tx.card_id == rx.card_id

-- the ports, the capacity tests and the slot numbers, up to the building of the row
unfoldable pub plan_slots : Config → Flow → List CardProgram → Result Slots
unfolding slot_or_error
plan_slots cfg f cards = do
  tx ← resolve_port cfg f.tx_global_port
  rx ← resolve_port cfg f.rx_global_port
  tx_cp ← slot_or_error tx.card_id cards
  rx_cp ← slot_or_error rx.card_id cards
  let tx_rows = length tx_cp.flow_rows
  let rx_rows = length rx_cp.flow_rows
  reject_if (leb flow_table_rows tx_rows) Error.no_resources
  reject_if (not (same_card tx rx) && not f.background && leb flow_table_rows rx_rows)
      Error.no_resources
  ok (record {
    tx = tx;
    rx = rx;
    tx_lfid = tx_rows;
    rx_lfid = if same_card tx rx || f.background then tx_rows else rx_rows;
  })

unfoldable pub make_meta : Flow → Slots → FlowMeta
make_meta f s = record {
  global_flow_id = f.id;
  tx_card_id = s.tx.card_id;
  rx_card_id = s.rx.card_id;
  tx_local_flow_id = s.tx_lfid;
  rx_local_flow_id = s.rx_lfid;
  latency_valid = same_card s.tx s.rx && not f.background;
  rx_slot_valid = not f.background;
}

-- the classifier entry of a measured flow: the hash table or the flow-id map
unfoldable pub classify : Flow → ℕ → CardProgram → Result CardProgram
unfolding compile_header_classify append_map
classify f rx_lfid cp =
    if f.classify_header
    then compile_header_classify f rx_lfid cp
    else if leb flowid_map_depth f.id
    then err Error.inval
    else append_map f.id rx_lfid cp

-- what is written to the receiving card
unfoldable pub compile_rx : Flow → Slots → FlowRow → List CardProgram → Result (List CardProgram)
unfolding append_flow classify make_rx_row update_card
compile_rx f s tx_row cards =
    (if same_card s.tx s.rx
      then ok cards
      else update_card s.rx.card_id (append_flow (make_rx_row s.rx s.rx_lfid tx_row)) cards)
    >>= update_card s.rx.card_id (classify f s.rx_lfid)

unfoldable pub compile_one_flow : Config → Flow → ℕ → Program → Result Program
unfolding plan_slots make_tx_row append_flow make_meta compile_rx update_card
compile_one_flow cfg f flow_index out = do
  s ← plan_slots cfg f out.per_card
  let tx_row = make_tx_row s.tx s.tx_lfid (same_card s.tx s.rx) f
  cards ← update_card s.tx.card_id (append_flow tx_row) out.per_card
  cards' ← if f.background then ok cards else compile_rx f s tx_row cards
  ok (record { per_card = cards'; flow_meta = set out.flow_meta flow_index (make_meta f s) })
