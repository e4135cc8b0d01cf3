-- ===== src/Compiler/OneFlow/Plan.antt =====
-- What `compile_one_flow` has found out when it starts to write: the ports, the cards, the slots.
use packet_wyrm.Base.{
  ℕ, ◌≡◌, ◌<◌, refl, some, Bool, true, false, not, ◌&&◌, ◌||◌, inl, inr, List, length, leb,
  if◌then◌else◌, Result, ok, >>=-eq-ok, ◌>>◌, ok-injective, arith, Option-cases, reject_if, Error,
}
use packet_wyrm.Config.{Config}
use packet_wyrm.Config.FlowModel.{Flow}
use packet_wyrm.Config.Resolve.{resolve_port}
use packet_wyrm.Compiler.Tables.{CardProgram, flow_table_rows}
use packet_wyrm.Compiler.Append.{card_slot}
use packet_wyrm.Compiler.OneFlow.{Slots, same_card, slot_or_error, plan_slots}

-- what the plan of a flow promises
pub record Planned (cfg : Config) (f : Flow) (cards : List CardProgram) (s : Slots) : Type 0 where
  pub tx_port : resolve_port cfg f.tx_global_port ≡ ok s.tx
  pub rx_port : resolve_port cfg f.rx_global_port ≡ ok s.rx
  pub tx_cp : CardProgram
  pub rx_cp : CardProgram
  pub tx_found : card_slot s.tx.card_id cards ≡ some tx_cp
  pub rx_found : card_slot s.rx.card_id cards ≡ some rx_cp
  pub tx_room : length tx_cp.flow_rows < flow_table_rows
  pub tx_slot : s.tx_lfid ≡ length tx_cp.flow_rows
  pub rx_slot :
      s.rx_lfid
      ≡ (if same_card s.tx s.rx || f.background then s.tx_lfid else length rx_cp.flow_rows)
  pub rx_room :
      (not (same_card s.tx s.rx)
        && not f.background
        && leb flow_table_rows (length rx_cp.flow_rows))
      ≡ false

slot_or_error_lem :
    (id : ℕ) (cs : List CardProgram) (c : CardProgram)
    → slot_or_error id cs ≡ ok c
    → card_slot id cs ≡ some c
unfolding slot_or_error
slot_or_error_lem id cs c h = elim (Option-cases (card_slot id cs)) [
  | inl e ↦ absurd (ground arith)
  | inr (d, e) ↦ ground arith
]

pub reject_if-ok {ℓ} :
    {A : Type ℓ} (b : Bool) (e : Error) (k : Result A) {a : A}
    → (reject_if b e >> k) ≡ ok a
    → (b ≡ false) × (k ≡ ok a)
reject_if-ok true e k h = cc
reject_if-ok false e k h = (refl, h)

pub plan_slots-Planned :
    (cfg : Config) (f : Flow) (cards : List CardProgram) (s : Slots)
    → plan_slots cfg f cards ≡ ok s
    → Planned cfg f cards s
unfolding plan_slots
plan_slots-Planned cfg f cards s h =
    let (tx, e1, h1) = >>=-eq-ok (resolve_port cfg f.tx_global_port) _ h in
    let (rx, e2, h2) = >>=-eq-ok (resolve_port cfg f.rx_global_port) _ h1 in
    let (tx_cp, e3, h3) = >>=-eq-ok (slot_or_error tx.card_id cards) _ h2 in
    let (rx_cp, e4, h4) = >>=-eq-ok (slot_or_error rx.card_id cards) _ h3 in
    let (e5, h5) =
      reject_if-ok (leb flow_table_rows (length tx_cp.flow_rows)) Error.no_resources _ h4 in
    let (e6, h6) =
      reject_if-ok
        (not (same_card tx rx) && not f.background && leb flow_table_rows (length rx_cp.flow_rows))
        Error.no_resources _ h5 in
    rw (← ok-injective h6) (record {
      tx_port = e1;
      rx_port = e2;
      tx_cp = tx_cp;
      rx_cp = rx_cp;
      tx_found = slot_or_error_lem tx.card_id cards tx_cp e3;
      rx_found = slot_or_error_lem rx.card_id cards rx_cp e4;
      tx_room = ground arith;
      tx_slot = refl;
      rx_slot = refl;
      rx_room = e6;
    })
