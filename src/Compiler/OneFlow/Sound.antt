-- ===== src/Compiler/OneFlow/Sound.antt =====
-- `compile_one_flow` keeps the cards well formed, only adds to them, and places its flow.
use packet_wyrm.Base.{ℕ, ◌≡◌, ◌<◌, Option, some, true, false, List, All, length, get_elem?-lt, ok}
use packet_wyrm.Config.FlowModel.{Flow}
use packet_wyrm.Compiler.Tables.{FlowRow, CardProgram, flow_table_rows}
use packet_wyrm.Compiler.Append.{card_slot, update_card, append_flow}
use packet_wyrm.Compiler.OneFlow.{classify}
use packet_wyrm.Compiler.Growth.{Grows, update_card-All, slot-update_self, update_card-Grows}
use packet_wyrm.Compiler.OneFlow.Capacity.{CardWell, append_flow-CardWell, classify-CardWell}
use packet_wyrm.Compiler.OneFlow.Placed.{
  HasRow, Checks, HasMap, HasKey, HasRow-Grows, HasMap-Grows, HasKey-Grows, append_flow-CardGrows,
  append_flow-row, classify-Gains,
}

abbrev pub AllWell : List CardProgram → Type 0
AllWell cards = All CardWell cards

same_found : {A : Type 0} (o : Option A) {c d : A} → o ≡ some c → o ≡ some d → c ≡ d
same_found o p q = cc

module _ (r : FlowRow) (cs : List CardProgram) (id : ℕ) (cp : CardProgram) (cs' : List CardProgram)
    (w : AllWell cs) (found : card_slot id cs ≡ some cp)
    (u : update_card id (append_flow r) cs ≡ ok cs') where
  pub row_added-AllWell :
      length cp.flow_rows < flow_table_rows
      → r.local_flow_id ≡ length cp.flow_rows
      → r.enable ≡ 1
      → AllWell cs'
  row_added-AllWell room at on =
      update_card-All id (append_flow r) CardWell cs cs'
        (λ c c' s h wc.
          let same : cp ≡ c = same_found _ found s in
          append_flow-CardWell r c c' wc (rw (← same) room) (rw (← same) at) on h)
        w u

  pub row_added-Grows : Grows cs cs'
  row_added-Grows =
      update_card-Grows id (append_flow r) cs cs' (λ d d' q h. append_flow-CardGrows r d d' h) u

  pub row_added-HasRow : (P : FlowRow → Type 0) → P r → HasRow P cs' id (length cp.flow_rows)
  row_added-HasRow P p =
      let (c', h, found') =
        slot-update_self id (append_flow r) cs cs' cp
          (λ d d' q k. (append_flow-CardGrows r d d' k).id) found u in
      record { card = c'; found = found'; row = r; at = append_flow-row r cp c' h; holds = p }

-- where a measured flow is received and classified
pub record Received (f : Flow) (cards : List CardProgram) (id lfid : ℕ) : Type 0 where
  pub checked : HasRow (Checks f) cards id lfid
  pub mapped : f.classify_header ≡ false → HasMap cards id f.id lfid
  pub keyed : f.classify_header ≡ true → HasKey cards id lfid

pub Received-Grows :
    (f : Flow) (cs cs' : List CardProgram) (id lfid : ℕ)
    → Grows cs cs'
    → Received f cs id lfid
    → Received f cs' id lfid
Received-Grows f cs cs' id lfid g r = record {
  checked = HasRow-Grows (Checks f) cs cs' id lfid g r.checked;
  mapped = λ e. HasMap-Grows cs cs' id f.id lfid g (r.mapped e);
  keyed = λ e. HasKey-Grows cs cs' id lfid g (r.keyed e);
}

-- The classifier entry of a flow whose checking row is there.
module _ (f : Flow) (cs : List CardProgram) (id lfid : ℕ) (cs' : List CardProgram)
    (ready : HasRow (Checks f) cs id lfid) (u : update_card id (classify f lfid) cs ≡ ok cs') where
  pub classified-Grows : Grows cs cs'
  classified-Grows =
      update_card-Grows id (classify f lfid) cs cs' (λ d d' q h. (classify-Gains f lfid d d' h).0) u

  pub classified-AllWell : AllWell cs → AllWell cs'
  classified-AllWell w =
      update_card-All id (classify f lfid) CardWell cs cs'
        (λ c c' s h wc.
          let same : ready.card ≡ c = same_found _ ready.found s in
          classify-CardWell f lfid c c' wc
            (rw (← same) (get_elem?-lt ready.card.flow_rows lfid ready.at)) h)
        w u

  pub classified-Received : Received f cs' id lfid
  classified-Received =
      let (c', h, found') =
        slot-update_self id (classify f lfid) cs cs' ready.card
          (λ d d' q k. (classify-Gains f lfid d d' k).0.id) ready.found u in
      let gains = classify-Gains f lfid ready.card c' h in
      record {
        checked = HasRow-Grows (Checks f) cs cs' id lfid classified-Grows ready;
        mapped = λ e.
            let (k, at) = gains.1 e in record { card = c'; found = found'; index = k; entry = at };
        keyed = λ e.
            let (k, at) = gains.2 e in record { card = c'; found = found'; index = k; entry = at };
      }
