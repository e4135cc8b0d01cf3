-- ===== src/Compiler/Apart.antt =====
-- No two flows share a slot that counts.
use packet_wyrm.Base.{
  ℕ, zero, suc, ◌≡◌, ◌≢◌, ◌<◌, refl, sym, ap, ◌∙◌, Option, some, false, List, [], ◌∷◌, All,
  get_elem?, ok, arith,
}
use mathlib.Core.Path.{subst}
use packet_wyrm.Config.{Config}
use packet_wyrm.Config.FlowModel.{Flow}
use packet_wyrm.Config.Valid.{AllPairs, FlowsDiffer}
use packet_wyrm.Compiler.{flow_compile}
use packet_wyrm.Compiler.Tables.{FlowRow, FlowMeta, CardProgram, Program}
use packet_wyrm.Compiler.Append.{card_slot}
use packet_wyrm.Compiler.OneFlow.Placed.{HasRow, Checks, Sends}
use packet_wyrm.Compiler.OneFlow.Step.{Placed}
use packet_wyrm.Compiler.Flows.{flow_compile-ok}

same_some {ℓ} : {A : Type ℓ} (o : Option A) {a b : A} → o ≡ some a → o ≡ some b → a ≡ b
same_some o p q = cc

All-at {ℓ κ} :
    {A : Type ℓ} (P : A → Type κ) (xs : List A) (j : ℕ) {v : A}
    → All P xs
    → get_elem? xs j ≡ some v
    → P v
All-at P [] j h e = cc
All-at P (x ∷ xs) zero h e = rw (← same_some (some x) refl e) h.0
All-at P (x ∷ xs) (suc j) h e = All-at P xs j h.1 e

ids-differ :
    (fs : List Flow) (i j : ℕ) {f g : Flow}
    → AllPairs FlowsDiffer fs
    → i < j
    → get_elem? fs i ≡ some f
    → get_elem? fs j ≡ some g
    → f.id ≢ g.id
ids-differ [] i j h lt ei ej = cc
ids-differ (x ∷ xs) i zero h lt ei ej = absurd (omega arith)
ids-differ (x ∷ xs) zero (suc j) {f} {g} h lt ei ej =
    rw (← same_some (some x) refl ei) (All-at (λ g. x.id ≢ g.id) xs j h.0 ej)
ids-differ (x ∷ xs) (suc i) (suc j) h lt ei ej = ids-differ xs i j h.1 (omega arith) ei ej

-- One slot holds one row, so one flow.
one_row :
    (P Q : FlowRow → Type 0) (a b : ℕ)
    → ((r : FlowRow) → P r → r.global_flow_id ≡ a)
    → ((r : FlowRow) → Q r → r.global_flow_id ≡ b)
    → (cards : List CardProgram) (id id' slot slot' : ℕ) → id ≡ id'
    → slot ≡ slot'
    → HasRow P cards id slot
    → HasRow Q cards id' slot'
    → a ≡ b
one_row P Q a b pa qb cards id id' slot slot' e1 e2 p q =
    let card : p.card ≡ q.card = same_some _ p.found (ap (λ i. card_slot i cards) e1 ∙ q.found) in
    let row : p.row ≡ q.row = same_some _ p.at (
      ap (λ (c : CardProgram). get_elem? c.flow_rows slot) card
      ∙ ap (λ s. get_elem? q.card.flow_rows s) e2
      ∙ q.at) in
    sym (pa p.row p.holds) ∙ ap (λ (r : FlowRow). r.global_flow_id) row ∙ qb q.row q.holds

module _ (cfg : Config) (out : Program) (compiled : flow_compile cfg ≡ ok out) (i j : ℕ)
    (f g : Flow) (m n : FlowMeta) (order : i < j) (at_i : get_elem? cfg.flows i ≡ some f)
    (at_j : get_elem? cfg.flows j ≡ some g) (meta_i : get_elem? out.flow_meta i ≡ some m)
    (meta_j : get_elem? out.flow_meta j ≡ some n) where
  apart : f.id ≢ g.id
  apart = ids-differ cfg.flows i j (flow_compile-ok cfg out compiled).0.flow_ids order at_i at_j

  Placed-i : Placed cfg f out.per_card m
  Placed-i =
      let e = (flow_compile-ok cfg out compiled).1.entries i f at_i in
      subst (Placed cfg f out.per_card) (same_some _ e.at meta_i) e.placed

  Placed-j : Placed cfg g out.per_card n
  Placed-j =
      let e = (flow_compile-ok cfg out compiled).1.entries j g at_j in
      subst (Placed cfg g out.per_card) (same_some _ e.at meta_j) e.placed

  -- In a compiled program two flows never transmit from one slot of one card.
  pub flow_compile-tx_apart :
      ¬ ((m.tx_card_id ≡ n.tx_card_id) × (m.tx_local_flow_id ≡ n.tx_local_flow_id))
  flow_compile-tx_apart (card, slot) = apart (
      one_row (Sends f) (Sends g) f.id g.id (λ r p. p.0) (λ r p. p.0) out.per_card m.tx_card_id
        n.tx_card_id m.tx_local_flow_id n.tx_local_flow_id card slot Placed-i.sent Placed-j.sent)

  -- In a compiled program two flows that are not background flows are never checked in one slot of
  -- one card, so their counters are never mixed.
  pub flow_compile-rx_apart :
      f.background ≡ false
      → g.background ≡ false
      → ¬ ((m.rx_card_id ≡ n.rx_card_id) × (m.rx_local_flow_id ≡ n.rx_local_flow_id))
  flow_compile-rx_apart bf bg (card, slot) = apart (
      one_row (Checks f) (Checks g) f.id g.id (λ r p. p.0) (λ r p. p.0) out.per_card m.rx_card_id
        n.rx_card_id m.rx_local_flow_id n.rx_local_flow_id card slot (Placed-i.received bf).checked
        (Placed-j.received bg).checked)
