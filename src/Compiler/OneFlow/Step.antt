-- ===== src/Compiler/OneFlow/Step.antt =====
-- One round of the flow loop: `compile_one_flow` on well-formed cards.
use packet_wyrm.Base.{
  ℕ, ◌≡◌, ◌≢◌, refl, sym, ◌∙◌, true, false, not, ◌&&◌, Bool-cases, inl, inr, List, length, set,
  ==→eq, if◌then◌else◌, ok, >>=-eq-ok, ok-injective, arith,
}
use packet_wyrm.Config.{Config, PortRef}
use packet_wyrm.Config.FlowModel.{Flow}
use packet_wyrm.Config.Resolve.{resolve_port}
use packet_wyrm.Compiler.Tables.{FlowRow, FlowMeta, CardProgram, Program}
use packet_wyrm.Compiler.Append.{update_card, append_flow}
use packet_wyrm.Compiler.Row.{make_tx_row, make_rx_row}
use packet_wyrm.Compiler.OneFlow.{
  Slots, same_card, plan_slots, make_meta, classify, compile_rx, compile_one_flow,
}
use packet_wyrm.Compiler.Growth.{Grows, Grows-refl, Grows-trans, slot-update_ne}
use packet_wyrm.Compiler.OneFlow.Capacity.{make_tx_row_fields, make_rx_row_fields}
use packet_wyrm.Compiler.OneFlow.Plan.{Planned, plan_slots-Planned}
use packet_wyrm.Compiler.OneFlow.Placed.{HasRow, Sends, Checks, HasRow-Grows, append_flow-CardGrows}
use packet_wyrm.Compiler.OneFlow.Sound.{
  AllWell, row_added-AllWell, row_added-Grows, row_added-HasRow, Received, Received-Grows,
  classified-Grows, classified-AllWell, classified-Received,
}

-- what one round leaves for the receiving side
record Rx (f : Flow) (s : Slots) (cs cs' : List CardProgram) : Type 0 where
  well : AllWell cs'
  grows : Grows cs cs'
  received : Received f cs' s.rx.card_id s.rx_lfid

-- the last call of `compile_rx`
classified-Rx :
    (f : Flow) (s : Slots) (cs mid cs' : List CardProgram)
    → AllWell mid
    → Grows cs mid
    → HasRow (Checks f) mid s.rx.card_id s.rx_lfid
    → update_card s.rx.card_id (classify f s.rx_lfid) mid ≡ ok cs'
    → Rx f s cs cs'
classified-Rx f s cs mid cs' w g ready u = record {
  well = classified-AllWell f mid s.rx.card_id s.rx_lfid cs' ready u w;
  grows = Grows-trans cs mid cs' g (classified-Grows f mid s.rx.card_id s.rx_lfid cs' ready u);
  received = classified-Received f mid s.rx.card_id s.rx_lfid cs' ready u;
}

HasRow-slot :
    (P : FlowRow → Type 0) (cs : List CardProgram) (id : ℕ) {a b : ℕ}
    → a ≡ b
    → HasRow P cs id a
    → HasRow P cs id b
HasRow-slot P cs id e h = rw (← e) h

ids_apart : (s : Slots) → same_card s.tx s.rx ≡ false → s.tx.card_id ≢ s.rx.card_id
ids_apart s cross e = ground arith

module _ (cfg : Config) (f : Flow) (s : Slots) (before cs : List CardProgram) (w : AllWell before)
    (plan : Planned cfg f before s) (measured : f.background ≡ false) where
  tx_row : FlowRow
  tx_row = make_tx_row s.tx s.tx_lfid (same_card s.tx s.rx) f

  -- Received on the card that transmits: the one row serves both.
  compile_rx_same :
      (u : update_card s.tx.card_id (append_flow tx_row) before ≡ ok cs) (wc : AllWell cs)
      (same : same_card s.tx s.rx ≡ true) (cs' : List CardProgram)
      → compile_rx f s tx_row cs ≡ ok cs'
      → Rx f s cs cs'
  unfolding compile_rx tx_row
  compile_rx_same u wc same cs' h =
      let (local, on, global, tx_on, check) =
        make_tx_row_fields s.tx s.tx_lfid (same_card s.tx s.rx) f in
      let there =
        row_added-HasRow tx_row before s.tx.card_id plan.tx_cp cs w plan.tx_found u (Checks f)
          (global, ground arith) in
      let ids : s.tx.card_id ≡ s.rx.card_id = ==→eq _ _ same in
      let slots : length plan.tx_cp.flow_rows ≡ s.rx_lfid =
        ground (arith, plan.tx_slot, plan.rx_slot) in
      classified-Rx f s cs cs cs' wc (Grows-refl cs) (rw (← ids, ← slots) there) (ground arith)

  -- Received on another card: a second row, in a slot of that card.
  compile_rx_cross :
      (u : update_card s.tx.card_id (append_flow tx_row) before ≡ ok cs) (wc : AllWell cs)
      (cross : same_card s.tx s.rx ≡ false) (cs' : List CardProgram)
      → compile_rx f s tx_row cs ≡ ok cs'
      → Rx f s cs cs'
  unfolding compile_rx tx_row
  compile_rx_cross u wc cross cs' h =
      let (_, on, global, _, _) = make_tx_row_fields s.tx s.tx_lfid (same_card s.tx s.rx) f in
      let rx_row = make_rx_row s.rx s.rx_lfid tx_row in
      let (at, on', global', check, _) = make_rx_row_fields s.rx s.rx_lfid tx_row in
      let (mid, um, uc) =
        >>=-eq-ok (update_card s.rx.card_id (append_flow rx_row) cs)
          (update_card s.rx.card_id (classify f s.rx_lfid)) (ground arith) in
      let ne : s.rx.card_id ≢ s.tx.card_id = λ e. ids_apart s cross (sym e) in
      let kept =
        slot-update_ne s.tx.card_id (append_flow tx_row) before cs s.rx.card_id
          (λ d d' q k. (append_flow-CardGrows tx_row d d' k).id) ne u in
      let found = kept ∙ plan.rx_found in
      let slot : length plan.rx_cp.flow_rows ≡ s.rx_lfid = ground (arith, plan.rx_slot) in
      let wm =
        row_added-AllWell rx_row cs s.rx.card_id plan.rx_cp mid wc found um
          (ground (arith, plan.rx_room)) (at ∙ sym slot) (on' ∙ on) in
      let gm = row_added-Grows rx_row cs s.rx.card_id plan.rx_cp mid wc found um in
      let there =
        row_added-HasRow rx_row cs s.rx.card_id plan.rx_cp mid wc found um (Checks f)
          (global' ∙ global, check) in
      classified-Rx f s cs mid cs' wm gm (HasRow-slot (Checks f) mid s.rx.card_id slot there) uc

  compile_rx-Rx :
      (u : update_card s.tx.card_id (append_flow tx_row) before ≡ ok cs) (wc : AllWell cs)
      (cs' : List CardProgram)
      → compile_rx f s tx_row cs ≡ ok cs'
      → Rx f s cs cs'
  compile_rx-Rx u wc cs' h = elim (Bool-cases (same_card s.tx s.rx)) [
    | inl same ↦ compile_rx_same u wc same cs' h
    | inr cross ↦ compile_rx_cross u wc cross cs' h
  ]

-- where a compiled flow stands, as its entry of the metadata says
pub record Placed (cfg : Config) (f : Flow) (cards : List CardProgram) (m : FlowMeta) : Type 0 where
  pub flow_id : m.global_flow_id ≡ f.id
  pub tx : PortRef
  pub tx_port : resolve_port cfg f.tx_global_port ≡ ok tx
  pub tx_card : m.tx_card_id ≡ tx.card_id
  pub rx : PortRef
  pub rx_port : resolve_port cfg f.rx_global_port ≡ ok rx
  pub rx_card : m.rx_card_id ≡ rx.card_id
  pub sent : HasRow (Sends f) cards m.tx_card_id m.tx_local_flow_id
  pub counts : m.rx_slot_valid ≡ not f.background
  pub latency : m.latency_valid ≡ (same_card tx rx && not f.background)
  pub received : f.background ≡ false → Received f cards m.rx_card_id m.rx_local_flow_id

pub Placed-Grows :
    (cfg : Config) (f : Flow) (cs cs' : List CardProgram) (m : FlowMeta)
    → Grows cs cs'
    → Placed cfg f cs m
    → Placed cfg f cs' m
Placed-Grows cfg f cs cs' m g p = record {
  flow_id = p.flow_id;
  tx = p.tx;
  tx_port = p.tx_port;
  tx_card = p.tx_card;
  rx = p.rx;
  rx_port = p.rx_port;
  rx_card = p.rx_card;
  sent = HasRow-Grows (Sends f) cs cs' m.tx_card_id m.tx_local_flow_id g p.sent;
  counts = p.counts;
  latency = p.latency;
  received = λ e. Received-Grows f cs cs' m.rx_card_id m.rx_local_flow_id g (p.received e);
}

-- what a round makes of a program
pub record Stepped (cfg : Config) (f : Flow) (i : ℕ) (out out' : Program) : Type 0 where
  pub well : AllWell out'.per_card
  pub grows : Grows out.per_card out'.per_card
  pub meta : FlowMeta
  pub wrote : out'.flow_meta ≡ set out.flow_meta i meta
  pub placed : Placed cfg f out'.per_card meta

compile_rx-cases :
    (cfg : Config) (f : Flow) (s : Slots) (before cs : List CardProgram) (cs' : List CardProgram)
    → AllWell before
    → Planned cfg f before s
    → update_card s.tx.card_id
        (append_flow (make_tx_row s.tx s.tx_lfid (same_card s.tx s.rx) f))
        before
      ≡ ok cs
    → AllWell cs
    → (if f.background
        then ok cs
        else compile_rx f s (make_tx_row s.tx s.tx_lfid (same_card s.tx s.rx) f) cs)
      ≡ ok cs'
    → AllWell cs' × Grows cs cs' × (f.background ≡ false → Received f cs' s.rx.card_id s.rx_lfid)
unfolding tx_row
compile_rx-cases cfg f s before cs cs' w plan u wc h = elim (Bool-cases f.background) [
  | inl quiet ↦
      let e : cs ≡ cs' = ok-injective (ground arith) in
      (rw (← e) wc, rw (← e) (Grows-refl cs), λ measured. cc)
  | inr measured ↦
      let rx = compile_rx-Rx cfg f s before cs w plan measured u wc cs' (ground arith) in
      (rx.well, rx.grows, λ _. rx.received)
]

pub compile_one_flow-Stepped :
    (cfg : Config) (f : Flow) (i : ℕ) (out out' : Program)
    → AllWell out.per_card
    → compile_one_flow cfg f i out ≡ ok out'
    → Stepped cfg f i out out'
unfolding compile_one_flow make_meta
compile_one_flow-Stepped cfg f i out out' w h =
    let (s, planned, h1) = >>=-eq-ok (plan_slots cfg f out.per_card) _ h in
    let plan = plan_slots-Planned cfg f out.per_card s planned in
    let row = make_tx_row s.tx s.tx_lfid (same_card s.tx s.rx) f in
    let (cs, u, h2) = >>=-eq-ok (update_card s.tx.card_id (append_flow row) out.per_card) _ h1 in
    let (cs', r, h3) = >>=-eq-ok (if f.background then ok cs else compile_rx f s row cs) _ h2 in
    let (at, on, global, sends, _) = make_tx_row_fields s.tx s.tx_lfid (same_card s.tx s.rx) f in
    let slot : length plan.tx_cp.flow_rows ≡ s.tx_lfid = sym plan.tx_slot in
    let wc =
      row_added-AllWell row out.per_card s.tx.card_id plan.tx_cp cs w plan.tx_found u plan.tx_room
        (at ∙ plan.tx_slot) on in
    let g = row_added-Grows row out.per_card s.tx.card_id plan.tx_cp cs w plan.tx_found u in
    let sent =
      row_added-HasRow row out.per_card s.tx.card_id plan.tx_cp cs w plan.tx_found u (Sends f)
        (global, sends) in
    let (well, g', received) = compile_rx-cases cfg f s out.per_card cs cs' w plan u wc r in
    rw (← ok-injective h3) (record {
      well = well;
      grows = Grows-trans out.per_card cs cs' g g';
      meta = make_meta f s;
      wrote = refl;
      placed = record {
        flow_id = refl;
        tx = s.tx;
        tx_port = plan.tx_port;
        tx_card = refl;
        rx = s.rx;
        rx_port = plan.rx_port;
        rx_card = refl;
        sent =
            HasRow-Grows (Sends f) cs cs' s.tx.card_id s.tx_lfid g'
              (HasRow-slot (Sends f) cs s.tx.card_id slot sent);
        counts = refl;
        latency = refl;
        received = received;
      };
    })
