-- ===== src/Pipeline.antt =====
-- From a configuration to a programmed card: `pw_flow_compile` hands each card's program to
-- `pw_program_card_tables_diag`.
use packet_wyrm.Base.{
  ℕ, ◌≡◌, ◌≤◌, ◌<◌, some, Option-cases, inl, inr, List, [], ◌∷◌, All, All-map_of, length, true, not,
  ◌&&◌, arith, ok, >>=-eq-ok, ok-injective,
}
use native.Mathlib.Decide.{ℕ_discrete}
use packet_wyrm.Config.{Config, PortRef}
use packet_wyrm.Config.FlowModel.{Flow}
use packet_wyrm.Config.Resolve.{resolve_port}
use packet_wyrm.Config.Validate.{validate}
use packet_wyrm.Compiler.{compile_flows, fresh_program, compile_tables, flow_compile}
use packet_wyrm.Compiler.Tables.{HashEntry, CardProgram, Program, flow_table_rows, hash_depth}
use packet_wyrm.Compiler.Append.{card_slot}
use packet_wyrm.Compiler.Rules.{compile_punt_rules, compile_forward_rules}
use packet_wyrm.Compiler.Seed.{assign_buckets, assign_all}
use packet_wyrm.Compiler.Seed.Buckets.{assign_buckets-ok}
use packet_wyrm.Stats.{GlobalFlowStats}
use packet_wyrm.Compiler.OneFlow.{same_card}
use packet_wyrm.Compiler.OneFlow.Sound.{AllWell}
use packet_wyrm.Compiler.Passes.{slot-All}
use packet_wyrm.Compiler.Flows.{flow_compile-ok}
use packet_wyrm.Programming.{program_card_tables}
use packet_wyrm.Programming.Fits.{Fits, precheck_iff}
use packet_wyrm.Programming.Board.{Board, board_ops, Programmed, program_card_tables-board}

-- every bucket index of the card is below 128
abbrev InTable : CardProgram → Type 0
InTable cp = All (λ (e : HashEntry). e.index < hash_depth) cp.hash_entries

nothing_assigned :
    (cfg : Config) (cp cp' : CardProgram)
    → length cp.hash_entries ≡ 0
    → assign_buckets cfg cp ≡ ok cp'
    → cp ≡ cp'
unfolding assign_buckets
nothing_assigned cfg cp cp' e h = ok-injective (ground arith)

assigned-InTable :
    (cfg : Config) (cp cp' : CardProgram) → assign_buckets cfg cp ≡ ok cp' → InTable cp'
assigned-InTable cfg cp cp' h = elim (ℕ_discrete (length cp.hash_entries) 0) [
  | yes empty ↦ rw (← nothing_assigned cfg cp cp' empty h) (no_entries cp.hash_entries empty)
  | no used ↦ (assign_buckets-ok cfg cp cp' used h).table.in_range
]
  where
    no_entries :
        (es : List HashEntry) → length es ≡ 0 → All (λ (e : HashEntry). e.index < hash_depth) es
    no_entries [] e = tt
    no_entries (x ∷ es) e = absurd (omega arith)

assign_all-InTable :
    (cfg : Config) (cs cs' : List CardProgram) → assign_all cfg cs ≡ ok cs' → All InTable cs'
unfolding assign_all
assign_all-InTable cfg [] cs' h = rw (← ok-injective h) tt
assign_all-InTable cfg (d ∷ cs) cs' h =
    let (d', hd, h1) = >>=-eq-ok (assign_buckets cfg d) _ h in
    let (ds, hs, h2) = >>=-eq-ok (assign_all cfg cs) _ h1 in
    rw (← ok-injective h2) (assigned-InTable cfg d d' hd, assign_all-InTable cfg cs ds hs)

compile_tables-InTable :
    (cfg : Config) (out : Program) → compile_tables cfg ≡ ok out → All InTable out.per_card
unfolding compile_tables
compile_tables-InTable cfg out h =
    let (mid, _, k1) = >>=-eq-ok (compile_flows cfg 0 cfg.flows (fresh_program cfg)) _ h in
    let (punted, _, k2) = >>=-eq-ok (compile_punt_rules cfg cfg.logical_if mid.per_card) _ k1 in
    let (forwarded, _, k3) = >>=-eq-ok (compile_forward_rules cfg cfg.forwards punted) _ k2 in
    let (cards, assigned, k4) = >>=-eq-ok (assign_all cfg forwarded) _ k3 in
    rw (← ok-injective k4) (assign_all-InTable cfg forwarded cards assigned)

flow_compile-InTable :
    (cfg : Config) (out : Program) → flow_compile cfg ≡ ok out → All InTable out.per_card
unfolding flow_compile
flow_compile-InTable cfg out h = elim (Option-cases (validate cfg)) [
  | inl e ↦ compile_tables-InTable cfg out (ground arith)
  | inr (fault, e) ↦ absurd (ground arith)
]

well-Fits : (cs : List CardProgram) → AllWell cs → All InTable cs → All Fits cs
well-Fits [] w t = tt
well-Fits (cp ∷ cs) w t = (
  record {
    rows = w.0.rows;
    cmps = w.0.pool.cmps;
    udfs = w.0.pool.udfs;
    rules = w.0.rules;
    keys = w.0.key_count;
    maps = All-map_of _ _ (λ m p. p.0) cp.map_entries w.0.maps;
    buckets = t.0;
  },
  well-Fits cs w.1 t.1,
)

-- Every card of a compiled program passes the checks with which the programming starts.
pub flow_compile-Fits :
    (cfg : Config) (out : Program) → flow_compile cfg ≡ ok out → All Fits out.per_card
flow_compile-Fits cfg out h =
    well-Fits out.per_card (flow_compile-ok cfg out h).1.well (flow_compile-InTable cfg out h)

-- A card of a compiled program whose rows fit the hardware is programmed with success, and then,
-- whatever it held before, has the compiled rows with every other row disabled, and every word of the
-- compiled flow-id map, comparators, user-defined fields, rules, hash entries, key mask and seed (the
-- last two when there is a hash entry), with every unused flow id, rule slot and bucket invalid.
pub flow_compile-Programmed :
    (cfg : Config) (out : Program) (id : ℕ) (cp : CardProgram) (b : Board)
    → flow_compile cfg ≡ ok out
    → card_slot id out.per_card ≡ some cp
    → length cp.flow_rows ≤ b.info.num_local_flows
    → b.info.num_local_flows ≤ flow_table_rows
    → (b' : Board) × (program_card_tables board_ops cp b ≡ (ok tt, b')) × Programmed cp b'
flow_compile-Programmed cfg out id cp b h found few small =
    let fits = slot-All Fits id out.per_card cp (flow_compile-Fits cfg out h) found in
    program_card_tables-board cp b ((precheck_iff cp).1 fits) few small

-- what the statistics entry of a compiled flow say of it
pub record Reported (cfg : Config) (f : Flow) (e : GlobalFlowStats) : Type 0 where
  pub flow_id : e.global_flow_id ≡ f.id
  pub tx : PortRef
  pub tx_port : resolve_port cfg f.tx_global_port ≡ ok tx
  pub rx : PortRef
  pub rx_port : resolve_port cfg f.rx_global_port ≡ ok rx
  pub measured : e.latency_valid ≡ not f.background
  pub crossing : e.cross_card ≡ (not f.background && not (same_card tx rx))
  pub nothing : f.background ≡ true → (e.rx_frames ≡ 0) × (e.lost_est ≡ 0) × (e.sample_count ≡ 0)
