-- ===== src/Compiler.antt =====
-- The flow compiler, `pw_flow_compile`: sw/libpacketwyrm/src/flow_compiler.c. The diagnostics
-- that it writes beside a status are not kept.
pub mod Tables
pub mod Append
pub mod Hash
pub mod Seed
pub mod Row
pub mod OneFlow
pub mod Rules
pub mod Growth
pub mod Passes
pub mod Flows
pub mod Apart
use Tables.{CardProgram, Program, FlowMeta, zero_meta, empty_card}
use OneFlow.{compile_one_flow}
use Rules.{compile_punt_rules, compile_forward_rules}
use Seed.{assign_all}
use packet_wyrm.Base.{
  ℕ, ◌+◌, none, some, List, [], ◌∷◌, map, length, replicate, Result, ok, err, ◌>>=◌,
}
use packet_wyrm.Config.{Config, Card}
use packet_wyrm.Config.FlowModel.{Flow}
use packet_wyrm.Config.Fault.{Fault}
use packet_wyrm.Config.Validate.{validate}

-- the loop over `cfg->flows`
unfoldable pub compile_flows : Config → ℕ → List Flow → Program → Result Program
unfolding compile_one_flow
compile_flows cfg i [] out = ok out
compile_flows cfg i (f ∷ fs) out = compile_one_flow cfg f i out >>= compile_flows cfg (i + 1) fs

-- the program that the two `calloc` calls give
unfoldable pub fresh_program : Config → Program
fresh_program cfg = record {
  per_card = map (λ (c : Card). empty_card c.id) cfg.cards;
  flow_meta = replicate (length cfg.flows) zero_meta;
}

-- the phases behind the validation
unfoldable pub compile_tables : Config → Result Program
unfolding compile_flows fresh_program compile_punt_rules compile_forward_rules assign_all
compile_tables cfg = do
  out ← compile_flows cfg 0 cfg.flows (fresh_program cfg)
  punted ← compile_punt_rules cfg cfg.logical_if out.per_card
  forwarded ← compile_forward_rules cfg cfg.forwards punted
  cards ← assign_all cfg forwarded
  ok (record { per_card = cards; flow_meta = out.flow_meta })

unfoldable pub flow_compile : Config → Result Program
unfolding compile_tables
flow_compile cfg = elim (validate cfg) [ some e ↦ err e.code | none ↦ compile_tables cfg ]
