-- ===== src/Config/Resolve.antt =====
-- The lookups of sw/libpacketwyrm/src/config.c: a global port to its card and local port, and
-- cards, logical interfaces and flows by their ids. The pointers are never NULL here.
pub mod Sound
use packet_wyrm.Base.{
  ℕ, Option, none, some, List, [], ◌∷◌, ◌==◌, if◌then◌else◌, Result, ok, err, Error,
}
use packet_wyrm.Config.{Config, Card, CardPort, LogicalIf, PortRef}
use packet_wyrm.Config.FlowModel.{Flow}

-- the inner loop of `pw_config_resolve_port`, over the ports of one card
pub port_on_card : ℕ → ℕ → List CardPort → Option PortRef
port_on_card card_id gp [] = none
port_on_card card_id gp (p ∷ ps) =
    if p.global_port == gp
    then some (record { card_id = card_id; local_port_id = p.local_port; global_port_id = gp })
    else port_on_card card_id gp ps

-- its outer loop
pub resolve_in : ℕ → List Card → Result PortRef
resolve_in gp [] = err Error.unknown_global_port
resolve_in gp (c ∷ cs) = elim (port_on_card c.id gp c.ports) [
  | some ref ↦ ok ref
  | none ↦ resolve_in gp cs
]

-- `pw_config_resolve_port`
unfoldable pub resolve_port : Config → ℕ → Result PortRef
unfolding resolve_in port_on_card
resolve_port cfg gp = resolve_in gp cfg.cards

card_with_id : ℕ → List Card → Option Card
card_with_id id [] = none
card_with_id id (c ∷ cs) = if c.id == id then some c else card_with_id id cs

-- `pw_config_card_by_id`
unfoldable pub card_by_id : Config → ℕ → Option Card
unfolding card_with_id
card_by_id cfg id = card_with_id id cfg.cards

pub lif_with_id : ℕ → List LogicalIf → Option LogicalIf
lif_with_id id [] = none
lif_with_id id (l ∷ ls) = if l.id == id then some l else lif_with_id id ls

-- `pw_config_logical_if_by_id`
unfoldable pub logical_if_by_id : Config → ℕ → Option LogicalIf
unfolding lif_with_id
logical_if_by_id cfg id = lif_with_id id cfg.logical_if

flow_with_id : ℕ → List Flow → Option Flow
flow_with_id id [] = none
flow_with_id id (f ∷ fs) = if f.id == id then some f else flow_with_id id fs

-- `pw_config_flow_by_id`
unfoldable pub flow_by_id : Config → ℕ → Option Flow
unfolding flow_with_id
flow_by_id cfg id = flow_with_id id cfg.flows
