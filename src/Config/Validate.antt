-- ===== src/Config/Validate.antt =====
-- `pw_config_validate` (sw/libpacketwyrm/src/validate.c): the first fault that the nested loops
-- meet, in their order. `none` is PW_OK. The configuration pointer is never NULL here.
mod Ids
pub mod Sound
use packet_wyrm.Base.{
  ℕ, ◌+◌, Option, none, some, Bool, true, false, not, ◌&&◌, ◌||◌, List, [], ◌∷◌, length, ◌==◌, leb,
  words_eq, Result, ok, err, Error,
}
use packet_wyrm.Config.{Config, Card, CardPort, LogicalIf, ForwardRule}
use packet_wyrm.Config.FlowModel.{Flow, FlowMeas, FlowTraffic, template_test}
use packet_wyrm.Config.Resolve.{resolve_port, logical_if_by_id}
use packet_wyrm.Config.Fault.{Fault, Place, ◌or_else◌, fault_if}

-- card duplicates: card `c` against those from index `j` on
pub card_dups_of : Card → ℕ → List Card → Option Fault
card_dups_of c j [] = none
card_dups_of c j (d ∷ ds) =
    fault_if (c.id == d.id) Error.dup_card_id (Place.cards_id j)
    or_else fault_if (words_eq c.pci d.pci) Error.dup_card_id (Place.cards_pci j)
    or_else card_dups_of c (j + 1) ds

pub check_cards : ℕ → List Card → Option Fault
unfolding card_dups_of
check_cards i [] = none
check_cards i (c ∷ cs) = card_dups_of c (i + 1) cs or_else check_cards (i + 1) cs

-- a global port against the ports from index `pj` on of card `j`
pub global_dups_of : ℕ → ℕ → ℕ → List CardPort → Option Fault
global_dups_of gp j pj [] = none
global_dups_of gp j pj (q ∷ qs) =
    fault_if (gp == q.global_port) Error.dup_global_port (Place.ports_global_port j pj)
    or_else global_dups_of gp j (pj + 1) qs

pub global_dups_in : ℕ → ℕ → List Card → Option Fault
unfolding global_dups_of
global_dups_in gp j [] = none
global_dups_in gp j (d ∷ ds) = global_dups_of gp j 0 d.ports or_else global_dups_in gp (j + 1) ds

-- the ports of card `i` from index `pi` on, against the rest of the card and the later cards
pub card_globals : ℕ → ℕ → List CardPort → List Card → Option Fault
unfolding global_dups_of global_dups_in
card_globals i pi [] later = none
card_globals i pi (p ∷ ps) later =
    global_dups_of p.global_port i (pi + 1) ps
    or_else global_dups_in p.global_port (i + 1) later
    or_else card_globals i (pi + 1) ps later

pub local_dups_of : ℕ → ℕ → ℕ → List CardPort → Option Fault
local_dups_of lp i pj [] = none
local_dups_of lp i pj (q ∷ qs) =
    fault_if (lp == q.local_port) Error.dup_global_port (Place.ports_local_port i pj)
    or_else local_dups_of lp i (pj + 1) qs

pub card_locals : ℕ → ℕ → List CardPort → Option Fault
unfolding local_dups_of
card_locals i pi [] = none
card_locals i pi (p ∷ ps) =
    local_dups_of p.local_port i (pi + 1) ps or_else card_locals i (pi + 1) ps

pub check_ports : ℕ → List Card → Option Fault
unfolding card_globals card_locals
check_ports i [] = none
check_ports i (c ∷ cs) =
    card_globals i 0 c.ports cs or_else card_locals i 0 c.ports or_else check_ports (i + 1) cs

-- PW_TAP_IFNAME_MAX (tap.h)
abbrev pub tap_ifname_max : ℕ
tap_ifname_max = 16

pub lif_dups_of : LogicalIf → ℕ → List LogicalIf → Option Fault
lif_dups_of l j [] = none
lif_dups_of l j (m ∷ ms) =
    fault_if (l.id == m.id) Error.dup_logical_if (Place.lif_id j)
    or_else fault_if (words_eq l.name m.name) Error.dup_logical_if (Place.lif_name j)
    or_else lif_dups_of l (j + 1) ms

-- `pw_config_resolve_port(...) != PW_OK`
abbrev pub unresolved : Config → ℕ → Bool
unresolved cfg gp = elim (resolve_port cfg gp) [ ok ref ↦ false | err e ↦ true ]

abbrev pub is_empty : List ℕ → Bool
is_empty [] = true
is_empty (x ∷ xs) = false

pub check_lifs : Config → ℕ → List LogicalIf → Option Fault
unfolding lif_dups_of
check_lifs cfg i [] = none
check_lifs cfg i (l ∷ ls) =
    fault_if (leb tap_ifname_max (length l.name)) Error.inval (Place.lif_name i)
    or_else fault_if (not (is_empty l.netns)) Error.inval (Place.lif_netns i)
    or_else lif_dups_of l (i + 1) ls
    or_else fault_if (unresolved cfg l.global_port) Error.unknown_global_port
        (Place.lif_global_port i)
    or_else check_lifs cfg (i + 1) ls

pub flow_dups_of : ℕ → ℕ → List Flow → Option Fault
flow_dups_of id j [] = none
flow_dups_of id j (g ∷ gs) =
    fault_if (id == g.id) Error.dup_flow_id (Place.flow_id j) or_else flow_dups_of id (j + 1) gs

-- the references of a flow
pub check_flow_refs : Config → ℕ → Flow → Option Fault
check_flow_refs cfg i f =
    fault_if (unresolved cfg f.tx_global_port) Error.unknown_global_port
      (Place.flow_tx_global_port i)
    or_else fault_if (unresolved cfg f.rx_global_port) Error.unknown_global_port
        (Place.flow_rx_global_port i)
    or_else fault_if
        (not (f.logical_if_id == 0)
          && elim (logical_if_by_id cfg f.logical_if_id) [ none ↦ true | some l ↦ false ])
        Error.unknown_logical_if (Place.flow_logical_if_id i)

-- traffic exclusivity
unfoldable pub check_flow_traffic : ℕ → FlowTraffic → Option Fault
check_flow_traffic i t =
    fault_if (has_fixed && has_range) Error.inval (Place.flow_frame_len i)
    or_else fault_if (not has_fixed && not has_range) Error.missing_field (Place.flow_traffic i)
    or_else fault_if (t.rate_bps == 0 && t.rate_pps == 0) Error.missing_field (Place.flow_traffic i)
    or_else fault_if (not (t.rate_bps == 0) && not (t.rate_pps == 0)) Error.inval
        (Place.flow_traffic i)
  where
    has_fixed : Bool
    has_fixed = t.frame_len_fixed_set

    has_range : Bool
    has_range = not (t.frame_len_max == 0)

-- `f->meas.loss || f->meas.latency || f->meas.jitter`
abbrev pub measures : FlowMeas → Bool
measures m = m.loss || m.latency || m.jitter

-- raw templates, and background flows
pub check_flow_kind : ℕ → Flow → Option Fault
check_flow_kind i f =
    fault_if (raw && measures f.meas) Error.inval (Place.flow_measurements i)
    or_else fault_if (raw && not f.classify_header) Error.inval (Place.flow_classify i)
    or_else fault_if (raw && f.encap.present) Error.inval (Place.flow_encap i)
    or_else fault_if (f.background && measures f.meas) Error.inval (Place.flow_measurements i)
  where
    raw : Bool
    raw = not (f.traffic.frame_template == template_test)

pub check_flows : Config → ℕ → List Flow → Option Fault
unfolding flow_dups_of check_flow_refs check_flow_traffic check_flow_kind
check_flows cfg i [] = none
check_flows cfg i (f ∷ fs) =
    flow_dups_of f.id (i + 1) fs
    or_else check_flow_refs cfg i f
    or_else check_flow_traffic i f.traffic
    or_else check_flow_kind i f
    or_else check_flows cfg (i + 1) fs

-- the third test is reached only when both ports resolve
pub cards_differ : Config → ForwardRule → Bool
cards_differ cfg fr = elim (resolve_port cfg fr.ingress_port) [
  | ok ing ↦ elim (resolve_port cfg fr.egress_port) [
    | ok egr ↦ not (ing.card_id == egr.card_id)
    | err e ↦ false
  ]
  | err e ↦ false
]

pub check_forwards : Config → ℕ → List ForwardRule → Option Fault
unfolding cards_differ
check_forwards cfg i [] = none
check_forwards cfg i (fr ∷ frs) =
    fault_if (unresolved cfg fr.ingress_port) Error.unknown_global_port
      (Place.forward_ingress_port i)
    or_else fault_if (unresolved cfg fr.egress_port) Error.unknown_global_port
        (Place.forward_egress_port i)
    or_else fault_if (cards_differ cfg fr) Error.inval (Place.forward_ports i)
    or_else check_forwards cfg (i + 1) frs

-- `pw_config_validate`
unfoldable pub validate : Config → Option Fault
unfolding check_cards check_ports check_lifs check_flows check_forwards
validate cfg =
    check_cards 0 cfg.cards
    or_else check_ports 0 cfg.cards
    or_else check_lifs cfg 0 cfg.logical_if
    or_else check_flows cfg 0 cfg.flows
    or_else check_forwards cfg 0 cfg.forwards
