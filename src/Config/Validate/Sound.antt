-- ===== src/Config/Validate/Sound.antt =====
-- `pw_config_validate` accepts exactly the well-formed configurations.
use packet_wyrm.Base.{
  ℕ, ◌+◌, ◌≡◌, ◌↔◌, true, false, Option, none, some, List, [], ◌∷◌, All, arith, Result, ok, err,
  refl,
}
use packet_wyrm.Config.{Config, LogicalIf, ForwardRule, PortRef}
use packet_wyrm.Config.FlowModel.{Flow}
use packet_wyrm.Config.Fault.{Fault, ◌or_else◌}
use packet_wyrm.Config.Resolve.{resolve_port, logical_if_by_id}
use packet_wyrm.Config.Validate.{
  check_lifs, check_flows, check_flow_refs, check_flow_traffic, check_flow_kind, cards_differ,
  check_forwards, validate, unresolved, is_empty,
}
use packet_wyrm.Config.Valid.{
  AllPairs, LifsDiffer, FlowsDiffer, Resolves, IsValidLif, IsValidFlow, IsValidForward, IsValid,
}
use packet_wyrm.Config.Validate.Ids.{
  check_cards_iff, check_ports_iff, lif_dups_of_iff, flow_dups_of_iff,
}

unresolved_iff : (cfg : Config) (gp : ℕ) → (unresolved cfg gp ≡ false) ↔ Resolves cfg gp
unresolved_iff cfg gp = go (resolve_port cfg gp)
  where
    go :
        (r : Result PortRef)
        → (elim r [ ok ref ↦ false | err e ↦ true ] ≡ false) ↔ ((ref : PortRef) × (r ≡ ok ref))
    go (ok ref) = (λ h. (ref, refl), λ h. refl)
    go (err e) = (λ h. cc, λ h. cc (h.1))

is_empty_iff : (xs : List ℕ) → (is_empty xs ≡ true) ↔ (xs ≡ [])
is_empty_iff [] = ground arith
is_empty_iff (x ∷ xs) = ground arith

abbrev LifsOk : Config → List LogicalIf → Type 0
LifsOk cfg ls = All (IsValidLif cfg) ls × AllPairs LifsDiffer ls

check_lifs_iff :
    (cfg : Config) (i : ℕ) (ls : List LogicalIf) → (check_lifs cfg i ls ≡ none) ↔ LifsOk cfg ls
unfolding check_lifs
check_lifs_iff cfg i [] = ground arith
check_lifs_iff cfg i (l ∷ ls) = ground (
  arith,
  is_empty_iff l.netns,
  lif_dups_of_iff l (i + 1) ls,
  unresolved_iff cfg l.global_port,
  check_lifs_iff cfg (i + 1) ls,
)

known_lif_iff :
    (cfg : Config) (id : ℕ)
    → (elim (logical_if_by_id cfg id) [ none ↦ true | some l ↦ false ] ≡ false)
      ↔ ((l : LogicalIf) × (logical_if_by_id cfg id ≡ some l))
known_lif_iff cfg id = go (logical_if_by_id cfg id)
  where
    go :
        (o : Option LogicalIf)
        → (elim o [ none ↦ true | some l ↦ false ] ≡ false) ↔ ((l : LogicalIf) × (o ≡ some l))
    go none = (λ h. cc, λ h. cc (h.1))
    go (some l) = (λ h. (l, refl), λ h. refl)

abbrev FlowsOk : Config → List Flow → Type 0
FlowsOk cfg fs = All (IsValidFlow cfg) fs × AllPairs FlowsDiffer fs

flow_checks_sound :
    (cfg : Config) (i : ℕ) (f : Flow)
    → check_flow_refs cfg i f ≡ none
    → check_flow_traffic i f.traffic ≡ none
    → check_flow_kind i f ≡ none
    → IsValidFlow cfg f
unfolding check_flow_refs check_flow_traffic check_flow_kind
flow_checks_sound cfg i f r t k = record {
  tx_port = ground (arith, unresolved_iff cfg f.tx_global_port);
  rx_port = ground (arith, unresolved_iff cfg f.rx_global_port);
  lif = ground (arith, known_lif_iff cfg f.logical_if_id);
  one_length = ground arith;
  one_rate = ground arith;
  raw_frames = ground arith;
  background_load = ground arith;
}

check_flow_refs_complete :
    (cfg : Config) (i : ℕ) (f : Flow) → IsValidFlow cfg f → check_flow_refs cfg i f ≡ none
unfolding check_flow_refs
check_flow_refs_complete cfg i f v = ground (
  arith,
  unresolved_iff cfg f.tx_global_port,
  unresolved_iff cfg f.rx_global_port,
  known_lif_iff cfg f.logical_if_id,
)

check_flow_traffic_complete :
    (cfg : Config) (i : ℕ) (f : Flow) → IsValidFlow cfg f → check_flow_traffic i f.traffic ≡ none
unfolding check_flow_traffic
check_flow_traffic_complete cfg i f v = ground arith

check_flow_kind_complete :
    (cfg : Config) (i : ℕ) (f : Flow) → IsValidFlow cfg f → check_flow_kind i f ≡ none
unfolding check_flow_kind
check_flow_kind_complete cfg i f v = ground arith

-- Five checks in a row find nothing when none of them does.
five_checks_iff :
    (a b c d e : Option Fault)
    → ((a or_else b or_else c or_else d or_else e) ≡ none)
      ↔ ((a ≡ none) × (b ≡ none) × (c ≡ none) × (d ≡ none) × (e ≡ none))
five_checks_iff a b c d e = ground arith

check_flows_iff :
    (cfg : Config) (i : ℕ) (fs : List Flow) → (check_flows cfg i fs ≡ none) ↔ FlowsOk cfg fs
unfolding check_flows
check_flows_iff cfg i [] = ground arith
check_flows_iff cfg i (f ∷ fs) = (
  λ h.
      let (hd, hr, ht, hk, hs) = (five_checks_iff _ _ _ _ _).0 h in
      let rest : FlowsOk cfg fs = (check_flows_iff cfg (i + 1) fs).0 hs in
      (
        (flow_checks_sound cfg i f hr ht hk, rest.0),
        ((flow_dups_of_iff f (i + 1) fs).0 hd, rest.1),
      ),
  λ v. (five_checks_iff _ _ _ _ _).1 (
    (flow_dups_of_iff f (i + 1) fs).1 v.1.0,
    check_flow_refs_complete cfg i f v.0.0,
    check_flow_traffic_complete cfg i f v.0.0,
    check_flow_kind_complete cfg i f v.0.0,
    (check_flows_iff cfg (i + 1) fs).1 (v.0.1, v.1.1),
  ),
)

cards_differ_sound :
    (cfg : Config) (fr : ForwardRule)
    → Resolves cfg fr.ingress_port
    → Resolves cfg fr.egress_port
    → cards_differ cfg fr ≡ false
    → IsValidForward cfg fr
unfolding cards_differ
cards_differ_sound cfg fr (ing, hi) (egr, he) h = (ing, egr, hi, he, ground arith)

cards_differ_complete :
    (cfg : Config) (fr : ForwardRule) → IsValidForward cfg fr → cards_differ cfg fr ≡ false
unfolding cards_differ
cards_differ_complete cfg fr v = ground arith

check_forwards_iff :
    (cfg : Config) (i : ℕ) (frs : List ForwardRule)
    → (check_forwards cfg i frs ≡ none) ↔ All (IsValidForward cfg) frs
unfolding check_forwards
check_forwards_iff cfg i [] = ground arith
check_forwards_iff cfg i (fr ∷ frs) = (
  λ h. ground (
    arith,
    unresolved_iff cfg fr.ingress_port,
    unresolved_iff cfg fr.egress_port,
    cards_differ_sound cfg fr,
    check_forwards_iff cfg (i + 1) frs,
  ),
  λ v. ground (
    arith,
    unresolved_iff cfg fr.ingress_port,
    unresolved_iff cfg fr.egress_port,
    cards_differ_complete cfg fr,
    check_forwards_iff cfg (i + 1) frs,
  ),
)

-- Validation reports no fault exactly when the configuration is well formed: card ids and PCI
-- addresses, global ports, the local ports of a card, logical interface ids and names, and flow
-- ids differ pairwise; every logical interface has a name that fits a TAP device, no namespace
-- and a declared port; every flow has declared ports, a known or unset logical interface, one
-- frame length form and one rate, and no measurement that its template or a background load
-- excludes; and both ports of each forward rule lie on one card. It asks nothing of port names, nor
-- how an interface name begins.
pub validate_iff : (cfg : Config) → (validate cfg ≡ none) ↔ IsValid cfg
unfolding validate
validate_iff cfg = ground (
  arith,
  check_cards_iff 0 cfg.cards,
  check_ports_iff 0 cfg.cards,
  check_lifs_iff cfg 0 cfg.logical_if,
  check_flows_iff cfg 0 cfg.flows,
  check_forwards_iff cfg 0 cfg.forwards,
)
