-- ===== src/Config/Valid.antt =====
-- What a well-formed configuration is, with no reference to the order of the checks of
-- `pw_config_validate`: identifiers differ pairwise, references resolve, and each flow's options
-- fit together.
use packet_wyrm.Base.{
  ℕ, ◌<◌, ◌≡◌, ◌≢◌, ◌⊎◌, true, false, some, List, [], ◌∷◌, ◌++◌, length, All, ok,
}
use packet_wyrm.Config.{Config, Card, CardPort, LogicalIf, ForwardRule, PortRef}
use packet_wyrm.Config.FlowModel.{Flow, template_test}
use packet_wyrm.Config.Resolve.{resolve_port, logical_if_by_id}
use packet_wyrm.Config.Validate.{tap_ifname_max}

-- Any two entries, the earlier one first, are related.
abbrev pub AllPairs {ℓ κ} : {A : Type ℓ} → (A → A → Type κ) → List A → Type κ
AllPairs R [] = Unit
AllPairs R (x ∷ xs) = All (R x) xs × AllPairs R xs

abbrev pub Differ : ℕ → ℕ → Type 0
Differ a b = a ≢ b

abbrev pub CardsDiffer : Card → Card → Type 0
CardsDiffer c d = (c.id ≢ d.id) × (c.pci ≢ d.pci)

abbrev pub global_ports : List CardPort → List ℕ
global_ports [] = []
global_ports (p ∷ ps) = p.global_port ∷ global_ports ps

-- every global port that the cards declare, in order
abbrev pub all_ports : List Card → List ℕ
all_ports [] = []
all_ports (c ∷ cs) = global_ports c.ports ++ all_ports cs

abbrev pub LocalsDiffer : CardPort → CardPort → Type 0
LocalsDiffer p q = p.local_port ≢ q.local_port

abbrev pub LifsDiffer : LogicalIf → LogicalIf → Type 0
LifsDiffer l m = (l.id ≢ m.id) × (l.name ≢ m.name)

abbrev pub FlowsDiffer : Flow → Flow → Type 0
FlowsDiffer f g = f.id ≢ g.id

module _ (cfg : Config) where
  abbrev pub Resolves : ℕ → Type 0
  Resolves gp = (ref : PortRef) × (resolve_port cfg gp ≡ ok ref)

  pub record IsValidLif (l : LogicalIf) : Type 0 where
    pub name_fits : length l.name < tap_ifname_max
    pub no_netns : l.netns ≡ []
    pub port : Resolves l.global_port

  -- A flow carries test headers and is received, unless it says otherwise.
  abbrev pub NotMeasured : Flow → Type 0
  NotMeasured f = (f.meas.loss ≡ false) × (f.meas.latency ≡ false) × (f.meas.jitter ≡ false)

  pub record IsValidFlow (f : Flow) : Type 0 where
    pub tx_port : Resolves f.tx_global_port
    pub rx_port : Resolves f.rx_global_port
    pub lif :
        (f.logical_if_id ≡ 0) ⊎ ((l : LogicalIf) × (logical_if_by_id cfg f.logical_if_id ≡ some l))
    pub one_length :
        ((f.traffic.frame_len_fixed_set ≡ true) × (f.traffic.frame_len_max ≡ 0))
        ⊎ ((f.traffic.frame_len_fixed_set ≡ false) × (f.traffic.frame_len_max ≢ 0))
    pub one_rate :
        ((f.traffic.rate_bps ≡ 0) × (f.traffic.rate_pps ≢ 0))
        ⊎ ((f.traffic.rate_bps ≢ 0) × (f.traffic.rate_pps ≡ 0))
    pub raw_frames :
        (f.traffic.frame_template ≡ template_test)
        ⊎ (NotMeasured f × (f.classify_header ≡ true) × (f.encap.present ≡ false))
    pub background_load : (f.background ≡ false) ⊎ NotMeasured f

  -- Both ports of a forward rule resolve, to one card.
  abbrev pub IsValidForward : ForwardRule → Type 0
  IsValidForward fr =
      (ing : PortRef) × (egr : PortRef) × (resolve_port cfg fr.ingress_port ≡ ok ing)
      × (resolve_port cfg fr.egress_port ≡ ok egr)
      × (ing.card_id ≡ egr.card_id)

  pub record IsValid : Type 0 where
    pub cards : AllPairs CardsDiffer cfg.cards
    pub globals : AllPairs Differ (all_ports cfg.cards)
    pub locals : All (λ (c : Card). AllPairs LocalsDiffer c.ports) cfg.cards
    pub lifs : All IsValidLif cfg.logical_if
    pub lif_ids : AllPairs LifsDiffer cfg.logical_if
    pub flows : All IsValidFlow cfg.flows
    pub flow_ids : AllPairs FlowsDiffer cfg.flows
    pub forwards : All IsValidForward cfg.forwards
