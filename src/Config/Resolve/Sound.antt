-- ===== src/Config/Resolve/Sound.antt =====
-- `pw_config_resolve_port` against the ports that the cards declare.
use packet_wyrm.Base.{
  ℕ, suc, ◌≡◌, ◌≢◌, refl, ap, ◌∙◌, none, some, Option-cases, inl, inr, List, [], ◌∷◌, ◌++◌, All,
  get_elem?, arith, ok, err, Error, ok-injective,
}
use native.Mathlib.Decide.{ℕ_discrete}
use packet_wyrm.Config.{Config, Card, CardPort, PortRef}
use packet_wyrm.Config.Resolve.{port_on_card, resolve_in, resolve_port}
use packet_wyrm.Config.Valid.{global_ports, all_ports}

-- A card declares the global port, as this local one.
pub record Declares (cards : List Card) (gp : ℕ) (ref : PortRef) : Type 0 where
  pub card_index : ℕ
  pub card : Card
  pub card_at : get_elem? cards card_index ≡ some card
  pub port_index : ℕ
  pub port : CardPort
  pub port_at : get_elem? card.ports port_index ≡ some port
  pub global : port.global_port ≡ gp
  pub is_ref :
      ref ≡ record { card_id = card.id; local_port_id = port.local_port; global_port_id = gp }

port_on_card-some :
    (id gp : ℕ) (ps : List CardPort) (ref : PortRef)
    → port_on_card id gp ps ≡ some ref
    → (j : ℕ) × (p : CardPort) × (get_elem? ps j ≡ some p)
      × (p.global_port ≡ gp)
      × (ref ≡ record { card_id = id; local_port_id = p.local_port; global_port_id = gp })
unfolding port_on_card
port_on_card-some id gp [] ref h = cc
port_on_card-some id gp (p ∷ ps) ref h = elim (ℕ_discrete p.global_port gp) [
  | yes e ↦ (0, p, refl, e, ground arith)
  | no e ↦
      let (j, q, at, same, r) = port_on_card-some id gp ps ref (ground arith) in
      (suc j, q, at, same, r)
]

port_on_card-none :
    (id gp : ℕ) (ps : List CardPort) (rest : List ℕ)
    → port_on_card id gp ps ≡ none
    → All (λ (g : ℕ). g ≢ gp) rest
    → All (λ (g : ℕ). g ≢ gp) (global_ports ps ++ rest)
unfolding port_on_card
port_on_card-none id gp [] rest h r = r
port_on_card-none id gp (p ∷ ps) rest h r = elim (ℕ_discrete p.global_port gp) [
  | yes e ↦ absurd (ground arith)
  | no e ↦ (e, port_on_card-none id gp ps rest (ground arith) r)
]

resolve_in-ok :
    (gp : ℕ) (cards : List Card) (ref : PortRef)
    → resolve_in gp cards ≡ ok ref
    → Declares cards gp ref
unfolding resolve_in
resolve_in-ok gp [] ref h = absurd (ground arith)
resolve_in-ok gp (c ∷ cs) ref h = elim (Option-cases (port_on_card c.id gp c.ports)) [
  | inr (r, e) ↦
      let same : r ≡ ref = ok-injective (ground arith) in
      let (j, p, at, global, is) = port_on_card-some c.id gp c.ports ref (e ∙ ap some same) in
      record {
        card_index = 0;
        card = c;
        card_at = refl;
        port_index = j;
        port = p;
        port_at = at;
        global = global;
        is_ref = is;
      }
  | inl e ↦
      let d = resolve_in-ok gp cs ref (ground arith) in
      record {
        card_index = suc d.card_index;
        card = d.card;
        card_at = d.card_at;
        port_index = d.port_index;
        port = d.port;
        port_at = d.port_at;
        global = d.global;
        is_ref = d.is_ref;
      }
]

resolve_in-err :
    (gp : ℕ) (cards : List Card) (e : Error)
    → resolve_in gp cards ≡ err e
    → (e ≡ Error.unknown_global_port) × All (λ (g : ℕ). g ≢ gp) (all_ports cards)
unfolding resolve_in
resolve_in-err gp [] e h = (ground arith, tt)
resolve_in-err gp (c ∷ cs) e h = elim (Option-cases (port_on_card c.id gp c.ports)) [
  | inr (r, q) ↦ absurd (ground arith)
  | inl q ↦
      let (code, rest) = resolve_in-err gp cs e (ground arith) in
      (code, port_on_card-none c.id gp c.ports (all_ports cs) q rest)
]

-- When a global port resolves, some card declares it, and the result names that card and the port's
-- number on it.
pub resolve_port-ok :
    (cfg : Config) (gp : ℕ) (ref : PortRef)
    → resolve_port cfg gp ≡ ok ref
    → Declares cfg.cards gp ref
unfolding resolve_port
resolve_port-ok cfg gp ref h = resolve_in-ok gp cfg.cards ref h

-- When a global port does not resolve, the error is PW_E_UNKNOWN_GLOBAL_PORT and no card declares it.
pub resolve_port-err :
    (cfg : Config) (gp : ℕ) (e : Error)
    → resolve_port cfg gp ≡ err e
    → (e ≡ Error.unknown_global_port) × All (λ (g : ℕ). g ≢ gp) (all_ports cfg.cards)
unfolding resolve_port
resolve_port-err cfg gp e h = resolve_in-err gp cfg.cards e h
