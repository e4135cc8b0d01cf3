-- ===== src/Compiler/Rules/Punted.antt =====
-- Every PUNT call of an interface becomes one rule, and the rules that are there keep their
-- meaning.
use packet_wyrm.Base.{
  ◌≡◌, ◌↔◌, refl, ap, ◌∙◌, sym, List, [], ◌∷◌, ◌++◌, length, length-append, All, ok, >>=-eq-ok,
  ok-injective, arith, leb, Bool-cases, inl, inr, ◌≤◌, ◌<◌,
}
use mathlib.Core.List.{append_assoc, append-nil}
use packet_wyrm.Config.{LogicalIf, PortRef}
use packet_wyrm.Compiler.Tables.{FcRule, CardProgram, num_rule}
use packet_wyrm.Compiler.Append.{Draft, append_fc_rule}
use packet_wyrm.Compiler.Rules.{
  PuntMatch, act_punt_to_host, punt_conditions, punt_rule, add_punt_rule, add_punt_rules,
}
use packet_wyrm.Compiler.Rules.Meaning.{Condition, FitsPool, Selects, Extends, Fires}
use packet_wyrm.Compiler.Rules.Drafts.{Keeps, Keeps-refl, Keeps-trans, Builds}
use packet_wyrm.Compiler.Rules.Punt.{
  punt_needs, punt_conditions-Makes, Fires-Extends, Fires-zero, Selects-zero,
}

-- The rule is on the card, with comparators that are there, and matches exactly the frames for
-- which all of `needs` hold.
pub record RuleMeans (Holds : Condition → Type 0) (cp : CardProgram) (needs : List Condition)
    (r : FcRule) : Type 0 where
  pub selects : Selects r.care cp
  pub fires : Fires Holds r.care cp ↔ All Holds needs

-- what a finished rule adds to a card
pub record Adds (cp : CardProgram) (new : List FcRule) (cp' : CardProgram) : Type 0 where
  pub rules : cp'.fc_rules ≡ cp.fc_rules ++ new
  pub extends : Extends cp cp'
  pub fits : FitsPool cp'
  pub keeps : Keeps cp cp'
  pub count : length cp.fc_rules ≤ num_rule → length cp'.fc_rules ≤ num_rule

pub Adds-append :
    {a b c : CardProgram} {xs ys : List FcRule} → Adds a xs b → Adds b ys c → Adds a (xs ++ ys) c
Adds-append {a} {b} {c} {xs} {ys} p q = record {
  rules = q.rules ∙ ap (λ rs. rs ++ ys) p.rules ∙ append_assoc a.fc_rules xs ys;
  extends = λ i d h. q.extends i d (p.extends i d h);
  fits = q.fits;
  keeps = Keeps-trans p.keeps q.keeps;
  count = λ h. q.count (p.count h);
}

pub Adds-nil : (cp : CardProgram) → FitsPool cp → Adds cp [] cp
Adds-nil cp v = record {
  rules = sym (append-nil cp.fc_rules);
  extends = λ i d h. h;
  fits = v;
  keeps = Keeps-refl cp;
  count = λ h. h;
}

module _ (Holds : Condition → Type 0) where
  pub RuleMeans-Extends :
      (cp cp' : CardProgram) (needs : List Condition) (r : FcRule)
      → Extends cp cp'
      → RuleMeans Holds cp needs r
      → RuleMeans Holds cp' needs r
  RuleMeans-Extends cp cp' needs r ext m =
      let (down, up) = Fires-Extends Holds r.care cp cp' m.selects ext in
      record {
        selects = λ i e. let (c, hc) = m.selects i e in (c, ext i c hc);
        fires = (λ f. m.fires.0 (down f), λ a. up (m.fires.1 a));
      }

  -- A finished draft, put on the card as a rule.
  pub Builds-Adds :
      (needs : List Condition) (cp cp' : CardProgram) (d : Draft) (r : FcRule)
      → Builds Holds needs (0, cp) d
      → r.care ≡ d.0
      → append_fc_rule r d.1 ≡ ok cp'
      → Adds cp (r ∷ []) cp' × RuleMeans Holds cp' needs r
  unfolding append_fc_rule
  Builds-Adds needs cp cp' d r b same h = elim (Bool-cases (leb num_rule (length d.1.fc_rules))) [
    | inl full ↦ absurd (ground arith)
    | inr room ↦
        let below : length d.1.fc_rules < num_rule = ground arith in
        let e : record d.1 { fc_rules = d.1.fc_rules ++ r ∷ [] } ≡ cp' = ground arith in
        rw (← e) (
          record {
            rules = ap (λ rs. rs ++ r ∷ []) b.rules;
            extends = b.extends;
            fits = record { cmps = b.fits.cmps; udfs = b.fits.udfs };
            keeps = record {
              id = b.keeps.id;
              rows = b.keeps.rows;
              maps = b.keeps.maps;
              keys = b.keeps.keys;
            };
            count = λ _. omega (arith, length-append d.1.fc_rules (r ∷ []));
          },
          record {
            selects = rw same b.selects;
            fires = rw same (λ f. (b.means.0 f).0, λ a. b.means.1 (a, Fires-zero Holds cp));
          },
        )
  ]

  -- the rule of one PUNT call
  pub record PuntRule (ref : PortRef) (l : LogicalIf) (m : PuntMatch) (cp : CardProgram)
      (r : FcRule) : Type 0 where
    pub action : r.action ≡ act_punt_to_host
    pub interface : r.logical_if_id ≡ l.id
    pub priority : r.priority ≡ m.prio
    pub means : RuleMeans Holds cp (punt_needs ref l m) r

  PuntRule-Extends :
      (ref : PortRef) (l : LogicalIf) (m : PuntMatch) (cp cp' : CardProgram) (r : FcRule)
      → Extends cp cp'
      → PuntRule ref l m cp r
      → PuntRule ref l m cp' r
  PuntRule-Extends ref l m cp cp' r ext p = record {
    action = p.action;
    interface = p.interface;
    priority = p.priority;
    means = RuleMeans-Extends cp cp' (punt_needs ref l m) r ext p.means;
  }

  add_punt_rule_lem :
      (ref : PortRef) (l : LogicalIf) (m : PuntMatch) (cp cp' : CardProgram)
      → FitsPool cp
      → add_punt_rule ref l m cp ≡ ok cp'
      → (r : FcRule) × Adds cp (r ∷ []) cp' × PuntRule ref l m cp' r
  unfolding add_punt_rule punt_rule
  add_punt_rule_lem ref l m cp cp' v h =
      let (d, hd, hr) = >>=-eq-ok (punt_conditions ref l m (0, cp)) _ h in
      let b = punt_conditions-Makes Holds ref l m (0, cp) (v, Selects-zero cp) d hd in
      let (adds, means) = Builds-Adds (punt_needs ref l m) cp cp' d (punt_rule l m d.0) b refl hr in
      (
        punt_rule l m d.0,
        adds,
        record { action = refl; interface = refl; priority = refl; means = means },
      )

  -- the rules, one for each match in order
  abbrev pub PuntRules : PortRef → LogicalIf → CardProgram → List PuntMatch → List FcRule → Type 0
  PuntRules ref l cp [] [] = Unit
  PuntRules ref l cp [] (r ∷ rs) = ⊥
  PuntRules ref l cp (m ∷ ms) [] = ⊥
  PuntRules ref l cp (m ∷ ms) (r ∷ rs) = PuntRule ref l m cp r × PuntRules ref l cp ms rs

  -- When the PUNT calls of an interface succeed on a card whose comparators fit the hardware, they
  -- append exactly one rule for each call, in order, and keep every comparator in its place; each
  -- rule punts to the interface at its call's priority, and matches exactly the frames that meet
  -- the call's conditions, however the comparators are read.
  pub add_punt_rules_lem :
      (ref : PortRef) (l : LogicalIf) (ms : List PuntMatch) (cp cp' : CardProgram)
      → FitsPool cp
      → add_punt_rules ref l ms cp ≡ ok cp'
      → (new : List FcRule) × Adds cp new cp' × PuntRules ref l cp' ms new
  unfolding add_punt_rules
  add_punt_rules_lem ref l [] cp cp' v h = ([], rw (← ok-injective h) (Adds-nil cp v), tt)
  add_punt_rules_lem ref l (m ∷ ms) cp cp' v h =
      let (mid, h1, h2) = >>=-eq-ok (add_punt_rule ref l m cp) (add_punt_rules ref l ms) h in
      let (r, a1, p) = add_punt_rule_lem ref l m cp mid v h1 in
      let (rs, a2, ps) = add_punt_rules_lem ref l ms mid cp' a1.fits h2 in
      (r ∷ rs, Adds-append a1 a2, (PuntRule-Extends ref l m mid cp' r a2.extends p, ps))
