-- ===== src/Compiler/Flows.antt =====
-- The whole compiler: every configured flow is in the program that `pw_flow_compile` gives.
use packet_wyrm.Base.{
  ℕ, zero, suc, ◌+◌, ◌≡◌, ◌≢◌, ◌≤◌, ◌<◌, refl, ap, ◌∙◌, some, Option-cases, inl, inr, List, [], ◌∷◌,
  map, length, length-set, length-replicate, set, get_elem?, ok, >>=-eq-ok, ok-injective, arith,
}
use packet_wyrm.Config.{Config, Card}
use packet_wyrm.Config.FlowModel.{Flow}
use packet_wyrm.Config.Validate.{validate}
use packet_wyrm.Config.Validate.Sound.{validate_iff}
use packet_wyrm.Config.Valid.{IsValid}
use packet_wyrm.Compiler.{compile_flows, fresh_program, compile_tables, flow_compile}
use packet_wyrm.Compiler.Tables.{FlowMeta, CardProgram, Program, zero_meta, empty_card}
use packet_wyrm.Compiler.Rules.{compile_punt_rules, compile_forward_rules}
use packet_wyrm.Compiler.Seed.{assign_all}
use packet_wyrm.Compiler.Growth.{Grows, Grows-refl, Grows-trans}
use packet_wyrm.Compiler.OneFlow.{compile_one_flow}
use packet_wyrm.Compiler.OneFlow.Sound.{AllWell}
use packet_wyrm.Compiler.OneFlow.Step.{Placed, Placed-Grows, compile_one_flow-Stepped}
use packet_wyrm.Compiler.Passes.{compile_punt_rules-Passes, compile_forward_rules-Passes}
use packet_wyrm.Compiler.Passes.Buckets.{assign_all-Passes}

module _ {ℓ} {A : Type ℓ} where
  get_elem?-set_self :
      (xs : List A) (i : ℕ) (v : A) → i < length xs → get_elem? (set xs i v) i ≡ some v
  get_elem?-set_self [] i v h = absurd (omega arith)
  get_elem?-set_self (x ∷ xs) zero v h = refl
  get_elem?-set_self (x ∷ xs) (suc i) v h = get_elem?-set_self xs i v (omega arith)

  get_elem?-set_ne :
      (xs : List A) (i j : ℕ) (v : A) → i ≢ j → get_elem? (set xs i v) j ≡ get_elem? xs j
  get_elem?-set_ne [] i j v ne = refl
  get_elem?-set_ne (x ∷ xs) zero zero v ne = absurd (ne refl)
  get_elem?-set_ne (x ∷ xs) zero (suc j) v ne = refl
  get_elem?-set_ne (x ∷ xs) (suc i) zero v ne = refl
  get_elem?-set_ne (x ∷ xs) (suc i) (suc j) v ne = get_elem?-set_ne xs i j v (λ e. ne (ap suc e))

-- the metadata of flow `i`, placed
pub record Entry (cfg : Config) (f : Flow) (i : ℕ) (out : Program) : Type 0 where
  pub meta : FlowMeta
  pub at : get_elem? out.flow_meta i ≡ some meta
  pub placed : Placed cfg f out.per_card meta

-- what the loop does from index `i` on
record Looped (cfg : Config) (i : ℕ) (fs : List Flow) (out out' : Program) : Type 0 where
  well : AllWell out'.per_card
  grows : Grows out.per_card out'.per_card
  earlier : (j : ℕ) → j < i → get_elem? out'.flow_meta j ≡ get_elem? out.flow_meta j
  size : length out'.flow_meta ≡ length out.flow_meta
  entries : (k : ℕ) (f : Flow) → get_elem? fs k ≡ some f → Entry cfg f (i + k) out'

Entry-shift :
    (cfg : Config) (f : Flow) (out : Program) {i j : ℕ}
    → i ≡ j
    → Entry cfg f i out
    → Entry cfg f j out
Entry-shift cfg f out e h = rw (← e) h

Placed-same :
    (cfg : Config) (cs : List CardProgram) (m : FlowMeta) {f g : Flow}
    → some f ≡ some g
    → Placed cfg f cs m
    → Placed cfg g cs m
Placed-same cfg cs m {f} {g} e p = let same : f ≡ g = cc in rw (← same) p

compile_flows-Looped :
    (cfg : Config) (i : ℕ) (fs : List Flow) (out out' : Program)
    → AllWell out.per_card
    → i + length fs ≤ length out.flow_meta
    → compile_flows cfg i fs out ≡ ok out'
    → Looped cfg i fs out out'
unfolding compile_flows
compile_flows-Looped cfg i [] out out' w room h = rw (← ok-injective h) (record {
  well = w;
  grows = Grows-refl out.per_card;
  earlier = λ j lt. refl;
  size = refl;
  entries = λ k f e. cc;
})
compile_flows-Looped cfg i (f ∷ fs) out out' w room h =
    let (mid, h1, h2) = >>=-eq-ok (compile_one_flow cfg f i out) (compile_flows cfg (i + 1) fs) h in
    let step = compile_one_flow-Stepped cfg f i out mid w h1 in
    let size = ap length step.wrote ∙ length-set out.flow_meta i step.meta in
    let rest = compile_flows-Looped cfg (i + 1) fs mid out' step.well (omega arith) h2 in
    record {
      well = rest.well;
      grows = Grows-trans out.per_card mid.per_card out'.per_card step.grows rest.grows;
      earlier = λ j lt.
          rest.earlier j (omega arith)
          ∙ ap (λ l. get_elem? l j) step.wrote
          ∙ get_elem?-set_ne out.flow_meta i j step.meta (omega arith);
      size = rest.size ∙ size;
      entries = λ k.
          elim k as (λ k. (g : Flow) → get_elem? (f ∷ fs) k ≡ some g → Entry cfg g (i + k) out') [
            | zero ↦ λ g e. Entry-shift cfg g out' {i = i} {j = i + 0} (omega arith) (record {
              meta = step.meta;
              at =
                  rest.earlier i (omega arith)
                  ∙ ap (λ l. get_elem? l i) step.wrote
                  ∙ get_elem?-set_self out.flow_meta i step.meta (omega arith);
              placed =
                  Placed-Grows cfg g mid.per_card out'.per_card step.meta rest.grows
                    (Placed-same cfg mid.per_card step.meta e step.placed);
            })
            | suc k ↦ λ g e. Entry-shift cfg g out' (omega arith) (rest.entries k g e)
          ];
    }

fresh-AllWell : (cards : List Card) → AllWell (map (λ (c : Card). empty_card c.id) cards)
fresh-AllWell [] = tt
fresh-AllWell (c ∷ cs) = (
  record {
    rows = omega arith;
    numbered = tt;
    maps = tt;
    keys = tt;
    key_count = omega arith;
    pool = record { cmps = omega arith; udfs = omega arith };
    rules = omega arith;
  },
  fresh-AllWell cs,
)

-- what a compiled program promises for its configuration
pub record Compiled (cfg : Config) (out : Program) : Type 0 where
  pub well : AllWell out.per_card
  pub size : length out.flow_meta ≡ length cfg.flows
  pub entries : (i : ℕ) (f : Flow) → get_elem? cfg.flows i ≡ some f → Entry cfg f i out

compile_tables-Compiled :
    (cfg : Config) (out : Program) → compile_tables cfg ≡ ok out → Compiled cfg out
unfolding compile_tables fresh_program
compile_tables-Compiled cfg out h =
    let (mid, h1, k1) = >>=-eq-ok (compile_flows cfg 0 cfg.flows (fresh_program cfg)) _ h in
    let (punted, h2, k2) = >>=-eq-ok (compile_punt_rules cfg cfg.logical_if mid.per_card) _ k1 in
    let (forwarded, h3, k3) = >>=-eq-ok (compile_forward_rules cfg cfg.forwards punted) _ k2 in
    let (cards, h4, k4) = >>=-eq-ok (assign_all cfg forwarded) _ k3 in
    let n = length-replicate (length cfg.flows) zero_meta in
    let l =
      compile_flows-Looped cfg 0 cfg.flows (fresh_program cfg) mid (fresh-AllWell cfg.cards)
        (omega (arith, n)) h1 in
    let p = compile_punt_rules-Passes cfg cfg.logical_if mid.per_card punted l.well h2 in
    let q = compile_forward_rules-Passes cfg cfg.forwards punted forwarded p.0 h3 in
    let r = assign_all-Passes cfg forwarded cards q.0 h4 in
    let grows =
      Grows-trans mid.per_card punted cards p.1 (Grows-trans punted forwarded cards q.1 r.1) in
    rw (← ok-injective k4) (record {
      well = r.0;
      size = l.size ∙ n;
      entries = λ i f e.
          let entry = Entry-shift cfg f mid {i = 0 + i} {j = i} (omega arith) (l.entries i f e) in
          record {
            meta = entry.meta;
            at = entry.at;
            placed = Placed-Grows cfg f mid.per_card cards entry.meta grows entry.placed;
          };
    })

-- When `pw_flow_compile` succeeds, the configuration is valid, every card's tables fit the hardware
-- with every row in the slot that it names and every classifier entry leading to a row that is
-- there, and the metadata has one entry for each flow: it names the cards of the flow's two ports,
-- a slot whose row transmits the flow, and, unless the flow is a background one, a slot whose row
-- checks the flow and to which the flow-id map or the hash table of the receiving card leads.
pub flow_compile-ok :
    (cfg : Config) (out : Program) → flow_compile cfg ≡ ok out → IsValid cfg × Compiled cfg out
unfolding flow_compile
flow_compile-ok cfg out h = elim (Option-cases (validate cfg)) [
  | inl e ↦ ((validate_iff cfg).0 e, compile_tables-Compiled cfg out (ground arith))
  | inr (fault, e) ↦ absurd (ground arith)
]
