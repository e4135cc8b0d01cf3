-- ===== src/Compiler/Passes.antt =====
-- The passes behind the flow loop: `compile_punt_rules`, `compile_forward_rules` and the bucket
-- assignment leave every row, map entry and table slot where it is.
pub mod Buckets
use packet_wyrm.Base.{
  ℕ, ◌+◌, ◌≡◌, ◌≤◌, ◌<◌, refl, sym, ap, ◌∙◌, Option, none, some, Option-cases, Bool, true, false,
  not, ◌==◌, Bool-cases, inl, inr, List, [], ◌∷◌, ◌++◌, All, map, length, set, get_or, Result, ok,
  err, Error, >>=-eq-ok, ◌>>=◌, ◌>>◌, reject_if, ok-injective, arith,
}
use native.Mathlib.Decide.{ℕ_discrete}
use packet_wyrm.Config.{Config, LogicalIf, ForwardRule, PortRef}
use packet_wyrm.Config.Resolve.{resolve_port}
use packet_wyrm.Compiler.Tables.{FcRule, HashEntry, CardProgram}
use packet_wyrm.Compiler.Append.{card_slot, update_card}
use packet_wyrm.Compiler.Hash.{hash_index}
use packet_wyrm.Compiler.Rules.{
  add_punt_rules, punt_matches, compile_punt, compile_punt_rules, add_forward_rule, compile_forward,
  compile_forward_rules,
}
use packet_wyrm.Compiler.Rules.Meaning.{Condition}
use packet_wyrm.Compiler.Rules.Punted.{Adds, add_punt_rules_lem}
use packet_wyrm.Compiler.Rules.Forward.{add_forward_rule_lem}
use packet_wyrm.Compiler.Seed.{
  mask_entry, indistinct, place, search_seed, masked, settle, max_attempts, assign_buckets,
  assign_all,
}
use packet_wyrm.Compiler.Growth.{
  IsPrefix, IsPrefix-refl, CardGrows, CardGrows-refl, Grows, Grows-refl, Grows-trans, entry_slots,
  update_card-All, update_card-Grows,
}
use packet_wyrm.Compiler.OneFlow.Capacity.{KeyFits, CardWell}
use packet_wyrm.Compiler.OneFlow.Plan.{reject_if-ok}
use packet_wyrm.Compiler.OneFlow.Sound.{AllWell}

IsPrefix-eq {ℓ} : {A : Type ℓ} {xs ys : List A} → ys ≡ xs → IsPrefix xs ys
IsPrefix-eq {xs} e = rw e (IsPrefix-refl xs)

module _ {cp cp' : CardProgram} {new : List FcRule} (a : Adds cp new cp') where
  Adds-CardGrows : CardGrows cp cp'
  Adds-CardGrows = record {
    id = a.keeps.id;
    rows = IsPrefix-eq a.keeps.rows;
    maps = IsPrefix-eq a.keeps.maps;
    keys = IsPrefix-eq (ap entry_slots a.keeps.keys);
  }

  Adds-CardWell : CardWell cp → CardWell cp'
  Adds-CardWell w = record {
    rows = rw a.keeps.rows w.rows;
    numbered = rw a.keeps.rows w.numbered;
    maps = rw (a.keeps.rows, a.keeps.maps) w.maps;
    keys = rw (a.keeps.rows, a.keeps.keys) w.keys;
    key_count = rw a.keeps.keys w.key_count;
    pool = a.fits;
    rules = a.count w.rules;
  }

pub slot-All {κ} :
    (P : CardProgram → Type κ) (id : ℕ) (cs : List CardProgram) (c : CardProgram)
    → All P cs
    → card_slot id cs ≡ some c
    → P c
unfolding card_slot
slot-All P id [] c h s = cc
slot-All P id (d ∷ ds) c h s = elim (ℕ_discrete d.card_id id) [
  | yes e ↦ let same : d ≡ c = ground arith in rw (← same) h.0
  | no e ↦ slot-All P id ds c h.1 (ground arith)
]

-- what a pass over well-formed cards does
abbrev pub Passes : List CardProgram → List CardProgram → Type 0
Passes cs cs' = AllWell cs' × Grows cs cs'

pub Passes-trans : (a b c : List CardProgram) → Passes a b → Passes b c → Passes a c
Passes-trans a b c p q = (q.0, Grows-trans a b c p.1 q.1)

-- A call that keeps the card it finds well formed, and grows it.
update_card-Passes :
    (id : ℕ) (f : CardProgram → Result CardProgram) (cs cs' : List CardProgram)
    → ((c c' : CardProgram) → f c ≡ ok c' → CardWell c → CardWell c' × CardGrows c c')
    → AllWell cs
    → update_card id f cs ≡ ok cs'
    → Passes cs cs'
update_card-Passes id f cs cs' keeps w u = (
  update_card-All id f CardWell cs cs' (λ c c' s h v. (keeps c c' h v).0) w u,
  update_card-Grows id f cs cs' (λ c c' s h. (keeps c c' h (slot-All CardWell id cs c w s)).1) u,
)

-- The comparators' conditions do not matter here.
abbrev AnyFrame : Condition → Type 0
AnyFrame c = Unit

compile_punt-Passes :
    (cfg : Config) (l : LogicalIf) (cs cs' : List CardProgram)
    → AllWell cs
    → compile_punt cfg l cs ≡ ok cs'
    → Passes cs cs'
unfolding compile_punt
compile_punt-Passes cfg l cs cs' w h =
    let (ref, _, u) = >>=-eq-ok (resolve_port cfg l.global_port) _ h in
    update_card-Passes ref.card_id (add_punt_rules ref l (punt_matches l)) cs cs'
      (λ c c' k v.
        let (new, adds, _) = add_punt_rules_lem AnyFrame ref l (punt_matches l) c c' v.pool k in
        (Adds-CardWell adds v, Adds-CardGrows adds))
      w u

pub compile_punt_rules-Passes :
    (cfg : Config) (ls : List LogicalIf) (cs cs' : List CardProgram)
    → AllWell cs
    → compile_punt_rules cfg ls cs ≡ ok cs'
    → Passes cs cs'
unfolding compile_punt_rules
compile_punt_rules-Passes cfg [] cs cs' w h = rw (← ok-injective h) (w, Grows-refl cs)
compile_punt_rules-Passes cfg (l ∷ ls) cs cs' w h =
    let (mid, h1, h2) = >>=-eq-ok (compile_punt cfg l cs) (compile_punt_rules cfg ls) h in
    let p = compile_punt-Passes cfg l cs mid w h1 in
    Passes-trans cs mid cs' p (compile_punt_rules-Passes cfg ls mid cs' p.0 h2)

compile_forward-Passes :
    (cfg : Config) (fr : ForwardRule) (cs cs' : List CardProgram)
    → AllWell cs
    → compile_forward cfg fr cs ≡ ok cs'
    → Passes cs cs'
unfolding compile_forward
compile_forward-Passes cfg fr cs cs' w h =
    let (ing, _, h1) = >>=-eq-ok (resolve_port cfg fr.ingress_port) _ h in
    let (egr, _, h2) = >>=-eq-ok (resolve_port cfg fr.egress_port) _ h1 in
    let (_, u) = reject_if-ok (not (ing.card_id == egr.card_id)) Error.inval _ h2 in
    update_card-Passes ing.card_id (add_forward_rule ing egr fr) cs cs'
      (λ c c' k v.
        let (r, adds, _) = add_forward_rule_lem AnyFrame ing egr fr c c' v.pool k in
        (Adds-CardWell adds v, Adds-CardGrows adds))
      w u

pub compile_forward_rules-Passes :
    (cfg : Config) (frs : List ForwardRule) (cs cs' : List CardProgram)
    → AllWell cs
    → compile_forward_rules cfg frs cs ≡ ok cs'
    → Passes cs cs'
unfolding compile_forward_rules
compile_forward_rules-Passes cfg [] cs cs' w h = rw (← ok-injective h) (w, Grows-refl cs)
compile_forward_rules-Passes cfg (fr ∷ frs) cs cs' w h =
    let (mid, h1, h2) = >>=-eq-ok (compile_forward cfg fr cs) (compile_forward_rules cfg frs) h in
    let p = compile_forward-Passes cfg fr cs mid w h1 in
    Passes-trans cs mid cs' p (compile_forward_rules-Passes cfg frs mid cs' p.0 h2)
