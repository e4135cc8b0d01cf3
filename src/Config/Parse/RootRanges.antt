-- ===== src/Config/Parse/RootRanges.antt =====
-- What a text that parses promises of the configuration.
use packet_wyrm.Base.{
  ℕ, ◌≤◌, ◌≡◌, ◌⊎◌, refl, subst, Bool, true, false, Option, none, some, List, [], ◌∷◌, Text, codes,
  length, All, ltb, Error, Result, ok, err, ◌>>=◌, ◌>>◌, Ensures, fails, returns, Ensures-bind,
  Ensures-reject, Ensures-then, Ensures-of, ensured, reject_if, arith, inl, inr, words_eq,
  words_eq_sound, Bool-cases, All-map_of,
}
use packet_wyrm.Yaml.{
  Node, scalar, mapping, sequence, Pairs, end, pair, Items, map_get, count_items,
}
use packet_wyrm.Yaml.Build.{Event, parse}
use packet_wyrm.Scalar.{Net, IsInet}
use packet_wyrm.Config.{Config, Card}
use packet_wyrm.Config.FlowModel.{FlowTraffic}
use packet_wyrm.Config.Validate.{check_flow_traffic}
use packet_wyrm.Config.Parse.Fields.{req_map, req_seq}
use packet_wyrm.Config.Parse.Cards.{parse_card, parse_logical_if, each_item}
use packet_wyrm.Config.Parse.Entries.{parse_flow, parse_forward}
use packet_wyrm.Config.Parse.Root.{
  max_cards, is_allowed, reject_unknown_pairs, reject_unknown_keys, root_keys, parse_system_part,
  parse_cards, parse_list, parse_root, parse_string_ex,
}
use packet_wyrm.Config.Parse.Ranges.{Ensures-each, Free, Free-seq}
use packet_wyrm.Config.Parse.CardRanges.{
  parse_system-Ensures, parse_card-Ensures, parse_logical_if-Ensures,
}
use packet_wyrm.Config.Parse.EntryRanges.{parse_flow-Ensures, parse_forward-Ensures}
use packet_wyrm.Config.Parse.InRange.{
  IsSystem, IsCard, IsLogicalIf, IsFlow, IsForward, IsConfig, IsTraffic,
}

parse_system_part-Ensures :
    (test_only : Bool) (block : Option Node)
    → Ensures (λ s. test_only ≡ false → IsSystem s) (parse_system_part test_only block)
unfolding parse_system_part
parse_system_part-Ensures test_only (some sys) =
    Ensures-of _ (λ s done env. ensured IsSystem (parse_system-Ensures (some sys)) done)
parse_system_part-Ensures true none = returns _ (λ env. absurd (cc))
parse_system_part-Ensures false none =
    Ensures-of _ (λ s done env. ensured IsSystem (parse_system-Ensures none) done)

abbrev AreCards : List Card → Type 0
AreCards cs = All IsCard cs × (length cs ≤ 16)

some_cards-Ensures :
    (cards : Node)
    → Ensures AreCards (do
      items ← req_seq (some cards)
      reject_if (ltb max_cards (count_items items)) Error.out_of_range
      each_item parse_card items)
some_cards-Ensures cards = Ensures-bind (Free Items) (Free-seq _) λ items _.
    Ensures-reject (ltb max_cards (count_items items)) _ λ few. Ensures-of _ λ cs done.
      let (all, count) =
        ensured (λ cs. All IsCard cs × (length cs ≡ count_items items))
          (Ensures-each parse_card items parse_card-Ensures) done in
      (all, rw count (ground arith))

cards-Ensures :
    (test_only : Bool) (block : Option Node) → Ensures AreCards (parse_cards test_only block)
unfolding parse_cards
cards-Ensures true none = returns _ (tt, omega arith)
cards-Ensures false none = fails Error.parse
cards-Ensures true (some cards) = some_cards-Ensures cards
cards-Ensures false (some cards) = some_cards-Ensures cards

list-Ensures :
    {A : Type 0} {P : A → Type 0} (parse_item : Node → Result A) (block : Option Node)
    → ((n : Node) → Ensures P (parse_item n))
    → Ensures (λ as_. All P as_) (parse_list parse_item block)
unfolding parse_list
list-Ensures parse_item none each = returns [] tt
list-Ensures {A} {P} parse_item (some block) each =
    Ensures-bind (Free Items) (Free-seq _) λ items _. Ensures-of _ λ as_ done.
      (ensured (λ xs. All P xs × (length xs ≡ count_items items))
        (Ensures-each parse_item items each) done).0

-- A key is one of those allowed.
abbrev pub IsOneOf : Text → List Text → Type 0
IsOneOf k [] = ⊥
IsOneOf k (a ∷ allowed) = (k ≡ a) ⊎ IsOneOf k allowed

abbrev pub KnownPairs : List Text → Pairs → Type 0
KnownPairs allowed end = Unit
KnownPairs allowed (pair k v rest) = IsOneOf k allowed × KnownPairs allowed rest

-- Every key of a mapping is one of those allowed.
abbrev pub KnownKeys : List Text → Node → Type 0
KnownKeys allowed (mapping m) = KnownPairs allowed m
KnownKeys allowed (scalar v) = Unit
KnownKeys allowed (sequence s) = Unit

is_allowed-IsOneOf :
    (allowed : List Text) (k : Text) → is_allowed allowed k ≡ true → IsOneOf k allowed
unfolding is_allowed
is_allowed-IsOneOf [] k yes_ = absurd (cc)
is_allowed-IsOneOf (a ∷ allowed) k found = elim (Bool-cases (words_eq k a)) [
  | inl same ↦ inl (words_eq_sound k a same)
  | inr other ↦ inr (is_allowed-IsOneOf allowed k (rw other at found))
]

known_pairs :
    (allowed : List Text) (m : Pairs) (u : Unit {0})
    → reject_unknown_pairs allowed m ≡ ok u
    → KnownPairs allowed m
unfolding reject_unknown_pairs
known_pairs allowed end u done = tt
known_pairs allowed (pair k v rest) u done = elim (Bool-cases (is_allowed allowed k)) [
  | inl known ↦ (is_allowed-IsOneOf allowed k known, known_pairs allowed rest u (rw known at done))
  | inr unknown ↦ absurd (let stopped : err Error.parse ≡ ok u = rw unknown at done in cc)
]

known_keys :
    (allowed : List Text) (root : Node) (u : Unit {0})
    → reject_unknown_keys root allowed ≡ ok u
    → KnownKeys allowed root
unfolding reject_unknown_keys
known_keys allowed (mapping m) u done = known_pairs allowed m u done
known_keys allowed (scalar v) u done = tt
known_keys allowed (sequence s) u done = tt

-- What a root that parses has, and what its configuration is.
abbrev RootIs : Bool → Node → Config → Type 0
RootIs test_only root cfg =
    KnownKeys root_keys root × IsConfig cfg × (test_only ≡ false → IsSystem cfg.system)

the_mapping : (root : Node) → Ensures (λ m. m ≡ root) (req_map (some root))
unfolding req_map
the_mapping (mapping m) = returns _ refl
the_mapping (scalar v) = fails Error.parse
the_mapping (sequence s) = fails Error.parse

module _ (net : Net) (inet : IsInet net) where
  parse_root-Ensures :
      (test_only : Bool) (root : Node)
      → Ensures (RootIs test_only root) (parse_root net test_only root)
  unfolding parse_root
  parse_root-Ensures test_only root =
      Ensures-bind (λ m. m ≡ root) (the_mapping root)
        λ m same.
          Ensures-then (KnownKeys root_keys m)
            (Ensures-of (reject_unknown_keys m root_keys) (known_keys root_keys m))
            λ known.
              Ensures-bind (λ s. test_only ≡ false → IsSystem s)
                (parse_system_part-Ensures test_only _)
                λ system sy. Ensures-bind AreCards (cards-Ensures test_only _) λ cards cs.
                  Ensures-bind (λ ls. All IsLogicalIf ls)
                    (list-Ensures parse_logical_if (map_get m (codes "logical_interfaces"))
                      parse_logical_if-Ensures)
                    λ lifs ls.
                      Ensures-bind (λ fs. All IsFlow fs)
                        (list-Ensures (parse_flow net) (map_get m (codes "flows"))
                          (parse_flow-Ensures net inet))
                        λ flows fs.
                          Ensures-bind (λ rs. All IsForward rs)
                            (list-Ensures (parse_forward net) (map_get m (codes "forwards"))
                              (parse_forward-Ensures net inet))
                            λ forwards rs. returns _ (
                              subst (KnownKeys root_keys) same known,
                              record {
                                few_cards = cs.1;
                                cards = cs.0;
                                logical_if = ls;
                                flows = fs;
                                forwards = rs;
                              },
                              sy,
                            )

  -- When a text parses, at most 16 cards, every card, logical interface, flow and forward rule
  -- are in range: numbers in the width of their fields and the bounds that the parsers promise,
  -- texts in their arrays with the NUL, addresses and masks of their length, one address family
  -- for each flow and outer header, one frame-length form within 60 and 1518 bytes, and one rate;
  -- and where it is not a test alone, the system block is too.
  pub parse_string_ex-IsConfig :
      (test_only : Bool) (events : List Event) (cfg : Config)
      → parse_string_ex net test_only events ≡ ok cfg
      → IsConfig cfg × (test_only ≡ false → IsSystem cfg.system)
  unfolding parse_string_ex
  parse_string_ex-IsConfig test_only events cfg done = go (parse events) done
    where
      go :
          (o : Option Node)
          → elim o as (λ o. Result Config) [
            | none ↦ err Error.parse
            | some root ↦ parse_root net test_only root
          ]
            ≡ ok cfg
          → IsConfig cfg × (test_only ≡ false → IsSystem cfg.system)
      go none h = absurd (cc)
      go (some root) h =
          let parsed = ensured (RootIs test_only root) (parse_root-Ensures test_only root) h in
          (parsed.1, parsed.2)

  -- A root that parses has no key but the five that the schema names.
  pub parse_root-known :
      (test_only : Bool) (root : Node) (cfg : Config)
      → parse_root net test_only root ≡ ok cfg
      → KnownKeys root_keys root
  parse_root-known test_only root cfg done =
      (ensured (RootIs test_only root) (parse_root-Ensures test_only root) done).0

check_flow_traffic-none : (i : ℕ) (t : FlowTraffic) → IsTraffic t → check_flow_traffic i t ≡ none
unfolding check_flow_traffic
check_flow_traffic-none i t traffic = elim (Bool-cases t.frame_len_fixed_set) [
  | inl fixed ↦ let f = traffic.fixed fixed in ground arith
  | inr range ↦ let r = traffic.range range in ground arith
]

-- No flow of a configuration that has been parsed fails the checks of the validation on its frame
-- lengths and its rates.
pub parse_string_ex-check_flow_traffic :
    (net : Net) (inet : IsInet net) (test_only : Bool) (events : List Event) (cfg : Config)
    → parse_string_ex net test_only events ≡ ok cfg
    → All (λ f. (i : ℕ) → check_flow_traffic i f.traffic ≡ none) cfg.flows
parse_string_ex-check_flow_traffic net inet test_only events cfg done =
    All-map_of IsFlow _ (λ f p i. check_flow_traffic-none i f.traffic p.traffic) cfg.flows
      (parse_string_ex-IsConfig net inet test_only events cfg done).0.flows
