-- ===== src/Yaml/Sound.antt =====
-- What the builder accepts is the sequence of events of the tree that it returns.
use packet_wyrm.Base.{
  ℕ, zero, suc, ◌≡◌, refl, ◌∙◌, ap, sym, Bool, true, false, Option, none, some, List, [], ◌∷◌,
}
use packet_wyrm.Base.{Text}
use packet_wyrm.Yaml.{Node, mapping, sequence, Pairs, end, pair, Items, nil, cons, has_key}
use packet_wyrm.Yaml.Build.{
  Event, map_append, seq_append, build_node, build_sequence, build_mapping,
}
use packet_wyrm.Yaml.Events.{
  first, after, pairs_events, items_events, Distinct, DistinctPairs, DistinctItems, Apart,
  pairs_append, items_append, pairs_append-map_append, items_append-seq_append, pairs_append-end,
  items_append-nil, Apart-of_append,
}

-- The events read are those of the tree, and its mappings have no key twice.
abbrev Reads : Event → List Event → Option (Node × List Event) → Type 0
Reads ev evs none = Unit
Reads ev evs (some (t, rest)) = (ev ≡ first t) × (evs ≡ after t rest) × Distinct t

-- What the loops read after the pairs or the items so far.
abbrev ReadsPairs : Pairs → List Event → Option (Node × List Event) → Type 0
ReadsPairs done evs none = Unit
ReadsPairs done evs (some (t, rest)) =
    (m : Pairs) × (t ≡ mapping (pairs_append done m))
    × (evs ≡ pairs_events m (Event.mapping_end ∷ rest))
    × Apart done m
    × DistinctPairs m

abbrev ReadsItems : Items → List Event → Option (Node × List Event) → Type 0
ReadsItems done evs none = Unit
ReadsItems done evs (some (t, rest)) =
    (s : Items) × (t ≡ sequence (items_append done s))
    × (evs ≡ items_events s (Event.sequence_end ∷ rest))
    × DistinctItems s

-- One more item in front.
ReadsItems-cons :
    (done : Items) (x : Node) (ev : Event) (evs between : List Event)
    (r : Option (Node × List Event))
    → (ev ≡ first x) × (evs ≡ after x between) × Distinct x
    → ReadsItems (seq_append done x) between r
    → ReadsItems done (ev ∷ evs) r
unfolding after
ReadsItems-cons done x ev evs between none item rest = tt
ReadsItems-cons done x ev evs between (some (t, tail)) item (s, built, read, distinct) =
    (cons x s, built ∙ ap sequence (items_append-seq_append done x s), cc, (item.2, distinct))

ReadsPairs-pair :
    (done : Pairs) (k : Text) (v : Node) (ev : Event) (evs between : List Event)
    (r : Option (Node × List Event))
    → has_key k done ≡ false
    → (ev ≡ first v) × (evs ≡ after v between) × Distinct v
    → ReadsPairs (map_append done k v) between r
    → ReadsPairs done (Event.scalar_event k ∷ ev ∷ evs) r
unfolding after
ReadsPairs-pair done k v ev evs between none new value rest = tt
ReadsPairs-pair done k v ev evs between (some (t, tail)) new value
      (m, built, read, apart, distinct) =
    let back = Apart-of_append done k v m apart in
    (
      pair k v m,
      built ∙ ap mapping (pairs_append-map_append done k v m),
      cc,
      (new, back.0),
      (back.1, value.2, distinct),
    )

ReadsPairs-mapping :
    (evs : List Event) (r : Option (Node × List Event))
    → ReadsPairs end evs r
    → Reads Event.mapping_start evs r
unfolding after
ReadsPairs-mapping evs none reads = tt
ReadsPairs-mapping evs (some (t, rest)) (m, built, read, apart, distinct) =
    rw built (refl, read, distinct)

ReadsItems-sequence :
    (evs : List Event) (r : Option (Node × List Event))
    → ReadsItems nil evs r
    → Reads Event.sequence_start evs r
unfolding after
ReadsItems-sequence evs none reads = tt
ReadsItems-sequence evs (some (t, rest)) (s, built, read, distinct) =
    rw built (refl, read, distinct)

-- The rounds of the loops, given what the rest of the loop reads.
item-Reads :
    (done : Items) (ev : Event) (evs : List Event) (item : Option (Node × List Event))
    (loop : Items → List Event → Option (Node × List Event))
    → Reads ev evs item
    → ((s : Items) (rest : List Event) → ReadsItems s rest (loop s rest))
    → ReadsItems done
        (ev ∷ evs)
        (elim item [ none ↦ none | some (child, rest) ↦ loop (seq_append done child) rest ])
item-Reads done ev evs none loop read later = tt
item-Reads done ev evs (some (child, rest)) loop read later =
    ReadsItems-cons done child ev evs rest _ read (later (seq_append done child) rest)

pair-Reads :
    (done : Pairs) (k : Text) (ev : Event) (evs : List Event) (value : Option (Node × List Event))
    (loop : Pairs → List Event → Option (Node × List Event)) (seen : Bool)
    → has_key k done ≡ seen
    → Reads ev evs value
    → ((m : Pairs) (rest : List Event) → ReadsPairs m rest (loop m rest))
    → ReadsPairs done (Event.scalar_event k ∷ ev ∷ evs) (elim seen [
      | true ↦ none
      | false ↦ elim value [ none ↦ none | some (v, rest) ↦ loop (map_append done k v) rest ]
    ])
pair-Reads done k ev evs value loop true seen read later = tt
pair-Reads done k ev evs none loop false seen read later = tt
pair-Reads done k ev evs (some (v, rest)) loop false seen read later =
    ReadsPairs-pair done k v ev evs rest _ seen read (later (map_append done k v) rest)

mutual
  unfolding build_node after

  build_node-Reads : (n : ℕ) (ev : Event) (evs : List Event) → Reads ev evs (build_node n ev evs)
  build_node-Reads zero ev evs = tt
  build_node-Reads (suc n) (Event.scalar_event v) evs = (refl, refl, tt)
  build_node-Reads (suc n) Event.sequence_start evs =
      ReadsItems-sequence evs _ (build_sequence-ReadsItems n nil evs)
  build_node-Reads (suc n) Event.mapping_start evs =
      ReadsPairs-mapping evs _ (build_mapping-ReadsPairs n end evs)
  build_node-Reads (suc n) _ evs = tt

  build_sequence-ReadsItems :
      (n : ℕ) (done : Items) (evs : List Event) → ReadsItems done evs (build_sequence n done evs)
  build_sequence-ReadsItems zero done evs = tt
  build_sequence-ReadsItems (suc n) done [] = tt
  build_sequence-ReadsItems (suc n) done (Event.sequence_end ∷ evs) =
      (nil, ap sequence (sym (items_append-nil done)), refl, tt)
  build_sequence-ReadsItems (suc n) done (ev ∷ evs) =
      item-Reads done ev evs (build_node n ev evs) (λ s rest. build_sequence n s rest)
        (build_node-Reads n ev evs) (λ s rest. build_sequence-ReadsItems n s rest)

  build_mapping-ReadsPairs :
      (n : ℕ) (done : Pairs) (evs : List Event) → ReadsPairs done evs (build_mapping n done evs)
  build_mapping-ReadsPairs zero done evs = tt
  build_mapping-ReadsPairs (suc n) done (Event.mapping_end ∷ evs) =
      (end, ap mapping (sym (pairs_append-end done)), refl, tt, tt)
  build_mapping-ReadsPairs (suc n) done (Event.scalar_event key ∷ ev ∷ evs) =
      pair-Reads done key ev evs (build_node n ev evs) (λ m rest. build_mapping n m rest)
        (has_key key done) refl (build_node-Reads n ev evs)
        (λ m rest. build_mapping-ReadsPairs n m rest)
  build_mapping-ReadsPairs (suc n) done _ = tt

-- A tree that the builder returns, with what it leaves unread, has the events that it read, and
-- none of its mappings has a key twice.
pub build_node-some :
    (n : ℕ) (ev : Event) (evs : List Event) (t : Node) (rest : List Event)
    → build_node n ev evs ≡ some (t, rest)
    → (ev ≡ first t) × (evs ≡ after t rest) × Distinct t
build_node-some n ev evs t rest built = rw built at (build_node-Reads n ev evs)
