-- ===== src/Yaml/RoundTrip.antt =====
-- The builder reads a tree back from its events.
use packet_wyrm.Base.{
  ℕ, zero, suc, ◌≤◌, ◌≡◌, refl, ◌∙◌, ap, true, false, none, some, List, [], ◌∷◌, length, arith,
}
use packet_wyrm.Base.{Text}
use packet_wyrm.Yaml.{Node, scalar, mapping, sequence, Pairs, end, pair, Items, nil, cons, has_key}
use packet_wyrm.Yaml.Build.{
  Event, map_append, seq_append, build_node, build_sequence, build_mapping, walk, parse,
}
use packet_wyrm.Yaml.Events.{
  first, after, pairs_events, items_events, Distinct, DistinctPairs, DistinctItems, Apart,
  pairs_append, items_append, depth, depth_pairs, depth_items, depth-le, pairs_append-map_append,
  items_append-seq_append, pairs_append-end, items_append-nil, Apart-map_append, Apart-end,
}

-- One round of the loop of `build_sequence`, at an item that is built.
build_sequence-item :
    (n : ℕ) (s : Items) (x : Node) (evs : List Event) {child : Node} {rest : List Event}
    → build_node n (first x) evs ≡ some (child, rest)
    → build_sequence (suc n) s (first x ∷ evs) ≡ build_sequence n (seq_append s child) rest
unfolding build_sequence
build_sequence-item n s (scalar v) evs built = rw built refl
build_sequence-item n s (mapping m) evs built = rw built refl
build_sequence-item n s (sequence xs) evs built = rw built refl

-- One round of the loop of `build_mapping`, at a new key and a value that is built.
build_mapping-pair :
    (n : ℕ) (m : Pairs) (k : Text) (ev : Event) (evs : List Event) {v : Node} {rest : List Event}
    → has_key k m ≡ false
    → build_node n ev evs ≡ some (v, rest)
    → build_mapping (suc n) m (Event.scalar_event k ∷ ev ∷ evs)
      ≡ build_mapping n (map_append m k v) rest
unfolding build_mapping
build_mapping-pair n m k ev evs new built = ground arith

mutual
  unfolding build_node after depth

  build_tree :
      (t : Node) (n : ℕ) (tail : List Event)
      → depth t ≤ n
      → Distinct t
      → build_node n (first t) (after t tail) ≡ some (t, tail)
  build_tree (scalar v) zero tail enough distinct = absurd (omega arith)
  build_tree (scalar v) (suc n) tail enough distinct = refl
  build_tree (mapping m) zero tail enough distinct = absurd (omega arith)
  build_tree (mapping m) (suc n) tail enough distinct =
      build_pairs m n end tail (omega arith) distinct (Apart-end m)
  build_tree (sequence s) zero tail enough distinct = absurd (omega arith)
  build_tree (sequence s) (suc n) tail enough distinct =
      build_items s n nil tail (omega arith) distinct

  build_pairs :
      (m : Pairs) (n : ℕ) (done : Pairs) (tail : List Event)
      → depth_pairs m ≤ n
      → DistinctPairs m
      → Apart done m
      → build_mapping n done (pairs_events m (Event.mapping_end ∷ tail))
        ≡ some (mapping (pairs_append done m), tail)
  build_pairs end zero done tail enough distinct apart = absurd (omega arith)
  build_pairs end (suc n) done tail enough distinct apart = rw (pairs_append-end done) refl
  build_pairs (pair k v m) zero done tail enough distinct apart = absurd (omega arith)
  build_pairs (pair k v m) (suc n) done tail enough distinct apart =
      build_mapping-pair n done k (first v) _ apart.0
        (build_tree v n (pairs_events m (Event.mapping_end ∷ tail)) (omega arith) distinct.1)
      ∙ build_pairs m n (map_append done k v) tail (omega arith) distinct.2
          (Apart-map_append done k v m apart.1 distinct.0)
      ∙ ap (λ (p : Pairs). some (mapping p, tail)) (pairs_append-map_append done k v m)

  build_items :
      (s : Items) (n : ℕ) (done : Items) (tail : List Event)
      → depth_items s ≤ n
      → DistinctItems s
      → build_sequence n done (items_events s (Event.sequence_end ∷ tail))
        ≡ some (sequence (items_append done s), tail)
  build_items nil zero done tail enough distinct = absurd (omega arith)
  build_items nil (suc n) done tail enough distinct = rw (items_append-nil done) refl
  build_items (cons x s) zero done tail enough distinct = absurd (omega arith)
  build_items (cons x s) (suc n) done tail enough distinct =
      build_sequence-item n done x _
        (build_tree x n (items_events s (Event.sequence_end ∷ tail)) (omega arith) distinct.0)
      ∙ build_items s n (seq_append done x) tail (omega arith) distinct.1
      ∙ ap (λ (p : Items). some (sequence p, tail)) (items_append-seq_append done x s)

abbrev pub document : Node → List Event
document t =
    Event.stream_start
    ∷ Event.document_start
    ∷ first t
    ∷ after t (Event.document_end ∷ Event.stream_end ∷ [])

walk-root :
    (t : Node) (n : ℕ) (evs : List Event) {rest : List Event}
    → build_node n (first t) evs ≡ some (t, rest)
    → walk (suc n) (record { seen_stream = true; n_docs = 1; root = none }) (first t ∷ evs)
      ≡ walk n (record { seen_stream = true; n_docs = 1; root = some t }) rest
unfolding walk
walk-root (scalar v) n evs built = ground arith
walk-root (mapping m) n evs built = ground arith
walk-root (sequence s) n evs built = ground arith

walk-end :
    (t : Node) (n : ℕ)
    → 2 ≤ n
    → walk n
        (record { seen_stream = true; n_docs = 1; root = some t })
        (Event.document_end ∷ Event.stream_end ∷ [])
      ≡ some t
unfolding walk
walk-end t zero enough = absurd (omega arith)
walk-end t (suc zero) enough = absurd (omega arith)
walk-end t (suc (suc n)) enough = refl

-- `pw_yaml_parse` reads every tree whose mappings have no key twice back from the events of a
-- stream with one document of that tree.
pub parse-document : (t : Node) → Distinct t → parse (document t) ≡ some t
unfolding parse
parse-document t distinct =
    let tail : List Event = Event.document_end ∷ Event.stream_end ∷ [] in
    let n : ℕ = suc (length (after t tail)) in
    let enough : depth t ≤ n = omega (arith, depth-le t tail) in
    walk-root t n (after t tail) (build_tree t n tail enough distinct)
    ∙ walk-end t n (omega (arith, depth-le t tail))
