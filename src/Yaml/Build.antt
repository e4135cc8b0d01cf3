-- ===== src/Yaml/Build.antt =====
-- The builder of the tree (sw/libpacketwyrm/src/yaml.c) over the events of libyaml, which are a
-- list here: where it ends, `yaml_parser_parse` fails. A tree that is given up is NULL, `none`.
-- The recursion takes fuel; `pw_yaml_parse` gives one unit for each event.
use packet_wyrm.Base.{ℕ, zero, suc, Bool, true, false, Option, none, some, List, [], ◌∷◌, length}
use packet_wyrm.Base.{Text}
use packet_wyrm.Yaml.{Node, scalar, mapping, sequence, Pairs, end, pair, Items, nil, cons, has_key}

-- `yaml_event_type_t`, as far as yaml.c tells the events apart
pub data Event : Type 0 where
  stream_start stream_end document_start document_end : Event
  alias sequence_start sequence_end mapping_start mapping_end other : Event
  scalar_event : Text → Event

-- `map_append`
unfoldable pub map_append : Pairs → Text → Node → Pairs
map_append end key v = pair key v end
map_append (pair k w rest) key v = pair k w (map_append rest key v)

-- `seq_append`
unfoldable pub seq_append : Items → Node → Items
seq_append nil v = cons v nil
seq_append (cons x rest) v = cons x (seq_append rest v)

unfoldable mutual
  unfolding map_append seq_append has_key

  pub build_node : ℕ → Event → List Event → Option (Node × List Event)
  build_node zero ev evs = none
  build_node (suc n) (Event.scalar_event v) evs = some (scalar v, evs)
  build_node (suc n) Event.sequence_start evs = build_sequence n nil evs
  build_node (suc n) Event.mapping_start evs = build_mapping n end evs
  build_node (suc n) _ evs = none

  -- the loop of `build_sequence`, with the items so far
  pub build_sequence : ℕ → Items → List Event → Option (Node × List Event)
  build_sequence zero seq evs = none
  build_sequence (suc n) seq [] = none
  build_sequence (suc n) seq (Event.sequence_end ∷ evs) = some (sequence seq, evs)
  build_sequence (suc n) seq (ev ∷ evs) = elim (build_node n ev evs) [
    | none ↦ none
    | some (child, rest) ↦ build_sequence n (seq_append seq child) rest
  ]

  -- the loop of `build_mapping`, with the pairs so far
  pub build_mapping : ℕ → Pairs → List Event → Option (Node × List Event)
  build_mapping zero m evs = none
  build_mapping (suc n) m (Event.mapping_end ∷ evs) = some (mapping m, evs)
  build_mapping (suc n) m (Event.scalar_event key ∷ ev ∷ evs) = elim (has_key key m) [
    | true ↦ none
    | false ↦ elim (build_node n ev evs) [
      | none ↦ none
      | some (v, rest) ↦ build_mapping n (map_append m key v) rest
    ]
  ]
  build_mapping (suc n) m _ = none

-- the variables of `pw_yaml_parse`; `n_docs` is 0 exactly while `seen_doc` is
pub record Walk : Type 0 where
  pub seen_stream : Bool
  pub n_docs : ℕ
  pub root : Option Node

-- `if (!root)`: an empty document is an empty mapping
unfoldable pub root_or_empty : Option Node → Node
root_or_empty none = mapping end
root_or_empty (some t) = t

-- the loop of `pw_yaml_parse`
unfoldable pub walk : ℕ → Walk → List Event → Option Node
unfolding build_node root_or_empty
walk zero w evs = none
walk (suc n) w [] = none
walk (suc n) w (Event.stream_start ∷ evs) = walk n (record w { seen_stream = true }) evs
walk (suc n) w (Event.document_start ∷ evs) = elim w.n_docs [
  | zero ↦ walk n (record w { n_docs = 1 }) evs
  | suc d ↦ none
]
walk (suc n) w (Event.document_end ∷ evs) = walk n w evs
walk (suc n) w (Event.stream_end ∷ evs) = some (root_or_empty w.root)
walk (suc n) w (ev ∷ evs) = elim w.seen_stream [
  | false ↦ none
  | true ↦ elim w.n_docs [
    | zero ↦ none
    | suc d ↦ elim w.root [
      | some t ↦ none
      | none ↦ elim (build_node n ev evs) [
        | none ↦ none
        | some (t, rest) ↦ walk n (record w { root = some t }) rest
      ]
    ]
  ]
]

-- `pw_yaml_parse`, on the events of its text
unfoldable pub parse : List Event → Option Node
unfolding walk
parse evs = walk (suc (length evs)) (record { seen_stream = false; n_docs = 0; root = none }) evs
