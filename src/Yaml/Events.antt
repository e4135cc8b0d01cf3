-- ===== src/Yaml/Events.antt =====
-- What a tree is as a sequence of events, and when its mappings have no key twice.
use packet_wyrm.Base.{
  ℕ, suc, ◌+◌, ◌≤◌, max, ◌≡◌, refl, false, ◌||◌, List, ◌∷◌, length, words_eq, arith,
}
use packet_wyrm.Base.{Text}
use packet_wyrm.Yaml.{Node, scalar, mapping, sequence, Pairs, end, pair, Items, nil, cons, has_key}
use packet_wyrm.Yaml.Build.{Event, map_append, seq_append}

-- the first event of a tree
abbrev pub first : Node → Event
first (scalar v) = Event.scalar_event v
first (mapping m) = Event.mapping_start
first (sequence s) = Event.sequence_start

-- the events of a tree after its first, before those of `tail`
unfoldable mutual
  pub after : Node → List Event → List Event
  after (scalar v) tail = tail
  after (mapping m) tail = pairs_events m (Event.mapping_end ∷ tail)
  after (sequence s) tail = items_events s (Event.sequence_end ∷ tail)

  pub pairs_events : Pairs → List Event → List Event
  pairs_events end tail = tail
  pairs_events (pair k v rest) tail =
      Event.scalar_event k ∷ first v ∷ after v (pairs_events rest tail)

  pub items_events : Items → List Event → List Event
  items_events nil tail = tail
  items_events (cons x rest) tail = first x ∷ after x (items_events rest tail)

-- No mapping of the tree has a key twice.
abbrev mutual
  pub Distinct : Node → Type 0
  Distinct (scalar v) = Unit
  Distinct (mapping m) = DistinctPairs m
  Distinct (sequence s) = DistinctItems s

  pub DistinctPairs : Pairs → Type 0
  DistinctPairs end = Unit
  DistinctPairs (pair k v rest) = (has_key k rest ≡ false) × Distinct v × DistinctPairs rest

  pub DistinctItems : Items → Type 0
  DistinctItems nil = Unit
  DistinctItems (cons x rest) = Distinct x × DistinctItems rest

-- No key of the second array is in the first.
abbrev pub Apart : Pairs → Pairs → Type 0
Apart m end = Unit
Apart m (pair k v rest) = (has_key k m ≡ false) × Apart m rest

abbrev pub pairs_append : Pairs → Pairs → Pairs
pairs_append end m = m
pairs_append (pair k v rest) m = pair k v (pairs_append rest m)

abbrev pub items_append : Items → Items → Items
items_append nil s = s
items_append (cons x rest) s = cons x (items_append rest s)

-- how deep the tree is, an array counted link by link
unfoldable mutual
  pub depth : Node → ℕ
  depth (scalar v) = 1
  depth (mapping m) = suc (depth_pairs m)
  depth (sequence s) = suc (depth_items s)

  pub depth_pairs : Pairs → ℕ
  depth_pairs end = 1
  depth_pairs (pair k v rest) = suc (max (depth v) (depth_pairs rest))

  pub depth_items : Items → ℕ
  depth_items nil = 1
  depth_items (cons x rest) = suc (max (depth x) (depth_items rest))

depth_pos : (t : Node) → 1 ≤ depth t
unfolding depth
depth_pos (scalar v) = omega arith
depth_pos (mapping m) = omega arith
depth_pos (sequence s) = omega arith

depth_pairs_pos : (m : Pairs) → 1 ≤ depth_pairs m
unfolding depth
depth_pairs_pos end = omega arith
depth_pairs_pos (pair k v rest) = omega arith

depth_items_pos : (s : Items) → 1 ≤ depth_items s
unfolding depth
depth_items_pos nil = omega arith
depth_items_pos (cons x rest) = omega arith

-- A tree is no deeper than it has events.
mutual
  unfolding depth after

  depth_node-le :
      (t : Node) (tail : List Event) → depth t + length tail ≤ suc (length (after t tail))
  depth_node-le (scalar v) tail = omega arith
  depth_node-le (mapping m) tail = omega (arith, depth_pairs-le m (Event.mapping_end ∷ tail))
  depth_node-le (sequence s) tail = omega (arith, depth_items-le s (Event.sequence_end ∷ tail))

  depth_pairs-le :
      (m : Pairs) (tail : List Event)
      → depth_pairs m + length tail ≤ suc (length (pairs_events m tail))
  depth_pairs-le end tail = omega arith
  depth_pairs-le (pair k v rest) tail = omega (
    arith,
    depth_node-le v (pairs_events rest tail),
    depth_pairs-le rest tail,
    depth_pos v,
    depth_pairs_pos rest,
  )

  depth_items-le :
      (s : Items) (tail : List Event)
      → depth_items s + length tail ≤ suc (length (items_events s tail))
  depth_items-le nil tail = omega arith
  depth_items-le (cons x rest) tail = omega (
    arith,
    depth_node-le x (items_events rest tail),
    depth_items-le rest tail,
    depth_pos x,
    depth_items_pos rest,
  )

pub depth-le : (t : Node) (tail : List Event) → depth t + length tail ≤ suc (length (after t tail))
depth-le t tail = depth_node-le t tail

-- Appending to the end of the pairs so far, one pair after the other.
pub pairs_append-map_append :
    (m : Pairs) (k : Text) (v : Node) (rest : Pairs)
    → pairs_append (map_append m k v) rest ≡ pairs_append m (pair k v rest)
unfolding map_append
pairs_append-map_append end k v rest = refl
pairs_append-map_append (pair j w m) k v rest = rw (pairs_append-map_append m k v rest) refl

pub items_append-seq_append :
    (s : Items) (x : Node) (rest : Items)
    → items_append (seq_append s x) rest ≡ items_append s (cons x rest)
unfolding seq_append
items_append-seq_append nil x rest = refl
items_append-seq_append (cons y s) x rest = rw (items_append-seq_append s x rest) refl

pub pairs_append-end : (m : Pairs) → pairs_append m end ≡ m
pairs_append-end end = refl
pairs_append-end (pair k v m) = rw (pairs_append-end m) refl

pub items_append-nil : (s : Items) → items_append s nil ≡ s
items_append-nil nil = refl
items_append-nil (cons x s) = rw (items_append-nil s) refl

words_eq_comm : (a b : Text) → words_eq a b ≡ words_eq b a
words_eq_comm List.[] List.[] = refl
words_eq_comm List.[] (y ∷ ys) = refl
words_eq_comm (x ∷ xs) List.[] = refl
words_eq_comm (x ∷ xs) (y ∷ ys) = ground (arith, words_eq_comm xs ys)

has_key-map_append :
    (m : Pairs) (j k : Text) (v : Node)
    → has_key j (map_append m k v) ≡ (has_key j m || words_eq k j)
unfolding has_key map_append
has_key-map_append end j k v = ground arith
has_key-map_append (pair i w m) j k v = ground (arith, has_key-map_append m j k v)

pub Apart-map_append :
    (m : Pairs) (k : Text) (v : Node) (rest : Pairs)
    → Apart m rest
    → has_key k rest ≡ false
    → Apart (map_append m k v) rest
unfolding has_key
Apart-map_append m k v end apart new = tt
Apart-map_append m k v (pair j w rest) apart new =
    ground (arith, has_key-map_append m j k v, words_eq_comm k j, Apart-map_append m k v rest)

pub Apart-of_append :
    (m : Pairs) (k : Text) (v : Node) (rest : Pairs)
    → Apart (map_append m k v) rest
    → Apart m rest × (has_key k rest ≡ false)
unfolding has_key
Apart-of_append m k v end apart = (tt, refl)
Apart-of_append m k v (pair j w rest) apart =
    ground (arith, has_key-map_append m j k v, words_eq_comm k j, Apart-of_append m k v rest)

pub Apart-end : (rest : Pairs) → Apart end rest
unfolding has_key
Apart-end end = tt
Apart-end (pair k v rest) = (refl, Apart-end rest)
