-- ===== src/Yaml.antt =====
-- The YAML tree and its lookup (sw/libpacketwyrm/src/yaml.h, yaml.c). The texts of scalars and
-- keys are the lists of their bytes before the NUL, as `strcmp` and the parsers of scalars read
-- them; the line numbers, which only diagnostics use, are left out.
pub mod Build
pub mod Events
pub mod RoundTrip
pub mod Sound
use packet_wyrm.Base.{ℕ, Bool, true, false, ◌||◌, Option, none, some, Text, words_eq}
use packet_wyrm.Base.{if◌then◌else◌}

-- `pw_yaml_node`, with `pw_yaml_kind` as constructors; the array of a mapping is `Pairs`, that of
-- a sequence `Items`.
mutual
  pub data Node : Type 0 where
    scalar : Text → Node
    mapping : Pairs → Node
    sequence : Items → Node

  pub data Pairs : Type 0 where
    end : Pairs
    pair : Text → Node → Pairs → Pairs

  pub data Items : Type 0 where
    nil : Items
    cons : Node → Items → Items

-- the loop of `pw_yaml_map_get`
pub pairs_get : Pairs → Text → Option Node
pairs_get end key = none
pairs_get (pair k v rest) key = if words_eq k key then some v else pairs_get rest key

-- `pw_yaml_map_get`
unfoldable pub map_get : Node → Text → Option Node
unfolding pairs_get
map_get (mapping items) key = pairs_get items key
map_get (scalar value) key = none
map_get (sequence items) key = none

-- `root->u.seq.n`
unfoldable pub count_items : Items → ℕ
count_items nil = 0
count_items (cons x rest) = Prim.Native.Nat.suc (count_items rest)

-- the test for a key that the mapping has already
unfoldable pub has_key : Text → Pairs → Bool
has_key key end = false
has_key key (pair k v rest) = words_eq k key || has_key key rest
