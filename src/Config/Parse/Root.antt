-- ===== src/Config/Parse/Root.antt =====
-- `reject_unknown_keys`, `parse_root`, `pw_config_parse_string_ex` and `pw_config_clone_env` of
-- sw/libpacketwyrm/src/config.c, on the events of the text. Allocations succeed.
use packet_wyrm.Base.{
  ℕ, Bool, true, false, ◌||◌, Option, none, some, List, [], ◌∷◌, ltb, if◌then◌else◌, Text, codes,
  words_eq, Result, ok, err, Error, Status, ◌>>=◌, ◌>>◌, reject_if,
}
use packet_wyrm.Yaml.{Node, scalar, mapping, sequence, Pairs, end, pair, map_get, count_items}
use packet_wyrm.Yaml.Build.{Event, parse}
use packet_wyrm.Scalar.{Net}
use packet_wyrm.Config.{Config, System, Card}
use packet_wyrm.Config.Parse.Fields.{req_map, req_seq}
use packet_wyrm.Config.Parse.Cards.{parse_system, parse_card, parse_logical_if, each_item}
use packet_wyrm.Config.Parse.Entries.{parse_flow, parse_forward}

-- `PW_MAX_CARDS`
abbrev pub max_cards : ℕ
max_cards = 16

-- the inner loop of `reject_unknown_keys`
unfoldable pub is_allowed : List Text → Text → Bool
is_allowed [] k = false
is_allowed (a ∷ allowed) k = words_eq k a || is_allowed allowed k

unfoldable pub reject_unknown_pairs : List Text → Pairs → Status
unfolding is_allowed
reject_unknown_pairs allowed end = ok tt
reject_unknown_pairs allowed (pair k v rest) =
    let more = reject_unknown_pairs allowed rest in
    if is_allowed allowed k then more else err Error.parse

-- `reject_unknown_keys`
unfoldable pub reject_unknown_keys : Node → List Text → Status
unfolding reject_unknown_pairs
reject_unknown_keys (mapping m) allowed = reject_unknown_pairs allowed m
reject_unknown_keys (scalar v) allowed = ok tt
reject_unknown_keys (sequence s) allowed = ok tt

abbrev pub root_keys : List Text
root_keys =
    codes "system"
    ∷ codes "cards"
    ∷ codes "logical_interfaces"
    ∷ codes "flows"
    ∷ codes "forwards"
    ∷ []

-- what `calloc` leaves in `cfg->system`
abbrev pub no_system : System
no_system = record {
  name = [];
  mode = [];
  default_speed = [];
  stats_poll_interval_ms = 0;
  control_socket = [];
  secret = [];
}

-- `if (sys || !test_only)`
unfoldable pub parse_system_part : Bool → Option Node → Result System
parse_system_part test_only (some sys) = parse_system (some sys)
parse_system_part true none = ok no_system
parse_system_part false none = parse_system none

-- `if (cards || !test_only)`
unfoldable pub parse_cards : Bool → Option Node → Result (List Card)
parse_cards true none = ok []
parse_cards false none = err Error.parse
parse_cards test_only (some cards) = do
  items ← req_seq (some cards)
  reject_if (ltb max_cards (count_items items)) Error.out_of_range
  each_item parse_card items

-- a sequence that may be absent
unfoldable pub parse_list {ℓ} : {A : Type ℓ} → (Node → Result A) → Option Node → Result (List A)
parse_list parse_item none = ok []
parse_list parse_item (some node) = req_seq (some node) >>= λ items. each_item parse_item items

-- `parse_root`; the flag is `PW_CFG_TEST_ONLY`
unfoldable pub parse_root : Net → Bool → Node → Result Config
unfolding reject_unknown_keys parse_system_part parse_cards parse_list
parse_root net test_only node = do
  root ← req_map (some node)
  reject_unknown_keys root root_keys
  system ← parse_system_part test_only (map_get root (codes "system"))
  cards ← parse_cards test_only (map_get root (codes "cards"))
  lifs ← parse_list parse_logical_if (map_get root (codes "logical_interfaces"))
  flows ← parse_list (parse_flow net) (map_get root (codes "flows"))
  forwards ← parse_list (parse_forward net) (map_get root (codes "forwards"))
  ok (record {
    system = system;
    cards = cards;
    logical_if = lifs;
    flows = flows;
    forwards = forwards;
  })

-- `pw_config_parse_string_ex`
unfoldable pub parse_string_ex : Net → Bool → List Event → Result Config
unfolding parse_root
parse_string_ex net test_only events = elim (parse events) [
  | none ↦ err Error.parse
  | some root ↦ parse_root net test_only root
]

-- `pw_config_parse_string`
unfoldable pub parse_string : Net → List Event → Result Config
unfolding parse_string_ex
parse_string net events = parse_string_ex net false events

-- `pw_config_clone_env`
unfoldable pub clone_env : Config → Config
clone_env src = record {
  system = src.system;
  cards = src.cards;
  logical_if = src.logical_if;
  flows = [];
  forwards = [];
}
