-- ===== src/Examples/Rules.antt =====
-- The theorems about the classifier and the hash table on small cards.
use packet_wyrm.Base.{
  ℕ, ◌≡◌, ◌≢◌, ◌<◌, ◌⊎◌, ◌*◌, refl, false, true, List, [], ◌∷◌, length, Result, ok, err, Error,
  arith,
}
use packet_wyrm.Config.{PortRef}
use packet_wyrm.Config.Resolve.{resolve_port}
use packet_wyrm.Config.FlowModel.{Flow}
use packet_wyrm.Compiler.Tables.{CardProgram, FcRule, HashEntry, empty_card}
use packet_wyrm.Compiler.Append.{find_cmp}
use packet_wyrm.Compiler.Hash.{hash_index, hash_words, relax_mask}
use packet_wyrm.Compiler.Rules.{add_punt_rules, punt_matches, add_forward_rule}
use packet_wyrm.Compiler.Rules.Meaning.{Condition, FitsPool}
use packet_wyrm.Compiler.Rules.Punted.{Adds, PuntRules, add_punt_rules_lem}
use packet_wyrm.Compiler.Rules.Forward.{ForwardsTo, add_forward_rule_lem}
use packet_wyrm.Compiler.Row.{tokens_per_tick, clock_hz}
use packet_wyrm.Compiler.Row.Bucket.{tokens_per_tick_lem, Meters, paced_bytes}
use packet_wyrm.Compiler.Seed.{and_words, seed_of, masked, max_attempts, assign_buckets}
use packet_wyrm.Compiler.Seed.Search.{CollisionFree}
use packet_wyrm.Compiler.Seed.First.{OwnKeys}
use packet_wyrm.Compiler.Seed.Buckets.{Settled, assign_buckets-ok, assign_buckets-err}
use packet_wyrm.Examples.{demo, demo_flow, demo_lif, demo_forward}

-- every condition holds
abbrev Always : Condition → Type 0
Always c = Unit

abbrev port_0 : PortRef
port_0 = record { card_id = 0; local_port_id = 0; global_port_id = 0 }

abbrev port_1 : PortRef
port_1 = record { card_id = 0; local_port_id = 1; global_port_id = 1 }

empty-FitsPool : FitsPool (empty_card 0)
empty-FitsPool = record { cmps = omega arith; udfs = omega arith }

-- the card that a call leaves
abbrev result : Result CardProgram → CardProgram
result (ok cp) = cp
result (err e) = empty_card 0

unfoldable punted_card : CardProgram
unfolding add_punt_rules punt_matches find_cmp
punted_card = result (add_punt_rules port_0 demo_lif (punt_matches demo_lif) (empty_card 0))

punts : add_punt_rules port_0 demo_lif (punt_matches demo_lif) (empty_card 0) ≡ ok punted_card
unfolding add_punt_rules punt_matches find_cmp punted_card
punts = refl

add_punt_rules_lem_example :
    (new : List FcRule) × Adds (empty_card 0) new punted_card
    × PuntRules Always port_0 demo_lif punted_card (punt_matches demo_lif) new
add_punt_rules_lem_example =
    add_punt_rules_lem Always port_0 demo_lif (punt_matches demo_lif) (empty_card 0) punted_card
      empty-FitsPool punts

unfoldable forwarding_card : CardProgram
unfolding add_forward_rule find_cmp
forwarding_card = result (add_forward_rule port_0 port_1 demo_forward (empty_card 0))

forwards : add_forward_rule port_0 port_1 demo_forward (empty_card 0) ≡ ok forwarding_card
unfolding add_forward_rule find_cmp forwarding_card
forwards = refl

add_forward_rule_lem_example :
    (r : FcRule) × Adds (empty_card 0) (r ∷ []) forwarding_card
    × ForwardsTo Always port_0 port_1 demo_forward forwarding_card r
add_forward_rule_lem_example =
    add_forward_rule_lem Always port_0 port_1 demo_forward (empty_card 0) forwarding_card
      empty-FitsPool forwards

-- the hash entry of a flow
unfoldable hash_entry : Flow → ℕ → HashEntry
unfolding hash_words
hash_entry f slot = record { index = 0; key_word = hash_words f; local_flow_id = slot }

-- two keys, and one key twice
unfoldable two_keys : CardProgram
unfolding hash_entry
two_keys = record (empty_card 0) {
  hash_entries =
      hash_entry (demo_flow 1 0 1 false true) 0 ∷ hash_entry (demo_flow 2 0 1 false true) 1 ∷ [];
}

unfoldable one_key_twice : CardProgram
unfolding hash_entry
one_key_twice = record (empty_card 0) {
  hash_entries =
      hash_entry (demo_flow 1 0 1 false true) 0 ∷ hash_entry (demo_flow 1 0 1 false true) 1 ∷ [];
}

unfoldable settled_card : CardProgram
unfolding assign_buckets two_keys resolve_port hash_index and_words relax_mask seed_of
settled_card = result (assign_buckets demo two_keys)

has_keys : length two_keys.hash_entries ≢ 0
unfolding two_keys
has_keys e = absurd (omega arith)

settles : assign_buckets demo two_keys ≡ ok settled_card
unfolding assign_buckets two_keys settled_card resolve_port hash_index and_words relax_mask seed_of
settles = refl

assign_buckets-ok_example : Settled (masked demo two_keys) settled_card
assign_buckets-ok_example = assign_buckets-ok demo two_keys settled_card has_keys settles

clashes : assign_buckets demo one_key_twice ≡ err Error.inval
unfolding assign_buckets one_key_twice resolve_port hash_index and_words relax_mask seed_of
clashes = refl

assign_buckets-err_example :
    ((Error.inval ≡ Error.inval) × (¬ OwnKeys (masked demo one_key_twice).hash_entries))
    ⊎ ((Error.inval ≡ Error.no_resources)
        × ((b : ℕ)
            → b < max_attempts
            → ¬ CollisionFree (seed_of b) (masked demo one_key_twice).hash_entries))
assign_buckets-err_example = assign_buckets-err demo one_key_twice Error.inval clashes

tokens_per_tick_lem_example :
    let f = demo_flow 1 0 1 false false in
    ((f.traffic.rate_bps ≡ 0)
      × Meters (tokens_per_tick f) (f.traffic.rate_pps * paced_bytes f) clock_hz)
    ⊎ ((f.traffic.rate_bps ≢ 0) × Meters (tokens_per_tick f) f.traffic.rate_bps (clock_hz * 8))
tokens_per_tick_lem_example = tokens_per_tick_lem (demo_flow 1 0 1 false false)
