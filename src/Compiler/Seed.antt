-- ===== src/Compiler/Seed.antt =====
-- The per-card pass that ends `pw_flow_compile` (sw/libpacketwyrm/src/flow_compiler.c): the
-- global key mask, the test for keys that no seed can separate, and the seed search.
pub mod Search
pub mod First
pub mod Buckets
use packet_wyrm.Base.{
  ℕ, zero, suc, ◌+◌, ◌*◌, ◌-◌, Option, none, some, Bool, true, false, not, ◌&&◌, ◌||◌, List, [],
  ◌∷◌, map, length, get_or, set, any, replicate, bit_and, u32, ◌==◌, words_eq, if◌then◌else◌,
  Result, ok, err, Error, ◌>>=◌,
}
use packet_wyrm.Config.{Config, PortRef}
use packet_wyrm.Config.FlowModel.{Flow}
use packet_wyrm.Config.Resolve.{resolve_port}
use packet_wyrm.Compiler.Tables.{CardProgram, HashEntry, hash_depth}
use packet_wyrm.Compiler.Hash.{hash_index, relax_mask}

-- whether the port resolves, to this card
abbrev pub on_card : Config → ℕ → ℕ → Bool
on_card cfg card_id gp = elim (resolve_port cfg gp) [
  | ok rx ↦ rx.card_id == card_id
  | err e ↦ false
]

-- The loop over `cfg->flows`: each header-classified flow received on the card relaxes the mask.
unfoldable pub key_mask : Config → ℕ → List Flow → List ℕ → List ℕ
key_mask cfg card_id [] mask = mask
key_mask cfg card_id (f ∷ fs) mask =
    key_mask cfg card_id fs (
      if f.classify_header && on_card cfg card_id f.rx_global_port then relax_mask f mask else mask)

-- `key_word[w] &= hash_mask[w]`
unfoldable pub and_words : List ℕ → List ℕ → List ℕ
and_words [] ms = []
and_words (k ∷ ks) [] = k ∷ ks
and_words (k ∷ ks) (m ∷ ms) = bit_and k m ∷ and_words ks ms

abbrev pub mask_entry : List ℕ → HashEntry → HashEntry
mask_entry mask e = record e { key_word = and_words e.key_word mask }

abbrev pub same_key : HashEntry → HashEntry → Bool
same_key e d = words_eq d.key_word e.key_word

-- Some two entries have one key. (Which pair is met first changes only the message.)
unfoldable pub indistinct : List HashEntry → Bool
indistinct [] = false
indistinct (e ∷ es) = any (same_key e) es || indistinct es

-- `0x9E3779B1u * (attempt + 1u) + 1u`
unfoldable pub seed_of : ℕ → ℕ
seed_of attempt = u32 (0x9E3779B1 * (attempt + 1) + 1)

-- One attempt: each entry takes its bucket, until one is used already.
unfoldable pub place : ℕ → List Bool → List HashEntry → Option (List HashEntry)
place seed used [] = some []
place seed used (e ∷ es) =
    let idx = hash_index e.key_word seed in
    let rest = place seed (set used idx true) es in
    if get_or used idx false
    then none
    else elim rest [ none ↦ none | some es' ↦ some ((record e { index = idx }) ∷ es') ]

-- `for (attempt …; attempt < 4096 && !placed; attempt++)`, with the rounds that are left; an
-- attempt that fails leaves indexes behind, which the next one or the error makes unread.
unfoldable pub search_seed : ℕ → ℕ → List HashEntry → Option (ℕ × List HashEntry)
unfolding place
search_seed zero attempt es = none
search_seed (suc rounds) attempt es =
    let rest = search_seed rounds (attempt + 1) es in
    elim (place (seed_of attempt) (replicate hash_depth false) es) [
      | some es' ↦ some (seed_of attempt, es')
      | none ↦ rest
    ]

abbrev pub max_attempts : ℕ
max_attempts = 4096

-- the card with its keys masked
unfoldable pub masked : Config → CardProgram → CardProgram
unfolding key_mask
masked cfg cp = record cp { hash_mask = mask; hash_entries = map (mask_entry mask) cp.hash_entries }
  where
    mask : List ℕ
    mask = key_mask cfg cp.card_id cfg.flows (replicate 11 0xFFFFFFFF)

-- the seed and the buckets of a card whose keys are masked and distinct
unfoldable pub settle : ℕ → CardProgram → Result CardProgram
unfolding search_seed
settle rounds cp = elim (search_seed rounds 0 cp.hash_entries) [
  | none ↦ err Error.no_resources
  | some (seed, es) ↦ ok (record cp { hash_seed = seed; hash_entries = es })
]

-- the body of the loop over the cards
unfoldable pub assign_buckets : Config → CardProgram → Result CardProgram
unfolding masked settle indistinct
assign_buckets cfg cp =
    if length cp.hash_entries == 0
    then ok cp
    else if indistinct (masked cfg cp).hash_entries
    then err Error.inval
    else settle max_attempts (masked cfg cp)

unfoldable pub assign_all : Config → List CardProgram → Result (List CardProgram)
unfolding assign_buckets
assign_all cfg [] = ok []
assign_all cfg (cp ∷ cps) =
    assign_buckets cfg cp >>= λ cp'. assign_all cfg cps >>= λ cps'. ok (cp' ∷ cps')
