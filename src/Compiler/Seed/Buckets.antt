-- ===== src/Compiler/Seed/Buckets.antt =====
-- The hash table of one card after the pass, or the error of the pass.
use packet_wyrm.Base.{
  ℕ, ◌≡◌, ◌≢◌, ◌<◌, ◌⊎◌, refl, sym, ◌∙◌, some, Option-cases, Bool, true, false, Bool-cases, inl,
  inr, List, [], ◌∷◌, All, length, arith, Result, ok, err, Error, ◌==◌, if◌then◌else◌,
}
use packet_wyrm.Config.{Config}
use packet_wyrm.Config.Valid.{AllPairs}
use packet_wyrm.Compiler.Tables.{HashEntry, CardProgram, hash_depth}
use packet_wyrm.Compiler.Seed.{
  seed_of, indistinct, search_seed, masked, settle, max_attempts, assign_buckets,
}
use packet_wyrm.Compiler.Seed.Search.{hash_index-lt, bucket, CollisionFree, in_buckets}
use packet_wyrm.Compiler.Seed.First.{
  FirstSeed, search_seed-some, search_seed-none, OwnKeys, indistinct-false, indistinct-true,
}

-- a table as the hardware wants it
pub record Table (es : List HashEntry) : Type 0 where
  pub own_buckets : AllPairs (λ e d. d.index ≢ e.index) es
  pub in_range : All (λ e. e.index < hash_depth) es

module _ (seed : ℕ) where
  apart-index :
      (e : HashEntry) (es : List HashEntry)
      → All (λ d. bucket seed d ≢ bucket seed e) es
      → All (λ d. d.index ≢ bucket seed e) (in_buckets seed es)
  apart-index e [] h = tt
  apart-index e (d ∷ es) h = (h.0, apart-index e es h.1)

  CollisionFree-Table : (es : List HashEntry) → CollisionFree seed es → Table (in_buckets seed es)
  CollisionFree-Table [] h = record { own_buckets = tt; in_range = tt }
  CollisionFree-Table (e ∷ es) h =
      let t = CollisionFree-Table es h.1 in
      record {
        own_buckets = (apart-index e es h.0, t.own_buckets);
        in_range = (hash_index-lt e.key_word seed, t.in_range);
      }

-- the card after the pass
pub record Settled (before after : CardProgram) : Type 0 where
  pub own_keys : OwnKeys before.hash_entries
  pub mask : after.hash_mask ≡ before.hash_mask
  pub search : FirstSeed 0 max_attempts before.hash_entries after.hash_seed after.hash_entries
  pub table : Table after.hash_entries

pub settle_inv :
    (rounds : ℕ) (cp cp' : CardProgram)
    → settle rounds cp ≡ ok cp'
    → (seed : ℕ) × (es : List HashEntry) × (search_seed rounds 0 cp.hash_entries ≡ some (seed, es))
      × (record cp { hash_seed = seed; hash_entries = es } ≡ cp')
unfolding settle
settle_inv rounds cp cp' h = elim (Option-cases (search_seed rounds 0 cp.hash_entries)) [
  | inl e ↦ absurd (ground arith)
  | inr ((seed, es), e) ↦ (seed, es, e, ground arith)
]

settle-Settled :
    (cp cp' : CardProgram)
    → OwnKeys cp.hash_entries
    → settle max_attempts cp ≡ ok cp'
    → Settled cp cp'
settle-Settled cp cp' own h =
    let (seed, es, found, e) = settle_inv max_attempts cp cp' h in
    let first = search_seed-some max_attempts 0 cp.hash_entries seed es found in
    rw (← e) (record {
      own_keys = own;
      mask = refl;
      search = first;
      table =
          rw first.entries
            (CollisionFree-Table (seed_of first.attempt) cp.hash_entries first.apart);
    })

rejected-ok :
    (bad : Bool) (e : Error) (m : Result CardProgram) {c : CardProgram}
    → (if bad then err e else m) ≡ ok c
    → (bad ≡ false) × (m ≡ ok c)
rejected-ok true e m h = cc
rejected-ok false e m h = (refl, h)

filled :
    (n : ℕ) (none_there m : Result CardProgram) → n ≢ 0 → (if n == 0 then none_there else m) ≡ m
filled n none_there m ne = ground arith

-- When the pass succeeds on a card that has hash entries, no two masked keys are equal, every entry
-- has a bucket below 128 that no other entry has, and the seed is that of the first of the 4096
-- attempts that has no collision.
pub assign_buckets-ok :
    (cfg : Config) (cp cp' : CardProgram)
    → length cp.hash_entries ≢ 0
    → assign_buckets cfg cp ≡ ok cp'
    → Settled (masked cfg cp) cp'
unfolding assign_buckets
assign_buckets-ok cfg cp cp' used h =
    let (own, found) =
      rejected-ok (indistinct (masked cfg cp).hash_entries) Error.inval
        (settle max_attempts (masked cfg cp))
        (sym (filled (length cp.hash_entries) (ok cp) _ used) ∙ h) in
    settle-Settled (masked cfg cp) cp' (indistinct-false (masked cfg cp).hash_entries own) found

settle-err :
    (cp : CardProgram) (e : Error)
    → settle max_attempts cp ≡ err e
    → (e ≡ Error.no_resources)
      × ((b : ℕ) → b < max_attempts → ¬ CollisionFree (seed_of b) cp.hash_entries)
unfolding settle
settle-err cp e h = elim (Option-cases (search_seed max_attempts 0 cp.hash_entries)) [
  | inl none_left ↦ (
    ground arith,
    λ b lt. search_seed-none max_attempts 0 cp.hash_entries none_left b (omega arith) (omega arith),
  )
  | inr (r, found) ↦ absurd (ground arith)
]

-- When the pass fails on a card, either the error is PW_E_INVAL and two of its masked keys are
-- equal, or it is PW_E_NO_RESOURCES and each of the 4096 seeds lets two entries collide.
pub assign_buckets-err :
    (cfg : Config) (cp : CardProgram) (e : Error)
    → assign_buckets cfg cp ≡ err e
    → ((e ≡ Error.inval) × (¬ OwnKeys (masked cfg cp).hash_entries))
      ⊎ ((e ≡ Error.no_resources)
          × ((b : ℕ) → b < max_attempts → ¬ CollisionFree (seed_of b) (masked cfg cp).hash_entries))
unfolding assign_buckets
assign_buckets-err cfg cp e h = elim (Bool-cases (indistinct (masked cfg cp).hash_entries)) [
  | inl same ↦ inl (ground arith, indistinct-true (masked cfg cp).hash_entries same)
  | inr own ↦ inr (settle-err (masked cfg cp) e (ground arith))
]
