-- ===== src/Compiler/Seed/Search.antt =====
-- The seed search: the first seed that gives every entry of the hash table its own bucket.
use packet_wyrm.Base.{
  ℕ, zero, suc, ◌≡◌, ◌≢◌, ◌<◌, refl, sym, ap, ◌∙◌, Option, none, some, Option-cases, Bool, true,
  false, Bool-cases, inl, inr, List, [], ◌∷◌, All, length, length-set, length-replicate, get_or,
  get_or-set_self, get_or-set_ne, set, replicate, arith,
}
use native.Mathlib.Decide.{ℕ_discrete}
use packet_wyrm.Config.Valid.{AllPairs}
use packet_wyrm.Compiler.Tables.{HashEntry, hash_depth}
use packet_wyrm.Compiler.Hash.{hash_index, index_width}
use packet_wyrm.Compiler.Seed.{seed_of, place}

pub hash_index-lt : (w : List ℕ) (seed : ℕ) → hash_index w seed < hash_depth
unfolding hash_index index_width
hash_index-lt w seed = omega arith

-- the bucket that the seed gives an entry
abbrev pub bucket : ℕ → HashEntry → ℕ
bucket seed e = hash_index e.key_word seed

-- No two entries share a bucket.
abbrev pub CollisionFree : ℕ → List HashEntry → Type 0
CollisionFree seed = AllPairs (λ e d. bucket seed d ≢ bucket seed e)

-- the entries with their buckets written in
abbrev pub in_buckets : ℕ → List HashEntry → List HashEntry
in_buckets seed [] = []
in_buckets seed (e ∷ es) = record e { index = bucket seed e } ∷ in_buckets seed es

abbrev Free : ℕ → List Bool → HashEntry → Type 0
Free seed used e = get_or used (bucket seed e) false ≡ false

module _ (seed : ℕ) where
  -- A bucket that stays free when another is taken was free, and is not that one.
  Free-before :
      (used : List Bool) (i : ℕ) (e : HashEntry)
      → i < length used
      → Free seed (set used i true) e
      → Free seed used e × (bucket seed e ≢ i)
  Free-before used i e lt h = elim (ℕ_discrete (bucket seed e) i) [
    | yes same ↦ absurd (taken (ap (λ j. get_or (set used i true) j false) (sym same) ∙ h))
    | no ne ↦ (sym (get_or-set_ne used i (bucket seed e) true false (λ q. ne (sym q))) ∙ h, ne)
  ]
    where
      taken : get_or (set used i true) i false ≢ false
      taken q = ground (arith, get_or-set_self used i true false lt)

  Free-after :
      (used : List Bool) (i : ℕ) (e : HashEntry)
      → Free seed used e
      → bucket seed e ≢ i
      → Free seed (set used i true) e
  Free-after used i e h ne = get_or-set_ne used i (bucket seed e) true false (λ q. ne (sym q)) ∙ h

  Free-before_all :
      (used : List Bool) (i : ℕ) (es : List HashEntry)
      → i < length used
      → All (Free seed (set used i true)) es
      → All (Free seed used) es × All (λ d. bucket seed d ≢ i) es
  Free-before_all used i [] lt h = (tt, tt)
  Free-before_all used i (e ∷ es) lt h =
      let (p, q) = Free-before used i e lt h.0 in
      let (ps, qs) = Free-before_all used i es lt h.1 in ((p, ps), (q, qs))

  Free-after_all :
      (used : List Bool) (i : ℕ) (es : List HashEntry)
      → All (Free seed used) es
      → All (λ d. bucket seed d ≢ i) es
      → All (Free seed (set used i true)) es
  Free-after_all used i [] h ne = tt
  Free-after_all used i (e ∷ es) h ne =
      (Free-after used i e h.0 ne.0, Free-after_all used i es h.1 ne.1)

  -- An attempt that succeeds writes the buckets in, and no two entries share one.
  place-some :
      (used : List Bool) (es es' : List HashEntry)
      → length used ≡ hash_depth
      → place seed used es ≡ some es'
      → (es' ≡ in_buckets seed es) × All (Free seed used) es × CollisionFree seed es
  unfolding place
  place-some used [] es' n h = (cc, tt, tt)
  place-some used (e ∷ es) es' n h = elim (Bool-cases (get_or used (bucket seed e) false)) [
    | inl taken ↦ absurd (ground arith)
    | inr free ↦ elim (Option-cases (place seed (set used (bucket seed e) true) es)) [
      | inl stuck ↦ absurd (ground arith)
      | inr (rest, placed) ↦
          let i = bucket seed e in
          let lt : i < length used = omega (arith, hash_index-lt e.key_word seed) in
          let (same, frees, apart) =
            place-some (set used i true) es rest (length-set used i true ∙ n) placed in
          let (now, ne) = Free-before_all used i es lt frees in
          let out : record e { index = i } ∷ rest ≡ es' = ground arith in
          (sym out ∙ ap (λ l. record e { index = i } ∷ l) same, (free, now), (ne, apart))
    ]
  ]

  -- An attempt without a shared bucket succeeds.
  place-total :
      (used : List Bool) (es : List HashEntry)
      → All (Free seed used) es
      → CollisionFree seed es
      → place seed used es ≡ some (in_buckets seed es)
  unfolding place
  place-total used [] frees apart = refl
  place-total used (e ∷ es) frees apart =
      let later = Free-after_all used (bucket seed e) es frees.1 apart.0 in
      let rest = place-total (set used (bucket seed e) true) es later apart.1 in
      let free : get_or used (bucket seed e) false ≡ false = frees.0 in ground arith

none_taken : (n i : ℕ) → get_or (replicate n false) i false ≡ false
none_taken zero i = refl
none_taken (suc n) zero = refl
none_taken (suc n) (suc i) = none_taken n i

all-Free : (seed : ℕ) (es : List HashEntry) → All (Free seed (replicate hash_depth false)) es
all-Free seed [] = tt
all-Free seed (e ∷ es) = (none_taken hash_depth (bucket seed e), all-Free seed es)

-- One attempt of the search.
abbrev pub attempt_on : ℕ → List HashEntry → Option (List HashEntry)
attempt_on a es = place (seed_of a) (replicate hash_depth false) es

pub attempt-some :
    (a : ℕ) (es es' : List HashEntry)
    → attempt_on a es ≡ some es'
    → (es' ≡ in_buckets (seed_of a) es) × CollisionFree (seed_of a) es
attempt-some a es es' h =
    let (same, _, apart) =
      place-some (seed_of a) (replicate hash_depth false) es es' (length-replicate hash_depth false)
        h in
    (same, apart)

pub attempt-none :
    (a : ℕ) (es : List HashEntry) → attempt_on a es ≡ none → ¬ CollisionFree (seed_of a) es
attempt-none a es h apart =
    let e =
      place-total (seed_of a) (replicate hash_depth false) es (all-Free (seed_of a) es) apart in
    cc
