-- ===== src/Compiler/Seed/First.antt =====
-- The seed that the search settles on, and the errors of the pass.
use packet_wyrm.Base.{
  ℕ, zero, suc, ◌+◌, ◌≡◌, ◌≢◌, ◌≤◌, ◌<◌, refl, sym, ap, ◌∙◌, none, some, Option-cases, true, false,
  Bool-cases, inl, inr, List, [], ◌∷◌, All, any, arith, words_eq, words_eq_sound, words_eq_refl,
}
use native.Mathlib.Decide.{ℕ_discrete}
use packet_wyrm.Config.Valid.{AllPairs}
use packet_wyrm.Compiler.Tables.{HashEntry}
use packet_wyrm.Compiler.Seed.{seed_of, same_key, indistinct, search_seed}
use packet_wyrm.Compiler.Seed.Search.{
  CollisionFree, in_buckets, attempt_on, attempt-some, attempt-none,
}

-- The first of the attempts `from .. from + rounds - 1` that is free of collisions, and its result.
pub record FirstSeed (from rounds : ℕ) (es : List HashEntry) (seed : ℕ) (es' : List HashEntry)
    : Type 0 where
  pub attempt : ℕ
  pub above : from ≤ attempt
  pub below : attempt < from + rounds
  pub seed_is : seed ≡ seed_of attempt
  pub entries : es' ≡ in_buckets (seed_of attempt) es
  pub apart : CollisionFree (seed_of attempt) es
  pub first : (b : ℕ) → from ≤ b → b < attempt → ¬ CollisionFree (seed_of b) es

pub search_seed-some :
    (rounds from : ℕ) (es : List HashEntry) (seed : ℕ) (es' : List HashEntry)
    → search_seed rounds from es ≡ some (seed, es')
    → FirstSeed from rounds es seed es'
unfolding search_seed
search_seed-some zero from es seed es' h = cc
search_seed-some (suc rounds) from es seed es' h = elim (Option-cases (attempt_on from es)) [
  | inl failed ↦
      let p = search_seed-some rounds (from + 1) es seed es' (ground arith) in
      record {
        attempt = p.attempt;
        above = omega (arith, p.above);
        below = omega (arith, p.below);
        seed_is = p.seed_is;
        entries = p.entries;
        apart = p.apart;
        first = λ b lo hi. elim (ℕ_discrete b from) [
          | yes e ↦ rw e (attempt-none from es failed)
          | no ne ↦ p.first b (omega arith) hi
        ];
      }
  | inr (placed, worked) ↦
      let (same, apart) = attempt-some from es placed worked in
      let e : (seed_of from, placed) ≡ (seed, es') = ground arith in
      record {
        attempt = from;
        above = omega arith;
        below = omega arith;
        seed_is = sym (ap (λ (p : ℕ × List HashEntry). p.0) e);
        entries = sym (ap (λ (p : ℕ × List HashEntry). p.1) e) ∙ same;
        apart = apart;
        first = λ b lo hi. absurd (omega arith);
      }
]

pub search_seed-none :
    (rounds from : ℕ) (es : List HashEntry)
    → search_seed rounds from es ≡ none
    → (b : ℕ) → from ≤ b
    → b < from + rounds
    → ¬ CollisionFree (seed_of b) es
unfolding search_seed
search_seed-none zero from es h b lo hi = absurd (omega arith)
search_seed-none (suc rounds) from es h b lo hi = elim (Option-cases (attempt_on from es)) [
  | inl failed ↦ elim (ℕ_discrete b from) [
    | yes e ↦ rw e (attempt-none from es failed)
    | no ne ↦ search_seed-none rounds (from + 1) es (ground arith) b (omega arith) (omega arith)
  ]
  | inr (placed, worked) ↦ absurd (ground arith)
]

differs-all :
    (e : HashEntry) (es : List HashEntry)
    → any (same_key e) es ≡ false
    → All (λ d. d.key_word ≢ e.key_word) es
differs-all e [] h = tt
differs-all e (d ∷ es) h = elim (Bool-cases (same_key e d)) [
  | inl same ↦ absurd (ground arith)
  | inr other ↦ (
    λ q. let eq : words_eq d.key_word e.key_word ≡ true = rw q (words_eq_refl e.key_word) in cc,
    differs-all e es (ground arith),
  )
]

differs-any :
    (e : HashEntry) (es : List HashEntry)
    → All (λ d. d.key_word ≢ e.key_word) es
    → any (same_key e) es ≡ false
differs-any e [] h = refl
differs-any e (d ∷ es) h = elim (Bool-cases (same_key e d)) [
  | inl same ↦ absurd (h.0 (words_eq_sound d.key_word e.key_word same))
  | inr other ↦ ground (arith, differs-any e es h.1)
]

-- Every two entries have their own key.
abbrev pub OwnKeys : List HashEntry → Type 0
OwnKeys = AllPairs (λ e d. d.key_word ≢ e.key_word)

pub indistinct-false : (es : List HashEntry) → indistinct es ≡ false → OwnKeys es
unfolding indistinct
indistinct-false [] h = tt
indistinct-false (e ∷ es) h = elim (Bool-cases (any (same_key e) es)) [
  | inl same ↦ absurd (ground arith)
  | inr other ↦ (differs-all e es other, indistinct-false es (ground arith))
]

pub indistinct-true : (es : List HashEntry) → indistinct es ≡ true → ¬ OwnKeys es
unfolding indistinct
indistinct-true [] h own = cc
indistinct-true (e ∷ es) h own =
    let here = differs-any e es own.0 in indistinct-true es (ground arith) own.1
