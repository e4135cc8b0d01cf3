-- ===== src/Programming/Windows.antt =====
-- What the writes of a card program leave in the windows: each window is written in full, and no
-- later section reaches into an earlier one.
use packet_wyrm.Base.{
  ℕ, zero, suc, ◌+◌, ◌*◌, ◌≡◌, ◌≤◌, ◌<◌, refl, ap, ◌∙◌, Option, none, some, true, false, Bool-cases,
  inl, inr, List, [], ◌∷◌, ◌++◌, All, map, length, get_elem?, get_or, range_from, bit_or, ◌==◌,
  if◌then◌else◌, arith,
}
use native.Mathlib.Decide.{ℕ_discrete}
use packet_wyrm.Compiler.Tables.{
  MapEntry, FcCmp, FcUdf, FcRule, HashEntry, CardProgram, hash_depth, hash_key_words,
}
use packet_wyrm.Programming.{
  Write, win_flowid_map, win_fc_cmp, win_fc_udf, win_fc_rule, win_hash_mask, reg_hash_seed,
  win_fc_hash, valid_bit, rule_w0, map_sets, cmp_writes, udf_writes, rule_writes, hash_ctrl,
  hash_clears, word_writes, entry_writes, hash_sets,
}
use packet_wyrm.Programming.Registers.{Registers, stored, Avoids, stored-Avoids, clears}

-- Every write is at the address or above it.
abbrev pub AtLeast : ℕ → List Write → Type 0
AtLeast b = All (λ (w : Write). b ≤ w.0)

pub AtLeast-Avoids : (b a : ℕ) (ws : List Write) → a < b → AtLeast b ws → Avoids a ws
AtLeast-Avoids b a [] lt h = tt
AtLeast-Avoids b a (w ∷ ws) lt h = (omega (arith, h.0), AtLeast-Avoids b a ws lt h.1)

pub AtLeast-append :
    (b : ℕ) (xs ys : List Write) → AtLeast b xs → AtLeast b ys → AtLeast b (xs ++ ys)
AtLeast-append b [] ys p q = q
AtLeast-append b (x ∷ xs) ys p q = (p.0, AtLeast-append b xs ys p.1 q)

pub lower : (b c : ℕ) (ws : List Write) → b ≤ c → AtLeast c ws → AtLeast b ws
lower b c [] le h = tt
lower b c (w ∷ ws) le h = (omega (arith, h.0), lower b c ws le h.1)

pub cmp_writes-AtLeast : (i : ℕ) (cs : List FcCmp) → AtLeast (win_fc_cmp + i * 16) (cmp_writes i cs)
unfolding cmp_writes
cmp_writes-AtLeast i [] = tt
cmp_writes-AtLeast i (c ∷ cs) = (
  omega arith,
  (
    omega arith,
    (
      omega arith,
      lower (win_fc_cmp + i * 16) (win_fc_cmp + (i + 1) * 16) _ (omega arith)
          (cmp_writes-AtLeast (i + 1) cs),
    ),
  ),
)

pub udf_writes-AtLeast : (i : ℕ) (us : List FcUdf) → AtLeast win_fc_udf (udf_writes i us)
unfolding udf_writes
udf_writes-AtLeast i [] = tt
udf_writes-AtLeast i (u ∷ us) =
    (omega arith, (omega arith, (omega arith, udf_writes-AtLeast (i + 1) us)))

pub rule_writes-AtLeast :
    (n i : ℕ) (rs : List FcRule) → AtLeast (win_fc_rule + i * 16) (rule_writes n i rs)
unfolding rule_writes
rule_writes-AtLeast zero i rs = tt
rule_writes-AtLeast (suc n) i [] = (
  omega arith,
  lower (win_fc_rule + i * 16) (win_fc_rule + (i + 1) * 16) _ (omega arith)
      (rule_writes-AtLeast n (i + 1) []),
)
rule_writes-AtLeast (suc n) i (r ∷ rs) = (
  omega arith,
  (
    omega arith,
    (
      omega arith,
      lower (win_fc_rule + i * 16) (win_fc_rule + (i + 1) * 16) _ (omega arith)
          (rule_writes-AtLeast n (i + 1) rs),
    ),
  ),
)

words-AtLeast :
    (b base from n : ℕ) (ks : List ℕ)
    → b ≤ base
    → AtLeast b (map (λ i. (base + i * 4, get_or ks i 0)) (range_from from n))
words-AtLeast b base from zero ks h = tt
words-AtLeast b base from (suc n) ks h = (omega arith, words-AtLeast b base (from + 1) n ks h)

clears-AtLeast :
    (b : ℕ) (at : ℕ → ℕ) (from n : ℕ) → ((i : ℕ) → b ≤ at i) → AtLeast b (clears at from n)
clears-AtLeast b at from zero h = tt
clears-AtLeast b at from (suc n) h = (h from, clears-AtLeast b at (from + 1) n h)

pub entry_writes-AtLeast : (es : List HashEntry) → AtLeast win_fc_hash (entry_writes es)
unfolding entry_writes word_writes
entry_writes-AtLeast [] = tt
entry_writes-AtLeast (e ∷ es) =
    AtLeast-append win_fc_hash (word_writes (win_fc_hash + e.index * 64) hash_key_words e.key_word)
      ((hash_ctrl e.index, bit_or valid_bit e.local_flow_id) ∷ entry_writes es)
      (words-AtLeast win_fc_hash (win_fc_hash + e.index * 64) 0 hash_key_words e.key_word
        (omega arith))
      (omega arith, entry_writes-AtLeast es)

pub hash_sets-AtLeast : (cp : CardProgram) → AtLeast win_hash_mask (hash_sets cp)
unfolding hash_sets word_writes
hash_sets-AtLeast cp = elim (Bool-cases (length cp.hash_entries == 0)) [
  | inl e ↦ rw e tt
  | inr e ↦ rw e (
      AtLeast-append win_hash_mask (word_writes win_hash_mask hash_key_words cp.hash_mask)
        ((reg_hash_seed, cp.hash_seed) ∷ entry_writes cp.hash_entries)
        (words-AtLeast win_hash_mask win_hash_mask 0 hash_key_words cp.hash_mask (omega arith))
        (
          omega arith,
          lower win_hash_mask win_fc_hash _ (omega arith) (entry_writes-AtLeast cp.hash_entries),
        ))
]

pub hash_clears-AtLeast : AtLeast win_hash_mask hash_clears
unfolding hash_clears
hash_clears-AtLeast = clears-AtLeast win_hash_mask hash_ctrl 0 hash_depth (λ i. omega arith)

-- the word that the map entries leave for a flow id: the last entry of that id, or what was there
abbrev pub map_word : List MapEntry → ℕ → ℕ → ℕ
map_word [] id was = was
map_word (m ∷ ms) id was =
    map_word ms id (if id == m.flow_id then bit_or valid_bit m.local_flow_id else was)

pub map_sets-stored :
    (ms : List MapEntry) (id : ℕ) (r : Registers)
    → stored (map_sets ms) r (win_flowid_map + id * 4)
      ≡ map_word ms id (r (win_flowid_map + id * 4))
unfolding map_sets
map_sets-stored [] id r = refl
map_sets-stored (m ∷ ms) id r =
    map_sets-stored ms id _
    ∙ ap (map_word ms id)
        (elim (ℕ_discrete id m.flow_id) [ yes e ↦ ground arith | no ne ↦ ground arith ])

-- the word of a rule slot: its rule, enabled, or a disabled rule
abbrev pub rule_word : Option FcRule → ℕ
unfolding rule_w0
rule_word none = rule_w0 0 0 0 0 false
rule_word (some r) = rule_w0 r.care r.action r.egress r.priority true

pub rule_writes-stored :
    (n i k : ℕ) (rs : List FcRule) (r : Registers)
    → k < n
    → stored (rule_writes n i rs) r (win_fc_rule + (i + k) * 16) ≡ rule_word (get_elem? rs k)
unfolding rule_writes
rule_writes-stored zero i k rs r lt = absurd (omega arith)
rule_writes-stored (suc n) i zero [] r lt =
    stored-Avoids (win_fc_rule + (i + 0) * 16) (rule_writes n (i + 1) []) _ (
      AtLeast-Avoids (win_fc_rule + (i + 1) * 16) _ _ (omega arith)
        (rule_writes-AtLeast n (i + 1) []))
    ∙ ground arith
rule_writes-stored (suc n) i zero (q ∷ rs) r lt =
    stored-Avoids (win_fc_rule + (i + 0) * 16) (rule_writes n (i + 1) rs) _ (
      AtLeast-Avoids (win_fc_rule + (i + 1) * 16) _ _ (omega arith)
        (rule_writes-AtLeast n (i + 1) rs))
    ∙ ground arith
rule_writes-stored (suc n) i (suc k) [] r lt =
    ap (stored (rule_writes n (i + 1) []) _) (omega arith)
    ∙ rule_writes-stored n (i + 1) k [] _ (omega arith)
rule_writes-stored (suc n) i (suc k) (q ∷ rs) r lt =
    ap (stored (rule_writes n (i + 1) rs) _) (omega arith)
    ∙ rule_writes-stored n (i + 1) k rs _ (omega arith)
