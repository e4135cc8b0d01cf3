-- ===== src/Programming/Content.antt =====
-- The registers of a card after the writes of `pw_program_card_tables_diag`.
use packet_wyrm.Base.{
  ℕ, zero, suc, ◌+◌, ◌*◌, ◌≡◌, ◌≤◌, ◌<◌, refl, ap, ◌∙◌, some, true, Bool-cases, inl, inr, List, [],
  ◌∷◌, ◌++◌, map, length, get_elem?, get_or, range_from, bit_or, ◌==◌, if◌then◌else◌, arith,
}
use native.Mathlib.Decide.{ℕ_discrete}
use packet_wyrm.Compiler.Tables.{FcCmp, HashEntry, CardProgram, num_rule, hash_key_words}
use packet_wyrm.Programming.{
  Write, win_fc_cmp, win_fc_udf, win_fc_rule, win_hash_mask, reg_hash_seed, win_fc_hash, valid_bit,
  cmp_writes, udf_writes, rule_writes, hash_ctrl, hash_clears, word_writes, entry_writes, hash_sets,
}
use packet_wyrm.Programming.Registers.{Registers, stored, stored-append, Avoids, stored-Avoids}
use packet_wyrm.Programming.Windows.{
  AtLeast, AtLeast-Avoids, AtLeast-append, lower, cmp_writes-AtLeast, udf_writes-AtLeast,
  rule_writes-AtLeast, hash_sets-AtLeast, hash_clears-AtLeast,
}

-- the word that the hash entries leave in the control register of a bucket
abbrev pub bucket_word : List HashEntry → ℕ → ℕ → ℕ
bucket_word [] b was = was
bucket_word (e ∷ es) b was =
    bucket_word es b (if b == e.index then bit_or valid_bit e.local_flow_id else was)

-- key words do not reach the control register
words-avoid :
    (e b from n : ℕ) (ks : List ℕ)
    → from + n ≤ hash_key_words
    → Avoids
        (hash_ctrl b)
        (map (λ i. (win_fc_hash + e * 64 + i * 4, get_or ks i 0)) (range_from from n))
words-avoid e b from zero ks h = tt
words-avoid e b from (suc n) ks h = (omega arith, words-avoid e b (from + 1) n ks (omega arith))

entry_writes-stored :
    (es : List HashEntry) (b : ℕ) (r : Registers)
    → stored (entry_writes es) r (hash_ctrl b) ≡ bucket_word es b (r (hash_ctrl b))
unfolding entry_writes word_writes
entry_writes-stored [] b r = refl
entry_writes-stored (e ∷ es) b r =
    let words = word_writes (win_fc_hash + e.index * 64) hash_key_words e.key_word in
    let kept : stored words r (hash_ctrl b) ≡ r (hash_ctrl b) =
      stored-Avoids (hash_ctrl b) words r
        (words-avoid e.index b 0 hash_key_words e.key_word (omega arith)) in
    ap (λ (q : Registers). q (hash_ctrl b))
      (stored-append words ((hash_ctrl e.index, bit_or valid_bit e.local_flow_id) ∷ entry_writes es)
        r)
    ∙ entry_writes-stored es b _
    ∙ ap (bucket_word es b)
        (elim (ℕ_discrete b e.index) [ yes same ↦ ground arith | no ne ↦ ground arith ])

mask-avoid :
    (b from n : ℕ) (ks : List ℕ)
    → from + n ≤ hash_key_words
    → Avoids (hash_ctrl b) (map (λ i. (win_hash_mask + i * 4, get_or ks i 0)) (range_from from n))
mask-avoid b from zero ks h = tt
mask-avoid b from (suc n) ks h = (omega arith, mask-avoid b (from + 1) n ks (omega arith))

pub hash_sets-stored :
    (cp : CardProgram) (b : ℕ) (r : Registers)
    → stored (hash_sets cp) r (hash_ctrl b) ≡ bucket_word cp.hash_entries b (r (hash_ctrl b))
unfolding hash_sets word_writes
hash_sets-stored cp b r = elim (Bool-cases (length cp.hash_entries == 0)) [
  | inl empty ↦ rw (empty, no_entries cp.hash_entries empty) refl
  | inr used ↦ rw used (
      let words = word_writes win_hash_mask hash_key_words cp.hash_mask in
      let kept : stored words r (hash_ctrl b) ≡ r (hash_ctrl b) =
        stored-Avoids (hash_ctrl b) words r
          (mask-avoid b 0 hash_key_words cp.hash_mask (omega arith)) in
      ap (λ (q : Registers). q (hash_ctrl b))
        (stored-append words ((reg_hash_seed, cp.hash_seed) ∷ entry_writes cp.hash_entries) r)
      ∙ entry_writes-stored cp.hash_entries b _
      ∙ ap (bucket_word cp.hash_entries b) (ground arith))
]
  where
    no_entries : (es : List HashEntry) → (length es == 0) ≡ true → es ≡ []
    no_entries [] h = refl
    no_entries (e ∷ es) h = absurd (ground arith)

-- the three words of field comparator `k`
pub cmp_writes-stored :
    (cs : List FcCmp) (i k : ℕ) (c : FcCmp) (r : Registers)
    → get_elem? cs k ≡ some c
    → let at = win_fc_cmp + (i + k) * 16 in
      let q = stored (cmp_writes i cs) r in
      (q at ≡ c.src) × (q (at + 4) ≡ c.mask) × (q (at + 8) ≡ c.value)
unfolding cmp_writes
cmp_writes-stored [] i k c r h = cc
cmp_writes-stored (d ∷ cs) i zero c r h =
    let e : d ≡ c = cc in
    let later = λ (a : ℕ) (lt : a < win_fc_cmp + (i + 1) * 16) (q : Registers).
      stored-Avoids a (cmp_writes (i + 1) cs) q
        (AtLeast-Avoids (win_fc_cmp + (i + 1) * 16) a _ lt (cmp_writes-AtLeast (i + 1) cs)) in
    rw (← e) (
      later (win_fc_cmp + (i + 0) * 16) (omega arith) _ ∙ ground arith,
      later (win_fc_cmp + (i + 0) * 16 + 4) (omega arith) _ ∙ ground arith,
      later (win_fc_cmp + (i + 0) * 16 + 8) (omega arith) _ ∙ ground arith,
    )
cmp_writes-stored (d ∷ cs) i (suc k) c r h =
    let e : i + suc k ≡ i + 1 + k = omega arith in rw e (cmp_writes-stored cs (i + 1) k c _ h)

-- the sections of `table_writes`, from the rules on, and from the comparators on
abbrev pub hash_section : CardProgram → List Write
hash_section cp = hash_clears ++ hash_sets cp

abbrev pub rule_section : CardProgram → List Write
rule_section cp = rule_writes num_rule 0 cp.fc_rules ++ hash_section cp

abbrev pub udf_section : CardProgram → List Write
udf_section cp = udf_writes 0 cp.fc_udfs ++ rule_section cp

abbrev pub cmp_section : CardProgram → List Write
cmp_section cp = cmp_writes 0 cp.fc_cmps ++ udf_section cp

pub hash_section-AtLeast : (cp : CardProgram) → AtLeast win_hash_mask (hash_section cp)
hash_section-AtLeast cp =
    AtLeast-append win_hash_mask hash_clears (hash_sets cp) hash_clears-AtLeast
      (hash_sets-AtLeast cp)

pub rule_section-AtLeast : (cp : CardProgram) → AtLeast win_fc_rule (rule_section cp)
rule_section-AtLeast cp =
    AtLeast-append win_fc_rule (rule_writes num_rule 0 cp.fc_rules) (hash_section cp)
      (lower win_fc_rule (win_fc_rule + 0 * 16) _ (omega arith)
        (rule_writes-AtLeast num_rule 0 cp.fc_rules))
      (lower win_fc_rule win_hash_mask _ (omega arith) (hash_section-AtLeast cp))

pub udf_section-AtLeast : (cp : CardProgram) → AtLeast win_fc_udf (udf_section cp)
udf_section-AtLeast cp =
    AtLeast-append win_fc_udf (udf_writes 0 cp.fc_udfs) (rule_section cp)
      (udf_writes-AtLeast 0 cp.fc_udfs)
      (lower win_fc_udf win_fc_rule _ (omega arith) (rule_section-AtLeast cp))

pub cmp_section-AtLeast : (cp : CardProgram) → AtLeast win_fc_cmp (cmp_section cp)
cmp_section-AtLeast cp =
    AtLeast-append win_fc_cmp (cmp_writes 0 cp.fc_cmps) (udf_section cp)
      (lower win_fc_cmp (win_fc_cmp + 0 * 16) _ (omega arith) (cmp_writes-AtLeast 0 cp.fc_cmps))
      (lower win_fc_cmp win_fc_udf _ (omega arith) (udf_section-AtLeast cp))
