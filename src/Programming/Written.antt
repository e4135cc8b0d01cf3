-- ===== src/Programming/Written.antt =====
-- Every window holds its table after the writes, whatever it held before.
use packet_wyrm.Base.{
  ℕ, ◌+◌, ◌*◌, ◌≡◌, ◌<◌, ap, ◌∙◌, some, List, ◌++◌, get_elem?, get_or, length, [], ◌∷◌, arith,
}
use packet_wyrm.Compiler.Tables.{
  FcCmp, FcUdf, FcRule, HashEntry, CardProgram, flowid_map_depth, num_cmp, num_udf, num_rule,
  hash_depth, hash_key_words,
}
use packet_wyrm.Programming.{
  Write, win_flowid_map, win_fc_cmp, win_fc_udf, win_fc_rule, win_hash_mask, reg_hash_seed,
  map_clears, map_sets, cmp_writes, udf_writes, rule_writes, hash_ctrl, hash_clears, hash_sets,
  table_writes,
}
use packet_wyrm.Programming.Registers.{Registers, stored, stored-append, stored-Avoids, clears-zero}
use packet_wyrm.Programming.Windows.{
  AtLeast, AtLeast-Avoids, map_word, map_sets-stored, rule_word, rule_writes-stored,
}
use packet_wyrm.Programming.Content.{
  bucket_word, hash_sets-stored, cmp_writes-stored, hash_section, rule_section, udf_section,
  cmp_section, hash_section-AtLeast, rule_section-AtLeast, udf_section-AtLeast, cmp_section-AtLeast,
}
use packet_wyrm.Programming.Words.{
  rule_layout, rule_word-layout, rule_writes-targets, udf_writes-stored,
}
use packet_wyrm.Programming.Keys.{
  last_entry, key_at, hash_sets-mask, hash_sets-seed, hash_sets-keys,
}

-- The windows hold the tables of the program, every word of their entries; every other map entry is
-- zero, every other rule and bucket is off. The key mask, the seed and the keys are written only when
-- there is a hash entry; a bucket holds the key of the last entry that has it.
pub record Holds (cp : CardProgram) (q : Registers) : Type 0 where
  pub flow_map :
      (id : ℕ) → id < flowid_map_depth → q (win_flowid_map + id * 4) ≡ map_word cp.map_entries id 0
  pub cmps :
      (k : ℕ) (c : FcCmp)
      → get_elem? cp.fc_cmps k ≡ some c
      → k < num_cmp
      → let at = win_fc_cmp + (0 + k) * 16 in
        (q at ≡ c.src) × (q (at + 4) ≡ c.mask) × (q (at + 8) ≡ c.value)
  pub rules :
      (k : ℕ)
      → k < num_rule
      → q (win_fc_rule + (0 + k) * 16) ≡ rule_layout (get_elem? cp.fc_rules k)
  pub targets :
      (k : ℕ) (c : FcRule)
      → get_elem? cp.fc_rules k ≡ some c
      → k < num_rule
      → let at = win_fc_rule + (0 + k) * 16 in
        (q (at + 4) ≡ c.local_flow_id) × (q (at + 8) ≡ c.logical_if_id)
  pub udfs :
      (k : ℕ) (c : FcUdf)
      → get_elem? cp.fc_udfs k ≡ some c
      → k < num_udf
      → let at = win_fc_udf + (0 + k) * 16 in
        (q at ≡ c.offset) × (q (at + 4) ≡ c.mask) × (q (at + 8) ≡ c.value)
  pub key_mask :
      0 < length cp.hash_entries
      → (i : ℕ) → i < hash_key_words
      → q (win_hash_mask + i * 4) ≡ get_or cp.hash_mask i 0
  pub seed : 0 < length cp.hash_entries → q reg_hash_seed ≡ cp.hash_seed
  pub keys :
      (b i : ℕ) (e : HashEntry)
      → last_entry cp.hash_entries b ≡ some e
      → i < hash_key_words
      → q (key_at b i) ≡ get_or e.key_word i 0
  pub buckets : (b : ℕ) → b < hash_depth → q (hash_ctrl b) ≡ bucket_word cp.hash_entries b 0

-- An entry of a bucket is an entry.
has_entry : (es : List HashEntry) (b : ℕ) (e : HashEntry) → last_entry es b ≡ some e → 0 < length es
has_entry [] b e h = absurd (cc)
has_entry (d ∷ es) b e h = omega arith

-- A section in front: the address is out of the later sections' reach.
front :
    (b a : ℕ) (xs ys : List Write) (r : Registers)
    → a < b
    → AtLeast b ys
    → stored (xs ++ ys) r a ≡ stored xs r a
front b a xs ys r lt h =
    ap (λ (q : Registers). q a) (stored-append xs ys r)
    ∙ stored-Avoids a ys (stored xs r) (AtLeast-Avoids b a ys lt h)

-- The section behind, from the registers that the front has left.
behind :
    (a : ℕ) (xs ys : List Write) (r : Registers) → stored (xs ++ ys) r a ≡ stored ys (stored xs r) a
behind a xs ys r = ap (λ (q : Registers). q a) (stored-append xs ys r)

module _ (cp : CardProgram) (r : Registers) where
  written-flow_map :
      (id : ℕ)
      → id < flowid_map_depth
      → stored (table_writes cp) r (win_flowid_map + id * 4) ≡ map_word cp.map_entries id 0
  unfolding table_writes map_clears
  written-flow_map id lt =
      let a = win_flowid_map + id * 4 in
      behind a map_clears (map_sets cp.map_entries ++ cmp_section cp) r
      ∙ front win_fc_cmp a (map_sets cp.map_entries) (cmp_section cp) (stored map_clears r)
          (omega arith) (cmp_section-AtLeast cp)
      ∙ map_sets-stored cp.map_entries id (stored map_clears r)
      ∙ ap (map_word cp.map_entries id) (
          clears-zero (λ i. win_flowid_map + i * 4) 0 flowid_map_depth id r (omega arith)
            (omega arith))

  -- after the flow-id map
  r_cmp : Registers
  r_cmp = stored (map_sets cp.map_entries) (stored map_clears r)

  from_cmps : (a : ℕ) → stored (table_writes cp) r a ≡ stored (cmp_section cp) r_cmp a
  unfolding table_writes r_cmp
  from_cmps a =
      behind a map_clears (map_sets cp.map_entries ++ cmp_section cp) r
      ∙ behind a (map_sets cp.map_entries) (cmp_section cp) (stored map_clears r)

  written-cmps :
      (k : ℕ) (c : FcCmp)
      → get_elem? cp.fc_cmps k ≡ some c
      → k < num_cmp
      → let at = win_fc_cmp + (0 + k) * 16 in
        let q = stored (table_writes cp) r in
        (q at ≡ c.src) × (q (at + 4) ≡ c.mask) × (q (at + 8) ≡ c.value)
  written-cmps k c h lt =
      let at = win_fc_cmp + (0 + k) * 16 in
      let (src, mask, value) = cmp_writes-stored cp.fc_cmps 0 k c r_cmp h in
      let kept = λ (a : ℕ) (below : a < win_fc_udf).
        from_cmps a
        ∙ front win_fc_udf a (cmp_writes 0 cp.fc_cmps) (udf_section cp) r_cmp below
            (udf_section-AtLeast cp) in
      (
        kept at (omega arith) ∙ src,
        kept (at + 4) (omega arith) ∙ mask,
        kept (at + 8) (omega arith) ∙ value,
      )

  r_rule : Registers
  r_rule = stored (udf_writes 0 cp.fc_udfs) (stored (cmp_writes 0 cp.fc_cmps) r_cmp)

  from_rules : (a : ℕ) → stored (table_writes cp) r a ≡ stored (rule_section cp) r_rule a
  unfolding r_rule
  from_rules a =
      from_cmps a
      ∙ behind a (cmp_writes 0 cp.fc_cmps) (udf_section cp) r_cmp
      ∙ behind a (udf_writes 0 cp.fc_udfs) (rule_section cp)
          (stored (cmp_writes 0 cp.fc_cmps) r_cmp)

  written-rules :
      (k : ℕ)
      → k < num_rule
      → stored (table_writes cp) r (win_fc_rule + (0 + k) * 16)
        ≡ rule_word (get_elem? cp.fc_rules k)
  written-rules k lt =
      let a = win_fc_rule + (0 + k) * 16 in
      from_rules a
      ∙ front win_hash_mask a (rule_writes num_rule 0 cp.fc_rules) (hash_section cp) r_rule
          (omega arith) (hash_section-AtLeast cp)
      ∙ rule_writes-stored num_rule 0 k cp.fc_rules r_rule lt

  written-targets :
      (k : ℕ) (c : FcRule)
      → get_elem? cp.fc_rules k ≡ some c
      → k < num_rule
      → let at = win_fc_rule + (0 + k) * 16 in
        let q = stored (table_writes cp) r in
        (q (at + 4) ≡ c.local_flow_id) × (q (at + 8) ≡ c.logical_if_id)
  written-targets k c h lt =
      let at = win_fc_rule + (0 + k) * 16 in
      let (flow, lif) = rule_writes-targets num_rule 0 k cp.fc_rules r_rule c lt h in
      let kept = λ (a : ℕ) (below : a < win_hash_mask).
        from_rules a
        ∙ front win_hash_mask a (rule_writes num_rule 0 cp.fc_rules) (hash_section cp) r_rule below
            (hash_section-AtLeast cp) in
      (kept (at + 4) (omega arith) ∙ flow, kept (at + 8) (omega arith) ∙ lif)

  written-udfs :
      (k : ℕ) (c : FcUdf)
      → get_elem? cp.fc_udfs k ≡ some c
      → k < num_udf
      → let at = win_fc_udf + (0 + k) * 16 in
        let q = stored (table_writes cp) r in
        (q at ≡ c.offset) × (q (at + 4) ≡ c.mask) × (q (at + 8) ≡ c.value)
  written-udfs k c h lt =
      let at = win_fc_udf + (0 + k) * 16 in
      let before = stored (cmp_writes 0 cp.fc_cmps) r_cmp in
      let (offset, mask, value) = udf_writes-stored cp.fc_udfs 0 k c before h in
      let kept = λ (a : ℕ) (below : a < win_fc_rule).
        from_cmps a
        ∙ behind a (cmp_writes 0 cp.fc_cmps) (udf_section cp) r_cmp
        ∙ front win_fc_rule a (udf_writes 0 cp.fc_udfs) (rule_section cp) before below
            (rule_section-AtLeast cp) in
      (
        kept at (omega arith) ∙ offset,
        kept (at + 4) (omega arith) ∙ mask,
        kept (at + 8) (omega arith) ∙ value,
      )

  -- before the hash entries
  r_hash : Registers
  r_hash = stored hash_clears (stored (rule_writes num_rule 0 cp.fc_rules) r_rule)

  from_hash : (a : ℕ) → stored (table_writes cp) r a ≡ stored (hash_sets cp) r_hash a
  unfolding r_hash
  from_hash a =
      let q = stored (rule_writes num_rule 0 cp.fc_rules) r_rule in
      from_rules a
      ∙ behind a (rule_writes num_rule 0 cp.fc_rules) (hash_section cp) r_rule
      ∙ behind a hash_clears (hash_sets cp) q

  written-buckets :
      (b : ℕ)
      → b < hash_depth
      → stored (table_writes cp) r (hash_ctrl b) ≡ bucket_word cp.hash_entries b 0
  unfolding hash_clears r_hash
  written-buckets b lt =
      let q = stored (rule_writes num_rule 0 cp.fc_rules) r_rule in
      from_hash (hash_ctrl b)
      ∙ hash_sets-stored cp b r_hash
      ∙ ap (bucket_word cp.hash_entries b)
          (clears-zero hash_ctrl 0 hash_depth b q (omega arith) (omega arith))

  pub table_writes-Holds : Holds cp (stored (table_writes cp) r)
  table_writes-Holds = record {
    flow_map = written-flow_map;
    cmps = written-cmps;
    rules = λ k lt. written-rules k lt ∙ rule_word-layout (get_elem? cp.fc_rules k);
    targets = written-targets;
    udfs = written-udfs;
    key_mask = λ used i lt. from_hash (win_hash_mask + i * 4) ∙ hash_sets-mask cp used r_hash i lt;
    seed = λ used. from_hash reg_hash_seed ∙ hash_sets-seed cp used r_hash;
    keys = λ b i e last lt.
        from_hash (key_at b i)
        ∙ hash_sets-keys cp (has_entry cp.hash_entries b e last) r_hash b i e last lt;
    buckets = written-buckets;
  }
