-- ===== src/Programming/Keys.antt =====
-- The hash keys, the key mask and the seed after the writes of programming.c.
use packet_wyrm.Base.{
  ℕ, zero, suc, ◌+◌, ◌*◌, ◌≡◌, ◌≢◌, ◌≤◌, ◌<◌, refl, sym, ap, ◌∙◌, Option, none, some, false,
  Bool-cases, inl, inr, List, [], ◌∷◌, length, get_or, bit_or, ◌==◌, if◌then◌else◌, arith,
}
use native.Mathlib.Decide.{ℕ_discrete}
use packet_wyrm.Compiler.Tables.{HashEntry, CardProgram, hash_key_words}
use packet_wyrm.Programming.{
  win_hash_mask, reg_hash_seed, win_fc_hash, valid_bit, hash_ctrl, word_writes, entry_writes,
  hash_sets,
}
use packet_wyrm.Programming.Registers.{
  Registers, poke, stored, stored-append, Avoids, stored-Avoids,
}
use packet_wyrm.Programming.Windows.{AtLeast-Avoids, entry_writes-AtLeast}
use packet_wyrm.Programming.Words.{words_from, words_from-stored}

-- the words of a bucket do not reach those of another
words_from-elsewhere :
    (e b i from n : ℕ) (ks : List ℕ)
    → b ≢ e
    → i < hash_key_words
    → from + n ≤ hash_key_words
    → Avoids (win_fc_hash + b * 64 + i * 4) (words_from (win_fc_hash + e * 64) from n ks)
words_from-elsewhere e b i from zero ks ne lt h = tt
words_from-elsewhere e b i from (suc n) ks ne lt h =
    (omega arith, words_from-elsewhere e b i (from + 1) n ks ne lt (omega arith))

-- the last entry of a bucket
abbrev pub last_entry : List HashEntry → ℕ → Option HashEntry
last_entry [] b = none
last_entry (e ∷ es) b = elim (last_entry es b) [
  | some later ↦ some later
  | none ↦ if b == e.index then some e else none
]

-- the place of a key word
abbrev pub key_at : ℕ → ℕ → ℕ
key_at b i = win_fc_hash + b * 64 + i * 4

poke_elsewhere : (off v a : ℕ) (q : Registers) → a ≢ off → poke off v q a ≡ q a
poke_elsewhere off v a q ne = ground (arith, ne)

key_not_ctrl : (b c i : ℕ) → i < hash_key_words → key_at b i ≢ hash_ctrl c
key_not_ctrl b c i lt = omega arith

when_same : (b c x y : ℕ) → b ≡ c → (if b == c then x else y) ≡ x
when_same b c x y e = ground (arith, e)

when_other : (b c x y : ℕ) → b ≢ c → (if b == c then x else y) ≡ y
when_other b c x y ne = ground (arith, ne)

-- what the words of one entry leave in a key word
entry_words :
    (e : HashEntry) (b i : ℕ) (r : Registers)
    → i < hash_key_words
    → stored (words_from (win_fc_hash + e.index * 64) 0 hash_key_words e.key_word) r (key_at b i)
      ≡ (if b == e.index then get_or e.key_word i 0 else r (key_at b i))
entry_words e b i r lt = elim (ℕ_discrete b e.index) [
  | yes same ↦
      ap
        (λ (c : ℕ).
          stored (words_from (win_fc_hash + e.index * 64) 0 hash_key_words e.key_word) r
            (key_at c i))
        same
      ∙ words_from-stored (win_fc_hash + e.index * 64) 0 hash_key_words i e.key_word r (omega arith)
          lt
      ∙ sym (when_same b e.index _ _ same)
  | no ne ↦
      stored-Avoids (key_at b i)
        (words_from (win_fc_hash + e.index * 64) 0 hash_key_words e.key_word) r
        (words_from-elsewhere e.index b i 0 hash_key_words e.key_word ne lt (omega arith))
      ∙ sym (when_other b e.index _ _ ne)
]

-- the key word of the last of some entries that has the bucket, or what was there
abbrev pub key_word_of : Option HashEntry → ℕ → ℕ → ℕ
key_word_of none i was = was
key_word_of (some e) i was = get_or e.key_word i 0

key_word_of-cons :
    (e : HashEntry) (later : Option HashEntry) (b i was : ℕ)
    → key_word_of later i (if b == e.index then get_or e.key_word i 0 else was)
      ≡ key_word_of
          (elim later [ some l ↦ some l | none ↦ if b == e.index then some e else none ])
          i
          was
key_word_of-cons e (some l) b i was = refl
key_word_of-cons e none b i was = elim (Bool-cases (b == e.index)) [
  | inl same ↦ rw same refl
  | inr other ↦ rw other refl
]

pub entry_writes-keys :
    (es : List HashEntry) (b i : ℕ) (r : Registers)
    → i < hash_key_words
    → stored (entry_writes es) r (key_at b i) ≡ key_word_of (last_entry es b) i (r (key_at b i))
unfolding entry_writes word_writes
entry_writes-keys [] b i r lt = refl
entry_writes-keys (e ∷ es) b i r lt =
    let words = words_from (win_fc_hash + e.index * 64) 0 hash_key_words e.key_word in
    let ctrl = bit_or valid_bit e.local_flow_id in
    let rest = (hash_ctrl e.index, ctrl) ∷ entry_writes es in
    ap (λ (q : Registers). q (key_at b i)) (stored-append words rest r)
    ∙ entry_writes-keys es b i (poke (hash_ctrl e.index) ctrl (stored words r)) lt
    ∙ ap (key_word_of (last_entry es b) i) (
        poke_elsewhere (hash_ctrl e.index) ctrl (key_at b i) (stored words r)
          (key_not_ctrl b e.index i lt)
        ∙ entry_words e b i r lt)
    ∙ key_word_of-cons e (last_entry es b) b i (r (key_at b i))

-- the key mask, the seed and the keys, when there is an entry
module _ (cp : CardProgram) (used : 0 < length cp.hash_entries) (r : Registers) where
  from_entries :
      (a : ℕ)
      → stored (hash_sets cp) r a
        ≡ stored
            (entry_writes cp.hash_entries)
            (poke reg_hash_seed cp.hash_seed
              (stored (words_from win_hash_mask 0 hash_key_words cp.hash_mask) r))
            a
  unfolding hash_sets word_writes
  from_entries a =
      let some_entry : (length cp.hash_entries == 0) ≡ false = ground (arith, used) in
      rw some_entry refl

  -- below the keys
  below_keys :
      (a : ℕ)
      → a < win_fc_hash
      → stored (hash_sets cp) r a
        ≡ poke reg_hash_seed cp.hash_seed
            (stored (words_from win_hash_mask 0 hash_key_words cp.hash_mask) r)
            a
  below_keys a lt =
      from_entries a
      ∙ stored-Avoids a (entry_writes cp.hash_entries) _
          (AtLeast-Avoids win_fc_hash a _ lt (entry_writes-AtLeast cp.hash_entries))

  pub hash_sets-mask :
      (i : ℕ)
      → i < hash_key_words
      → stored (hash_sets cp) r (win_hash_mask + i * 4) ≡ get_or cp.hash_mask i 0
  hash_sets-mask i lt =
      below_keys (win_hash_mask + i * 4) (omega arith)
      ∙ poke_elsewhere reg_hash_seed cp.hash_seed (win_hash_mask + i * 4)
          (stored (words_from win_hash_mask 0 hash_key_words cp.hash_mask) r) (omega arith)
      ∙ words_from-stored win_hash_mask 0 hash_key_words i cp.hash_mask r (omega arith) lt

  pub hash_sets-seed : stored (hash_sets cp) r reg_hash_seed ≡ cp.hash_seed
  hash_sets-seed = below_keys reg_hash_seed (omega arith)

  pub hash_sets-keys :
      (b i : ℕ) (e : HashEntry)
      → last_entry cp.hash_entries b ≡ some e
      → i < hash_key_words
      → stored (hash_sets cp) r (key_at b i) ≡ get_or e.key_word i 0
  hash_sets-keys b i e last lt =
      from_entries (key_at b i)
      ∙ entry_writes-keys cp.hash_entries b i _ lt
      ∙ ap
          (λ (o : Option HashEntry). key_word_of o i (
            poke reg_hash_seed cp.hash_seed
              (stored (words_from win_hash_mask 0 hash_key_words cp.hash_mask) r) (key_at b i)))
          last
