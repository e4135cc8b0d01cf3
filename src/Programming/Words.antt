-- ===== src/Programming/Words.antt =====
-- The words that the writes of programming.c leave in the rules, the user-defined fields, the hash
-- mask and the hash keys.
use packet_wyrm.Base.{
  ℕ, zero, suc, ◌+◌, ◌*◌, ◌≡◌, ◌≤◌, ◌<◌, refl, ◌∙◌, Option, none, some, List, [], ◌∷◌, map,
  get_elem?, get_or, range_from, bit_and, ◌^◌, arith,
}
use packet_wyrm.Base.Bits.{bit_or_shifted, bit_and-low_mask}
use native.Mathlib.Decide.{ℕ_discrete}
use packet_wyrm.Compiler.Tables.{FcUdf, FcRule}
use packet_wyrm.Programming.{Write, win_fc_udf, win_fc_rule, udf_writes, rule_writes, rule_w0}
use packet_wyrm.Programming.Registers.{Registers, stored, Avoids, stored-Avoids}
use packet_wyrm.Programming.Windows.{AtLeast, AtLeast-Avoids, lower, rule_writes-AtLeast, rule_word}

-- the second and the third word of rule `k`
pub rule_writes-targets :
    (n i k : ℕ) (rs : List FcRule) (r : Registers) (c : FcRule)
    → k < n
    → get_elem? rs k ≡ some c
    → let at = win_fc_rule + (i + k) * 16 in
      let q = stored (rule_writes n i rs) r in
      (q (at + 4) ≡ c.local_flow_id) × (q (at + 8) ≡ c.logical_if_id)
unfolding rule_writes
rule_writes-targets zero i k rs r c lt h = absurd (omega arith)
rule_writes-targets (suc n) i k [] r c lt h = cc
rule_writes-targets (suc n) i zero (d ∷ rs) r c lt h =
    let e : d ≡ c = cc in
    let later = λ (a : ℕ) (below : a < win_fc_rule + (i + 1) * 16) (q : Registers).
      stored-Avoids a (rule_writes n (i + 1) rs) q (
        AtLeast-Avoids (win_fc_rule + (i + 1) * 16) a _ below (rule_writes-AtLeast n (i + 1) rs)) in
    rw (← e) (
      later (win_fc_rule + (i + 0) * 16 + 4) (omega arith) _ ∙ ground arith,
      later (win_fc_rule + (i + 0) * 16 + 8) (omega arith) _ ∙ ground arith,
    )
rule_writes-targets (suc n) i (suc k) (d ∷ rs) r c lt h =
    let e : i + suc k ≡ i + 1 + k = omega arith in
    rw e (rule_writes-targets n (i + 1) k rs _ c (omega arith) h)

udf_writes-from : (i : ℕ) (us : List FcUdf) → AtLeast (win_fc_udf + i * 16) (udf_writes i us)
unfolding udf_writes
udf_writes-from i [] = tt
udf_writes-from i (u ∷ us) = (
  omega arith,
  (
    omega arith,
    (
      omega arith,
      lower (win_fc_udf + i * 16) (win_fc_udf + (i + 1) * 16) _ (omega arith)
          (udf_writes-from (i + 1) us),
    ),
  ),
)

-- the three words of user-defined field `k`
pub udf_writes-stored :
    (us : List FcUdf) (i k : ℕ) (c : FcUdf) (r : Registers)
    → get_elem? us k ≡ some c
    → let at = win_fc_udf + (i + k) * 16 in
      let q = stored (udf_writes i us) r in
      (q at ≡ c.offset) × (q (at + 4) ≡ c.mask) × (q (at + 8) ≡ c.value)
unfolding udf_writes
udf_writes-stored [] i k c r h = cc
udf_writes-stored (d ∷ us) i zero c r h =
    let e : d ≡ c = cc in
    let later = λ (a : ℕ) (lt : a < win_fc_udf + (i + 1) * 16) (q : Registers).
      stored-Avoids a (udf_writes (i + 1) us) q
        (AtLeast-Avoids (win_fc_udf + (i + 1) * 16) a _ lt (udf_writes-from (i + 1) us)) in
    rw (← e) (
      later (win_fc_udf + (i + 0) * 16) (omega arith) _ ∙ ground arith,
      later (win_fc_udf + (i + 0) * 16 + 4) (omega arith) _ ∙ ground arith,
      later (win_fc_udf + (i + 0) * 16 + 8) (omega arith) _ ∙ ground arith,
    )
udf_writes-stored (d ∷ us) i (suc k) c r h =
    let e : i + suc k ≡ i + 1 + k = omega arith in rw e (udf_writes-stored us (i + 1) k c _ h)

-- words from `base` on, those from `from` on
abbrev pub words_from : ℕ → ℕ → ℕ → List ℕ → List Write
words_from base from n ks = map (λ i. (base + i * 4, get_or ks i 0)) (range_from from n)

pub words_from-before :
    (base from n a : ℕ) (ks : List ℕ) → a < base + from * 4 → Avoids a (words_from base from n ks)
words_from-before base from zero a ks lt = tt
words_from-before base from (suc n) a ks lt =
    (omega arith, words_from-before base (from + 1) n a ks (omega arith))

pub words_from-stored :
    (base from n j : ℕ) (ks : List ℕ) (r : Registers)
    → from ≤ j
    → j < from + n
    → stored (words_from base from n ks) r (base + j * 4) ≡ get_or ks j 0
words_from-stored base from zero j ks r lo hi = absurd (omega arith)
words_from-stored base from (suc n) j ks r lo hi = elim (ℕ_discrete j from) [
  | no ne ↦ words_from-stored base (from + 1) n j ks _ (omega arith) (omega arith)
  | yes e ↦
      stored-Avoids (base + j * 4) (words_from base (from + 1) n ks) _
        (words_from-before base (from + 1) n (base + j * 4) ks (omega arith))
      ∙ ground (arith, e)
]

-- The first word of a rule: 14 care bits, then 3 bits of the action, 4 of the egress ports and 8 of
-- the priority, and the enable bit on top; 0 for a slot without a rule.
abbrev pub rule_layout : Option FcRule → ℕ
rule_layout none = 0
rule_layout (some c) =
    bit_and c.care 0x3FFF
    + bit_and c.action 0x7 * 2 ^ 14
    + bit_and c.egress 0xF * 2 ^ 17
    + bit_and c.priority 0xFF * 2 ^ 21
    + 2 ^ 31

pub rule_word-layout : (o : Option FcRule) → rule_word o ≡ rule_layout o
unfolding rule_w0
rule_word-layout none = refl
rule_word-layout (some c) =
    let care = bit_and-low_mask 14 c.care in
    let action = bit_and-low_mask 3 c.action in
    let egress = bit_and-low_mask 4 c.egress in
    let priority = bit_and-low_mask 8 c.priority in
    let ab = bit_or_shifted 14 (bit_and c.care 0x3FFF) (bit_and c.action 0x7) care in
    let abc =
      bit_or_shifted 17 (bit_and c.care 0x3FFF + bit_and c.action 0x7 * 2 ^ 14)
        (bit_and c.egress 0xF) (omega (arith, care, action)) in
    let abcd =
      bit_or_shifted 21
        (bit_and c.care 0x3FFF + bit_and c.action 0x7 * 2 ^ 14 + bit_and c.egress 0xF * 2 ^ 17)
        (bit_and c.priority 0xFF) (omega (arith, care, action, egress)) in
    let whole =
      bit_or_shifted 31
        (bit_and c.care 0x3FFF
          + bit_and c.action 0x7 * 2 ^ 14
          + bit_and c.egress 0xF * 2 ^ 17
          + bit_and c.priority 0xFF * 2 ^ 21)
        1 (omega (arith, care, action, egress, priority)) in
    rw (ab, abc, abcd) whole
