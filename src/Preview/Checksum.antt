-- ===== src/Preview/Checksum.antt =====
-- The checksums of the preview verify: over the bytes with the checksum in its place,
-- `ones_csum` is 0.
use packet_wyrm.Base.{
  ℕ, zero, suc, ◌+◌, ◌-◌, ◌*◌, ◌%◌, ◌^◌, ◌≤◌, ◌<◌, ◌≡◌, ap, ◌∙◌, false, List, [], ◌∷◌, length,
  get_or, ◌==◌, ==→eq, arith, Bool-cases, inl, inr, u16, u32, shr, not16,
}
use packet_wyrm.Preview.{fold_carries, ones_csum, wbe16}
use packet_wyrm.Preview.Build.{word_sum}

-- Folding the carries keeps the sum modulo 65535, and its being 0.
record Folded (sum folded : ℕ) : Type 0 where
  pub rounds : ℕ
  pub same : sum ≡ folded + 65535 * rounds
  pub small : folded ≤ 65535
  pub pos : 0 < sum → 0 < folded

ne_zero : (a : ℕ) → (a == 0) ≡ false → 0 < a
ne_zero a h = ground arith

fold_lem : (sum : ℕ) → sum < 2 ^ 32 → Folded sum (fold_carries 2 sum)
unfolding fold_carries
fold_lem sum small =
    let once : ℕ = sum % 2 ^ 16 + shr sum 16 in
    elim (Bool-cases (shr sum 16 == 0)) [
      | inl done ↦
          let zero_high : shr sum 16 ≡ 0 = ==→eq _ _ done in
          rw done (record { rounds = 0; same = omega arith; small = omega arith; pos = λ p. p })
      | inr more ↦ elim (Bool-cases (shr once 16 == 0)) [
        | inl done ↦
            let zero_high : shr once 16 ≡ 0 = ==→eq _ _ done in
            rw more (
              rw done (record {
                rounds = shr sum 16;
                same = omega arith;
                small = omega arith;
                pos = λ p. omega arith;
              }))
        | inr again ↦
            let high : 0 < shr once 16 = ne_zero _ again in
            rw more (
              rw again (record {
                rounds = shr sum 16 + 1;
                same = omega arith;
                small = omega arith;
                pos = λ p. omega arith;
              }))
      ]
    ]

-- With room in 32 bits the sum is that of the words.
ones_csum-word_sum :
    (p : List ℕ) (s : ℕ)
    → s + word_sum p < 2 ^ 32
    → ones_csum p s ≡ not16 (u16 (fold_carries 2 (s + word_sum p)))
unfolding ones_csum word_sum
ones_csum-word_sum [] s room = ap (λ (t : ℕ). not16 (u16 (fold_carries 2 t))) (omega arith)
ones_csum-word_sum (a ∷ []) s room = ap (λ (t : ℕ). not16 (u16 (fold_carries 2 t))) (omega arith)
ones_csum-word_sum (a ∷ b ∷ p) s room =
    let no_wrap : u32 (s + (a * 256 + b)) ≡ s + (a * 256 + b) = omega arith in
    rw no_wrap (
      ones_csum-word_sum p (s + (a * 256 + b)) (omega arith)
      ∙ ap (λ (t : ℕ). not16 (u16 (fold_carries 2 t))) (omega arith))

abbrev pub double : ℕ → ℕ
double zero = zero
double (suc k) = suc (suc (double k))

-- A word that was 0 adds what is written there.
word_sum-wbe16 :
    (k : ℕ) (p : List ℕ) (c : ℕ)
    → suc (double k) < length p
    → get_or p (double k) 0 ≡ 0
    → get_or p (suc (double k)) 0 ≡ 0
    → c < 2 ^ 16
    → word_sum (wbe16 p (double k) c) ≡ word_sum p + c
unfolding word_sum wbe16
word_sum-wbe16 k [] c there high low small = absurd (omega arith)
word_sum-wbe16 k (a ∷ []) c there high low small = absurd (omega arith)
word_sum-wbe16 zero (a ∷ b ∷ p) c there high low small = omega arith
word_sum-wbe16 (suc k) (a ∷ b ∷ p) c there high low small =
    let next : suc (suc (double k)) + 1 ≡ suc (suc (double k + 1)) = omega arith in
    rw next (
      ap (λ (t : ℕ). a * 256 + b + t) (word_sum-wbe16 k p c (omega arith) high low small)
      ∙ omega arith)

not16_small : (folded : ℕ) → folded ≤ 65535 → not16 (u16 folded) ≡ 65535 - folded
not16_small folded small = omega arith

-- What the checksum completes folds to 65535, whose complement is 0.
completed :
    {sum folded again : ℕ}
    → Folded sum folded
    → 0 < sum
    → Folded (sum + (65535 - folded)) again
    → not16 (u16 again) ≡ 0
completed {sum} {folded} {again} before pos after =
    let first = before.same in
    let first_small = before.small in
    let second = after.same in
    let second_small = after.small in let positive = after.pos (omega arith) in omega arith

-- A checksum written where the bytes had a zero word makes the sum over the bytes 0.
pub ones_csum-wbe16 :
    (k : ℕ) (p : List ℕ) (s : ℕ)
    → suc (double k) < length p
    → get_or p (double k) 0 ≡ 0
    → get_or p (suc (double k)) 0 ≡ 0
    → s + word_sum p + 65535 < 2 ^ 32
    → 0 < s + word_sum p
    → ones_csum (wbe16 p (double k) (ones_csum p s)) s ≡ 0
ones_csum-wbe16 k p s there high low room pos =
    let folded : ℕ = fold_carries 2 (s + word_sum p) in
    let before : Folded (s + word_sum p) folded = fold_lem _ (omega arith) in
    let value : ones_csum p s ≡ 65535 - folded =
      ones_csum-word_sum p s (omega arith) ∙ not16_small _ before.small in
    let added : s + word_sum (wbe16 p (double k) (ones_csum p s))
        ≡ s + word_sum p + (65535 - folded) =
      rw value (
        ap (λ (t : ℕ). s + t) (word_sum-wbe16 k p (65535 - folded) there high low (omega arith))
        ∙ omega arith) in
    let fits : s + word_sum (wbe16 p (double k) (ones_csum p s)) < 2 ^ 32 =
      rw added (omega arith) in
    ones_csum-word_sum (wbe16 p (double k) (ones_csum p s)) s fits
    ∙ (ap (λ (t : ℕ). not16 (u16 (fold_carries 2 t))) added
        ∙ completed before pos (fold_lem (s + word_sum p + (65535 - folded)) (omega arith)))
