-- ===== src/Scalar/Decimal.antt =====
-- Decimal numbers: the value of a text of digits, by position, against `strtoull` and `%u`.
use Prim.Native.Nat.pow
use packet_wyrm.Base.{
  ℕ, zero, suc, ◌+◌, ◌-◌, ◌*◌, ◌/◌, ◌%◌, ◌^◌, ◌≤◌, ◌<◌, ◌≡◌, ◌∙◌, ap, true, [], ◌∷◌, ◌++◌, length,
  All, All-append, length-append, Text, ltb, arith, Bool-cases, inl, inr,
}
use packet_wyrm.Base.Texts.{char_digit, scan_digits, decimal, decimal_digits}

abbrev pub IsDigit : ℕ → Type 0
IsDigit c = (48 ≤ c) × (c ≤ 57)

-- The number that a text of decimal digits stands for.
abbrev pub digits_value : Text → ℕ
digits_value [] = 0
digits_value (c ∷ s) = (c - 48) * 10 ^ length s + digits_value s

pub char_digit-digit : (c : ℕ) → IsDigit c → char_digit c ≡ c - 48
char_digit-digit c digit = ground arith

pow_ten : (n : ℕ) → 10 ^ suc n ≡ 10 * 10 ^ n
pow_ten n = omega (arith, pow.suc 10 n)

pub scan_digits-value :
    (s : Text) (acc : ℕ)
    → All IsDigit s
    → scan_digits 10 acc s ≡ (acc * 10 ^ length s + digits_value s, [])
unfolding scan_digits
scan_digits-value [] acc digits =
    let e : acc ≡ acc * 1 + 0 = omega arith in ap (λ (v : ℕ). (v, [])) e
scan_digits-value (c ∷ s) acc digits =
    let d : ltb (char_digit c) 10 ≡ true = ground (arith, char_digit-digit c digits.0) in
    let e : (acc * 10 + char_digit c) * 10 ^ length s + digits_value s
        ≡ acc * 10 ^ suc (length s) + ((c - 48) * 10 ^ length s + digits_value s) =
      rw (char_digit-digit c digits.0) (rw (pow_ten (length s)) (grind arith)) in
    rw d (scan_digits-value s (acc * 10 + char_digit c) digits.1 ∙ ap (λ (v : ℕ). (v, [])) e)

value-append : (s : Text) (c : ℕ) → digits_value (s ++ c ∷ []) ≡ digits_value s * 10 + (c - 48)
value-append [] c = omega arith
value-append (d ∷ s) c =
    let n : length (s ++ c ∷ []) ≡ suc (length s) = omega (arith, length-append s (c ∷ [])) in
    rw n (rw (pow_ten (length s)) (rw (value-append s c) (grind arith)))

decimal_digits-IsDigit : (rounds n : ℕ) → All IsDigit (decimal_digits rounds n)
unfolding decimal_digits
decimal_digits-IsDigit zero n = tt
decimal_digits-IsDigit (suc rounds) n = elim (Bool-cases (ltb n 10)) [
  | inl one ↦ rw one ((ground arith, ground arith), tt)
  | inr more ↦ rw more (
      All-append IsDigit (decimal_digits rounds (n / 10)) (48 + n % 10)
        (decimal_digits-IsDigit rounds (n / 10)) (omega arith, omega arith))
]

decimal_digits-value : (rounds n : ℕ) → n < 10 ^ rounds → digits_value (decimal_digits rounds n) ≡ n
unfolding decimal_digits
decimal_digits-value zero n h = omega arith
decimal_digits-value (suc rounds) n h = elim (Bool-cases (ltb n 10)) [
  | inl one ↦ rw one (omega arith)
  | inr more ↦ rw more (
      value-append (decimal_digits rounds (n / 10)) (48 + n % 10)
      ∙ omega (arith, decimal_digits-value rounds (n / 10) (omega (arith, pow_ten rounds))))
]

length-decimal_digits : (rounds n : ℕ) → length (decimal_digits rounds n) ≤ rounds
unfolding decimal_digits
length-decimal_digits zero n = omega arith
length-decimal_digits (suc rounds) n = elim (Bool-cases (ltb n 10)) [
  | inl one ↦ rw one (omega arith)
  | inr more ↦ rw more (
      omega (
        arith,
        length-append (decimal_digits rounds (n / 10)) ((48 + n % 10) ∷ []),
        length-decimal_digits rounds (n / 10),
      ))
]

decimal_digits_pos : (rounds n : ℕ) → 1 ≤ length (decimal_digits (suc rounds) n)
unfolding decimal_digits
decimal_digits_pos rounds n = elim (Bool-cases (ltb n 10)) [
  | inl one ↦ rw one (omega arith)
  | inr more ↦
      rw more (omega (arith, length-append (decimal_digits rounds (n / 10)) ((48 + n % 10) ∷ [])))
]

-- What `%u` prints is one to twenty digits, of the value printed.
pub decimal_lem :
    (n : ℕ)
    → n < 10 ^ 20
    → (digits_value (decimal n) ≡ n)
      × All IsDigit (decimal n)
      × (1 ≤ length (decimal n))
      × (length (decimal n) ≤ 20)
unfolding decimal
decimal_lem n small = (
  decimal_digits-value 20 n small,
  decimal_digits-IsDigit 20 n,
  decimal_digits_pos 19 n,
  length-decimal_digits 20 n,
)
