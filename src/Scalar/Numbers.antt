-- ===== src/Scalar/Numbers.antt =====
-- `pw_parse_u64` on decimal texts, and the ranges of the parsers of numbers.
use packet_wyrm.Base.{
  ℕ, ◌-◌, ◌^◌, ◌≤◌, ◌<◌, ◌≡◌, refl, ◌∙◌, ap, Bool, true, false, Option, none, some, [], ◌∷◌, length,
  All, Text, ltb, leb, ◌==◌, if-both, if◌then◌else◌, arith, ◌↔◌,
}
use packet_wyrm.Base.Texts.{
  char_digit, is_space, skip, starts_with_digit, skip_hex_prefix, is_hex_prefix, scan_digits,
  Conversion, converted, unsigned_digits, signed_digits, strtoull, decimal,
}
use packet_wyrm.Scalar.{
  without_underscores, is_blank, is_signed, accepted, parse_buf, parse_u64, at_most, parse_u32,
  parse_u16, parse_u8,
}
use packet_wyrm.Scalar.Decimal.{
  IsDigit, digits_value, char_digit-digit, scan_digits-value, decimal_lem,
}

without_underscores-digits : (s : Text) → All IsDigit s → without_underscores s ≡ s
unfolding without_underscores
without_underscores-digits [] digits = refl
without_underscores-digits (c ∷ s) digits =
    rw (without_underscores-digits s digits.1) (ground arith)

skip_hex_prefix-decimal : (s : Text) → skip_hex_prefix 10 s ≡ s
skip_hex_prefix-decimal [] = refl
skip_hex_prefix-decimal (c ∷ []) = refl
skip_hex_prefix-decimal (c ∷ x ∷ s) = refl

-- The digits of a text, behind the sign.
unsigned_digits-value :
    (negative : Bool) (c : ℕ) (s : Text)
    → All IsDigit (c ∷ s)
    → unsigned_digits 10 negative (c ∷ s) ≡ some (converted negative (digits_value (c ∷ s), []))
unfolding unsigned_digits
unsigned_digits-value negative c s digits =
    let d : ltb (char_digit c) 10 ≡ true = ground (arith, char_digit-digit c digits.0) in
    rw (skip_hex_prefix-decimal (c ∷ s)) (
      rw d (
        rw (scan_digits-value (c ∷ s) 0 digits)
          (ap (λ (v : ℕ). some (converted negative (v, []))) (omega arith))))

is_hex_prefix-digits : (c : ℕ) (s : Text) → All IsDigit (c ∷ s) → is_hex_prefix (c ∷ s) ≡ false
is_hex_prefix-digits c [] digits = refl
is_hex_prefix-digits c (x ∷ s) digits = ground arith

skip-digit : (c : ℕ) (s : Text) → IsDigit c → skip is_blank (c ∷ s) ≡ c ∷ s
skip-digit c s digit = ground arith

strtoull-digits :
    (c : ℕ) (s : Text)
    → All IsDigit (c ∷ s)
    → strtoull 10 (c ∷ s) ≡ some (converted false (digits_value (c ∷ s), []))
unfolding strtoull signed_digits
strtoull-digits c s digits = ground (arith, unsigned_digits-value false c s digits)

parse_buf-digits :
    (c : ℕ) (s : Text)
    → All IsDigit (c ∷ s)
    → parse_buf (c ∷ s) ≡ accepted (some (converted false (digits_value (c ∷ s), [])))
unfolding parse_buf
parse_buf-digits c s digits =
    let plain : is_signed (c ∷ s) ≡ false = ground arith in
    rw (skip-digit c s digits.0)
      (rw plain (rw (is_hex_prefix-digits c s digits) (ap accepted (strtoull-digits c s digits))))

-- What is accepted of a value behind an optional minus sign.
accepted-converted :
    (v : ℕ)
    → accepted (some (converted false (v, [])))
      ≡ (if ltb v 18446744073709551616 then some v else none)
unfolding accepted converted
accepted-converted v = ground arith

-- A text of at most 63 decimal digits, leading zeros included, is read as the number that it
-- stands for by position, and refused exactly when that number does not fit 64 bits.
pub parse_u64-digits :
    (s : Text)
    → All IsDigit s
    → 1 ≤ length s
    → length s ≤ 63
    → parse_u64 s ≡ (if ltb (digits_value s) (2 ^ 64) then some (digits_value s) else none)
unfolding parse_u64
parse_u64-digits [] digits some_digit short = absurd (omega arith)
parse_u64-digits (c ∷ s) digits some_digit short =
    let room : leb 64 (length (c ∷ s)) ≡ false = ground arith in
    rw (without_underscores-digits (c ∷ s) digits)
      (rw room (parse_buf-digits c s digits ∙ accepted-converted (digits_value (c ∷ s))))

-- A 64-bit number is read back from what `%u` prints.
pub parse_u64-decimal : (n : ℕ) → n < 2 ^ 64 → parse_u64 (decimal n) ≡ some n
parse_u64-decimal n small =
    let (value, digits, some_digit, short) = decimal_lem n (omega arith) in
    let fits : ltb n (2 ^ 64) ≡ true = ground arith in
    parse_u64-digits (decimal n) digits some_digit (omega arith) ∙ rw value (rw fits refl)

strtoull-minus :
    (c : ℕ) (s : Text)
    → All IsDigit (c ∷ s)
    → strtoull 10 (b'\n' ∷ b'-' ∷ c ∷ s) ≡ some (converted true (digits_value (c ∷ s), []))
unfolding strtoull signed_digits
strtoull-minus c s digits = unsigned_digits-value true c s digits

accepted-negative :
    (v : ℕ) → 0 < v → v < 2 ^ 64 → accepted (some (converted true (v, []))) ≡ some (2 ^ 64 - v)
unfolding accepted converted
accepted-negative v pos small = ground arith

-- A number behind a line feed and a minus sign passes the test for a sign, which looks behind
-- blanks and tabs only, and `strtoull` wraps it: the result is 2^64 less the number.
pub parse_u64-wraps :
    (s : Text)
    → All IsDigit s
    → 1 ≤ length s
    → length s ≤ 61
    → 0 < digits_value s
    → digits_value s < 2 ^ 64
    → parse_u64 (b'\n' ∷ b'-' ∷ s) ≡ some (2 ^ 64 - digits_value s)
unfolding parse_u64 parse_buf without_underscores
parse_u64-wraps [] digits some_digit short pos small = absurd (omega arith)
parse_u64-wraps (c ∷ s) digits some_digit short pos small =
    let room : leb 64 (length (b'\n' ∷ b'-' ∷ c ∷ s)) ≡ false = ground arith in
    rw (without_underscores-digits (c ∷ s) digits) (
      rw room (
        ap accepted (strtoull-minus c s digits)
        ∙ accepted-negative (digits_value (c ∷ s)) pos small))

-- `strtoull` returns no more than 64 bits.
converted-lt :
    (negative : Bool) (v : ℕ) (rest : Text) → (converted negative (v, rest)).value < 2 ^ 64
unfolding converted
converted-lt negative v rest = ground arith

-- What is returned, if anything, has 64 bits.
abbrev IsSmall : Option Conversion → Type 0
IsSmall none = Unit
IsSmall (some c) = c.value < 2 ^ 64

unsigned_digits-IsSmall :
    (base : ℕ) (negative : Bool) (s : Text) → IsSmall (unsigned_digits base negative s)
unfolding unsigned_digits
unsigned_digits-IsSmall base negative s =
    let (v, rest) = scan_digits base 0 (skip_hex_prefix base s) in
    if-both IsSmall (starts_with_digit base (skip_hex_prefix base s))
      (some (converted negative (v, rest))) none (converted-lt negative v rest) tt

signed_digits-IsSmall : (base : ℕ) (s : Text) → IsSmall (signed_digits base s)
unfolding signed_digits
signed_digits-IsSmall base [] = tt
signed_digits-IsSmall base (c ∷ s) =
    if-both IsSmall (c == b'-') _ _ (unsigned_digits-IsSmall base true s) (
      if-both IsSmall (c == b'+') _ _ (unsigned_digits-IsSmall base false s)
        (unsigned_digits-IsSmall base false (c ∷ s)))

abbrev Fits : Option ℕ → Type 0
Fits none = Unit
Fits (some v) = v < 2 ^ 64

accepted-Fits : (o : Option Conversion) → IsSmall o → Fits (accepted o)
unfolding accepted
accepted-Fits none small = tt
accepted-Fits (some c) small =
    elim c.rest
      as (λ rest.
        Fits (elim rest [ [] ↦ if c.out_of_range then none else some c.value | x ∷ xs ↦ none ])) [
          | [] ↦ if-both Fits c.out_of_range none (some c.value) tt small
          | x ∷ xs ↦ tt
        ]

parse_buf-Fits : (s : Text) → Fits (parse_buf s)
unfolding parse_buf strtoull
parse_buf-Fits [] = tt
parse_buf-Fits (c ∷ s) =
    if-both Fits (is_signed (skip is_blank (c ∷ s))) none _ tt
      (accepted-Fits _ (signed_digits-IsSmall _ (skip is_space (c ∷ s))))

parse_u64-Fits : (s : Text) → Fits (parse_u64 s)
unfolding parse_u64
parse_u64-Fits s =
    if-both Fits (leb 64 (length (without_underscores s))) none _ tt
      (parse_buf-Fits (without_underscores s))

-- An accepted number fits 64 bits.
pub parse_u64-lt : (s : Text) {v : ℕ} → parse_u64 s ≡ some v → v < 2 ^ 64
parse_u64-lt s h = rw h at (parse_u64-Fits s)

-- The narrower parsers accept exactly the texts that `pw_parse_u64` reads as a number that fits
-- the field.
pub at_most-some :
    (limit : ℕ) (o : Option ℕ) (v : ℕ) → (at_most limit o ≡ some v) ↔ ((o ≡ some v) × (v ≤ limit))
unfolding at_most
at_most-some limit none v = ((λ h. cc), (λ h. cc))
at_most-some limit (some w) v = (λ h. ground arith, λ h. ground arith)

pub parse_u8-some :
    (s : Text) (v : ℕ) → (parse_u8 s ≡ some v) ↔ ((parse_u64 s ≡ some v) × (v ≤ 0xFF))
unfolding parse_u8
parse_u8-some s v = at_most-some 0xFF (parse_u64 s) v

pub parse_u16-some :
    (s : Text) (v : ℕ) → (parse_u16 s ≡ some v) ↔ ((parse_u64 s ≡ some v) × (v ≤ 0xFFFF))
unfolding parse_u16
parse_u16-some s v = at_most-some 0xFFFF (parse_u64 s) v

pub parse_u32-some :
    (s : Text) (v : ℕ) → (parse_u32 s ≡ some v) ↔ ((parse_u64 s ≡ some v) × (v ≤ 0xFFFFFFFF))
unfolding parse_u32
parse_u32-some s v = at_most-some 0xFFFFFFFF (parse_u64 s) v
