-- ===== src/Base/Bits.antt =====
-- Laws of the bitwise operations at variables, read bit by bit.
use Prim.Native.Nat.{
  ℕ, zero, suc, ◌+◌, ◌*◌, ◌/◌, ◌%◌, ◌^◌, ◌-◌, ◌≤◌, ◌<◌, min, max, bit_and, bit_or, digits,
  bit_or-bitwise, bit_and-bitwise,
}
use Prim.Native.Nat.pow
use mathlib.Core.Path.{◌≡◌, refl, sym, ◌∙◌, ap, subst}
use native.Mathlib.Omega.{arith}
use packet_wyrm.Base.Tests.{if◌then◌else◌, ◌==◌}
use packet_wyrm.Base.Words.{u16, shl}

-- Bit `i` of `x`, as 0 or 1.
abbrev pub test_bit : ℕ → ℕ → ℕ
test_bit x zero = x % 2
test_bit x (suc i) = test_bit (x / 2) i

abbrev or_digits : ℕ → ℕ → ℕ → ℕ
or_digits n a b = digits (λ b. b) max n a b

-- With no digit left on one side, the other side is the result.
or_digits-zero : (n y : ℕ) → or_digits n 0 y ≡ y
or_digits-zero zero y = refl
or_digits-zero (suc n) y = refl

-- More rounds than the number needs change nothing.
more_rounds : (n m x y : ℕ) → x ≤ n → n ≤ m → or_digits m x y ≡ or_digits n x y
more_rounds n m zero y enough le = omega (arith, or_digits-zero m y, or_digits-zero n y)
more_rounds zero m (suc x) y enough le = absurd (omega arith)
more_rounds (suc n) zero (suc x) y enough le = absurd (omega arith)
more_rounds (suc n) (suc m) (suc x) y enough le =
    omega (arith, more_rounds n m (suc x / 2) (y / 2) (omega arith) (omega arith))

-- An OR, from the ORs of the halves and of the lowest bits.
pub bit_or_halves : (x y : ℕ) → bit_or x y ≡ max (x % 2) (y % 2) + 2 * bit_or (x / 2) (y / 2)
bit_or_halves zero y = omega (arith, bit_or-bitwise 0 (y / 2), bit_or-bitwise 0 y)
bit_or_halves (suc x) y =
    let fewer = more_rounds (suc x / 2) x (suc x / 2) (y / 2) (omega arith) (omega arith) in
    omega (arith, fewer, bit_or-bitwise (suc x / 2) (y / 2), bit_or-bitwise (suc x) y)

pub test_bit-le : (x i : ℕ) → test_bit x i ≤ 1
test_bit-le x zero = omega arith
test_bit-le x (suc i) = test_bit-le (x / 2) i

-- A bit of an OR is set when either operand has it.
pub test_bit-or : (a b i : ℕ) → test_bit (bit_or a b) i ≡ max (test_bit a i) (test_bit b i)
test_bit-or a b zero = omega (arith, bit_or_halves a b)
test_bit-or a b (suc i) =
    ap (λ (x : ℕ). test_bit x i) (omega (arith, bit_or_halves a b)) ∙ test_bit-or (a / 2) (b / 2) i

pub test_bit-zero : (i : ℕ) → test_bit 0 i ≡ 0
test_bit-zero zero = refl
test_bit-zero (suc i) = test_bit-zero i

pow_succ : (b : ℕ) → 2 ^ suc b ≡ 2 ^ b * 2
pow_succ b = pow.suc 2 b

-- `1u << b` has bit `b` and no other.
pub test_bit-pow : (b i : ℕ) → test_bit (2 ^ b) i ≡ (if b == i then 1 else 0)
test_bit-pow zero zero = refl
test_bit-pow zero (suc i) = test_bit-zero i ∙ ground arith
test_bit-pow (suc b) zero = ground (arith, pow_succ b)
test_bit-pow (suc b) (suc i) =
    ap (λ (x : ℕ). test_bit x i) (omega (arith, pow_succ b)) ∙ test_bit-pow b i ∙ ground arith

pow-le : (b d : ℕ) → 2 ^ b ≤ 2 ^ (b + d)
pow-le b zero = let e : b + 0 ≡ b = omega arith in rw e (omega arith)
pow-le b (suc d) =
    let e : b + suc d ≡ suc (b + d) = omega arith in
    rw e (omega (arith, pow-le b d, pow_succ (b + d)))

-- `(uint16_t)(1u << b)` keeps the bit for the fourteen comparator bits.
pub u16-shl : (b : ℕ) → b < 14 → u16 (shl 1 b) ≡ 2 ^ b
u16-shl b h =
    let e : b + (13 - b) ≡ 13 = omega arith in
    let le : 2 ^ b ≤ 2 ^ 13 = subst (λ (k : ℕ). 2 ^ b ≤ 2 ^ k) e (pow-le b (13 - b)) in
    omega (arith, le)

pow_pos : (k : ℕ) → 0 < 2 ^ k
pow_pos zero = omega arith
pow_pos (suc k) = omega (arith, pow_succ k, pow_pos k)

-- An OR of a number and another shifted past its bits is their sum.
pub bit_or_shifted : (k x y : ℕ) → x < 2 ^ k → bit_or x (y * 2 ^ k) ≡ x + y * 2 ^ k
bit_or_shifted zero x y lt =
    let e : x ≡ 0 = omega arith in rw e (bit_or-bitwise 0 (y * 1) ∙ omega arith)
bit_or_shifted (suc k) x y lt =
    let e : y * 2 ^ suc k ≡ y * 2 ^ k * 2 = ap (λ (p : ℕ). y * p) (pow_succ k) ∙ grind arith in
    let half = bit_or_shifted k (x / 2) y (omega (arith, lt, pow_succ k)) in
    let even : y * 2 ^ suc k / 2 ≡ y * 2 ^ k = omega (arith, e) in
    bit_or_halves x (y * 2 ^ suc k) ∙ omega (arith, e, half, ap (bit_or (x / 2)) even)

-- the number with `k` bits, all of them set
abbrev pub low_mask : ℕ → ℕ
low_mask zero = 0
low_mask (suc k) = low_mask k * 2 + 1

and_digits-lt : (n k a : ℕ) → digits (λ b. 0) min n a (low_mask k) < 2 ^ k
and_digits-lt zero k a = pow_pos k
and_digits-lt (suc n) k zero = pow_pos k
and_digits-lt (suc n) zero (suc a) = omega (arith, and_digits-lt n 0 (suc a / 2))
and_digits-lt (suc n) (suc k) (suc a) =
    let m : (low_mask k * 2 + 1) / 2 ≡ low_mask k = omega arith in
    let less = and_digits-lt n k (suc a / 2) in
    let fewer : digits (λ b. 0) min n (suc a / 2) ((low_mask k * 2 + 1) / 2) < 2 ^ k = rw m less in
    omega (arith, fewer, pow_succ k)

-- An AND with such a mask has no more bits.
pub bit_and-low_mask : (k a : ℕ) → bit_and a (low_mask k) < 2 ^ k
bit_and-low_mask k a =
    subst (λ (v : ℕ). v < 2 ^ k) (sym (λ i. bit_and-bitwise a (low_mask k) i)) (and_digits-lt a k a)
