-- ===== src/Base/Words.antt =====
-- Unsigned machine words of C: casts, shifts, masks and complements, with the wrap written out.
use Prim.Native.Nat.{ℕ, ◌-◌, ◌*◌, ◌/◌, ◌%◌, ◌^◌}

-- `(uint8_t)x`, `(uint16_t)x`, `(uint32_t)x`, `(uint64_t)x`
abbrev pub u8 : ℕ → ℕ
u8 x = x % 2 ^ 8

abbrev pub u16 : ℕ → ℕ
u16 x = x % 2 ^ 16

abbrev pub u32 : ℕ → ℕ
u32 x = x % 2 ^ 32

abbrev pub u64 : ℕ → ℕ
u64 x = x % 2 ^ 64

abbrev pub shr : ℕ → ℕ → ℕ
shr x k = x / 2 ^ k

abbrev pub shl : ℕ → ℕ → ℕ
shl x k = x * 2 ^ k

-- `~(uint32_t)x` and `(uint16_t)~x`
abbrev pub not32 : ℕ → ℕ
not32 x = 0xFFFFFFFF - u32 x

abbrev pub not16 : ℕ → ℕ
not16 x = 0xFFFF - u16 x
