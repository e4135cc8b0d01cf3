-- ===== src/Base/Texts.antt =====
-- C strings: the lists of their bytes before the NUL, and the functions of the C library that the
-- program uses on them (the C locale).
use Prim.Native.Nat.{ℕ, zero, suc, ◌+◌, ◌-◌, ◌*◌, ◌/◌, ◌%◌}
use Prim.Native.Char.{code}
use Prim.Native.String.{String}
use mathlib.Core.Bool.{Bool, true, false, ◌&&◌, ◌||◌}
use mathlib.Core.Option.{Option, none, some}
use mathlib.Core.List.{List, [], ◌∷◌, ◌++◌, map}
use packet_wyrm.Base.Tests.{ltb, leb, ◌==◌, if◌then◌else◌, words_eq}

abbrev pub Text : Type 0
Text = List ℕ

-- a literal of the source
abbrev pub codes : String → Text
codes String.[] = []
codes (String.◌∷◌ c s) = code c ∷ codes s

-- `tolower`
abbrev pub to_lower : ℕ → ℕ
to_lower c = if leb b'A' c && leb c b'Z' then c + 32 else c

-- `strcasecmp(a, b) == 0`
abbrev pub same_letters : Text → Text → Bool
same_letters a b = words_eq (map to_lower a) (map to_lower b)

-- `isspace`
abbrev pub is_space : ℕ → Bool
is_space c = c == b' ' || (leb 9 c && leb c 13)

-- The rest behind the leading characters that satisfy a test.
abbrev pub skip : (ℕ → Bool) → Text → Text
skip p [] = []
skip p (c ∷ s) = let rest = skip p s in if p c then rest else c ∷ s

-- The value of a letter or digit in a base up to 36; anything else is 36.
abbrev pub char_digit : ℕ → ℕ
char_digit c =
    if leb b'0' c && leb c b'9'
    then c - 48
    else if leb b'a' c && leb c b'z'
    then c - 87
    else if leb b'A' c && leb c b'Z'
    then c - 55
    else 36

-- the digits in front, and what is behind them
unfoldable pub scan_digits : ℕ → ℕ → Text → ℕ × Text
scan_digits base acc [] = (acc, [])
scan_digits base acc (c ∷ s) =
    let rest = scan_digits base (acc * base + char_digit c) s in
    if ltb (char_digit c) base then rest else (acc, c ∷ s)

abbrev pub starts_with_digit : ℕ → Text → Bool
starts_with_digit base [] = false
starts_with_digit base (c ∷ s) = ltb (char_digit c) base

-- `0x` or `0X`
abbrev pub is_hex_prefix : Text → Bool
is_hex_prefix (z ∷ x ∷ s) = z == b'0' && (x == b'x' || x == b'X')
is_hex_prefix _ = false

-- In base 16 the prefix is passed over where a digit follows it.
abbrev pub skip_hex_prefix : ℕ → Text → Text
skip_hex_prefix base (z ∷ x ∷ s) =
    if base == 16 && (is_hex_prefix (z ∷ x ∷ s) && starts_with_digit 16 s) then s else z ∷ x ∷ s
skip_hex_prefix base s = s

-- What `strtoull` returns, with `errno == ERANGE` and the text at `*endptr`.
pub record Conversion : Type 0 where
  pub value : ℕ
  pub out_of_range : Bool
  pub rest : Text

-- The digits read, with a sign: a negative number wraps, one too large is the largest.
unfoldable pub converted : Bool → ℕ × Text → Conversion
converted negative (v, rest) =
    if leb 18446744073709551616 v
    then record { value = 18446744073709551615; out_of_range = true; rest = rest }
    else record {
      value = if negative then (18446744073709551616 - v) % 18446744073709551616 else v;
      out_of_range = false;
      rest = rest;
    }

unfoldable pub unsigned_digits : ℕ → Bool → Text → Option Conversion
unsigned_digits base negative s =
    let digits = skip_hex_prefix base s in
    if starts_with_digit base digits
    then some (converted negative (scan_digits base 0 digits))
    else none

unfoldable pub signed_digits : ℕ → Text → Option Conversion
signed_digits base [] = none
signed_digits base (c ∷ s) =
    if c == b'-'
    then unsigned_digits base true s
    else if c == b'+'
    then unsigned_digits base false s
    else unsigned_digits base false (c ∷ s)

-- `strtoull` and, where `long` has 64 bits, `strtoul`. `none` is no conversion: value 0, and
-- `*endptr` at the start.
unfoldable pub strtoull : ℕ → Text → Option Conversion
strtoull base s = signed_digits base (skip is_space s)

unfoldable pub decimal_digits : ℕ → ℕ → Text
decimal_digits zero n = []
decimal_digits (suc rounds) n =
    let more = decimal_digits rounds (n / 10) ++ (48 + n % 10) ∷ [] in
    if ltb n 10 then (48 + n) ∷ [] else more

-- `%u`: a 64-bit number has at most 20 digits.
unfoldable pub decimal : ℕ → Text
unfolding decimal_digits
decimal n = decimal_digits 20 n
