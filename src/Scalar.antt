-- ===== src/Scalar.antt =====
-- The parsers of scalars: sw/libpacketwyrm/src/scalar.c. A parser that returns false is `none`.
-- `inet_pton` belongs to the system's network library and is a parameter, `Net`.
pub mod Decimal
pub mod Numbers
use packet_wyrm.Base.{
  ℕ, zero, suc, ◌+◌, ◌*◌, ◌≡◌, ◌<◌, Bool, true, false, not, ◌&&◌, ◌||◌, Option, none, some, List,
  [], ◌∷◌, length, All, Text, codes, words_eq, ltb, leb, ◌==◌, if◌then◌else◌, u32,
}
use packet_wyrm.Base.Texts.{same_letters, skip, is_hex_prefix, Conversion, strtoull}

-- `pw_parse_bool`
unfoldable pub parse_bool : Text → Option Bool
parse_bool s =
    if same_letters s (codes "true")
      || (same_letters s (codes "yes") || (words_eq s (codes "1") || same_letters s (codes "on")))
    then some true
    else if same_letters s (codes "false")
        || (same_letters s (codes "no") || (words_eq s (codes "0") || same_letters s (codes "off")))
    then some false
    else none

-- the characters copied into `buf`: all but the underscores
unfoldable pub without_underscores : Text → Text
without_underscores [] = []
without_underscores (c ∷ s) =
    let rest = without_underscores s in if c == b'_' then rest else c ∷ rest

abbrev pub is_blank : ℕ → Bool
is_blank c = c == b' ' || c == b'\t'

-- `*q == '-' || *q == '+'`
abbrev pub is_signed : Text → Bool
is_signed [] = false
is_signed (c ∷ s) = c == b'-' || c == b'+'

-- what `strtoull` has made of `buf`
unfoldable pub accepted : Option Conversion → Option ℕ
accepted none = none
accepted (some c) = elim c.rest [
  | [] ↦ if c.out_of_range then none else some c.value
  | x ∷ xs ↦ none
]

-- the tests on `buf`, which has room for 63 characters
unfoldable pub parse_buf : Text → Option ℕ
parse_buf [] = none
parse_buf (c ∷ s) =
    let buf : Text = c ∷ s in
    let q : Text = skip is_blank buf in
    if is_signed q then none else accepted (strtoull (if is_hex_prefix q then 16 else 10) buf)

-- `pw_parse_u64`
unfoldable pub parse_u64 : Text → Option ℕ
parse_u64 s = let buf = without_underscores s in if leb 64 (length buf) then none else parse_buf buf

unfoldable pub at_most : ℕ → Option ℕ → Option ℕ
at_most limit none = none
at_most limit (some v) = if ltb limit v then none else some v

-- `pw_parse_u32`
unfoldable pub parse_u32 : Text → Option ℕ
unfolding at_most
parse_u32 s = at_most 0xFFFFFFFF (parse_u64 s)

-- `pw_parse_u16`
unfoldable pub parse_u16 : Text → Option ℕ
unfolding at_most
parse_u16 s = at_most 0xFFFF (parse_u64 s)

-- `pw_parse_u8`
unfoldable pub parse_u8 : Text → Option ℕ
unfolding at_most
parse_u8 s = at_most 0xFF (parse_u64 s)

-- `:` and the rest of the pattern, or its end, behind a number
unfoldable pub octets_behind : ℕ → ℕ → Text → (Text → Option (List ℕ)) → Option (List ℕ)
octets_behind zero o [] next = some (o ∷ [])
octets_behind zero o (c ∷ s) next = none
octets_behind (suc n) o [] next = none
octets_behind (suc n) o (c ∷ s) next = elim (c == b':') [
  | true ↦ elim (next s) [ none ↦ none | some os ↦ some (o ∷ os) ]
  | false ↦ none
]

-- `%x:%x:…%n` and the test that nothing follows: as many numbers as asked for, between colons.
-- `%x` reads as `strtoul` does, into 32 bits.
unfoldable pub scan_octets : ℕ → Text → Option (List ℕ)
unfolding octets_behind
scan_octets zero s = none
scan_octets (suc n) s = elim (strtoull 16 s) [
  | none ↦ none
  | some c ↦ octets_behind n (u32 c.value) c.rest (scan_octets n)
]

unfoldable pub all_bytes : List ℕ → Bool
all_bytes [] = true
all_bytes (o ∷ os) = leb o 0xFF && all_bytes os

-- `pw_parse_mac`
unfoldable pub parse_mac : Text → Option (List ℕ)
unfolding scan_octets all_bytes
parse_mac s = elim (scan_octets 6 s) [
  | none ↦ none
  | some os ↦ if all_bytes os then some os else none
]

-- `inet_pton` for AF_INET and AF_INET6: the bytes of the address, in network order, or `none`
-- where it does not return 1.
pub record Net : Type 0 where
  pub inet_pton4 : Text → Option (List ℕ)
  pub inet_pton6 : Text → Option (List ℕ)

-- `ntohl` of the bytes in memory
unfoldable pub big_endian : ℕ → List ℕ → ℕ
big_endian acc [] = acc
big_endian acc (b ∷ bs) = big_endian (acc * 256 + b) bs

-- `pw_parse_ipv4`
unfoldable pub parse_ipv4 : Net → Text → Option ℕ
unfolding big_endian
parse_ipv4 net s = elim (net.inet_pton4 s) [ none ↦ none | some bs ↦ some (big_endian 0 bs) ]

-- `pw_parse_ipv6`
unfoldable pub parse_ipv6 : Net → Text → Option (List ℕ)
parse_ipv6 net s = net.inet_pton6 s

-- What `inet_pton` documents: an address has 4 or 16 bytes.
pub record IsInet (net : Net) : Type 0 where
  pub four_bytes :
      (s : Text) (bs : List ℕ)
      → net.inet_pton4 s ≡ some bs
      → (length bs ≡ 4) × All (λ b. b < 256) bs
  pub sixteen_bytes :
      (s : Text) (bs : List ℕ)
      → net.inet_pton6 s ≡ some bs
      → (length bs ≡ 16) × All (λ b. b < 256) bs
