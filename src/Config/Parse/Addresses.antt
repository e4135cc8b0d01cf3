-- ===== src/Config/Parse/Addresses.antt =====
-- Addresses, prefixes and field modifiers: `pw_v6_prefix_mask`, `pw_parse_ipv6_cidr`,
-- `parse_field_mod`, `parse_ipv6_field_mod` and `parse_ip_endpoint` of
-- sw/libpacketwyrm/src/config.c.
use packet_wyrm.Base.{◌^◌}
use packet_wyrm.Base.{
  ℕ, zero, suc, ◌+◌, ◌-◌, ◌*◌, Bool, true, false, ◌||◌, Option, none, some, List, [], ◌∷◌, ◌++◌,
  ltb, leb, ◌==◌, if◌then◌else◌, length, replicate, get_or, Text, codes, u8, shl, shr, Result, ok,
  err, Error, ◌>>=◌,
}
use packet_wyrm.Base.Texts.{strtoull}
use packet_wyrm.Yaml.{Node, map_get}
use packet_wyrm.Scalar.{Net, at_most, parse_u8, parse_u64, parse_ipv4, parse_ipv6}
use packet_wyrm.Config.FlowModel.{FlowIpv4, FlowIpv6, FieldMod}
use packet_wyrm.Config.Parse.Fields.{req_map, required_field, optional_field, one_of}

-- one byte of the mask: `i` is the byte's place
unfoldable pub prefix_byte : ℕ → ℕ → ℕ
prefix_byte prefix i = if bits == 0 then 0 else u8 (shl 0xFF (8 - bits))
  where
    bits : ℕ
    bits = if leb (i * 8 + 8) prefix then 8 else if ltb (i * 8) prefix then prefix - i * 8 else 0

unfoldable pub prefix_bytes : ℕ → ℕ → ℕ → List ℕ
unfolding prefix_byte
prefix_bytes prefix i zero = []
prefix_bytes prefix i (suc n) = prefix_byte prefix i ∷ prefix_bytes prefix (i + 1) n

-- `pw_v6_prefix_mask`
unfoldable pub v6_prefix_mask : ℕ → List ℕ
unfolding prefix_bytes
v6_prefix_mask prefix = prefix_bytes prefix 0 16

-- `strtoul(s, &end, 10)`, `*end != '\0' || p > 128`: without a digit the number is 0 and the
-- text must be empty
unfoldable pub prefix_length : Text → Option ℕ
prefix_length s = elim (strtoull 10 s) [
  | none ↦ elim s [ [] ↦ some 0 | x ∷ xs ↦ none ]
  | some c ↦ elim c.rest [ [] ↦ at_most 128 (some c.value) | x ∷ xs ↦ none ]
]

-- `strchr(s, '/')`: what is before the slash, and what is behind it
unfoldable pub split_slash : Text → Option (Text × Text)
split_slash [] = none
split_slash (c ∷ s) = elim (c == b'/') [
  | true ↦ some ([], s)
  | false ↦ elim (split_slash s) [ none ↦ none | some (before, behind) ↦ some (c ∷ before, behind) ]
]

module _ (net : Net) where
  unfoldable pub cidr_mask : ℕ → Text → Option (List ℕ × List ℕ)
  unfolding v6_prefix_mask
  cidr_mask prefix s = elim (parse_ipv6 net s) [
    | none ↦ none
    | some addr ↦ some (addr, v6_prefix_mask prefix)
  ]

  -- `pw_parse_ipv6_cidr`, whose buffer has room for 63 characters
  unfoldable pub parse_ipv6_cidr : Text → Option (List ℕ × List ℕ)
  unfolding cidr_mask split_slash prefix_length
  parse_ipv6_cidr s = elim (split_slash s) [
    | none ↦ cidr_mask 128 s
    | some (before, behind) ↦ elim (length before == 0 || leb 64 (length before)) [
      | true ↦ none
      | false ↦ elim (prefix_length behind) [ none ↦ none | some prefix ↦ cidr_mask prefix before ]
    ]
  ]

abbrev pub modes : List (Text × ℕ)
modes = (codes "static", 0) ∷ (codes "increment", 1) ∷ (codes "random", 2) ∷ []

abbrev pub no_mod : FieldMod
no_mod = record { mode = 0; mask = 0 }

-- `parse_field_mod`, on what the parent has at the key
unfoldable pub parse_field_mod : Node → Text → Result FieldMod
parse_field_mod parent key = elim (map_get parent key) [
  | none ↦ ok no_mod
  | some n ↦ do
    m ← req_map (some n)
    mode ← optional_field m (codes "mode") (one_of modes) Error.parse 0
    mask ← optional_field m (codes "mask") (λ s. at_most 0xFFFFFFFFFFFF (parse_u64 s)) Error.parse 0
    ok (record { mode = mode; mask = mask })
]

abbrev pub zero16 : List ℕ
zero16 = replicate 16 0

unfoldable pub has_colon : Text → Bool
has_colon [] = false
has_colon (c ∷ s) = c == b':' || has_colon s

-- the low 32 bits of a mask, most significant byte first
unfoldable pub low_mask16 : ℕ → List ℕ
low_mask16 v = replicate 12 0 ++ (u8 (shr v 24) ∷ u8 (shr v 16) ∷ u8 (shr v 8) ∷ u8 v ∷ [])

-- an IPv6 literal, or a number of 32 bits
unfoldable pub parse_mask16 : Net → Text → Option (List ℕ)
unfolding has_colon low_mask16
parse_mask16 net s = elim (has_colon s) [
  | true ↦ parse_ipv6 net s
  | false ↦ elim (at_most 0xFFFFFFFF (parse_u64 s)) [ none ↦ none | some v ↦ some (low_mask16 v) ]
]

-- `((uint64_t)mask16[12]<<24) | … | mask16[15]`, over bytes
unfoldable pub low_mask : List ℕ → ℕ
low_mask b = get_or b 12 0 * 2 ^ 24 + get_or b 13 0 * 2 ^ 16 + get_or b 14 0 * 2 ^ 8 + get_or b 15 0

-- `parse_ipv6_field_mod`: the modifier, and the mask of 16 bytes
unfoldable pub parse_ipv6_field_mod : Net → Node → Text → Result (FieldMod × List ℕ)
unfolding parse_mask16 low_mask
parse_ipv6_field_mod net parent key = elim (map_get parent key) [
  | none ↦ ok (no_mod, zero16)
  | some n ↦ do
    m ← req_map (some n)
    mode ← optional_field m (codes "mode") (one_of modes) Error.parse 0
    mask16 ← optional_field m (codes "mask") (parse_mask16 net) Error.parse zero16
    ok (record { mode = mode; mask = low_mask mask16 }, mask16)
]

abbrev pub no_ipv4 : FlowIpv4
no_ipv4 = record { present = false; src = 0; dst = 0; ttl = 0; dscp = 0 }

abbrev pub no_ipv6 : FlowIpv6
no_ipv6 = record { present = false; src = zero16; dst = zero16; hop_limit = 0; dscp = 0 }

abbrev dscp_of : Text → Option ℕ
dscp_of s = at_most 63 (parse_u8 s)

-- the two branches of `parse_ip_endpoint`
unfoldable pub parse_v6 : Net → Node → Result FlowIpv6
parse_v6 net node = do
  v6 ← req_map (some node)
  src ← required_field v6 (codes "src") (parse_ipv6 net) Error.parse
  dst ← required_field v6 (codes "dst") (parse_ipv6 net) Error.parse
  hop_limit ← optional_field v6 (codes "hop_limit") parse_u8 Error.parse 64
  dscp ← optional_field v6 (codes "dscp") dscp_of Error.out_of_range 0
  ok (record { present = true; src = src; dst = dst; hop_limit = hop_limit; dscp = dscp })

unfoldable pub parse_v4 : Net → Node → Result FlowIpv4
parse_v4 net node = do
  v4 ← req_map (some node)
  src ← required_field v4 (codes "src") (parse_ipv4 net) Error.parse
  dst ← required_field v4 (codes "dst") (parse_ipv4 net) Error.parse
  ttl ← optional_field v4 (codes "ttl") parse_u8 Error.parse 64
  dscp ← optional_field v4 (codes "dscp") dscp_of Error.out_of_range 0
  ok (record { present = true; src = src; dst = dst; ttl = ttl; dscp = dscp })

-- `parse_ip_endpoint`: exactly one of the two blocks
unfoldable pub parse_ip_endpoint : Net → Node → Result (FlowIpv4 × FlowIpv6)
unfolding parse_v6 parse_v4
parse_ip_endpoint net parent = elim (map_get parent (codes "ipv4")) [
  | some v4 ↦ elim (map_get parent (codes "ipv6")) [
    | some v6 ↦ err Error.inval
    | none ↦ do ip ← parse_v4 net v4; ok (ip, no_ipv6)
  ]
  | none ↦ elim (map_get parent (codes "ipv6")) [
    | some v6 ↦ do ip ← parse_v6 net v6; ok (no_ipv4, ip)
    | none ↦ err Error.missing_field
  ]
]
