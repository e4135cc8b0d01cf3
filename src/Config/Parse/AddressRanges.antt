-- ===== src/Config/Parse/AddressRanges.antt =====
-- Addresses, masks and modifiers that are parsed are in range.
use packet_wyrm.Base.{
  ℕ, zero, suc, ◌+◌, ◌≤◌, ◌<◌, ◌≡◌, refl, ap, ◌||◌, Bool, true, false, Option, none, some, Text,
  List, [], ◌∷◌, get_or, codes, length, All, Error, ok, err, ◌>>=◌, Ensures, fails, returns,
  Ensures-bind, Meets, arith, leb, ◌==◌, inl, inr,
}
use packet_wyrm.Yaml.{Node, map_get}
use packet_wyrm.Scalar.{
  Net, IsInet, at_most, big_endian, parse_u8, parse_u64, parse_ipv4, parse_ipv6,
}
use packet_wyrm.Config.FlowModel.{FieldMod}
use packet_wyrm.Config.Parse.Fields.{one_of, req_map, optional_field}
use packet_wyrm.Config.Parse.Addresses.{
  prefix_byte, prefix_bytes, v6_prefix_mask, prefix_length, split_slash, cidr_mask, parse_ipv6_cidr,
  modes, no_mod, parse_field_mod, zero16, low_mask16, has_colon, parse_mask16, low_mask,
  parse_ipv6_field_mod, no_ipv4, no_ipv6, parse_v6, parse_v4, parse_ip_endpoint,
}
use packet_wyrm.Config.Parse.Ranges.{
  Ensures-required, Ensures-optional, at_most-Meets, u8-Meets, one_of-Meets, IsBytes, Free,
  Free-map,
}
use packet_wyrm.Config.Parse.InRange.{IsIpv4, IsIpv6, IsEndpoint, IsMod}

prefix_byte-le : (prefix i : ℕ) → prefix_byte prefix i ≤ 0xFF
unfolding prefix_byte
prefix_byte-le prefix i = ground arith

prefix_bytes-IsBytes : (prefix i n : ℕ) → IsBytes n (prefix_bytes prefix i n)
unfolding prefix_bytes
prefix_bytes-IsBytes prefix i zero = (refl, tt)
prefix_bytes-IsBytes prefix i (suc n) =
    let rest = prefix_bytes-IsBytes prefix (i + 1) n in
    (ap suc rest.0, (prefix_byte-le prefix i, rest.1))

pub v6_prefix_mask-IsBytes : (prefix : ℕ) → IsBytes 16 (v6_prefix_mask prefix)
unfolding v6_prefix_mask
v6_prefix_mask-IsBytes prefix = prefix_bytes-IsBytes prefix 0 16

pub zero16-IsBytes : IsBytes 16 zero16
zero16-IsBytes = omega arith

low_mask16-IsBytes : (v : ℕ) → IsBytes 16 (low_mask16 v)
unfolding low_mask16
low_mask16-IsBytes v = omega arith

big_endian4-le : (b : List ℕ) → length b ≡ 4 → All (λ o. o < 256) b → big_endian 0 b ≤ 0xFFFFFFFF
unfolding big_endian
big_endian4-le (a ∷ b ∷ c ∷ d ∷ []) four bytes = omega arith
big_endian4-le _ four bytes = absurd (omega arith)

bytes_le : (b : List ℕ) → All (λ o. o < 256) b → All (λ o. o ≤ 0xFF) b
bytes_le [] small = tt
bytes_le (x ∷ b) small = (omega arith, bytes_le b small.1)

-- an address with its mask
abbrev pub IsCidr : List ℕ × List ℕ → Type 0
IsCidr (addr, mask) = IsBytes 16 addr × IsBytes 16 mask

abbrev pub IsMaskedMod : FieldMod × List ℕ → Type 0
IsMaskedMod (m, mask16) = IsMod m × IsBytes 16 mask16

get_or-le : (b : List ℕ) (i : ℕ) → All (λ o. o ≤ 0xFF) b → get_or b i 0 ≤ 0xFF
get_or-le [] i bytes = omega arith
get_or-le (x ∷ b) zero bytes = bytes.0
get_or-le (x ∷ b) (suc i) bytes = get_or-le b i bytes.1

no_ipv4-IsIpv4 : IsIpv4 no_ipv4
no_ipv4-IsIpv4 = omega arith

no_ipv6-IsIpv6 : IsIpv6 no_ipv6
no_ipv6-IsIpv6 = record {
  src = zero16-IsBytes;
  dst = zero16-IsBytes;
  hop_limit = omega arith;
  dscp = omega arith;
}

pub no_mod-IsMod : IsMod no_mod
no_mod-IsMod = omega arith

module _ (net : Net) (inet : IsInet net) where
  ipv4-Meets : (s : Text) → Meets (λ v. v ≤ 0xFFFFFFFF) (parse_ipv4 net s)
  unfolding parse_ipv4
  ipv4-Meets s = go (net.inet_pton4 s) refl
    where
      go :
          (o : Option (List ℕ))
          → net.inet_pton4 s ≡ o
          → Meets (λ v. v ≤ 0xFFFFFFFF) (elim o [ none ↦ none | some bs ↦ some (big_endian 0 bs) ])
      go none read = tt
      go (some b) read = let (four, small) = inet.four_bytes s b read in big_endian4-le b four small

  pub ipv6-Meets : (s : Text) → Meets (IsBytes 16) (parse_ipv6 net s)
  unfolding parse_ipv6
  ipv6-Meets s = go (net.inet_pton6 s) refl
    where
      go : (o : Option (List ℕ)) → net.inet_pton6 s ≡ o → Meets (IsBytes 16) o
      go none read = tt
      go (some b) read =
          let (sixteen, small) = inet.sixteen_bytes s b read in (sixteen, bytes_le b small)

  cidr_mask-Meets : (prefix : ℕ) (s : Text) → Meets IsCidr (cidr_mask net prefix s)
  unfolding cidr_mask
  cidr_mask-Meets prefix s = go (parse_ipv6 net s) (ipv6-Meets s)
    where
      go :
          (o : Option (List ℕ))
          → Meets (IsBytes 16) o
          → Meets IsCidr (elim o [ none ↦ none | some addr ↦ some (addr, v6_prefix_mask prefix) ])
      go none meets = tt
      go (some b) meets = (meets, v6_prefix_mask-IsBytes prefix)

  pub parse_ipv6_cidr-Meets : (s : Text) → Meets IsCidr (parse_ipv6_cidr net s)
  unfolding parse_ipv6_cidr
  parse_ipv6_cidr-Meets s = whole (split_slash s)
    where
      with_prefix :
          (before : Text) (o : Option ℕ)
          → Meets IsCidr (elim o [ none ↦ none | some prefix ↦ cidr_mask net prefix before ])
      with_prefix before none = tt
      with_prefix before (some prefix) = cidr_mask-Meets prefix before

      guarded :
          (before behind : Text) (bad : Bool)
          → Meets IsCidr (elim bad [
            | true ↦ none
            | false ↦ elim (prefix_length behind) [
              | none ↦ none
              | some prefix ↦ cidr_mask net prefix before
            ]
          ])
      guarded before behind true = tt
      guarded before behind false = with_prefix before (prefix_length behind)

      whole :
          (o : Option (Text × Text))
          → Meets IsCidr (elim o [
            | none ↦ cidr_mask net 128 s
            | some (before, behind) ↦ elim (length before == 0 || leb 64 (length before)) [
              | true ↦ none
              | false ↦ elim (prefix_length behind) [
                | none ↦ none
                | some prefix ↦ cidr_mask net prefix before
              ]
            ]
          ])
      whole none = cidr_mask-Meets 128 s
      whole (some (before, behind)) = guarded before behind _

  mask16-Meets : (s : Text) → Meets (IsBytes 16) (parse_mask16 net s)
  unfolding parse_mask16
  mask16-Meets s = colon (has_colon s)
    where
      number :
          (o : Option ℕ)
          → Meets (IsBytes 16) (elim o [ none ↦ none | some v ↦ some (low_mask16 v) ])
      number none = tt
      number (some v) = low_mask16-IsBytes v

      colon :
          (b : Bool)
          → Meets (IsBytes 16) (elim b [
            | true ↦ parse_ipv6 net s
            | false ↦ elim (at_most 0xFFFFFFFF (parse_u64 s)) [
              | none ↦ none
              | some v ↦ some (low_mask16 v)
            ]
          ])
      colon true = ipv6-Meets s
      colon false = number (at_most 0xFFFFFFFF (parse_u64 s))

  low_mask-le : (b : List ℕ) → IsBytes 16 b → low_mask b ≤ 0xFFFFFFFF
  unfolding low_mask
  low_mask-le b bytes = omega (
    arith,
    get_or-le b 12 bytes.1,
    get_or-le b 13 bytes.1,
    get_or-le b 14 bytes.1,
    get_or-le b 15 bytes.1,
  )

  pub parse_v6-Ensures :
      (n : Node) → Ensures (λ ip. IsIpv6 ip × (ip.present ≡ true)) (parse_v6 net n)
  unfolding parse_v6
  parse_v6-Ensures n = Ensures-bind (Free Node) (Free-map _) λ m _.
      Ensures-bind (IsBytes 16) (Ensures-required _ _ _ _ ipv6-Meets) λ src sr.
        Ensures-bind (IsBytes 16) (Ensures-required _ _ _ _ ipv6-Meets) λ dst ds.
          Ensures-bind (λ v. v ≤ 0xFF) (Ensures-optional _ _ _ _ _ (omega arith) u8-Meets)
            λ hop h.
              Ensures-bind (λ v. v ≤ 63)
                (Ensures-optional _ _ _ _ _ (omega arith) (λ s. at_most-Meets 63 (parse_u8 s)))
                λ dscp d. returns _ (record { src = sr; dst = ds; hop_limit = h; dscp = d }, refl)

  pub parse_v4-Ensures :
      (n : Node) → Ensures (λ ip. IsIpv4 ip × (ip.present ≡ true)) (parse_v4 net n)
  unfolding parse_v4
  parse_v4-Ensures n = Ensures-bind (Free Node) (Free-map _) λ m _.
      Ensures-bind (λ v. v ≤ 0xFFFFFFFF) (Ensures-required _ _ _ _ ipv4-Meets)
        λ src sr.
          Ensures-bind (λ v. v ≤ 0xFFFFFFFF) (Ensures-required _ _ _ _ ipv4-Meets)
            λ dst ds.
              Ensures-bind (λ v. v ≤ 0xFF) (Ensures-optional _ _ _ _ _ (omega arith) u8-Meets)
                λ ttl t.
                  Ensures-bind (λ v. v ≤ 63)
                    (Ensures-optional _ _ _ _ _ (omega arith) (λ s. at_most-Meets 63 (parse_u8 s)))
                    λ dscp d. returns _ (record { src = sr; dst = ds; ttl = t; dscp = d }, refl)

  pub parse_ip_endpoint-Ensures : (n : Node) → Ensures IsEndpoint (parse_ip_endpoint net n)
  unfolding parse_ip_endpoint
  parse_ip_endpoint-Ensures n = go (map_get n (codes "ipv4")) (map_get n (codes "ipv6"))
    where
      go :
          (o4 o6 : Option Node)
          → Ensures IsEndpoint (elim o4 [
            | some v4 ↦ elim o6 [
              | some v6 ↦ err Error.inval
              | none ↦ do ip ← parse_v4 net v4; ok (ip, no_ipv6)
            ]
            | none ↦ elim o6 [
              | some v6 ↦ do ip ← parse_v6 net v6; ok (no_ipv4, ip)
              | none ↦ err Error.missing_field
            ]
          ])
      go none none = fails Error.missing_field
      go none (some v6) =
          Ensures-bind (λ ip. IsIpv6 ip × (ip.present ≡ true)) (parse_v6-Ensures v6)
            λ ip p.
              returns _ (record { v4 = no_ipv4-IsIpv4; v6 = p.0; one_family = inr (refl, p.1) })
      go (some v4) none =
          Ensures-bind (λ ip. IsIpv4 ip × (ip.present ≡ true)) (parse_v4-Ensures v4)
            λ ip p.
              returns _ (record { v4 = p.0; v6 = no_ipv6-IsIpv6; one_family = inl (p.1, refl) })
      go (some v4) (some v6) = fails Error.inval

  pub parse_ipv6_field_mod-Ensures :
      (n : Node) (key : Text) → Ensures IsMaskedMod (parse_ipv6_field_mod net n key)
  unfolding parse_ipv6_field_mod
  parse_ipv6_field_mod-Ensures n key = go (map_get n key)
    where
      go :
          (o : Option Node)
          → Ensures IsMaskedMod (elim o [
            | none ↦ ok (no_mod, zero16)
            | some n ↦ do
              m ← req_map (some n)
              mode ← optional_field m (codes "mode") (one_of modes) Error.parse 0
              mask16 ← optional_field m (codes "mask") (parse_mask16 net) Error.parse zero16
              ok (record { mode = mode; mask = low_mask mask16 }, mask16)
          ])
      go none = returns _ (record { mode = omega arith; mask = omega arith }, zero16-IsBytes)
      go (some sub) = Ensures-bind (Free Node) (Free-map _) λ m _.
          Ensures-bind (λ v. v ≤ 2)
            (Ensures-optional _ _ _ _ _ (omega arith)
              (one_of-Meets (λ v. v ≤ 2) modes (omega arith)))
            λ mode md.
              Ensures-bind (IsBytes 16) (Ensures-optional _ _ _ _ _ zero16-IsBytes mask16-Meets)
                λ mask16 mk.
                  returns _ (record { mode = md; mask = omega (arith, low_mask-le mask16 mk) }, mk)

pub parse_field_mod-Ensures : (n : Node) (key : Text) → Ensures IsMod (parse_field_mod n key)
unfolding parse_field_mod
parse_field_mod-Ensures n key = go (map_get n key)
  where
    go :
        (o : Option Node)
        → Ensures IsMod (elim o [
          | none ↦ ok no_mod
          | some n ↦ do
            m ← req_map (some n)
            mode ← optional_field m (codes "mode") (one_of modes) Error.parse 0
            mask ←
                optional_field m
                  (codes "mask")
                  (λ s. at_most 0xFFFFFFFFFFFF (parse_u64 s))
                  Error.parse
                  0
            ok (record { mode = mode; mask = mask })
        ])
    go none = returns _ no_mod-IsMod
    go (some sub) = Ensures-bind (Free Node) (Free-map _) λ m _.
        Ensures-bind (λ v. v ≤ 2)
          (Ensures-optional _ _ _ _ _ (omega arith) (one_of-Meets (λ v. v ≤ 2) modes (omega arith)))
          λ mode md.
            Ensures-bind (λ v. v ≤ 0xFFFFFFFFFFFF)
              (Ensures-optional _ _ _ _ _ (omega arith)
                (λ s. at_most-Meets 0xFFFFFFFFFFFF (parse_u64 s)))
              λ mask mk. returns _ (record { mode = md; mask = mk })
