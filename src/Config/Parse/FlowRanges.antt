-- ===== src/Config/Parse/FlowRanges.antt =====
-- The blocks of a flow that are parsed are in range.
use packet_wyrm.Base.{
  ℕ, ◌≤◌, ◌≡◌, ◌⊎◌, refl, not, Bool, true, false, Option, none, some, Text, List, codes, Error, ok,
  err, Ensures, fails, returns, Ensures-bind, Ensures-reject, Meets, arith, ltb, inl, inr,
  if◌then◌else◌,
}
use packet_wyrm.Yaml.{Node, map_get}
use packet_wyrm.Scalar.{Net, IsInet, parse_u8, parse_u16}
use packet_wyrm.Config.FlowModel.{FlowIpv4, FlowIpv6}
use packet_wyrm.Config.Parse.Fields.{is_absent, optional_field}
use packet_wyrm.Config.Parse.Addresses.{v6_prefix_mask, prefix_length}
use packet_wyrm.Config.Parse.FlowBlocks.{
  zero6, no_l2, as_option, or_zero, parse_pcp, parse_l2, encaps, no_encap, parse_inner_l2,
  parse_outer, encap_of, parse_encap, parse_ports, parse_l4, no_modifiers, parse_address_mod,
  parse_modifiers, Masks, full_match, parse_match_prefix, parse_match, or_zero16,
}
use packet_wyrm.Config.Parse.Ranges.{
  Ensures-required, Ensures-optional, Ensures-map, at_most-Meets, u8-Meets, u16-Meets, u32-Meets,
  one_of-Meets, IsBytes, mac-Meets, Free, Free-map, Free-optional,
}
use packet_wyrm.Config.Parse.AddressRanges.{
  v6_prefix_mask-IsBytes, zero16-IsBytes, no_mod-IsMod, IsMaskedMod, parse_ip_endpoint-Ensures,
  parse_ipv6_field_mod-Ensures, parse_field_mod-Ensures,
}
use packet_wyrm.Config.Parse.InRange.{IsL2, IsEndpoint, IsEncap, IsL4, IsMod, IsModifiers}

zero6-IsBytes : IsBytes 6 zero6
zero6-IsBytes = omega arith

pub as_option-Meets :
    {A : Type 0} (P : A → Type 0) (parse : Text → Option A)
    → ((s : Text) → Meets P (parse s))
    → (s : Text) → Meets (Meets P) (as_option parse s)
as_option-Meets {A} P parse meets s = go (parse s) (meets s)
  where
    go :
        (o : Option A)
        → Meets P o
        → Meets (Meets P) (elim o [ none ↦ none | some v ↦ some (some v) ])
    go none m = tt
    go (some v) m = m

pub no_l2-IsL2 : IsL2 no_l2
no_l2-IsL2 = omega arith

parse_pcp-Ensures : (l2 : Node) → Ensures (λ v. v ≤ 7) (parse_pcp l2)
unfolding parse_pcp
parse_pcp-Ensures l2 =
    Ensures-bind (λ v. v ≤ 0xFF) (Ensures-optional _ _ _ _ _ (omega arith) u8-Meets)
      λ pcp p. Ensures-reject (ltb 7 pcp) _ λ small. returns _ (ground arith)

or_zero-le : (limit : ℕ) (o : Option ℕ) → Meets (λ v. v ≤ limit) o → or_zero o ≤ limit
or_zero-le limit none m = omega arith
or_zero-le limit (some v) m = m

pub parse_l2-Ensures : (l2 : Node) → Ensures IsL2 (parse_l2 l2)
unfolding parse_l2
parse_l2-Ensures l2 = Ensures-bind (IsBytes 6) (Ensures-required _ _ _ _ mac-Meets) λ src sr.
    Ensures-bind (IsBytes 6) (Ensures-required _ _ _ _ mac-Meets) λ dst ds.
      Ensures-bind (Meets (λ v. v ≤ 4094))
        (Ensures-optional _ _ _ _ _ tt
          (as_option-Meets (λ v. v ≤ 4094) _ (λ s. at_most-Meets 4094 (parse_u16 s))))
        λ vlan vl.
          Ensures-bind (λ v. v ≤ 7) (parse_pcp-Ensures l2)
            λ pcp p.
              Ensures-bind (λ v. v ≤ 0xFFFF) (Ensures-optional _ _ _ _ _ (omega arith) u16-Meets)
                λ ethertype et. returns _ (record {
                  src = sr;
                  dst = ds;
                  vlan = or_zero-le 4094 vlan vl;
                  pcp = p;
                  ethertype = et;
                })

abbrev IsMacs : List ℕ × List ℕ → Type 0
IsMacs (src, dst) = IsBytes 6 src × IsBytes 6 dst

parse_inner_l2-Ensures : (il2 : Node) → Ensures (Meets IsMacs) (parse_inner_l2 il2)
unfolding parse_inner_l2
parse_inner_l2-Ensures il2 = Ensures-bind (IsBytes 6) (Ensures-required _ _ _ _ mac-Meets) λ src sr.
    Ensures-bind (IsBytes 6) (Ensures-required _ _ _ _ mac-Meets) λ dst ds. returns _ (sr, ds)

pub no_encap-IsEncap : IsEncap no_encap
no_encap-IsEncap = record {
  known = λ p. cc;
  outer = λ p. absurd (cc);
  inner_src = zero6-IsBytes;
  inner_dst = zero6-IsBytes;
}

encap_of-IsEncap :
    (kind : ℕ) (outer : FlowIpv4 × FlowIpv6) (inner : Option (List ℕ × List ℕ))
    → (1 ≤ kind) × (kind ≤ 3)
    → IsEndpoint outer
    → Meets IsMacs inner
    → IsEncap (encap_of kind outer inner)
encap_of-IsEncap kind (v4, v6) none known endpoint macs = record {
  known = λ p. known;
  outer = λ p. endpoint;
  inner_src = zero6-IsBytes;
  inner_dst = zero6-IsBytes;
}
encap_of-IsEncap kind (v4, v6) (some (src, dst)) known endpoint macs = record {
  known = λ p. known;
  outer = λ p. endpoint;
  inner_src = macs.0;
  inner_dst = macs.1;
}

abbrev IsProto : ℕ → Type 0
IsProto p = (p ≡ 6) ⊎ (p ≡ 17)

udp_or_tcp : (tcp : Bool) → IsProto (if tcp then 6 else 17)
udp_or_tcp true = inl refl
udp_or_tcp false = inr refl

flags-Ensures :
    (tcp : Bool) (l4 : Node)
    → Ensures
        (λ v. v ≤ 0xFF)
        (if tcp then optional_field l4 (codes "flags") parse_u8 Error.parse 0x02 else ok 0x02)
flags-Ensures true l4 = Ensures-optional _ _ _ _ _ (omega arith) u8-Meets
flags-Ensures false l4 = returns 0x02 (omega arith)

parse_ports-Ensures : (tcp : Bool) (block : Node) → Ensures IsL4 (parse_ports tcp block)
unfolding parse_ports
parse_ports-Ensures tcp block = Ensures-bind (Free Node) (Free-map _) λ l4 _.
    Ensures-bind (λ v. v ≤ 0xFFFF) (Ensures-required _ _ _ _ u16-Meets)
      λ src sr.
        Ensures-bind (λ v. v ≤ 0xFFFF) (Ensures-required _ _ _ _ u16-Meets)
          λ dst ds.
            Ensures-bind (λ v. v ≤ 0xFF) (flags-Ensures tcp l4)
              λ flags fl.
                returns _ (record { src = sr; dst = ds; proto = udp_or_tcp tcp; flags = fl })

pub parse_l4-Ensures : (m : Node) → Ensures IsL4 (parse_l4 m)
unfolding parse_l4
parse_l4-Ensures m = go (map_get m (codes "udp")) (map_get m (codes "tcp"))
  where
    go :
        (udp tcp : Option Node)
        → Ensures IsL4 (elim udp [
          | some u ↦ elim tcp [ some t ↦ err Error.inval | none ↦ parse_ports false u ]
          | none ↦ elim tcp [ some t ↦ parse_ports true t | none ↦ err Error.missing_field ]
        ])
    go none none = fails Error.missing_field
    go none (some t) = parse_ports-Ensures true t
    go (some u) none = parse_ports-Ensures false u
    go (some u) (some t) = fails Error.inval

module _ (net : Net) (inet : IsInet net) where
  parse_outer-Ensures : (block : Option Node) → Ensures IsEndpoint (parse_outer net block)
  unfolding parse_outer
  parse_outer-Ensures none = fails Error.missing_field
  parse_outer-Ensures (some block) =
      Ensures-bind (Free Node) (Free-map _) λ outer _. parse_ip_endpoint-Ensures net inet outer

  pub parse_encap-Ensures : (enc : Node) → Ensures IsEncap (parse_encap net enc)
  unfolding parse_encap
  parse_encap-Ensures enc =
      Ensures-bind (λ k. (1 ≤ k) × (k ≤ 3))
        (Ensures-required _ _ _ _ (one_of-Meets (λ k. (1 ≤ k) × (k ≤ 3)) encaps (omega arith)))
        λ kind k.
          Ensures-bind IsEndpoint (parse_outer-Ensures (map_get enc (codes "outer"))) λ outer o.
            Ensures-bind (Meets IsMacs) (Ensures-map _ _ _ _ tt parse_inner_l2-Ensures)
              λ inner i. returns _ (encap_of-IsEncap kind outer inner k o i)

  parse_address_mod-Ensures :
      (v6 : Bool) (mods : Node) (key4 key6 : Text)
      → Ensures IsMaskedMod (parse_address_mod net v6 mods key4 key6)
  unfolding parse_address_mod
  parse_address_mod-Ensures true mods key4 key6 = parse_ipv6_field_mod-Ensures net inet mods key6
  parse_address_mod-Ensures false mods key4 key6 =
      Ensures-bind IsMod (parse_field_mod-Ensures mods key4) λ m p. returns _ (p, zero16-IsBytes)

  pub parse_modifiers-Ensures :
      (v6 : Bool) (mods : Node) → Ensures IsModifiers (parse_modifiers net v6 mods)
  unfolding parse_modifiers
  parse_modifiers-Ensures v6 mods =
      Ensures-bind IsMaskedMod (parse_address_mod-Ensures v6 mods _ _) λ src sr.
        Ensures-bind IsMaskedMod (parse_address_mod-Ensures v6 mods _ _) λ dst ds.
          Ensures-bind IsMod (parse_field_mod-Ensures mods _) λ udp_src us.
            Ensures-bind IsMod (parse_field_mod-Ensures mods _) λ udp_dst ud.
              Ensures-bind IsMod (parse_field_mod-Ensures mods _) λ src_mac sm.
                Ensures-bind IsMod (parse_field_mod-Ensures mods _) λ dst_mac dm.
                  Ensures-bind IsMod (parse_field_mod-Ensures mods _) λ vlan vl. returns _ (record {
                    src_ipv4 = sr.0;
                    dst_ipv4 = ds.0;
                    udp_src = us;
                    udp_dst = ud;
                    src_mac = sm;
                    dst_mac = dm;
                    vlan = vl;
                    src_ipv6 = sr.1;
                    dst_ipv6 = ds.1;
                  })

pub no_modifiers-IsModifiers : IsModifiers no_modifiers
no_modifiers-IsModifiers = record {
  src_ipv4 = no_mod-IsMod;
  dst_ipv4 = no_mod-IsMod;
  udp_src = no_mod-IsMod;
  udp_dst = no_mod-IsMod;
  src_mac = no_mod-IsMod;
  dst_mac = no_mod-IsMod;
  vlan = no_mod-IsMod;
  src_ipv6 = zero16-IsBytes;
  dst_ipv6 = zero16-IsBytes;
}

-- A prefix is there only on an IPv6 flow, and is a mask of 16 bytes.
abbrev IsPrefix : Bool → Option (List ℕ) → Type 0
IsPrefix v6 none = Unit
IsPrefix v6 (some mask) = IsBytes 16 mask × (v6 ≡ true)

pub record IsMasks (v6 : Bool) (k : Masks) : Type 0 where
  pub udp_dst : k.udp_dst ≤ 0xFFFF
  pub ipv4_dst : k.ipv4_dst ≤ 0xFFFFFFFF
  pub ipv6_dst : IsPrefix v6 k.ipv6_dst
  pub ipv6_src : IsPrefix v6 k.ipv6_src

parse_match_prefix-Ensures :
    (v6 : Bool) (mm : Node) (key : Text) → Ensures (IsPrefix v6) (parse_match_prefix v6 mm key)
unfolding parse_match_prefix
parse_match_prefix-Ensures v6 mm key =
    Ensures-bind (Free (Option Text)) (Free-optional _ _ _ _ _) λ text _. go v6 text
  where
    mask_of :
        (o : Option ℕ)
        → Ensures
            (IsPrefix true)
            (elim o [ none ↦ err Error.parse | some prefix ↦ ok (some (v6_prefix_mask prefix)) ])
    mask_of none = fails Error.parse
    mask_of (some prefix) = returns _ (v6_prefix_mask-IsBytes prefix, refl)

    go :
        (v6 : Bool) (text : Option Text)
        → Ensures (IsPrefix v6) (elim text [
          | none ↦ ok none
          | some s ↦ elim v6 [
            | false ↦ err Error.inval
            | true ↦ elim (prefix_length s) [
              | none ↦ err Error.parse
              | some prefix ↦ ok (some (v6_prefix_mask prefix))
            ]
          ]
        ])
    go v6 none = returns none tt
    go false (some s) = fails Error.inval
    go true (some s) = mask_of (prefix_length s)

pub parse_match-Ensures : (v6 : Bool) (mm : Node) → Ensures (IsMasks v6) (parse_match v6 mm)
unfolding parse_match
parse_match-Ensures v6 mm =
    Ensures-bind (λ v. v ≤ 0xFFFF) (Ensures-optional _ _ _ _ _ (omega arith) u16-Meets)
      λ udp_dst ud.
        Ensures-bind (λ v. v ≤ 0xFFFFFFFF) (Ensures-optional _ _ _ _ _ (omega arith) u32-Meets)
          λ ipv4_dst id.
            Ensures-bind (IsPrefix v6) (parse_match_prefix-Ensures v6 mm _) λ ipv6_dst dd.
              Ensures-bind (IsPrefix v6) (parse_match_prefix-Ensures v6 mm _) λ ipv6_src ds.
                returns _ (record { udp_dst = ud; ipv4_dst = id; ipv6_dst = dd; ipv6_src = ds })

pub full_match-IsMasks : (v6 : Bool) → IsMasks v6 full_match
full_match-IsMasks v6 = record {
  udp_dst = omega arith;
  ipv4_dst = omega arith;
  ipv6_dst = tt;
  ipv6_src = tt;
}

pub or_zero16-IsBytes : (v6 : Bool) (o : Option (List ℕ)) → IsPrefix v6 o → IsBytes 16 (or_zero16 o)
or_zero16-IsBytes v6 none p = zero16-IsBytes
or_zero16-IsBytes v6 (some mask) p = p.0

pub prefix_v6 :
    (v6 : Bool) (o : Option (List ℕ)) → IsPrefix v6 o → not (is_absent o) ≡ true → v6 ≡ true
prefix_v6 v6 none p there = cc
prefix_v6 v6 (some mask) p there = p.1
