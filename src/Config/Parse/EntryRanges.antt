-- ===== src/Config/Parse/EntryRanges.antt =====
-- Flows, forward rules and whole configurations that are parsed are in range.
use packet_wyrm.Base.{
  ℕ, ◌≤◌, ◌<◌, Bool, Option, none, some, Text, List, codes, length, Ensures, returns, Ensures-bind,
  Meets, arith,
}
use packet_wyrm.Yaml.{Node, map_get}
use packet_wyrm.Scalar.{Net, IsInet, parse_u16}
use packet_wyrm.Config.FlowModel.{FlowMeas}
use packet_wyrm.Config.Parse.Entries.{address_of, mask_of, expectations, parse_flow, parse_forward}
use packet_wyrm.Config.Parse.Ranges.{
  Ensures-required, Ensures-optional, Ensures-map, at_most-Meets, u8-Meets, u16-Meets, u32-Meets,
  one_of-Meets, copy_str-lt, IsBytes, Free, Free-map, Free-optional, Free-any_map,
}
use packet_wyrm.Config.Parse.AddressRanges.{
  zero16-IsBytes, IsCidr, parse_ipv6_cidr-Meets, parse_ip_endpoint-Ensures,
}
use packet_wyrm.Config.Parse.FlowRanges.{
  as_option-Meets, no_l2-IsL2, parse_l2-Ensures, no_encap-IsEncap, parse_encap-Ensures,
  parse_l4-Ensures, parse_modifiers-Ensures, no_modifiers-IsModifiers, IsMasks, parse_match-Ensures,
  full_match-IsMasks, or_zero16-IsBytes, prefix_v6,
}
use packet_wyrm.Config.Parse.TrafficRanges.{parse_traffic-Ensures}
use packet_wyrm.Config.Parse.InRange.{
  IsTraffic, IsL2, IsEndpoint, IsEncap, IsL4, IsModifiers, IsFlow, IsForward,
}

address_of-IsBytes : (o : Option (List ℕ × List ℕ)) → Meets IsCidr o → IsBytes 16 (address_of o)
address_of-IsBytes none m = zero16-IsBytes
address_of-IsBytes (some (addr, mask)) m = m.0

mask_of-IsBytes : (o : Option (List ℕ × List ℕ)) → Meets IsCidr o → IsBytes 16 (mask_of o)
mask_of-IsBytes none m = zero16-IsBytes
mask_of-IsBytes (some (addr, mask)) m = m.1

abbrev IsText : ℕ → Text → Type 0
IsText n s = length s < n

module _ (net : Net) (inet : IsInet net) where
  pub parse_flow-Ensures : (n : Node) → Ensures IsFlow (parse_flow net n)
  unfolding parse_flow
  parse_flow-Ensures n = Ensures-bind (Free Node) (Free-map _) λ m _.
      Ensures-bind (λ v. v ≤ 0xFFFFFFFF) (Ensures-required _ _ _ _ u32-Meets)
        λ id i.
          Ensures-bind (IsText 32)
            (Ensures-optional _ _ _ _ _ (omega arith) (λ s. copy_str-lt 32 s (omega arith)))
            λ name nm.
              Ensures-bind (λ v. v ≤ 0xFFFF) (Ensures-required _ _ _ _ u16-Meets)
                λ tx t.
                  Ensures-bind (λ v. v ≤ 0xFFFF) (Ensures-required _ _ _ _ u16-Meets)
                    λ rx r.
                      Ensures-bind (λ v. v ≤ 0xFFFFFFFF)
                        (Ensures-optional _ _ _ _ _ (omega arith) u32-Meets)
                        λ lif l.
                          Ensures-bind IsL2 (Ensures-map _ _ _ _ no_l2-IsL2 parse_l2-Ensures)
                            λ l2 p2.
                              Ensures-bind IsEndpoint (parse_ip_endpoint-Ensures net inet m)
                                λ ip pip.
                                  Ensures-bind IsEncap
                                    (Ensures-map _ _ _ _ no_encap-IsEncap
                                      (parse_encap-Ensures net inet))
                                    λ encap pe.
                                      Ensures-bind (λ v. v ≤ 1)
                                        (Ensures-optional _ _ _ _ _ (omega arith)
                                          (one_of-Meets (λ v. v ≤ 1) expectations (omega arith)))
                                        λ rx_expect re.
                                          Ensures-bind IsL4 (parse_l4-Ensures m) λ l4 p4.
                                            Ensures-bind IsTraffic
                                              (parse_traffic-Ensures (map_get m (codes "traffic")))
                                              λ traffic pt.
                                                Ensures-bind (Free FlowMeas) (Free-any_map _ _ _ _)
                                                  λ meas _.
                                                    Ensures-bind IsModifiers
                                                      (Ensures-map _ _ _ _ no_modifiers-IsModifiers
                                                        (parse_modifiers-Ensures net inet
                                                          ip.1.present))
                                                      λ modifiers pm.
                                                        Ensures-bind (Free Bool)
                                                          (Free-optional _ _ _ _ _)
                                                          λ background _.
                                                            Ensures-bind (IsMasks ip.1.present)
                                                            (Ensures-map _ _ _ _
                                                            (full_match-IsMasks ip.1.present)
                                                            (parse_match-Ensures ip.1.present))
                                                            λ masks pk.
                                                            Ensures-bind (Free ℕ)
                                                            (Free-optional _ _ _ _ _)
                                                            λ classify _. returns _ (record {
                                                            id = i;
                                                            name = nm;
                                                            tx = t;
                                                            rx = r;
                                                            lif = l;
                                                            l2 = p2;
                                                            ip = pip;
                                                            l4 = p4;
                                                            traffic = pt;
                                                            modifiers = pm;
                                                            encap = pe;
                                                            rx_expect = re;
                                                            udp_mask = pk.udp_dst;
                                                            ipv4_mask = pk.ipv4_dst;
                                                            dst_mask =
                                                            or_zero16-IsBytes ip.1.present
                                                            masks.ipv6_dst pk.ipv6_dst;
                                                            src_mask =
                                                            or_zero16-IsBytes ip.1.present
                                                            masks.ipv6_src pk.ipv6_src;
                                                            v6_only =
                                                            prefix_v6 ip.1.present masks.ipv6_dst
                                                            pk.ipv6_dst;
                                                            })

  pub parse_forward-Ensures : (n : Node) → Ensures IsForward (parse_forward net n)
  unfolding parse_forward
  parse_forward-Ensures n = Ensures-bind (Free Node) (Free-map _) λ m _.
      Ensures-bind (λ v. v ≤ 0xFFFF) (Ensures-required _ _ _ _ u16-Meets)
        λ ingress ig.
          Ensures-bind (λ v. v ≤ 0xFFFF) (Ensures-required _ _ _ _ u16-Meets)
            λ egress eg.
              Ensures-bind (IsText 32)
                (Ensures-optional _ _ _ _ _ (omega arith) (λ s. copy_str-lt 32 s (omega arith)))
                λ name nm.
                  Ensures-bind (λ v. v ≤ 0xFF) (Ensures-optional _ _ _ _ _ (omega arith) u8-Meets)
                    λ priority pr.
                      Ensures-bind (λ v. v ≤ 0xFFFF)
                        (Ensures-optional _ _ _ _ _ (omega arith) u16-Meets)
                        λ ethertype et.
                          Ensures-bind (λ v. v ≤ 0xFF)
                            (Ensures-optional _ _ _ _ _ (omega arith) u8-Meets)
                            λ ip_proto ipp.
                              Ensures-bind (λ v. v ≤ 0xFFFF)
                                (Ensures-optional _ _ _ _ _ (omega arith) u16-Meets)
                                λ udp_dst ud.
                                  Ensures-bind (λ v. v ≤ 4094)
                                    (Ensures-optional _ _ _ _ _ (omega arith)
                                      (λ s. at_most-Meets 4094 (parse_u16 s)))
                                    λ vlan vl.
                                      Ensures-bind (Meets IsCidr)
                                        (Ensures-optional _ _ _ _ _ tt (
                                          as_option-Meets IsCidr _
                                            (parse_ipv6_cidr-Meets net inet)))
                                        λ dst ds.
                                          Ensures-bind (Meets IsCidr)
                                            (Ensures-optional _ _ _ _ _ tt (
                                              as_option-Meets IsCidr _
                                                (parse_ipv6_cidr-Meets net inet)))
                                            λ src sr. returns _ (record {
                                              name = nm;
                                              ingress = ig;
                                              egress = eg;
                                              priority = pr;
                                              ethertype = et;
                                              ip_proto = ipp;
                                              udp_dst = ud;
                                              vlan = vl;
                                              dst = address_of-IsBytes dst ds;
                                              dst_mask = mask_of-IsBytes dst ds;
                                              src = address_of-IsBytes src sr;
                                              src_mask = mask_of-IsBytes src sr;
                                            })
