-- ===== src/Config/Parse/CardRanges.antt =====
-- The system, the cards and the logical interfaces that are parsed are in range.
use packet_wyrm.Base.{
  ℕ, ◌≤◌, ◌<◌, ◌≡◌, ◌||◌, false, Option, Text, codes, words_eq, words_eq_sound, length, All,
  Ensures, returns, Ensures-bind, Ensures-reject, Meets, arith, ltb, ◌==◌, Bool-cases, inl, inr,
}
use packet_wyrm.Yaml.{Node, Items, count_items}
use packet_wyrm.Config.{PuntFlags}
use packet_wyrm.Config.Parse.Fields.{copy_str, name_max}
use packet_wyrm.Config.Parse.Cards.{
  exactly, parse_system, parse_card_port, parse_card, parse_logical_if,
}
use packet_wyrm.Config.Parse.Ranges.{
  Ensures-required, Ensures-optional, Ensures-each, at_most-Meets, u16-Meets, u32-Meets,
  copy_str-lt, IsBytes, mac-Meets, Free, Free-map, Free-seq, Free-any_map,
}
use packet_wyrm.Config.Parse.InRange.{IsSystem, IsPort, IsCard, IsLogicalIf}
use packet_wyrm.Scalar.{parse_u8, parse_u16}

abbrev IsText : ℕ → Text → Type 0
IsText n s = length s < n

exactly-Meets : (n : ℕ) (word s : Text) → Meets (λ t. t ≡ word) (exactly n word s)
exactly-Meets n word s = elim (Bool-cases (words_eq (copy_str n s) word)) [
  | inl same ↦ rw same (words_eq_sound (copy_str n s) word same)
  | inr other ↦ rw other tt
]

pub parse_system-Ensures : (given : Option Node) → Ensures IsSystem (parse_system given)
unfolding parse_system
parse_system-Ensures given = Ensures-bind (Free Node) (Free-map _) λ m _.
    Ensures-bind (IsText 32) (Ensures-required _ _ _ _ (λ s. copy_str-lt 32 s (omega arith)))
      λ name n.
        Ensures-bind (λ t. t ≡ codes "multi-card")
          (Ensures-required _ _ _ _ (exactly-Meets name_max (codes "multi-card")))
          λ mode md.
            Ensures-bind (λ t. t ≡ codes "10g")
              (Ensures-required _ _ _ _ (exactly-Meets 8 (codes "10g")))
              λ speed sp.
                Ensures-bind (λ v. v ≤ 0xFFFFFFFF)
                  (Ensures-optional _ _ _ _ _ (omega arith) u32-Meets)
                  λ poll p.
                    Ensures-bind (IsText 128)
                      (Ensures-optional _ _ _ _ _ (copy_str-lt 128 _ (omega arith))
                        (λ s. copy_str-lt 128 s (omega arith)))
                      λ socket so.
                        Ensures-bind (IsText 128)
                          (Ensures-optional _ _ _ _ _ (omega arith)
                            (λ s. copy_str-lt 128 s (omega arith)))
                          λ secret se. returns _ (record {
                            name = n;
                            mode = md;
                            speed = sp;
                            poll = p;
                            socket = so;
                            secret = se;
                          })

pub parse_card_port-Ensures : (n : Node) → Ensures IsPort (parse_card_port n)
unfolding parse_card_port
parse_card_port-Ensures n = Ensures-bind (Free Node) (Free-map _) λ m _.
    Ensures-bind (λ v. v ≤ 1) (Ensures-required _ _ _ _ (λ s. at_most-Meets 1 (parse_u8 s)))
      λ local l.
        Ensures-bind (λ v. v ≤ 0xFFFF) (Ensures-required _ _ _ _ u16-Meets)
          λ gp g.
            Ensures-bind (IsText 32)
              (Ensures-optional _ _ _ _ _ (copy_str-lt 32 _ (omega arith))
                (λ s. copy_str-lt 32 s (omega arith)))
              λ name nm. returns _ (record { local = l; global = g; name = nm })

pub parse_card-Ensures : (n : Node) → Ensures IsCard (parse_card n)
unfolding parse_card
parse_card-Ensures n = Ensures-bind (Free Node) (Free-map _) λ m _.
    Ensures-bind (λ v. v ≤ 0xFFFF) (Ensures-required _ _ _ _ u16-Meets)
      λ id i.
        Ensures-bind (IsText 32)
          (Ensures-optional _ _ _ _ _ (copy_str-lt 32 _ (omega arith))
            (λ s. copy_str-lt 32 s (omega arith)))
          λ name nm.
            Ensures-bind (IsText 16)
              (Ensures-required _ _ _ _ (λ s. copy_str-lt 16 s (omega arith)))
              λ pci pc. Ensures-bind (Free Items) (Free-seq _) λ entries _.
                Ensures-reject _ _
                  λ (count : (count_items entries == 0 || ltb 2 (count_items entries)) ≡ false).
                    Ensures-bind (λ ps. All IsPort ps × (length ps ≡ count_items entries))
                      (Ensures-each _ entries parse_card_port-Ensures)
                      λ ports all. returns _ (record {
                        id = i;
                        name = nm;
                        pci = pc;
                        one_or_two = rw (all.1) (ground arith);
                        ports = all.0;
                      })

pub parse_logical_if-Ensures : (n : Node) → Ensures IsLogicalIf (parse_logical_if n)
unfolding parse_logical_if
parse_logical_if-Ensures n = Ensures-bind (Free Node) (Free-map _) λ m _.
    Ensures-bind (λ v. v ≤ 0xFFFFFFFF) (Ensures-required _ _ _ _ u32-Meets)
      λ id i.
        Ensures-bind (λ v. v ≤ 0xFFFF) (Ensures-required _ _ _ _ u16-Meets)
          λ gp g.
            Ensures-bind (λ v. v ≤ 4094)
              (Ensures-optional _ _ _ _ _ (omega arith) (λ s. at_most-Meets 4094 (parse_u16 s)))
              λ vlan vl.
                Ensures-bind (IsText 32)
                  (Ensures-optional _ _ _ _ _ (copy_str-lt 32 _ (omega arith))
                    (λ s. copy_str-lt 32 s (omega arith)))
                  λ name nm. Ensures-bind (IsBytes 6) (Ensures-required _ _ _ _ mac-Meets) λ mac mc.
                    Ensures-bind (λ v. v ≤ 0xFFFF)
                      (Ensures-optional _ _ _ _ _ (omega arith) u16-Meets)
                      λ mtu mt.
                        Ensures-bind (IsText 32)
                          (Ensures-optional _ _ _ _ _ (omega arith)
                            (λ s. copy_str-lt 32 s (omega arith)))
                          λ netns ns. Ensures-bind (Free PuntFlags) (Free-any_map _ _ _ _) λ punt _.
                            returns _ (record {
                              id = i;
                              global = g;
                              vlan = vl;
                              name = nm;
                              mac = mc;
                              mtu = mt;
                              netns = ns;
                            })
