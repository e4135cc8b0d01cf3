-- ===== src/Compiler/Rules/Forward.antt =====
-- A forward rule becomes one classifier rule, which matches exactly the frames that its match
-- fields and address prefixes describe.
use packet_wyrm.Base.{
  ℕ, ◌+◌, ◌*◌, ◌≡◌, refl, Bool, ◌||◌, List, [], ◌∷◌, ◌++◌, bit_and, if◌then◌else◌, ok, ok-injective,
  >>=-eq-ok,
}
use packet_wyrm.Config.{ForwardRule, PortRef}
use packet_wyrm.Compiler.Tables.{FcCmp, FcRule, CardProgram}
use packet_wyrm.Compiler.Append.{Draft, append_ipv6_cmps, be32}
use packet_wyrm.Compiler.Rules.{
  comparator, src_ingress, src_vlan, src_ethertype, src_l3_proto, src_l4_dst, src_flags,
  flag_is_ipv6, act_forward_port, dst_selectors, src_selectors, forward_conditions, forward_rule,
  add_forward_rule,
}
use packet_wyrm.Compiler.Rules.Meaning.{Condition, on_field, FitsPool}
use packet_wyrm.Compiler.Rules.Drafts.{
  need_cmp-Builds, IsDraft, Makes, Makes-bind, Makes-when, Builds-nil,
}
use packet_wyrm.Compiler.Rules.Punt.{wanted, need_cmp_if-Makes, Selects-zero}
use packet_wyrm.Compiler.Rules.Punted.{RuleMeans, Adds, Builds-Adds}

-- the comparator of word `w` of an address
abbrev pub word_cmp : List ℕ → List ℕ → ℕ → ℕ → FcCmp
word_cmp addr mask w s =
    comparator s (be32 mask (w * 4)) (bit_and (be32 addr (w * 4)) (be32 mask (w * 4)))

-- The words of an address that its mask does not leave open, from word `w` on.
abbrev pub address_needs : List ℕ → List ℕ → ℕ → List ℕ → List Condition
address_needs addr mask w [] = []
address_needs addr mask w (s ∷ sel) =
    wanted (be32 mask (w * 4)) (on_field (word_cmp addr mask w s))
    ++ address_needs addr mask (w + 1) sel

abbrev pub needs_when : Bool → List Condition → List Condition
needs_when test cs = if test then cs else []

abbrev pub forward_needs : PortRef → ForwardRule → List Condition
forward_needs ing fr =
    (on_field (comparator src_ingress 0xF ing.local_port_id) ∷ [])
    ++ (wanted fr.vlan (on_field (comparator src_vlan 0x0FFF fr.vlan))
        ++ (wanted fr.ethertype (on_field (comparator src_ethertype 0xFFFF fr.ethertype))
            ++ (wanted fr.ip_proto (on_field (comparator src_l3_proto 0xFF fr.ip_proto))
                ++ (wanted fr.udp_dst (on_field (comparator src_l4_dst 0xFFFF fr.udp_dst))
                    ++ (needs_when (fr.ipv6_dst_set || fr.ipv6_src_set)
                          (on_field (comparator src_flags flag_is_ipv6 flag_is_ipv6) ∷ [])
                        ++ (needs_when fr.ipv6_dst_set
                              (address_needs fr.ipv6_dst fr.ipv6_dst_mask 0 dst_selectors)
                            ++ needs_when fr.ipv6_src_set
                                (address_needs fr.ipv6_src fr.ipv6_src_mask 0 src_selectors)))))))

module _ (Holds : Condition → Type 0) where
  append_ipv6_cmps-Makes :
      (addr mask : List ℕ) (w : ℕ) (sel : List ℕ) (d : Draft)
      → IsDraft Holds d
      → Makes Holds (address_needs addr mask w sel) d (append_ipv6_cmps addr mask w sel d)
  unfolding append_ipv6_cmps
  append_ipv6_cmps-Makes addr mask w [] d v = λ e h. rw (← ok-injective h) (Builds-nil Holds d v)
  append_ipv6_cmps-Makes addr mask w (s ∷ sel) d v =
      Makes-bind Holds _ _ d _ _ (need_cmp_if-Makes Holds (be32 mask (w * 4)) _ d v)
        λ e u. append_ipv6_cmps-Makes addr mask (w + 1) sel e u

  forward_conditions-Makes :
      (ing : PortRef) (fr : ForwardRule) (d : Draft)
      → IsDraft Holds d
      → Makes Holds (forward_needs ing fr) d (forward_conditions ing fr d)
  unfolding forward_conditions
  forward_conditions-Makes ing fr d w =
      Makes-bind Holds _ _ d _ _ (need_cmp-Builds Holds _ d w) λ d1 w1.
        Makes-bind Holds _ _ d1 _ _ (need_cmp_if-Makes Holds fr.vlan _ d1 w1) λ d2 w2.
          Makes-bind Holds _ _ d2 _ _ (need_cmp_if-Makes Holds fr.ethertype _ d2 w2) λ d3 w3.
            Makes-bind Holds _ _ d3 _ _ (need_cmp_if-Makes Holds fr.ip_proto _ d3 w3) λ d4 w4.
              Makes-bind Holds _ _ d4 _ _ (need_cmp_if-Makes Holds fr.udp_dst _ d4 w4) λ d5 w5.
                Makes-bind Holds _ _ d5 _ _
                  (Makes-when Holds (fr.ipv6_dst_set || fr.ipv6_src_set) _ _ d5 w5
                    (need_cmp-Builds Holds _ d5 w5))
                  λ d6 w6.
                    Makes-bind Holds _ _ d6 _ _
                      (Makes-when Holds fr.ipv6_dst_set _ _ d6 w6
                        (append_ipv6_cmps-Makes fr.ipv6_dst fr.ipv6_dst_mask 0 dst_selectors d6 w6))
                      λ d7 w7.
                        Makes-when Holds fr.ipv6_src_set _ _ d7 w7 (
                          append_ipv6_cmps-Makes fr.ipv6_src fr.ipv6_src_mask 0 src_selectors d7 w7)

  -- the classifier rule of a forward rule
  pub record ForwardsTo (ing egr : PortRef) (fr : ForwardRule) (cp : CardProgram) (r : FcRule)
      : Type 0 where
    pub action : r.action ≡ act_forward_port
    pub egress : r.egress ≡ egr.local_port_id
    pub priority : r.priority ≡ fr.priority
    pub means : RuleMeans Holds cp (forward_needs ing fr) r

  -- When a forward rule is added to a card whose comparators fit the hardware, the card gains
  -- exactly one classifier rule, and keeps every comparator in its place; the rule forwards to the
  -- egress port at the configured priority, and matches exactly the frames that meet the ingress
  -- port, each match field that is set, and, where an IPv6 prefix is set, the IPv6 flag and every
  -- address word that the prefix masks, however the comparators are read.
  pub add_forward_rule_lem :
      (ing egr : PortRef) (fr : ForwardRule) (cp cp' : CardProgram)
      → FitsPool cp
      → add_forward_rule ing egr fr cp ≡ ok cp'
      → (r : FcRule) × Adds cp (r ∷ []) cp' × ForwardsTo ing egr fr cp' r
  unfolding add_forward_rule forward_rule
  add_forward_rule_lem ing egr fr cp cp' v h =
      let (d, hd, hr) = >>=-eq-ok (forward_conditions ing fr (0, cp)) _ h in
      let b = forward_conditions-Makes ing fr (0, cp) (v, Selects-zero cp) d hd in
      let (adds, means) =
        Builds-Adds Holds (forward_needs ing fr) cp cp' d (forward_rule egr fr d.0) b refl hr in
      (
        forward_rule egr fr d.0,
        adds,
        record { action = refl; egress = refl; priority = refl; means = means },
      )
