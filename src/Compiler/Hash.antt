-- ===== src/Compiler/Hash.antt =====
-- The header key of the hash exact table: `pw_fc_hash_words`, `pw_fc_hash_index`,
-- `compile_header_classify` and `pw_fc_relax_mask` of sw/libpacketwyrm/src/flow_compiler.c.
use packet_wyrm.Base.{
  ℕ, zero, suc, ◌+◌, ◌*◌, ◌-◌, Bool, not, ◌&&◌, List, [], ◌∷◌, ◌++◌, get_or, set, bit_and, bit_or,
  bit_xor, shl, shr, u16, u32, not32, ◌==◌, ltb, if◌then◌else◌, Result, replicate,
}
use packet_wyrm.Config.FlowModel.{Flow, FieldMod, template_l2raw, template_l3raw}
use packet_wyrm.Compiler.Tables.{CardProgram, hash_depth}
use packet_wyrm.Compiler.Append.{append_hash_entry, be32}

-- `pw_fc_l3_words`, of a 128-bit value
unfoldable pub l3_words : ℕ → List ℕ
l3_words a =
    bit_and a 0xFFFFFFFF
    ∷ bit_and (shr a 32) 0xFFFFFFFF
    ∷ bit_and (shr a 64) 0xFFFFFFFF
    ∷ bit_and (shr a 96) 0xFFFFFFFF
    ∷ []

-- `dst = (dst << 8) | b[i]` over the bytes of an address
unfoldable pub address_value : ℕ → List ℕ → ℕ
address_value acc [] = acc
address_value acc (b ∷ bs) = address_value (bit_or (shl acc 8) b) bs

-- the VLAN half-word, and the ethertype of the IP family
unfoldable pub hash_vlan : Flow → ℕ
hash_vlan f = if f.l2.vlan_set then bit_and f.l2.vlan 0x0FFF else 0

abbrev pub family_ethertype : Flow → ℕ
family_ethertype f = if f.ipv6.present then 0x86DD else 0x0800

abbrev pub is_template : ℕ → Flow → Bool
is_template t f = f.traffic.frame_template == t

-- the key of a raw L2 flow
unfoldable pub l2raw_words : Flow → List ℕ
unfolding hash_vlan
l2raw_words f = replicate 9 0 ++ (bit_or (shl (hash_vlan f) 16) (bit_and et 0xFFFF) ∷ 0 ∷ [])
  where
    et : ℕ
    et = if f.l2.ethertype == 0 then family_ethertype f else f.l2.ethertype

-- `pw_fc_hash_words`
unfoldable pub hash_words : Flow → List ℕ
unfolding l3_words address_value hash_vlan l2raw_words
hash_words f =
    if is_template template_l2raw f
    then l2raw_words f
    else l3_words dst ++ (l3_words src ++ (ports ∷ tag ∷ proto ∷ []))
  where
    dst : ℕ
    dst = if f.ipv6.present then address_value 0 f.ipv6.dst else f.ipv4.dst

    src : ℕ
    src = if f.ipv6.present then address_value 0 f.ipv6.src else f.ipv4.src

    ports : ℕ
    ports =
        if is_template template_l3raw f then 0 else bit_or (shl f.udp.src_port 16) f.udp.dst_port

    tag : ℕ
    tag = bit_or (shl (hash_vlan f) 16) (family_ethertype f)

    proto : ℕ
    proto = if f.udp.l4_proto == 0 then 17 else f.udp.l4_proto

-- `for (unsigned d = PWFPGA_HASH_DEPTH; d > 1; d >>= 1) idx_w++;` on `fuel` rounds at most
unfoldable pub index_width : ℕ → ℕ → ℕ → ℕ
index_width zero d idx_w = idx_w
index_width (suc fuel) d idx_w =
    let rest = index_width fuel (shr d 1) (idx_w + 1) in if ltb 1 d then rest else idx_w

unfoldable pub xor_words : ℕ → List ℕ → ℕ
xor_words k32 [] = k32
xor_words k32 (w ∷ ws) = xor_words (bit_xor k32 w) ws

-- `pw_fc_hash_index`; 32 rounds are enough for an `unsigned`
unfoldable pub hash_index : List ℕ → ℕ → ℕ
unfolding xor_words index_width
hash_index w seed =
    u16 (shr (u32 (xor_words 0 w * bit_or seed 1)) (32 - index_width 32 hash_depth 0))

unfoldable pub compile_header_classify : Flow → ℕ → CardProgram → Result CardProgram
unfolding hash_words append_hash_entry
compile_header_classify f rx_lfid = append_hash_entry (hash_words f) rx_lfid

-- `mask[w] &= m;`
abbrev pub and_word : ℕ → ℕ → List ℕ → List ℕ
and_word w m mask = set mask w (bit_and (get_or mask w 0) m)

-- `if (test) mask[w] &= m;`
abbrev pub and_word_if : Bool → ℕ → ℕ → List ℕ → List ℕ
and_word_if test w m mask = if test then and_word w m mask else mask

-- `mode != PWFPGA_FIELD_STATIC`
abbrev pub varies : FieldMod → Bool
varies m = not (m.mode == 0)

-- the high words `from + 1 .. from + 3` of an IPv6 modifier, cleared where it rotates
unfoldable pub clear_high : Bool → ℕ → List ℕ → List ℕ → List ℕ
unfolding be32
clear_high test from b mask = and_word_if test (from + 3) (not32 (be32 b 0)) (
    and_word_if test (from + 2) (not32 (be32 b 4))
      (and_word_if test (from + 1) (not32 (be32 b 8)) mask))

-- an IPv6 match mask narrows the words `from .. from + 3`
unfoldable pub narrow_words : Bool → ℕ → List ℕ → List ℕ → List ℕ
unfolding be32
narrow_words test from b mask = and_word_if test (from + 3) (be32 b 0) (
    and_word_if test (from + 2) (be32 b 4)
      (and_word_if test (from + 1) (be32 b 8) (and_word_if test from (be32 b 12) mask)))

unfoldable pub relax_l3 : Flow → List ℕ → List ℕ
unfolding clear_high narrow_words
relax_l3 f mask = narrow_words f.match_ipv6_src_set 4 f.match_ipv6_src_mask (
    narrow_words f.match_ipv6_dst_set 0 f.match_ipv6_dst_mask (
      clear_high (f.ipv6.present && varies f.modifiers.src_ipv4) 4 f.modifiers.src_ipv6_mask (
        clear_high (f.ipv6.present && varies f.modifiers.dst_ipv4) 0 f.modifiers.dst_ipv6_mask (
          and_word_if (varies f.modifiers.src_ipv4) 4 (not32 f.modifiers.src_ipv4.mask) (
            and_word_if (not (f.match_ipv4_dst_mask == 0xFFFFFFFF)) 0 f.match_ipv4_dst_mask (
              and_word_if (varies f.modifiers.dst_ipv4) 0 (not32 f.modifiers.dst_ipv4.mask)
                mask))))))

unfoldable pub relax_l4 : Flow → List ℕ → List ℕ
relax_l4 f mask =
    and_word_if (varies f.modifiers.vlan) 9
      (not32 (shl (bit_and (u32 f.modifiers.vlan.mask) 0x0FFF) 16))
      (and_word_if (varies f.modifiers.udp_src) 8
        (not32 (shl (bit_and (u32 f.modifiers.udp_src.mask) 0xFFFF) 16))
        (and_word_if (not (f.match_udp_dst_mask == 0xFFFF)) 8
          (bit_or 0xFFFF0000 f.match_udp_dst_mask)
          (and_word_if (varies f.modifiers.udp_dst) 8
            (not32 (bit_and (u32 f.modifiers.udp_dst.mask) 0xFFFF)) mask)))

-- `pw_fc_relax_mask`
unfoldable pub relax_mask : Flow → List ℕ → List ℕ
unfolding relax_l3 relax_l4
relax_mask f mask = relax_l4 f (relax_l3 f mask)
