-- ===== src/Preview/Modifiers.antt =====
-- The field modifiers of the preview: `pv_scramble`, `pv_mod32`, `pv_mod16`, `pv_mod48`,
-- `pv_mod128` and the MAC conversions of sw/libpacketwyrm/src/frame_preview.c.
use packet_wyrm.Base.{
  ℕ, ◌+◌, ◌-◌, ◌*◌, ◌^◌, bit_and, bit_or, bit_xor, List, [], ◌∷◌, ◌++◌, get_or, if◌then◌else◌, ◌==◌,
  u8, u16, u32, shl, shr, not16, not32,
}
use packet_wyrm.Scalar.{big_endian}
use packet_wyrm.Config.FlowModel.{FlowModifiers, FieldMod, Flow}

-- `pv_scramble`
unfoldable pub pv_scramble : ℕ → ℕ
pv_scramble x =
    let a = bit_xor x (u32 (shl x 13)) in let b = bit_xor a (shr a 17) in bit_xor b (u32 (shl b 5))

-- `pv_mod32`
unfoldable pub pv_mod32 : ℕ → ℕ → ℕ → ℕ → ℕ
unfolding pv_scramble
pv_mod32 mode base mask seq =
    if mode == 0
    then base
    else bit_or (bit_and base (not32 mask))
        (bit_and (if mode == 2 then pv_scramble seq else seq) mask)

-- `pv_mod16`
unfoldable pub pv_mod16 : ℕ → ℕ → ℕ → ℕ → ℕ
unfolding pv_scramble
pv_mod16 mode base mask seq =
    if mode == 0
    then base
    else u16 (
        bit_or (bit_and base (not16 mask))
          (bit_and (if mode == 2 then u16 (shr (pv_scramble seq) 3) else u16 seq) mask))

-- `~mask` on 64 bits
abbrev not64 : ℕ → ℕ
not64 x = 0xFFFFFFFFFFFFFFFF - x

-- `pv_mod48`
unfoldable pub pv_mod48 : ℕ → ℕ → ℕ → ℕ → ℕ
unfolding pv_scramble
pv_mod48 mode base mask seq =
    if mode == 0
    then base
    else let rnd = bit_or (shl (pv_scramble (u32 (shr seq 32))) 32) (pv_scramble (u32 seq)) in
      let rot = if mode == 2 then bit_and rnd 0xFFFFFFFFFFFF else bit_and seq 0xFFFFFFFFFFFF in
      bit_or (bit_and base (not64 mask)) (bit_and rot mask)

-- the four bytes at a place, most significant first
unfoldable pub word_at : List ℕ → ℕ → ℕ
word_at b p =
    get_or b p 0 * 2 ^ 24
    + get_or b (p + 1) 0 * 2 ^ 16
    + get_or b (p + 2) 0 * 2 ^ 8
    + get_or b (p + 3) 0

unfoldable pub word_bytes : ℕ → List ℕ
word_bytes e = u8 (shr e 24) ∷ u8 (shr e 16) ∷ u8 (shr e 8) ∷ u8 e ∷ []

-- one round of the loop of `pv_mod128`, with the lane's `lsalt`, `loff` and byte offset
unfoldable pub pv_lane : ℕ → List ℕ → List ℕ → ℕ → ℕ → ℕ → ℕ → ℕ → List ℕ
unfolding pv_scramble word_at word_bytes
pv_lane mode base mask seq field_salt lsalt loff p =
    let b = word_at base p in
    let m = word_at mask p in
    let rot =
      if mode == 2
      then pv_scramble (bit_xor (bit_xor seq field_salt) lsalt)
      else u32 (seq + loff) in
    word_bytes (if mode == 0 then b else bit_or (bit_and b (not32 m)) (bit_and rot m))

-- `pv_mod128`: lane 3 has the first bytes
unfoldable pub pv_mod128 : ℕ → List ℕ → List ℕ → ℕ → ℕ → List ℕ
unfolding pv_lane
pv_mod128 mode base mask seq salt =
    pv_lane mode base mask seq salt 0xC2B2AE3D 0x30000000 0
    ++ (pv_lane mode base mask seq salt 0x85EBCA77 0x20000000 4
        ++ (pv_lane mode base mask seq salt 0x9E3779B1 0x10000000 8
            ++ pv_lane mode base mask seq salt 0 0 12))

-- `mac_to_u48`, on six bytes
abbrev pub mac_to_u48 : List ℕ → ℕ
mac_to_u48 m = big_endian 0 m

-- `u48_to_mac`
unfoldable pub u48_to_mac : ℕ → List ℕ
u48_to_mac v =
    u8 (shr v 40) ∷ u8 (shr v 32) ∷ u8 (shr v 24) ∷ u8 (shr v 16) ∷ u8 (shr v 8) ∷ u8 v ∷ []

-- the `eff_*` variables of `pw_flow_build_preview`
pub record Effective : Type 0 where
  pub dmac : List ℕ
  pub smac : List ℕ
  pub vlan : ℕ
  pub sp : ℕ
  pub dp : ℕ
  pub sip : ℕ
  pub dip : ℕ
  pub v6src : List ℕ
  pub v6dst : List ℕ

-- one MAC address under its modifier
abbrev pub mod_mac : FieldMod → List ℕ → ℕ → List ℕ
mod_mac m mac seq = u48_to_mac (pv_mod48 m.mode (mac_to_u48 mac) m.mask seq)

unfoldable pub effective : Flow → ℕ → Effective
unfolding pv_mod16 pv_mod32 pv_mod48 pv_mod128 u48_to_mac
effective f seq = record {
  dmac = mod_mac md.dst_mac f.l2.dst_mac seq;
  smac = mod_mac md.src_mac f.l2.src_mac seq;
  vlan =
      bit_and (pv_mod16 md.vlan.mode (bit_and f.l2.vlan 0xFFF) (bit_and md.vlan.mask 0xFFF) seq)
        0xFFF;
  sp = pv_mod16 md.udp_src.mode f.udp.src_port (u16 md.udp_src.mask) seq;
  dp = pv_mod16 md.udp_dst.mode f.udp.dst_port (u16 md.udp_dst.mask) seq;
  sip = pv_mod32 md.src_ipv4.mode f.ipv4.src (u32 md.src_ipv4.mask) seq;
  dip = pv_mod32 md.dst_ipv4.mode f.ipv4.dst (u32 md.dst_ipv4.mask) seq;
  v6src = pv_mod128 md.src_ipv4.mode f.ipv6.src md.src_ipv6_mask seq 0;
  v6dst = pv_mod128 md.dst_ipv4.mode f.ipv6.dst md.dst_ipv6_mask seq 0x5A5A5A5A;
}
  where
    md : FlowModifiers
    md = f.modifiers
