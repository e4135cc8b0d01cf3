-- ===== src/Preview/Build.antt =====
-- The stages of `pw_flow_build_preview` (sw/libpacketwyrm/src/frame_preview.c), in their order.
use packet_wyrm.Base.{
  ℕ, ◌+◌, ◌-◌, ◌*◌, bit_and, bit_or, Bool, true, false, not, ◌&&◌, ◌||◌, Option, some, List, [],
  ◌∷◌, ◌++◌, length, map, if◌then◌else◌, ltb, ◌==◌, u8, u16, shl,
}
use packet_wyrm.Config.FlowModel.{
  Flow, encap_ipip, encap_gre, encap_etherip, template_test, template_l3raw, template_l2raw,
}
use packet_wyrm.Preview.Modifiers.{Effective, effective}
use packet_wyrm.Preview.{
  ones_csum, wbe16, window, ◌>>=◌, puts, reject_when, be16, be32, or_default, ipv4_header, put_ipv4,
  ipv6_header,
}

abbrev pub is_template : ℕ → Flow → Bool
is_template t f = f.traffic.frame_template == t

abbrev pub is_tcp : Flow → Bool
is_tcp f = f.udp.l4_proto == 6

abbrev pub is_encap : Flow → Bool
is_encap f = f.encap.present && not (is_template template_l2raw f)

abbrev pub is_outer_v6 : Flow → Bool
is_outer_v6 f = is_encap f && f.encap.outer_ipv6.present

-- `f->traffic.frame_len_fixed_set ? f->traffic.frame_len_fixed : f->traffic.frame_len_min`
abbrev pub asked_len : Flow → ℕ
asked_len f =
    if f.traffic.frame_len_fixed_set then f.traffic.frame_len_fixed else f.traffic.frame_len_min

abbrev pub inner_et : Flow → ℕ
inner_et f = if f.ipv6.present then 0x86DD else 0x0800

-- Ethernet and optional 802.1Q
unfoldable pub ethernet : Flow → Effective → List ℕ
ethernet f eff = eff.dmac ++ (eff.smac ++ (if f.l2.vlan_set then tag else []))
  where
    tci : ℕ
    tci = bit_or (shl (bit_and f.l2.pcp 7) 13) (bit_and eff.vlan 0xFFF)

    tag : List ℕ
    tag = 0x81 ∷ 0x00 ∷ be16 tci

abbrev pub l4_header_len : Flow → ℕ
l4_header_len f = if is_template template_l3raw f then 0 else if is_tcp f then 20 else 8

abbrev pub outer_len : Flow → ℕ
outer_len f = if is_outer_v6 f then 40 else 20

abbrev pub tunnel_len : Flow → ℕ
tunnel_len f =
    if f.encap.kind == encap_gre then 4 else if f.encap.kind == encap_etherip then 2 else 0

abbrev pub inner_eth : Flow → ℕ
inner_eth f = if f.encap.kind == encap_etherip then 14 else 0

-- the bytes before the inner IP header, after `o` bytes of Ethernet
unfoldable pub prefix_len : Flow → ℕ → ℕ
prefix_len f o =
    if is_encap f then o + (2 + (outer_len f + (tunnel_len f + inner_eth f))) else o + 2

abbrev pub inner_ip_len : Flow → ℕ
inner_ip_len f = if f.ipv6.present then 40 else 20

-- what stands before the payload
abbrev pub headers_len : Flow → ℕ → ℕ
headers_len f o = prefix_len f o + inner_ip_len f + l4_header_len f

-- `min_frame`
abbrev pub min_frame : Flow → ℕ → ℕ
min_frame f o = headers_len f o + (if is_template template_test f then 32 else 0)

-- `frame_len`, clamped up
unfoldable pub clamped : Flow → ℕ → ℕ
clamped f o = if ltb (asked_len f) (min_frame f o) then min_frame f o else asked_len f

unfoldable pub outer_proto : Flow → ℕ
outer_proto f =
    if f.encap.kind == encap_ipip
    then if f.ipv6.present then 41 else 4
    else if f.encap.kind == encap_gre
    then 47
    else 97

-- the outer IP header, with its ethertype; `o_pl` bytes follow it
unfoldable pub put_outer : ℕ → Flow → ℕ → List ℕ → Option (List ℕ)
put_outer cap f o_pl buf = elim (is_outer_v6 f) [
  | true ↦
      let x = f.encap.outer_ipv6 in
      puts cap buf (
        0x86
        ∷ 0xDD
        ∷ (ipv6_header x o_pl (outer_proto f) ++ (window x.src 0 16 ++ window x.dst 0 16)))
  | false ↦
      let x = f.encap.outer_ipv4 in
      puts cap buf (0x08 ∷ 0x00 ∷ []) >>= λ more.
      put_ipv4 cap more (ipv4_header x (u16 (20 + o_pl)) (outer_proto f) x.src x.dst)
]

-- the tunnel header
unfoldable pub tunnel : Flow → List ℕ
tunnel f =
    if f.encap.kind == encap_gre
    then 0 ∷ 0 ∷ be16 (inner_et f)
    else if f.encap.kind == encap_etherip
    then 0x30 ∷ 0x00 ∷ (window idm 0 6 ++ (window ism 0 6 ++ be16 (inner_et f)))
    else []
  where
    idm : List ℕ
    idm = if f.encap.inner_mac_set then f.encap.inner_dst_mac else f.l2.dst_mac

    ism : List ℕ
    ism = if f.encap.inner_mac_set then f.encap.inner_src_mac else f.l2.src_mac

-- everything between Ethernet and the inner IP header
unfoldable pub put_prefix : ℕ → Flow → ℕ → List ℕ → Option (List ℕ)
unfolding put_outer tunnel
put_prefix cap f payload buf = elim (is_encap f) [
  | true ↦
      put_outer cap f (tunnel_len f + inner_eth f + inner_ip_len f + l4_header_len f + payload) buf
      >>= λ more. puts cap more (tunnel f)
  | false ↦ puts cap buf (be16 (inner_et f))
]

abbrev pub inner_proto : Flow → ℕ
inner_proto f = if is_template template_l3raw f then 0xFD else if is_tcp f then 6 else 17

-- the inner IP header; `ip_pl` bytes follow it
unfoldable pub put_inner : ℕ → Flow → Effective → ℕ → List ℕ → Option (List ℕ)
put_inner cap f eff ip_pl buf = elim f.ipv6.present [
  | true ↦ puts cap buf (ipv6_header f.ipv6 ip_pl (inner_proto f) ++ (eff.v6src ++ eff.v6dst))
  | false ↦ put_ipv4 cap buf (ipv4_header f.ipv4 (u16 (20 + ip_pl)) (inner_proto f) eff.sip eff.dip)
]

-- the UDP or TCP header, its checksum 0
unfoldable pub l4_header : Flow → Effective → ℕ → ℕ → List ℕ
l4_header f eff seq l4_len =
    be16 eff.sp
    ++ (be16 eff.dp
        ++ (if is_tcp f
            then be32 seq
              ++ 0
                ∷ 0
                ∷ 0
                ∷ 0
                ∷ 0x50
                ∷ or_default f.udp.tcp_flags 0x02
                ∷ 0xFF
                ∷ 0xFF
                ∷ 0
                ∷ 0
                ∷ 0
                ∷ 0
                ∷ []
            else be16 l4_len ++ 0 ∷ 0 ∷ []))

-- the 32 bytes that are stored without a test of the capacity
unfoldable pub test_header : Flow → ℕ → List ℕ
test_header f seq =
    0xA5
    ∷ 0x02
    ∷ 0x7E
    ∷ 0x57
    ∷ 0x00
    ∷ 0x01
    ∷ 0
    ∷ 0
    ∷ (map (λ b. u8 b) (be32 f.id)
        ++ (0
            ∷ 0
            ∷ 0
            ∷ 0
            ∷ (map (λ b. u8 b) (be32 seq) ++ 0 ∷ 0 ∷ 0 ∷ 0 ∷ 0 ∷ 0 ∷ 0 ∷ 0 ∷ 0 ∷ 0 ∷ 0 ∷ 0 ∷ [])))

-- the words of an address, summed: `sum += (uint32_t)b[i] << ((i & 1) ? 0 : 8)`
unfoldable pub word_sum : List ℕ → ℕ
word_sum [] = 0
word_sum (a ∷ []) = a * 256
word_sum (a ∷ b ∷ p) = a * 256 + b + word_sum p

-- `sum` before the L4 bytes
unfoldable pub pseudo_sum : Flow → Effective → ℕ → ℕ
unfolding word_sum
pseudo_sum f eff l4_len =
    (if is_tcp f then 6 else 17)
    + l4_len
    + (if f.ipv6.present
        then word_sum eff.v6src + word_sum eff.v6dst
        else word_sum (be32_bytes eff.sip) + word_sum (be32_bytes eff.dip))
  where
    be32_bytes : ℕ → List ℕ
    be32_bytes v = map (λ b. u8 b) (be32 v)

-- what is returned, `*built`, and the buffer
pub record Preview : Type 0 where
  pub frame_len : ℕ
  pub built : ℕ
  pub buf : List ℕ

-- the L4 header and what follows it
unfoldable pub finish_l4 : ℕ → Flow → Effective → ℕ → ℕ → ℕ → List ℕ → Option Preview
unfolding l4_header test_header pseudo_sum
finish_l4 cap f eff seq frame_len l4_len buf = puts cap buf (l4_header f eff seq l4_len) >>= λ more.
    let l4 = length buf in
    let whole = if is_template template_test f then more ++ test_header f seq else more in
    let c = ones_csum (window whole l4 (frame_len - l4)) (pseudo_sum f eff l4_len) in
    some (record {
      frame_len = frame_len;
      built = length whole;
      buf = wbe16 whole (if is_tcp f then l4 + 16 else l4 + 6) c;
    })

-- the headers from the inner IP header on
unfoldable pub put_layers : ℕ → Flow → Effective → ℕ → ℕ → List ℕ → Option Preview
unfolding put_prefix put_inner finish_l4
put_layers cap f eff seq frame_len buf =
    let payload = frame_len - headers_len f (length buf) in
    let l4_len = l4_header_len f + payload in
    let ip_pl = if is_template template_l3raw f then payload else l4_len in
    put_prefix cap f payload buf >>= λ more. put_inner cap f eff ip_pl more >>= λ inner.
    elim (is_template template_l3raw f) [
      | true ↦ some (record { frame_len = frame_len; built = length inner; buf = inner })
      | false ↦ finish_l4 cap f eff seq frame_len l4_len inner
    ]

-- `pw_flow_build_preview`
unfoldable pub build_preview : Flow → ℕ → ℕ → Option Preview
unfolding ethernet put_layers clamped effective
build_preview f seq cap =
    let eff = effective f seq in
    reject_when (ltb (asked_len f) 14 || (ltb 9100 (asked_len f) || ltb cap (asked_len f))) (
      puts cap [] (ethernet f eff) >>= λ buf. elim (is_template template_l2raw f) [
        | true ↦
            puts cap buf (be16 (if f.l2.ethertype == 0 then inner_et f else f.l2.ethertype))
            >>= λ more. some (record { frame_len = asked_len f; built = length more; buf = more })
        | false ↦
            let frame_len = clamped f (length buf) in
            reject_when (ltb cap frame_len) (put_layers cap f eff seq frame_len buf)
      ])
