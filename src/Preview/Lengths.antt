-- ===== src/Preview/Lengths.antt =====
-- How many bytes each layer of the preview writes (sw/libpacketwyrm/src/frame_preview.c).
use packet_wyrm.Base.{
  ℕ, suc, ◌+◌, ◌≡◌, ◌≤◌, ◌<◌, leb, none, subst, refl, ap, sym, ◌∙◌, Bool, true, false, Bool-cases,
  inl, inr, Option, some, List, [], ◌∷◌, ◌++◌, length, map, if◌then◌else◌, ◌==◌, ==→eq, u8, shr,
  arith, length-append, length-set,
}
use packet_wyrm.Config.FlowModel.{Flow, FlowIpv4, encap_gre, encap_etherip}
use packet_wyrm.Preview.Modifiers.{Effective, effective, u48_to_mac}
use packet_wyrm.Preview.{wbe16, window, put, puts, be16, ipv4_header, put_ipv4, ipv6_header}
use packet_wyrm.Preview.Build.{
  is_tcp, is_encap, is_outer_v6, inner_et, ethernet, outer_len, tunnel_len, inner_eth, prefix_len,
  inner_ip_len, put_outer, tunnel, put_prefix, inner_proto, put_inner, l4_header,
}
use packet_wyrm.Preview.Window.{puts-append, bind-some, some_eq}

pub length_bytes : (bs : List ℕ) → length (map (λ b. u8 b) bs) ≡ length bs
length_bytes [] = refl
length_bytes (b ∷ bs) = ap suc (length_bytes bs)

pub length-puts :
    (cap : ℕ) (buf bs : List ℕ) (n : ℕ) {out : List ℕ}
    → length bs ≡ n
    → puts cap buf bs ≡ some out
    → length out ≡ length buf + n
length-puts cap buf bs n e h =
    ap length (puts-append cap buf bs h)
    ∙ (length-append buf (map (λ b. u8 b) bs)
        ∙ ap (λ (k : ℕ). length buf + k) (length_bytes bs ∙ e))

not_full : (cap n : ℕ) → leb cap n ≡ false → n < cap
not_full cap n h = ground arith

-- A row of PUTs that succeeds ends within the capacity.
pub puts_within :
    (cap : ℕ) (buf bs : List ℕ) {out : List ℕ}
    → length buf ≤ cap
    → puts cap buf bs ≡ some out
    → length out ≤ cap
unfolding puts put
puts_within cap buf [] le h = subst (λ (l : List ℕ). length l ≤ cap) (some_eq h) le
puts_within cap buf (b ∷ bs) le h = elim (Bool-cases (leb cap (length buf))) [
  | inl full ↦ let stopped : puts cap buf (b ∷ bs) ≡ none = rw full refl in absurd (cc)
  | inr room ↦
      let next : puts cap buf (b ∷ bs) ≡ puts cap (buf ++ u8 b ∷ []) bs = rw room refl in
      let longer = length-append buf (u8 b ∷ []) in
      let less = not_full cap (length buf) room in
      puts_within cap (buf ++ u8 b ∷ []) bs (omega (arith, longer, less)) (sym next ∙ h)
]

pub length-wbe16 : (buf : List ℕ) (at_ v : ℕ) → length (wbe16 buf at_ v) ≡ length buf
unfolding wbe16
length-wbe16 buf at_ v = length-set _ (at_ + 1) (u8 v) ∙ length-set buf at_ (u8 (shr v 8))

-- What holds of the results of both branches holds of the test's.
pub branches :
    {A : Type 0} (b : Bool) (P : Bool → A → Type 0) (left right : Option A) {out : A}
    → ((a : A) → left ≡ some a → P true a)
    → ((a : A) → right ≡ some a → P false a)
    → (elim b [ true ↦ left | false ↦ right ]) ≡ some out
    → P b out
branches true P left right on_left on_right h = on_left _ h
branches false P left right on_left on_right h = on_right _ h

length-ipv4_header :
    (x : FlowIpv4) (tot proto src dst : ℕ) → length (ipv4_header x tot proto src dst) ≡ 20
unfolding ipv4_header
length-ipv4_header x tot proto src dst = refl

length-put_ipv4 :
    (cap : ℕ) (buf header : List ℕ) {out : List ℕ}
    → length header ≡ 20
    → put_ipv4 cap buf header ≡ some out
    → length out ≡ length buf + 20
unfolding put_ipv4
length-put_ipv4 cap buf header e h =
    let step = bind-some (puts cap buf header) _ h in
    ap length (sym (some_eq step.done))
    ∙ (length-wbe16 step.value _ _ ∙ length-puts cap buf header 20 e step.first)

length-put_outer :
    (cap : ℕ) (f : Flow) (o_pl : ℕ) (buf : List ℕ) {out : List ℕ}
    → put_outer cap f o_pl buf ≡ some out
    → length out ≡ length buf + (2 + outer_len f)
unfolding put_outer ipv6_header ipv4_header window
length-put_outer cap f o_pl buf h =
    branches (is_outer_v6 f) (λ b out. length out ≡ length buf + (2 + (if b then 40 else 20))) _ _
      (λ out e. length-puts cap buf _ 42 refl e)
      (λ out e.
        let step = bind-some (puts cap buf (0x08 ∷ 0x00 ∷ [])) _ e in
        let two = length-puts cap buf (0x08 ∷ 0x00 ∷ []) 2 refl step.first in
        let twenty = length-put_ipv4 cap step.value _ refl step.done in omega arith)
      h

length-tunnel : (f : Flow) → length (tunnel f) ≡ tunnel_len f + inner_eth f
unfolding tunnel window
length-tunnel f = elim (Bool-cases (f.encap.kind == encap_gre)) [
  | inl gre ↦ let k : f.encap.kind ≡ encap_gre = ==→eq _ _ gre in rw k refl
  | inr other ↦ elim (Bool-cases (f.encap.kind == encap_etherip)) [
    | inl etherip ↦ rw other (rw etherip refl)
    | inr ipip ↦ rw other (rw ipip refl)
  ]
]

pub length-l4_header :
    (f : Flow) (eff : Effective) (seq l4_len : ℕ)
    → length (l4_header f eff seq l4_len) ≡ (if is_tcp f then 20 else 8)
unfolding l4_header
length-l4_header f eff seq l4_len = elim (Bool-cases (is_tcp f)) [
  | inl tcp ↦ rw tcp refl
  | inr udp ↦ rw udp refl
]

pub length-ethernet :
    (f : Flow) (seq : ℕ)
    → length (ethernet f (effective f seq)) ≡ (if f.l2.vlan_set then 16 else 12)
unfolding ethernet effective u48_to_mac
length-ethernet f seq = elim (Bool-cases f.l2.vlan_set) [
  | inl tagged ↦ rw tagged refl
  | inr plain ↦ rw plain refl
]

pub length-put_prefix :
    (cap : ℕ) (f : Flow) (payload : ℕ) (buf : List ℕ) {out : List ℕ}
    → put_prefix cap f payload buf ≡ some out
    → length out ≡ prefix_len f (length buf)
unfolding put_prefix prefix_len
length-put_prefix cap f payload buf h =
    branches (is_encap f)
      (λ b out. length out ≡ (
        if b
        then length buf + (2 + (outer_len f + (tunnel_len f + inner_eth f)))
        else length buf + 2))
      _ _
      (λ out e.
        let step = bind-some (put_outer cap f _ buf) _ e in
        let outer = length-put_outer cap f _ buf step.first in
        let inside = length-puts cap step.value (tunnel f) _ (length-tunnel f) step.done in
        inside ∙ omega arith)
      (λ out e. length-puts cap buf (be16 (inner_et f)) 2 refl e) h

pub length-put_inner :
    (cap : ℕ) (f : Flow) (eff : Effective) (ip_pl : ℕ) (buf : List ℕ) {out : List ℕ}
    → length eff.v6src ≡ 16
    → length eff.v6dst ≡ 16
    → put_inner cap f eff ip_pl buf ≡ some out
    → length out ≡ length buf + inner_ip_len f
unfolding put_inner ipv6_header ipv4_header
length-put_inner cap f eff ip_pl buf src dst h =
    branches f.ipv6.present (λ b out. length out ≡ length buf + (if b then 40 else 20)) _ _
      (λ out e.
        let both = length-append eff.v6src eff.v6dst in
        let header = ipv6_header f.ipv6 ip_pl (inner_proto f) in
        let all = length-append header (eff.v6src ++ eff.v6dst) in
        length-puts cap buf (header ++ (eff.v6src ++ eff.v6dst)) 40 (omega arith) e)
      (λ out e. length-put_ipv4 cap buf _ refl e) h
