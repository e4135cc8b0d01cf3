-- ===== src/Preview.antt =====
-- The frame preview: sw/libpacketwyrm/src/frame_preview.c, `pw_flow_build_preview`. The buffer is
-- the list of the bytes written so far; `memset` makes what is behind them zero. -1 is `none`.
pub mod Modifiers
pub mod Build
pub mod Checksum
pub mod Lengths
pub mod Verified
pub mod L4
pub mod Bounds
pub mod Ipv4
pub mod Window
use packet_wyrm.Base.{
  ℕ, zero, suc, ◌+◌, ◌-◌, ◌*◌, ◌%◌, ◌/◌, ◌^◌, bit_and, bit_or, Bool, true, false, not, ◌&&◌, ◌||◌,
  Option, none, some, List, [], ◌∷◌, ◌++◌, length, get_or, set, if◌then◌else◌, ltb, leb, ◌==◌, u8,
  u16, u32, shl, shr, not16,
}
use packet_wyrm.Config.FlowModel.{
  Flow, FlowIpv4, FlowIpv6, FlowEncap, encap_ipip, encap_gre, encap_etherip, template_test,
  template_l3raw, template_l2raw,
}
use Modifiers.{Effective, effective}

-- `while (sum >> 16) …`: two rounds are enough for 32 bits
unfoldable pub fold_carries : ℕ → ℕ → ℕ
fold_carries zero sum = sum
fold_carries (suc rounds) sum =
    let more = fold_carries rounds (sum % 2 ^ 16 + shr sum 16) in
    if shr sum 16 == 0 then sum else more

-- `ones_csum`
unfoldable pub ones_csum : List ℕ → ℕ → ℕ
ones_csum [] sum = not16 (u16 (fold_carries 2 sum))
ones_csum (a ∷ []) sum = not16 (u16 (fold_carries 2 (u32 (sum + a * 256))))
ones_csum (a ∷ b ∷ p) sum = ones_csum p (u32 (sum + (a * 256 + b)))

-- `wbe16` at a place of the buffer
unfoldable pub wbe16 : List ℕ → ℕ → ℕ → List ℕ
wbe16 buf at_ v = set (set buf at_ (u8 (shr v 8))) (at_ + 1) (u8 v)

-- `n` bytes of the buffer from a place on, with the zeros behind what is written
unfoldable pub window : List ℕ → ℕ → ℕ → List ℕ
window buf at_ zero = []
window buf at_ (suc n) = get_or buf at_ 0 ∷ window buf (suc at_) n

-- `PUT`
unfoldable pub put : ℕ → List ℕ → ℕ → Option (List ℕ)
put cap buf b = if leb cap (length buf) then none else some (buf ++ u8 b ∷ [])

infixl 5 ◌>>=◌
abbrev pub ◌>>=◌ : {A B : Type 0} → Option A → (A → Option B) → Option B
none >>= next = none
some a >>= next = next a

-- a row of PUTs
unfoldable pub puts : ℕ → List ℕ → List ℕ → Option (List ℕ)
unfolding put
puts cap buf [] = some buf
puts cap buf (b ∷ bs) = put cap buf b >>= λ more. puts cap more bs

unfoldable pub reject_when : {A : Type 0} → Bool → Option A → Option A
reject_when true next = none
reject_when false next = next

-- 16 bits, most significant first
abbrev pub be16 : ℕ → List ℕ
be16 v = shr v 8 ∷ bit_and v 0xFF ∷ []

abbrev pub be32 : ℕ → List ℕ
be32 v = shr v 24 ∷ shr v 16 ∷ shr v 8 ∷ v ∷ []

-- `x ? x : d`
abbrev pub or_default : ℕ → ℕ → ℕ
or_default x d = if x == 0 then d else x

-- an IPv4 header with its checksum 0
unfoldable pub ipv4_header : FlowIpv4 → ℕ → ℕ → ℕ → ℕ → List ℕ
ipv4_header ip tot proto src dst =
    0x45
    ∷ shl ip.dscp 2
    ∷ shr tot 8
    ∷ bit_and tot 0xFF
    ∷ 0
    ∷ 0
    ∷ 0x40
    ∷ 0
    ∷ or_default ip.ttl 64
    ∷ proto
    ∷ 0
    ∷ 0
    ∷ (be32 src ++ be32 dst)

-- PUTs of the header, and `wbe16(&buf[h + 10], ones_csum(&buf[h], 20, 0))`
unfoldable pub put_ipv4 : ℕ → List ℕ → List ℕ → Option (List ℕ)
put_ipv4 cap buf header = puts cap buf header >>= λ more.
    some (wbe16 more (length buf + 10) (ones_csum (window more (length buf) 20) 0))

-- an IPv6 header; the two addresses follow
unfoldable pub ipv6_header : FlowIpv6 → ℕ → ℕ → List ℕ
ipv6_header ip len proto =
    bit_or 0x60 (shr ip.dscp 2)
    ∷ shl (bit_and ip.dscp 3) 6
    ∷ 0
    ∷ 0
    ∷ (be16 len ++ proto ∷ or_default ip.hop_limit 64 ∷ [])
