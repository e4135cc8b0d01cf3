-- ===== src/Preview/Ipv4.antt =====
-- The IPv4 headers of the preview (sw/libpacketwyrm/src/frame_preview.c).
use packet_wyrm.Base.{
  ℕ, ◌+◌, ◌<◌, ◌≡◌, ◌^◌, refl, ap, sym, ◌∙◌, some, List, ◌++◌, length, map, u8, arith,
  length-append,
}
use packet_wyrm.Config.FlowModel.{FlowIpv4}
use packet_wyrm.Preview.{window, wbe16, puts, ones_csum, ipv4_header, put_ipv4}
use packet_wyrm.Preview.Build.{word_sum}
use packet_wyrm.Preview.Checksum.{ones_csum-wbe16}
use packet_wyrm.Preview.Window.{some_eq, bind-some, puts-append, window-wbe16, window-append}

-- the bytes of a header with the checksum 0
abbrev header_bytes : FlowIpv4 → ℕ → ℕ → ℕ → ℕ → List ℕ
header_bytes x tot proto src dst = map (λ b. u8 b) (ipv4_header x tot proto src dst)

-- Over the twenty bytes of a header the sum of the words fits, and is not 0.
word_sum_fits :
    (x : FlowIpv4) (tot proto src dst : ℕ)
    → (word_sum (header_bytes x tot proto src dst) + 65535 < 2 ^ 32)
      × (0 < word_sum (header_bytes x tot proto src dst))
unfolding word_sum ipv4_header
word_sum_fits x tot proto src dst = (omega arith, omega arith)

-- The bytes of a header, with the checksum in its place, verify.
header_bytes_verified :
    (x : FlowIpv4) (tot proto src dst : ℕ)
    → ones_csum
        (wbe16
          (header_bytes x tot proto src dst)
          10
          (ones_csum (header_bytes x tot proto src dst) 0))
        0
      ≡ 0
unfolding ipv4_header
header_bytes_verified x tot proto src dst =
    let fits = word_sum_fits x tot proto src dst in
    ones_csum-wbe16 5 (header_bytes x tot proto src dst) 0 (omega arith) refl refl
      (omega (arith, fits.0)) (omega (arith, fits.1))

window-header_bytes :
    (x : FlowIpv4) (tot proto src dst : ℕ)
    → window (header_bytes x tot proto src dst) 0 20 ≡ header_bytes x tot proto src dst
unfolding window ipv4_header
window-header_bytes x tot proto src dst = refl

length-header_bytes :
    (x : FlowIpv4) (tot proto src dst : ℕ) → length (header_bytes x tot proto src dst) ≡ 20
unfolding ipv4_header
length-header_bytes x tot proto src dst = refl

-- Behind any bytes, the header and its checksum verify.
verified_behind :
    (buf : List ℕ) (x : FlowIpv4) (tot proto src dst : ℕ) {more : List ℕ}
    → more ≡ buf ++ header_bytes x tot proto src dst
    → ones_csum
        (window
          (wbe16 more (length buf + 10) (ones_csum (window more (length buf) 20) 0))
          (length buf)
          20)
        0
      ≡ 0
verified_behind buf x tot proto src dst {more} e =
    let q = header_bytes x tot proto src dst in
    let seen : window more (length buf) 20 ≡ q =
      ap (λ (l : List ℕ). window l (length buf) 20) e
      ∙ (window-append buf q 20 ∙ window-header_bytes x tot proto src dst) in
    let long : length more ≡ length buf + 20 =
      ap length e
      ∙ (length-append buf q
          ∙ ap (λ (n : ℕ). length buf + n) (length-header_bytes x tot proto src dst)) in
    ap (λ (l : List ℕ). ones_csum l 0) (window-wbe16 more (length buf) 10 _ 20 (omega arith))
    ∙ (ap (λ (l : List ℕ). ones_csum (wbe16 l 10 (ones_csum l 0)) 0) seen
        ∙ header_bytes_verified x tot proto src dst)

-- The sum over the header the preview writes, its checksum included, is 0: for every IPv4 header,
-- wherever in the buffer it stands, when the writes have room.
pub put_ipv4_verified :
    (cap : ℕ) (buf : List ℕ) (x : FlowIpv4) (tot proto src dst : ℕ) (out : List ℕ)
    → put_ipv4 cap buf (ipv4_header x tot proto src dst) ≡ some out
    → ones_csum (window out (length buf) 20) 0 ≡ 0
unfolding put_ipv4
put_ipv4_verified cap buf x tot proto src dst out h =
    let step = bind-some (puts cap buf (ipv4_header x tot proto src dst)) _ h in
    ap (λ (l : List ℕ). ones_csum (window l (length buf) 20) 0) (sym (some_eq step.done))
    ∙ verified_behind buf x tot proto src dst (puts-append cap buf _ step.first)
