-- ===== src/Preview/L4.antt =====
-- The UDP and TCP checksums of the preview (sw/libpacketwyrm/src/frame_preview.c).
use mathlib.Core.List.{append_assoc, append-nil}
use packet_wyrm.Base.{
  sym, ℕ, zero, suc, ◌+◌, ◌*◌, ◌-◌, ◌^◌, ◌<◌, ◌≤◌, ◌≡◌, refl, ap, subst, ◌∙◌, Bool-cases, inl, inr,
  some, List, [], ◌∷◌, ◌++◌, All, length, map, get_or, if◌then◌else◌, u8, shr, arith, length-append,
}
use packet_wyrm.Config.FlowModel.{Flow, template_test}
use packet_wyrm.Preview.Modifiers.{Effective}
use packet_wyrm.Preview.{ones_csum, wbe16, window, puts}
use packet_wyrm.Preview.Build.{
  is_template, is_tcp, word_sum, l4_header, test_header, pseudo_sum, Preview, finish_l4,
}
use packet_wyrm.Preview.Checksum.{double, ones_csum-wbe16}
use packet_wyrm.Preview.Window.{puts-append, bind-some, some_eq, window-append, window-wbe16}

abbrev pub Byte : ℕ → Type 0
Byte b = b < 256

pub word_sum-le : (p : List ℕ) → All Byte p → word_sum p ≤ 65536 * length p
unfolding word_sum
word_sum-le [] bytes = omega arith
word_sum-le (a ∷ []) bytes = let small = bytes.0 in omega arith
word_sum-le (a ∷ b ∷ p) bytes =
    let high = bytes.0 in let low = bytes.1.0 in omega (arith, word_sum-le p bytes.1.1)

get_or-Byte : (q : List ℕ) (i : ℕ) → All Byte q → Byte (get_or q i 0)
get_or-Byte [] i bytes = omega arith
get_or-Byte (b ∷ q) zero bytes = bytes.0
get_or-Byte (b ∷ q) (suc i) bytes = get_or-Byte q i bytes.1

window-Byte : (q : List ℕ) (at_ n : ℕ) → All Byte q → All Byte (window q at_ n)
unfolding window
window-Byte q at_ zero bytes = tt
window-Byte q at_ (suc n) bytes = (get_or-Byte q at_ bytes, window-Byte q (suc at_) n bytes)

length-window : (q : List ℕ) (at_ n : ℕ) → length (window q at_ n) ≡ n
unfolding window
length-window q at_ zero = refl
length-window q at_ (suc n) = ap suc (length-window q (suc at_) n)

get_or-window :
    (q : List ℕ) (at_ n i : ℕ) → i < n → get_or (window q at_ n) i 0 ≡ get_or q (at_ + i) 0
unfolding window
get_or-window q at_ zero i h = absurd (omega arith)
get_or-window q at_ (suc n) zero h = ap (λ (k : ℕ). get_or q k 0) (omega arith)
get_or-window q at_ (suc n) (suc i) h =
    get_or-window q (suc at_) n i (omega arith) ∙ ap (λ (k : ℕ). get_or q k 0) (omega arith)

-- Behind any bytes, a checksum over `n` bytes verifies.
behind :
    (k : ℕ) (buf q : List ℕ) (n s : ℕ)
    → All Byte q
    → suc (double k) < length q
    → length q ≤ n
    → get_or q (double k) 0 ≡ 0
    → get_or q (suc (double k)) 0 ≡ 0
    → s + 65536 * n + 65535 < 2 ^ 32
    → 0 < s
    → ones_csum
        (window
          (wbe16
            (buf ++ q)
            (length buf + double k)
            (ones_csum (window (buf ++ q) (length buf) n) s))
          (length buf)
          n)
        s
      ≡ 0
behind k buf q n s bytes there fits high low room pos =
    let long = length-append buf q in
    let seen = window q 0 n in
    let size = length-window q 0 n in
    let least = word_sum-le seen (window-Byte q 0 n bytes) in
    ap (λ (l : List ℕ). ones_csum l s)
      (window-wbe16 (buf ++ q) (length buf) (double k) _ n (omega arith))
    ∙ (ap (λ (l : List ℕ). ones_csum (wbe16 l (double k) (ones_csum l s)) s) (window-append buf q n)
        ∙ ones_csum-wbe16 k seen s (omega arith)
            (get_or-window q 0 n (double k) (omega arith)
              ∙ ap (λ (i : ℕ). get_or q i 0) (omega arith)
              ∙ high)
            (get_or-window q 0 n (suc (double k)) (omega arith)
              ∙ ap (λ (i : ℕ). get_or q i 0) (omega arith)
              ∙ low)
            (omega arith) (omega arith))

pub bytes_map : (bs : List ℕ) → All Byte (map (λ b. u8 b) bs)
bytes_map [] = tt
bytes_map (b ∷ bs) = (omega arith, bytes_map bs)

pub All-append : (xs ys : List ℕ) → All Byte xs → All Byte ys → All Byte (xs ++ ys)
All-append [] ys hs ks = ks
All-append (x ∷ xs) ys hs ks = (hs.0, All-append xs ys hs.1 ks)

-- the header of L4 and the test header, as bytes
abbrev pub l4_bytes : Flow → Effective → ℕ → ℕ → List ℕ
l4_bytes f eff seq l4_len =
    map (λ b. u8 b) (l4_header f eff seq l4_len)
    ++ (if is_template template_test f then test_header f seq else [])

test_header-Byte : (f : Flow) (seq : ℕ) → All Byte (test_header f seq)
unfolding test_header
test_header-Byte f seq = bytes_map (
    0xA5
    ∷ 0x02
    ∷ 0x7E
    ∷ 0x57
    ∷ 0x00
    ∷ 0x01
    ∷ 0
    ∷ 0
    ∷ shr f.id 24
    ∷ shr f.id 16
    ∷ shr f.id 8
    ∷ f.id
    ∷ 0
    ∷ 0
    ∷ 0
    ∷ 0
    ∷ shr seq 24
    ∷ shr seq 16
    ∷ shr seq 8
    ∷ seq
    ∷ 0
    ∷ 0
    ∷ 0
    ∷ 0
    ∷ 0
    ∷ 0
    ∷ 0
    ∷ 0
    ∷ 0
    ∷ 0
    ∷ 0
    ∷ 0
    ∷ [])

-- where the checksum stands, in words
abbrev csum_word : Flow → ℕ
csum_word f = if is_tcp f then 8 else 3

l4_bytes_zero :
    (f : Flow) (eff : Effective) (seq l4_len : ℕ)
    → (get_or (l4_bytes f eff seq l4_len) (double (csum_word f)) 0 ≡ 0)
      × ((get_or (l4_bytes f eff seq l4_len) (suc (double (csum_word f))) 0 ≡ 0)
          × (suc (double (csum_word f)) < length (map (λ b. u8 b) (l4_header f eff seq l4_len))))
unfolding l4_header
l4_bytes_zero f eff seq l4_len = elim (Bool-cases (is_tcp f)) [
  | inl tcp ↦ rw tcp (refl, (refl, omega arith))
  | inr udp ↦ rw udp (refl, (refl, omega arith))
]

l4_bytes-Byte : (f : Flow) (eff : Effective) (seq l4_len : ℕ) → All Byte (l4_bytes f eff seq l4_len)
l4_bytes-Byte f eff seq l4_len =
    All-append (map (λ b. u8 b) (l4_header f eff seq l4_len)) _
      (bytes_map (l4_header f eff seq l4_len)) tail
  where
    tail : All Byte (if is_template template_test f then test_header f seq else [])
    tail = elim (Bool-cases (is_template template_test f)) [
      | inl test ↦ rw test (test_header-Byte f seq)
      | inr raw ↦ rw raw tt
    ]

-- the bytes of the frame before the checksum is stored
whole_bytes :
    (f : Flow) (eff : Effective) (seq l4_len : ℕ) (buf more : List ℕ)
    → more ≡ buf ++ map (λ b. u8 b) (l4_header f eff seq l4_len)
    → (if is_template template_test f then more ++ test_header f seq else more)
      ≡ buf ++ l4_bytes f eff seq l4_len
whole_bytes f eff seq l4_len buf more e =
    let h = map (λ b. u8 b) (l4_header f eff seq l4_len) in
    elim (Bool-cases (is_template template_test f)) [
      | inl test ↦
          rw test
            (ap (λ (l : List ℕ). l ++ test_header f seq) e ∙ append_assoc buf h (test_header f seq))
      | inr raw ↦ rw raw (e ∙ (sym (append-nil (buf ++ h)) ∙ append_assoc buf h []))
    ]

csum_place :
    (f : Flow) (l4 : ℕ) → (if is_tcp f then l4 + 16 else l4 + 6) ≡ l4 + double (csum_word f)
csum_place f l4 = elim (Bool-cases (is_tcp f)) [ inl tcp ↦ rw tcp refl | inr udp ↦ rw udp refl ]

pub finish_l4_verified :
    (cap : ℕ) (f : Flow) (eff : Effective) (seq frame_len l4_len : ℕ) (buf : List ℕ) {r : Preview}
    → length (l4_bytes f eff seq l4_len) ≤ frame_len - length buf
    → pseudo_sum f eff l4_len + 65536 * (frame_len - length buf) + 65535 < 2 ^ 32
    → 0 < pseudo_sum f eff l4_len
    → finish_l4 cap f eff seq frame_len l4_len buf ≡ some r
    → ones_csum (window r.buf (length buf) (frame_len - length buf)) (pseudo_sum f eff l4_len) ≡ 0
unfolding finish_l4
finish_l4_verified cap f eff seq frame_len l4_len buf fits room pos h =
    let step = bind-some (puts cap buf (l4_header f eff seq l4_len)) _ h in
    let n = frame_len - length buf in
    let s = pseudo_sum f eff l4_len in
    let q = l4_bytes f eff seq l4_len in
    let zeros = l4_bytes_zero f eff seq l4_len in
    let written = whole_bytes f eff seq l4_len buf step.value (puts-append cap buf _ step.first) in
    let long =
      length-append (map (λ b. u8 b) (l4_header f eff seq l4_len))
        (if is_template template_test f then test_header f seq else []) in
    subst (λ (p : Preview). ones_csum (window p.buf (length buf) n) s ≡ 0) (some_eq step.done)
      (ap
          (λ (l : List ℕ).
            ones_csum
              (window
                (wbe16 l (if is_tcp f then length buf + 16 else length buf + 6)
                  (ones_csum (window l (length buf) n) s))
                (length buf) n)
              s)
          written
        ∙ (ap
              (λ (at_ : ℕ).
                ones_csum
                  (window (wbe16 (buf ++ q) at_ (ones_csum (window (buf ++ q) (length buf) n) s))
                    (length buf) n)
                  s)
              (csum_place f (length buf))
            ∙ behind (csum_word f) buf q n s (l4_bytes-Byte f eff seq l4_len)
                (omega (arith, zeros.1.1)) fits zeros.0 zeros.1.0 room pos))
