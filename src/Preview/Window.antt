-- ===== src/Preview/Window.antt =====
-- What a window of the buffer sees of the bytes that are put and stored
-- (sw/libpacketwyrm/src/frame_preview.c, `PUT` and `wbe16`).
use mathlib.Core.List.{append_assoc, append-nil}
use packet_wyrm.Base.{
  ℕ, zero, suc, ◌+◌, ◌<◌, ◌≡◌, refl, ap, sym, ◌∙◌, Bool-cases, inl, inr, Option, none, some, List,
  [], ◌∷◌, ◌++◌, length, map, get_or, set, leb, u8, shr, arith, get_or-set_self, get_or-set_ne,
  length-set,
}
use packet_wyrm.Preview.{window, wbe16, put, puts, ◌>>=◌}

pub some_eq : {A : Type 0} {a b : A} → some a ≡ some b → a ≡ b
some_eq e = cc

-- What a chain that gives a result did: its first step and the rest of it.
pub record Bound {A B : Type 0} (m : Option A) (next : A → Option B) (b : B) : Type 0 where
  pub value : A
  pub first : m ≡ some value
  pub done : next value ≡ some b

pub bind-some :
    {A B : Type 0} (m : Option A) (next : A → Option B) {b : B}
    → (m >>= next) ≡ some b
    → Bound m next b
bind-some none next h = absurd (cc)
bind-some (some a) next h = record { value = a; first = refl; done = h }

-- A row of PUTs that has room writes its bytes.
pub puts-append :
    (cap : ℕ) (buf bs : List ℕ) {out : List ℕ}
    → puts cap buf bs ≡ some out
    → out ≡ buf ++ map (λ b. u8 b) bs
unfolding puts put
puts-append cap buf [] h = sym (some_eq h) ∙ sym (append-nil buf)
puts-append cap buf (b ∷ bs) h = elim (Bool-cases (leb cap (length buf))) [
  | inl full ↦ let stopped : puts cap buf (b ∷ bs) ≡ none = rw full refl in absurd (cc)
  | inr room ↦
      let next : puts cap buf (b ∷ bs) ≡ puts cap (buf ++ u8 b ∷ []) bs = rw room refl in
      puts-append cap (buf ++ u8 b ∷ []) bs (sym next ∙ h)
      ∙ append_assoc buf (u8 b ∷ []) (map (λ c. u8 c) bs)
]

cons_eq : {a b : ℕ} {xs ys : List ℕ} → a ≡ b → xs ≡ ys → a ∷ xs ≡ b ∷ ys
cons_eq e f = cc

-- What is stored before a window is not seen in it.
window-set_before :
    (buf : List ℕ) (i v at_ n : ℕ) → i < at_ → window (set buf i v) at_ n ≡ window buf at_ n
unfolding window
window-set_before buf i v at_ zero h = refl
window-set_before buf i v at_ (suc n) h =
    cons_eq (get_or-set_ne buf i at_ v 0 (λ e. absurd (omega arith)))
      (window-set_before buf i v (suc at_) n (omega arith))

-- What is stored in a window is stored in what is seen of it.
pub window-set :
    (buf : List ℕ) (at_ i v n : ℕ)
    → at_ + i < length buf
    → window (set buf (at_ + i) v) at_ n ≡ set (window buf at_ n) i v
unfolding window
window-set buf at_ i v zero h = refl
window-set buf at_ zero v (suc n) h =
    let here : at_ + 0 ≡ at_ = omega arith in
    ap (λ (p : ℕ). window (set buf p v) at_ (suc n)) here
    ∙ cons_eq (get_or-set_self buf at_ v 0 (omega arith))
        (window-set_before buf at_ v (suc at_) n (omega arith))
window-set buf at_ (suc i) v (suc n) h =
    let next : at_ + suc i ≡ suc at_ + i = omega arith in
    cons_eq (get_or-set_ne buf (at_ + suc i) at_ v 0 (λ e. absurd (omega arith))) (
      ap (λ (p : ℕ). window (set buf p v) (suc at_) n) next
      ∙ window-set buf (suc at_) i v n (omega arith))

pub window-wbe16 :
    (buf : List ℕ) (at_ i v n : ℕ)
    → at_ + i + 1 < length buf
    → window (wbe16 buf (at_ + i) v) at_ n ≡ wbe16 (window buf at_ n) i v
unfolding wbe16
window-wbe16 buf at_ i v n h =
    let next : at_ + i + 1 ≡ at_ + (i + 1) = omega arith in
    rw next (
      window-set (set buf (at_ + i) (u8 (shr v 8))) at_ (i + 1) (u8 v) n
        (rw (length-set buf (at_ + i) (u8 (shr v 8))) (omega arith))
      ∙ ap (λ (l : List ℕ). set l (i + 1) (u8 v))
          (window-set buf at_ i (u8 (shr v 8)) n (omega arith)))

window_skip : (x : ℕ) (buf : List ℕ) (at_ n : ℕ) → window (x ∷ buf) (suc at_) n ≡ window buf at_ n
unfolding window
window_skip x buf at_ zero = refl
window_skip x buf at_ (suc n) =
    ap (λ (l : List ℕ). get_or buf at_ 0 ∷ l) (window_skip x buf (suc at_) n)

-- A window at the end of the first bytes sees the next ones.
pub window-append : (buf q : List ℕ) (n : ℕ) → window (buf ++ q) (length buf) n ≡ window q 0 n
window-append [] q n = refl
window-append (x ∷ buf) q n = window_skip x (buf ++ q) (length buf) n ∙ window-append buf q n
