-- ===== src/Programming/Registers.antt =====
-- A backend whose `write32` stores a word: what a run of writes leaves in the registers.
use packet_wyrm.Base.{
  ℕ, zero, suc, ◌+◌, ◌≡◌, ◌≢◌, ◌≤◌, ◌<◌, refl, ap, ◌∙◌, List, [], ◌∷◌, ◌++◌, All, map, range_from,
  ◌==◌, if◌then◌else◌, arith, ok, err, Status,
}
use native.Mathlib.Decide.{ℕ_discrete}
use packet_wyrm.Programming.{Write, chk, chk_writes, worse}

abbrev pub Registers : Type 0
Registers = ℕ → ℕ

abbrev pub poke : ℕ → ℕ → Registers → Registers
poke off v r = λ a. if a == off then v else r a

-- `write32` of such a backend
abbrev pub store : ℕ → ℕ → Registers → Status × Registers
store off v r = (ok tt, poke off v r)

-- the registers after the writes
abbrev pub stored : List Write → Registers → Registers
stored [] r = r
stored ((off, v) ∷ ws) r = stored ws (poke off v r)

pub stored-append :
    (xs ys : List Write) (r : Registers) → stored (xs ++ ys) r ≡ stored ys (stored xs r)
stored-append [] ys r = refl
stored-append ((off, v) ∷ xs) ys r = stored-append xs ys (poke off v r)

pub chk_writes-store :
    (ws : List Write) (s : Status) (r : Registers) → chk_writes store ws (s, r) ≡ (s, stored ws r)
unfolding chk_writes chk worse
chk_writes-store [] s r = refl
chk_writes-store ((off, v) ∷ ws) (ok tt) r = chk_writes-store ws (ok tt) (poke off v r)
chk_writes-store ((off, v) ∷ ws) (err e) r = chk_writes-store ws (err e) (poke off v r)

-- The writes leave the address alone.
abbrev pub Avoids : ℕ → List Write → Type 0
Avoids a = All (λ (w : Write). a ≢ w.0)

pub stored-Avoids : (a : ℕ) (ws : List Write) (r : Registers) → Avoids a ws → stored ws r a ≡ r a
stored-Avoids a [] r h = refl
stored-Avoids a ((off, v) ∷ ws) r h = stored-Avoids a ws (poke off v r) h.1 ∙ ground (arith, h.0)

pub Avoids-append : (a : ℕ) (xs ys : List Write) → Avoids a xs → Avoids a ys → Avoids a (xs ++ ys)
Avoids-append a [] ys p q = q
Avoids-append a (w ∷ xs) ys p q = (p.0, Avoids-append a xs ys p.1 q)

-- `for (i = from; i < from + n; i++) write32(at(i), 0)`
abbrev pub clears : (ℕ → ℕ) → ℕ → ℕ → List Write
clears at from n = map (λ i. (at i, 0)) (range_from from n)

module _ (at : ℕ → ℕ) where
  pub clears-avoid :
      (a from n : ℕ) → ((i : ℕ) → i < from + n → a ≢ at i) → Avoids a (clears at from n)
  clears-avoid a from zero h = tt
  clears-avoid a from (suc n) h =
      (h from (omega arith), clears-avoid a (from + 1) n (λ i lt. h i (omega arith)))

  clears-keep_zero : (from n a : ℕ) (r : Registers) → r a ≡ 0 → stored (clears at from n) r a ≡ 0
  clears-keep_zero from zero a r h = h
  clears-keep_zero from (suc n) a r h = clears-keep_zero (from + 1) n a _ (ground arith)

  pub clears-zero :
      (from n j : ℕ) (r : Registers)
      → from ≤ j
      → j < from + n
      → stored (clears at from n) r (at j) ≡ 0
  clears-zero from zero j r lo hi = absurd (omega arith)
  clears-zero from (suc n) j r lo hi = elim (ℕ_discrete j from) [
    | no ne ↦ clears-zero (from + 1) n j _ (omega arith) (omega arith)
    | yes e ↦ clears-keep_zero (from + 1) n (at j) _ (ground (arith, ap at e))
  ]
