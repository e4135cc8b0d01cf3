-- ===== src/Base/Tests.antt =====
-- Boolean tests on the native numbers and on lists of them, the conditional, and case splits.
use Prim.Native.Nat.{ℕ, ◌≤◌, ◌<◌, compare, Ordering}
use mathlib.Core.Path.{◌≡◌, refl}
use mathlib.Core.Logic.{◌↔◌, ◌⊎◌, inl, inr}
use mathlib.Core.Bool.{Bool, true, false, ◌&&◌}
use mathlib.Core.Option.{Option, none, some}
use mathlib.Core.List.{List, [], ◌∷◌}
use native.Mathlib.Omega.{arith}

abbrev pub ltb : ℕ → ℕ → Bool
ltb a b = elim (compare a b) [ Ordering.lt ↦ true | _ ↦ false ]

abbrev pub leb : ℕ → ℕ → Bool
leb a b = elim (compare a b) [ Ordering.gt ↦ false | _ ↦ true ]

infix 50 ◌==◌
abbrev pub ◌==◌ : ℕ → ℕ → Bool
a == b = elim (compare a b) [ Ordering.eq ↦ true | _ ↦ false ]

infix 1 if◌then◌else◌
abbrev pub if◌then◌else◌ {ℓ} : {A : Type ℓ} → Bool → A → A → A
if true then x else y = x
if false then x else y = y

-- What holds of both branches holds whatever the test says.
pub if-both {ℓ κ} :
    {A : Type ℓ} (P : A → Type κ) (b : Bool) (x y : A) → P x → P y → P (if b then x else y)
if-both P true x y p q = p
if-both P false x y p q = q

-- `memcmp(a, b, n) == 0` and `strcmp(a, b) == 0`, on arrays of words or characters.
abbrev pub words_eq : List ℕ → List ℕ → Bool
words_eq [] [] = true
words_eq [] (y ∷ ys) = false
words_eq (x ∷ xs) [] = false
words_eq (x ∷ xs) (y ∷ ys) = (x == y) && words_eq xs ys

pub words_eq_sound : (xs ys : List ℕ) → words_eq xs ys ≡ true → xs ≡ ys
words_eq_sound [] [] h = refl
words_eq_sound [] (y ∷ ys) h = cc
words_eq_sound (x ∷ xs) [] h = cc
words_eq_sound (x ∷ xs) (y ∷ ys) h = ground (arith, words_eq_sound xs ys)

pub words_eq_refl : (xs : List ℕ) → words_eq xs xs ≡ true
words_eq_refl [] = refl
words_eq_refl (x ∷ xs) = ground (arith, words_eq_refl xs)

pub ==→eq : (a b : ℕ) → (a == b) ≡ true → a ≡ b
==→eq a b h = ground arith

pub ==_iff : (a b : ℕ) → ((a == b) ≡ true) ↔ (a ≡ b)
==_iff a b = ground arith

pub ==_refl : (a : ℕ) → (a == a) ≡ true
==_refl a = ground arith

pub ltb→lt : (a b : ℕ) → ltb a b ≡ true → a < b
ltb→lt a b h = ground arith

pub leb→le : (a b : ℕ) → leb a b ≡ true → a ≤ b
leb→le a b h = ground arith

pub Bool-cases : (b : Bool) → (b ≡ true) ⊎ (b ≡ false)
Bool-cases true = inl refl
Bool-cases false = inr refl

pub Option-cases {ℓ} : {A : Type ℓ} (o : Option A) → (o ≡ none) ⊎ ((a : A) × (o ≡ some a))
Option-cases none = inl refl
Option-cases (some a) = inr (a, refl)
