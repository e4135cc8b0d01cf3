-- ===== src/Base/Postconditions.antt =====
-- What a computation that may fail ensures of its result, with a rule for each way to build one.
use mathlib.Core.Path.{◌≡◌, refl, subst}
use mathlib.Core.Bool.{Bool, true, false}
use mathlib.Core.Option.{Option, none, some}
use packet_wyrm.Base.Outcome.{Result, ok, err, Error, Status, ◌>>=◌, ◌>>◌, reject_if}

pub data Ensures {A : Type 0} (P : A → Type 0) : Result A → Type 0 where
  fails : (e : Error) → Ensures P (err e)
  returns : (a : A) → P a → Ensures P (ok a)

pub Ensures-bind :
    {A B : Type 0} (P : A → Type 0) {Q : B → Type 0} {first : Result A} {next : A → Result B}
    → Ensures P first
    → ((a : A) → P a → Ensures Q (next a))
    → Ensures Q (first >>= next)
Ensures-bind P (fails e) later = fails e
Ensures-bind P (returns a p) later = later a p

pub Ensures-reject :
    {B : Type 0} {Q : B → Type 0} (bad : Bool) (e : Error) {next : Result B}
    → (bad ≡ false → Ensures Q next)
    → Ensures Q (reject_if bad e >> next)
Ensures-reject true e later = fails e
Ensures-reject false e later = later refl

-- What an optional value is, if it is there.
abbrev pub Meets : {A : Type 0} → (A → Type 0) → Option A → Type 0
Meets P none = Unit
Meets P (some a) = P a

-- The result of a success.
pub ensured : {A : Type 0} (P : A → Type 0) {r : Result A} {a : A} → Ensures P r → r ≡ ok a → P a
ensured P (fails e) done = absurd (cc)
ensured P (returns b p) done = subst P (cc) p

-- A property that follows from the success itself.
pub Ensures-of :
    {A : Type 0} {P : A → Type 0} (r : Result A) → ((a : A) → r ≡ ok a → P a) → Ensures P r
Ensures-of (ok a) holds = returns a (holds a refl)
Ensures-of (err e) holds = fails e

pub Ensures-then :
    {B : Type 0} (P : Type 0) {Q : B → Type 0} {first : Status} {next : Result B}
    → Ensures (λ u. P) first
    → (P → Ensures Q next)
    → Ensures Q (first >> next)
Ensures-then P (fails e) later = fails e
Ensures-then P (returns u p) later = later p
