-- ===== src/Base/Outcome.antt =====
-- `pw_status` (sw/libpacketwyrm/include/packetwyrm/types.h): `ok` is PW_OK, `err` any other
-- value. A function that also hands a value back returns it under `ok`.
use mathlib.Core.Path.{◌≡◌, refl}
use mathlib.Core.Bool.{Bool, true, false}

pub data Error : Type 0 where
  inval parse dup_card_id dup_global_port dup_logical_if dup_flow_id : Error
  unknown_card unknown_global_port unknown_logical_if cross_card_latency : Error
  missing_field out_of_range no_card no_resources backend io overflow : Error
  degraded not_implemented : Error

-- a status, with the value that goes with PW_OK
pub data Result {ℓ} (S : Type ℓ) : Type ℓ where
  ok : S → Result S
  err : Error → Result S

abbrev pub Status : Type 0
Status = Result (Unit {0})

infixl 5 ◌>>=◌ ◌>>◌
-- `if (status != PW_OK) return status;`, and what comes next
abbrev pub ◌>>=◌ {ℓ κ} : {S : Type ℓ} {T : Type κ} → Result S → (S → Result T) → Result T
err code >>= next = err code
ok value >>= next = next value

abbrev pub ◌>>◌ {ℓ} : {T : Type ℓ} → Status → Result T → Result T
err code >> next = err code
ok done >> next = next

-- `if (bad) return e;`
abbrev pub reject_if : Bool → Error → Status
reject_if true e = err e
reject_if false e = ok tt

-- What a chain that ends well has come through.
pub >>=-eq-ok {ℓ κ} :
    {S : Type ℓ} {T : Type κ} (first : Result S) (next : S → Result T) {result : T}
    → (first >>= next) ≡ ok result
    → (value : S) × (first ≡ ok value) × (next value ≡ ok result)
>>=-eq-ok (err code) next whole = cc
>>=-eq-ok (ok value) next whole = (value, refl, whole)

pub ok-injective {ℓ} : {S : Type ℓ} {v w : S} → ok v ≡ ok w → v ≡ w
ok-injective same = cc
