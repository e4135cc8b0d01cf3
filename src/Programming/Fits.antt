-- ===== src/Programming/Fits.antt =====
-- The first checks of `pw_program_card_tables_diag`, and what their failure means.
use packet_wyrm.Base.{
  ℕ, ◌≡◌, ◌≤◌, ◌<◌, ◌↔◌, ◌⊎◌, refl, ap, ◌∙◌, Bool, true, false, inl, inr, List, [], ◌∷◌, All, any,
  length, leb, arith, ok, err, Error, Status, ◌>>◌, reject_if,
}
use packet_wyrm.Compiler.Tables.{
  MapEntry, HashEntry, CardProgram, flow_table_rows, flowid_map_depth, num_cmp, num_udf, num_rule,
  hash_depth,
}
use packet_wyrm.Backend.{BackendOps}
use packet_wyrm.Programming.{precheck, program_checked, program_card_tables}

-- the tables fit the windows
pub record Fits (cp : CardProgram) : Type 0 where
  pub rows : length cp.flow_rows ≤ flow_table_rows
  pub cmps : length cp.fc_cmps ≤ num_cmp
  pub udfs : length cp.fc_udfs ≤ num_udf
  pub rules : length cp.fc_rules ≤ num_rule
  pub keys : length cp.hash_entries ≤ hash_depth
  pub maps : All (λ (m : MapEntry). m.flow_id < flowid_map_depth) cp.map_entries
  pub buckets : All (λ (e : HashEntry). e.index < hash_depth) cp.hash_entries

none-outside {ℓ} :
    {A : Type ℓ} (key : A → ℕ) (n : ℕ) (xs : List A)
    → (any (λ x. leb n (key x)) xs ≡ false) ↔ All (λ x. key x < n) xs
none-outside key n [] = ground arith
none-outside key n (x ∷ xs) = ground (arith, none-outside key n xs)

-- one check in front of others
guard_iff :
    (bad : Bool) (k : Status)
    → ((reject_if bad Error.inval >> k) ≡ ok tt) ↔ ((bad ≡ false) × (k ≡ ok tt))
guard_iff true k = ground arith
guard_iff false k = ground arith

last_iff : (bad : Bool) → (reject_if bad Error.inval ≡ ok tt) ↔ (bad ≡ false)
last_iff true = ground arith
last_iff false = ground arith

pub precheck_iff : (cp : CardProgram) → (precheck cp ≡ ok tt) ↔ Fits cp
unfolding precheck
precheck_iff cp = ground (
  arith,
  none-outside (λ (m : MapEntry). m.flow_id) flowid_map_depth cp.map_entries,
  none-outside (λ (e : HashEntry). e.index) hash_depth cp.hash_entries,
)

Status-cases : (s : Status) → (s ≡ ok tt) ⊎ ((e : Error) × (s ≡ err e))
Status-cases (ok tt) = inl refl
Status-cases (err e) = inr (e, refl)

guard-err :
    (bad : Bool) (k : Status) (e : Error)
    → (reject_if bad Error.inval >> k) ≡ err e
    → (e ≡ Error.inval) ⊎ (k ≡ err e)
guard-err true k e h = inl cc
guard-err false k e h = inr h

precheck-err : (cp : CardProgram) (e : Error) → precheck cp ≡ err e → e ≡ Error.inval
unfolding precheck
precheck-err cp e h = ground arith

-- When the tables of a program do not fit the windows, the programming reports PW_E_INVAL and
-- the device is as it was: no operation of the backend is called.
pub program_card_tables-unfit :
    {D : Type 0} (ops : BackendOps D) (cp : CardProgram) (d : D)
    → ¬ Fits cp
    → program_card_tables ops cp d ≡ (err Error.inval, d)
unfolding program_card_tables
program_card_tables-unfit ops cp d unfit = elim (Status-cases (precheck cp)) [
  | inl fits ↦ absurd (unfit ((precheck_iff cp).0 fits))
  | inr (e, bad) ↦
      ap (λ (s : Status). elim s [ err x ↦ (err x, d) | ok u ↦ program_checked ops cp d ]) bad
      ∙ ap (λ (x : Error). (err x, d)) (precheck-err cp e bad)
]
