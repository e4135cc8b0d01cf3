-- ===== src/Compiler/Rules/Meaning.antt =====
-- What a rule of the field classifier asks of a frame: `care` selects comparator bits, bit i is
-- field comparator i, bit NUM_CMP + j is UDF comparator j (flow_compiler.h).
use packet_wyrm.Base.{
  ℕ, ◌+◌, ◌-◌, ◌≤◌, ◌<◌, ◌≡◌, inl, inr, true, Option, none, some, Option-cases, Bool-cases, List,
  [], ◌∷◌, ◌++◌, length, get_elem?, get_elem?-append_left, get_elem?-append_end, get_elem?-lt,
  length-append, ltb, leb, if◌then◌else◌, ok, arith,
}
use packet_wyrm.Base.Bits.{test_bit}
use native.Mathlib.Numerals.{add-one}
use packet_wyrm.Compiler.Tables.{FcCmp, FcUdf, CardProgram, num_cmp, num_udf}
use packet_wyrm.Compiler.Append.{
  same_cmp, find_cmp, append_fc_cmp, same_udf, find_udf, append_fc_udf,
}

-- A test on a frame: a masked field, or a masked window of its bytes.
pub data Condition : Type 0 where
  on_field : FcCmp → Condition
  on_window : FcUdf → Condition

abbrev pub field_at : List FcCmp → ℕ → Option Condition
field_at cs i = elim (get_elem? cs i) [ none ↦ none | some c ↦ some (on_field c) ]

abbrev pub window_at : List FcUdf → ℕ → Option Condition
window_at us j = elim (get_elem? us j) [ none ↦ none | some u ↦ some (on_window u) ]

-- what comparator bit `i` of the card tests
abbrev pub condition_at : CardProgram → ℕ → Option Condition
condition_at cp i =
    if ltb i num_cmp then field_at cp.fc_cmps i else window_at cp.fc_udfs (i - num_cmp)

-- The card's comparators fit the hardware.
pub record FitsPool (cp : CardProgram) : Type 0 where
  pub cmps : length cp.fc_cmps ≤ num_cmp
  pub udfs : length cp.fc_udfs ≤ num_udf

-- Every bit of the mask selects a comparator that is there.
abbrev pub Selects : ℕ → CardProgram → Type 0
Selects care cp = (i : ℕ) → test_bit care i ≡ 1 → (c : Condition) × (condition_at cp i ≡ some c)

-- The comparators of `cp` stand in `cp'` under the same bits.
abbrev pub Extends : CardProgram → CardProgram → Type 0
Extends cp cp' = (i : ℕ) (c : Condition) → condition_at cp i ≡ some c → condition_at cp' i ≡ some c

-- The rule matches a frame of which the conditions in `Holds` are true.
abbrev pub Fires : (Condition → Type 0) → ℕ → CardProgram → Type 0
Fires Holds care cp =
    (i : ℕ) → test_bit care i ≡ 1 → (c : Condition) × (condition_at cp i ≡ some c) × Holds c

-- What appending one comparator does.
pub record Appended (c : Condition) (cp : CardProgram) (b : ℕ) (cp' : CardProgram) : Type 0 where
  pub bit : b < 14
  pub at_bit : condition_at cp' b ≡ some c
  pub extends : Extends cp cp'
  pub fits : FitsPool cp'

same_cmp-eq : (c d : FcCmp) → same_cmp c d ≡ true → d ≡ c
same_cmp-eq c d h = ground arith

same_udf-eq : (u v : FcUdf) → same_udf u v ≡ true → v ≡ u
same_udf-eq u v h = ground arith

find_cmp_lem :
    (c : FcCmp) (i : ℕ) (ds : List FcCmp) (k : ℕ)
    → find_cmp c i ds ≡ some k
    → (j : ℕ) × (k ≡ i + j) × (get_elem? ds j ≡ some c)
unfolding find_cmp
find_cmp_lem c i [] k h = cc
find_cmp_lem c i (d ∷ ds) k h = elim (Bool-cases (same_cmp c d)) [
  | inl e ↦ (0, ground arith, ground (arith, same_cmp-eq c d e))
  | inr e ↦
      let (j, hk, hj) = find_cmp_lem c (i + 1) ds k (ground arith) in
      (j + 1, omega arith, ground (arith, add-one j))
]

find_udf_lem :
    (u : FcUdf) (i : ℕ) (vs : List FcUdf) (k : ℕ)
    → find_udf u i vs ≡ some k
    → (j : ℕ) × (k ≡ i + j) × (get_elem? vs j ≡ some u)
unfolding find_udf
find_udf_lem u i [] k h = cc
find_udf_lem u i (v ∷ vs) k h = elim (Bool-cases (same_udf u v)) [
  | inl e ↦ (0, ground arith, ground (arith, same_udf-eq u v e))
  | inr e ↦
      let (j, hk, hj) = find_udf_lem u (i + 1) vs k (ground arith) in
      (j + 1, omega arith, ground (arith, add-one j))
]

Extends-refl : (cp : CardProgram) → Extends cp cp
Extends-refl cp i c h = h

found_cmp :
    (c : FcCmp) (cp : CardProgram) (k : ℕ)
    → FitsPool cp
    → get_elem? cp.fc_cmps k ≡ some c
    → Appended (on_field c) cp k cp
found_cmp c cp k v h =
    let lt : k < length cp.fc_cmps = get_elem?-lt cp.fc_cmps k h in
    record { bit = omega arith; at_bit = ground arith; extends = Extends-refl cp; fits = v }

field_at-append :
    (cs : List FcCmp) (d : FcCmp) (i : ℕ) (c : Condition)
    → field_at cs i ≡ some c
    → field_at (cs ++ d ∷ []) i ≡ some c
field_at-append cs d i c h = elim (Option-cases (get_elem? cs i)) [
  | inl e ↦ ground arith
  | inr (x, e) ↦ ground (arith, get_elem?-append_left cs (d ∷ []) i e)
]

window_at-append :
    (us : List FcUdf) (v : FcUdf) (i : ℕ) (c : Condition)
    → window_at us i ≡ some c
    → window_at (us ++ v ∷ []) i ≡ some c
window_at-append us v i c h = elim (Option-cases (get_elem? us i)) [
  | inl e ↦ ground arith
  | inr (x, e) ↦ ground (arith, get_elem?-append_left us (v ∷ []) i e)
]

pushed_cmp :
    (c : FcCmp) (cp : CardProgram)
    → FitsPool cp
    → length cp.fc_cmps < num_cmp
    → Appended (on_field c) cp (length cp.fc_cmps) (record cp { fc_cmps = cp.fc_cmps ++ c ∷ [] })
pushed_cmp c cp v h = record {
  bit = omega arith;
  at_bit = ground (arith, get_elem?-append_end cp.fc_cmps [] c);
  extends = λ i d e. ground (arith, field_at-append cp.fc_cmps c i d);
  fits = record { cmps = omega (arith, length-append cp.fc_cmps (c ∷ [])); udfs = v.udfs };
}

-- A comparator found or appended keeps every other bit's meaning.
pub append_fc_cmp-Appended :
    (c : FcCmp) (cp : CardProgram) (r : ℕ × CardProgram)
    → FitsPool cp
    → append_fc_cmp c cp ≡ ok r
    → Appended (on_field c) cp r.0 r.1
unfolding append_fc_cmp
append_fc_cmp-Appended c cp r v h = elim (Option-cases (find_cmp c 0 cp.fc_cmps)) [
  | inl absent ↦ elim (Bool-cases (leb num_cmp (length cp.fc_cmps))) [
    | inl full ↦ absurd (ground arith)
    | inr room ↦
        let e : (length cp.fc_cmps, record cp { fc_cmps = cp.fc_cmps ++ c ∷ [] }) ≡ r =
          ground arith in
        rw (← e) (pushed_cmp c cp v (ground arith))
  ]
  | inr (k, found) ↦
      let (j, hk, hj) = find_cmp_lem c 0 cp.fc_cmps k found in
      let e : (k, cp) ≡ r = ground arith in rw (← e) (found_cmp c cp k v (ground arith))
]

found_udf :
    (u : FcUdf) (cp : CardProgram) (k : ℕ)
    → FitsPool cp
    → get_elem? cp.fc_udfs k ≡ some u
    → Appended (on_window u) cp (num_cmp + k) cp
found_udf u cp k v h =
    let lt : k < length cp.fc_udfs = get_elem?-lt cp.fc_udfs k h in
    let off : num_cmp + k - num_cmp ≡ k = omega arith in
    record { bit = omega arith; at_bit = ground arith; extends = Extends-refl cp; fits = v }

pushed_udf :
    (u : FcUdf) (cp : CardProgram)
    → FitsPool cp
    → length cp.fc_udfs < num_udf
    → Appended
        (on_window u)
        cp
        (num_cmp + length cp.fc_udfs)
        (record cp { fc_udfs = cp.fc_udfs ++ u ∷ [] })
pushed_udf u cp v h =
    let off : num_cmp + length cp.fc_udfs - num_cmp ≡ length cp.fc_udfs = omega arith in
    record {
      bit = omega arith;
      at_bit = ground (arith, get_elem?-append_end cp.fc_udfs [] u);
      extends = λ i d e. ground (arith, window_at-append cp.fc_udfs u (i - num_cmp) d);
      fits = record { cmps = v.cmps; udfs = omega (arith, length-append cp.fc_udfs (u ∷ [])) };
    }

-- The same for a window comparator, under the bits behind the field comparators.
pub append_fc_udf-Appended :
    (u : FcUdf) (cp : CardProgram) (r : ℕ × CardProgram)
    → FitsPool cp
    → append_fc_udf u cp ≡ ok r
    → Appended (on_window u) cp r.0 r.1
unfolding append_fc_udf
append_fc_udf-Appended u cp r v h = elim (Option-cases (find_udf u 0 cp.fc_udfs)) [
  | inl absent ↦ elim (Bool-cases (leb num_udf (length cp.fc_udfs))) [
    | inl full ↦ absurd (ground arith)
    | inr room ↦
        let e : (num_cmp + length cp.fc_udfs, record cp { fc_udfs = cp.fc_udfs ++ u ∷ [] }) ≡ r =
          ground arith in
        rw (← e) (pushed_udf u cp v (ground arith))
  ]
  | inr (k, found) ↦
      let (j, hk, hj) = find_udf_lem u 0 cp.fc_udfs k found in
      let e : (num_cmp + k, cp) ≡ r = ground arith in rw (← e) (found_udf u cp k v (ground arith))
]
