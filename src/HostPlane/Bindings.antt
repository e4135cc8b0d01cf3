-- ===== src/HostPlane/Bindings.antt =====
-- The bindings of the host plane: one for each interface, 32 at most.
use packet_wyrm.Base.{
  ℕ, suc, ◌+◌, ◌≡◌, ◌≢◌, ◌≤◌, ◌<◌, ◌⊎◌, refl, Option, none, some, Option-cases, Bool-cases, inl,
  inr, List, [], ◌∷◌, ◌++◌, All, All-append, length, length-append, get_elem?, leb, arith, ok, err,
  Error,
}
use native.Mathlib.Decide.{ℕ_discrete}
use packet_wyrm.Config.Valid.{AllPairs}
use packet_wyrm.HostPlane.{max_bindings, HostBinding, HostPlane, init, find_binding, bind}

abbrev pub LifDiffers : HostBinding → HostBinding → Type 0
LifDiffers a b = a.logical_if_id ≢ b.logical_if_id

-- The plane is within its arrays, and no interface is bound twice.
pub record IsPlane (hp : HostPlane) : Type 0 where
  pub few : length hp.bindings ≤ max_bindings
  pub distinct : AllPairs LifDiffers hp.bindings
  pub punt_ok : length hp.punt_to_tap_ok ≡ max_bindings
  pub punt_dropped : length hp.punt_to_tap_dropped ≡ max_bindings
  pub tap_ok : length hp.tap_to_fpga_ok ≡ max_bindings
  pub tap_dropped : length hp.tap_to_fpga_dropped ≡ max_bindings

pub find_binding-some :
    (lif i : ℕ) (bs : List HostBinding) (k : ℕ)
    → find_binding lif i bs ≡ some k
    → (j : ℕ) × (b : HostBinding) × (k ≡ i + j)
      × (get_elem? bs j ≡ some b)
      × (b.logical_if_id ≡ lif)
unfolding find_binding
find_binding-some lif i [] k h = cc
find_binding-some lif i (b ∷ bs) k h = elim (ℕ_discrete b.logical_if_id lif) [
  | yes e ↦ (0, b, ground arith, refl, e)
  | no e ↦
      let (j, c, hk, hc, same) = find_binding-some lif (i + 1) bs k (ground arith) in
      (suc j, c, omega arith, hc, same)
]

find_binding-none :
    (lif i : ℕ) (bs : List HostBinding)
    → find_binding lif i bs ≡ none
    → All (λ (b : HostBinding). b.logical_if_id ≢ lif) bs
unfolding find_binding
find_binding-none lif i [] h = tt
find_binding-none lif i (b ∷ bs) h = elim (ℕ_discrete b.logical_if_id lif) [
  | yes e ↦ absurd (ground arith)
  | no e ↦ (e, find_binding-none lif (i + 1) bs (ground arith))
]

find_binding-append :
    (lif i : ℕ) (bs : List HostBinding) (b : HostBinding) (k : ℕ)
    → find_binding lif i bs ≡ some k
    → find_binding lif i (bs ++ b ∷ []) ≡ some k
unfolding find_binding
find_binding-append lif i [] b k h = cc
find_binding-append lif i (c ∷ bs) b k h = ground (arith, find_binding-append lif (i + 1) bs b k)

find_binding-end :
    (lif i : ℕ) (bs : List HostBinding) (b : HostBinding)
    → find_binding lif i bs ≡ none
    → b.logical_if_id ≡ lif
    → find_binding lif i (bs ++ b ∷ []) ≡ some (i + length bs)
unfolding find_binding
find_binding-end lif i [] b h e = ground arith
find_binding-end lif i (c ∷ bs) b h e = elim (ℕ_discrete c.logical_if_id lif) [
  | yes q ↦ absurd (ground arith)
  | no q ↦ let rest = find_binding-end lif (i + 1) bs b (ground arith) e in ground arith
]

AllPairs-append :
    (bs : List HostBinding) (b : HostBinding)
    → AllPairs LifDiffers bs
    → All (λ (a : HostBinding). a.logical_if_id ≢ b.logical_if_id) bs
    → AllPairs LifDiffers (bs ++ b ∷ [])
AllPairs-append [] b h n = (tt, tt)
AllPairs-append (a ∷ bs) b h n =
    (All-append (LifDiffers a) bs b h.0 n.0, AllPairs-append bs b h.1 n.1)

pub init-IsPlane : IsPlane init
unfolding init
init-IsPlane = record {
  few = omega arith;
  distinct = tt;
  punt_ok = refl;
  punt_dropped = refl;
  tap_ok = refl;
  tap_dropped = refl;
}

-- what a successful bind does
pub record Bound (lif fd egress : ℕ) (hp hp' : HostPlane) : Type 0 where
  pub plane : IsPlane hp'
  pub added :
      hp'.bindings
      ≡ hp.bindings ++ record { logical_if_id = lif; fd = fd; egress_local_port = egress } ∷ []
  pub found : find_binding lif 0 hp'.bindings ≡ some (length hp.bindings)
  pub others :
      (other k : ℕ)
      → find_binding other 0 hp.bindings ≡ some k
      → find_binding other 0 hp'.bindings ≡ some k

-- When a descriptor is bound with success on a well-formed plane, the plane stays well formed, the
-- interface is found behind the earlier bindings, and every earlier interface where it was.
pub bind-ok :
    (lif fd egress : ℕ) (hp hp' : HostPlane)
    → IsPlane hp
    → bind lif (some fd) egress hp ≡ ok hp'
    → Bound lif fd egress hp hp'
unfolding bind
bind-ok lif fd egress hp hp' w h = elim (Option-cases (find_binding lif 0 hp.bindings)) [
  | inr (k, found) ↦ absurd (ground arith)
  | inl fresh ↦ elim (Bool-cases (leb max_bindings (length hp.bindings))) [
    | inl full ↦ absurd (ground arith)
    | inr room ↦
        let b : HostBinding = record { logical_if_id = lif; fd = fd; egress_local_port = egress } in
        let e : record hp { bindings = hp.bindings ++ b ∷ [] } ≡ hp' = ground arith in
        let below : length hp.bindings < max_bindings = ground arith in
        rw (← e) (record {
          plane = record {
            few = omega (arith, length-append hp.bindings (b ∷ []));
            distinct =
                AllPairs-append hp.bindings b w.distinct
                  (find_binding-none lif 0 hp.bindings fresh);
            punt_ok = w.punt_ok;
            punt_dropped = w.punt_dropped;
            tap_ok = w.tap_ok;
            tap_dropped = w.tap_dropped;
          };
          added = refl;
          found = ground (arith, find_binding-end lif 0 hp.bindings b fresh refl);
          others = λ other k k_found. find_binding-append other 0 hp.bindings b k k_found;
        })
  ]
]

-- When a bind fails, either the descriptor is negative and the error PW_E_INVAL, or the interface is
-- bound already and the error PW_E_DUP_LOGICAL_IF, or it is not, 32 bindings or more are in use and
-- the error is PW_E_NO_RESOURCES.
pub bind-err :
    (lif : ℕ) (fd : Option ℕ) (egress : ℕ) (hp : HostPlane) (e : Error)
    → bind lif fd egress hp ≡ err e
    → ((fd ≡ none) × (e ≡ Error.inval))
      ⊎ (((j : ℕ) × (b : HostBinding) × (get_elem? hp.bindings j ≡ some b)
            × (b.logical_if_id ≡ lif)
            × (e ≡ Error.dup_logical_if))
          ⊎ (All (λ (b : HostBinding). b.logical_if_id ≢ lif) hp.bindings
              × (max_bindings ≤ length hp.bindings)
              × (e ≡ Error.no_resources)))
unfolding bind
bind-err lif none egress hp e h = inl (refl, ground arith)
bind-err lif (some fd) egress hp e h = elim (Option-cases (find_binding lif 0 hp.bindings)) [
  | inr (k, found) ↦
      let (j, b, _, at, same) = find_binding-some lif 0 hp.bindings k found in
      inr (inl (j, b, at, same, ground arith))
  | inl fresh ↦ elim (Bool-cases (leb max_bindings (length hp.bindings))) [
    | inl full ↦ inr (inr (find_binding-none lif 0 hp.bindings fresh, ground arith, ground arith))
    | inr room ↦ absurd (ground arith)
  ]
]
