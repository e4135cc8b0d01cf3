-- ===== src/Compiler/Row/Bucket.antt =====
-- The token bucket of a flow row.
use native.Mathlib.Decide.{ℕ_discrete}
use packet_wyrm.Base.{
  ℕ, ◌+◌, ◌*◌, ◌/◌, ◌≢◌, max, inl, inr, not, refl, sym, subst, ap, ◌∙◌, ◌&&◌, ◌==◌, ◌≡◌, ◌≤◌, ◌<◌,
  ◌⊎◌, ltb, if◌then◌else◌, arith,
}
use packet_wyrm.Config.FlowModel.{Flow}
use packet_wyrm.Compiler.Row.{
  min_legal_frame, clock_hz, u64_max, at_least, effective_rate, tokens_per_tick,
}

-- `tokens` meters `amount` in `period` clocks: it is the quotient in 16.16, rounded down, unless it is
-- the largest word.
abbrev pub Meters : ℕ → ℕ → ℕ → Type 0
Meters tokens amount period =
    (tokens ≤ 0xFFFFFFFF)
    × ((tokens * period ≤ amount * 65536)
        × ((tokens ≡ 0xFFFFFFFF) ⊎ (amount * 65536 < (tokens + 1) * period)))

-- the length in bytes of the frames that a packet rate counts: the smallest configured length, and no
-- less than the shortest frame with all its headers
abbrev pub paced_bytes : Flow → ℕ
paced_bytes f =
    max (min_legal_frame f)
      (if f.traffic.frame_len_fixed_set then f.traffic.frame_len_fixed else f.traffic.frame_len_min)

-- the 16.16 quotient of a bit rate, no more than a word
abbrev per_tick : ℕ → ℕ
per_tick bits = let q = bits * 65536 / (clock_hz * 8) in if ltb 0xFFFFFFFF q then 0xFFFFFFFF else q

per_tick-Meters : (bits : ℕ) → Meters (per_tick bits) bits (clock_hz * 8)
per_tick-Meters bits = ground arith

-- a byte rate, as bits that do not leave 64 bits
per_tick_bytes :
    (bytes : ℕ)
    → Meters (per_tick (if ltb u64_max (bytes * 8) then u64_max else bytes * 8)) bytes clock_hz
per_tick_bytes bytes = ground arith

at_least-max : (m l : ℕ) → at_least m l ≡ max m l
at_least-max m l = ground arith

no_rate :
    (bps pps product bytes : ℕ)
    → bps ≡ 0
    → pps ≡ 0
    → bytes ≡ 0
    → (if bps == 0 && not (pps == 0)
        then (if ltb u64_max product then u64_max else product)
        else bps)
      ≡ (if ltb u64_max (bytes * 8) then u64_max else bytes * 8)
no_rate bps pps product bytes p q r = rw (p, q, r) refl

packet_rate :
    (bps pps product bytes : ℕ)
    → bps ≡ 0
    → pps ≢ 0
    → product ≡ bytes * 8
    → (if bps == 0 && not (pps == 0)
        then (if ltb u64_max product then u64_max else product)
        else bps)
      ≡ (if ltb u64_max (bytes * 8) then u64_max else bytes * 8)
packet_rate bps pps product bytes p q r = rw (p, r) (ground (arith, q))

-- The bits of a second, whichever rate is configured.
effective_rate_pps :
    (f : Flow) (bytes : ℕ)
    → f.traffic.rate_bps ≡ 0
    → bytes ≡ f.traffic.rate_pps * paced_bytes f
    → effective_rate f ≡ (if ltb u64_max (bytes * 8) then u64_max else bytes * 8)
unfolding effective_rate
effective_rate_pps f bytes bps e =
    let asked =
      if f.traffic.frame_len_fixed_set
      then f.traffic.frame_len_fixed
      else f.traffic.frame_len_min in
    let len = at_least-max (min_legal_frame f) asked in
    let product = f.traffic.rate_pps * at_least (min_legal_frame f) asked * 8 in
    elim (ℕ_discrete f.traffic.rate_pps 0) [
      | yes none_sent ↦
          no_rate f.traffic.rate_bps f.traffic.rate_pps product bytes bps none_sent
            (e ∙ ap (λ (n : ℕ). n * paced_bytes f) none_sent ∙ omega arith)
      | no sent ↦
          packet_rate f.traffic.rate_bps f.traffic.rate_pps product bytes bps sent
            (ap (λ (n : ℕ). f.traffic.rate_pps * n * 8) len ∙ ap (λ (n : ℕ). n * 8) (sym e))
    ]

effective_rate_bps : (f : Flow) → f.traffic.rate_bps ≢ 0 → effective_rate f ≡ f.traffic.rate_bps
unfolding effective_rate
effective_rate_bps f bps = ground (arith, bps)

-- The tokens of a tick fit 32 bits. For a flow with a packet rate alone they are that many frames a
-- second, in 16.16 bytes for each clock, rounded down; for one with a bit rate they are that rate,
-- in 16.16 bytes for each clock, rounded down; in both cases the largest word stands for what does
-- not fit.
pub tokens_per_tick_lem :
    (f : Flow)
    → ((f.traffic.rate_bps ≡ 0)
        × Meters (tokens_per_tick f) (f.traffic.rate_pps * paced_bytes f) clock_hz)
      ⊎ ((f.traffic.rate_bps ≢ 0) × Meters (tokens_per_tick f) f.traffic.rate_bps (clock_hz * 8))
unfolding tokens_per_tick
tokens_per_tick_lem f = elim (ℕ_discrete f.traffic.rate_bps 0) [
  | yes zero_bps ↦
      let bytes : ℕ = f.traffic.rate_pps * paced_bytes f in
      inl (
        zero_bps,
        subst (λ (b : ℕ). Meters (per_tick b) bytes clock_hz)
            (sym (effective_rate_pps f bytes zero_bps refl)) (per_tick_bytes bytes),
      )
  | no bps ↦ inr (
    bps,
    subst (λ (b : ℕ). Meters (per_tick b) f.traffic.rate_bps (clock_hz * 8))
        (sym (effective_rate_bps f bps)) (per_tick-Meters f.traffic.rate_bps),
  )
]
