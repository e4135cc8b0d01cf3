-- ===== src/Config/Parse/TrafficRanges.antt =====
-- The traffic of a flow that is parsed is in range.
use packet_wyrm.Base.{
  ℕ, ◌≤◌, ◌<◌, ◌^◌, ◌≡◌, ◌≢◌, ◌⊎◌, refl, Bool, true, false, Option, none, some, Text, codes, Error,
  Result, ok, err, ◌>>=◌, Ensures, fails, returns, Ensures-bind, Ensures-of, Ensures-then, arith,
}
use packet_wyrm.Yaml.{Node}
use packet_wyrm.Scalar.{parse_u16}
use packet_wyrm.Config.Parse.Fields.{get_scalar, accept}
use packet_wyrm.Config.Parse.Traffic.{
  FrameLengths, parse_range, parse_lengths, check_lengths, check_rates, payloads, templates,
  Pattern, parse_pattern, traffic_of, parse_traffic,
}
use packet_wyrm.Config.Parse.Ranges.{
  Ensures-required, Ensures-optional, u16-Meets, u32-Meets, u64-Meets, one_of-Meets, Free, Free-map,
  Free-optional,
}
use packet_wyrm.Config.Parse.InRange.{IsTraffic}

-- Where the length is fixed, there is no range.
abbrev OneForm : FrameLengths → Type 0
OneForm l = l.fixed_set ≡ true → l.most ≡ 0

record InLimits (l : FrameLengths) : Type 0 where
  pub fixed : l.fixed_set ≡ true → (60 ≤ l.fixed) × (l.fixed ≤ 1518)
  pub range :
      l.fixed_set ≡ false → (60 ≤ l.least) × (l.least ≤ l.most) × (l.most ≤ 1518) × (1 ≤ l.stride)

parse_range-Ensures : (tr : Node) → Ensures OneForm (parse_range tr)
unfolding parse_range
parse_range-Ensures tr =
    Ensures-bind (λ v. v ≤ 0xFFFF) (Ensures-required _ _ _ _ u16-Meets)
      λ least le.
        Ensures-bind (λ v. v ≤ 0xFFFF) (Ensures-required _ _ _ _ u16-Meets)
          λ most mo.
            Ensures-bind (λ v. v ≤ 0xFFFF) (Ensures-optional _ _ _ _ _ (omega arith) u16-Meets)
              λ stride st. returns _ (λ fixed. cc)

fixed-Ensures :
    (o : Option ℕ)
    → Ensures OneForm (
        elim o as (λ o. Result ℕ) [ none ↦ err Error.parse | some v ↦ ok v ] >>= λ v.
        ok (record { fixed_set = true; fixed = v; least = 0; most = 0; stride = 0 }))
fixed-Ensures none = fails Error.parse
fixed-Ensures (some v) = returns _ (λ fixed. refl)

parse_lengths-Ensures : (tr : Node) → Ensures OneForm (parse_lengths tr)
unfolding parse_lengths accept
parse_lengths-Ensures tr = go (get_scalar tr (codes "frame_len") false)
  where
    go :
        (r : Result (Option Text))
        → Ensures OneForm (elim r [
          | err code ↦ err code
          | ok none ↦ parse_range tr
          | ok (some s) ↦ do
            fixed ← accept parse_u16 Error.parse s
            ok (record { fixed_set = true; fixed = fixed; least = 0; most = 0; stride = 0 })
        ])
    go (err code) = fails code
    go (ok none) = parse_range-Ensures tr
    go (ok (some s)) = fixed-Ensures (parse_u16 s)

check_lengths-ok :
    (tr : Node) (l : FrameLengths) (u : Unit {0}) → check_lengths tr l ≡ ok u → InLimits l
unfolding check_lengths
check_lengths-ok tr l u done = ground arith

check_rates-ok :
    (bps pps : ℕ) (u : Unit {0})
    → check_rates bps pps ≡ ok u
    → ((bps ≡ 0) × (pps ≢ 0)) ⊎ ((bps ≢ 0) × (pps ≡ 0))
unfolding check_rates
check_rates-ok bps pps u done = ground arith

record IsPattern (p : Pattern) : Type 0 where
  pub burst : p.burst_size ≤ 0xFFFFFFFF
  pub gap : p.burst_gap_ticks ≤ 0xFFFFFFFF
  pub payload : p.payload_mode ≤ 3
  pub seed : p.payload_seed ≤ 0xFFFFFFFF
  pub template : p.frame_template ≤ 3

parse_pattern-Ensures : (tr : Node) → Ensures IsPattern (parse_pattern tr)
unfolding parse_pattern
parse_pattern-Ensures tr =
    Ensures-bind (λ v. v ≤ 0xFFFFFFFF) (Ensures-optional _ _ _ _ _ (omega arith) u32-Meets)
      λ size sz.
        Ensures-bind (λ v. v ≤ 0xFFFFFFFF) (Ensures-optional _ _ _ _ _ (omega arith) u32-Meets)
          λ gap gp.
            Ensures-bind (λ v. v ≤ 3)
              (Ensures-optional _ _ _ _ _ (omega arith)
                (one_of-Meets (λ v. v ≤ 3) payloads (omega arith)))
              λ payload pl.
                Ensures-bind (λ v. v ≤ 0xFFFFFFFF)
                  (Ensures-optional _ _ _ _ _ (omega arith) u32-Meets)
                  λ seed sd. Ensures-bind (Free Bool) (Free-optional _ _ _ _ _) λ seq _.
                    Ensures-bind (Free Bool) (Free-optional _ _ _ _ _) λ ts _.
                      Ensures-bind (λ v. v ≤ 3)
                        (Ensures-optional _ _ _ _ _ (omega arith)
                          (one_of-Meets (λ v. v ≤ 3) templates (omega arith)))
                        λ template tm.
                          returns _ (record {
                            burst = sz;
                            gap = gp;
                            payload = pl;
                            seed = sd;
                            template = tm;
                          })

traffic_of-IsTraffic :
    (l : FrameLengths) (bps pps : ℕ) (p : Pattern)
    → OneForm l
    → InLimits l
    → ((bps ≡ 0) × (pps ≢ 0)) ⊎ ((bps ≢ 0) × (pps ≡ 0))
    → bps < 2 ^ 64
    → pps < 2 ^ 64
    → IsPattern p
    → IsTraffic (traffic_of l bps pps p)
traffic_of-IsTraffic l bps pps p one_form limits one_rate b64 p64 rest = record {
  fixed = λ set. let f = limits.fixed set in (f.0, f.1, one_form set);
  range = limits.range;
  one_rate = one_rate;
  bps = b64;
  pps = p64;
  burst = rest.burst;
  gap = rest.gap;
  payload = rest.payload;
  seed = rest.seed;
  template = rest.template;
}

pub parse_traffic-Ensures : (block : Option Node) → Ensures IsTraffic (parse_traffic block)
unfolding parse_traffic
parse_traffic-Ensures none = fails Error.missing_field
parse_traffic-Ensures (some block) = Ensures-bind (Free Node) (Free-map _) λ tr _.
    Ensures-bind OneForm (parse_lengths-Ensures tr) λ l one_form.
      Ensures-bind (λ v. v < 2 ^ 64) (Ensures-optional _ _ _ _ _ (omega arith) u64-Meets)
        λ bps b64.
          Ensures-bind (λ v. v < 2 ^ 64) (Ensures-optional _ _ _ _ _ (omega arith) u64-Meets)
            λ pps p64.
              Ensures-then (InLimits l) (Ensures-of (check_lengths tr l) (check_lengths-ok tr l))
                λ limits.
                  Ensures-then (((bps ≡ 0) × (pps ≢ 0)) ⊎ ((bps ≢ 0) × (pps ≡ 0)))
                    (Ensures-of (check_rates bps pps) (check_rates-ok bps pps))
                    λ one_rate. Ensures-bind IsPattern (parse_pattern-Ensures tr) λ p rest.
                      returns _
                        (traffic_of-IsTraffic l bps pps p one_form limits one_rate b64 p64 rest)
