-- ===== src/GpioSync/Window.antt =====
-- The offset that `pw_gpio_sync_offset_coherent` reports comes from a window without an edge.
use packet_wyrm.Base.{
  ℕ, zero, suc, ◌+◌, ◌-◌, ◌*◌, ◌^◌, ◌%◌, List, [], ◌∷◌, get_or, u32, ◌≡◌, ◌≢◌, ◌<◌, sym, ap, ◌∙◌,
  Option, none, some, true, false, Bool-cases, inl, inr, arith,
}
use packet_wyrm.GpioSync.{
  SyncCard, Sample, reg_seq, reg_ts_low, reg_ts_high, timestamp, sample, is_stable, try_offset,
  offset_coherent,
}

-- an access of a window: on which card, and which register
pub data Access : Type 0 where
  on_tx on_rx : ℕ → Access

-- The accesses of a window: both edge counters, both timestamps with the low word first, and both
-- edge counters again.
abbrev pub window : List Access
window =
    on_tx reg_seq
    ∷ on_rx reg_seq
    ∷ on_tx reg_ts_low
    ∷ on_tx reg_ts_high
    ∷ on_rx reg_ts_low
    ∷ on_rx reg_ts_high
    ∷ on_tx reg_seq
    ∷ on_rx reg_seq
    ∷ []

module _ {W : Type 0} (tx rx : ℕ → W → ℕ × W) where
  -- the words that accesses read, one after the other, and the world behind them
  abbrev pub run : List Access → W → List ℕ × W
  run [] w = ([], w)
  run (on_tx off ∷ later) w = let r = tx off w in let q = run later r.1 in (u32 r.0 ∷ q.0, q.1)
  run (on_rx off ∷ later) w = let r = rx off w in let q = run later r.1 in (u32 r.0 ∷ q.0, q.1)

  -- the world behind some windows
  abbrev pub after : ℕ → W → W
  after zero w = w
  after (suc n) w = after n (run window w).1

  -- the words of the window behind `n` others
  abbrev pub words : ℕ → W → ℕ → ℕ
  words n w i = get_or (run window (after n w)).0 i 0

  -- One of at most `tries` windows in which both cards have seen an edge, and neither counts another
  -- between the first two and the last two accesses; `offset` is the difference of the timestamps.
  pub record FirstStable (tries : ℕ) (w : W) (offset : ℕ) : Type 0 where
    pub index : ℕ
    pub below : index < tries
    pub seen : words index w 0 ≢ 0
    pub seen_rx : words index w 1 ≢ 0
    pub quiet_tx : words index w 0 ≡ words index w 6
    pub quiet_rx : words index w 1 ≡ words index w 7
    pub is_difference :
        offset
        ≡ (words index w 3 * 2 ^ 32
            + words index w 2
            + 2 ^ 64
            - (words index w 5 * 2 ^ 32 + words index w 4))
          % 2 ^ 64

  stable-parts :
      (s : Sample)
      → is_stable s ≡ true
      → (s.s_tx_a ≢ 0) × (s.s_rx_a ≢ 0) × (s.s_tx_a ≡ s.s_tx_b) × (s.s_rx_a ≡ s.s_rx_b)
  stable-parts s h = ground arith

  try_offset-some :
      (tries : ℕ) (w : W) (offset : ℕ)
      → (try_offset tries tx rx w).0 ≡ some offset
      → FirstStable tries w offset
  unfolding try_offset sample timestamp
  try_offset-some zero w offset h = cc
  try_offset-some (suc tries) w offset h = elim (Bool-cases (is_stable (sample tx rx w).0)) [
    | inl stable ↦
        let (seen, seen_rx, quiet_tx, quiet_rx) = stable-parts (sample tx rx w).0 stable in
        record {
          index = 0;
          below = omega arith;
          seen = seen;
          seen_rx = seen_rx;
          quiet_tx = quiet_tx;
          quiet_rx = quiet_rx;
          is_difference = ground arith;
        }
    | inr edge ↦
        let p = try_offset-some tries (sample tx rx w).1 offset (ground arith) in
        record {
          index = suc p.index;
          below = omega (arith, p.below);
          seen = p.seen;
          seen_rx = p.seen_rx;
          quiet_tx = p.quiet_tx;
          quiet_rx = p.quiet_rx;
          is_difference = p.is_difference;
        }
  ]

  try_offset-none :
      (tries : ℕ) (w : W)
      → (try_offset tries tx rx w).0 ≡ none
      → (k : ℕ) → k < tries
      → is_stable (sample tx rx (after k w)).0 ≡ false
  unfolding try_offset sample timestamp
  try_offset-none zero w h k lt = absurd (omega arith)
  try_offset-none (suc tries) w h zero lt = elim (Bool-cases (is_stable (sample tx rx w).0)) [
    | inl stable ↦ absurd (ground arith)
    | inr edge ↦ edge
  ]
  try_offset-none (suc tries) w h (suc k) lt = elim (Bool-cases (is_stable (sample tx rx w).0)) [
    | inl stable ↦ absurd (ground arith)
    | inr edge ↦ try_offset-none tries (sample tx rx w).1 (ground arith) k (omega arith)
  ]

-- When both cards can be read and an offset is reported, it is the difference of the two timestamps of
-- one of the first eight windows, each of which reads both edge counters, both timestamps (the low
-- word of each first) and both edge counters again, in this order; in that window both counters were
-- not 0 and neither had changed when it was read again.
pub offset_coherent-some :
    {W : Type 0} (tx_card rx_card : SyncCard W) (tx rx : ℕ → W → ℕ × W) (w : W) (offset : ℕ)
    → tx_card.read32 ≡ some tx
    → rx_card.read32 ≡ some rx
    → (offset_coherent tx_card rx_card w).0 ≡ some offset
    → FirstStable tx rx 8 w offset
unfolding offset_coherent
offset_coherent-some {W} tx_card rx_card tx rx w offset etx erx h =
    let both : (offset_coherent tx_card rx_card w) ≡ try_offset 8 tx rx w =
      ap
        (λ (o : Option (ℕ → W → ℕ × W)). elim o [
          | none ↦ (none, w)
          | some a ↦ elim (rx_card.read32) [ none ↦ (none, w) | some b ↦ try_offset 8 a b w ]
        ])
        etx
      ∙ ap
          (λ (o : Option (ℕ → W → ℕ × W)). elim o [
            | none ↦ (none, w)
            | some b ↦ try_offset 8 tx b w
          ])
          erx in
    try_offset-some tx rx 8 w offset (ap (λ (r : Option ℕ × W). r.0) (sym both) ∙ h)
