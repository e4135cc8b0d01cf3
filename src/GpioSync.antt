-- ===== src/GpioSync.antt =====
-- The time synchronisation over the J5 pins: sw/libpacketwyrm/src/gpio_sync.c. `W` is all that the
-- accesses read and change, of both cards; a card is its two register operations, `none` for one
-- that is NULL. A failed read leaves 0 in the variable, and is a read of 0 here.
pub mod Window
pub mod Correction
use packet_wyrm.Base.{
  ℕ, zero, suc, ◌+◌, ◌-◌, ◌*◌, ◌/◌, ◌%◌, ◌^◌, Option, none, some, Bool, not, ◌&&◌, bit_and, bit_or,
  shl, shr, u32, u64, ◌==◌, leb, if◌then◌else◌,
}
use packet_wyrm.Compiler.Tables.{flow_table_rows}

pub record SyncCard (W : Type 0) : Type 0 where
  pub read32 : Option (ℕ → W → ℕ × W)
  pub write32 : Option (ℕ → ℕ → W → W)

abbrev pub reg_ctrl : ℕ
reg_ctrl = 0x0130

abbrev pub reg_ts_low : ℕ
reg_ts_low = 0x0134

abbrev pub reg_ts_high : ℕ
reg_ts_high = 0x0138

abbrev pub reg_seq : ℕ
reg_seq = 0x013C

abbrev pub correction_base : ℕ
correction_base = 0x0180

-- `mkctrl`
unfoldable pub mkctrl : ℕ → ℕ → ℕ → ℕ → ℕ → ℕ → ℕ
mkctrl en master rep in_sel out_sel per =
    bit_or
      (bit_or
        (bit_or (bit_or (bit_or (bit_and en 1) (shl (bit_and master 1) 1)) (shl (bit_and rep 1) 2))
          (shl (bit_and in_sel 7) 4))
        (shl (bit_and out_sel 7) 8))
      (shl (bit_and per 0xF) 16)

-- the difference of two 64-bit words, as the word that `int64_t` reads
abbrev pub difference : ℕ → ℕ → ℕ
difference a b = u64 (a + 2 ^ 64 - b)

-- one bracketed sample of both cards
pub record Sample : Type 0 where
  pub s_tx_a : ℕ
  pub s_rx_a : ℕ
  pub ts_tx : ℕ
  pub ts_rx : ℕ
  pub s_tx_b : ℕ
  pub s_rx_b : ℕ

-- an edge was seen, and none fell into the sample
abbrev pub is_stable : Sample → Bool
is_stable s =
    not (s.s_tx_a == 0) && not (s.s_rx_a == 0) && (s.s_tx_a == s.s_tx_b) && (s.s_rx_a == s.s_rx_b)

module _ {W : Type 0} where
  -- `wr`
  unfoldable pub wr : SyncCard W → ℕ → ℕ → W → W
  wr be off v w = elim (be.write32) [ none ↦ w | some write ↦ write off v w ]

  unfoldable pub sync_master : SyncCard W → ℕ → ℕ → W → W
  unfolding wr mkctrl
  sync_master be out_pin period_log2 = wr be reg_ctrl (mkctrl 1 1 0 0 out_pin period_log2)

  unfoldable pub sync_slave : SyncCard W → ℕ → W → W
  unfolding wr mkctrl
  sync_slave be in_pin = wr be reg_ctrl (mkctrl 1 0 0 in_pin 1 0)

  unfoldable pub sync_disable : SyncCard W → W → W
  unfolding wr
  sync_disable be = wr be reg_ctrl 0

  -- `pw_gpio_sync_ts`, where `read32` is there: the low word first
  unfoldable pub timestamp : (ℕ → W → ℕ × W) → W → ℕ × W
  timestamp read w =
      let (lo, w1) = read reg_ts_low w in
      let (hi, w2) = read reg_ts_high w1 in (u32 hi * 2 ^ 32 + u32 lo, w2)

  -- `pw_gpio_sync_ts`
  unfoldable pub sync_ts : SyncCard W → W → ℕ × W
  unfolding timestamp
  sync_ts be w = elim (be.read32) [ none ↦ (0, w) | some read ↦ timestamp read w ]

  -- `pw_gpio_sync_seq`
  unfoldable pub sync_seq : SyncCard W → W → ℕ × W
  sync_seq be w = elim (be.read32) [
    | none ↦ (0, w)
    | some read ↦ let (s, w1) = read reg_seq w in (u32 s, w1)
  ]

  -- `pw_gpio_sync_offset`, `tx` read first
  unfoldable pub sync_offset : SyncCard W → SyncCard W → W → ℕ × W
  unfolding sync_ts
  sync_offset tx rx w =
      let (a, w1) = sync_ts tx w in let (b, w2) = sync_ts rx w1 in (difference a b, w2)

  unfoldable pub sample : (ℕ → W → ℕ × W) → (ℕ → W → ℕ × W) → W → Sample × W
  unfolding timestamp
  sample tx rx w =
      let (s_tx_a, w1) = tx reg_seq w in
      let (s_rx_a, w2) = rx reg_seq w1 in
      let (ts_tx, w3) = timestamp tx w2 in
      let (ts_rx, w4) = timestamp rx w3 in
      let (s_tx_b, w5) = tx reg_seq w4 in
      let (s_rx_b, w6) = rx reg_seq w5 in
      (
        record {
          s_tx_a = u32 s_tx_a;
          s_rx_a = u32 s_rx_a;
          ts_tx = ts_tx;
          ts_rx = ts_rx;
          s_tx_b = u32 s_tx_b;
          s_rx_b = u32 s_rx_b;
        },
        w6,
      )

  -- the loop, with the tries that are left
  unfoldable pub try_offset : ℕ → (ℕ → W → ℕ × W) → (ℕ → W → ℕ × W) → W → Option ℕ × W
  unfolding sample
  try_offset zero tx rx w = (none, w)
  try_offset (suc tries) tx rx w =
      let (s, w') = sample tx rx w in
      let rest = try_offset tries tx rx w' in
      if is_stable s then (some (difference s.ts_tx s.ts_rx), w') else rest

  -- `pw_gpio_sync_offset_coherent`
  unfoldable pub offset_coherent : SyncCard W → SyncCard W → W → Option ℕ × W
  unfolding try_offset
  offset_coherent tx rx w = elim (tx.read32) [
    | none ↦ (none, w)
    | some read_tx ↦ elim (rx.read32) [
      | none ↦ (none, w)
      | some read_rx ↦ try_offset 8 read_tx read_rx w
    ]
  ]

  -- `pw_gpio_sync_write_correction`; `corr` is the word of the `int64_t`
  unfoldable pub write_correction : SyncCard W → ℕ → ℕ → W → W
  unfolding wr
  write_correction be slot corr w =
      if leb flow_table_rows slot
      then w
      else wr be (correction_base + slot * 8 + 4) (u32 (shr (u64 corr) 32))
          (wr be (correction_base + slot * 8) (u32 (u64 corr)) w)
