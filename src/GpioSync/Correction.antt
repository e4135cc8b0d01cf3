-- ===== src/GpioSync/Correction.antt =====
-- The latency correction of a slot, on a card that stores what is written.
use packet_wyrm.Base.{ℕ, ◌+◌, ◌*◌, ◌^◌, ◌≡◌, ◌≢◌, ◌≤◌, ◌<◌, ◌⊎◌, some, u64, arith}
use packet_wyrm.Compiler.Tables.{flow_table_rows}
use packet_wyrm.Programming.{win_flowid_map}
use packet_wyrm.Programming.Registers.{Registers, poke}
use packet_wyrm.GpioSync.{SyncCard, correction_base, write_correction}

abbrev pub storing : SyncCard Registers
storing = record { read32 = some (λ off r. (r off, r)); write32 = some poke }

-- Writing the correction of a slot leaves a register as it is when the flow table does not have the
-- slot, when the register is neither of the slot's two words, or when it lies in the flow-id map or
-- behind it.
pub write_correction_elsewhere :
    (slot corr : ℕ) (r : Registers) (a : ℕ)
    → (flow_table_rows ≤ slot)
      ⊎ (((a ≢ correction_base + slot * 8) × (a ≢ correction_base + slot * 8 + 4))
          ⊎ (win_flowid_map ≤ a))
    → write_correction storing slot corr r a ≡ r a
unfolding write_correction
write_correction_elsewhere slot corr r a h = ground arith

-- The two words of a slot that the flow table has hold the 64 bits of the correction.
pub write_correction_words :
    (slot corr : ℕ) (r : Registers)
    → slot < flow_table_rows
    → let q = write_correction storing slot corr r in
      q (correction_base + slot * 8) + q (correction_base + slot * 8 + 4) * 2 ^ 32 ≡ u64 corr
unfolding write_correction
write_correction_words slot corr r h = ground arith
