-- ===== src/Examples/Sync.antt =====
-- The theorems about the time synchronisation on two small cards.
use packet_wyrm.Base.{ℕ, ◌+◌, ◌*◌, ◌^◌, ◌≡◌, refl, inl, some, none, ◌==◌, if◌then◌else◌, u64, arith}
use packet_wyrm.Programming.Registers.{Registers}
use packet_wyrm.GpioSync.{SyncCard, reg_seq, correction_base, offset_coherent, write_correction}
use packet_wyrm.GpioSync.Window.{FirstStable, offset_coherent-some}
use packet_wyrm.GpioSync.Correction.{storing, write_correction_elsewhere, write_correction_words}

-- The world counts the reads; the third read of the first card shows a new edge.
abbrev early : ℕ → ℕ → ℕ × ℕ
early off n = (if off == reg_seq then (if n == 0 then 4 else 5) else 100, n + 1)

abbrev late : ℕ → ℕ → ℕ × ℕ
late off n = (if off == reg_seq then 5 else 90, n + 1)

abbrev tx_card : SyncCard ℕ
tx_card = record { read32 = some early; write32 = none }

abbrev rx_card : SyncCard ℕ
rx_card = record { read32 = some late; write32 = none }

abbrev ten_edges : ℕ
ten_edges = 10 * 2 ^ 32 + 10

agreed : (offset_coherent tx_card rx_card 0).0 ≡ some ten_edges
unfolding offset_coherent
agreed = refl

offset_coherent-some_example : FirstStable early late 8 0 ten_edges
offset_coherent-some_example =
    offset_coherent-some tx_card rx_card early late 0 ten_edges refl refl agreed

abbrev zeros : Registers
zeros = λ a. 0

write_correction_elsewhere_example : write_correction storing 64 7 zeros 0x0400 ≡ zeros 0x0400
write_correction_elsewhere_example =
    write_correction_elsewhere 64 7 zeros 0x0400 (inl (omega arith))

write_correction_words_example :
    let q = write_correction storing 3 (2 ^ 40 + 1) zeros in
    q (correction_base + 3 * 8) + q (correction_base + 3 * 8 + 4) * 2 ^ 32 ≡ u64 (2 ^ 40 + 1)
write_correction_words_example = write_correction_words 3 (2 ^ 40 + 1) zeros (omega arith)
