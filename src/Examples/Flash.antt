-- ===== src/Examples/Flash.antt =====
-- A flash that reads back 4, 5, 6, 7 behind a command, and counts the register writes.
use packet_wyrm.Base.{ℕ, ◌+◌, ◌≡◌, refl, List, [], ◌∷◌, if◌then◌else◌, ◌==◌, ok, err, Error}
use packet_wyrm.SpiFlash.{
  SpiOps, ◌>>=◌, spi_rxbuf, le_word, word_bytes_le, write_words, read_words, poll_ready, spi_txn,
  zeros, flash_read, mismatches, flash_verify_range, flash_program, program_range, wren, wip,
  wait_idle, page_program, program_rounds,
}
use packet_wyrm.SpiFlash.Chunks.{Chunk, Cut, program_all, program_range-Cut}
use packet_wyrm.SpiFlash.Reads.{Gives}

abbrev counting : SpiOps ℕ
counting = record {
  read32 = λ off d. (ok (if off == spi_rxbuf + 4 then 0x07060504 else 0), d);
  write32 = λ off v d. (ok tt, d + 1);
}

abbrev stored : List ℕ
stored = 4 ∷ 5 ∷ 6 ∷ []

verified : Gives (flash_verify_range counting 3 0x100 stored 0 0) 0 4
unfolding ◌>>=◌ le_word word_bytes_le write_words read_words poll_ready spi_txn zeros flash_read
    mismatches flash_verify_range
verified = refl

program_range-Cut_example :
    (chunks : List Chunk) × (Cut 254 stored chunks
      × ((d : ℕ) → program_range counting 254 stored d ≡ program_all counting chunks d))
program_range-Cut_example = program_range-Cut counting 254 stored

-- three bytes over the end of a page take two page programs, of three commands each
programmed : Gives (program_range counting 254 stored 0) tt 20
unfolding ◌>>=◌ le_word word_bytes_le write_words read_words poll_ready spi_txn wren wip wait_idle
    page_program program_rounds program_range
programmed = refl

-- A range that leaves the 16 MB is refused before any access.
refused : flash_program counting 0xFFFFFF stored 0 ≡ (err Error.out_of_range, 0)
unfolding flash_program
refused = refl
