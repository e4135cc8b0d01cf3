-- ===== src/SpiFlash.antt =====
-- The flash of the board over the SPI engine of the card: sw/libpacketwyrm/src/spi_flash.c. `D` is
-- the device behind `ctx`; the two register operations are a parameter and are there. Addresses are
-- below 2^24 once `pw_flash_program` has tested its range, so that their sums do not wrap.
pub mod Chunks
pub mod Reads
pub mod Verify
use packet_wyrm.Base.{
  ℕ, zero, suc, ◌+◌, ◌-◌, ◌*◌, ◌/◌, ◌%◌, ◌^◌, Bool, true, false, ◌&&◌, ◌||◌, bit_and, bit_or, shl,
  shr, u8, List, [], ◌∷◌, ◌++◌, length, take, drop, get_or, if◌then◌else◌, ltb, leb, ◌==◌, min,
  Error, Result, Status, ok, err,
}

pub record SpiOps (D : Type 0) : Type 0 where
  pub read32 : ℕ → D → Result ℕ × D
  pub write32 : ℕ → ℕ → D → Status × D

-- a call that uses the device and may fail
abbrev pub Run : Type 0 → Type 0 → Type 0
Run D A = D → Result A × D

abbrev pub and_then : {D A B : Type 0} → Result A × D → (A → Run D B) → Result B × D
and_then (ok a, d) next = next a d
and_then (err code, d) next = (err code, d)

infixl 5 ◌>>=◌ ◌>>◌
-- `if (s != PW_OK) return s;` between two calls
unfoldable pub ◌>>=◌ : {D A B : Type 0} → Run D A → (A → Run D B) → Run D B
◌>>=◌ first next d = and_then (first d) next

abbrev pub ◌>>◌ : {D A B : Type 0} → Run D A → Run D B → Run D B
first >> next = first >>= λ done. next

abbrev pub return : {D A : Type 0} → A → Run D A
return a d = (ok a, d)

abbrev pub fail_with : {D A : Type 0} → Error → Run D A
fail_with code d = (err code, d)

abbrev pub reg_spi_ctrl : ℕ
reg_spi_ctrl = 0x0800

abbrev pub reg_spi_len : ℕ
reg_spi_len = 0x0804

abbrev pub spi_txbuf : ℕ
spi_txbuf = 0x0900

abbrev pub spi_rxbuf : ℕ
spi_rxbuf = 0x0B00

abbrev pub spi_buf_bytes : ℕ
spi_buf_bytes = 512

abbrev pub sector : ℕ
sector = 0x10000

abbrev pub page : ℕ
page = 256

abbrev pub flash_sz : ℕ
flash_sz = 0x1000000

-- up to four bytes as one word, the first in the low bits
unfoldable pub le_word : List ℕ → ℕ
le_word [] = 0
le_word (b ∷ bs) = b + 256 * le_word bs

-- the first `n` of the four bytes of a word
unfoldable pub word_bytes_le : ℕ → ℕ → List ℕ
word_bytes_le zero d = []
word_bytes_le (suc n) d = d % 256 ∷ word_bytes_le n (d / 256)

-- `addr3`
abbrev pub addr3 : ℕ → List ℕ
addr3 a = bit_and (shr a 16) 0xFF ∷ bit_and (shr a 8) 0xFF ∷ bit_and a 0xFF ∷ []

-- the bytes that are left of the page of an address, or of the write
abbrev pub chunk_len : ℕ → ℕ → ℕ
chunk_len a left = min left (page - a % page)

-- the bytes that differ
unfoldable pub mismatches : List ℕ → List ℕ → ℕ
mismatches (x ∷ xs) (y ∷ ys) = (if x == y then 0 else 1) + mismatches xs ys
mismatches [] ys = 0
mismatches (x ∷ xs) [] = 0

-- zeros behind a read command
unfoldable pub zeros : ℕ → List ℕ
zeros zero = []
zeros (suc n) = 0 ∷ zeros n

module _ {D : Type 0} (o : SpiOps D) where
  -- the loop that fills TXBUF from byte `i` on
  unfoldable pub write_words : ℕ → List ℕ → Run D (Unit {0})
  unfolding le_word
  write_words i [] = return tt
  write_words i (a ∷ []) = o.write32 (spi_txbuf + i) (le_word (a ∷ []))
  write_words i (a ∷ b ∷ []) = o.write32 (spi_txbuf + i) (le_word (a ∷ b ∷ []))
  write_words i (a ∷ b ∷ c ∷ []) = o.write32 (spi_txbuf + i) (le_word (a ∷ b ∷ c ∷ []))
  write_words i (a ∷ b ∷ c ∷ e ∷ rest) =
      o.write32 (spi_txbuf + i) (le_word (a ∷ b ∷ c ∷ e ∷ [])) >> write_words (i + 4) rest

  -- the loop that reads `n` bytes of RXBUF from byte `i` on
  unfoldable pub read_words : ℕ → ℕ → Run D (List ℕ)
  unfolding word_bytes_le
  read_words i zero = return []
  read_words i (suc (suc (suc (suc n)))) = o.read32 (spi_rxbuf + i) >>= λ d.
      read_words (i + 4) n >>= λ rest. return (word_bytes_le 4 d ++ rest)
  read_words i n = o.read32 (spi_rxbuf + i) >>= λ d. return (word_bytes_le n d)

  -- the loop on the busy bit
  unfoldable pub poll_ready : ℕ → ℕ → Bool → Run D (List ℕ)
  unfolding read_words
  poll_ready zero n wants_rx = fail_with Error.io
  poll_ready (suc spins) n wants_rx = o.read32 reg_spi_ctrl >>= λ st. elim (bit_and st 1 == 0) [
    | true ↦ elim wants_rx [ true ↦ read_words 0 n | false ↦ return [] ]
    | false ↦ poll_ready spins n wants_rx
  ]

  unfoldable pub spi_txn : List ℕ → Bool → Bool → Run D (List ℕ)
  unfolding write_words poll_ready
  spi_txn tx wants_rx cs_hold = elim (ltb spi_buf_bytes (length tx)) [
    | true ↦ fail_with Error.inval
    | false ↦
        write_words 0 tx
        >> (o.write32 reg_spi_len (length tx)
            >> (o.write32 reg_spi_ctrl (bit_or 1 (if cs_hold then 2 else 0))
                >> poll_ready 2000000 (length tx) wants_rx))
  ]

  unfoldable pub warmup : Run D (List ℕ)
  unfolding spi_txn
  warmup = spi_txn (0x05 ∷ 0x00 ∷ []) false false

  unfoldable pub wren : Run D (List ℕ)
  unfolding spi_txn
  wren = spi_txn (0x06 ∷ []) false false

  -- `wip`, whose -1 is an error
  unfoldable pub wip : Run D ℕ
  unfolding spi_txn
  wip = spi_txn (0x05 ∷ 0x00 ∷ []) true false >>= λ r. return (bit_and (get_or r 1 0) 1)

  -- `wait_idle`, with the rounds that are left
  unfoldable pub wait_idle : ℕ → Run D (Unit {0})
  unfolding wip
  wait_idle zero d = (err Error.io, d)
  wait_idle (suc rounds) d =
      let rest = wait_idle rounds in
      let (w, d1) = wip d in
      elim w [
        | err code ↦ (err Error.io, d1)
        | ok busy ↦ (if busy == 0 then (ok tt, d1) else rest d1)
      ]

  unfoldable pub sector_erase : ℕ → Run D (Unit {0})
  unfolding wren wait_idle spi_txn
  sector_erase a = wren >> (spi_txn (0xD8 ∷ addr3 a) false false >> wait_idle 4000000)

  unfoldable pub page_program : ℕ → List ℕ → Run D (Unit {0})
  unfolding wren wait_idle spi_txn
  page_program a data_ =
      wren >> (spi_txn (0x02 ∷ (addr3 a ++ data_)) false false >> wait_idle 4000000)

  -- `flash_read`: what follows the four bytes of the command
  unfoldable pub flash_read : ℕ → ℕ → Run D (List ℕ)
  unfolding spi_txn zeros
  flash_read a len =
      spi_txn (0x03 ∷ (addr3 a ++ zeros len)) true false >>= λ r. return (take len (drop 4 r))

  -- `flash_read_range`; each round reads a byte at least, so `len` rounds are enough
  unfoldable pub flash_read_range : ℕ → ℕ → ℕ → Run D (List ℕ)
  unfolding flash_read
  flash_read_range fuel a zero = return []
  flash_read_range zero a (suc len) = return []
  flash_read_range (suc fuel) a (suc len) =
      let n = min (suc len) 256 in
      flash_read a n >>= λ head.
      flash_read_range fuel (a + n) (suc len - n) >>= λ rest. return (head ++ rest)

  -- `program_range`; each round programs a byte at least, so one round for each byte is enough
  unfoldable pub program_rounds : ℕ → ℕ → List ℕ → Run D (Unit {0})
  unfolding page_program
  program_rounds fuel a [] = return tt
  program_rounds zero a (b ∷ bs) = return tt
  program_rounds (suc fuel) a (b ∷ bs) =
      let n = chunk_len a (length (b ∷ bs)) in
      page_program a (take n (b ∷ bs)) >> program_rounds fuel (a + n) (drop n (b ∷ bs))

  unfoldable pub program_range : ℕ → List ℕ → Run D (Unit {0})
  unfolding program_rounds
  program_range a data_ = program_rounds (length data_) a data_

  -- `flash_verify_range`, on `*mism`
  unfoldable pub flash_verify_range : ℕ → ℕ → List ℕ → ℕ → Run D ℕ
  unfolding flash_read mismatches
  flash_verify_range fuel a [] mism = return mism
  flash_verify_range zero a (b ∷ bs) mism = return mism
  flash_verify_range (suc fuel) a (b ∷ bs) mism =
      let n = min (length (b ∷ bs)) 256 in
      flash_read a n >>= λ rb.
      flash_verify_range fuel (a + n) (drop n (b ∷ bs)) (mism + mismatches rb (take n (b ∷ bs)))

  -- `pw_flash_read_id`
  unfoldable pub flash_read_id : Run D (List ℕ)
  unfolding warmup spi_txn
  flash_read_id =
      warmup
      >> (spi_txn (0x9F ∷ 0 ∷ 0 ∷ 0 ∷ []) true false >>= λ r.
          return (get_or r 1 0 ∷ get_or r 2 0 ∷ get_or r 3 0 ∷ []))

  -- one round of the loop over the sectors, at the sector `a`
  unfoldable pub erase_sector : ℕ → ℕ → ℕ → ℕ → Run D ℕ
  unfolding sector_erase flash_read_range program_range flash_verify_range
  erase_sector offset end a mism =
      let head = offset - a in
      let tail = a + sector - end in
      elim (head == 0 && tail == 0) [
        | true ↦ sector_erase a >> return mism
        | false ↦ flash_read_range head a head >>= λ keep_head.
            flash_read_range tail end tail >>= λ keep_tail.
            sector_erase a
            >> (program_range a keep_head
                >> (program_range end keep_tail
                    >> (flash_verify_range head a keep_head mism >>= λ seen.
                        flash_verify_range tail end keep_tail seen)))
      ]

  -- the loop, over the sectors that are left
  unfoldable pub erase_sectors : ℕ → ℕ → ℕ → ℕ → ℕ → Run D ℕ
  unfolding erase_sector
  erase_sectors zero offset end a mism = return mism
  erase_sectors (suc left) offset end a mism =
      if ltb a end
      then erase_sector offset end a mism >>= erase_sectors left offset end (a + sector)
      else return mism

  -- `pw_flash_program`, which returns the mismatches
  unfoldable pub flash_program : ℕ → List ℕ → Run D ℕ
  unfolding warmup erase_sectors program_range flash_verify_range
  flash_program offset data_ = elim (length data_ == 0) [
    | true ↦ fail_with Error.inval
    | false ↦
        elim (leb flash_sz offset
          || (ltb flash_sz (length data_) || ltb flash_sz (offset + length data_))) [
            | true ↦ fail_with Error.out_of_range
            | false ↦
                let end = offset + length data_ in
                warmup
                >> (erase_sectors 257 offset end (offset / sector * sector) 0 >>= λ mism.
                    program_range offset data_
                    >> flash_verify_range (length data_) offset data_ mism)
          ]
  ]
