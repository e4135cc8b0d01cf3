-- ===== src/Examples/Quiet.antt =====
-- A blank flash that takes every command at once and reads as zeros: writing zeros to it succeeds.
use packet_wyrm.Base.{
  ℕ, zero, suc, ◌+◌, ◌-◌, ◌*◌, ◌/◌, ◌≡◌, ◌≤◌, refl, ap, ◌∙◌, arith, Bool, true, false, List, [],
  ◌∷◌, ◌++◌, length, take, drop, min, length-take, ltb, leb, ◌||◌, ◌&&◌, if◌then◌else◌, ◌==◌,
  Result, ok,
}
use packet_wyrm.SpiFlash.{
  SpiOps, Run, and_then, ◌>>=◌, le_word, word_bytes_le, write_words, read_words, poll_ready,
  spi_txn, zeros, addr3, sector, flash_sz, chunk_len, flash_read, flash_read_range, mismatches,
  flash_verify_range, flash_program, program_range, wren, warmup, wip, wait_idle, page_program,
  program_rounds, sector_erase, erase_sector, erase_sectors, spi_buf_bytes,
}
use packet_wyrm.SpiFlash.Reads.{Gives}
use packet_wyrm.SpiFlash.Verify.{flash_verify_range-flash_read_range, flash_program_clean}

abbrev D : Type 0
D = Unit

abbrev quiet : SpiOps D
quiet = record { read32 = λ off d. (ok 0, d); write32 = λ off v d. (ok tt, d) }

quiet_writes : (i : ℕ) (tx : List ℕ) (d : D) → Gives (write_words quiet i tx d) tt d
unfolding write_words ◌>>=◌
quiet_writes i [] d = refl
quiet_writes i (a ∷ []) d = refl
quiet_writes i (a ∷ b ∷ []) d = refl
quiet_writes i (a ∷ b ∷ c ∷ []) d = refl
quiet_writes i (a ∷ b ∷ c ∷ e ∷ rest) d = quiet_writes (i + 4) rest d

quiet_reads : (i n : ℕ) (d : D) → Gives (read_words quiet i n d) (zeros n) d
unfolding read_words word_bytes_le zeros ◌>>=◌
quiet_reads i zero d = refl
quiet_reads i (suc zero) d = refl
quiet_reads i (suc (suc zero)) d = refl
quiet_reads i (suc (suc (suc zero))) d = refl
quiet_reads i (suc (suc (suc (suc n)))) d = rw (quiet_reads (i + 4) n d) refl

-- a test that does not hold
skip :
    {A : Type 0} (b : Bool) (left right : Run D A) (d : D)
    → b ≡ false
    → (elim b as (λ x. Run D A) [ true ↦ left | false ↦ right ]) d ≡ right d
skip true left right d h = absurd (cc)
skip false left right d h = refl

-- a command of no more bytes than the engine holds
quiet_txn :
    (tx : List ℕ) (wants_rx : Bool) (d : D)
    → ltb spi_buf_bytes (length tx) ≡ false
    → Gives (spi_txn quiet tx wants_rx false d) (if wants_rx then zeros (length tx) else []) d
unfolding spi_txn poll_ready ◌>>=◌
quiet_txn tx true d h =
    skip (ltb spi_buf_bytes (length tx)) _ _ d h
    ∙ (rw (quiet_writes 0 tx d) (quiet_reads 0 (length tx) d))
quiet_txn tx false d h =
    skip (ltb spi_buf_bytes (length tx)) _ _ d h ∙ (rw (quiet_writes 0 tx d) refl)

length-zeros : (n : ℕ) → length (zeros n) ≡ n
unfolding zeros
length-zeros zero = refl
length-zeros (suc n) = ap suc (length-zeros n)

zeros_append : (k n : ℕ) → k ≤ n → zeros k ++ zeros (n - k) ≡ zeros n
unfolding zeros
zeros_append zero n h = ap zeros (omega arith)
zeros_append (suc k) zero h = absurd (omega arith)
zeros_append (suc k) (suc n) h =
    let e : suc n - suc k ≡ n - k = omega arith in
    ap (λ (l : List ℕ). 0 ∷ l)
      (ap (λ (m : ℕ). zeros k ++ zeros m) e ∙ zeros_append k n (omega arith))

take-zeros : (n : ℕ) → take n (zeros n) ≡ zeros n
unfolding zeros
take-zeros zero = refl
take-zeros (suc n) = ap (λ (l : List ℕ). 0 ∷ l) (take-zeros n)

small : (k : ℕ) → k ≤ 256 → ltb spi_buf_bytes (suc (suc (suc (suc k)))) ≡ false
small k le = ground arith

quiet_page :
    (a : ℕ) (bytes : List ℕ) (d : D)
    → length bytes ≤ 256
    → Gives (page_program quiet a bytes d) tt d
unfolding page_program wren wait_idle wip ◌>>=◌ spi_txn poll_ready write_words read_words
    word_bytes_le le_word
quiet_page a bytes d h =
    let command = quiet_txn (0x02 ∷ (addr3 a ++ bytes)) false d (small (length bytes) h) in
    rw command refl

quiet_erase : (a : ℕ) (d : D) → Gives (sector_erase quiet a d) tt d
unfolding sector_erase wren wait_idle wip ◌>>=◌ spi_txn poll_ready write_words read_words
    word_bytes_le le_word
quiet_erase a d = refl

quiet_read : (a n : ℕ) (d : D) → n ≤ 256 → Gives (flash_read quiet a n d) (zeros n) d
unfolding flash_read ◌>>=◌
quiet_read a n d h =
    let size = length-zeros n in
    let command =
      quiet_txn (0x03 ∷ (addr3 a ++ zeros n)) true d
        (small (length (zeros n)) (omega (arith, size, h))) in
    rw command (
      ap (λ (l : List ℕ). (ok (take n l), d)) (ap zeros size)
      ∙ ap (λ (l : List ℕ). (ok l, d)) (take-zeros n))

quiet_range :
    (fuel a n : ℕ) (d : D) → n ≤ fuel → Gives (flash_read_range quiet fuel a n d) (zeros n) d
unfolding flash_read_range zeros ◌>>=◌
quiet_range fuel a zero d h = refl
quiet_range zero a (suc n) d h = absurd (omega arith)
quiet_range (suc fuel) a (suc n) d h =
    let k : ℕ = min (suc n) 256 in
    rw (quiet_read a k d (omega arith)) (
      rw (quiet_range fuel (a + k) (suc n - k) d (omega arith))
        (ap (λ (l : List ℕ). (ok l, d)) (zeros_append k (suc n) (omega arith))))

quiet_program :
    (fuel a : ℕ) (bytes : List ℕ) (d : D) → Gives (program_rounds quiet fuel a bytes d) tt d
unfolding program_rounds ◌>>=◌
quiet_program fuel a [] d = refl
quiet_program zero a (b ∷ bs) d = refl
quiet_program (suc fuel) a (b ∷ bs) d =
    let n : ℕ = chunk_len a (length (b ∷ bs)) in
    let size = length-take n (b ∷ bs) in
    rw (quiet_page a (take n (b ∷ bs)) d (omega (arith, size)))
      (quiet_program fuel (a + n) (drop n (b ∷ bs)) d)

no_mismatch : (n : ℕ) → mismatches (zeros n) (zeros n) ≡ 0
unfolding mismatches zeros
no_mismatch zero = refl
no_mismatch (suc n) = omega (arith, no_mismatch n)

quiet_verify :
    (fuel a n mism : ℕ) (d : D)
    → n ≤ fuel
    → Gives (flash_verify_range quiet fuel a (zeros n) mism d) mism d
quiet_verify fuel a n mism d h =
    let size = length-zeros n in
    flash_verify_range-flash_read_range quiet fuel a (zeros n) mism d (omega (arith, size, h))
    ∙ (rw (quiet_range fuel a (length (zeros n)) d (omega (arith, size, h)))
        (rw size (ap (λ (m : ℕ). (ok m, d)) (omega (arith, no_mismatch n)))))

both :
    {A : Type 0} (b : Bool) (left right : Run D A) (d : D) (x : A)
    → Gives (left d) x d
    → Gives (right d) x d
    → Gives ((elim b as (λ x. Run D A) [ true ↦ left | false ↦ right ]) d) x d
both true left right d x f g = f
both false left right d x f g = g

both_if :
    {A : Type 0} (b : Bool) (left right : Run D A) (d : D) (x : A)
    → Gives (left d) x d
    → Gives (right d) x d
    → Gives ((if b then left else right) d) x d
both_if true left right d x f g = f
both_if false left right d x f g = g

chain :
    {A B : Type 0} (first : Run D A) (rest : A → Run D B) (d : D) (x : A) {y : B}
    → Gives (first d) x d
    → Gives (rest x d) y d
    → Gives ((first >>= rest) d) y d
unfolding ◌>>=◌
chain first rest d x f g = ap (λ (r : Result _ × D). and_then r rest) f ∙ g

quiet_sector :
    (offset end a mism : ℕ) (d : D) → Gives (erase_sector quiet offset end a mism d) mism d
unfolding erase_sector program_range
quiet_sector offset end a mism d =
    let head : ℕ = offset - a in
    let tail : ℕ = a + sector - end in
    both (head == 0 && tail == 0) _ _ d mism
      (chain (sector_erase quiet a) _ d tt (quiet_erase a d) refl)
      (chain (flash_read_range quiet head a head) _ d (zeros head)
        (quiet_range head a head d (omega arith))
        (chain (flash_read_range quiet tail end tail) _ d (zeros tail)
          (quiet_range tail end tail d (omega arith))
          (chain (sector_erase quiet a) _ d tt (quiet_erase a d) (
            chain (program_range quiet a (zeros head)) _ d tt
              (quiet_program (length (zeros head)) a (zeros head) d)
              (chain (program_range quiet end (zeros tail)) _ d tt
                (quiet_program (length (zeros tail)) end (zeros tail) d)
                (chain (flash_verify_range quiet head a (zeros head) mism) _ d mism
                  (quiet_verify head a head mism d (omega arith))
                  (quiet_verify tail end tail mism d (omega arith))))))))

quiet_sectors :
    (left offset end a mism : ℕ) (d : D)
    → Gives (erase_sectors quiet left offset end a mism d) mism d
unfolding erase_sectors
quiet_sectors zero offset end a mism d = refl
quiet_sectors (suc left) offset end a mism d =
    both_if (ltb a end) _ _ d mism
      (chain (erase_sector quiet offset end a mism) _ d mism (quiet_sector offset end a mism d)
        (quiet_sectors left offset end (a + sector) mism d))
      refl

warmed_up : (d : D) → Gives (warmup quiet d) [] d
unfolding warmup ◌>>=◌ spi_txn poll_ready write_words le_word
warmed_up d = refl

-- Every write of zeros inside the flash succeeds with no mismatch.
quiet_flash :
    (offset n : ℕ) (d : D)
    → (n == 0) ≡ false
    → (leb flash_sz offset || (ltb flash_sz n || ltb flash_sz (offset + n))) ≡ false
    → Gives (flash_program quiet offset (zeros n) d) 0 d
unfolding flash_program program_range
quiet_flash offset n d some_bytes fits =
    let bytes = zeros n in
    let size = length-zeros n in
    let last = offset + length bytes in
    skip (length bytes == 0) _ _ d (rw size some_bytes)
    ∙ (skip (leb flash_sz offset || (ltb flash_sz (length bytes) || ltb flash_sz last)) _ _ d
          (rw size fits)
        ∙ chain (warmup quiet) _ d [] (warmed_up d) (
            chain (erase_sectors quiet 257 offset last (offset / sector * sector) 0) _ d 0
              (quiet_sectors 257 offset last (offset / sector * sector) 0 d)
              (chain (program_range quiet offset bytes) _ d tt
                (quiet_program (length bytes) offset bytes d)
                (quiet_verify (length bytes) offset n 0 d (omega (arith, size))))))

-- Three bytes over the end of the first sector.
flash_program_clean_example :
    (before : D) × Gives
      (flash_read_range quiet (length (zeros 3)) 65534 (length (zeros 3)) before)
      (zeros 3)
      tt
flash_program_clean_example =
    flash_program_clean quiet 65534 (zeros 3) tt tt (quiet_flash 65534 3 tt refl refl)
