-- ===== src/SpiFlash/Reads.antt =====
-- How many bytes the reads of the flash give (sw/libpacketwyrm/src/spi_flash.c), and what a call that
-- succeeded has come through.
use packet_wyrm.Base.{
  ℕ, zero, suc, ◌+◌, ◌-◌, ◌/◌, ◌≤◌, ◌≡◌, refl, sym, ap, ◌∙◌, Bool, true, false, ltb, ◌==◌, List,
  ◌∷◌, ◌++◌, length, drop, min, bit_and, arith, Result, ok, err, Error, length-append,
}
use packet_wyrm.SpiFlash.{
  SpiOps, Run, and_then, ◌>>=◌, return, fail_with, read_words, word_bytes_le, poll_ready, spi_txn,
  write_words, addr3, zeros, flash_read, flash_read_range, spi_rxbuf, reg_spi_ctrl, reg_spi_len,
  spi_buf_bytes,
}
use packet_wyrm.SpiFlash.Chunks.{length-take_within, length-drop}

-- What a chain that gives a value did: its first call and the rest of it.
pub record Came {D A B : Type 0} (r : Result A × D) (f : A → Run D B) (b : B) (d : D) : Type 0 where
  pub value : A
  pub between : D
  pub first : r ≡ (ok value, between)
  pub rest : f value between ≡ (ok b, d)

pub and_then-ok :
    {D A B : Type 0} (r : Result A × D) (f : A → Run D B) {b : B} {d : D}
    → and_then r f ≡ (ok b, d)
    → Came r f b d
and_then-ok (ok x, d1) f h = record { value = x; between = d1; first = refl; rest = h }
and_then-ok (err code, d1) f h = absurd (cc)

-- a call that gave `x` and left the device `d`
abbrev pub Gives : {D A : Type 0} → Result A × D → A → D → Type 0
Gives r x d = r ≡ (ok x, d)

pub ok_same : {D A : Type 0} (x y : A) (d e : D) → Gives (ok x, d) y e → x ≡ y
ok_same x y d e h = cc

pub device_same : {D A : Type 0} (x y : A) (d e : D) → Gives (ok x, d) y e → d ≡ e
device_same x y d e h = cc

length-word_bytes_le : (n d : ℕ) → length (word_bytes_le n d) ≡ n
unfolding word_bytes_le
length-word_bytes_le zero d = refl
length-word_bytes_le (suc n) d = ap suc (length-word_bytes_le n (d / 256))

short_read :
    {D : Type 0} (r : Result ℕ × D) (n : ℕ) {bytes : List ℕ} {d' : D}
    → Gives (and_then r (λ w. return (word_bytes_le n w))) bytes d'
    → length bytes ≡ n
short_read r n h =
    let word = and_then-ok r _ h in
    sym (ap length (ok_same _ _ _ _ word.rest)) ∙ length-word_bytes_le n word.value

length-read_words :
    {D : Type 0} (o : SpiOps D) (i n : ℕ) (d d' : D) (r : List ℕ)
    → read_words o i n d ≡ (ok r, d')
    → length r ≡ n
unfolding read_words ◌>>=◌
length-read_words o i zero d d' r h = sym (ap length (ok_same _ _ _ _ h))
length-read_words o i (suc zero) d d' r h = short_read (o.read32 (spi_rxbuf + i) d) 1 h
length-read_words o i (suc (suc zero)) d d' r h = short_read (o.read32 (spi_rxbuf + i) d) 2 h
length-read_words o i (suc (suc (suc zero))) d d' r h = short_read (o.read32 (spi_rxbuf + i) d) 3 h
length-read_words o i (suc (suc (suc (suc n)))) d d' r h =
    let word = and_then-ok (o.read32 (spi_rxbuf + i) d) _ h in
    let more = and_then-ok (read_words o (i + 4) n word.between) _ word.rest in
    let tail = length-read_words o (i + 4) n word.between more.between more.value more.first in
    let all = ap length (ok_same _ _ _ _ more.rest) in
    let four = length-word_bytes_le 4 word.value in
    sym all ∙ (length-append (word_bytes_le 4 word.value) more.value ∙ omega arith)

pub branch :
    {D A : Type 0} (b : Bool) (left right : Run D A) (before : D) {P : Type 0} {r : A} {d : D}
    → (Gives (left before) r d → P)
    → (Gives (right before) r d → P)
    → Gives ((elim b as (λ x. Run D A) [ true ↦ left | false ↦ right ]) before) r d
    → P
branch true left right before f g h = f h
branch false left right before f g h = g h

length-poll_ready :
    {D : Type 0} (o : SpiOps D) (spins n : ℕ) (d d' : D) (r : List ℕ)
    → Gives (poll_ready o spins n true d) r d'
    → length r ≡ n
unfolding poll_ready ◌>>=◌
length-poll_ready o zero n d d' r h = absurd (cc)
length-poll_ready o (suc spins) n d d' r h =
    let st = and_then-ok (o.read32 reg_spi_ctrl d) _ h in
    branch (bit_and st.value 1 == 0) (read_words o 0 n) (poll_ready o spins n true) st.between
      (λ e. length-read_words o 0 n st.between d' r e)
      (λ e. length-poll_ready o spins n st.between d' r e) st.rest

length-spi_txn :
    {D : Type 0} (o : SpiOps D) (tx : List ℕ) (hold : Bool) (d d' : D) (r : List ℕ)
    → Gives (spi_txn o tx true hold d) r d'
    → length r ≡ length tx
unfolding spi_txn ◌>>=◌
length-spi_txn o tx hold d d' r h =
    branch (ltb spi_buf_bytes (length tx)) (fail_with Error.inval) _ d (λ e. absurd (cc))
      (λ e.
        let words = and_then-ok (write_words o 0 tx d) _ e in
        let len = and_then-ok (o.write32 reg_spi_len (length tx) words.between) _ words.rest in
        let go = and_then-ok (o.write32 reg_spi_ctrl _ len.between) _ len.rest in
        length-poll_ready o 2000000 (length tx) go.between d' r go.rest)
      h

length-zeros : (n : ℕ) → length (zeros n) ≡ n
unfolding zeros
length-zeros zero = refl
length-zeros (suc n) = ap suc (length-zeros n)

-- A read of the flash gives as many bytes as it is asked for.
pub length-flash_read :
    {D : Type 0} (o : SpiOps D) (a n : ℕ) (d d' : D) (r : List ℕ)
    → Gives (flash_read o a n d) r d'
    → length r ≡ n
unfolding flash_read ◌>>=◌
length-flash_read o a n d d' r h =
    let got = and_then-ok (spi_txn o (0x03 ∷ (addr3 a ++ zeros n)) true false d) _ h in
    let size =
      length-spi_txn o (0x03 ∷ (addr3 a ++ zeros n)) false d got.between got.value got.first in
    let asked = length-zeros n in
    let behind = length-drop 4 got.value in
    sym (ap length (ok_same _ _ _ _ got.rest))
    ∙ length-take_within n (drop 4 got.value) (omega (arith, size, asked, behind))

-- A range that is read has as many bytes as are asked for.
pub length-flash_read_range :
    {D : Type 0} (o : SpiOps D) (fuel a n : ℕ) (d d' : D) (r : List ℕ)
    → n ≤ fuel
    → Gives (flash_read_range o fuel a n d) r d'
    → length r ≡ n
unfolding flash_read_range ◌>>=◌
length-flash_read_range o fuel a zero d d' r enough h = sym (ap length (ok_same _ _ _ _ h))
length-flash_read_range o zero a (suc n) d d' r enough h = absurd (omega arith)
length-flash_read_range o (suc fuel) a (suc n) d d' r enough h =
    let k : ℕ = min (suc n) 256 in
    let head = and_then-ok (flash_read o a k d) _ h in
    let tail = and_then-ok (flash_read_range o fuel (a + k) (suc n - k) head.between) _ head.rest in
    let size = length-flash_read o a k d head.between head.value head.first in
    let more =
      length-flash_read_range o fuel (a + k) (suc n - k) head.between tail.between tail.value
        (omega arith) tail.first in
    sym (ap length (ok_same _ _ _ _ tail.rest))
    ∙ (length-append head.value tail.value ∙ omega (arith, size, more))
