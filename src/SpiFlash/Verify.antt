-- ===== src/SpiFlash/Verify.antt =====
-- The reading back of what was written (sw/libpacketwyrm/src/spi_flash.c, `flash_verify_range`).
use packet_wyrm.Base.{
  take-drop, ℕ, zero, suc, ◌+◌, ◌-◌, ◌*◌, ◌/◌, ◌≤◌, ◌≡◌, refl, sym, ap, ◌∙◌, ltb, leb, ◌||◌, ◌==◌,
  if◌then◌else◌, List, [], ◌∷◌, ◌++◌, length, take, drop, min, arith, Result, ok, err, Error,
}
use packet_wyrm.SpiFlash.{
  SpiOps, Run, and_then, ◌>>=◌, return, fail_with, flash_read, flash_read_range, flash_verify_range,
  mismatches, flash_program, erase_sectors, warmup, program_range, sector, flash_sz,
}
use packet_wyrm.SpiFlash.Chunks.{length-take_within, length-drop}
use packet_wyrm.SpiFlash.Reads.{
  and_then-ok, ok_same, device_same, branch, Gives, length-flash_read, length-flash_read_range,
}

and_then-eq_on :
    {D A B : Type 0} (r : Result A × D) (f g : A → Run D B)
    → ((x : A) (d : D) → Gives r x d → f x d ≡ g x d)
    → and_then r f ≡ and_then r g
and_then-eq_on (ok x, d) f g h = h x d refl
and_then-eq_on (err code, d) f g h = refl

and_then_assoc :
    {D A B C : Type 0} (r : Result A × D) (f : A → Run D B) (g : B → Run D C)
    → and_then (and_then r f) g ≡ and_then r (λ x d. and_then (f x d) g)
and_then_assoc (ok x, d) f g = refl
and_then_assoc (err code, d) f g = refl

mismatches_append :
    (xs us ys vs : List ℕ)
    → length xs ≡ length ys
    → mismatches (xs ++ us) (ys ++ vs) ≡ mismatches xs ys + mismatches us vs
unfolding mismatches
mismatches_append [] us [] vs h = omega arith
mismatches_append [] us (y ∷ ys) vs h = absurd (omega arith)
mismatches_append (x ∷ xs) us [] vs h = absurd (omega arith)
mismatches_append (x ∷ xs) us (y ∷ ys) vs h =
    omega (arith, mismatches_append xs us ys vs (omega arith))

head_same : (x y rest : ℕ) → (if x == y then 0 else 1) + rest ≡ 0 → x ≡ y
head_same x y rest h = ground arith

mismatches_none : (xs ys : List ℕ) → length xs ≡ length ys → mismatches xs ys ≡ 0 → xs ≡ ys
unfolding mismatches
mismatches_none [] [] h none_seen = refl
mismatches_none [] (y ∷ ys) h none_seen = absurd (omega arith)
mismatches_none (x ∷ xs) [] h none_seen = absurd (omega arith)
mismatches_none (x ∷ xs) (y ∷ ys) h none_seen =
    let same = head_same x y _ none_seen in
    let rest = mismatches_none xs ys (omega arith) (omega (arith, none_seen)) in cc

joined :
    {D : Type 0} (r : Result (List ℕ) × D) (mism : ℕ) (head t u bytes : List ℕ)
    → length head ≡ length t
    → bytes ≡ t ++ u
    → and_then r (λ rb. return (mism + mismatches head t + mismatches rb u))
      ≡ and_then
          (and_then r (λ rest. return (head ++ rest)))
          (λ rb. return (mism + mismatches rb bytes))
joined (ok rest, d) mism head t u bytes size e =
    let sum = mismatches_append head rest t u size in
    ap (λ (m : ℕ). return m d)
      (ap (λ (m : ℕ). m) (omega (arith, sum))
        ∙ ap (λ (l : List ℕ). mism + mismatches (head ++ rest) l) (sym e))
joined (err code, d) mism head t u bytes size e = refl

-- Verifying a range is reading it and comparing what was read with what is expected.
pub flash_verify_range-flash_read_range :
    {D : Type 0} (o : SpiOps D) (fuel a : ℕ) (bytes : List ℕ) (mism : ℕ) (d : D)
    → length bytes ≤ fuel
    → flash_verify_range o fuel a bytes mism d
      ≡ and_then
          (flash_read_range o fuel a (length bytes) d)
          (λ rb. return (mism + mismatches rb bytes))
unfolding flash_verify_range flash_read_range ◌>>=◌
flash_verify_range-flash_read_range o fuel a [] mism d enough =
    ap (λ (m : ℕ). return m d) (omega arith)
flash_verify_range-flash_read_range o zero a (b ∷ bs) mism d enough = absurd (omega arith)
flash_verify_range-flash_read_range {D} o (suc fuel) a (b ∷ bs) mism d enough =
    let bytes = b ∷ bs in
    let n : ℕ = min (suc (length bs)) 256 in
    let left : length (drop n bytes) ≡ suc (length bs) - n = length-drop n bytes in
    let whole = λ (rb : List ℕ). return (mism + mismatches rb bytes) in
    let tail : List ℕ → Run D (List ℕ) = λ head.
      flash_read_range o fuel (a + n) (suc (length bs) - n) >>= λ rest. return (head ++ rest) in
    and_then-eq_on (flash_read o a n d) _ (λ head d1. and_then (tail head d1) whole)
      (λ head d1 e.
        let size = length-flash_read o a n d d1 head e in
        flash_verify_range-flash_read_range o fuel (a + n) (drop n bytes)
          (mism + mismatches head (take n bytes)) d1 (omega (arith, left))
        ∙ (ap
              (λ (k : ℕ). and_then (flash_read_range o fuel (a + n) k d1) (λ rb.
                return (mism + mismatches head (take n bytes) + mismatches rb (drop n bytes))))
              left
            ∙ joined (flash_read_range o fuel (a + n) (suc (length bs) - n) d1) mism head
                (take n bytes) (drop n bytes) bytes
                (size ∙ sym (length-take_within n bytes (omega arith))) (sym (take-drop n bytes))))
    ∙ sym (and_then_assoc (flash_read o a n d) tail whole)

-- A verification that adds no mismatch has read exactly the expected bytes from the device, however
-- the device behaves: the same calls, made to read the range, give those bytes.
pub flash_verify_range_clean :
    {D : Type 0} (o : SpiOps D) (a : ℕ) (bytes : List ℕ) (mism seen : ℕ) (d d' : D)
    → seen ≤ mism
    → Gives (flash_verify_range o (length bytes) a bytes mism d) seen d'
    → Gives (flash_read_range o (length bytes) a (length bytes) d) bytes d'
flash_verify_range_clean o a bytes mism seen d d' clean h =
    let verified =
      sym (flash_verify_range-flash_read_range o (length bytes) a bytes mism d (omega arith)) ∙ h in
    let got = and_then-ok (flash_read_range o (length bytes) a (length bytes) d) _ verified in
    let size =
      length-flash_read_range o (length bytes) a (length bytes) d got.between got.value
        (omega arith) got.first in
    let sum = ok_same _ _ _ _ got.rest in
    let same = mismatches_none got.value bytes size (omega (arith, sum, clean)) in
    let device = device_same _ _ _ _ got.rest in cc

-- A flash that is reported as written with 0 mismatches gave back all the bytes when it was read at
-- the end, however the device behaves.
pub flash_program_clean :
    {D : Type 0} (o : SpiOps D) (offset : ℕ) (bytes : List ℕ) (d d' : D)
    → Gives (flash_program o offset bytes d) 0 d'
    → (before : D) × Gives (flash_read_range o (length bytes) offset (length bytes) before) bytes d'
unfolding flash_program ◌>>=◌
flash_program_clean o offset bytes d d' h =
    branch (length bytes == 0) (fail_with Error.inval) _ d (λ e. absurd (cc))
      (λ e.
        branch
          (leb flash_sz offset
            || (ltb flash_sz (length bytes) || ltb flash_sz (offset + length bytes)))
          (fail_with Error.out_of_range) _ d (λ e. absurd (cc))
          (λ e.
            let warm = and_then-ok (warmup o d) _ e in
            let erased =
              and_then-ok
                (erase_sectors o 257 offset (offset + length bytes) (offset / sector * sector) 0
                  warm.between)
                _ warm.rest in
            let written = and_then-ok (program_range o offset bytes erased.between) _ erased.rest in
            (
              written.between,
              flash_verify_range_clean o offset bytes erased.value 0 written.between d'
                  (omega arith) written.rest,
            ))
          e)
      h
