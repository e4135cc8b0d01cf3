-- ===== src/SpiFlash/Chunks.antt =====
-- The pages that a write is cut into (sw/libpacketwyrm/src/spi_flash.c, `program_range`).
use packet_wyrm.Base.{
  take-drop, ℕ, zero, suc, ◌+◌, ◌-◌, ◌%◌, ◌≤◌, ◌<◌, ◌≡◌, refl, sym, ap, subst, ◌∙◌, List, [], ◌∷◌,
  ◌++◌, length, take, drop, arith, Result, ok, err,
}
use packet_wyrm.SpiFlash.{
  SpiOps, Run, and_then, ◌>>=◌, return, page, chunk_len, page_program, program_rounds,
  program_range,
}

-- one page program
pub record Chunk : Type 0 where
  pub place : ℕ
  pub bytes : List ℕ

-- the chunks programmed one after the other
unfoldable pub program_all : {D : Type 0} → SpiOps D → List Chunk → Run D (Unit {0})
program_all o [] = return tt
program_all o (c ∷ cs) = page_program o (c.place) (c.bytes) >>= λ done. program_all o cs

-- The chunks are the bytes from `a` on, in order, each of them inside one page.
abbrev pub Cut : ℕ → List ℕ → List Chunk → Type 0
Cut a bytes [] = bytes ≡ []
Cut a bytes (c ∷ cs) =
    (c.place ≡ a)
    × ((0 < length c.bytes)
        × ((a % page + length c.bytes ≤ page)
            × ((rest : List ℕ) × ((bytes ≡ c.bytes ++ rest) × Cut (a + length c.bytes) rest cs))))

pub length-take_within : (n : ℕ) (xs : List ℕ) → n ≤ length xs → length (take n xs) ≡ n
length-take_within zero xs h = refl
length-take_within (suc n) [] h = absurd (omega arith)
length-take_within (suc n) (x ∷ xs) h = ap suc (length-take_within n xs (omega arith))

pub length-drop : (n : ℕ) (xs : List ℕ) → length (drop n xs) ≡ length xs - n
length-drop zero xs = omega arith
length-drop (suc n) [] = omega arith
length-drop (suc n) (x ∷ xs) = length-drop n xs ∙ omega arith

-- A chunk of a write that is not empty has a byte, and no more than are left.
chunk_len_bounds :
    (a k : ℕ)
    → (0 < chunk_len a (suc k))
      × ((chunk_len a (suc k) ≤ suc k) × (a % page + chunk_len a (suc k) ≤ page))
chunk_len_bounds a k = (omega arith, (omega arith, omega arith))

pub and_then-eq :
    {D A B : Type 0} (r : Result A × D) (f g : A → Run D B)
    → ((x : A) (d : D) → f x d ≡ g x d)
    → and_then r f ≡ and_then r g
and_then-eq (ok x, d) f g h = h x d
and_then-eq (err code, d) f g h = refl

-- what `program_range-Cut` states of a number of rounds
record Programs {D : Type 0} (o : SpiOps D) (fuel a : ℕ) (bytes : List ℕ) : Type 0 where
  pub chunks : List Chunk
  pub cut : Cut a bytes chunks
  pub same : (d : D) → program_rounds o fuel a bytes d ≡ program_all o chunks d

rounds_lem :
    {D : Type 0} (o : SpiOps D) (fuel a : ℕ) (bytes : List ℕ)
    → length bytes ≤ fuel
    → Programs o fuel a bytes
unfolding program_rounds program_all ◌>>=◌
rounds_lem o fuel a [] enough = record { chunks = []; cut = refl; same = λ d. refl }
rounds_lem o zero a (b ∷ bs) enough = absurd (omega arith)
rounds_lem o (suc fuel) a (b ∷ bs) enough =
    let n = chunk_len a (length (b ∷ bs)) in
    let bounds = chunk_len_bounds a (length bs) in
    let size = length-take_within n (b ∷ bs) bounds.1.0 in
    let left = length-drop n (b ∷ bs) in
    let more = rounds_lem o fuel (a + n) (drop n (b ∷ bs)) (omega (arith, bounds.0, left)) in
    record {
      chunks = record { place = a; bytes = take n (b ∷ bs) } ∷ more.chunks;
      cut = (
        refl,
        (
          omega (arith, size, bounds.0),
          (
            omega (arith, size, bounds.1.1),
            (
              drop n (b ∷ bs),
              (
                sym (take-drop n (b ∷ bs)),
                subst (λ (m : ℕ). Cut (a + m) (drop n (b ∷ bs)) more.chunks) (sym size) more.cut,
              ),
            ),
          ),
        ),
      );
      same = λ d. and_then-eq (page_program o a (take n (b ∷ bs)) d) _ _ (λ done d1. more.same d1);
    }

-- Programming a range is programming pages, for every device: the bytes are cut into chunks that
-- follow one another from the first address on, are not empty, never cross the end of a page, and
-- together are all the bytes; and the call does what programming the chunks in their order does.
pub program_range-Cut :
    {D : Type 0} (o : SpiOps D) (a : ℕ) (bytes : List ℕ)
    → (chunks : List Chunk) × (Cut a bytes chunks
        × ((d : D) → program_range o a bytes d ≡ program_all o chunks d))
unfolding program_range
program_range-Cut o a bytes =
    let all = rounds_lem o (length bytes) a bytes (omega arith) in (all.chunks, (all.cut, all.same))
