-- ===== src/Ipc/Transfers.antt =====
-- The loops of the transfers: what they move, and that enough calls finish them.
use mathlib.Core.List.{append_assoc, append-nil}
use packet_wyrm.Base.{
  take-drop, length-take-drop, ℕ, zero, suc, ◌+◌, ◌-◌, ◌≤◌, min, ◌≡◌, refl, sym, ap, subst, ◌∙◌,
  List, [], ◌∷◌, ◌++◌, length, take, drop, arith,
}
use packet_wyrm.Ipc.{Call, moves, interrupted, failed, Transfer, done, write_all, Read, read_all}

-- The calls move something at least so many times before one of them fails.
abbrev pub Enough : ℕ → List Call → Type 0
Enough zero calls = Unit
Enough (suc n) [] = ⊥
Enough (suc n) (moves k ∷ calls) = Enough n calls
Enough (suc n) (interrupted ∷ calls) = Enough (suc n) calls
Enough (suc n) (failed ∷ calls) = ⊥

pub Enough-le : (m n : ℕ) (calls : List Call) → m ≤ n → Enough n calls → Enough m calls
Enough-le zero n calls le enough = tt
Enough-le (suc m) zero calls le enough = absurd (omega arith)
Enough-le (suc m) (suc n) [] le enough = enough
Enough-le (suc m) (suc n) (moves k ∷ calls) le enough = Enough-le m n calls (omega arith) enough
Enough-le (suc m) (suc n) (interrupted ∷ calls) le enough =
    Enough-le (suc m) (suc n) calls le enough
Enough-le (suc m) (suc n) (failed ∷ calls) le enough = enough

module _ {A : Type 0} where
  length-drop : (n : ℕ) (xs : List A) → length (drop n xs) ≤ length xs
  length-drop zero xs = omega arith
  length-drop (suc n) [] = omega arith
  length-drop (suc n) (x ∷ xs) = omega (arith, length-drop n xs)

  -- Taking in two parts.
  take_parts :
      (k n : ℕ) (xs : List A)
      → k ≤ n
      → take k xs ++ take (n - length (take k xs)) (drop k xs) ≡ take n xs
  take_parts zero n xs le = let e : n - 0 ≡ n = omega arith in rw e refl
  take_parts (suc k) zero xs le = absurd (omega arith)
  take_parts (suc k) (suc n) [] le = let e : suc n - 0 ≡ suc n = omega arith in rw e refl
  take_parts (suc k) (suc n) (x ∷ xs) le =
      let e : suc n - suc (length (take k xs)) ≡ n - length (take k xs) = omega arith in
      rw e (ap (λ (t : List A). x ∷ t) (take_parts k n xs (omega arith)))

  drop_parts :
      (k n : ℕ) (xs : List A) → k ≤ n → drop (n - length (take k xs)) (drop k xs) ≡ drop n xs
  drop_parts zero n xs le = let e : n - 0 ≡ n = omega arith in rw e refl
  drop_parts (suc k) zero xs le = absurd (omega arith)
  drop_parts (suc k) (suc n) [] le = let e : suc n - 0 ≡ suc n = omega arith in rw e refl
  drop_parts (suc k) (suc n) (x ∷ xs) le =
      let e : suc n - suc (length (take k xs)) ≡ n - length (take k xs) = omega arith in
      rw e (drop_parts k n xs (omega arith))

-- One call of `send` puts a part of the bytes on the wire, and leaves the rest.
sent_part : (n b : ℕ) (p wire : List ℕ) → (wire ++ b ∷ take n p) ++ drop n p ≡ wire ++ b ∷ p
sent_part n b p wire =
    append_assoc wire (b ∷ take n p) (drop n p) ∙ ap (λ (t : List ℕ). wire ++ b ∷ t) (take-drop n p)

read_part :
    (k left b : ℕ) (buf wire : List ℕ)
    → k ≤ left
    → ◌≡◌ {A = Read}
        (record {
          buf = (buf ++ b ∷ take k wire) ++ take (left - length (take k wire)) (drop k wire);
          wire = drop (left - length (take k wire)) (drop k wire);
        })
        (record { buf = buf ++ b ∷ take left wire; wire = drop left wire })
read_part k left b buf wire le =
    let bytes : (buf ++ b ∷ take k wire) ++ take (left - length (take k wire)) (drop k wire)
        ≡ buf ++ b ∷ take left wire =
      append_assoc buf (b ∷ take k wire) _
      ∙ ap (λ (t : List ℕ). buf ++ b ∷ t) (take_parts k left wire le) in
    let rest = drop_parts k left wire le in rw bytes (rw rest refl)

-- A write that is done has put the bytes on the wire, behind what was there.
pub write_all-done :
    (calls : List Call) (p wire : List ℕ) {out : List ℕ} {more : List Call}
    → write_all calls p wire ≡ done out more
    → out ≡ wire ++ p
unfolding write_all
write_all-done calls [] wire h = rw append-nil (cc)
write_all-done [] (b ∷ p) wire h = cc
write_all-done (interrupted ∷ calls) (b ∷ p) wire h = write_all-done calls (b ∷ p) wire h
write_all-done (failed ∷ calls) (b ∷ p) wire h = cc
write_all-done (moves n ∷ calls) (b ∷ p) wire h =
    write_all-done calls (drop n p) (wire ++ b ∷ take n p) h ∙ sent_part n b p wire

abbrev pub Finishes : {A : Type 0} → Transfer A → A → ℕ → Type 0
Finishes t a extra = (more : List Call) × (t ≡ done a more) × Enough extra more

-- Enough calls finish a write, and leave the calls beyond.
pub write_all-Enough :
    (calls : List Call) (p wire : List ℕ) (extra total : ℕ)
    → length p + extra ≤ total
    → Enough total calls
    → Finishes (write_all calls p wire) (wire ++ p) extra
unfolding write_all
write_all-Enough calls [] wire extra total le enough = (
  calls,
  ap (λ (w : List ℕ). done w calls) (sym (append-nil wire)),
  Enough-le extra total calls (omega arith) enough,
)
write_all-Enough calls (b ∷ p) wire extra zero le enough = absurd (omega arith)
write_all-Enough [] (b ∷ p) wire extra (suc total) le enough = absurd enough
write_all-Enough (interrupted ∷ calls) (b ∷ p) wire extra (suc total) le enough =
    write_all-Enough calls (b ∷ p) wire extra (suc total) le enough
write_all-Enough (failed ∷ calls) (b ∷ p) wire extra (suc total) le enough = absurd enough
write_all-Enough (moves n ∷ calls) (b ∷ p) wire extra (suc total) le enough =
    subst (λ w. Finishes (write_all calls (drop n p) (wire ++ b ∷ take n p)) w extra)
      (sent_part n b p wire)
      (write_all-Enough calls (drop n p) (wire ++ b ∷ take n p) extra total
        (omega (arith, length-drop n p)) enough)

-- Enough calls finish a read of bytes that are on the wire.
pub read_all-Enough :
    (calls : List Call) (left : ℕ) (buf wire : List ℕ) (extra total : ℕ)
    → left + extra ≤ total
    → left ≤ length wire
    → Enough total calls
    → Finishes
        (read_all calls left buf wire)
        (record { buf = buf ++ take left wire; wire = drop left wire })
        extra
unfolding read_all
read_all-Enough calls zero buf wire extra total le there enough = (
  calls,
  ap (λ (b : List ℕ). done (record { buf = b; wire = wire }) calls) (sym (append-nil buf)),
  Enough-le extra total calls (omega arith) enough,
)
read_all-Enough calls (suc left) buf wire extra zero le there enough = absurd (omega arith)
read_all-Enough [] (suc left) buf wire extra (suc total) le there enough = absurd enough
read_all-Enough (interrupted ∷ calls) (suc left) buf wire extra (suc total) le there enough =
    read_all-Enough calls (suc left) buf wire extra (suc total) le there enough
read_all-Enough (failed ∷ calls) (suc left) buf wire extra (suc total) le there enough =
    absurd enough
read_all-Enough (moves n ∷ calls) (suc left) buf [] extra (suc total) le there enough =
    absurd (omega arith)
read_all-Enough (moves n ∷ calls) (suc left) buf (b ∷ wire) extra (suc total) le there enough =
    let k : ℕ = min n left in
    let moved = length-take-drop k wire in
    subst
      (λ r.
        Finishes
          (read_all calls (left - length (take k wire)) (buf ++ b ∷ take k wire) (drop k wire)) r
          extra)
      (read_part k left b buf wire (omega arith))
      (read_all-Enough calls (left - length (take k wire)) (buf ++ b ∷ take k wire) (drop k wire)
        extra total (omega arith) (omega arith) enough)
