-- ===== src/Ipc/RoundTrip.antt =====
-- Frames: what is written is read back, and a frame that is too long is refused.
use mathlib.Core.List.{append_assoc}
use packet_wyrm.Base.{
  ℕ, ◌+◌, ◌^◌, ◌≤◌, ◌<◌, ◌≡◌, ◌⊎◌, refl, ap, ◌∙◌, true, false, ◌||◌, List, [], ◌++◌, length, take,
  drop, take_append, drop_append, ltb, ◌==◌, if◌then◌else◌, length-append, arith, Bool-cases, inl,
  inr, Error,
}
use packet_wyrm.Ipc.{
  Call, Transfer, waits, fails, done, ◌then◌, write_all, Read, frame_max, header, write_frame,
  header_value, read_frame,
}
use packet_wyrm.Ipc.Transfers.{Enough, write_all-done, write_all-Enough, read_all-Enough}

header_value-header : (n : ℕ) → n < 2 ^ 32 → header_value (header n) ≡ n
unfolding header_value header
header_value-header n small = omega arith

-- A length that both sides accept.
unfits : (limit n : ℕ) → 1 ≤ n → n ≤ limit → (n == 0 || ltb limit n) ≡ false
unfits limit n pos le = ground arith

-- With calls that move at least once for each byte before one fails, a frame of 1 to 65536 bytes
-- is written, and the wire has its length in four bytes and the bytes behind what it had.
pub write_frame-Enough :
    (calls : List Call) (buf wire : List ℕ)
    → 1 ≤ length buf
    → length buf ≤ 65536
    → Enough (4 + length buf) calls
    → (more : List Call) × (write_frame calls buf wire
        ≡ done ((wire ++ header (length buf)) ++ buf) more)
unfolding write_frame
write_frame-Enough calls buf wire pos le enough =
    let fits = unfits 65536 (length buf) pos le in
    let (mid, head, rest) =
      write_all-Enough calls (header (length buf)) wire (length buf) (4 + length buf)
        (header_room (length buf)) enough in
    let (more, body, _) =
      write_all-Enough mid buf (wire ++ header (length buf)) 0 (length buf) (omega arith) rest in
    (more, rw fits (rw head body))
  where
    header_room : (n : ℕ) → length (header n) + n ≤ 4 + n
    header_room n = omega arith

then-done :
    {A B : Type 0} (t : Transfer A) (next : A → List Call → Transfer B) {b : B} {more : List Call}
    → (t then next) ≡ done b more
    → (a : A) × (mid : List Call) × (t ≡ done a mid) × (next a mid ≡ done b more)
then-done waits next h = cc
then-done (fails e) next h = cc
then-done (done a mid) next h = (a, mid, refl, h)

-- What a frame that is written leaves on the wire.
write_frame-done :
    (calls : List Call) (buf wire : List ℕ) {out : List ℕ} {more : List Call}
    → write_frame calls buf wire ≡ done out more
    → (1 ≤ length buf) × (length buf ≤ 65536) × (out ≡ (wire ++ header (length buf)) ++ buf)
unfolding write_frame
write_frame-done calls buf wire h =
    elim (Bool-cases (length buf == 0 || ltb frame_max (length buf))) [
      | inl bad ↦ absurd (cc (rw bad at h))
      | inr fits ↦
          let (sent, mid, head, body) =
            then-done (write_all calls (header (length buf)) wire)
              (λ sent more. write_all more buf sent) (rw fits at h) in
          (
            ground arith,
            ground arith,
            write_all-done mid buf sent body
                ∙ ap (λ (w : List ℕ). w ++ buf)
                    (write_all-done calls (header (length buf)) wire head),
          )
    ]

four_there : (n : ℕ) (rest : List ℕ) → 4 ≤ length (header n ++ rest)
unfolding header
four_there n rest = omega arith

take-header : (n : ℕ) (rest : List ℕ) → take 4 (header n ++ rest) ≡ header n
unfolding header
take-header n rest = refl

drop-header : (n : ℕ) (rest : List ℕ) → drop 4 (header n ++ rest) ≡ rest
unfolding header
drop-header n rest = refl

-- A frame on the wire is read.
read_frame-Enough :
    (calls : List Call) (buflen : ℕ) (buf later : List ℕ)
    → 1 ≤ length buf
    → length buf ≤ 65536
    → length buf ≤ buflen
    → Enough (4 + length buf) calls
    → (more : List Call) × (read_frame calls buflen (header (length buf) ++ (buf ++ later))
        ≡ done (record { buf = buf; wire = later }) more)
unfolding read_frame
read_frame-Enough calls buflen buf later pos le room enough =
    let n : ℕ = length buf in
    let (mid, head, rest) =
      read_all-Enough calls 4 [] (header n ++ (buf ++ later)) n (4 + n) (omega arith)
        (four_there n (buf ++ later)) enough in
    let (more, body, _) =
      read_all-Enough mid n [] (buf ++ later) 0 n (omega arith)
        (omega (arith, length-append buf later)) rest in
    let value : header_value (header n) ≡ n = header_value-header n (omega arith) in
    let fits : (n == 0 || (ltb buflen n || ltb frame_max n)) ≡ false = ground arith in
    let read : ◌≡◌ {A = Read} (record { buf = take n (buf ++ later); wire = drop n (buf ++ later) })
        (record { buf = buf; wire = later }) =
      rw (take_append buf later) (rw (drop_append buf later) refl) in
    (
      more,
      rw head (
          rw (take-header n (buf ++ later)) (
            rw (drop-header n (buf ++ later))
              (rw value (rw fits (body ∙ ap (λ (r : Read). done r more) read))))),
    )

-- Round trip: when a frame has been written on an empty wire, a reader with room for it, whose
-- calls move at least once for each byte before one fails, gets exactly the bytes of the frame,
-- however the calls split them, and leaves what was sent later.
pub read_frame-write_frame :
    (calls reads : List Call) (buflen : ℕ) (buf later : List ℕ) {wire : List ℕ} {more : List Call}
    → write_frame calls buf [] ≡ done wire more
    → length buf ≤ buflen
    → Enough (4 + length buf) reads
    → (rest : List Call) × (read_frame reads buflen (wire ++ later)
        ≡ done (record { buf = buf; wire = later }) rest)
read_frame-write_frame calls reads buflen buf later written room enough =
    let (pos, le, out) = write_frame-done calls buf [] written in
    let (rest, read) = read_frame-Enough reads buflen buf later pos le room enough in
    (rest, rw out (rw (append_assoc (header (length buf)) buf later) read))

-- A header that announces no bytes, or more than the buffer or a frame can hold, is refused with
-- PW_E_OUT_OF_RANGE once its four bytes are read.
pub read_frame-out_of_range :
    (reads : List Call) (buflen n : ℕ) (rest : List ℕ)
    → n < 2 ^ 32
    → (n ≡ 0) ⊎ ((buflen < n) ⊎ (65536 < n))
    → Enough 4 reads
    → read_frame reads buflen (header n ++ rest) ≡ fails Error.out_of_range
unfolding read_frame
read_frame-out_of_range reads buflen n rest small bad enough =
    let (mid, head, _) =
      read_all-Enough reads 4 [] (header n ++ rest) 0 4 (omega arith) (four_there n rest) enough in
    let refused : (n == 0 || (ltb buflen n || ltb frame_max n)) ≡ true = ground arith in
    rw head (
      rw (take-header n rest)
        (rw (drop-header n rest) (rw (header_value-header n small) (rw refused refl))))
