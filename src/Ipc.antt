-- ===== src/Ipc.antt =====
-- The framing of the control socket: sw/libpacketwyrm/src/ipc.c, `read_all`, `write_all`,
-- `pw_ipc_read_frame` and `pw_ipc_write_frame`. What the calls of the system return is a
-- schedule; where it ends, the call does not return.
pub mod Transfers
pub mod RoundTrip
use packet_wyrm.Base.{
  ℕ, zero, suc, ◌+◌, ◌-◌, ◌*◌, ◌^◌, min, Bool, true, false, ◌||◌, List, [], ◌∷◌, ◌++◌, length, take,
  drop, ltb, ◌==◌, if◌then◌else◌, u8, shr, Error,
}

-- One call of `send` or `read`: it moves up to `n + 1` bytes, and at most what is asked for; or it
-- fails with EINTR, or in another way.
pub data Call : Type 0 where
  moves : ℕ → Call
  interrupted failed : Call

-- A transfer that waits for a call, that failed with a status, or that is done, with the calls
-- that are left.
pub data Transfer (A : Type 0) : Type 0 where
  waits : Transfer A
  fails : Error → Transfer A
  done : A → List Call → Transfer A

infixl 5 ◌then◌
abbrev pub ◌then◌ : {A B : Type 0} → Transfer A → (A → List Call → Transfer B) → Transfer B
waits then next = waits
fails e then next = fails e
done a calls then next = next a calls

-- `write_all`: the bytes to write, and those on the wire
unfoldable pub write_all : List Call → List ℕ → List ℕ → Transfer (List ℕ)
write_all calls [] wire = done wire calls
write_all [] (b ∷ p) wire = waits
write_all (interrupted ∷ calls) (b ∷ p) wire = write_all calls (b ∷ p) wire
write_all (failed ∷ calls) (b ∷ p) wire = fails Error.io
write_all (moves n ∷ calls) (b ∷ p) wire = write_all calls (drop n p) (wire ++ b ∷ take n p)

-- what has been read, and what is still on the wire
pub record Read : Type 0 where
  pub buf : List ℕ
  pub wire : List ℕ

-- `read_all`, of `left` bytes; an empty wire is the end of the stream
unfoldable pub read_all : List Call → ℕ → List ℕ → List ℕ → Transfer Read
read_all calls zero buf wire = done (record { buf = buf; wire = wire }) calls
read_all [] (suc left) buf wire = waits
read_all (interrupted ∷ calls) (suc left) buf wire = read_all calls (suc left) buf wire
read_all (failed ∷ calls) (suc left) buf wire = fails Error.io
read_all (moves n ∷ calls) (suc left) buf [] = fails Error.io
read_all (moves n ∷ calls) (suc left) buf (b ∷ wire) =
    let k = min n left in
    read_all calls (left - length (take k wire)) (buf ++ b ∷ take k wire) (drop k wire)

-- `PW_IPC_FRAME_MAX`
abbrev pub frame_max : ℕ
frame_max = 65536

-- the length as four bytes, most significant first
unfoldable pub header : ℕ → List ℕ
header n = u8 (shr n 24) ∷ u8 (shr n 16) ∷ u8 (shr n 8) ∷ u8 n ∷ []

-- `pw_ipc_write_frame`
unfoldable pub write_frame : List Call → List ℕ → List ℕ → Transfer (List ℕ)
unfolding header
write_frame calls buf wire =
    if length buf == 0 || ltb frame_max (length buf)
    then fails Error.out_of_range
    else (write_all calls (header (length buf)) wire then λ sent more. write_all more buf sent)

-- the shifts and ORs of the four bytes of a header
unfoldable pub header_value : List ℕ → ℕ
header_value (a ∷ b ∷ c ∷ d ∷ []) = a * 2 ^ 24 + b * 2 ^ 16 + c * 2 ^ 8 + d
header_value _ = 0

-- `pw_ipc_read_frame`, into a buffer of `buflen` bytes
unfoldable pub read_frame : List Call → ℕ → List ℕ → Transfer Read
unfolding header_value
read_frame calls buflen wire = read_all calls 4 [] wire then λ hdr more.
    let n = header_value hdr.buf in
    if n == 0 || (ltb buflen n || ltb frame_max n)
    then fails Error.out_of_range
    else read_all more n [] hdr.wire
