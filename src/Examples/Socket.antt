-- ===== src/Examples/Socket.antt =====
-- Frames on a control socket.
use packet_wyrm.Base.{ℕ, ◌≡◌, refl, List, [], ◌∷◌, ◌++◌, length, arith}
use packet_wyrm.Ipc.{Call, moves, interrupted, done, write_frame, read_frame, header, write_all}
use packet_wyrm.Ipc.RoundTrip.{write_frame-Enough, read_frame-write_frame}

-- Two bytes, sent and received in pieces, with an interrupted call on each side.
abbrev body : List ℕ
body = 123 ∷ 125 ∷ []

abbrev sends : List Call
sends = moves 1 ∷ interrupted ∷ moves 0 ∷ moves 0 ∷ moves 0 ∷ moves 0 ∷ moves 0 ∷ []

abbrev framed : List ℕ
framed = 0 ∷ 0 ∷ 0 ∷ 2 ∷ 123 ∷ 125 ∷ []

write_frame-Enough_example :
    (more : List Call) × (write_frame sends body []
      ≡ done (([] ++ header (length body)) ++ body) more)
write_frame-Enough_example = write_frame-Enough sends body [] (omega arith) (omega arith) tt

body_written : write_frame sends body [] ≡ done framed (moves 0 ∷ [])
unfolding write_frame write_all
body_written = refl

read_frame-write_frame_example :
    (rest : List Call) × (read_frame sends 16 (framed ++ 9 ∷ [])
      ≡ done (record { buf = body; wire = 9 ∷ [] }) rest)
read_frame-write_frame_example =
    read_frame-write_frame sends sends 16 body (9 ∷ []) body_written (omega arith) tt
