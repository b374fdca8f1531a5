-- ===== src/Sandbox/Framing.antt =====
-- services/ray/sandbox/protocol.py: length-prefixed frames on a stream that the socket delivers in
-- pieces of its own choice.
pub mod Pieces
pub mod Delivery
use ndif.Prelude.{
  ℕ, zero, suc, ◌+◌, ◌-◌, ◌<◌, ◌≤◌, ◌≡◌, refl, ap, sym, Bool, true, false, List, [], ◌∷◌, ◌++◌, All,
  length, take, ltb, leb, ◌==◌, if◌then◌else◌, Bool-cases, inl, inr, arith,
}
use ndif.Prelude.Results.{Result, ok, raise, connection_error, ◌>>=◌}
use ndif.Sandbox.Bytes.{Bytes, drop_bytes, pack_word, unpack_word}

-- What is still to arrive before the peer closes, in the pieces that single calls of `recv` see.
abbrev pub Stream : Type 0
Stream = List Bytes

unfoldable pub bytes_of : Stream → Bytes
bytes_of [] = []
bytes_of (piece ∷ pieces) = piece ++ bytes_of pieces

-- `sock.recv(n)`: at most `n` bytes of the next piece, and none once the peer has closed.
unfoldable pub recv : ℕ → Stream → Bytes × Stream
recv n [] = ([], [])
recv n (piece ∷ pieces) =
    if leb (length piece) n then (piece, pieces) else (take n piece, drop_bytes n piece ∷ pieces)

-- The loop of `recvn`, which has at most `n` rounds, since each appends a byte or raises.
unfoldable pub recvn_loop : ℕ → ℕ → Bytes → Stream → Result (Bytes × Stream)
recvn_loop zero n buffer stream =
    if ltb (length buffer) n then raise connection_error else ok (buffer, stream)
recvn_loop (suc rounds) n buffer stream =
    let got = recv (n - length buffer) stream in
    let rest = recvn_loop rounds n (buffer ++ got.0) got.1 in
    if ltb (length buffer) n
    then (if length got.0 == 0 then raise connection_error else rest)
    else ok (buffer, stream)

unfoldable pub recvn : ℕ → Stream → Result (Bytes × Stream)
recvn n stream = recvn_loop n n [] stream

-- What `sendall` is given.
unfoldable pub send_frame : Bytes → Result Bytes
send_frame body = pack_word 8 (length body) >>= (λ size. ok (size ++ body))

unfoldable pub recv_frame : Stream → Result (Bytes × Stream)
recv_frame stream =
    recvn 8 stream >>= (λ (header, body). unpack_word 8 header >>= (λ size. recvn size body))
