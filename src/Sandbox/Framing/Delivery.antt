-- ===== src/Sandbox/Framing/Delivery.antt =====
-- services/ray/sandbox/protocol.py: what arrives of the frames on a stream.
use ndif.Prelude.{
  ℕ, ◌-◌, ◌<◌, ◌≤◌, ◌≡◌, refl, ap, ◌∙◌, ◌++◌, length, take, ltb, Bool-cases, inl, inr, arith,
}
use ndif.Prelude.Results.{ok, raise, connection_error, struct_error}
use ndif.Sandbox.Bytes.{
  Bytes, capacity, digits, pack_word, length-append, length-digits, unpack_word-digits, take-append,
  drop_bytes-append, append_assoc, length-take, take_past,
}
use ndif.Sandbox.Framing.{Stream, bytes_of, recvn, send_frame, recv_frame}
use ndif.Sandbox.Framing.Pieces.{Live, Delivered, recvn-long, recvn-short}

-- The bytes that are asked for stand in front.
recvn-front :
    (n : ℕ) (front rest : Bytes) (stream : Stream)
    → Live stream
    → length front ≡ n
    → bytes_of stream ≡ front ++ rest
    → Delivered (recvn n stream) front rest
recvn-front n front rest stream live size e =
    let reached = recvn-long n stream live (omega (arith, ap length e, length-append front rest)) in
    rw (e, take-append n front rest size, drop_bytes-append n front rest size) at reached

-- A frame holds the length and the body, where the length fits in eight bytes.
send_frame-inversion :
    (body frame : Bytes)
    → send_frame body ≡ ok frame
    → (length body < capacity 8) × (frame ≡ digits 8 (length body) ++ body)
unfolding send_frame pack_word
send_frame-inversion body frame h = elim (Bool-cases (ltb (length body) (capacity 8))) [
  | inl e ↦
      let sent : ok (digits 8 (length body) ++ body) ≡ ok frame = rw e at h in (ground arith, cc)
  | inr e ↦ let failed : raise struct_error ≡ ok frame = rw e at h in absurd cc
]

recv_frame-of :
    (body rest : Bytes) (stream : Stream)
    → length body < capacity 8
    → Live stream
    → bytes_of stream ≡ digits 8 (length body) ++ (body ++ rest)
    → Delivered (recv_frame stream) body rest
unfolding recv_frame
recv_frame-of body rest stream fits live e =
    let (reply, h, (got, (left, live'))) =
      recvn-front 8 (digits 8 (length body)) (body ++ rest) stream live
        (length-digits 8 (length body)) e in
    rw (h, got, unpack_word-digits 8 (length body) fits)
      (recvn-front (length body) body rest reply.1 live' refl left)

-- A frame comes out of `recv_frame` as it went into `send_frame`, however the socket cuts the
-- stream, and what was sent after it is still to arrive.
pub recv_frame-send_frame :
    (body frame rest : Bytes) (stream : Stream)
    → send_frame body ≡ ok frame
    → Live stream
    → bytes_of stream ≡ frame ++ rest
    → Delivered (recv_frame stream) body rest
recv_frame-send_frame body frame rest stream sent live e =
    let (fits, shape) = send_frame-inversion body frame sent in
    recv_frame-of body rest stream fits live
      (e ∙ (ap (λ t. t ++ rest) shape ∙ append_assoc (digits 8 (length body)) body rest))

-- A peer that closes before the last byte of a frame, inside the length or the body, leaves
-- `recv_frame` with a `ConnectionError`.
pub recv_frame-cut :
    (body frame : Bytes) (n : ℕ) (stream : Stream)
    → send_frame body ≡ ok frame
    → n < length frame
    → Live stream
    → bytes_of stream ≡ take n frame
    → recv_frame stream ≡ raise connection_error
unfolding recv_frame
recv_frame-cut body frame n stream sent cut live e =
    let (fits, shape) = send_frame-inversion body frame sent in
    let size = length-digits 8 (length body) in
    let arrived = length-take n frame (omega arith) in
    let total = length-append (digits 8 (length body)) body in
    elim (Bool-cases (ltb n 8)) [
      | inl s ↦ rw (recvn-short 8 stream live (ground (arith, ap length e))) refl
      | inr s ↦
          let past : 8 ≤ n = ground arith in
          let front =
            e ∙ (ap (take n) shape ∙ take_past n (digits 8 (length body)) body (ground arith)) in
          let (reply, h, (got, (left, live'))) =
            recvn-front 8 (digits 8 (length body)) (take (n - length (digits 8 (length body))) body)
              stream live size front in
          let missing =
            length-take (n - length (digits 8 (length body))) body
              (omega (arith, ap length shape)) in
          rw (h, got, unpack_word-digits 8 (length body) fits)
            (recvn-short (length body) reply.1 live'
              (omega (arith, ap length left, ap length shape)))
    ]
