-- ===== src/Sandbox/Framing/Pieces.antt =====
-- services/ray/sandbox/protocol.py: the loop of `recvn` over the pieces of a stream.
use mathlib.Core.Path.{subst}
use ndif.Prelude.{
  ℕ, zero, suc, ◌+◌, ◌-◌, ◌<◌, ◌≤◌, ◌≡◌, refl, ap, sym, ◌∙◌, [], ◌∷◌, ◌++◌, All, length, take, ltb,
  leb, ◌==◌, Bool-cases, inl, inr, arith,
}
use ndif.Prelude.Results.{Result, ok, raise, connection_error, Returns}
use ndif.Sandbox.Bytes.{
  Bytes, drop_bytes, length-append, append_assoc, append_nil, take-drop_bytes, length-take,
  length-drop_bytes, take_past, drop_bytes_past,
}
use ndif.Sandbox.Framing.{Stream, bytes_of, recv, recvn_loop, recvn}

-- No call of `recv` sees an empty piece before the peer closes.
abbrev pub Live : Stream → Type 0
Live stream = All (λ piece. 0 < length piece) stream

-- The call returned these bytes, with the rest still to arrive.
abbrev pub Delivered : Result (Bytes × Stream) → Bytes → Bytes → Type 0
Delivered call got rest =
    Returns call (λ reply. (reply.0 ≡ got) × ((bytes_of reply.1 ≡ rest) × Live reply.1))

-- What `recv` gives and what it leaves make up what was to arrive.
recv-bytes_of :
    (n : ℕ) (stream : Stream) → (recv n stream).0 ++ bytes_of (recv n stream).1 ≡ bytes_of stream
unfolding recv bytes_of
recv-bytes_of n [] = refl
recv-bytes_of n (piece ∷ pieces) = elim (Bool-cases (leb (length piece) n)) [
  | inl e ↦ rw e refl
  | inr e ↦ rw e (
      rw
        (
          sym (append_assoc (take n piece) (drop_bytes n piece) (bytes_of pieces)),
          take-drop_bytes n piece,
        )
        refl)
]

recv_le : (n : ℕ) (stream : Stream) → length (recv n stream).0 ≤ n
unfolding recv
recv_le n [] = omega arith
recv_le n (piece ∷ pieces) = ground (arith, length-take n piece)

recv-Live : (n : ℕ) (stream : Stream) → Live stream → Live (recv n stream).1
unfolding recv
recv-Live n [] live = tt
recv-Live n (piece ∷ pieces) live = elim (Bool-cases (leb (length piece) n)) [
  | inl e ↦ rw e live.1
  | inr e ↦ rw e (ground (arith, length-drop_bytes n piece), live.1)
]

recv-progress :
    (n : ℕ) (stream : Stream)
    → 0 < n
    → Live stream
    → 0 < length (bytes_of stream)
    → 0 < length (recv n stream).0
unfolding recv bytes_of
recv-progress n [] pos live h = absurd (omega arith)
recv-progress n (piece ∷ pieces) pos live h = ground (arith, length-take n piece, live.0)

-- With the buffer full the loop is done.
loop-full :
    (rounds n : ℕ) (buffer : Bytes) (stream : Stream)
    → length buffer ≡ n
    → recvn_loop rounds n buffer stream ≡ ok (buffer, stream)
unfolding recvn_loop
loop-full zero n buffer stream h = ground arith
loop-full (suc rounds) n buffer stream h = ground arith

loop-next :
    (rounds n : ℕ) (buffer : Bytes) (stream : Stream)
    → length buffer < n
    → 0 < length (recv (n - length buffer) stream).0
    → recvn_loop (suc rounds) n buffer stream
      ≡ recvn_loop rounds n
          (buffer ++ (recv (n - length buffer) stream).0)
          (recv (n - length buffer) stream).1
unfolding recvn_loop
loop-next rounds n buffer stream h k = ground arith

loop-closed :
    (rounds n : ℕ) (buffer : Bytes) (stream : Stream)
    → length buffer < n
    → length (recv (n - length buffer) stream).0 ≡ 0
    → recvn_loop (suc rounds) n buffer stream ≡ raise connection_error
unfolding recvn_loop
loop-closed rounds n buffer stream h k = ground arith

-- The loop ends with what it had and the bytes that it lacked.
abbrev Collected : ℕ → ℕ → Bytes → Stream → Type 0
Collected rounds n buffer stream =
    Delivered (recvn_loop rounds n buffer stream)
      (buffer ++ take (n - length buffer) (bytes_of stream))
      (drop_bytes (n - length buffer) (bytes_of stream))

loop-full-Collected :
    (rounds n : ℕ) (buffer : Bytes) (stream : Stream)
    → Live stream
    → length buffer ≡ n
    → Collected rounds n buffer stream
loop-full-Collected rounds n buffer stream live h =
    let nothing : n - length buffer ≡ 0 = omega arith in
    rw nothing (
      (buffer, stream),
      loop-full rounds n buffer stream h,
      (sym (append_nil buffer), (refl, live)),
    )

-- Enough bytes arrive: the loop collects them, however they are cut.
loop-long :
    (rounds n : ℕ) (buffer : Bytes) (stream : Stream)
    → Live stream
    → n ≤ length buffer + rounds
    → length buffer ≤ n
    → n ≤ length buffer + length (bytes_of stream)
    → Collected rounds n buffer stream
loop-long zero n buffer stream live fuel le enough =
    loop-full-Collected zero n buffer stream live (omega arith)
loop-long (suc rounds) n buffer stream live fuel le enough =
    elim (Bool-cases (ltb (length buffer) n)) [
      | inr e ↦ loop-full-Collected (suc rounds) n buffer stream live (ground arith)
      | inl e ↦
          let need = n - length buffer in
          let less : length buffer < n = ground arith in
          let got = recv need stream in
          let some_bytes : 0 < length got.0 =
            recv-progress need stream (omega arith) live (omega arith) in
          let split = recv-bytes_of need stream in
          let fits = recv_le need stream in
          let joined = length-append buffer got.0 in
          let total : length (bytes_of stream) ≡ length got.0 + length (bytes_of got.1) =
            ap length (sym split) ∙ length-append got.0 (bytes_of got.1) in
          let shift : need - length got.0 ≡ n - length (buffer ++ got.0) = omega arith in
          let rest =
            loop-long rounds n (buffer ++ got.0) got.1 (recv-Live need stream live) (omega arith)
              (omega arith) (omega arith) in
          rw (loop-next rounds n buffer stream less some_bytes) (
            rw
              (
                sym split,
                take_past need got.0 (bytes_of got.1) fits,
                drop_bytes_past need got.0 (bytes_of got.1) fits,
                sym (append_assoc buffer got.0 (take (need - length got.0) (bytes_of got.1))),
                shift,
              )
              rest)
    ]

pub recvn-long :
    (n : ℕ) (stream : Stream)
    → Live stream
    → n ≤ length (bytes_of stream)
    → Delivered (recvn n stream) (take n (bytes_of stream)) (drop_bytes n (bytes_of stream))
unfolding recvn
recvn-long n stream live enough =
    let whole : n - 0 ≡ n = omega arith in
    subst
      (λ k.
        Delivered (recvn_loop n n [] stream) (take k (bytes_of stream))
          (drop_bytes k (bytes_of stream)))
      whole (loop-long n n [] stream live (omega arith) (omega arith) (omega arith))

-- Too few bytes arrive: the loop meets the end of the stream.
loop-short :
    (rounds n : ℕ) (buffer : Bytes) (stream : Stream)
    → Live stream
    → n ≤ length buffer + rounds
    → length buffer + length (bytes_of stream) < n
    → recvn_loop rounds n buffer stream ≡ raise connection_error
loop-short zero n buffer stream live fuel short = absurd (omega arith)
loop-short (suc rounds) n buffer stream live fuel short =
    let need = n - length buffer in
    let less : length buffer < n = omega arith in
    let got = recv need stream in
    let joined = length-append buffer got.0 in
    let total : length (bytes_of stream) ≡ length got.0 + length (bytes_of got.1) =
      ap length (sym (recv-bytes_of need stream)) ∙ length-append got.0 (bytes_of got.1) in
    elim (Bool-cases (length got.0 == 0)) [
      | inl e ↦ loop-closed rounds n buffer stream less (ground arith)
      | inr e ↦
          loop-next rounds n buffer stream less (ground arith)
          ∙ loop-short rounds n (buffer ++ got.0) got.1 (recv-Live need stream live) (ground arith)
              (omega arith)
    ]

pub recvn-short :
    (n : ℕ) (stream : Stream)
    → Live stream
    → length (bytes_of stream) < n
    → recvn n stream ≡ raise connection_error
unfolding recvn
recvn-short n stream live short = loop-short n n [] stream live (omega arith) (omega arith)
