-- ===== src/Sandbox/Channel.antt =====
-- services/ray/sandbox/protocol.py: `Channel`, one direction of a socket. A channel's own
-- `map_location` is read by subclasses alone; its `recv` leaves tensors where their sender had them.
use ndif.Prelude.{
  ℕ, zero, suc, ◌≡◌, refl, ap, sym, ◌∙◌, Option, none, List, [], ◌∷◌, ◌++◌, map, length,
}
use ndif.Prelude.Results.{Result, ok, ◌>>=◌, >>=-eq-ok}
use ndif.Sandbox.Bytes.{Bytes, append_assoc}
use ndif.Sandbox.Framing.{Stream, bytes_of, send_frame, recv_frame}
use ndif.Sandbox.Framing.Pieces.{Live}
use ndif.Sandbox.Framing.Delivery.{recv_frame-send_frame}
use ndif.Sandbox.Codec.{Value, Torch, encode, decode}
use ndif.Sandbox.Codec.Blobs.{Rebuilds, arrived, decode-encode}

module _ {T Place : Type 0} (torch : Torch T Place) where
  -- What the socket is given.
  unfoldable pub send : Value T → Result Bytes
  send value = encode torch value >>= send_frame

  unfoldable pub recv : Stream → Result (Value T × Stream)
  recv stream =
      recv_frame stream
      >>= (λ (blob, later). decode torch none blob >>= (λ value. ok (value, later)))

  -- A peer that sends one value after the other, and one that reads as many.
  unfoldable pub send_all : List (Value T) → Result Bytes
  send_all [] = ok []
  send_all (value ∷ values) =
      send value >>= (λ sent. send_all values >>= (λ rest. ok (sent ++ rest)))

  unfoldable pub recv_all : ℕ → Stream → Result (List (Value T) × Stream)
  recv_all zero stream = ok ([], stream)
  recv_all (suc count) stream =
      recv stream
      >>= (λ (value, later). recv_all count later >>= (λ (values, last). ok (value ∷ values, last)))

module _ {T Place : Type 0} (torch : Torch T Place) (moved : Option Place → T → T)
    (rebuilds : Rebuilds torch moved) where
  recv-send :
      (value : Value T) (sent rest : Bytes) (stream : Stream)
      → send torch value ≡ ok sent
      → Live stream
      → bytes_of stream ≡ sent ++ rest
      → (later : Stream) × (recv torch stream ≡ ok (arrived (moved none) value, later))
        × (bytes_of later ≡ rest)
        × Live later
  unfolding send recv
  recv-send value sent rest stream h live e =
      let (blob, f, f') = >>=-eq-ok (encode torch value) send_frame h in
      let ((body, later), g, (same, (left, live'))) =
        recv_frame-send_frame blob sent rest stream f' live e in
      (later, rw (g, same, decode-encode torch moved rebuilds none value blob f) refl, left, live')

  -- A peer that reads as many values as were sent gets them one by one as they were sent, with
  -- tensors where the sender had them, whatever pieces the socket delivers the frames in, and what
  -- was sent after them is still to arrive, where `torch.load` rebuilds what `torch.save` wrote.
  pub recv_all-send_all :
      (values : List (Value T)) (sent rest : Bytes) (stream : Stream)
      → send_all torch values ≡ ok sent
      → Live stream
      → bytes_of stream ≡ sent ++ rest
      → (later : Stream) × (recv_all torch (length values) stream
          ≡ ok (map (arrived (moved none)) values, later))
        × (bytes_of later ≡ rest)
        × Live later
  unfolding send_all recv_all
  recv_all-send_all [] sent rest stream h live e =
      let nothing : [] ≡ sent = cc in (stream, refl, e ∙ ap (λ t. t ++ rest) (sym nothing), live)
  recv_all-send_all (value ∷ values) sent rest stream h live e =
      let (front, f, f') =
        >>=-eq-ok (send torch value)
          (λ front. send_all torch values >>= (λ more. ok (front ++ more))) h in
      let (more, g, g') = >>=-eq-ok (send_all torch values) (λ more. ok (front ++ more)) f' in
      let shape : sent ≡ front ++ more = cc in
      let (later, got, left, live') =
        recv-send value front (more ++ rest) stream f live
          (e ∙ (ap (λ t. t ++ rest) shape ∙ append_assoc front more rest)) in
      let (last, got', left', live'') = recv_all-send_all values more rest later g live' left in
      (last, rw (got, got') refl, left', live'')
