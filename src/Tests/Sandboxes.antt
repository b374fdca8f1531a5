-- ===== src/Tests/Sandboxes.antt =====
-- The theorems of sandbox/protocol.py at work on short messages.
use ndif.Prelude.{
  among, ℕ, ◌≡◌, ◌<◌, refl, ap, sym, true, Option, none, List, [], ◌∷◌, ◌==◌, map, arith,
}
use ndif.Prelude.Results.{Result, ok, raise, connection_error, value_error}
use ndif.Sandbox.Bytes.{Bytes, capacity, digits, pack_word}
use ndif.Sandbox.Framing.{bytes_of, send_frame, recv_frame}
use ndif.Sandbox.Framing.Pieces.{Live, Delivered}
use ndif.Sandbox.Framing.Delivery.{recv_frame-send_frame, recv_frame-cut}
use ndif.Sandbox.Text.{Text, is_scalar, encode_point, encode_text}
use ndif.Sandbox.Codec.{
  Value, bytes_value, text_value, object_value, Torch, Kwargs, same_text, encode, pack_item,
  pack_value, pack_values, pack_kwargs, pack, unpack,
}
use ndif.Sandbox.Codec.Blobs.{Rebuilds, arrived}
use ndif.Sandbox.Codec.Items.{Distinct}
use ndif.Sandbox.Codec.Packets.{unpack-pack}
use ndif.Sandbox.Channel.{recv_all, recv_all-send_all}
use ndif.Sandbox.Channel as Channel
use ndif.Sandbox.Fanout.{Message, pair_message, answered, signature_of, first_or}
use ndif.Sandbox.Fanout.Peers.{any_peer}
use ndif.Sandbox.Fanout.Agreement.{Agreed, recv-Agreed}
use ndif.Sandbox.Fanout.Barrier.{reached, recv-verdict}
use ndif.Sandbox.Fanout as Fanout

-- A body of two bytes in its frame.
abbrev sample_body : Bytes
sample_body = 7 ∷ 9 ∷ []

abbrev sample_frame : Bytes
sample_frame = 0 ∷ 0 ∷ 0 ∷ 0 ∷ 0 ∷ 0 ∷ 0 ∷ 2 ∷ 7 ∷ 9 ∷ []

sample_frame-sent : send_frame sample_body ≡ ok sample_frame
unfolding send_frame pack_word digits capacity
sample_frame-sent = refl

-- The frame and a byte of the next one, in three pieces.
abbrev sample_stream : List Bytes
sample_stream = (0 ∷ 0 ∷ 0 ∷ []) ∷ (0 ∷ 0 ∷ 0 ∷ 0 ∷ 2 ∷ 7 ∷ []) ∷ (9 ∷ 0 ∷ []) ∷ []

sample_stream-Live : Live sample_stream
sample_stream-Live = (omega arith, (omega arith, (omega arith, tt)))

recv_frame-send_frame_example : Delivered (recv_frame sample_stream) sample_body (0 ∷ [])
unfolding bytes_of
recv_frame-send_frame_example =
    recv_frame-send_frame sample_body sample_frame (0 ∷ []) sample_stream sample_frame-sent
      sample_stream-Live refl

recv_frame-cut_example :
    recv_frame ((0 ∷ 0 ∷ 0 ∷ []) ∷ (0 ∷ 0 ∷ 0 ∷ 0 ∷ 2 ∷ 7 ∷ []) ∷ []) ≡ raise connection_error
unfolding bytes_of
recv_frame-cut_example =
    recv_frame-cut sample_body sample_frame 9 ((0 ∷ 0 ∷ 0 ∷ []) ∷ (0 ∷ 0 ∷ 0 ∷ 0 ∷ 2 ∷ 7 ∷ []) ∷ [])
      sample_frame-sent (omega arith) (omega arith, (omega arith, tt)) refl

-- Code points of one, two, three and four bytes.
abbrev sample_text : Text
sample_text = 0x41 ∷ 0xe9 ∷ 0x20ac ∷ 0x1f600 ∷ []

abbrev sample_utf8 : Bytes
sample_utf8 = 0x41 ∷ 0xc3 ∷ 0xa9 ∷ 0xe2 ∷ 0x82 ∷ 0xac ∷ 0xf0 ∷ 0x9f ∷ 0x98 ∷ 0x80 ∷ []

-- Objects are numbers, which `torch.save` writes as one byte; a place renumbers nothing.
abbrev sample_load : Bytes → Result ℕ
sample_load [] = raise value_error
sample_load (byte ∷ bytes) = ok byte

abbrev sample_torch : Torch ℕ ℕ
sample_torch = record { save = λ n. ok (n ∷ []); load = λ place bytes. sample_load bytes }

abbrev unmoved : Option ℕ → ℕ → ℕ
unmoved place n = n

sample_torch-Rebuilds : Rebuilds sample_torch unmoved
sample_torch-Rebuilds object bytes place h =
    let shape : object ∷ [] ≡ bytes = cc in ap sample_load (sym shape)

-- `("END", 5, b"\x08")` and one keyword value.
abbrev sample_values : List (Value ℕ)
sample_values = text_value (0x45 ∷ 0x4e ∷ 0x44 ∷ []) ∷ object_value 5 ∷ bytes_value (8 ∷ []) ∷ []

abbrev sample_kwargs : Kwargs ℕ
sample_kwargs = (0x6b ∷ [], object_value 6) ∷ (0x6c ∷ [], bytes_value []) ∷ []

sample_kwargs-Distinct : Distinct sample_kwargs
unfolding same_text
sample_kwargs-Distinct = ((refl, tt), (tt, tt))

-- What the call leaves, where it succeeds.
abbrev or_empty : Result Bytes → Bytes
or_empty (ok bytes) = bytes
or_empty (raise exception) = []

abbrev sample_packet : Bytes
unfolding pack pack_values pack_value pack_item pack_kwargs encode encode_text encode_point
    is_scalar pack_word digits capacity
sample_packet = or_empty (pack sample_torch sample_values sample_kwargs)

unpack-pack_example :
    unpack sample_torch none sample_packet
    ≡ ok (
      map (arrived (unmoved none)) sample_values,
      map (λ entry. (entry.0, arrived (unmoved none) entry.1)) sample_kwargs,
    )
unfolding pack pack_values pack_value pack_item pack_kwargs encode encode_text encode_point
    is_scalar pack_word digits capacity
unpack-pack_example =
    unpack-pack sample_torch unmoved sample_torch-Rebuilds none sample_values sample_kwargs
      sample_packet sample_kwargs-Distinct refl

-- The frames of two values, in one piece.
abbrev sample_conversation : Bytes
sample_conversation =
    0 ∷ 0 ∷ 0 ∷ 0 ∷ 0 ∷ 0 ∷ 0 ∷ 2 ∷ 3 ∷ 5 ∷ 0 ∷ 0 ∷ 0 ∷ 0 ∷ 0 ∷ 0 ∷ 0 ∷ 2 ∷ 1 ∷ 8 ∷ []

recv_all-send_all_example :
    (later : List Bytes) × (recv_all sample_torch 2 (sample_conversation ∷ [])
      ≡ ok (map (arrived (unmoved none)) (object_value 5 ∷ bytes_value (8 ∷ []) ∷ []), later))
    × (bytes_of later ≡ [])
    × Live later
unfolding bytes_of Channel.send_all Channel.send encode send_frame pack_word digits capacity
recv_all-send_all_example =
    recv_all-send_all sample_torch unmoved sample_torch-Rebuilds
      (object_value 5 ∷ bytes_value (8 ∷ []) ∷ []) sample_conversation [] (sample_conversation ∷ [])
      refl (omega arith, tt) refl

-- Three peers whose messages name event 4, and differ otherwise.
abbrev sample_message : ℕ → Message ℕ
sample_message i = pair_message (4 ∷ i ∷ []) 0

abbrev sample_answers : ℕ → Result (Message ℕ)
sample_answers i = ok (sample_message i)

-- The third peer is readable first.
abbrev sample_rounds : List (List ℕ)
sample_rounds = (2 ∷ []) ∷ [] ∷ (0 ∷ 1 ∷ []) ∷ []

all_reached : (i : ℕ) → i < 3 → reached i sample_rounds ≡ true
unfolding reached among
all_reached i h = ground arith

recv-verdict_example :
    Fanout.recv (signature_of 0) (λ a b. a == b) sample_answers 3 sample_rounds
    ≡ answered (sample_message 0)
unfolding signature_of first_or any_peer Fanout.peers_from
recv-verdict_example =
    recv-verdict sample_answers 3 sample_message (λ i h. refl) (signature_of 0) (λ a b. a == b)
      (omega arith) sample_rounds all_reached

recv-Agreed_example :
    (sample_answers 0 ≡ ok (sample_message 0))
    × Agreed (signature_of 0) (λ a b. a == b) sample_answers 3 (sample_message 0)
recv-Agreed_example =
    recv-Agreed (signature_of 0) (λ a b. a == b) sample_answers 3 sample_rounds (sample_message 0)
      recv-verdict_example
