-- ===== src/Sandbox/Codec/Blobs.antt =====
-- services/ray/sandbox/protocol.py: a single value through `encode` and `decode`.
use ndif.Prelude.{◌≡◌, refl, sym, Option, ◌∷◌}
use ndif.Prelude.Results.{ok, >>=-eq-ok}
use ndif.Sandbox.Bytes.{Bytes}
use ndif.Sandbox.Text.{encode_text}
use ndif.Sandbox.Text.RoundTrip.{decode_text-encode_text}
use ndif.Sandbox.Codec.{Value, bytes_value, text_value, object_value, Torch, encode, decode}

-- What `torch.load` documents: it rebuilds what was saved, its tensors moved to the place.
abbrev pub Rebuilds : {T Place : Type 0} → Torch T Place → (Option Place → T → T) → Type 0
Rebuilds {T} {Place} torch moved =
    (object : T) (bytes : Bytes) (map_location : Option Place)
    → torch.save object ≡ ok bytes
    → torch.load map_location bytes ≡ ok (moved map_location object)

-- A value at the other end: only an object's tensors move.
unfoldable pub arrived : {T : Type 0} → (T → T) → Value T → Value T
arrived moved (bytes_value bytes) = bytes_value bytes
arrived moved (text_value text) = text_value text
arrived moved (object_value object) = object_value (moved object)

module _ {T Place : Type 0} (torch : Torch T Place) (moved : Option Place → T → T)
    (rebuilds : Rebuilds torch moved) (map_location : Option Place) where
  -- What `encode` makes of a value, `decode` turns back into it, with an object's tensors at the
  -- receiver's place, where `torch.load` rebuilds what `torch.save` wrote.
  pub decode-encode :
      (value : Value T) (blob : Bytes)
      → encode torch value ≡ ok blob
      → decode torch map_location blob ≡ ok (arrived (moved map_location) value)
  unfolding encode decode arrived
  decode-encode (bytes_value bytes) blob h =
      let shape : 1 ∷ bytes ≡ blob = cc in rw (sym shape) refl
  decode-encode (text_value text) blob h =
      let (bytes, e, h') = >>=-eq-ok (encode_text text) (λ bytes. ok (2 ∷ bytes)) h in
      let shape : 2 ∷ bytes ≡ blob = cc in
      rw (sym shape) (rw (decode_text-encode_text text bytes e) refl)
  decode-encode (object_value object) blob h =
      let (bytes, e, h') = >>=-eq-ok (torch.save object) (λ bytes. ok (3 ∷ bytes)) h in
      let shape : 3 ∷ bytes ≡ blob = cc in
      rw (sym shape) (rw (rebuilds object bytes map_location e) refl)
