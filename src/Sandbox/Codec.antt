-- ===== src/Sandbox/Codec.antt =====
-- services/ray/sandbox/protocol.py: the type-tagged codec and the packed messages. `torch.save` and
-- `torch.load` are parameters; an `ndif.Prelude.Results` exception is all that a caller sees of them.
pub mod Blobs
pub mod Items
pub mod Packets
use ndif.Prelude.{
  ℕ, zero, suc, Bool, true, false, ◌&&◌, Option, none, some, List, [], ◌∷◌, ◌++◌, length, take,
  ◌==◌, if◌then◌else◌,
}
use ndif.Prelude.Results.{Result, ok, raise, value_error, ◌>>=◌}
use ndif.Sandbox.Bytes.{Bytes, drop_bytes, pack_word, unpack_word}
use ndif.Sandbox.Text.{Text, encode_text, decode_text}

-- A Python value as the codec tells it apart.
pub data Value (T : Type 0) : Type 0 where
  bytes_value : Bytes → Value T
  text_value : Text → Value T
  object_value : T → Value T

-- `Place` is torch's `map_location`.
pub record Torch (T Place : Type 0) : Type 0 where
  pub save : T → Result Bytes
  pub load : Option Place → Bytes → Result T

abbrev pub Kwargs : Type 0 → Type 0
Kwargs T = List (Text × Value T)

unfoldable pub same_text : Text → Text → Bool
same_text [] [] = true
same_text [] (d ∷ t) = false
same_text (c ∷ s) [] = false
same_text (c ∷ s) (d ∷ t) = c == d && same_text s t

-- `kwargs[key] = value`.
unfoldable pub set_kwarg : {T : Type 0} → Text → Value T → Kwargs T → Kwargs T
set_kwarg key value [] = (key, value) ∷ []
set_kwarg key value ((key', value') ∷ kwargs) =
    if same_text key' key
    then (key, value) ∷ kwargs
    else (key', value') ∷ set_kwarg key value kwargs

-- A length and the bytes that it counts.
unfoldable pub pack_item : Bytes → Result Bytes
pack_item item = pack_word 4 (length item) >>= (λ size. ok (size ++ item))

-- `offset` is where the bytes that are left begin. A slice past the end is short.
unfoldable pub take_word : Bytes → Result (ℕ × Bytes)
take_word left = unpack_word 4 (take 4 left) >>= (λ n. ok (n, drop_bytes 4 left))

unfoldable pub take_chunk : Bytes → Result (Bytes × Bytes)
take_chunk left = take_word left >>= (λ (n, later). ok (take n later, drop_bytes n later))

module _ {T Place : Type 0} (torch : Torch T Place) where
  unfoldable pub encode : Value T → Result Bytes
  encode (bytes_value bytes) = ok (1 ∷ bytes)
  encode (text_value text) = encode_text text >>= (λ bytes. ok (2 ∷ bytes))
  encode (object_value object) = torch.save object >>= (λ bytes. ok (3 ∷ bytes))

  unfoldable pub decode : Option Place → Bytes → Result (Value T)
  decode map_location [] = raise value_error
  decode map_location (tag ∷ payload) =
      if tag == 1
      then ok (bytes_value payload)
      else if tag == 2
      then decode_text payload >>= (λ text. ok (text_value text))
      else if tag == 3
      then torch.load map_location payload >>= (λ object. ok (object_value object))
      else raise value_error

  unfoldable pub pack_value : Value T → Result Bytes
  pack_value value = encode value >>= pack_item

  unfoldable pub pack_values : List (Value T) → Result Bytes
  pack_values [] = ok []
  pack_values (value ∷ values) =
      pack_value value >>= (λ out. pack_values values >>= (λ rest. ok (out ++ rest)))

  unfoldable pub pack_kwargs : Kwargs T → Result Bytes
  pack_kwargs [] = ok []
  pack_kwargs ((key, value) ∷ kwargs) = encode_text key >>= pack_item >>= (λ head.
      pack_value value >>= (λ out. pack_kwargs kwargs >>= (λ rest. ok (head ++ (out ++ rest)))))

  unfoldable pub pack : List (Value T) → Kwargs T → Result Bytes
  pack values kwargs = pack_word 4 (length values) >>= (λ count. pack_values values >>= (λ out.
      pack_word 4 (length kwargs)
      >>= (λ kcount. pack_kwargs kwargs >>= (λ rest. ok (count ++ (out ++ (kcount ++ rest)))))))

  unfoldable pub unpack_value : Option Place → Bytes → Result (Value T × Bytes)
  unpack_value map_location left =
      take_chunk left
      >>= (λ (chunk, later). decode map_location chunk >>= (λ value. ok (value, later)))

  unfoldable pub unpack_values : Option Place → ℕ → Bytes → Result (List (Value T) × Bytes)
  unpack_values map_location zero left = ok ([], left)
  unpack_values map_location (suc count) left =
      unpack_value map_location left >>= (λ (value, later).
        unpack_values map_location count later >>= (λ (values, last). ok (value ∷ values, last)))

  unfoldable pub unpack_kwargs : Option Place → ℕ → Bytes → Kwargs T → Result (Kwargs T)
  unpack_kwargs map_location zero left kwargs = ok kwargs
  unpack_kwargs map_location (suc count) left kwargs = take_chunk left >>= (λ (chunk, later).
      decode_text chunk >>= (λ key.
        unpack_value map_location later
        >>= (λ (value, last). unpack_kwargs map_location count last (set_kwarg key value kwargs))))

  -- A blob that ends after the values has no keyword values.
  unfoldable pub unpack : Option Place → Bytes → Result (List (Value T) × Kwargs T)
  unpack map_location blob = take_word blob >>= (λ (count, later).
      unpack_values map_location count later >>= (λ (values, left).
        if length left == 0
        then ok (values, [])
        else (take_word left >>= (λ (kcount, last).
            unpack_kwargs map_location kcount last [] >>= (λ kwargs. ok (values, kwargs))))))
