-- ===== src/Sandbox/Codec/Packets.antt =====
-- services/ray/sandbox/protocol.py: messages through `pack` and `unpack`.
use ndif.Prelude.{◌≡◌, refl, ap, sym, Option, List, [], ◌∷◌, ◌++◌, length, map}
use ndif.Prelude.Results.{ok, ◌>>=◌, >>=-eq-ok}
use ndif.Sandbox.Bytes.{Bytes, pack_word, append_assoc}
use ndif.Sandbox.Text.{Text, encode_text}
use ndif.Sandbox.Text.RoundTrip.{decode_text-encode_text}
use ndif.Sandbox.Codec.{
  Value, Torch, Kwargs, encode, pack_item, pack_value, pack_values, pack_kwargs, pack, unpack_value,
  unpack_values, unpack_kwargs, unpack,
}
use ndif.Sandbox.Codec.Blobs.{Rebuilds, arrived, decode-encode}
use ndif.Sandbox.Codec.Items.{
  take_word-pack_word, take_chunk-pack_item, pack_word-left, set_kwarg_new, Apart, next-Apart,
  Distinct, append_none, append_snoc,
}

module _ {T Place : Type 0} (torch : Torch T Place) (moved : Option Place → T → T)
    (rebuilds : Rebuilds torch moved) (map_location : Option Place) where
  abbrev here : Value T → Value T
  here value = arrived (moved map_location) value

  abbrev keyed : Text × Value T → Text × Value T
  keyed entry = (entry.0, here entry.1)

  unpack_value-pack_value :
      (value : Value T) (out rest : Bytes)
      → pack_value torch value ≡ ok out
      → unpack_value torch map_location (out ++ rest) ≡ ok (here value, rest)
  unfolding pack_value unpack_value
  unpack_value-pack_value value out rest h =
      let (item, e, h') = >>=-eq-ok (encode torch value) pack_item h in
      rw
        (
          take_chunk-pack_item item out rest h',
          decode-encode torch moved rebuilds map_location value item e,
        )
        refl

  unpack_values-pack_values :
      (values : List (Value T)) (out rest : Bytes)
      → pack_values torch values ≡ ok out
      → unpack_values torch map_location (length values) (out ++ rest) ≡ ok (map here values, rest)
  unfolding pack_values unpack_values
  unpack_values-pack_values [] out rest h = let nothing : [] ≡ out = cc in rw (sym nothing) refl
  unpack_values-pack_values (value ∷ values) out rest h =
      let (front, e, h') =
        >>=-eq-ok (pack_value torch value)
          (λ front. pack_values torch values >>= (λ later. ok (front ++ later))) h in
      let (later, e', h'') =
        >>=-eq-ok (pack_values torch values) (λ later. ok (front ++ later)) h' in
      let shape : out ≡ front ++ later = cc in
      rw
        (
          shape,
          append_assoc front later rest,
          unpack_value-pack_value value front (later ++ rest) e,
          unpack_values-pack_values values later rest e',
        )
        refl

  unpack_kwargs-pack_kwargs :
      (kwargs read : Kwargs T) (out : Bytes)
      → pack_kwargs torch kwargs ≡ ok out
      → Distinct kwargs
      → Apart read kwargs
      → unpack_kwargs torch map_location (length kwargs) out read ≡ ok (read ++ map keyed kwargs)
  unfolding pack_kwargs unpack_kwargs
  unpack_kwargs-pack_kwargs [] read out h distinct apart = ap ok (sym (append_none read))
  unpack_kwargs-pack_kwargs ((key, value) ∷ kwargs) read out h distinct apart =
      let (head, e, h') =
        >>=-eq-ok (encode_text key >>= pack_item)
          (λ head.
            pack_value torch value
            >>= (λ out. pack_kwargs torch kwargs >>= (λ rest. ok (head ++ (out ++ rest)))))
          h in
      let (name, f, f') = >>=-eq-ok (encode_text key) pack_item e in
      let (body, g, h'') =
        >>=-eq-ok (pack_value torch value)
          (λ body. pack_kwargs torch kwargs >>= (λ rest. ok (head ++ (body ++ rest)))) h' in
      let (rest, k, h3) =
        >>=-eq-ok (pack_kwargs torch kwargs) (λ rest. ok (head ++ (body ++ rest))) h'' in
      let shape : out ≡ head ++ (body ++ rest) = cc in
      rw
        (
          shape,
          take_chunk-pack_item name head (body ++ rest) f',
          decode_text-encode_text key name f,
          unpack_value-pack_value value body rest g,
          set_kwarg_new key (here value) read apart.0,
          unpack_kwargs-pack_kwargs kwargs (read ++ (key, here value) ∷ []) rest k distinct.1
              (next-Apart key (here value) read kwargs apart.1 distinct.0),
          append_snoc read (key, here value) (map keyed kwargs),
        )
        refl

  nothing-Apart : (kwargs : Kwargs T) → Apart [] kwargs
  nothing-Apart [] = tt
  nothing-Apart (entry ∷ kwargs) = (tt, nothing-Apart kwargs)

  -- What `pack` makes of values and keyword values, `unpack` turns back into them, in order and
  -- under their keys, with tensors at the receiver's place, where no key stands twice and
  -- `torch.load` rebuilds what `torch.save` wrote.
  pub unpack-pack :
      (values : List (Value T)) (kwargs : Kwargs T) (blob : Bytes)
      → Distinct kwargs
      → pack torch values kwargs ≡ ok blob
      → unpack torch map_location blob ≡ ok (map here values, map keyed kwargs)
  unfolding pack unpack
  unpack-pack values kwargs blob distinct h =
      let (count, e, h1) =
        >>=-eq-ok (pack_word 4 (length values))
          (λ count. pack_values torch values >>= (λ out. pack_word 4 (length kwargs) >>= (λ kcount.
            pack_kwargs torch kwargs >>= (λ rest. ok (count ++ (out ++ (kcount ++ rest)))))))
          h in
      let (out, f, h2) =
        >>=-eq-ok (pack_values torch values)
          (λ out. pack_word 4 (length kwargs) >>= (λ kcount.
            pack_kwargs torch kwargs >>= (λ rest. ok (count ++ (out ++ (kcount ++ rest))))))
          h1 in
      let (kcount, g, h3) =
        >>=-eq-ok (pack_word 4 (length kwargs))
          (λ kcount. pack_kwargs torch kwargs >>= (λ rest. ok (count ++ (out ++ (kcount ++ rest)))))
          h2 in
      let (rest, k, h4) =
        >>=-eq-ok (pack_kwargs torch kwargs) (λ rest. ok (count ++ (out ++ (kcount ++ rest)))) h3 in
      let shape : blob ≡ count ++ (out ++ (kcount ++ rest)) = cc in
      rw
        (
          shape,
          take_word-pack_word (length values) count (out ++ (kcount ++ rest)) e,
          unpack_values-pack_values values out (kcount ++ rest) f,
          pack_word-left (length kwargs) kcount rest g,
          take_word-pack_word (length kwargs) kcount rest g,
          unpack_kwargs-pack_kwargs kwargs [] rest k distinct (nothing-Apart kwargs),
        )
        refl
