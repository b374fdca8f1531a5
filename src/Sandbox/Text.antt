-- ===== src/Sandbox/Text.antt =====
-- What services/ray/sandbox/protocol.py takes from `str.encode` and `bytes.decode`: UTF-8, strict.
-- A `str` is the list of its code points; both of Python's exceptions here are `ValueError`s.
pub mod RoundTrip
use ndif.Prelude.{
  ℕ, zero, suc, ◌+◌, ◌-◌, ◌*◌, ◌/◌, ◌%◌, Bool, ◌&&◌, not, List, [], ◌∷◌, ◌++◌, ltb, leb, ◌==◌,
  if◌then◌else◌,
}
use ndif.Prelude.Results.{Result, ok, raise, value_error, ◌>>=◌}
use ndif.Sandbox.Bytes.{Bytes}

abbrev pub Text : Type 0
Text = List ℕ

-- A surrogate has no encoding, nor has a number that is no code point.
unfoldable pub is_scalar : ℕ → Bool
is_scalar point = ltb point 0x110000 && not (leb 0xd800 point && ltb point 0xe000)

unfoldable pub encode_point : ℕ → Result Bytes
encode_point point =
    if not (is_scalar point)
    then raise value_error
    else if ltb point 0x80
    then ok (point ∷ [])
    else if ltb point 0x800
    then ok ((0xc0 + point / 64) ∷ (0x80 + point % 64) ∷ [])
    else if ltb point 0x10000
    then ok ((0xe0 + point / 4096) ∷ (0x80 + point / 64 % 64) ∷ (0x80 + point % 64) ∷ [])
    else ok (
        (0xf0 + point / 262144)
        ∷ (0x80 + point / 4096 % 64)
        ∷ (0x80 + point / 64 % 64)
        ∷ (0x80 + point % 64)
        ∷ [])

unfoldable pub encode_text : Text → Result Bytes
encode_text [] = ok []
encode_text (point ∷ text) =
    encode_point point >>= (λ front. encode_text text >>= (λ rest. ok (front ++ rest)))

-- A decoder between two bytes: how many more the code point needs, its value so far, and the least
-- value that may be spelled at this length.
pub record Decoder : Type 0 where
  pub missing : ℕ
  pub value : ℕ
  pub least : ℕ

abbrev pub idle_decoder : Decoder
idle_decoder = record { missing = 0; value = 0; least = 0 }

abbrev pub awaiting : ℕ → ℕ → ℕ → Decoder
awaiting missing value least = record { missing = missing; value = value; least = least }

-- The first byte of a code point.
unfoldable pub lead : ℕ → Result (Decoder × Text)
lead byte =
    if ltb byte 0x80
    then ok (idle_decoder, byte ∷ [])
    else if ltb byte 0xc2
    then raise value_error
    else if ltb byte 0xe0
    then ok (awaiting 1 (byte - 0xc0) 0x80, [])
    else if ltb byte 0xf0
    then ok (awaiting 2 (byte - 0xe0) 0x800, [])
    else if ltb byte 0xf5
    then ok (awaiting 3 (byte - 0xf0) 0x10000, [])
    else raise value_error

-- The value with a further byte, with `left` more to come.
unfoldable pub shifted : ℕ → ℕ → ℕ → Result (Decoder × Text)
shifted left point least =
    if not (left == 0)
    then ok (awaiting left point least, [])
    else if leb least point && is_scalar point
    then ok (idle_decoder, point ∷ [])
    else raise value_error

unfoldable pub follow : Decoder → ℕ → Result (Decoder × Text)
follow decoder byte =
    if decoder.missing == 0
    then lead byte
    else if leb 0x80 byte && ltb byte 0xc0
    then shifted (decoder.missing - 1) (decoder.value * 64 + (byte - 0x80)) decoder.least
    else raise value_error

unfoldable pub decode_from : Decoder → Bytes → Result Text
decode_from decoder [] = if decoder.missing == 0 then ok [] else raise value_error
decode_from decoder (byte ∷ bytes) =
    follow decoder byte
    >>= (λ (next, points). decode_from next bytes >>= (λ text. ok (points ++ text)))

unfoldable pub decode_text : Bytes → Result Text
decode_text bytes = decode_from idle_decoder bytes
