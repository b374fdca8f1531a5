-- ===== src/Sandbox/Text/RoundTrip.antt =====
-- What is encoded is decoded again.
use ndif.Prelude.{
  ℕ, suc, ◌+◌, ◌-◌, ◌*◌, ◌/◌, ◌%◌, ◌<◌, ◌≤◌, ◌≡◌, refl, sym, ◌∙◌, true, [], ◌∷◌, ◌++◌, ltb,
  Bool-cases, inl, inr, arith,
}
use ndif.Prelude.Results.{Result, ok, raise, value_error, ◌>>=◌, >>=-eq-ok}
use ndif.Sandbox.Bytes.{Bytes}
use ndif.Sandbox.Text.{
  Text, is_scalar, encode_point, encode_text, idle_decoder, awaiting, lead, shifted, follow,
  decode_from, decode_text,
}

-- The decoder that has read the bytes of a code point hands it on.
abbrev Reads : ℕ → Bytes → Type 0
Reads point front =
    (rest : Bytes)
    → decode_from idle_decoder (front ++ rest)
      ≡ (decode_from idle_decoder rest >>= (λ text. ok (point ∷ text)))

lead_2 :
    (point : ℕ)
    → 0x80 ≤ point
    → point < 0x800
    → follow idle_decoder (0xc0 + point / 64) ≡ ok (awaiting 1 (point / 64) 0x80, [])
unfolding follow lead
lead_2 point h k = ground arith

lead_3 :
    (point : ℕ)
    → 0x800 ≤ point
    → point < 0x10000
    → follow idle_decoder (0xe0 + point / 4096) ≡ ok (awaiting 2 (point / 4096) 0x800, [])
unfolding follow lead
lead_3 point h k = ground arith

lead_4 :
    (point : ℕ)
    → 0x10000 ≤ point
    → point < 0x110000
    → follow idle_decoder (0xf0 + point / 262144) ≡ ok (awaiting 3 (point / 262144) 0x10000, [])
unfolding follow lead
lead_4 point h k = ground arith

-- A further byte of a code point whose value is known by its quotient.
follow_more :
    (left value least byte : ℕ)
    → byte < 64
    → follow (awaiting (suc (suc left)) value least) (0x80 + byte)
      ≡ ok (awaiting (suc left) (value * 64 + byte) least, [])
unfolding follow shifted
follow_more left value least byte h = ground arith

follow_last :
    (value least byte point : ℕ)
    → byte < 64
    → value * 64 + byte ≡ point
    → least ≤ point
    → is_scalar point ≡ true
    → follow (awaiting 1 value least) (0x80 + byte) ≡ ok (idle_decoder, point ∷ [])
unfolding follow shifted
follow_last value least byte point h e le scalar =
    let sum : value * 64 + (128 + byte - 128) ≡ point = omega arith in
    rw (sum, scalar) (ground arith)

-- A byte inside a code point hands on nothing.
pass_on : (call : Result Text) → (call >>= (λ text. ok ([] ++ text))) ≡ call
pass_on (raise e) = refl
pass_on (ok text) = refl

first_of : (point : ℕ) → point < 0x80 → follow idle_decoder point ≡ ok (idle_decoder, point ∷ [])
unfolding follow lead
first_of point h = ground arith

-- The equation that the code point of `front` goes by.
abbrev one_more : ℕ → Bytes → Result Text
one_more point rest = decode_from idle_decoder rest >>= (λ text. ok ((point ∷ []) ++ text))

one_byte-Reads : (point : ℕ) → point < 0x80 → Reads point (point ∷ [])
unfolding decode_from
one_byte-Reads point h rest = rw (first_of point h) refl

two_bytes-Reads :
    (point : ℕ)
    → 0x80 ≤ point
    → point < 0x800
    → is_scalar point ≡ true
    → Reads point ((0xc0 + point / 64) ∷ (0x80 + point % 64) ∷ [])
unfolding decode_from
two_bytes-Reads point h k scalar rest =
    rw
      (
        lead_2 point h k,
        follow_last (point / 64) 0x80 (point % 64) point (omega arith) (omega arith) h scalar,
      )
      (pass_on (one_more point rest))

three_bytes-Reads :
    (point : ℕ)
    → 0x800 ≤ point
    → point < 0x10000
    → is_scalar point ≡ true
    → Reads point ((0xe0 + point / 4096) ∷ (0x80 + point / 64 % 64) ∷ (0x80 + point % 64) ∷ [])
unfolding decode_from
three_bytes-Reads point h k scalar rest =
    let sum : point / 4096 * 64 + point / 64 % 64 ≡ point / 64 = omega arith in
    rw
      (
        lead_3 point h k,
        follow_more 0 (point / 4096) 0x800 (point / 64 % 64) (omega arith),
        sum,
        follow_last (point / 64) 0x800 (point % 64) point (omega arith) (omega arith) h scalar,
      )
      (pass_on (one_more point rest >>= (λ text. ok ([] ++ text))) ∙ pass_on (one_more point rest))

four_bytes-Reads :
    (point : ℕ)
    → 0x10000 ≤ point
    → point < 0x110000
    → is_scalar point ≡ true
    → Reads point (
        (0xf0 + point / 262144)
        ∷ (0x80 + point / 4096 % 64)
        ∷ (0x80 + point / 64 % 64)
        ∷ (0x80 + point % 64)
        ∷ [])
unfolding decode_from
four_bytes-Reads point h k scalar rest =
    let high : point / 262144 * 64 + point / 4096 % 64 ≡ point / 4096 = omega arith in
    let sum : point / 4096 * 64 + point / 64 % 64 ≡ point / 64 = omega arith in
    let once = one_more point rest in
    let twice = once >>= (λ text. ok ([] ++ text)) in
    rw
      (
        lead_4 point h k,
        follow_more 1 (point / 262144) 0x10000 (point / 4096 % 64) (omega arith),
        high,
        follow_more 0 (point / 4096) 0x10000 (point / 64 % 64) (omega arith),
        sum,
        follow_last (point / 64) 0x10000 (point % 64) point (omega arith) (omega arith) h scalar,
      )
      (pass_on (twice >>= (λ text. ok ([] ++ text))) ∙ (pass_on twice ∙ pass_on once))

below_limit : (point : ℕ) → is_scalar point ≡ true → point < 0x110000
unfolding is_scalar
below_limit point h = ground arith

same-Reads :
    (point : ℕ) (front sent : Bytes) → ok sent ≡ ok front → Reads point sent → Reads point front
same-Reads point front sent e reads = let same : sent ≡ front = cc in rw (sym same) reads

encode_point-Reads : (point : ℕ) (front : Bytes) → encode_point point ≡ ok front → Reads point front
unfolding encode_point
encode_point-Reads point front h = elim (Bool-cases (is_scalar point)) [
  | inr e ↦ let failed : raise value_error ≡ ok front = rw e at h in absurd cc
  | inl scalar ↦ elim (Bool-cases (ltb point 0x80)) [
    | inl e ↦
        same-Reads point front (point ∷ []) (rw (scalar, e) at h)
          (one_byte-Reads point (ground arith))
    | inr e ↦ elim (Bool-cases (ltb point 0x800)) [
      | inl e' ↦
          same-Reads point front ((0xc0 + point / 64) ∷ (0x80 + point % 64) ∷ [])
            (rw (scalar, e, e') at h) (two_bytes-Reads point (ground arith) (ground arith) scalar)
      | inr e' ↦ elim (Bool-cases (ltb point 0x10000)) [
        | inl f ↦
            same-Reads point front
              ((0xe0 + point / 4096) ∷ (0x80 + point / 64 % 64) ∷ (0x80 + point % 64) ∷ [])
              (rw (scalar, e, e', f) at h)
              (three_bytes-Reads point (ground arith) (ground arith) scalar)
        | inr f ↦
            same-Reads point front
              ((0xf0 + point / 262144)
                ∷ (0x80 + point / 4096 % 64)
                ∷ (0x80 + point / 64 % 64)
                ∷ (0x80 + point % 64)
                ∷ [])
              (rw (scalar, e, e', f) at h)
              (four_bytes-Reads point (ground arith) (below_limit point scalar) scalar)
      ]
    ]
  ]
]

decode_from-encode_text :
    (text : Text) (bytes : Bytes)
    → encode_text text ≡ ok bytes
    → decode_from idle_decoder bytes ≡ ok text
unfolding encode_text decode_from
decode_from-encode_text [] bytes h = let e : [] ≡ bytes = cc in rw (sym e) refl
decode_from-encode_text (point ∷ text) bytes h =
    let (front, sent, h') =
      >>=-eq-ok (encode_point point) (λ front. encode_text text >>= (λ rest. ok (front ++ rest)))
        h in
    let (rest, sent', h'') = >>=-eq-ok (encode_text text) (λ rest. ok (front ++ rest)) h' in
    let shape : bytes ≡ front ++ rest = cc in
    rw (shape, encode_point-Reads point front sent rest, decode_from-encode_text text rest sent')
      refl

-- What `str.encode` makes of a text, `bytes.decode` turns back into it.
pub decode_text-encode_text :
    (text : Text) (bytes : Bytes) → encode_text text ≡ ok bytes → decode_text bytes ≡ ok text
unfolding decode_text
decode_text-encode_text text bytes h = decode_from-encode_text text bytes h
