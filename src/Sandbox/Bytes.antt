-- ===== src/Sandbox/Bytes.antt =====
-- What services/ray/sandbox/protocol.py takes from `struct`: unsigned words of a fixed width in
-- big-endian order.
use ndif.Prelude.{
  ℕ, zero, suc, ◌+◌, ◌-◌, ◌*◌, ◌/◌, ◌%◌, ◌<◌, ◌≤◌, ◌≡◌, refl, ap, List, [], ◌∷◌, ◌++◌, length, take,
  ltb, ◌==◌, if◌then◌else◌, arith,
}
use ndif.Prelude.Results.{Result, ok, raise, struct_error}

abbrev pub Bytes : Type 0
Bytes = List ℕ

-- What is left of the bytes after the first `n`.
abbrev pub drop_bytes : ℕ → Bytes → Bytes
drop_bytes zero bytes = bytes
drop_bytes (suc n) [] = []
drop_bytes (suc n) (byte ∷ bytes) = drop_bytes n bytes

-- The number of values that `width` bytes tell apart.
unfoldable pub capacity : ℕ → ℕ
capacity zero = 1
capacity (suc width) = capacity width * 256

unfoldable pub digits : ℕ → ℕ → Bytes
digits zero n = []
digits (suc width) n = digits width (n / 256) ++ (n % 256) ∷ []

-- `struct.pack(">I", n)` and `struct.pack(">Q", n)`, by the width of the format.
unfoldable pub pack_word : ℕ → ℕ → Result Bytes
pack_word width n = if ltb n (capacity width) then ok (digits width n) else raise struct_error

unfoldable pub value_from : ℕ → Bytes → ℕ
value_from high [] = high
value_from high (byte ∷ bytes) = value_from (high * 256 + byte) bytes

-- `struct.unpack(…)[0]`, which wants exactly as many bytes as the format has.
unfoldable pub unpack_word : ℕ → Bytes → Result ℕ
unpack_word width bytes =
    if length bytes == width then ok (value_from 0 bytes) else raise struct_error

pub length-append : (xs ys : Bytes) → length (xs ++ ys) ≡ length xs + length ys
length-append [] ys = omega arith
length-append (x ∷ xs) ys = omega (arith, length-append xs ys)

pub length-digits : (width n : ℕ) → length (digits width n) ≡ width
unfolding digits
length-digits zero n = refl
length-digits (suc width) n =
    omega (
      arith,
      length-append (digits width (n / 256)) ((n % 256) ∷ []),
      length-digits width (n / 256),
    )

value_from-append :
    (high : ℕ) (xs ys : Bytes) → value_from high (xs ++ ys) ≡ value_from (value_from high xs) ys
unfolding value_from
value_from-append high [] ys = refl
value_from-append high (x ∷ xs) ys = value_from-append (high * 256 + x) xs ys

value_from-digits : (width n : ℕ) → n < capacity width → value_from 0 (digits width n) ≡ n
unfolding digits value_from capacity
value_from-digits zero n h = omega arith
value_from-digits (suc width) n h =
    rw
      (
        value_from-append 0 (digits width (n / 256)) ((n % 256) ∷ []),
        value_from-digits width (n / 256) (omega arith),
      )
      (omega arith)

pub take-append : (n : ℕ) (xs ys : Bytes) → length xs ≡ n → take n (xs ++ ys) ≡ xs
take-append zero [] ys h = refl
take-append zero (x ∷ xs) ys h = absurd (omega arith)
take-append (suc n) [] ys h = absurd (omega arith)
take-append (suc n) (x ∷ xs) ys h = ap (λ t. x ∷ t) (take-append n xs ys (omega arith))

pub drop_bytes-append : (n : ℕ) (xs ys : Bytes) → length xs ≡ n → drop_bytes n (xs ++ ys) ≡ ys
drop_bytes-append zero [] ys h = refl
drop_bytes-append zero (x ∷ xs) ys h = absurd (omega arith)
drop_bytes-append (suc n) [] ys h = absurd (omega arith)
drop_bytes-append (suc n) (x ∷ xs) ys h = drop_bytes-append n xs ys (omega arith)

pub pack_word-eq : (width n : ℕ) → n < capacity width → pack_word width n ≡ ok (digits width n)
unfolding pack_word
pack_word-eq width n h = ground arith

pub unpack_word-digits :
    (width n : ℕ) → n < capacity width → unpack_word width (digits width n) ≡ ok n
unfolding unpack_word
unpack_word-digits width n h =
    rw (length-digits width n, value_from-digits width n h) (ground arith)

pub append_assoc : (xs ys zs : Bytes) → (xs ++ ys) ++ zs ≡ xs ++ (ys ++ zs)
append_assoc [] ys zs = refl
append_assoc (x ∷ xs) ys zs = ap (λ t. x ∷ t) (append_assoc xs ys zs)

pub append_nil : (xs : Bytes) → xs ++ [] ≡ xs
append_nil [] = refl
append_nil (x ∷ xs) = ap (λ t. x ∷ t) (append_nil xs)

pub take-drop_bytes : (n : ℕ) (xs : Bytes) → take n xs ++ drop_bytes n xs ≡ xs
take-drop_bytes zero xs = refl
take-drop_bytes (suc n) [] = refl
take-drop_bytes (suc n) (x ∷ xs) = ap (λ t. x ∷ t) (take-drop_bytes n xs)

pub length-take : (n : ℕ) (xs : Bytes) → n ≤ length xs → length (take n xs) ≡ n
length-take zero xs h = refl
length-take (suc n) [] h = absurd (omega arith)
length-take (suc n) (x ∷ xs) h = omega (arith, length-take n xs (omega arith))

pub length-drop_bytes : (n : ℕ) (xs : Bytes) → length (drop_bytes n xs) ≡ length xs - n
length-drop_bytes zero xs = omega arith
length-drop_bytes (suc n) [] = omega arith
length-drop_bytes (suc n) (x ∷ xs) = omega (arith, length-drop_bytes n xs)

pub take_past :
    (n : ℕ) (xs ys : Bytes) → length xs ≤ n → take n (xs ++ ys) ≡ xs ++ take (n - length xs) ys
take_past n [] ys h = ground arith
take_past zero (x ∷ xs) ys h = absurd (omega arith)
take_past (suc n) (x ∷ xs) ys h =
    let shift : suc n - suc (length xs) ≡ n - length xs = omega arith in
    ap (λ t. x ∷ t) (rw shift (take_past n xs ys (omega arith)))

pub drop_bytes_past :
    (n : ℕ) (xs ys : Bytes)
    → length xs ≤ n
    → drop_bytes n (xs ++ ys) ≡ drop_bytes (n - length xs) ys
drop_bytes_past n [] ys h = ground arith
drop_bytes_past zero (x ∷ xs) ys h = absurd (omega arith)
drop_bytes_past (suc n) (x ∷ xs) ys h =
    let shift : suc n - suc (length xs) ≡ n - length xs = omega arith in
    rw shift (drop_bytes_past n xs ys (omega arith))
