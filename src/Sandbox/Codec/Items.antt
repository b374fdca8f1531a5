-- ===== src/Sandbox/Codec/Items.antt =====
-- services/ray/sandbox/protocol.py: the parts of a packed message, and keyword values in order.
use ndif.Prelude.{
  ℕ, ◌<◌, ◌≡◌, refl, ap, ◌∙◌, false, [], ◌∷◌, ◌++◌, All, All-append, length, ltb, ◌==◌, Bool-cases,
  inl, inr, arith,
}
use ndif.Prelude.Results.{ok, raise, struct_error, >>=-eq-ok}
use ndif.Sandbox.Bytes.{
  Bytes, capacity, digits, pack_word, length-digits, take-append, drop_bytes-append, append_assoc,
  length-append, unpack_word-digits,
}
use ndif.Sandbox.Text.{Text}
use ndif.Sandbox.Codec.{Value, Kwargs, same_text, set_kwarg, pack_item, take_word, take_chunk}

pack_word-inversion :
    (width n : ℕ) (out : Bytes)
    → pack_word width n ≡ ok out
    → (n < capacity width) × (out ≡ digits width n)
unfolding pack_word
pack_word-inversion width n out h = elim (Bool-cases (ltb n (capacity width))) [
  | inl e ↦ let sent : ok (digits width n) ≡ ok out = rw e at h in (ground arith, cc)
  | inr e ↦ let failed : raise struct_error ≡ ok out = rw e at h in absurd cc
]

pub take_word-pack_word :
    (n : ℕ) (out rest : Bytes) → pack_word 4 n ≡ ok out → take_word (out ++ rest) ≡ ok (n, rest)
unfolding take_word
take_word-pack_word n out rest h =
    let (fits, shape) = pack_word-inversion 4 n out h in
    let size = length-digits 4 n in
    rw
      (
        shape,
        take-append 4 (digits 4 n) rest size,
        drop_bytes-append 4 (digits 4 n) rest size,
        unpack_word-digits 4 n fits,
      )
      refl

-- A count leaves bytes to read.
pub pack_word-left :
    (n : ℕ) (out rest : Bytes) → pack_word 4 n ≡ ok out → (length (out ++ rest) == 0) ≡ false
pack_word-left n out rest h =
    let (fits, shape) = pack_word-inversion 4 n out h in
    let size : length out ≡ 4 = ap length shape ∙ length-digits 4 n in
    ground (arith, length-append out rest)

pub take_chunk-pack_item :
    (item out rest : Bytes) → pack_item item ≡ ok out → take_chunk (out ++ rest) ≡ ok (item, rest)
unfolding pack_item take_chunk
take_chunk-pack_item item out rest h =
    let (size, e, h') = >>=-eq-ok (pack_word 4 (length item)) (λ size. ok (size ++ item)) h in
    let shape : out ≡ size ++ item = cc in
    rw
      (
        shape,
        append_assoc size item rest,
        take_word-pack_word (length item) size (item ++ rest) e,
        take-append (length item) item rest refl,
        drop_bytes-append (length item) item rest refl,
      )
      refl

-- No key of the entries that were read is the key of one that is to come.
abbrev pub Apart : {T : Type 0} → Kwargs T → Kwargs T → Type 0
Apart read coming = All (λ next. All (λ entry. same_text entry.0 next.0 ≡ false) read) coming

-- As in a dict, no key stands twice.
abbrev pub Distinct : {T : Type 0} → Kwargs T → Type 0
Distinct [] = Unit {0}
Distinct (entry ∷ kwargs) = All (λ next. same_text entry.0 next.0 ≡ false) kwargs × Distinct kwargs

pub set_kwarg_new :
    {T : Type 0} (key : Text) (value : Value T) (read : Kwargs T)
    → All (λ entry. same_text entry.0 key ≡ false) read
    → set_kwarg key value read ≡ read ++ (key, value) ∷ []
unfolding set_kwarg
set_kwarg_new key value [] h = refl
set_kwarg_new key value ((key', value') ∷ read) h =
    rw h.0 (ap (λ t. (key', value') ∷ t) (set_kwarg_new key value read h.1))

pub next-Apart :
    {T : Type 0} (key : Text) (value : Value T) (read coming : Kwargs T)
    → Apart read coming
    → All (λ next. same_text key next.0 ≡ false) coming
    → Apart (read ++ (key, value) ∷ []) coming
next-Apart key value read [] apart new = tt
next-Apart key value read (next ∷ coming) apart new = (
  All-append (λ entry. same_text entry.0 next.0 ≡ false) read ((key, value) ∷ []) apart.0
      (new.0, tt),
  next-Apart key value read coming apart.1 new.1,
)

pub append_none : {T : Type 0} (xs : Kwargs T) → xs ++ [] ≡ xs
append_none [] = refl
append_none (x ∷ xs) = ap (λ t. x ∷ t) (append_none xs)

pub append_snoc :
    {T : Type 0} (xs : Kwargs T) (x : Text × Value T) (ys : Kwargs T)
    → (xs ++ x ∷ []) ++ ys ≡ xs ++ x ∷ ys
append_snoc [] x ys = refl
append_snoc (y ∷ xs) x ys = ap (λ t. y ∷ t) (append_snoc xs x ys)
