-- ===== src/Sandbox/Fanout.antt =====
-- services/ray/sandbox/protocol.py: `Fanout`, one channel-shaped view over peers that must agree.
-- The peers are numbered as the channels are. What a peer's channel gives, and which sockets are
-- readable each time that `select` returns before the deadline, are arguments of the model.
pub mod Peers
pub mod Gathering
pub mod Agreement
pub mod Barrier
use ndif.Prelude.{
  among, ℕ, zero, suc, ◌+◌, Bool, true, false, not, ◌||◌, Option, none, some, List, [], ◌∷◌, ◌++◌,
  keep, ◌==◌, if◌then◌else◌,
}
use ndif.Prelude.Dict.{Dict, lookup, set}
use ndif.Prelude.Results.{Result, ok, raise}

-- A received message as `signature_of` tells it apart: a pair whose first half is a sequence, any
-- other sequence, or another value.
pub data Message (V : Type 0) : Type 0 where
  pair_message : List V → V → Message V
  sequence_message : List V → Message V
  plain_message : V → Message V

-- The first value, or Python's `None`.
unfoldable pub first_or : {V : Type 0} → V → List V → V
first_or none_value [] = none_value
first_or none_value (value ∷ values) = value

unfoldable pub signature_of : {V : Type 0} → V → Message V → V
signature_of none_value (pair_message values rest) = first_or none_value values
signature_of none_value (sequence_message values) = first_or none_value values
signature_of none_value (plain_message value) = value

-- What `RanksDiverged` reports; the texts are left out.
pub data Divergence : Type 0 where
  late : List ℕ → Divergence
  dropped : ℕ → Divergence
  disagreeing : Divergence

-- `no_peer` is the `KeyError` of `signatures[0]` where there are no channels.
pub data Reply (M : Type 0) : Type 0 where
  answered : M → Reply M
  diverged : Divergence → Reply M
  no_peer : Reply M

unfoldable pub any_of : {V : Type 0} → (V → Bool) → Dict V → Bool
any_of test [] = false
any_of test ((i, v) ∷ d) = test v || any_of test d

-- `select.select` answers in the order that it was asked in.
unfoldable pub select : List ℕ → List ℕ → List ℕ
select waiting readable = keep (λ i. among i readable) waiting

-- `waiting.pop`.
unfoldable pub pop_peer : ℕ → List ℕ → List ℕ
pop_peer i waiting = keep (λ j. not (j == i)) waiting

unfoldable pub peers_from : ℕ → ℕ → List ℕ
peers_from zero first = []
peers_from (suc count) first = first ∷ peers_from count (first + 1)

-- The next step runs on what was answered.
infixl 5 ◌and_then◌
abbrev pub ◌and_then◌ : {M N : Type 0} → Reply M → (M → Reply N) → Reply N
answered m and_then next = next m
diverged divergence and_then next = diverged divergence
no_peer and_then next = no_peer

module _ {M : Type 0} (answers : ℕ → Result M) where
  -- One message of each peer that is ready, with who is waited for and what came so far.
  unfoldable pub read_ready : List ℕ → List ℕ → Dict M → Reply (List ℕ × Dict M)
  read_ready [] waiting received = answered (waiting, received)
  read_ready (i ∷ ready) waiting received = elim (answers i) [
    | raise exception ↦ diverged (dropped i)
    | ok message ↦ read_ready ready (pop_peer i waiting) (set i message received)
  ]

  -- The `while` loop. The rounds end where the deadline has passed.
  unfoldable pub gather : List (List ℕ) → List ℕ → Dict M → Reply (Dict M)
  gather rounds [] received = answered received
  gather [] (i ∷ waiting) received = diverged (late (i ∷ waiting))
  gather (readable ∷ rounds) (i ∷ waiting) received =
      read_ready (select (i ∷ waiting) readable) (i ∷ waiting) received
      and_then (λ (waiting', received'). gather rounds waiting' received')

module _ {M V : Type 0} (signature : M → V) (same : V → V → Bool) where
  unfoldable pub agree : Dict M → Reply M
  agree received = elim (lookup 0 received) [
    | none ↦ no_peer
    | some first ↦
        if any_of (λ message. not (same (signature message) (signature first))) received
        then diverged disagreeing
        else answered first
  ]

  unfoldable pub recv : (ℕ → Result M) → ℕ → List (List ℕ) → Reply M
  recv answers count rounds = gather answers rounds (peers_from count 0) [] and_then agree
