-- ===== src/Sandbox/Fanout/Peers.antt =====
-- services/ray/sandbox/protocol.py: the numbers of the peers that are waited for.
use ndif.Prelude.{
  among, ◌||◌, ℕ, zero, suc, ◌+◌, ◌<◌, ◌≤◌, ◌≡◌, refl, Bool, true, false, not, some, List, [], ◌∷◌,
  All, keep, ◌==◌, Bool-cases, inl, inr, arith,
}
use ndif.Prelude.Dict.{Dict, lookup}
use ndif.Sandbox.Fanout.{any_of, pop_peer, peers_from}

pub among-nil : (i : ℕ) → among i [] ≡ true → ⊥
unfolding among
among-nil i h = ground arith

pub among-head : (i : ℕ) (xs : List ℕ) → among i (i ∷ xs) ≡ true
unfolding among
among-head i xs = ground arith

pub among-tail : (i j : ℕ) (xs : List ℕ) → among j xs ≡ true → among j (i ∷ xs) ≡ true
unfolding among
among-tail i j xs h = ground arith

pub among-keep :
    (i : ℕ) (p : ℕ → Bool) (xs : List ℕ)
    → among i (keep p xs) ≡ true
    → (among i xs ≡ true) × (p i ≡ true)
unfolding among keep
among-keep i p [] h = absurd (ground arith)
among-keep i p (x ∷ xs) h = elim (Bool-cases (p x)) [
  | inl e ↦ elim (Bool-cases (x == i)) [
    | inl f ↦ let same : x ≡ i = ground arith in (rw f refl, rw same at e)
    | inr f ↦ rw f (among-keep i p xs (rw (e, f) at h))
  ]
  | inr e ↦ let rest = among-keep i p xs (rw e at h) in (ground (arith, rest.0), rest.1)
]

pub keep-among :
    (i : ℕ) (p : ℕ → Bool) (xs : List ℕ)
    → among i xs ≡ true
    → p i ≡ true
    → among i (keep p xs) ≡ true
unfolding among keep
keep-among i p [] h k = absurd (ground arith)
keep-among i p (x ∷ xs) h k = elim (Bool-cases (x == i)) [
  | inl f ↦
      let same : x ≡ i = ground arith in
      let passes : p x ≡ true = rw same k in rw passes (rw f refl)
  | inr f ↦
      let rest = keep-among i p xs (rw f at h) k in
      elim (Bool-cases (p x)) [ inl e ↦ rw e (rw f rest) | inr e ↦ rw e rest ]
]

pub among-pop_peer :
    (i j : ℕ) (waiting : List ℕ)
    → among j (pop_peer i waiting) ≡ true
    → (among j waiting ≡ true) × ((j == i) ≡ false)
unfolding pop_peer
among-pop_peer i j waiting h =
    let (there, other) = among-keep j (λ k. not (k == i)) waiting h in (there, ground arith)

pub pop_peer-among :
    (i j : ℕ) (waiting : List ℕ)
    → among j waiting ≡ true
    → (j == i) ≡ false
    → among j (pop_peer i waiting) ≡ true
unfolding pop_peer
pop_peer-among i j waiting h k = keep-among j (λ k. not (k == i)) waiting h (ground arith)

pub among-peers_from :
    (count first i : ℕ) → first ≤ i → i < first + count → among i (peers_from count first) ≡ true
unfolding among peers_from
among-peers_from zero first i h k = absurd (omega arith)
among-peers_from (suc count) first i h k = elim (Bool-cases (first == i)) [
  | inl e ↦ rw e refl
  | inr e ↦ rw e (among-peers_from count (first + 1) i (ground arith) (omega arith))
]

pub peers_from-among :
    (count first i : ℕ)
    → among i (peers_from count first) ≡ true
    → (first ≤ i) × (i < first + count)
unfolding among peers_from
peers_from-among zero first i h = absurd (ground arith)
peers_from-among (suc count) first i h = elim (Bool-cases (first == i)) [
  | inl e ↦ (ground arith, ground arith)
  | inr e ↦
      let (low, high) = peers_from-among count (first + 1) i (rw e at h) in
      (omega arith, omega arith)
]

pub any_of-lookup :
    {V : Type 0} (test : V → Bool) (d : Dict V) (i : ℕ) (v : V)
    → lookup i d ≡ some v
    → test v ≡ true
    → any_of test d ≡ true
unfolding any_of lookup
any_of-lookup test [] i v h k = absurd cc
any_of-lookup test ((j, w) ∷ d) i v h k = elim (Bool-cases (j == i)) [
  | inl e ↦
      let same : w ≡ v = let found : some w ≡ some v = rw e at h in cc in
      let passes : test w ≡ true = rw same k in rw passes refl
  | inr e ↦ let rest = any_of-lookup test d i v (rw e at h) k in ground arith
]

-- Where the test holds at some entry it holds at a key's value.
pub any_of-found :
    {V : Type 0} (test : V → Bool) (d : Dict V) (P : ℕ → V → Type 0)
    → All (λ entry. P entry.0 entry.1) d
    → any_of test d ≡ true
    → (i : ℕ) × (v : V) × P i v × (test v ≡ true)
unfolding any_of
any_of-found test [] P all h = absurd (ground arith)
any_of-found test ((i, v) ∷ d) P all h = elim (Bool-cases (test v)) [
  | inl e ↦ (i, v, all.0, e)
  | inr e ↦ any_of-found test d P all.1 (rw e at h)
]

pub not_differs :
    {V : Type 0} (test : V → Bool) (d : Dict V) (i : ℕ) (v : V)
    → lookup i d ≡ some v
    → any_of test d ≡ false
    → test v ≡ false
not_differs test d i v h k = elim (Bool-cases (test v)) [
  | inl e ↦ let found = any_of-lookup test d i v h e in ground arith
  | inr e ↦ e
]

unfoldable pub any_peer : (ℕ → Bool) → List ℕ → Bool
any_peer test [] = false
any_peer test (i ∷ peers) = test i || any_peer test peers

pub any_peer-among :
    (test : ℕ → Bool) (peers : List ℕ) (i : ℕ)
    → among i peers ≡ true
    → test i ≡ true
    → any_peer test peers ≡ true
unfolding any_peer among
any_peer-among test [] i h k = absurd (ground arith)
any_peer-among test (j ∷ peers) i h k = elim (Bool-cases (j == i)) [
  | inl e ↦
      let here : j ≡ i = ground arith in let holds : test j ≡ true = rw here k in rw holds refl
  | inr e ↦ let rest = any_peer-among test peers i (rw e at h) k in ground arith
]

pub any_peer-found :
    (test : ℕ → Bool) (peers : List ℕ)
    → any_peer test peers ≡ true
    → (i : ℕ) × (among i peers ≡ true) × (test i ≡ true)
unfolding any_peer
any_peer-found test [] h = absurd (ground arith)
any_peer-found test (i ∷ peers) h = elim (Bool-cases (test i)) [
  | inl e ↦ (i, among-head i peers, e)
  | inr e ↦
      let (j, there, holds) = any_peer-found test peers (rw e at h) in
      (j, among-tail i j peers there, holds)
]
