-- ===== src/Sandbox/Fanout/Gathering.antt =====
-- services/ray/sandbox/protocol.py: what `Fanout.recv` has when it stops.
use ndif.Prelude.{
  among, ℕ, ◌<◌, ◌≡◌, refl, true, some, List, [], ◌∷◌, All, ◌==◌, Bool-cases, ◌⊎◌, inl, inr, arith,
}
use ndif.Prelude.Dict.{Dict, lookup, set, lookup-set, set-All}
use ndif.Prelude.Results.{Result, ok, Result-cases}
use ndif.Sandbox.Fanout.{
  Reply, answered, diverged, no_peer, select, pop_peer, peers_from, ◌and_then◌, read_ready, gather,
}
use ndif.Sandbox.Fanout.Peers.{
  among-head, among-tail, among-keep, among-pop_peer, pop_peer-among, among-peers_from,
  peers_from-among,
}

-- What holds of a reply: of its answer, or else `Otherwise`.
abbrev pub Answers : {M : Type 0} → Type 0 → Reply M → (M → Type 0) → Type 0
Answers Otherwise (answered m) P = P m
Answers Otherwise (diverged divergence) P = Otherwise
Answers Otherwise no_peer P = Otherwise

pub and_then-Answers :
    {M N : Type 0} (Otherwise : Type 0) (P : M → Type 0) (Q : N → Type 0) (reply : Reply M)
    (next : M → Reply N)
    → Answers Otherwise reply P
    → ((m : M) → P m → Answers Otherwise (next m) Q)
    → Answers Otherwise (reply and_then next) Q
and_then-Answers Otherwise P Q (answered m) next a h = h m a
and_then-Answers Otherwise P Q (diverged divergence) next a h = a
and_then-Answers Otherwise P Q no_peer next a h = a

pub Answers_imp :
    {M : Type 0} (Otherwise : Type 0) (P Q : M → Type 0) (reply : Reply M)
    → ((m : M) → P m → Q m)
    → Answers Otherwise reply P
    → Answers Otherwise reply Q
Answers_imp Otherwise P Q (answered m) f a = f m a
Answers_imp Otherwise P Q (diverged divergence) f a = a
Answers_imp Otherwise P Q no_peer f a = a

module _ {M : Type 0} (answers : ℕ → Result M) (count : ℕ) where
  -- Each peer is waited for, or its message is among those that came; those are the peers' own.
  pub record Kept (waiting : List ℕ) (received : Dict M) : Type 0 where
    pub covered :
        (i : ℕ)
        → i < count
        → (among i waiting ≡ true) ⊎ ((m : M) × (lookup i received ≡ some m) × (answers i ≡ ok m))
    pub below : (i : ℕ) → among i waiting ≡ true → i < count
    pub own : All (λ entry. (entry.0 < count) × (answers entry.0 ≡ ok entry.1)) received

  pub start-Kept : Kept (peers_from count 0) []
  start-Kept = record {
    covered = λ i h. inl (among-peers_from count 0 i (omega arith) (omega arith));
    below = λ i h. ground (arith, (peers_from-among count 0 i h).1);
    own = tt;
  }

  pub next-Kept :
      (i : ℕ) (m : M) (waiting : List ℕ) (received : Dict M)
      → i < count
      → answers i ≡ ok m
      → Kept waiting received
      → Kept (pop_peer i waiting) (set i m received)
  next-Kept i m waiting received below answer kept = record {
    covered = λ j h. elim (Bool-cases (i == j)) [
      | inl e ↦
          let here : i ≡ j = ground arith in
          inr (m, rw (lookup-set i j m received, e) refl, rw here at answer)
      | inr e ↦ elim (kept.covered j h) [
        | inl there ↦ inl (pop_peer-among i j waiting there (ground arith))
        | inr (m', found, answer') ↦ inr (m', rw (lookup-set i j m received, e) found, answer')
      ]
    ];
    below = λ j h. kept.below j (among-pop_peer i j waiting h).0;
    own =
        set-All (λ entry. (entry.0 < count) × (answers entry.0 ≡ ok entry.1)) i m received
          (below, answer) kept.own;
  }

  read_ready-Kept :
      (ready waiting : List ℕ) (received : Dict M)
      → ((i : ℕ) → among i ready ≡ true → i < count)
      → Kept waiting received
      → Answers (Unit {0}) (read_ready answers ready waiting received) (λ (w, r). Kept w r)
  unfolding read_ready
  read_ready-Kept [] waiting received below kept = kept
  read_ready-Kept (i ∷ ready) waiting received below kept = elim (Result-cases (answers i)) [
    | inl (exception, e) ↦ rw (Answers, e) tt
    | inr (m, e) ↦
        rw (Answers, e)
          (read_ready-Kept ready (pop_peer i waiting) (set i m received)
            (λ j h. below j (among-tail i j ready h))
            (next-Kept i m waiting received (below i (among-head i ready)) e kept))
  ]

  pub gather-Kept :
      (rounds : List (List ℕ)) (waiting : List ℕ) (received : Dict M)
      → Kept waiting received
      → Answers (Unit {0}) (gather answers rounds waiting received) (λ r. Kept [] r)
  unfolding gather select
  gather-Kept rounds [] received kept = kept
  gather-Kept [] (i ∷ waiting) received kept = tt
  gather-Kept (readable ∷ rounds) (i ∷ waiting) received kept =
      and_then-Answers (Unit {0}) (λ (w, r). Kept w r) (λ r. Kept [] r)
        (read_ready answers (select (i ∷ waiting) readable) (i ∷ waiting) received)
        (λ (w, r). gather answers rounds w r)
        (read_ready-Kept (select (i ∷ waiting) readable) (i ∷ waiting) received
          (λ j h. kept.below j (among-keep j (λ k. among k readable) (i ∷ waiting) h).0) kept)
        (λ (w, r) k. gather-Kept rounds w r k)
