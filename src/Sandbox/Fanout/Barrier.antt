-- ===== src/Sandbox/Fanout/Barrier.antt =====
-- services/ray/sandbox/protocol.py: `Fanout.recv` where every peer answers in time.
use ndif.Prelude.{
  among, ℕ, ◌<◌, ◌≡◌, refl, ap, sym, ◌∙◌, Bool, true, false, not, ◌||◌, some, List, [], ◌∷◌,
  if◌then◌else◌, Bool-cases, inl, inr, arith,
}
use ndif.Prelude.Dict.{Dict, lookup, set}
use ndif.Prelude.Results.{Result, ok}
use ndif.Sandbox.Fanout.{
  Reply, answered, diverged, no_peer, disagreeing, any_of, select, pop_peer, peers_from, ◌and_then◌,
  read_ready, gather, agree, recv,
}
use ndif.Sandbox.Fanout.Peers.{
  among-nil, among-head, among-tail, among-keep, keep-among, among-pop_peer, among-peers_from,
  peers_from-among, any_of-lookup, any_of-found, any_peer, any_peer-among, any_peer-found,
}
use ndif.Sandbox.Fanout.Gathering.{
  Answers, and_then-Answers, Answers_imp, Kept, start-Kept, next-Kept,
}

-- The peer's socket was readable in some round before the deadline.
unfoldable pub reached : ℕ → List (List ℕ) → Bool
reached i [] = false
reached i (readable ∷ rounds) = among i readable || reached i rounds

same_truth : (a b : Bool) → (a ≡ true → b ≡ true) → (b ≡ true → a ≡ true) → a ≡ b
same_truth a b f g = ground arith

among-none : (i : ℕ) → among i [] ≡ false
unfolding among
among-none i = refl

reached-nil : (i : ℕ) → reached i [] ≡ true → ⊥
unfolding reached
reached-nil i h = ground arith

still_waiting :
    (i j : ℕ) (ready waiting : List ℕ)
    → (among j (pop_peer i waiting) ≡ true) × (among j ready ≡ false)
    → (among j waiting ≡ true) × (among j (i ∷ ready) ≡ false)
unfolding among
still_waiting i j ready waiting (there, unread) =
    let (there', other) = among-pop_peer i j waiting there in (there', ground arith)

later :
    (j : ℕ) (readable : List ℕ) (rounds : List (List ℕ)) (waiting : List ℕ)
    → (among j waiting ≡ true) × (among j (select waiting readable) ≡ false)
    → ((i : ℕ) → among i waiting ≡ true → reached i (readable ∷ rounds) ≡ true)
    → reached j rounds ≡ true
unfolding select reached
later j readable rounds waiting (there, unread) due = elim (Bool-cases (among j readable)) [
  | inl e ↦
      let chosen = keep-among j (λ k. among k readable) waiting there e in absurd (ground arith)
  | inr e ↦ let soon = due j there in ground arith
]

module _ {M : Type 0} (answers : ℕ → Result M) (count : ℕ) (message : ℕ → M)
    (heard : (i : ℕ) → i < count → answers i ≡ ok (message i)) where
  -- After a round no peer that was ready is waited for.
  abbrev Served : List ℕ → List ℕ → List ℕ × Dict M → Type 0
  Served ready waiting (waiting', received) =
      Kept answers count waiting' received
      × ((j : ℕ) → among j waiting' ≡ true → (among j waiting ≡ true) × (among j ready ≡ false))

  read_ready-Served :
      (ready waiting : List ℕ) (received : Dict M)
      → ((i : ℕ) → among i ready ≡ true → i < count)
      → Kept answers count waiting received
      → Answers ⊥ (read_ready answers ready waiting received) (λ r. Served ready waiting r)
  unfolding read_ready
  read_ready-Served [] waiting received below kept = (kept, λ j h. (h, among-none j))
  read_ready-Served (i ∷ ready) waiting received below kept =
      let in_range = below i (among-head i ready) in
      let answer = heard i in_range in
      rw (Answers, answer)
        (Answers_imp ⊥ (λ r. Served ready (pop_peer i waiting) r)
          (λ r. Served (i ∷ ready) waiting r)
          (read_ready answers ready (pop_peer i waiting) (set i (message i) received))
          (λ (w, r) served. (served.0, λ j h. still_waiting i j ready waiting (served.1 j h)))
          (read_ready-Served ready (pop_peer i waiting) (set i (message i) received)
            (λ j h. below j (among-tail i j ready h))
            (next-Kept answers count i (message i) waiting received in_range answer kept)))

  gather-Served :
      (rounds : List (List ℕ)) (waiting : List ℕ) (received : Dict M)
      → Kept answers count waiting received
      → ((i : ℕ) → among i waiting ≡ true → reached i rounds ≡ true)
      → Answers ⊥ (gather answers rounds waiting received) (λ r. Kept answers count [] r)
  unfolding gather select
  gather-Served rounds [] received kept due = kept
  gather-Served [] (i ∷ waiting) received kept due =
      absurd (reached-nil i (due i (among-head i waiting)))
  gather-Served (readable ∷ rounds) (i ∷ waiting) received kept due =
      and_then-Answers ⊥ (λ r. Served (select (i ∷ waiting) readable) (i ∷ waiting) r)
        (λ r. Kept answers count [] r)
        (read_ready answers (select (i ∷ waiting) readable) (i ∷ waiting) received)
        (λ (w, r). gather answers rounds w r)
        (read_ready-Served (select (i ∷ waiting) readable) (i ∷ waiting) received
          (λ j h. kept.below j (among-keep j (λ k. among k readable) (i ∷ waiting) h).0) kept)
        (λ (w, r) k.
          gather-Served rounds w r k.0 (λ j h. later j readable rounds (i ∷ waiting) (k.1 j h) due))

  in_place :
      (received : Dict M) (i : ℕ)
      → Kept answers count [] received
      → i < count
      → lookup i received ≡ some (message i)
  in_place received i kept h = elim (kept.covered i h) [
    | inl there ↦ absurd (among-nil i there)
    | inr (m, found, answer) ↦
        let mine = heard i h in
        let same : ok m ≡ ok (message i) = sym answer ∙ mine in
        let same' : m ≡ message i = cc in rw same' at found
  ]

  entry_of :
      (received : Dict M)
      → Kept answers count [] received
      → (test : M → Bool)
      → any_of test received ≡ any_peer (λ i. test (message i)) (peers_from count 0)
  entry_of received kept test =
      same_truth (any_of test received) (any_peer (λ i. test (message i)) (peers_from count 0))
        (λ h.
          let (i, m, (below, answer), holds) =
            any_of-found test received (λ i m. (i < count) × (answers i ≡ ok m)) kept.own h in
          let mine = heard i below in
          let same : ok m ≡ ok (message i) = sym answer ∙ mine in
          let same' : m ≡ message i = cc in
          any_peer-among (λ i. test (message i)) (peers_from count 0) i
            (among-peers_from count 0 i (omega arith) (omega arith)) (rw same' at holds))
        (λ h.
          let (i, there, holds) = any_peer-found (λ i. test (message i)) (peers_from count 0) h in
          let below : i < count = omega (arith, peers_from-among count 0 i there) in
          any_of-lookup test received i (message i) (in_place received i kept below) holds)

  module _ {V : Type 0} (signature : M → V) (same : V → V → Bool) (some_peer : 0 < count) where
    -- A message that is unlike the first peer's.
    abbrev pub differs : M → Bool
    differs m = not (same (signature m) (signature (message 0)))

    -- What the peers' messages come to, whatever order they come in.
    abbrev pub verdict : Reply M
    verdict =
        if any_peer (λ i. differs (message i)) (peers_from count 0)
        then diverged disagreeing
        else answered (message 0)

    agree_at :
        (received : Dict M) (first : M)
        → lookup 0 received ≡ some first
        → agree signature same received ≡ (
            if any_of (λ m. not (same (signature m) (signature first))) received
            then diverged disagreeing
            else answered first)
    unfolding agree
    agree_at received first e = rw (agree, e) refl

    agree-same :
        (received : Dict M)
        → Kept answers count [] received
        → agree signature same received ≡ verdict
    agree-same received kept =
        agree_at received (message 0) (in_place received 0 kept some_peer)
        ∙ ap (λ b. if b then diverged disagreeing else answered (message 0))
            (entry_of received kept differs)

    Answers-verdict :
        (reply : Reply (Dict M))
        → Answers ⊥ reply (λ r. Kept answers count [] r)
        → (reply and_then agree signature same) ≡ verdict
    Answers-verdict (answered received) kept = agree-same received kept
    Answers-verdict (diverged divergence) kept = absurd kept
    Answers-verdict no_peer kept = absurd kept

    -- Where every peer sends a message and its socket is readable before the deadline, `recv` ends,
    -- whatever order the messages come in: with the first peer's message if every signature is that
    -- of the first, and otherwise with the disagreement.
    pub recv-verdict :
        (rounds : List (List ℕ))
        → ((i : ℕ) → i < count → reached i rounds ≡ true)
        → recv signature same answers count rounds ≡ verdict
    unfolding recv
    recv-verdict rounds ready = Answers-verdict (gather answers rounds (peers_from count 0) []) (
        gather-Served rounds (peers_from count 0) [] (start-Kept answers count)
          (λ i h. ready i (omega (arith, peers_from-among count 0 i h))))
