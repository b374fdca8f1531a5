-- ===== src/Sandbox/Fanout/Agreement.antt =====
-- services/ray/sandbox/protocol.py: what `Fanout.recv` answers.
use ndif.Prelude.{
  ℕ, ◌<◌, ◌≡◌, Bool, true, false, not, List, [], Bool-cases, Option-cases, inl, inr, arith,
}
use ndif.Prelude.Dict.{All-lookup, Dict, lookup}
use ndif.Prelude.Results.{Result, ok, Returns}
use ndif.Sandbox.Fanout.{answered, any_of, peers_from, gather, agree, recv}
use ndif.Sandbox.Fanout.Peers.{among-nil, not_differs}
use ndif.Sandbox.Fanout.Gathering.{Answers, and_then-Answers, Kept, start-Kept, gather-Kept}

not-false : {b : Bool} → not b ≡ false → b ≡ true
not-false h = ground arith

module _ {M V : Type 0} (signature : M → V) (same : V → V → Bool) (answers : ℕ → Result M)
    (count : ℕ) where
  -- The reply's signature is that of every peer's message.
  abbrev pub Agreed : M → Type 0
  Agreed m =
      (i : ℕ) → i < count → Returns (answers i) (λ m'. same (signature m') (signature m) ≡ true)

  agree-Agreed :
      (received : Dict M)
      → Kept answers count [] received
      → Answers (Unit {0}) (agree signature same received) (λ m. (answers 0 ≡ ok m) × Agreed m)
  unfolding agree
  agree-Agreed received kept = elim (Option-cases (lookup 0 received)) [
    | inl e ↦ rw (Answers, e) tt
    | inr (first, e) ↦
        let differs = λ (m : M). not (same (signature m) (signature first)) in
        elim (Bool-cases (any_of differs received)) [
          | inl f ↦ rw (Answers, e, f) tt
          | inr f ↦
              rw (Answers, e, f)
                (
                  (All-lookup (λ i m. (i < count) × (answers i ≡ ok m)) received 0 first kept.own
                      e).1,
                  λ i h. elim (kept.covered i h) [
                    | inl there ↦ absurd (among-nil i there)
                    | inr (m, found, answer) ↦
                        (m, answer, not-false (not_differs differs received i m found f))
                  ],
                )
        ]
  ]

  -- `recv` returns a message only if it is the first peer's and every peer has sent one with the
  -- same signature.
  pub recv-Agreed :
      (rounds : List (List ℕ)) (m : M)
      → recv signature same answers count rounds ≡ answered m
      → (answers 0 ≡ ok m) × Agreed m
  unfolding recv
  recv-Agreed rounds m h =
      let stops =
        gather-Kept answers count rounds (peers_from count 0) [] (start-Kept answers count) in
      let replies =
        and_then-Answers (Unit {0}) (λ r. Kept answers count [] r)
          (λ m. (answers 0 ≡ ok m) × Agreed m) (gather answers rounds (peers_from count 0) [])
          (agree signature same) stops agree-Agreed in
      rw h at replies
