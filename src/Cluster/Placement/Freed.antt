-- ===== src/Cluster/Placement/Freed.antt =====
-- node.py: how much the evictions of a plan bring back on its card.
use ndif.Prelude.{
  ℕ, ◌+◌, ◌≤◌, ◌≡◌, Bool, not, ◌||◌, some, List, [], ◌∷◌, inl, inr, arith, Bool-cases, Option-cases,
  leb, leb→le, if◌then◌else◌, sum_of, sum_of-append,
}
use ndif.Prelude.Dict.{Dict}
use ndif.Evaluator.{ModelKey}
use ndif.Cluster.Deployment.{ReplicaId}
use ndif.Cluster.Resources.Charges.{charge}
use ndif.Cluster.Replicas.{Key, Entry}
use ndif.Cluster.Replicas.Listing.{weigh}
use ndif.Cluster.Node.{Node, Excluded, mem, mem_key}
use ndif.Cluster.Node.Invariant.{on}
use ndif.Cluster.Node.Clearing.{inside}
use ndif.Cluster.Placement.Keys.{Within}
use ndif.Cluster.Placement.{Occupant, seats, occupants, evictable, key_of, free_up}

module _ (evictions : List Key) where
  -- The bytes of an occupant that goes.
  abbrev pub going : Occupant → ℕ
  going o = if mem_key o.key o.rid evictions then o.bytes else 0

  pub free_up_enough :
      (needed freed : ℕ) (os : List Occupant) (keys : List Key)
      → free_up needed freed os ≡ some keys
      → Within evictions keys
      → needed ≤ freed + sum_of going os
  unfolding free_up sum_of
  free_up_enough needed freed [] keys h w = absurd (ground arith)
  free_up_enough needed freed (o ∷ os) keys h w = elim (Bool-cases (leb needed (freed + o.bytes))) [
    | inl e ↦
        let last : key_of o ∷ [] ≡ keys = ground arith in
        let mine : Within evictions (key_of o ∷ []) = rw (← last) at w in
        let counted : going o ≡ o.bytes = ground (arith, mine.0) in
        omega (arith, leb→le _ _ e, counted)
    | inr e ↦ elim (Option-cases (free_up needed (freed + o.bytes) os)) [
      | inl g ↦ absurd (ground arith)
      | inr (rest, g) ↦
          let whole : key_of o ∷ rest ≡ keys = ground arith in
          let mine : Within evictions (key_of o ∷ rest) = rw (← whole) at w in
          let counted : going o ≡ o.bytes = ground (arith, mine.0) in
          omega (arith, counted, free_up_enough needed (freed + o.bytes) os rest g mine.1)
    ]
  ]

  sum_of-seats :
      (gpu : ℕ) (mk : ModelKey) (rid : ReplicaId) (gpus : Dict ℕ)
      → sum_of going (seats gpu mk rid gpus)
        ≡ (if mem_key mk rid evictions then charge gpu gpus else 0)
  unfolding seats sum_of charge
  sum_of-seats gpu mk rid [] = ground arith
  sum_of-seats gpu mk rid ((idx, bytes) ∷ gpus) = ground (arith, sum_of-seats gpu mk rid gpus)

  -- The occupants are some of the replicas on the card.
  pub sum_of-occupants :
      (node : Node) (now : ℕ) (pinned : Bool) (exclude : Excluded) (gpu : ℕ) (es : List Entry)
      → sum_of going (occupants node now pinned exclude gpu es)
        ≤ sum_of (weigh (inside evictions (on gpu))) es
  unfolding occupants sum_of
  sum_of-occupants node now pinned exclude gpu [] = omega arith
  sum_of-occupants node now pinned exclude gpu (e ∷ es) =
      let rest = sum_of-occupants node now pinned exclude gpu es in
      elim (Bool-cases (mem e.key exclude || not (evictable node now pinned e.deployment))) [
        | inl s ↦ rw s (omega arith)
        | inr s ↦ rw s (
            omega (
              arith,
              sum_of-append going (seats gpu e.key e.rid e.deployment.gpus)
                  (occupants node now pinned exclude gpu es),
              sum_of-seats gpu e.key e.rid e.deployment.gpus,
            ))
      ]
