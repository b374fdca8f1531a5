-- ===== src/Cluster/Placement/Victims.antt =====
-- node.py: whom `find_evictions` names.
use ndif.Prelude.{
  ℕ, ◌+◌, ◌≡◌, refl, Bool, true, false, not, ◌||◌, Option, none, some, List, [], ◌∷◌, ◌⊎◌, inl, inr,
  All, All-append, arith, Bool-cases, Option-cases, ◌==◌, leb,
}
use ndif.Prelude.Dict.{Dict}
use ndif.Prelude.Int.{pos, ◌-ℤ◌, leb_ℤ, pos_part}
use ndif.Prelude.Sort.{sort, sort-All}
use ndif.Evaluator.{ModelKey}
use ndif.Cluster.Deployment.{Deployment, ReplicaId}
use ndif.Cluster.Resources.{Gpu}
use ndif.Cluster.Replicas.{Key, Entry, find, entries}
use ndif.Cluster.Replicas.Listing.{Found}
use ndif.Cluster.Node.{Node, Excluded, mem}
use ndif.Cluster.Placement.{
  Occupant, Plan, seats, occupants, evictable, fewer_bytes, key_of, free_up, plan_gpu, gpu_plans,
  with_plan,
}

with_plan-All :
    (P : Plan → Type 0) (o : Option Plan) (plans : List Plan)
    → ((plan : Plan) → o ≡ some plan → P plan)
    → All P plans
    → All P (with_plan o plans)
with_plan-All P none plans f a = a
with_plan-All P (some plan) plans f a = (f plan refl, a)

-- A card is planned as it is, or by the evictions that free what it lacks.
abbrev pub Planned : ℕ → Gpu → List Occupant → Plan → Type 0
Planned per gpu listed plan =
    (plan.gpu ≡ gpu.index)
    × ((leb_ℤ (pos per -ℤ gpu.available_memory_bytes) (pos 0) ≡ true) × (plan.keys ≡ [])
        ⊎ (leb_ℤ (pos per -ℤ gpu.available_memory_bytes) (pos 0) ≡ false)
          × (free_up (pos_part (pos per -ℤ gpu.available_memory_bytes)) 0 (sort fewer_bytes listed)
              ≡ some plan.keys))

pub plan_gpu-Planned :
    (per : ℕ) (gpu : Gpu) (listed : List Occupant) (plan : Plan)
    → plan_gpu per gpu listed ≡ some plan
    → Planned per gpu listed plan
unfolding plan_gpu
plan_gpu-Planned per gpu listed plan h = ground arith

module _ (node : Node) (now : ℕ) (pinned : Bool) (exclude : Excluded) where
  -- HOT, not excluded, and free to go.
  abbrev pub IsVictim : ModelKey → ReplicaId → Type 0
  IsVictim mk rid =
      (d : Deployment) × (find mk rid node.deployments ≡ some d)
      × (mem mk exclude ≡ false)
      × (evictable node now pinned d ≡ true)

  abbrev VictimKey : Key → Type 0
  VictimKey k = IsVictim k.0 k.1

  abbrev VictimOccupant : Occupant → Type 0
  VictimOccupant o = IsVictim o.key o.rid

  seats-All :
      (gpu : ℕ) (mk : ModelKey) (rid : ReplicaId) (gpus : Dict ℕ)
      → IsVictim mk rid
      → All VictimOccupant (seats gpu mk rid gpus)
  unfolding seats
  seats-All gpu mk rid [] v = tt
  seats-All gpu mk rid ((idx, bytes) ∷ gpus) v = elim (Bool-cases (idx == gpu)) [
    | inl e ↦ rw e (v, seats-All gpu mk rid gpus v)
    | inr e ↦ rw e (seats-All gpu mk rid gpus v)
  ]

  pub occupants-All :
      (gpu : ℕ) (es : List Entry)
      → All (Found node.deployments) es
      → All VictimOccupant (occupants node now pinned exclude gpu es)
  unfolding occupants
  occupants-All gpu [] f = tt
  occupants-All gpu (e ∷ es) f =
      elim (Bool-cases (mem e.key exclude || not (evictable node now pinned e.deployment))) [
        | inl s ↦ rw s (occupants-All gpu es f.1)
        | inr s ↦ rw s (
            All-append VictimOccupant (seats gpu e.key e.rid e.deployment.gpus)
              (occupants node now pinned exclude gpu es)
              (seats-All gpu e.key e.rid e.deployment.gpus
                (e.deployment, f.0, ground arith, ground arith))
              (occupants-All gpu es f.1))
      ]

  free_up-All :
      (needed freed : ℕ) (os : List Occupant) (keys : List Key)
      → All VictimOccupant os
      → free_up needed freed os ≡ some keys
      → All VictimKey keys
  unfolding free_up
  free_up-All needed freed [] keys a h = absurd (ground arith)
  free_up-All needed freed (o ∷ os) keys a h = elim (Bool-cases (leb needed (freed + o.bytes))) [
    | inl e ↦ let last : key_of o ∷ [] ≡ keys = ground arith in rw (← last) (a.0, tt)
    | inr e ↦ elim (Option-cases (free_up needed (freed + o.bytes) os)) [
      | inl g ↦ absurd (ground arith)
      | inr (rest, g) ↦
          let whole : key_of o ∷ rest ≡ keys = ground arith in
          rw (← whole) (a.0, free_up-All needed (freed + o.bytes) os rest a.1 g)
    ]
  ]

  -- What a property of each card's plan gives of all plans.
  pub gpu_plans-All :
      (P : Plan → Type 0) (per : ℕ) (gpus : List Gpu)
      → All
          (λ gpu.
            (plan : Plan)
            → plan_gpu per gpu
                (occupants node now pinned exclude gpu.index (entries node.deployments))
              ≡ some plan
            → P plan)
          gpus
      → All P (gpu_plans node now pinned exclude per gpus)
  unfolding gpu_plans
  gpu_plans-All P per [] a = tt
  gpu_plans-All P per (gpu ∷ gpus) a =
      with_plan-All P
        (plan_gpu per gpu (occupants node now pinned exclude gpu.index (entries node.deployments)))
        (gpu_plans node now pinned exclude per gpus) a.0 (gpu_plans-All P per gpus a.1)

  pub plan_gpu-victims :
      (per : ℕ) (gpu : Gpu) (listed : List Occupant) (plan : Plan)
      → All VictimOccupant listed
      → plan_gpu per gpu listed ≡ some plan
      → All VictimKey plan.keys
  plan_gpu-victims per gpu listed plan a h = elim (plan_gpu-Planned per gpu listed plan h).1 [
    | inl (e, k) ↦ rw k tt
    | inr (e, k) ↦
        free_up-All _ 0 (sort fewer_bytes listed) plan.keys
          (sort-All fewer_bytes VictimOccupant listed a) k
  ]
