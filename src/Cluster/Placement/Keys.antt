-- ===== src/Cluster/Placement/Keys.antt =====
-- node.py: the set of evictions of a candidate.
use ndif.Prelude.{
  ◌≡◌, refl, Bool, true, false, ◌||◌, List, [], ◌∷◌, ◌++◌, inl, inr, All, arith, Bool-cases,
}
use ndif.Evaluator.{ModelKey}
use ndif.Cluster.Deployment.{ReplicaId}
use ndif.Cluster.Replicas.{Key}
use ndif.Cluster.Node.{mem_key}
use ndif.Cluster.Node.Clearing.{Once}
use ndif.Cluster.Placement.{Plan, update, all_evictions}

mem_key-append :
    (mk : ModelKey) (rid : ReplicaId) (xs ys : List Key)
    → mem_key mk rid (xs ++ ys) ≡ (mem_key mk rid xs || mem_key mk rid ys)
unfolding mem_key
mem_key-append mk rid [] ys = refl
mem_key-append mk rid ((k, r) ∷ xs) ys = ground (arith, mem_key-append mk rid xs ys)

snoc-Once :
    (mk : ModelKey) (rid : ReplicaId) (xs : List Key)
    → mem_key mk rid xs ≡ false
    → Once xs
    → Once (xs ++ (mk, rid) ∷ [])
unfolding mem_key
snoc-Once mk rid [] a o = (refl, tt)
snoc-Once mk rid ((k, r) ∷ xs) a o = (
  ground (arith, mem_key-append k r xs ((mk, rid) ∷ []), a, o.0),
  snoc-Once mk rid xs (ground arith) o.1,
)

mem_key-update :
    (mk : ModelKey) (rid : ReplicaId) (known keys : List Key)
    → mem_key mk rid (update known keys) ≡ (mem_key mk rid known || mem_key mk rid keys)
unfolding mem_key update
mem_key-update mk rid known [] = ground arith
mem_key-update mk rid known ((k, r) ∷ keys) = elim (Bool-cases (mem_key k r known)) [
  | inl e ↦ rw e (ground (arith, mem_key-update mk rid known keys))
  | inr e ↦ rw e (
      ground (
        arith,
        mem_key-update mk rid (known ++ (k, r) ∷ []) keys,
        mem_key-append mk rid known ((k, r) ∷ []),
      ))
]

update-Once : (known keys : List Key) → Once known → Once (update known keys)
unfolding update
update-Once known [] o = o
update-Once known ((k, r) ∷ keys) o = elim (Bool-cases (mem_key k r known)) [
  | inl e ↦ rw e (update-Once known keys o)
  | inr e ↦ rw e (update-Once (known ++ (k, r) ∷ []) keys (snoc-Once k r known e o))
]

-- A key is in the set exactly if a plan lists it.
abbrev pub listed : ModelKey → ReplicaId → List Plan → Bool
listed mk rid [] = false
listed mk rid (plan ∷ plans) = mem_key mk rid plan.keys || listed mk rid plans

pub all_evictions-Once :
    (known : List Key) (plans : List Plan) → Once known → Once (all_evictions known plans)
unfolding all_evictions
all_evictions-Once known [] o = o
all_evictions-Once known (plan ∷ plans) o =
    all_evictions-Once (update known plan.keys) plans (update-Once known plan.keys o)

pub mem_key-all_evictions :
    (mk : ModelKey) (rid : ReplicaId) (known : List Key) (plans : List Plan)
    → mem_key mk rid (all_evictions known plans) ≡ (mem_key mk rid known || listed mk rid plans)
unfolding all_evictions
mem_key-all_evictions mk rid known [] = ground arith
mem_key-all_evictions mk rid known (plan ∷ plans) = ground (
  arith,
  mem_key-all_evictions mk rid (update known plan.keys) plans,
  mem_key-update mk rid known plan.keys,
)

-- The order in which a Python set is listed: a rearrangement.
pub record IsListing (order : List Key → List Key) : Type 0 where
  pub same :
      (mk : ModelKey) (rid : ReplicaId) (keys : List Key)
      → mem_key mk rid (order keys) ≡ mem_key mk rid keys
  pub once : (keys : List Key) → Once keys → Once (order keys)

-- Every listed key is one of the evictions.
abbrev pub Within : List Key → List Key → Type 0
Within evictions keys = All (λ k. mem_key k.0 k.1 evictions ≡ true) keys

module _ (evictions : List Key) where
  Within-of :
      (keys : List Key)
      → ((mk : ModelKey) (rid : ReplicaId)
          → mem_key mk rid keys ≡ true
          → mem_key mk rid evictions ≡ true)
      → Within evictions keys
  unfolding mem_key
  Within-of [] f = tt
  Within-of ((k, r) ∷ keys) f =
      (f k r (ground arith), Within-of keys (λ mk rid h. f mk rid (ground arith)))

  -- A set that holds all listed keys holds those of each plan.
  pub all-Within :
      (plans : List Plan)
      → ((mk : ModelKey) (rid : ReplicaId)
          → listed mk rid plans ≡ true
          → mem_key mk rid evictions ≡ true)
      → All (λ plan. Within evictions plan.keys) plans
  all-Within [] f = tt
  all-Within (plan ∷ plans) f = (
    Within-of plan.keys (λ mk rid h. f mk rid (ground arith)),
    all-Within plans (λ mk rid h. f mk rid (ground arith)),
  )
