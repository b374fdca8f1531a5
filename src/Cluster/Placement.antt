-- ===== src/Cluster/Placement.antt =====
-- node.py: candidates, and how `Node.evaluate` finds one. It changes no state.
pub mod Keys
pub mod Freed
pub mod Victims
pub mod Room
pub mod Sound
pub mod Booking
use ndif.Prelude.{
  ℕ, suc, ◌+◌, Bool, true, false, not, ◌&&◌, ◌||◌, Option, none, some, List, [], ◌∷◌, ◌++◌, map,
  length, take, ltb, leb, ◌==◌, if◌then◌else◌,
}
use ndif.Prelude.Dict.{Dict, set}
use ndif.Prelude.Int.{ℤ, pos, ◌-ℤ◌, leb_ℤ, pos_part}
use ndif.Prelude.Results.{
  Result, ok, raise, key_error, value_error, zero_division_error, ◌>>=◌, or_raise,
}
use ndif.Prelude.Sort.{sort}
use ndif.Evaluator.{ModelKey, tp_degree, ceil_div, is_some_of, value_or}
use ndif.Cluster.Resources.{Gpu, required, fitting, minus}
use ndif.Cluster.Deployment.{Deployment, ReplicaId}
use ndif.Cluster.Replicas.{Key, Entry, entries, inner_of}
use ndif.Cluster.Node.{Node, Excluded, mem, mem_key}

pub data CandidateLevel : Type 0 where
  deployed cached_and_free free cached_and_full full cant_accommodate : CandidateLevel

-- The number of the IntEnum member: lower is better.
abbrev pub level_value : CandidateLevel → ℕ
level_value deployed = 0
level_value cached_and_free = 1
level_value free = 2
level_value cached_and_full = 3
level_value full = 4
level_value cant_accommodate = 5

-- The one reason that a node gives: the count of cards does not divide the model.
pub data Reason : Type 0 where
  uneven_split : (gpus max_tp : ℕ) → Reason

pub record Candidate : Type 0 where
  pub candidate_level : CandidateLevel
  pub gpus : Dict ℕ
  pub evictions : List Key
  pub reason : Option Reason

abbrev pub refused : Option Reason → Candidate
refused reason = record {
  candidate_level = cant_accommodate;
  gpus = [];
  evictions = [];
  reason = reason;
}

-- `time.time() - deployed < minimum`, with the subtraction taken to the other side.
unfoldable pub too_young : Option ℕ → ℕ → Deployment → Bool
too_young none now d = false
too_young (some minimum) now d = ltb now (d.deployed + minimum)

unfoldable pub evictable : Node → ℕ → Bool → Deployment → Bool
unfolding too_young
evictable node now pinned d =
    if d.pinned
    then false
    else if not pinned && too_young node.minimum_deployment_time_seconds now d
    then false
    else true

pub record Occupant : Type 0 where
  pub key : ModelKey
  pub rid : ReplicaId
  pub bytes : ℕ

-- What one replica adds to `occupants_by_gpu[gpu]`.
unfoldable pub seats : ℕ → ModelKey → ReplicaId → Dict ℕ → List Occupant
seats gpu mk rid [] = []
seats gpu mk rid ((idx, bytes) ∷ gpus) =
    if idx == gpu
    then record { key = mk; rid = rid; bytes = bytes } ∷ seats gpu mk rid gpus
    else seats gpu mk rid gpus

-- `occupants_by_gpu[gpu]`, from the replicas in iteration order.
unfoldable pub occupants : Node → ℕ → Bool → Excluded → ℕ → List Entry → List Occupant
occupants node now pinned exclude gpu [] = []
occupants node now pinned exclude gpu (e ∷ es) =
    if mem e.key exclude || not (evictable node now pinned e.deployment)
    then occupants node now pinned exclude gpu es
    else seats gpu e.key e.rid e.deployment.gpus ++ occupants node now pinned exclude gpu es

abbrev pub fewer_bytes : Occupant → Occupant → Bool
fewer_bytes a b = ltb a.bytes b.bytes

abbrev pub key_of : Occupant → Key
key_of o = (o.key, o.rid)

-- The loop that frees one card: `none` where the occupants do not add up to what is needed.
unfoldable pub free_up : ℕ → ℕ → List Occupant → Option (List Key)
free_up needed freed [] = none
free_up needed freed (o ∷ os) =
    let freed' = freed + o.bytes in
    let rest = free_up needed freed' os in
    if leb needed freed'
    then some (key_of o ∷ [])
    else elim rest [ none ↦ none | some keys ↦ some (key_of o ∷ keys) ]

pub record Plan : Type 0 where
  pub gpu : ℕ
  pub keys : List Key

-- What it takes to have `per_gpu_bytes` on one card.
unfoldable pub plan_gpu : ℕ → Gpu → List Occupant → Option Plan
plan_gpu per_gpu_bytes gpu listed =
    let needed = pos per_gpu_bytes -ℤ gpu.available_memory_bytes in
    if leb_ℤ needed (pos 0)
    then some (record { gpu = gpu.index; keys = [] })
    else elim (free_up (pos_part needed) 0 (sort fewer_bytes listed)) [
      | none ↦ none
      | some keys ↦ some (record { gpu = gpu.index; keys = keys })
    ]

-- `gpu_plans.append(...)`, if the card can be had.
abbrev pub with_plan : Option Plan → List Plan → List Plan
with_plan none plans = plans
with_plan (some plan) plans = plan ∷ plans

unfoldable pub gpu_plans : Node → ℕ → Bool → Excluded → ℕ → List Gpu → List Plan
gpu_plans node now pinned exclude per_gpu_bytes [] = []
gpu_plans node now pinned exclude per_gpu_bytes (gpu ∷ gpus) =
    with_plan
      (plan_gpu per_gpu_bytes gpu
        (occupants node now pinned exclude gpu.index (entries node.deployments)))
      (gpu_plans node now pinned exclude per_gpu_bytes gpus)

abbrev pub shorter : Plan → Plan → Bool
shorter a b = ltb (length a.keys) (length b.keys)

-- `all_evictions.update(eviction_keys)`: a set, listed by first arrival.
unfoldable pub update : List Key → List Key → List Key
update known [] = known
update known ((mk, rid) ∷ keys) =
    update (if mem_key mk rid known then known else known ++ (mk, rid) ∷ []) keys

unfoldable pub all_evictions : List Key → List Plan → List Key
all_evictions known [] = known
all_evictions known (plan ∷ plans) = all_evictions (update known plan.keys) plans

-- `gpus[gpu_index] = per_gpu_bytes` for each index.
unfoldable pub book : ℕ → List ℕ → Dict ℕ → Dict ℕ
book bytes [] d = d
book bytes (i ∷ is) d = book bytes is (set i bytes d)

abbrev pub plan_gpu_index : Plan → ℕ
plan_gpu_index plan = plan.gpu

-- `order` lists a Python set: some rearrangement of it.
unfoldable pub find_evictions :
    (List Key → List Key) → Node → ℕ → ℕ → ℕ → Bool → Excluded → List Key × Dict ℕ
find_evictions order node now gpus_needed per_gpu_bytes pinned exclude =
    let plans = gpu_plans node now pinned exclude per_gpu_bytes node.gpu_resources.gpus in
    let chosen = take gpus_needed (sort shorter plans) in
    if ltb (length plans) gpus_needed
    then ([], [])
    else (order (all_evictions [] chosen), book per_gpu_bytes (map plan_gpu_index chosen) [])

abbrev pub is_cached : ModelKey → Node → Bool
is_cached mk node = elim (inner_of mk node.cache) [ [] ↦ false | _ ∷ _ ↦ true ]

-- The count of cards: asked for outright, or from the size and rounded up to a degree.
pub data Count : Type 0 where
  uneven : ℕ → ℕ → Count
  cards : ℕ → Count

abbrev pub larger : ℕ → Option ℕ → ℕ
larger n none = n
larger n (some degree) = if ltb n degree then degree else n

unfoldable pub requested : Option ℕ → ℕ → Count
requested none gpus = cards gpus
requested (some max_tp) gpus =
    if ltb 1 gpus && not (is_some_of (tp_degree (some max_tp) gpus) gpus)
    then uneven gpus max_tp
    else cards gpus

unfoldable pub gpus_needed : Option ℕ → Option ℕ → ℕ → List Gpu → Result Count
gpus_needed max_tp (some gpus) size cards_of = ok (requested max_tp gpus)
gpus_needed max_tp none size cards_of = do
  needed ← or_raise value_error (required size cards_of)
  ok (cards (larger needed (tp_degree max_tp needed)))

-- `math.ceil(size / gpus_needed)` unless a share is given.
unfoldable pub share : Option ℕ → ℕ → ℕ → Result ℕ
share (some bytes) size needed = ok bytes
share none size needed =
    if needed == 0 then raise zero_division_error else ok (ceil_div size needed)

abbrev pub index_of : Gpu → ℕ
index_of gpu = gpu.index

-- `if not gpus` ends the search.
abbrev pub by_evictions : CandidateLevel → List Key × Dict ℕ → Candidate
by_evictions level (evictions, []) = refused none
by_evictions level (evictions, entry ∷ gpus) = record {
  candidate_level = level;
  gpus = entry ∷ gpus;
  evictions = evictions;
  reason = none;
}

-- The end of `evaluate`: the cards that fit, or the evictions that make them fit.
unfoldable pub choose :
    (List Key → List Key) → Node → ℕ → ModelKey → ℕ → ℕ → Bool → Excluded → Candidate
choose order node now mk needed per_gpu_bytes pinned exclude =
    let fit = fitting per_gpu_bytes node.gpu_resources.gpus in
    if leb needed (length fit)
    then record {
      candidate_level = if is_cached mk node then cached_and_free else free;
      gpus = book per_gpu_bytes (map index_of (take needed fit)) [];
      evictions = [];
      reason = none;
    }
    else by_evictions (if is_cached mk node then cached_and_full else full)
        (find_evictions order node now needed per_gpu_bytes pinned exclude)

unfoldable pub weigh_up :
    (List Key → List Key)
    → Node
    → ℕ
    → ModelKey
    → ℕ
    → Option ℕ
    → Bool
    → Excluded
    → Count
    → Result Candidate
weigh_up order node now mk size per_gpu pinned exclude (uneven gpus max_tp) =
    ok (refused (some (uneven_split gpus max_tp)))
weigh_up order node now mk size per_gpu pinned exclude (cards needed) =
    if ltb (length node.gpu_resources.gpus) needed
    then ok (refused none)
    else share per_gpu size needed >>= λ per_gpu_bytes.
        ok (choose order node now mk needed per_gpu_bytes pinned exclude)

-- `evaluate`
unfoldable pub evaluate :
    (List Key → List Key)
    → Node
    → ℕ
    → ModelKey
    → ℕ
    → Bool
    → Excluded
    → Option ℕ
    → Option ℕ
    → Option ℕ
    → Result Candidate
evaluate order node now mk size pinned exclude max_tp gpus per_gpu = do
  count ← gpus_needed max_tp gpus size node.gpu_resources.gpus
  weigh_up order node now mk size per_gpu pinned exclude count
