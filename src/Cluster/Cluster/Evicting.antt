-- ===== src/Cluster/Cluster/Evicting.antt =====
-- cluster.py: `Cluster.evict`.
use ndif.Prelude.{
  ℕ, zero, suc, Bool, false, ◌||◌, Option, none, some, List, [], ◌∷◌, ◌++◌, map, ltb, ◌==◌,
  if◌then◌else◌,
}
use ndif.Prelude.Dict.{Dict}
use ndif.Prelude.Results.{Result, ok, ◌>>=◌}
use ndif.Prelude.Sort.{sort}
use ndif.Evaluator.{ModelKey}
use ndif.Cluster.Deployment.{Deployment, ReplicaId, Classes}
use ndif.Cluster.Replicas.{find, inner_of}
use ndif.Cluster.Node.{Node, Excluded, evict, is_some}
use ndif.Cluster.Cluster.{Cluster}

-- The HOT replica, or else the WARM one.
unfoldable pub replica : ModelKey → ReplicaId → Node → Option Deployment
replica mk rid node = elim (find mk rid node.deployments) [
  | some d ↦ some d
  | none ↦ find mk rid node.cache
]

abbrev pub no_exclusion : Excluded
no_exclusion = []

-- `while rid in ...: node.evict(model_key, rid)`, a bounded number of times.
unfoldable pub drain : Classes → ℕ → ℕ → ModelKey → ReplicaId → Node → Result Node
drain classes now zero mk rid node = ok node
drain classes now (suc rounds) mk rid node =
    if is_some (replica mk rid node)
    then evict classes now no_exclusion mk rid node >>= drain classes now rounds mk rid
    else ok node

-- A HOT replica becomes WARM and then goes.
abbrev pub drain_rounds : ℕ
drain_rounds = 2

abbrev pub id_of : ReplicaId × Deployment → ReplicaId
id_of (rid, d) = rid

unfoldable pub mem_id : ReplicaId → List ReplicaId → Bool
mem_id rid [] = false
mem_id rid (r ∷ rids) = r == rid || mem_id rid rids

-- The union of two lists of ids, each once.
unfoldable pub union : List ReplicaId → List ReplicaId → List ReplicaId
unfolding mem_id
union known [] = known
union known (r ∷ rids) = union (if mem_id r known then known else known ++ r ∷ []) rids

-- `sorted({*..., *...})`: the model's replicas on a node.
unfoldable pub replica_ids : ModelKey → Node → List ReplicaId
unfolding union
replica_ids mk node =
    sort ltb
      (union [] (map id_of (inner_of mk node.deployments) ++ map id_of (inner_of mk node.cache)))

abbrev pub with_state : Option Deployment → List Deployment → List Deployment
with_state none states = states
with_state (some d) states = states ++ d ∷ []

-- The fan-out on one node: its state after, and the replicas as they were.
unfoldable pub drain_ids :
    Classes
    → ℕ
    → ModelKey
    → List ReplicaId
    → Node × List Deployment
    → Result (Node × List Deployment)
drain_ids classes now mk [] (node, states) = ok (node, states)
drain_ids classes now mk (rid ∷ rids) (node, states) = do
  node' ← drain classes now drain_rounds mk rid node
  drain_ids classes now mk rids (node', with_state (replica mk rid node) states)

-- One replica: only on the first node that has it.
unfoldable pub evict_one :
    Classes → ℕ → ModelKey → ReplicaId → Dict Node → Result (Dict Node × List Deployment)
evict_one classes now mk rid [] = ok ([], [])
evict_one classes now mk rid ((id, node) ∷ nodes) = elim (replica mk rid node) [
  | some d ↦
      evict classes now no_exclusion mk rid node >>= λ node'. ok ((id, node') ∷ nodes, d ∷ [])
  | none ↦ evict_one classes now mk rid nodes >>= λ done. ok ((id, node) ∷ done.0, done.1)
]

-- Every replica of the model, node by node.
unfoldable pub evict_model :
    Classes → ℕ → ModelKey → Dict Node → Result (Dict Node × List Deployment)
evict_model classes now mk [] = ok ([], [])
evict_model classes now mk ((id, node) ∷ nodes) =
    drain_ids classes now mk (replica_ids mk node) (node, []) >>= λ here.
    evict_model classes now mk nodes >>= λ there. ok ((id, here.0) ∷ there.0, here.1 ++ there.1)

-- `Cluster.evict`
unfoldable pub evict_replicas :
    Classes → ℕ → ModelKey → Option ReplicaId → Cluster → Result (Cluster × List Deployment)
unfolding evict_one evict_model
evict_replicas classes now mk replica_id cluster =
    (elim replica_id [
      | some rid ↦ evict_one classes now mk rid cluster.nodes
      | none ↦ evict_model classes now mk cluster.nodes
    ])
    >>= λ done. ok (record cluster { nodes = done.0 }, done.1)
