-- ===== src/Cluster/Node/Invariant.antt =====
-- node.py: what holds of a node between calls: its books are balanced.
use ndif.Prelude.{ℕ, ◌+◌, ◌≡◌, none, some, List, All}
use ndif.Prelude.Int.{pos_part, neg_part}
use ndif.Evaluator.{ModelKey}
use ndif.Cluster.Resources.{Gpu}
use ndif.Cluster.Resources.Charges.{charge, Distinct, Fitted}
use ndif.Cluster.Deployment.{Deployment, ReplicaId}
use ndif.Cluster.Replicas.{Replicas, find}
use ndif.Cluster.Replicas.Weights.{Weight, total, IsTable}
use ndif.Cluster.Node.{Node}

-- What a replica holds of card `i`, and of the CPU cache.
abbrev pub on : ℕ → Weight
on i mk rid d = charge i d.gpus

abbrev pub size_weight : Weight
size_weight mk rid d = d.size_bytes

-- What is left of a card and what the HOT replicas hold of it make up its memory.
abbrev pub IsBalanced : Replicas → Gpu → Type 0
IsBalanced hot gpu =
    pos_part gpu.available_memory_bytes + total (on gpu.index) hot
    ≡ gpu.memory_bytes + neg_part gpu.available_memory_bytes

-- Every replica stands under its own names.
abbrev pub Named : Replicas → Type 0
Named r =
    (mk : ModelKey) (rid : ReplicaId) (d : Deployment)
    → find mk rid r ≡ some d
    → (d.model_key ≡ mk) × (d.replica_id ≡ rid)

-- Every HOT replica sits on cards of the node.
abbrev pub Seated : List Gpu → Replicas → Type 0
Seated gpus hot =
    (mk : ModelKey) (rid : ReplicaId) (d : Deployment)
    → find mk rid hot ≡ some d
    → Fitted d.gpus gpus

-- No replica is HOT and WARM at once.
abbrev pub Disjoint : Replicas → Replicas → Type 0
Disjoint hot warm =
    (mk : ModelKey) (rid : ReplicaId) (d : Deployment)
    → find mk rid hot ≡ some d
    → find mk rid warm ≡ none

pub record Cards (gpus : List Gpu) (hot : Replicas) : Type 0 where
  pub distinct : Distinct gpus
  pub seated : Seated gpus hot
  pub balanced : All (IsBalanced hot) gpus

pub record Inv (n : Node) : Type 0 where
  pub hot_table : IsTable n.deployments
  pub warm_table : IsTable n.cache
  pub disjoint : Disjoint n.deployments n.cache
  pub hot_named : Named n.deployments
  pub warm_named : Named n.cache
  pub cards : Cards n.gpu_resources.gpus n.deployments
  pub cpu_balanced :
      pos_part n.cpu_resources.available_memory_bytes + total size_weight n.cache
      ≡ n.cpu_resources.memory_bytes + neg_part n.cpu_resources.available_memory_bytes

-- No card and no CPU cache is promised beyond its memory.
pub record IsSolvent (n : Node) : Type 0 where
  pub gpus : All (λ gpu. neg_part gpu.available_memory_bytes ≡ 0) n.gpu_resources.gpus
  pub cpu : neg_part n.cpu_resources.available_memory_bytes ≡ 0
