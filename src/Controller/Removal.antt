-- ===== src/Controller/Removal.antt =====
-- controller.py: `_remove_deployment_from_state` on a node.
use mathlib.Core.Path.{subst}
use ndif.Prelude.{
  ◌≡◌, refl, ap, none, some, map, if◌then◌else◌, Bool-cases, Option-cases, inl, inr, arith,
}
use ndif.Prelude.Int.{pos, ◌+ℤ◌, +ℤ_parts}
use ndif.Prelude.Results.{ok, Returns}
use ndif.Evaluator.{ModelKey}
use ndif.Cluster.Resources.{plus, release, release_cpu}
use ndif.Cluster.Resources.Charges.{charged, release_lem}
use ndif.Cluster.Deployment.{Deployment, ReplicaId}
use ndif.Cluster.Replicas.{Replicas, find, drop}
use ndif.Cluster.Replicas.Weights.{total-drop}
use ndif.Cluster.Replicas.Entries.{same_key, find-drop, drop-IsTable}
use ndif.Cluster.Node.{Node, with_gpus}
use ndif.Cluster.Node.Books.{layout, sign}
use ndif.Cluster.Node.Eviction.{removed-Evicted}
use ndif.Cluster.Node.Invariant.{Inv, IsSolvent, size_weight}
use ndif.Controller.{remove_hot, remove_warm, remove_from_node}

-- What the node holds under the replica's names has the memory of `d`.
pub record Matches (d : Deployment) (n : Node) : Type 0 where
  pub gpus :
      (held : Deployment)
      → find d.model_key d.replica_id n.deployments ≡ some held
      → held.gpus ≡ d.gpus
  pub size :
      (held : Deployment)
      → find d.model_key d.replica_id n.cache ≡ some held
      → held.size_bytes ≡ d.size_bytes

-- The replica is neither HOT nor WARM, the others are as before, and so is the node's soundness.
pub record Gone (d : Deployment) (n n' : Node) : Type 0 where
  pub inv : Inv n'
  pub solvent : IsSolvent n → IsSolvent n'
  pub same_id : n'.id ≡ n.id
  pub same_layout : layout n'.gpu_resources.gpus ≡ layout n.gpu_resources.gpus
  pub hot :
      (mk : ModelKey) (rid : ReplicaId)
      → find mk rid n'.deployments
        ≡ (if same_key d.model_key d.replica_id mk rid then none else find mk rid n.deployments)
  pub warm :
      (mk : ModelKey) (rid : ReplicaId)
      → find mk rid n'.cache
        ≡ (if same_key d.model_key d.replica_id mk rid then none else find mk rid n.cache)

-- A replica that is not there is gone.
find_gone :
    (mk mk' : ModelKey) (rid rid' : ReplicaId) (r : Replicas)
    → find mk rid r ≡ none
    → find mk' rid' r ≡ (if same_key mk rid mk' rid' then none else find mk' rid' r)
find_gone mk mk' rid rid' r h = elim (Bool-cases (same_key mk rid mk' rid')) [
  | inl e ↦
      let model : mk ≡ mk' = ground arith in
      let replica : rid ≡ rid' = ground arith in rw e (rw (model, replica) at h)
  | inr e ↦ rw e refl
]

remove_warm_absent :
    (d : Deployment) (n : Node) → find d.model_key d.replica_id n.cache ≡ none → remove_warm d n ≡ n
unfolding remove_warm
remove_warm_absent d n w = rw (remove_warm, w) refl

remove_warm_held :
    (d : Deployment) (n : Node) (held : Deployment)
    → find d.model_key d.replica_id n.cache ≡ some held
    → remove_warm d n ≡ record n {
      cpu_resources = release_cpu d.size_bytes n.cpu_resources;
      cache = drop d.model_key d.replica_id n.cache;
    }
unfolding remove_warm
remove_warm_held d n held w = rw (remove_warm, w) refl

module _ (d : Deployment) (n : Node) (inv : Inv n) (same : Matches d n) where
  absent-Gone :
      find d.model_key d.replica_id n.deployments ≡ none
      → find d.model_key d.replica_id n.cache ≡ none
      → Gone d n n
  absent-Gone h w = record {
    inv = inv;
    solvent = λ s. s;
    same_id = refl;
    same_layout = refl;
    hot = λ mk rid. find_gone d.model_key mk d.replica_id rid n.deployments h;
    warm = λ mk rid. find_gone d.model_key mk d.replica_id rid n.cache w;
  }

  module _ (held : Deployment) where
    -- A WARM replica gives back its size.
    abbrev uncached : Node
    uncached = record n {
      cpu_resources = release_cpu d.size_bytes n.cpu_resources;
      cache = drop d.model_key d.replica_id n.cache;
    }

    warm-Gone :
        find d.model_key d.replica_id n.deployments ≡ none
        → find d.model_key d.replica_id n.cache ≡ some held
        → Gone d n uncached
    warm-Gone h w =
        let size = same.size held w in
        let parts = +ℤ_parts n.cpu_resources.available_memory_bytes (pos d.size_bytes) in
        record {
          inv = record {
            hot_table = inv.hot_table;
            warm_table = drop-IsTable d.model_key d.replica_id n.cache inv.warm_table;
            disjoint = λ mk rid d' e. ground (
              arith,
              find-drop d.model_key mk d.replica_id rid n.cache inv.warm_table,
              inv.disjoint mk rid d' e,
            );
            hot_named = inv.hot_named;
            warm_named = λ mk rid d' e.
                inv.warm_named mk rid d' (
                  ground (arith, find-drop d.model_key mk d.replica_id rid n.cache inv.warm_table));
            cards = inv.cards;
            cpu_balanced = omega (
              arith,
              inv.cpu_balanced,
              size,
              parts,
              total-drop size_weight d.model_key d.replica_id held n.cache w,
            );
          };
          solvent = λ s. record {
            gpus = s.gpus;
            cpu = omega (
              arith,
              s.cpu,
              parts,
              sign (n.cpu_resources.available_memory_bytes +ℤ pos d.size_bytes),
            );
          };
          same_id = refl;
          same_layout = refl;
          hot = λ mk rid. find_gone d.model_key mk d.replica_id rid n.deployments h;
          warm = λ mk rid. find-drop d.model_key mk d.replica_id rid n.cache inv.warm_table;
        }

    -- A HOT replica gives back its cards.
    abbrev uncarded : Node
    uncarded = record (with_gpus (map (charged plus held.gpus) n.gpu_resources.gpus) n) {
      deployments = drop d.model_key d.replica_id n.deployments;
    }

    hot-Gone : find d.model_key d.replica_id n.deployments ≡ some held → Gone d n uncarded
    unfolding with_gpus
    hot-Gone h =
        let evicted = removed-Evicted n inv d.model_key d.replica_id held h in
        record {
          inv = evicted.inv;
          solvent = evicted.solvent;
          same_id = refl;
          same_layout = evicted.same_layout;
          hot = λ mk rid. find-drop d.model_key mk d.replica_id rid n.deployments inv.hot_table;
          warm = λ mk rid.
              find_gone d.model_key mk d.replica_id rid n.cache
                (inv.disjoint d.model_key d.replica_id held h);
        }

  remove_hot_absent : find d.model_key d.replica_id n.deployments ≡ none → remove_hot d n ≡ ok n
  unfolding remove_hot
  remove_hot_absent h = rw (remove_hot, h) refl

  remove_hot_held :
      (held : Deployment)
      → find d.model_key d.replica_id n.deployments ≡ some held
      → remove_hot d n ≡ ok (uncarded held)
  unfolding remove_hot
  remove_hot_held held h =
      let gpus = same.gpus held h in
      let freed =
        release_lem held.gpus n.gpu_resources.gpus inv.cards.distinct
          (inv.cards.seated d.model_key d.replica_id held h) in
      let freed' =
        subst
          (λ allocation.
            release allocation n.gpu_resources.gpus
            ≡ some (map (charged plus held.gpus) n.gpu_resources.gpus))
          gpus freed in
      rw (remove_hot, h, freed') refl

  -- Removing a replica from a node whose books are balanced raises nothing, takes the replica off the
  -- cards or out of the cache, gives back its memory and changes no other replica; the books are
  -- balanced again, where the node holds as much for the replica as the caller's record says.
  pub remove_from_node-Gone : Returns (remove_from_node d n) (Gone d n)
  unfolding remove_from_node with_gpus
  remove_from_node-Gone = elim (Option-cases (find d.model_key d.replica_id n.deployments)) [
    | inl h ↦ elim (Option-cases (find d.model_key d.replica_id n.cache)) [
      | inl w ↦ (n, rw (remove_hot_absent h) (ap ok (remove_warm_absent d n w)), absent-Gone h w)
      | inr (held, w) ↦ (
        uncached held,
        rw (remove_hot_absent h) (ap ok (remove_warm_held d n held w)),
        warm-Gone held h w,
      )
    ]
    | inr (held, h) ↦
        let gone = inv.disjoint d.model_key d.replica_id held h in
        (
          uncarded held,
          rw (remove_hot_held held h) (ap ok (remove_warm_absent d (uncarded held) gone)),
          hot-Gone held h,
        )
  ]
