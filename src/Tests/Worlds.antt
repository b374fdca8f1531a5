-- ===== src/Tests/Worlds.antt =====
-- An outside world that keeps what the placement code relies on: the first candidate is chosen, and
-- a fresh id is larger than every id in use.
use ndif.Prelude.{ℕ, suc, ◌≡◌, refl, none, some, arith, Option-cases, inl, inr}
use ndif.Prelude.Dict.{Dict, lookup, sum_by, sum_by-del}
use ndif.Evaluator.{ModelKey, ok}
use ndif.Cluster.Deployment.{NodeId, ReplicaId}
use ndif.Cluster.Replicas.{find}
use ndif.Cluster.Replicas.Weights.{Weight, total, total-drop}
use ndif.Cluster.Node.{Node}
use ndif.Cluster.Cluster.{World}
use ndif.Cluster.Cluster.Rounds.{IsWorld}
use ndif.Tests.Samples.{any_class, as_listed, as_listed-IsListing}

abbrev above : Weight
above mk rid d = suc rid

abbrev node_weight : ℕ → Node → ℕ
node_weight id node = total above node.deployments

abbrev pub unused_id : Dict Node → ModelKey → ReplicaId
unused_id nodes mk = sum_by node_weight nodes

unused_id_lem :
    (nodes : Dict Node) (mk : ModelKey) (id : NodeId) (node : Node)
    → lookup id nodes ≡ some node
    → find mk (unused_id nodes mk) node.deployments ≡ none
unused_id_lem nodes mk id node h =
    elim (Option-cases (find mk (unused_id nodes mk) node.deployments)) [
      | inl e ↦ e
      | inr (d, e) ↦ absurd (
          omega (
            arith,
            total-drop above mk (unused_id nodes mk) d node.deployments e,
            sum_by-del node_weight id node nodes h,
          ))
    ]

abbrev pub sample_world : World
sample_world = record {
  order = as_listed;
  choice = λ c cs. c;
  fresh = unused_id;
  hub = record { describe_checkpoint = λ k dtype. ok 1000; max_tp_size = λ k. ok none };
  classes = any_class;
}

pub sample_world-IsWorld : IsWorld sample_world
sample_world-IsWorld = record {
  listing = as_listed-IsListing;
  chosen = λ c cs. (0, refl);
  fresh = unused_id_lem;
}
