-- ===== src/Controller/Synced.antt =====
-- controller.py: `build` and `_remove_deployment_from_state` keep the state a view of the cluster.
use ndif.Prelude.{
  ◌≡◌, refl, sym, ◌∙◌, Option, none, some, map, ◌==◌, if◌then◌else◌, Bool-cases, Option-cases, inl,
  inr, arith,
}
use ndif.Prelude.Dict.{All-lookup, Dict, lookup, set, lookup-set, set-Unique, set-All}
use ndif.Prelude.Results.{Result, ok, raise, key_error, Returns}
use ndif.Cluster.Deployment.{Deployment}
use ndif.Cluster.Replicas.{find}
use ndif.Cluster.Replicas.Entries.{same_key}
use ndif.Cluster.Node.{Node}
use ndif.Cluster.Cluster.Surveying.{IsManaged, Managed}
use ndif.Controller.{Controller, DeploymentDelta, visits, build, remove_deployment, key_of}
use ndif.Controller.Tracking.{
  StateKey, same_state_key, Tracked, untrack, Once, untrack-Once, tracked-untrack_ne,
  tracked-untrack_self,
}
use ndif.Controller.Building.{any_visit, unknown, entry_of, build-changes}
use ndif.Controller.Visits.{visits-Apart}
use ndif.Controller.Settled.{visited-Once, ok_first}
use ndif.Controller.Removal.{Matches, Gone, remove_from_node-Gone}
use ndif.Controller.Mirror.{or_else, replica_at, Mirrors, visits-Mirrors}

-- The state has exactly the cluster's replicas, and the books of the nodes are balanced.
pub record Synced (c : Controller) : Type 0 where
  pub managed : Managed c.cluster.nodes
  pub once : Once c.state
  pub mirrors : Mirrors c.state c.cluster.nodes

-- A `build` that does not raise leaves in the state exactly the replicas that the nodes have, WARM or
-- HOT, each once and under its node, model and replica, and the cluster as it was, where the books of
-- the nodes are balanced and no key stands twice in the state.
pub build-Synced :
    (c c' : Controller) (delta : DeploymentDelta)
    → Managed c.cluster.nodes
    → Once c.state
    → build c ≡ ok (c', delta)
    → Synced c' × (c'.cluster ≡ c.cluster)
build-Synced c c' delta managed once h =
    let vs = visits c.cluster.nodes in
    let apart = visits-Apart c.cluster.nodes managed in
    let whole = sym (build-changes c apart once) ∙ h in
    elim (Bool-cases (any_visit (unknown c.state) vs)) [
      | inl u ↦
          let failed : ◌≡◌ {A = Result (Controller × DeploymentDelta)} (raise key_error)
              (ok (c', delta)) =
            rw u at whole in
          absurd cc
      | inr u ↦
          let done = rw u at whole in
          let same : record c { state = map entry_of vs } ≡ c' = ok_first done in
          rw (sym same) (
            record {
              managed = managed;
              once = visited-Once vs apart;
              mirrors = visits-Mirrors c.cluster.nodes managed;
            },
            refl,
          )
    ]

-- What is left of the cluster's replicas.
abbrev pub Left : Deployment → Dict Node → Dict Node → Type 0
Left d nodes nodes' =
    (k : StateKey)
    → replica_at k nodes' ≡ (if same_state_key (key_of d) k then none else replica_at k nodes)

module _ (d : Deployment) (state : Tracked) (once : Once state) where
  untrack-Mirrors :
      (nodes nodes' : Dict Node)
      → Mirrors state nodes
      → Left d nodes nodes'
      → Mirrors (untrack (key_of d) state) nodes'
  untrack-Mirrors nodes nodes' mirrors left k = elim (Bool-cases (same_state_key (key_of d) k)) [
    | inl e ↦ rw (left k, e) (tracked-untrack_self (key_of d) k state once e)
    | inr e ↦ rw (left k, e) (tracked-untrack_ne (key_of d) k state e ∙ mirrors k)
  ]

absent-Left :
    (d : Deployment) (nodes : Dict Node) → lookup d.node_id nodes ≡ none → Left d nodes nodes
unfolding replica_at same_state_key
absent-Left d nodes h k = elim (Bool-cases (same_state_key (key_of d) k)) [
  | inl e ↦
      let same : d.node_id ≡ k.node_id = ground arith in
      let gone : lookup k.node_id nodes ≡ none = rw same at h in rw (e, replica_at, gone) refl
  | inr e ↦ rw e refl
]

-- The replica of a node under a key.
abbrev held_at : StateKey → Node → Option Deployment
held_at k node =
    or_else (find k.model_key k.replica_id node.cache)
      (find k.model_key k.replica_id node.deployments)

replica_at_node :
    (k : StateKey) (nodes : Dict Node) (node : Node)
    → lookup k.node_id nodes ≡ some node
    → replica_at k nodes ≡ held_at k node
unfolding replica_at
replica_at_node k nodes node h = rw (replica_at, h) refl

module _ (d : Deployment) (node node' : Node) (gone : Gone d node node') where
  held_at-Gone :
      (k : StateKey)
      → held_at k node' ≡ (
          if same_key d.model_key d.replica_id k.model_key k.replica_id
          then none
          else held_at k node)
  held_at-Gone k = elim (Bool-cases (same_key d.model_key d.replica_id k.model_key k.replica_id)) [
    | inl e ↦ rw (gone.warm k.model_key k.replica_id, gone.hot k.model_key k.replica_id, e) refl
    | inr e ↦ rw (gone.warm k.model_key k.replica_id, gone.hot k.model_key k.replica_id, e) refl
  ]

  set-Left :
      (nodes : Dict Node)
      → lookup d.node_id nodes ≡ some node
      → Left d nodes (set d.node_id node' nodes)
  unfolding same_state_key replica_at
  set-Left nodes h k = elim (Bool-cases (d.node_id == k.node_id)) [
    | inl e ↦
        let same : d.node_id ≡ k.node_id = ground arith in
        let before : lookup k.node_id nodes ≡ some node = rw same at h in
        let after : lookup k.node_id (set d.node_id node' nodes) ≡ some node' =
          rw (lookup-set d.node_id k.node_id node' nodes, e) refl in
        rw
          (
            replica_at_node k (set d.node_id node' nodes) node' after,
            replica_at_node k nodes node before,
            e,
          )
          (held_at-Gone k)
    | inr e ↦
        let after : lookup k.node_id (set d.node_id node' nodes) ≡ lookup k.node_id nodes =
          rw (lookup-set d.node_id k.node_id node' nodes, e) refl in
        rw (e, replica_at, after) refl
  ]

-- What a node holds under the replica's names has its memory.
abbrev pub Fits : Deployment → Dict Node → Type 0
Fits d nodes = (node : Node) → lookup d.node_id nodes ≡ some node → Matches d node

-- The replica is gone; the others are where they were, with the memory that they had.
pub record Dropped (d : Deployment) (nodes nodes' : Dict Node) : Type 0 where
  pub left : Left d nodes nodes'
  pub same_fit : (e : Deployment) → Fits e nodes → Fits e nodes'

set-Fits :
    (d e : Deployment) (nodes : Dict Node) (node node' : Node)
    → lookup d.node_id nodes ≡ some node
    → Gone d node node'
    → Fits e nodes
    → Fits e (set d.node_id node' nodes)
set-Fits d e nodes node node' h gone same_fit n f = elim (Bool-cases (d.node_id == e.node_id)) [
  | inl s ↦
      let here : d.node_id ≡ e.node_id = ground arith in
      let before : lookup e.node_id nodes ≡ some node = rw here at h in
      let new : some node' ≡ some n = rw (lookup-set d.node_id e.node_id node' nodes, s) at f in
      let same : node' ≡ n = cc in
      rw (sym same) (record {
        gpus = λ held k.
            (same_fit node before).gpus held (ground (arith, gone.hot e.model_key e.replica_id));
        size = λ held k.
            (same_fit node before).size held (ground (arith, gone.warm e.model_key e.replica_id));
      })
  | inr s ↦ same_fit n (rw (lookup-set d.node_id e.node_id node' nodes, s) at f)
]

-- Dropping a replica of a controller that is in step with its cluster raises nothing and leaves it in
-- step: the replica is gone from the state and from its node, every other replica is where it was,
-- and the books are balanced, where its node, if there is one, holds as much for the replica as the
-- caller's record says; so every record that agrees with its node goes on to agree.
pub remove_deployment-Synced :
    (c : Controller) (d : Deployment)
    → Synced c
    → Fits d c.cluster.nodes
    → Returns (remove_deployment d c) (λ c'. Synced c' × Dropped d c.cluster.nodes c'.cluster.nodes)
unfolding remove_deployment
remove_deployment-Synced c d synced same = elim (Option-cases (lookup d.node_id c.cluster.nodes)) [
  | inl e ↦
      let left = absent-Left d c.cluster.nodes e in
      (
        record c { state = untrack (key_of d) c.state },
        rw (remove_deployment, e) refl,
        (
          record {
            managed = synced.managed;
            once = untrack-Once (key_of d) c.state synced.once;
            mirrors =
                untrack-Mirrors d c.state synced.once c.cluster.nodes c.cluster.nodes synced.mirrors
                  left;
          },
          record { left = left; same_fit = λ e f. f },
        ),
      )
  | inr (node, e) ↦
      let own =
        All-lookup (λ id n. IsManaged (id, n)) c.cluster.nodes d.node_id node synced.managed.each
          e in
      let (node', done, gone) = remove_from_node-Gone d node own.1 (same node e) in
      let nodes' = set d.node_id node' c.cluster.nodes in
      let left = set-Left d node node' gone c.cluster.nodes e in
      (
        record c {
          state = untrack (key_of d) c.state;
          cluster = record (c.cluster) { nodes = nodes' };
        },
        rw (remove_deployment, e, done) refl,
        (
          record {
            managed = record {
              unique = set-Unique d.node_id node' c.cluster.nodes synced.managed.unique;
              each =
                  set-All IsManaged d.node_id node' c.cluster.nodes (gone.same_id ∙ own.0, gone.inv)
                    synced.managed.each;
            };
            once = untrack-Once (key_of d) c.state synced.once;
            mirrors =
                untrack-Mirrors d c.state synced.once c.cluster.nodes nodes' synced.mirrors left;
          },
          record {
            left = left;
            same_fit = λ e' f. set-Fits d e' c.cluster.nodes node node' e gone f;
          },
        ),
      )
]
