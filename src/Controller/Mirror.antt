-- ===== src/Controller/Mirror.antt =====
-- controller.py: the state as a view of the cluster.
use ndif.Prelude.{
  ◌≡◌, refl, ap, sym, ◌∙◌, Bool, true, false, ◌&&◌, Option, none, some, List, [], ◌∷◌, ◌++◌, map,
  ◌==◌, if◌then◌else◌, Bool-cases, inl, inr, arith,
}
use ndif.Prelude.Dict.{Dict, lookup, Unique}
use ndif.Evaluator.{ModelKey}
use ndif.Cluster.Deployment.{Deployment, NodeId}
use ndif.Cluster.Replicas.{Replicas, Entry, find, inner_entries, entries}
use ndif.Cluster.Node.{Node}
use ndif.Cluster.Cluster.Surveying.{Managed}
use ndif.Controller.{Visit, visit, visits}
use ndif.Controller.Tracking.{StateKey, same_state_key, Tracked, tracked}
use ndif.Controller.Building.{entry_of}

abbrev pub or_else : Option Deployment → Option Deployment → Option Deployment
or_else none b = b
or_else (some a) b = some a

-- The replica that a node has under a key, WARM or HOT.
unfoldable pub replica_at : StateKey → Dict Node → Option Deployment
replica_at k nodes = elim (lookup k.node_id nodes) [
  | none ↦ none
  | some node ↦
      or_else (find k.model_key k.replica_id node.cache)
        (find k.model_key k.replica_id node.deployments)
]

-- The state has exactly the cluster's replicas.
abbrev pub Mirrors : Tracked → Dict Node → Type 0
Mirrors state nodes = (k : StateKey) → tracked k state ≡ replica_at k nodes

or_else-none : (a : Option Deployment) → or_else a none ≡ a
or_else-none none = refl
or_else-none (some d) = refl

either_dict : (a b : Option Deployment) → or_else a (or_else b none) ≡ or_else a b
either_dict none b = or_else-none b
either_dict (some d) b = refl

find_absent :
    (k : StateKey) (r : Replicas)
    → lookup k.model_key r ≡ none
    → find k.model_key k.replica_id r ≡ none
unfolding find
find_absent k r h = rw (find, h) refl

replica_absent :
    (k : StateKey) (nodes : Dict Node) → lookup k.node_id nodes ≡ none → replica_at k nodes ≡ none
unfolding replica_at
replica_absent k nodes h = rw (replica_at, h) refl

find_here :
    (k : StateKey) (mk : ModelKey) (inner : Dict Deployment) (r : Replicas)
    → (mk == k.model_key) ≡ true
    → find k.model_key k.replica_id ((mk, inner) ∷ r) ≡ lookup k.replica_id inner
unfolding find lookup
find_here k mk inner r h = rw (find, lookup, h) refl

replica_here :
    (k : StateKey) (id : NodeId) (node : Node) (nodes : Dict Node)
    → (id == k.node_id) ≡ true
    → replica_at k ((id, node) ∷ nodes)
      ≡ or_else
          (find k.model_key k.replica_id node.cache)
          (find k.model_key k.replica_id node.deployments)
unfolding replica_at lookup
replica_here k id node nodes h = rw (replica_at, lookup, h) refl

find_elsewhere :
    (k : StateKey) (mk : ModelKey) (inner : Dict Deployment) (r : Replicas)
    → (mk == k.model_key) ≡ false
    → find k.model_key k.replica_id ((mk, inner) ∷ r) ≡ find k.model_key k.replica_id r
unfolding find lookup
find_elsewhere k mk inner r h = ground arith

replica_elsewhere :
    (k : StateKey) (id : NodeId) (node : Node) (nodes : Dict Node)
    → (id == k.node_id) ≡ false
    → replica_at k ((id, node) ∷ nodes) ≡ replica_at k nodes
unfolding replica_at lookup
replica_elsewhere k id node nodes h = ground arith

tracked-append :
    (k : StateKey) (xs ys : Tracked) → tracked k (xs ++ ys) ≡ or_else (tracked k xs) (tracked k ys)
unfolding tracked
tracked-append k [] ys = refl
tracked-append k ((j, d) ∷ xs) ys = elim (Bool-cases (same_state_key j k)) [
  | inl e ↦ rw e refl
  | inr e ↦ rw e (tracked-append k xs ys)
]

map-append : (xs ys : List Visit) → map entry_of (xs ++ ys) ≡ map entry_of xs ++ map entry_of ys
map-append [] ys = refl
map-append (x ∷ xs) ys = ap (λ t. entry_of x ∷ t) (map-append xs ys)

map-visit-append :
    (id : NodeId) (b : Bool) (es fs : List Entry)
    → map (visit id b) (es ++ fs) ≡ map (visit id b) es ++ map (visit id b) fs
map-visit-append id b [] fs = refl
map-visit-append id b (e ∷ es) fs = ap (λ t. visit id b e ∷ t) (map-visit-append id b es fs)

-- The entries of a node as the state would have them.
abbrev noted : NodeId → Bool → List Entry → Tracked
noted id b es = map entry_of (map (visit id b) es)

module _ (k : StateKey) (id : NodeId) (b : Bool) where
  tracked-inner_entries :
      (mk : ModelKey) (inner : Dict Deployment)
      → tracked k (noted id b (inner_entries mk inner))
        ≡ (if id == k.node_id && mk == k.model_key then lookup k.replica_id inner else none)
  unfolding tracked visit inner_entries lookup same_state_key
  tracked-inner_entries mk [] = ground arith
  tracked-inner_entries mk ((rid, d) ∷ inner) = ground (arith, tracked-inner_entries mk inner)

  tracked-entries :
      (r : Replicas)
      → Unique r
      → tracked k (noted id b (entries r))
        ≡ (if id == k.node_id then find k.model_key k.replica_id r else none)
  unfolding tracked entries find lookup
  tracked-entries [] u = ground arith
  tracked-entries ((mk, inner) ∷ r) u =
      rw
        (
          map-visit-append id b (inner_entries mk inner) (entries r),
          map-append (map (visit id b) (inner_entries mk inner)) (map (visit id b) (entries r)),
          tracked-append k (noted id b (inner_entries mk inner)) (noted id b (entries r)),
          tracked-inner_entries mk inner,
          tracked-entries r u.1,
        )
        (elim (Bool-cases (id == k.node_id)) [
          | inr e ↦ rw e refl
          | inl e ↦ elim (Bool-cases (mk == k.model_key)) [
            | inr f ↦ rw (e, f) (sym (find_elsewhere k mk inner r f))
            | inl f ↦
                let same : mk ≡ k.model_key = ground arith in
                let gone : lookup k.model_key r ≡ none = rw same at u.0 in
                rw (e, f, find_absent k r gone)
                  (or_else-none (lookup k.replica_id inner) ∙ sym (find_here k mk inner r f))
          ]
        ])

pub visits-Mirrors :
    (nodes : Dict Node) → Managed nodes → Mirrors (map entry_of (visits nodes)) nodes
unfolding visits replica_at lookup tracked
visits-Mirrors [] managed k = refl
visits-Mirrors ((id, node) ∷ nodes) managed k =
    let inv = managed.each.0.1 in
    rw
      (
        map-append (map (visit id true) (entries node.cache))
            (map (visit id false) (entries node.deployments) ++ visits nodes),
        map-append (map (visit id false) (entries node.deployments)) (visits nodes),
        tracked-append k (noted id true (entries node.cache))
            (noted id false (entries node.deployments) ++ map entry_of (visits nodes)),
        tracked-append k (noted id false (entries node.deployments)) (map entry_of (visits nodes)),
        tracked-entries k id true node.cache inv.warm_table.outer,
        tracked-entries k id false node.deployments inv.hot_table.outer,
        visits-Mirrors nodes (record { unique = managed.unique.1; each = managed.each.1 }) k,
      )
      (elim (Bool-cases (id == k.node_id)) [
        | inr e ↦ rw e (sym (replica_elsewhere k id node nodes e))
        | inl e ↦
            let same : id ≡ k.node_id = ground arith in
            let gone : lookup k.node_id nodes ≡ none = rw same at managed.unique.0 in
            rw (e, replica_absent k nodes gone)
              (either_dict (find k.model_key k.replica_id node.cache)
                  (find k.model_key k.replica_id node.deployments)
                ∙ sym (replica_here k id node nodes e))
      ])
