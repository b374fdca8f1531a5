-- ===== src/Controller/Visits.antt =====
-- controller.py: the replicas that `build` comes to, told apart.
use ndif.Prelude.{
  ◌≡◌, sym, ◌∙◌, Bool, true, false, none, some, List, [], ◌∷◌, ◌++◌, All, All-append, All-map,
  All_imp, map, ◌==◌, Bool-cases, inl, inr, arith,
}
use ndif.Prelude.Dict.{Dict, lookup}
use ndif.Cluster.Deployment.{NodeId}
use ndif.Cluster.Replicas.{Replicas, Entry, find, entries}
use ndif.Cluster.Replicas.Entries.{same_key}
use ndif.Cluster.Replicas.Listing.{Found, entries-Found, entries-Apart}
use ndif.Cluster.Replicas.Listing as Listing
use ndif.Cluster.Node.{Node}
use ndif.Cluster.Node.Invariant.{Disjoint}
use ndif.Cluster.Cluster.Surveying.{Managed}
use ndif.Controller.{Visit, visit, visits}
use ndif.Controller.Tracking.{same_state_key}
use ndif.Controller.Building.{Apart}

abbrev Between : List Visit → List Visit → Type 0
Between vs ws = All (λ v. All (λ w. same_state_key v.key w.key ≡ false) ws) vs

Apart-append : (vs ws : List Visit) → Apart vs → Apart ws → Between vs ws → Apart (vs ++ ws)
Apart-append [] ws a b between = b
Apart-append (v ∷ vs) ws a b between = (
  All-append (λ w. same_state_key v.key w.key ≡ false) vs ws a.0 between.0,
  Apart-append vs ws a.1 b between.1,
)

-- Within a node, replicas under different keys are apart.
visit-apart :
    (id : NodeId) (b c : Bool) (e f : Entry)
    → same_key e.key e.rid f.key f.rid ≡ false
    → same_state_key (visit id b e).key (visit id c f).key ≡ false
unfolding same_state_key visit
visit-apart id b c e f h = ground arith

map-visit-Apart :
    (id : NodeId) (b : Bool) (es : List Entry) → Listing.Apart es → Apart (map (visit id b) es)
map-visit-Apart id b [] apart = tt
map-visit-Apart id b (e ∷ es) apart = (
  All-map (λ w. same_state_key (visit id b e).key w.key ≡ false) (visit id b) es
      (All_imp (λ f. same_key e.key e.rid f.key f.rid ≡ false)
        (λ f. same_state_key (visit id b e).key (visit id b f).key ≡ false) es
        (λ f h. visit-apart id b b e f h) apart.0),
  map-visit-Apart id b es apart.1,
)

-- A WARM replica and a HOT one of a node are apart.
warm_hot_apart :
    (warm_ones hot_ones : Replicas) (e f : Entry)
    → Disjoint hot_ones warm_ones
    → Found warm_ones e
    → Found hot_ones f
    → same_key e.key e.rid f.key f.rid ≡ false
warm_hot_apart warm_ones hot_ones e f disjoint here there =
    elim (Bool-cases (same_key e.key e.rid f.key f.rid)) [
      | inr h ↦ h
      | inl h ↦
          let gone = disjoint f.key f.rid f.deployment there in
          let model : e.key ≡ f.key = ground arith in
          let replica : e.rid ≡ f.rid = ground arith in
          let found : find f.key f.rid warm_ones ≡ some e.deployment =
            rw (model, replica) at here in
          let clash : none ≡ some e.deployment = sym gone ∙ found in absurd cc
    ]

warm_hot-Between :
    (id : NodeId) (warm_ones hot_ones : Replicas) (es fs : List Entry)
    → Disjoint hot_ones warm_ones
    → All (Found warm_ones) es
    → All (Found hot_ones) fs
    → Between (map (visit id true) es) (map (visit id false) fs)
warm_hot-Between id warm_ones hot_ones es fs disjoint here there =
    All-map (λ v. All (λ w. same_state_key v.key w.key ≡ false) (map (visit id false) fs))
      (visit id true) es
      (All_imp (Found warm_ones)
        (λ e.
          All (λ w. same_state_key (visit id true e).key w.key ≡ false) (map (visit id false) fs))
        es
        (λ e h.
          All-map (λ w. same_state_key (visit id true e).key w.key ≡ false) (visit id false) fs
            (All_imp (Found hot_ones)
              (λ f. same_state_key (visit id true e).key (visit id false f).key ≡ false) fs
              (λ f k.
                visit-apart id true false e f (warm_hot_apart warm_ones hot_ones e f disjoint h k))
              there))
        here)

abbrev Elsewhere : NodeId → Visit → Type 0
Elsewhere id v = (id == v.key.node_id) ≡ false

map-visit-Elsewhere :
    (id other : NodeId) (b : Bool) (es : List Entry)
    → (id == other) ≡ false
    → All (Elsewhere id) (map (visit other b) es)
unfolding visit
map-visit-Elsewhere id other b [] h = tt
map-visit-Elsewhere id other b (e ∷ es) h = (h, map-visit-Elsewhere id other b es h)

visits-Elsewhere :
    (id : NodeId) (nodes : Dict Node) → lookup id nodes ≡ none → All (Elsewhere id) (visits nodes)
unfolding visits lookup
visits-Elsewhere id [] h = tt
visits-Elsewhere id ((other, node) ∷ nodes) h = elim (Bool-cases (other == id)) [
  | inl e ↦ let found : some node ≡ none = rw e at h in absurd cc
  | inr e ↦
      let differ : (id == other) ≡ false = ground arith in
      All-append (Elsewhere id) (map (visit other true) (entries node.cache))
        (map (visit other false) (entries node.deployments) ++ visits nodes)
        (map-visit-Elsewhere id other true (entries node.cache) differ)
        (All-append (Elsewhere id) (map (visit other false) (entries node.deployments))
          (visits nodes) (map-visit-Elsewhere id other false (entries node.deployments) differ)
          (visits-Elsewhere id nodes (rw e at h)))
]

other_node_apart :
    (id : NodeId) (b : Bool) (e : Entry) (w : Visit)
    → Elsewhere id w
    → same_state_key (visit id b e).key w.key ≡ false
unfolding same_state_key visit
other_node_apart id b e w h = ground arith

Elsewhere-Between :
    (id : NodeId) (b : Bool) (es : List Entry) (ws : List Visit)
    → All (Elsewhere id) ws
    → Between (map (visit id b) es) ws
Elsewhere-Between id b [] ws h = tt
Elsewhere-Between id b (e ∷ es) ws h = (
  All_imp (Elsewhere id) (λ w. same_state_key (visit id b e).key w.key ≡ false) ws
      (λ w k. other_node_apart id b e w k) h,
  Elsewhere-Between id b es ws h,
)

Between-append : (vs ws xs : List Visit) → Between vs ws → Between vs xs → Between vs (ws ++ xs)
Between-append [] ws xs a b = tt
Between-append (v ∷ vs) ws xs a b = (
  All-append (λ w. same_state_key v.key w.key ≡ false) ws xs a.0 b.0,
  Between-append vs ws xs a.1 b.1,
)

-- The books of a cluster list no replica twice.
pub visits-Apart : (nodes : Dict Node) → Managed nodes → Apart (visits nodes)
unfolding visits
visits-Apart [] managed = tt
visits-Apart ((id, node) ∷ nodes) managed =
    let inv = managed.each.0.1 in
    let others = visits-Elsewhere id nodes managed.unique.0 in
    let warm_ones = entries node.cache in
    let hot_ones = entries node.deployments in
    Apart-append (map (visit id true) warm_ones) (map (visit id false) hot_ones ++ visits nodes)
      (map-visit-Apart id true warm_ones (entries-Apart node.cache inv.warm_table))
      (Apart-append (map (visit id false) hot_ones) (visits nodes)
        (map-visit-Apart id false hot_ones (entries-Apart node.deployments inv.hot_table))
        (visits-Apart nodes (record { unique = managed.unique.1; each = managed.each.1 }))
        (Elsewhere-Between id false hot_ones (visits nodes) others))
      (Between-append (map (visit id true) warm_ones) (map (visit id false) hot_ones) (visits nodes)
        (warm_hot-Between id node.cache node.deployments warm_ones hot_ones inv.disjoint
          (entries-Found node.cache inv.warm_table) (entries-Found node.deployments inv.hot_table))
        (Elsewhere-Between id true warm_ones (visits nodes) others))
