-- ===== src/Controller/Homes.antt =====
-- controller.py: the records that `build` comes to agree with the nodes that they stand in.
use ndif.Prelude.{
  ◌≡◌, ap, sym, ◌∙◌, true, false, none, some, [], ◌∷◌, ◌++◌, All, All-append, All-map, All_imp,
  All_zip, map,
}
use ndif.Prelude.Dict.{Dict, lookup}
use ndif.Cluster.Deployment.{NodeId}
use ndif.Cluster.Replicas.{Entry, find, entries}
use ndif.Cluster.Replicas.Listing.{Found, entries-Found}
use ndif.Cluster.Node.{Node}
use ndif.Cluster.Node.Invariant.{Inv}
use ndif.Cluster.Cluster.Surveying.{IsManaged, Managed, lookup-All}
use ndif.Controller.{Visit, visit, visits}
use ndif.Controller.Synced.{Fits}

-- A replica's own node is the one that it stands in.
abbrev pub AtHome : Visit → Type 0
AtHome v = v.deployment.node_id ≡ v.key.node_id

visits-All :
    (P : Visit → Type 0) (nodes : Dict Node)
    → All
        (λ entry.
          All (λ e. P (visit entry.0 true e)) (entries entry.1.cache)
          × All (λ e. P (visit entry.0 false e)) (entries entry.1.deployments))
        nodes
    → All P (visits nodes)
unfolding visits
visits-All P [] h = tt
visits-All P ((id, node) ∷ nodes) h =
    All-append P (map (visit id true) (entries node.cache))
      (map (visit id false) (entries node.deployments) ++ visits nodes)
      (All-map P (visit id true) (entries node.cache) h.0.0)
      (All-append P (map (visit id false) (entries node.deployments)) (visits nodes)
        (All-map P (visit id false) (entries node.deployments) h.0.1) (visits-All P nodes h.1))

module _ (nodes : Dict Node) (id : NodeId) (node : Node) (here : lookup id nodes ≡ some node)
    (inv : Inv node) (e : Entry) where
  warm-Fits : Found node.cache e → e.deployment.node_id ≡ id → Fits e.deployment nodes
  warm-Fits found home n h =
      let names = inv.warm_named e.key e.rid e.deployment found in
      let there : some node ≡ some n = sym here ∙ (ap (λ i. lookup i nodes) (sym home) ∙ h) in
      let same : node ≡ n = cc in
      rw (sym same) (record {
        gpus = λ held k.
            let hot : find e.key e.rid node.deployments ≡ some held = rw (names.0, names.1) at k in
            let gone = inv.disjoint e.key e.rid held hot in
            let clash : none ≡ some e.deployment = sym gone ∙ found in absurd cc;
        size = λ held k.
            let warm : find e.key e.rid node.cache ≡ some held = rw (names.0, names.1) at k in
            let one : some held ≡ some e.deployment = sym warm ∙ found in
            let this : held ≡ e.deployment = cc in ap (λ d. d.size_bytes) this;
      })

  hot-Fits : Found node.deployments e → e.deployment.node_id ≡ id → Fits e.deployment nodes
  hot-Fits found home n h =
      let names = inv.hot_named e.key e.rid e.deployment found in
      let there : some node ≡ some n = sym here ∙ (ap (λ i. lookup i nodes) (sym home) ∙ h) in
      let same : node ≡ n = cc in
      rw (sym same) (record {
        gpus = λ held k.
            let hot : find e.key e.rid node.deployments ≡ some held = rw (names.0, names.1) at k in
            let one : some held ≡ some e.deployment = sym hot ∙ found in
            let this : held ≡ e.deployment = cc in ap (λ d. d.gpus) this;
        size = λ held k.
            let warm : find e.key e.rid node.cache ≡ some held = rw (names.0, names.1) at k in
            let gone = inv.disjoint e.key e.rid e.deployment found in
            let clash : none ≡ some held = sym gone ∙ warm in absurd cc;
      })

pub visits-Fits :
    (nodes : Dict Node)
    → Managed nodes
    → All AtHome (visits nodes)
    → All (λ v. Fits v.deployment nodes) (visits nodes)
unfolding visit
visits-Fits nodes managed homes =
    All_imp (λ v. AtHome v × (AtHome v → Fits v.deployment nodes)) (λ v. Fits v.deployment nodes)
      (visits nodes) (λ v h. h.1 h.0)
      (All_zip AtHome (λ v. AtHome v → Fits v.deployment nodes) (visits nodes) homes
        (visits-All (λ v. AtHome v → Fits v.deployment nodes) nodes
          (All_imp (λ e. (lookup e.0 nodes ≡ some e.1) × IsManaged e)
            (λ entry.
              All (λ e. AtHome (visit entry.0 true e) → Fits e.deployment nodes)
                (entries entry.1.cache)
              × All (λ e. AtHome (visit entry.0 false e) → Fits e.deployment nodes)
                  (entries entry.1.deployments))
            nodes
            (λ entry h. (
              All_imp (Found entry.1.cache)
                  (λ e. AtHome (visit entry.0 true e) → Fits e.deployment nodes)
                  (entries entry.1.cache)
                  (λ e f home. warm-Fits nodes entry.0 entry.1 h.0 h.1.1 e f home)
                  (entries-Found entry.1.cache h.1.1.warm_table),
              All_imp (Found entry.1.deployments)
                  (λ e. AtHome (visit entry.0 false e) → Fits e.deployment nodes)
                  (entries entry.1.deployments)
                  (λ e f home. hot-Fits nodes entry.0 entry.1 h.0 h.1.1 e f home)
                  (entries-Found entry.1.deployments h.1.1.hot_table),
            ))
            (lookup-All IsManaged nodes managed.unique managed.each))))
