-- ===== src/Cluster/Cluster/Emptying.antt =====
-- cluster.py: `Cluster.evict` of a whole model.
use ndif.Prelude.{
  ℕ, ◌≡◌, refl, sym, ap, ◌∙◌, true, false, ◌||◌, ◌==◌, none, some, List, [], ◌∷◌, ◌++◌, map, All,
  Bool-cases, Option-cases, inl, inr, arith, ltb,
}
use ndif.Prelude.Dict.{Dict, lookup}
use ndif.Prelude.Results.{Returns, ◌>>=◌}
use ndif.Prelude.Sort.{sort, insert}
use ndif.Evaluator.{ModelKey}
use ndif.Cluster.Deployment.{Deployment, ReplicaId, NodeId, Classes}
use ndif.Cluster.Replicas.{Replicas, find, inner_of}
use ndif.Cluster.Replicas.Entries.{find_inner}
use ndif.Cluster.Node.{Node}
use ndif.Cluster.Node.Invariant.{Inv, IsSolvent}
use ndif.Cluster.Cluster.{Cluster}
use ndif.Cluster.Cluster.Surveying.{IsManaged, Managed}
use ndif.Cluster.Cluster.Evicting.{
  replica, id_of, mem_id, union, replica_ids, with_state, drain_ids, evict_model, evict_replicas,
}
use ndif.Cluster.Cluster.Draining.{drain-Drained, replica-none}

mem_id-map :
    (rid : ReplicaId) (inner : Dict Deployment) (d : Deployment)
    → lookup rid inner ≡ some d
    → mem_id rid (map id_of inner) ≡ true
unfolding mem_id lookup
mem_id-map rid [] d h = absurd (ground arith)
mem_id-map rid ((r, e) ∷ inner) d h = ground (arith, mem_id-map rid inner d)

mem_id-append :
    (rid : ReplicaId) (xs ys : List ReplicaId)
    → mem_id rid (xs ++ ys) ≡ (mem_id rid xs || mem_id rid ys)
unfolding mem_id
mem_id-append rid [] ys = refl
mem_id-append rid (x ∷ xs) ys = ground (arith, mem_id-append rid xs ys)

mem_id-union :
    (rid : ReplicaId) (known rids : List ReplicaId)
    → mem_id rid (union known rids) ≡ (mem_id rid known || mem_id rid rids)
unfolding mem_id union
mem_id-union rid known [] = ground arith
mem_id-union rid known (r ∷ rids) = elim (Bool-cases (mem_id r known)) [
  | inl e ↦ rw (union, e) (ground (arith, mem_id-union rid known rids))
  | inr e ↦
      rw (union, e)
        (ground (arith, mem_id-union rid (known ++ r ∷ []) rids, mem_id-append rid known (r ∷ [])))
]

mem_id-insert :
    (rid x : ReplicaId) (xs : List ReplicaId)
    → mem_id rid (insert ltb x xs) ≡ (x == rid || mem_id rid xs)
unfolding mem_id insert
mem_id-insert rid x [] = refl
mem_id-insert rid x (y ∷ ys) = ground (arith, mem_id-insert rid x ys)

mem_id-sort : (rid : ReplicaId) (xs : List ReplicaId) → mem_id rid (sort ltb xs) ≡ mem_id rid xs
unfolding mem_id sort
mem_id-sort rid [] = refl
mem_id-sort rid (x ∷ xs) = ground (arith, mem_id-insert rid x (sort ltb xs), mem_id-sort rid xs)

find-unlisted :
    (mk : ModelKey) (rid : ReplicaId) (r : Replicas)
    → mem_id rid (map id_of (inner_of mk r)) ≡ false
    → find mk rid r ≡ none
find-unlisted mk rid r h = elim (Option-cases (find mk rid r)) [
  | inl e ↦ e
  | inr (d, e) ↦
      absurd (ground (arith, mem_id-map rid (inner_of mk r) d (sym (find_inner mk rid r) ∙ e)))
]

-- The id of an entry of the nodes.
abbrev key_of : NodeId × Node → NodeId
key_of (id, node) = id

-- A replica is listed, or it is neither HOT nor WARM.
module _ (mk : ModelKey) (node : Node) where
  abbrev hot_ids : List ReplicaId
  hot_ids = map id_of (inner_of mk node.deployments)

  abbrev warm_ids : List ReplicaId
  warm_ids = map id_of (inner_of mk node.cache)

  mem_id-replica_ids :
      (rid : ReplicaId)
      → mem_id rid (replica_ids mk node) ≡ (mem_id rid hot_ids || mem_id rid warm_ids)
  unfolding replica_ids mem_id
  mem_id-replica_ids rid =
      mem_id-sort rid (union [] (hot_ids ++ warm_ids))
      ∙ (mem_id-union rid [] (hot_ids ++ warm_ids) ∙ mem_id-append rid hot_ids warm_ids)

  replica_ids-all :
      (rid : ReplicaId) → mem_id rid (replica_ids mk node) ≡ false → replica mk rid node ≡ none
  replica_ids-all rid h =
      let unlisted = sym (mem_id-replica_ids rid) ∙ h in
      replica-none mk rid node (find-unlisted mk rid node.deployments (ground arith))
        (find-unlisted mk rid node.cache (ground arith))

-- What a run over these ids leaves: all of them are gone, and none came back.
record Cleaned (mk : ModelKey) (rids : List ReplicaId) (n n' : Node) : Type 0 where
  inv : Inv n'
  solvent : IsSolvent n → IsSolvent n'
  same_id : n'.id ≡ n.id
  absent : (rid : ReplicaId) → replica mk rid n ≡ none → replica mk rid n' ≡ none
  gone : (rid : ReplicaId) → mem_id rid rids ≡ true → replica mk rid n' ≡ none

module _ (classes : Classes) (now : ℕ) (mk : ModelKey) where
  drain_ids-Cleaned :
      (rids : List ReplicaId) (n : Node) (states : List Deployment)
      → Inv n
      → Returns (drain_ids classes now mk rids (n, states)) (λ r. Cleaned mk rids n r.0)
  unfolding drain_ids mem_id
  drain_ids-Cleaned [] n states inv = (
    (n, states),
    refl,
    record {
      inv = inv;
      solvent = λ s. s;
      same_id = refl;
      absent = λ rid h. h;
      gone = λ rid h. absurd (ground arith);
    },
  )
  drain_ids-Cleaned (rid ∷ rids) n states inv =
      let (n', q, v) = drain-Drained classes now mk rid 0 n inv in
      let (r, q', w) = drain_ids-Cleaned rids n' (with_state (replica mk rid n) states) v.inv in
      (
        r,
        rw (q, ◌>>=◌) q',
        record {
          inv = w.inv;
          solvent = λ s. w.solvent (v.solvent s);
          same_id = w.same_id ∙ v.same_id;
          absent = λ rid' h. w.absent rid' (v.absent rid' h);
          gone = λ rid' h. elim (Bool-cases (mem_id rid' rids)) [
            | inl e ↦ w.gone rid' e
            | inr e ↦ w.absent rid' (ground (arith, v.gone))
          ];
        },
      )

  -- No replica of the model is left on the node.
  node-emptied :
      (n n' : Node)
      → Cleaned mk (replica_ids mk n) n n'
      → (rid : ReplicaId) → replica mk rid n' ≡ none
  node-emptied n n' c rid = elim (Bool-cases (mem_id rid (replica_ids mk n))) [
    | inl e ↦ c.gone rid e
    | inr e ↦ c.absent rid (replica_ids-all mk n rid e)
  ]

  -- The nodes as they stand after.
  pub record Emptied (before after : Dict Node) : Type 0 where
    pub each : All IsManaged after
    pub solvent : All (λ e. IsSolvent e.1) before → All (λ e. IsSolvent e.1) after
    pub gone : All (λ e. (rid : ReplicaId) → replica mk rid e.1 ≡ none) after
    pub same_ids : map key_of after ≡ map key_of before

  evict_model-Emptied :
      (nodes : Dict Node)
      → All IsManaged nodes
      → Returns (evict_model classes now mk nodes) (λ r. Emptied nodes r.0)
  unfolding evict_model
  evict_model-Emptied [] a =
      (([], []), refl, record { each = tt; solvent = λ s. s; gone = tt; same_ids = refl })
  evict_model-Emptied ((id, node) ∷ nodes) a =
      let (here, q, c) = drain_ids-Cleaned (replica_ids mk node) node [] a.0.1 in
      let (there, q', t) = evict_model-Emptied nodes a.1 in
      (
        ((id, here.0) ∷ there.0, here.1 ++ there.1),
        rw (q, q', ◌>>=◌) refl,
        record {
          each = ((c.same_id ∙ a.0.0, c.inv), t.each);
          solvent = λ s. (c.solvent s.0, t.solvent s.1);
          gone = (node-emptied node here.0 c, t.gone);
          same_ids = ap (λ ids. id ∷ ids) t.same_ids;
        },
      )

  -- On a cluster whose nodes all satisfy their invariant, `Cluster.evict` of a model with no
  -- replica named raises nothing and leaves no replica of the model, HOT or WARM, on any node; the
  -- nodes are the same and satisfy their invariant again, and no card and no CPU cache is promised
  -- beyond its memory if none was before.
  pub evict_replicas-Emptied :
      (cluster : Cluster)
      → Managed cluster.nodes
      → Returns (evict_replicas classes now mk none cluster) (λ r. Emptied cluster.nodes r.0.nodes)
  unfolding evict_replicas
  evict_replicas-Emptied cluster m =
      let (done, q, v) = evict_model-Emptied cluster.nodes m.each in
      ((record cluster { nodes = done.0 }, done.1), rw (q, ◌>>=◌) refl, v)
