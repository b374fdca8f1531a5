-- ===== src/Cluster/Cluster/Removing.antt =====
-- cluster.py: `Cluster.evict` of one replica.
use ndif.Prelude.{
  ℕ, ◌≡◌, refl, sym, ap, ◌∙◌, Option, none, some, List, [], ◌∷◌, ◌++◌, All, ◌⊎◌, Option-cases, inl,
  inr,
}
use ndif.Prelude.Dict.{Dict}
use ndif.Prelude.Results.{Returns, ◌>>=◌}
use ndif.Evaluator.{ModelKey}
use ndif.Cluster.Deployment.{Deployment, ReplicaId, NodeId, Classes}
use ndif.Cluster.Replicas.{find, drop}
use ndif.Cluster.Node.{Node, evict}
use ndif.Cluster.Node.Invariant.{Inv, IsSolvent}
use ndif.Cluster.Node.Uncaching.{uncache-Uncached}
use ndif.Cluster.Node.Clearing.{evict-Evicted}
use ndif.Cluster.Cluster.{Cluster}
use ndif.Cluster.Cluster.Surveying.{IsManaged, Managed}
use ndif.Cluster.Cluster.Evicting.{replica, no_exclusion, evict_one, evict_replicas}
use ndif.Cluster.Cluster.Draining.{replica-warm, evict-warm, Uncached-Inv, Uncached-IsSolvent}

-- What is left of a replica: one that was HOT is HOT no more, and one that was WARM is gone, with
-- the HOT replicas as they were; every other replica of the table stays.
abbrev pub Left : ModelKey → ReplicaId → Option Deployment → Node → Node → Type 0
Left mk rid (some hot) n n' = n'.deployments ≡ drop mk rid n.deployments
Left mk rid none n n' = (n'.deployments ≡ n.deployments) × (n'.cache ≡ drop mk rid n.cache)

module _ (classes : Classes) (now : ℕ) (mk : ModelKey) (rid : ReplicaId) where
  -- A sound node, as solvent as before, that the replica left.
  record Settled (n n' : Node) : Type 0 where
    inv : Inv n'
    solvent : IsSolvent n → IsSolvent n'
    same_id : n'.id ≡ n.id
    left : Left mk rid (find mk rid n.deployments) n n'

  evict-Settled :
      (n : Node) (d : Deployment)
      → Inv n
      → replica mk rid n ≡ some d
      → Returns (evict classes now no_exclusion mk rid n) (Settled n)
  evict-Settled n d inv e = elim (Option-cases (find mk rid n.deployments)) [
    | inr (hot, h) ↦
        let (n', q, v) = evict-Evicted classes now no_exclusion mk rid hot n inv h in
        (n', q, record { inv = v.inv; solvent = v.solvent; same_id = v.same_id; left = rw h v.hot })
    | inl h ↦
        let warm = sym (replica-warm classes now mk rid n h) ∙ e in
        let (n', q, (u, c)) = uncache-Uncached mk rid d n inv.warm_table warm in
        (
          n',
          evict-warm classes now mk rid n d warm ∙ q,
          record {
            inv = Uncached-Inv n n' d.size_bytes u inv;
            solvent = Uncached-IsSolvent n n' d.size_bytes u;
            same_id = u.same_id;
            left = rw h (u.same_hot, c);
          },
        )
  ]

  -- Nobody has the replica.
  abbrev pub Nowhere : Dict Node → Type 0
  Nowhere nodes = All (λ e. replica mk rid e.1 ≡ none) nodes

  -- The first node that has the replica is the only one that changed, and the answer is the replica
  -- as it was there.
  pub record Found (before after : Dict Node) (states : List Deployment) : Type 0 where
    pub front : Dict Node
    pub back : Dict Node
    pub id : NodeId
    pub node : Node
    pub node_after : Node
    pub state : Deployment
    pub was : before ≡ front ++ (id, node) ∷ back
    pub is : after ≡ front ++ (id, node_after) ∷ back
    pub first : Nowhere front
    pub had : replica mk rid node ≡ some state
    pub answer : states ≡ state ∷ []
    pub left : Left mk rid (find mk rid node.deployments) node node_after

  one_more :
      (id : NodeId) (node : Node) (nodes after : Dict Node) (states : List Deployment)
      → replica mk rid node ≡ none
      → Found nodes after states
      → Found ((id, node) ∷ nodes) ((id, node) ∷ after) states
  one_more id node nodes after states e f = record {
    front = (id, node) ∷ f.front;
    back = f.back;
    id = f.id;
    node = f.node;
    node_after = f.node_after;
    state = f.state;
    was = ap (λ rest. (id, node) ∷ rest) f.was;
    is = ap (λ rest. (id, node) ∷ rest) f.is;
    first = (e, f.first);
    had = f.had;
    answer = f.answer;
    left = f.left;
  }

  -- The nodes as they stand after, and the replica as it was, if a node had it.
  pub record Removed (before after : Dict Node) (states : List Deployment) : Type 0 where
    pub each : All IsManaged after
    pub solvent : All (λ e. IsSolvent e.1) before → All (λ e. IsSolvent e.1) after
    pub found : (states ≡ []) × (after ≡ before) × Nowhere before ⊎ Found before after states

  later :
      (id : NodeId) (node : Node) (nodes after : Dict Node) (states : List Deployment)
      → IsManaged (id, node)
      → replica mk rid node ≡ none
      → Removed nodes after states
      → Removed ((id, node) ∷ nodes) ((id, node) ∷ after) states
  later id node nodes after states m e r = record {
    each = (m, r.each);
    solvent = λ s. (s.0, r.solvent s.1);
    found = elim r.found [
      | inl f ↦ inl (f.0, ap (λ rest. (id, node) ∷ rest) f.1, (e, f.2))
      | inr f ↦ inr (one_more id node nodes after states e f)
    ];
  }

  evict_one-Removed :
      (nodes : Dict Node)
      → All IsManaged nodes
      → Returns (evict_one classes now mk rid nodes) (λ r. Removed nodes r.0 r.1)
  unfolding evict_one
  evict_one-Removed [] a =
      (([], []), refl, record { each = tt; solvent = λ s. s; found = inl (refl, refl, tt) })
  evict_one-Removed ((id, node) ∷ nodes) a = elim (Option-cases (replica mk rid node)) [
    | inr (d, e) ↦
        let (n', q, v) = evict-Settled node d a.0.1 e in
        (
          ((id, n') ∷ nodes, d ∷ []),
          rw (evict_one, e, q, ◌>>=◌) refl,
          record {
            each = ((v.same_id ∙ a.0.0, v.inv), a.1);
            solvent = λ s. (v.solvent s.0, s.1);
            found = inr (record {
              front = [];
              back = nodes;
              id = id;
              node = node;
              node_after = n';
              state = d;
              was = refl;
              is = refl;
              first = tt;
              had = e;
              answer = refl;
              left = v.left;
            });
          },
        )
    | inl e ↦
        let (r, q, v) = evict_one-Removed nodes a.1 in
        (
          ((id, node) ∷ r.0, r.1),
          rw (evict_one, e, q, ◌>>=◌) refl,
          later id node nodes r.0 r.1 a.0 e v,
        )
  ]

  -- On a cluster whose nodes all satisfy their invariant, `Cluster.evict` of a named replica raises
  -- nothing, and the nodes satisfy their invariant again, with no card and no CPU cache promised
  -- beyond its memory if none was before; either the answer lists nothing, nothing changed and no
  -- node has the replica, or the first node that has it is the only one that changed, the answer
  -- lists the replica as it was there, and a HOT replica has left the HOT table, a WARM one the cache.
  pub evict_replicas-Removed :
      (cluster : Cluster)
      → Managed cluster.nodes
      → Returns
          (evict_replicas classes now mk (some rid) cluster)
          (λ r. Removed cluster.nodes r.0.nodes r.1)
  unfolding evict_replicas
  evict_replicas-Removed cluster m =
      let (done, q, v) = evict_one-Removed cluster.nodes m.each in
      ((record cluster { nodes = done.0 }, done.1), rw (q, ◌>>=◌) refl, v)
