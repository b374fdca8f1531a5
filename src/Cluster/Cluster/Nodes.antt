-- ===== src/Cluster/Cluster/Nodes.antt =====
-- cluster.py: `Cluster.update_nodes` and the invariant of the nodes.
use ndif.Prelude.{
  ℕ, zero, suc, ◌+◌, ◌/◌, ◌≤◌, ◌≡◌, ◌≢◌, refl, Bool, true, false, not, ◌&&◌, Option, none, some,
  List, [], ◌∷◌, All, All_imp, if◌then◌else◌, ◌==◌, Bool-cases, Option-cases, inl, inr, arith,
}
use ndif.Prelude.Dict.{Dict, lookup, set, lookup-set, set-All, set-Unique, Unique, sum_by}
use ndif.Prelude.Int.{neg_part}
use ndif.Prelude.Results.{Result, ok, raise, Result-cases, ◌>>=◌}
use ndif.Evaluator.{Factor}
use ndif.Cluster.Resources.Charges.{Distinct}
use ndif.Cluster.Deployment.{NodeId}
use ndif.Cluster.Replicas.{find}
use ndif.Cluster.Replicas.Weights.{total}
use ndif.Cluster.Node.{Node}
use ndif.Cluster.Node.Invariant.{Inv, IsSolvent, IsBalanced}
use ndif.Cluster.Cluster.{
  Cluster, RayNode, new_gpus, new_node, join, join_all, managed, is_current, sweep, update_nodes,
}
use ndif.Cluster.Cluster.Surveying.{IsManaged, Managed}

-- The cards of a new node: numbered from `i`, and free.
new_gpus-from : (n i bytes : ℕ) → All (λ gpu. i ≤ gpu.index) (new_gpus n i bytes)
unfolding new_gpus
new_gpus-from zero i bytes = tt
new_gpus-from (suc n) i bytes = (
  omega arith,
  All_imp (λ gpu. i + 1 ≤ gpu.index) (λ gpu. i ≤ gpu.index) (new_gpus n (i + 1) bytes)
      (λ gpu h. omega arith) (new_gpus-from n (i + 1) bytes),
)

new_gpus-Distinct : (n i bytes : ℕ) → Distinct (new_gpus n i bytes)
unfolding new_gpus
new_gpus-Distinct zero i bytes = tt
new_gpus-Distinct (suc n) i bytes = (
  All_imp (λ gpu. i + 1 ≤ gpu.index) (λ gpu. gpu.index ≢ i) (new_gpus n (i + 1) bytes)
      (λ gpu h. omega arith) (new_gpus-from n (i + 1) bytes),
  new_gpus-Distinct n (i + 1) bytes,
)

new_gpus-IsBalanced : (n i bytes : ℕ) → All (IsBalanced []) (new_gpus n i bytes)
unfolding new_gpus total sum_by
new_gpus-IsBalanced zero i bytes = tt
new_gpus-IsBalanced (suc n) i bytes = (omega arith, new_gpus-IsBalanced n (i + 1) bytes)

new_gpus-free :
    (n i bytes : ℕ) → All (λ gpu. neg_part gpu.available_memory_bytes ≡ 0) (new_gpus n i bytes)
unfolding new_gpus
new_gpus-free zero i bytes = tt
new_gpus-free (suc n) i bytes = (refl, new_gpus-free n (i + 1) bytes)

-- A node that Ray lists has cards and reports both memories.
abbrev is_reported : Option ℕ → Bool
is_reported none = false
is_reported (some bytes) = true

abbrev is_full : ℕ → RayNode → Bool
is_full total_gpus ray =
    not (total_gpus == 0) && (is_reported ray.cuda_memory_bytes && is_reported ray.cpu_memory_bytes)

abbrev fully_listed : Option ℕ → RayNode → Bool
fully_listed none ray = true
fully_listed (some total_gpus) ray = is_full total_gpus ray

unfoldable pub all_full : List RayNode → Bool
all_full [] = true
all_full (ray ∷ rays) = fully_listed (managed ray) ray && all_full rays

-- What holds of a result; it may raise unless a test holds.
abbrev pub Unless : {A : Type 0} → Bool → Result A → (A → Type 0) → Type 0
Unless test (ok a) P = P a
Unless test (raise e) P = test ≡ true → ⊥

module _ (minimum : Option ℕ) (percentage : Factor) where
  module _ (ray : RayNode) (total_gpus cuda cpu : ℕ) where
    new_node-Inv : Inv (new_node minimum percentage ray total_gpus cuda cpu)
    unfolding new_node find lookup total sum_by
    new_node-Inv = record {
      hot_table = record { outer = tt; inner = λ mk. tt };
      warm_table = record { outer = tt; inner = λ mk. tt };
      disjoint = λ mk rid d h. refl;
      hot_named = λ mk rid d h. absurd (ground arith);
      warm_named = λ mk rid d h. absurd (ground arith);
      cards = record {
        distinct = new_gpus-Distinct total_gpus 0 (cuda / total_gpus);
        seated = λ mk rid d h. absurd (ground arith);
        balanced = new_gpus-IsBalanced total_gpus 0 (cuda / total_gpus);
      };
      cpu_balanced = omega arith;
    }

    new_node-IsSolvent : IsSolvent (new_node minimum percentage ray total_gpus cuda cpu)
    unfolding new_node
    new_node-IsSolvent = record {
      gpus = new_gpus-free total_gpus 0 (cuda / total_gpus);
      cpu = refl;
    }

  -- The nodes stay managed and solvent, and none is lost.
  record Joined (before after : Dict Node) : Type 0 where
    managed : Managed after
    solvent : All (λ e. IsSolvent e.1) before → All (λ e. IsSolvent e.1) after
    known : (id : NodeId) (node : Node) → lookup id before ≡ some node → lookup id after ≡ some node

  set-Joined :
      (ray : RayNode) (total_gpus cuda cpu : ℕ) (nodes : Dict Node)
      → Managed nodes
      → lookup ray.node_id nodes ≡ none
      → Joined nodes (set ray.node_id (new_node minimum percentage ray total_gpus cuda cpu) nodes)
  unfolding new_node
  set-Joined ray total_gpus cuda cpu nodes m e =
      let new = new_node minimum percentage ray total_gpus cuda cpu in
      record {
        managed = record {
          unique = set-Unique ray.node_id new nodes m.unique;
          each =
              set-All IsManaged ray.node_id new nodes (refl, new_node-Inv ray total_gpus cuda cpu)
                m.each;
        };
        solvent =
            set-All (λ e. IsSolvent e.1) ray.node_id new nodes
              (new_node-IsSolvent ray total_gpus cuda cpu);
        known = λ id node h. ground (arith, lookup-set ray.node_id id new nodes);
      }

  join-Joined :
      (ray : RayNode) (total_gpus : ℕ) (nodes : Dict Node)
      → Managed nodes
      → Unless
          (is_full total_gpus ray)
          (join minimum percentage ray total_gpus nodes)
          (Joined nodes)
  unfolding join
  join-Joined ray total_gpus nodes m = elim (Option-cases (lookup ray.node_id nodes)) [
    | inr (node, e) ↦
        rw (join, e) (record { managed = m; solvent = λ s. s; known = λ id node h. h })
    | inl e ↦ elim (Option-cases ray.cuda_memory_bytes) [
      | inl f ↦ rw (join, e, f) (λ full. absurd (ground arith))
      | inr (cuda, f) ↦ elim (Bool-cases (total_gpus == 0)) [
        | inl z ↦ rw (join, e, f, z) (λ full. absurd (ground arith))
        | inr z ↦ elim (Option-cases ray.cpu_memory_bytes) [
          | inl g ↦ rw (join, e, f, z, g) (λ full. absurd (ground arith))
          | inr (cpu, g) ↦ rw (join, e, f, z, g) (set-Joined ray total_gpus cuda cpu nodes m e)
        ]
      ]
    ]
  ]

  join_all-Joined :
      (rays : List RayNode) (nodes : Dict Node)
      → Managed nodes
      → Unless (all_full rays) (join_all minimum percentage rays nodes) (Joined nodes)
  unfolding join_all all_full
  join_all-Joined [] nodes m = record { managed = m; solvent = λ s. s; known = λ id node h. h }
  join_all-Joined (ray ∷ rays) nodes m = elim (Option-cases (managed ray)) [
    | inl e ↦ rw (join_all, e) (join_all-Joined rays nodes m)
    | inr (total_gpus, e) ↦ elim (Result-cases (join minimum percentage ray total_gpus nodes)) [
      | inl (x, f) ↦
          rw (join_all, e, f, ◌>>=◌)
            (λ full. let bad = (rw f at (join-Joined ray total_gpus nodes m)) in bad (ground arith))
      | inr (nodes', f) ↦
          let j = rw f at (join-Joined ray total_gpus nodes m) in
          elim (Result-cases (join_all minimum percentage rays nodes')) [
            | inl (x, g) ↦
                rw (join_all, e, f, ◌>>=◌, g)
                  (λ full.
                    let bad = rw g at (join_all-Joined rays nodes' j.managed) in bad (ground arith))
            | inr (after, g) ↦
                let k = rw g at (join_all-Joined rays nodes' j.managed) in
                rw (join_all, e, f, ◌>>=◌, g)
                  (record {
                    managed = k.managed;
                    solvent = λ s. k.solvent (j.solvent s);
                    known = λ id node h. k.known id node (j.known id node h);
                  })
          ]
    ]
  ]

module _ (rays : List RayNode) where
  sweep-All :
      (P : NodeId × Node → Type 0) (nodes : Dict Node) → All P nodes → All P (sweep rays nodes)
  unfolding sweep
  sweep-All P [] a = tt
  sweep-All P ((id, node) ∷ nodes) a = elim (Bool-cases (is_current id rays)) [
    | inl e ↦ rw e (a.0, sweep-All P nodes a.1)
    | inr e ↦ rw e (sweep-All P nodes a.1)
  ]

  -- A look-up finds what it found, if the node is still there.
  lookup-sweep :
      (id : NodeId) (nodes : Dict Node)
      → lookup id (sweep rays nodes) ≡ (if is_current id rays then lookup id nodes else none)
  unfolding sweep lookup
  lookup-sweep id [] = ground arith
  lookup-sweep id ((j, node) ∷ nodes) = ground (arith, lookup-sweep id nodes)

  sweep-Unique : (nodes : Dict Node) → Unique nodes → Unique (sweep rays nodes)
  unfolding sweep
  sweep-Unique [] u = tt
  sweep-Unique ((id, node) ∷ nodes) u = elim (Bool-cases (is_current id rays)) [
    | inl e ↦ rw e (ground (arith, lookup-sweep id nodes, u.0), sweep-Unique nodes u.1)
    | inr e ↦ rw e (sweep-Unique nodes u.1)
  ]

-- The nodes are managed, as solvent as they were; a node that Ray still lists stays as it was, and
-- every other is gone.
pub record Updated (rays : List RayNode) (c c' : Cluster) : Type 0 where
  pub managed : Managed c'.nodes
  pub solvent : All (λ e. IsSolvent e.1) c.nodes → All (λ e. IsSolvent e.1) c'.nodes
  pub stays :
      (id : NodeId) (node : Node)
      → lookup id c.nodes ≡ some node
      → lookup id c'.nodes ≡ (if is_current id rays then some node else none)
  pub departed : (id : NodeId) → is_current id rays ≡ false → lookup id c'.nodes ≡ none

-- For a cluster whose nodes all satisfy their invariant, `update_nodes` raises nothing if every node
-- that Ray lists alive with a GPU resource has at least one card and reports both memories. Whenever
-- it raises nothing, the nodes old and new all satisfy their invariant, no card and no CPU cache is
-- promised beyond its memory if none was before, a known node that Ray lists alive with a GPU
-- resource stays as it was, and every node that Ray does not list so is gone.
pub update_nodes-Updated :
    (rays : List RayNode) (c : Cluster)
    → Managed c.nodes
    → Unless (all_full rays) (update_nodes rays c) (Updated rays c)
unfolding update_nodes
update_nodes-Updated rays c m =
    let joined =
      join_all-Joined c.minimum_deployment_time_seconds c.model_cache_percentage rays c.nodes m in
    elim (Result-cases
      (join_all c.minimum_deployment_time_seconds c.model_cache_percentage rays c.nodes)) [
        | inl (e, h) ↦ rw (update_nodes, h, ◌>>=◌) (rw h at joined)
        | inr (nodes, h) ↦
            let j = rw h at joined in
            rw (update_nodes, h, ◌>>=◌)
              (record {
                managed = record {
                  unique = sweep-Unique rays nodes j.managed.unique;
                  each = sweep-All rays IsManaged nodes j.managed.each;
                };
                solvent = λ s. sweep-All rays (λ e. IsSolvent e.1) nodes (j.solvent s);
                stays = λ id node h. ground (arith, lookup-sweep rays id nodes, j.known id node h);
                departed = λ id h. ground (arith, lookup-sweep rays id nodes);
              })
      ]
