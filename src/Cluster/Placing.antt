-- ===== src/Cluster/Placing.antt =====
-- node.py: `Node.deploy` on a sound candidate.
use ndif.Prelude.{
  ℕ, ◌+◌, ◌≡◌, refl, ◌∙◌, Option, none, some, List, map, All, All_imp, arith, if◌then◌else◌,
  Option-cases, inl, inr,
}
use ndif.Prelude.Dict.{lookup}
use ndif.Prelude.Int.{pos, pos_part, neg_part, ◌+ℤ◌, +ℤ_parts}
use ndif.Prelude.Results.{Returns, ◌>>=◌}
use ndif.Evaluator.{ModelKey}
use ndif.Cluster.Deployment.{Deployment, ReplicaId, Classes}
use ndif.Cluster.Resources.{Gpu, minus}
use ndif.Cluster.Resources.Charges.{Fitted, charged, allocate_lem}
use ndif.Cluster.Replicas.{Replicas, find, put, first_replica}
use ndif.Cluster.Replicas.Weights.{total, total-drop, IsTable}
use ndif.Cluster.Replicas.Entries.{
  same_key, find-put, find-drop, find_inner, put-IsTable, drop-IsTable,
}
use ndif.Cluster.Node.{Node, Excluded, Placement, placed, deploy, take_from, with_gpus, mem_key}
use ndif.Cluster.Node.Books.{booked-Cards, layout, layout-charged, sign}
use ndif.Cluster.Node.Clearing.{Cleared, evict_all-Cleared}
use ndif.Cluster.Node.Invariant.{Inv, IsSolvent, Named, Disjoint, size_weight}
use ndif.Cluster.Placement.Booking.{Fitted-layout, Cleared-HasLeft, booked-IsCovered, HasLeft}
use ndif.Cluster.Placement.Room.{RoomFor}
use ndif.Cluster.Placement.Sound.{IsSound}

first_replica-none :
    (mk : ModelKey) (rid : ReplicaId) (r : Replicas)
    → first_replica mk r ≡ none
    → find mk rid r ≡ none
unfolding first_replica lookup
first_replica-none mk rid r h = ground (arith, find_inner mk rid r)

first_replica-some :
    (mk : ModelKey) (rid : ReplicaId) (d : Deployment) (r : Replicas)
    → first_replica mk r ≡ some (rid, d)
    → find mk rid r ≡ some d
unfolding first_replica lookup
first_replica-some mk rid d r h = ground (arith, find_inner mk rid r)

-- The id that the new replica gets is nobody's on this node, and taking it keeps the books of the
-- CPU cache.
record Taken (mk : ModelKey) (n : Node) (n' : Node) (rid : ReplicaId) : Type 0 where
  same_id : n'.id ≡ n.id
  same_gpus : n'.gpu_resources ≡ n.gpu_resources
  same_hot : n'.deployments ≡ n.deployments
  table : IsTable n'.cache
  shrinks :
      (mk' : ModelKey) (rid' : ReplicaId) (d : Deployment)
      → find mk' rid' n'.cache ≡ some d
      → find mk' rid' n.cache ≡ some d
  not_warm : find mk rid n'.cache ≡ none
  not_hot : find mk rid n.deployments ≡ none
  cpu_balanced :
      pos_part n'.cpu_resources.available_memory_bytes + total size_weight n'.cache
      ≡ n'.cpu_resources.memory_bytes + neg_part n'.cpu_resources.available_memory_bytes
  cpu_solvent :
      neg_part n.cpu_resources.available_memory_bytes ≡ 0
      → neg_part n'.cpu_resources.available_memory_bytes ≡ 0

-- What taking an id needs of the node; the cards may be half booked.
record WarmInv (n : Node) : Type 0 where
  warm_table : IsTable n.cache
  disjoint : Disjoint n.deployments n.cache
  cpu_balanced :
      pos_part n.cpu_resources.available_memory_bytes + total size_weight n.cache
      ≡ n.cpu_resources.memory_bytes + neg_part n.cpu_resources.available_memory_bytes

take_from-Taken :
    (mk : ModelKey) (fresh : ReplicaId) (n : Node) (o : Option (ReplicaId × Deployment))
    → WarmInv n
    → find mk fresh n.deployments ≡ none
    → first_replica mk n.cache ≡ o
    → Taken mk n (take_from mk fresh n o).0 (take_from mk fresh n o).1
unfolding take_from
take_from-Taken mk fresh n none inv f e = record {
  same_id = refl;
  same_gpus = refl;
  same_hot = refl;
  table = inv.warm_table;
  shrinks = λ mk' rid' d h. h;
  not_warm = first_replica-none mk fresh n.cache e;
  not_hot = f;
  cpu_balanced = inv.cpu_balanced;
  cpu_solvent = λ s. s;
}
take_from-Taken mk fresh n (some (rid, d)) inv f e =
    let stored = first_replica-some mk rid d n.cache e in
    let available = n.cpu_resources.available_memory_bytes in
    record {
      same_id = refl;
      same_gpus = refl;
      same_hot = refl;
      table = drop-IsTable mk rid n.cache inv.warm_table;
      shrinks = λ mk' rid' d' h. ground (arith, find-drop mk mk' rid rid' n.cache inv.warm_table);
      not_warm = ground (arith, find-drop mk mk rid rid n.cache inv.warm_table);
      not_hot = elim (Option-cases (find mk rid n.deployments)) [
        | inl g ↦ g
        | inr (d', g) ↦ absurd (ground (arith, inv.disjoint mk rid d' g))
      ];
      cpu_balanced = omega (
        arith,
        inv.cpu_balanced,
        total-drop size_weight mk rid d n.cache stored,
        +ℤ_parts available (pos d.size_bytes),
      );
      cpu_solvent = λ s.
          omega
            (arith, s, +ℤ_parts available (pos d.size_bytes), sign (available +ℤ pos d.size_bytes));
    }

-- The new replica is HOT on its cards, the evicted ones are not, and the node is sound.
pub record Deployed (now : ℕ) (p : Placement) (n : Node) (n' : Node) (rid : ReplicaId)
    : Type 0 where
  pub inv : Inv n'
  pub solvent : IsSolvent n → IsSolvent n'
  pub same_id : n'.id ≡ n.id
  pub same_layout : layout n'.gpu_resources.gpus ≡ layout n.gpu_resources.gpus
  pub hot :
      (mk' : ModelKey) (rid' : ReplicaId)
      → find mk' rid' n'.deployments ≡ (
          if same_key p.model_key rid mk' rid'
          then some (placed n.id rid p now)
          else if mem_key mk' rid' p.evictions
          then none
          else find mk' rid' n.deployments)

module _ (classes : Classes) (now : ℕ) (exclude : Excluded) (fresh : ReplicaId) (p : Placement)
    (n : Node) (n1 : Node) (c : Cleared n p.evictions n1) where
  abbrev booked_gpus : List Gpu
  booked_gpus = map (charged minus p.gpus) n1.gpu_resources.gpus

  abbrev booked : Node
  booked = record n1 { gpu_resources = record (n1.gpu_resources) { gpus = booked_gpus } }

  -- The node once the id is taken and the replica entered.
  module _ (n2 : Node) (rid : ReplicaId) (t : Taken p.model_key booked n2 rid) where
    abbrev entered : Node
    entered = record n2 {
      deployments = put p.model_key rid (placed n2.id rid p now) n2.deployments;
    }

    entered-Disjoint :
        Disjoint (put p.model_key rid (placed n2.id rid p now) n1.deployments) n2.cache
    entered-Disjoint mk' rid' d' h = elim (Option-cases (find mk' rid' n2.cache)) [
      | inl g ↦ g
      | inr (d, g) ↦ absurd (
          ground (
            arith,
            t.shrinks mk' rid' d g,
            find-put p.model_key mk' rid rid' n1.deployments (placed n2.id rid p now),
            c.inv.disjoint mk' rid' d',
            t.not_warm,
          ))
    ]

    entered-Named : Named (put p.model_key rid (placed n2.id rid p now) n1.deployments)
    entered-Named mk' rid' d' h = ground (
      arith,
      find-put p.model_key mk' rid rid' n1.deployments (placed n2.id rid p now),
      c.inv.hot_named mk' rid' d',
    )

    entered-Inv : Fitted p.gpus n1.gpu_resources.gpus → Inv entered
    entered-Inv fitted = record {
      hot_table =
          rw t.same_hot
            (put-IsTable p.model_key rid (placed n2.id rid p now) n1.deployments c.inv.hot_table);
      warm_table = t.table;
      disjoint = rw t.same_hot entered-Disjoint;
      hot_named = rw t.same_hot entered-Named;
      warm_named = λ mk' rid' d h. c.inv.warm_named mk' rid' d (t.shrinks mk' rid' d h);
      cards =
          rw (t.same_hot, t.same_gpus)
            (booked-Cards p.model_key rid (placed n2.id rid p now) n1.gpu_resources.gpus
              n1.deployments t.not_hot fitted c.inv.cards);
      cpu_balanced = t.cpu_balanced;
    }

    entered-Deployed :
        IsSound n now p.pinned exclude p.evictions p.gpus
        → Inv n
        → Fitted p.gpus n1.gpu_resources.gpus
        → Deployed now p n entered rid
    entered-Deployed s inv fitted = record {
      inv = entered-Inv fitted;
      solvent = λ v. record {
        gpus = rw t.same_gpus (
            booked-IsCovered p.gpus n1.gpu_resources.gpus s.unique
              (All_imp (λ e. RoomFor p.evictions n.deployments n.gpu_resources.gpus e.1 e.0)
                (λ e. All (HasLeft e.1 e.0) n1.gpu_resources.gpus) p.gpus
                (λ e r. Cleared-HasLeft n n1 p.evictions e.1 e.0 c inv.cards.balanced r) s.room)
              (c.solvent v).gpus);
        cpu = t.cpu_solvent (c.solvent v).cpu;
      };
      same_id = t.same_id ∙ c.same_id;
      same_layout =
          rw t.same_gpus (layout-charged minus p.gpus n1.gpu_resources.gpus ∙ c.same_layout);
      hot = λ mk' rid'.
          rw (t.same_hot, t.same_id, c.same_id)
            (ground (
              arith,
              find-put p.model_key mk' rid rid' n1.deployments (placed n.id rid p now),
              c.hot mk' rid',
            ));
    }

-- On a node that satisfies its invariant, for a sound candidate and a fresh id that no HOT replica
-- of the model has, `deploy` raises nothing; then exactly the named evictions have left the cards,
-- the new replica is HOT under the id that is answered, all other HOT replicas stay, the invariant
-- holds again, the cards are the same, and no card and no CPU cache is promised beyond its memory
-- if none was before.
pub deploy-Deployed :
    (classes : Classes) (now : ℕ) (exclude : Excluded) (fresh : ReplicaId) (p : Placement)
    (n : Node)
    → Inv n
    → IsSound n now p.pinned exclude p.evictions p.gpus
    → find p.model_key fresh n.deployments ≡ none
    → Returns (deploy classes now exclude fresh p n) (λ r. Deployed now p n r.0 r.1)
unfolding deploy with_gpus
deploy-Deployed classes now exclude fresh p n inv s f =
    let (n1, e1, c) =
      evict_all-Cleared classes now exclude p.evictions n inv s.once
        (λ mk rid h. (let v = s.victims mk rid h in (v.0, v.1))) in
    let fitted =
      Fitted-layout p.gpus n.gpu_resources.gpus n1.gpu_resources.gpus c.same_layout s.fitted in
    let absent : find p.model_key fresh n1.deployments ≡ none =
      ground (arith, c.hot p.model_key fresh) in
    let warm : WarmInv (booked classes now exclude fresh p n n1 c) = record {
      warm_table = c.inv.warm_table;
      disjoint = c.inv.disjoint;
      cpu_balanced = c.inv.cpu_balanced;
    } in
    let t =
      take_from-Taken p.model_key fresh (booked classes now exclude fresh p n n1 c)
        (first_replica p.model_key n1.cache) warm absent refl in
    (
      _,
      rw (e1, ◌>>=◌)
          (rw (allocate_lem p.gpus n1.gpu_resources.gpus c.inv.cards.distinct fitted) refl),
      entered-Deployed classes now exclude fresh p n n1 c _ _ t s inv fitted,
    )
