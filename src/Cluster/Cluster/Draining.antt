-- ===== src/Cluster/Cluster/Draining.antt =====
-- cluster.py: the loop of `Cluster.evict` on one replica.
use ndif.Prelude.{
  ℕ, zero, suc, ◌≡◌, refl, ap, ◌∙◌, false, none, some, arith, Option-cases, inl, inr, true, ◌⊎◌,
  Bool-cases, ◌==◌,
}
use ndif.Prelude.Results.{Returns, ok, ◌>>=◌}
use ndif.Evaluator.{ModelKey}
use ndif.Cluster.Deployment.{Deployment, ReplicaId, Classes}
use ndif.Cluster.Replicas.{find, drop}
use ndif.Cluster.Replicas.Weights.{IsTable}
use ndif.Cluster.Replicas.Entries.{find-drop, same_key}
use ndif.Cluster.Node.{Node, evict, uncache}
use ndif.Cluster.Node.Invariant.{Inv, IsSolvent}
use ndif.Cluster.Node.Uncaching.{Uncached, uncache-Uncached}
use ndif.Cluster.Node.Books.{sign}
use ndif.Cluster.Node.Clearing.{evict-Evicted}
use ndif.Cluster.Cluster.Evicting.{replica, drain, no_exclusion}

-- WARM replicas that went leave a sound node.
module _ (n n' : Node) (freed : ℕ) (u : Uncached n freed n') where
  pub Uncached-Inv : Inv n → Inv n'
  Uncached-Inv inv = record {
    hot_table = rw u.same_hot inv.hot_table;
    warm_table = u.table;
    disjoint = rw u.same_hot (λ mk rid d h. u.gone mk rid (inv.disjoint mk rid d h));
    hot_named = rw u.same_hot inv.hot_named;
    warm_named = λ mk rid d h. inv.warm_named mk rid d (u.shrinks mk rid d h);
    cards = rw (u.same_hot, u.same_gpus) inv.cards;
    cpu_balanced = omega (arith, inv.cpu_balanced, u.lighter, u.given_back, u.same_memory);
  }

  pub Uncached-IsSolvent : IsSolvent n → IsSolvent n'
  Uncached-IsSolvent s = record {
    gpus = rw u.same_gpus s.gpus;
    cpu = omega (arith, s.cpu, u.given_back, sign n'.cpu_resources.available_memory_bytes);
  }

-- What a run of evictions of one replica leaves: it is neither HOT nor WARM.
pub record Drained (n : Node) (mk : ModelKey) (rid : ReplicaId) (n' : Node) : Type 0 where
  pub inv : Inv n'
  pub solvent : IsSolvent n → IsSolvent n'
  pub same_id : n'.id ≡ n.id
  pub gone : replica mk rid n' ≡ none
  pub absent : (rid' : ReplicaId) → replica mk rid' n ≡ none → replica mk rid' n' ≡ none
  pub others :
      (mk' : ModelKey) (rid' : ReplicaId)
      → same_key mk rid mk' rid' ≡ false
      → find mk' rid' n'.deployments ≡ find mk' rid' n.deployments

module _ (mk : ModelKey) where
  -- A replica that is neither HOT nor WARM.
  abbrev pub Absent : ReplicaId → Node → Type 0
  Absent rid' n = (find mk rid' n.deployments ≡ none) × (find mk rid' n.cache ≡ none)

  pub replica-parts : (rid' : ReplicaId) (n : Node) → replica mk rid' n ≡ none → Absent rid' n
  unfolding replica
  replica-parts rid' n h = ground arith

  pub replica-none :
      (rid' : ReplicaId) (n : Node)
      → find mk rid' n.deployments ≡ none
      → find mk rid' n.cache ≡ none
      → replica mk rid' n ≡ none
  unfolding replica
  replica-none rid' n h k = ground arith

module _ (classes : Classes) (now : ℕ) (mk : ModelKey) (rid : ReplicaId) where
  replica-hot :
      (n : Node) (d : Deployment) → find mk rid n.deployments ≡ some d → replica mk rid n ≡ some d
  unfolding replica
  replica-hot n d e = rw (replica, e) refl

  pub replica-warm :
      (n : Node) → find mk rid n.deployments ≡ none → replica mk rid n ≡ find mk rid n.cache
  unfolding replica
  replica-warm n e = ground arith

  -- Evicting one HOT replica brings no other of its model back.
  evicted-Absent :
      (rid' : ReplicaId) (n n' : Node)
      → IsTable n.deployments
      → n'.deployments ≡ drop mk rid n.deployments
      → ((mk' : ModelKey) (rid' : ReplicaId) (d : Deployment)
          → find mk' rid' n'.cache ≡ some d
          → (same_key mk rid mk' rid' ≡ true) ⊎ (find mk' rid' n.cache ≡ some d))
      → (rid == rid') ≡ false
      → Absent mk rid' n
      → replica mk rid' n' ≡ none
  evicted-Absent rid' n n' t hot warm apart a =
      replica-none mk rid' n'
        (ap (find mk rid') hot ∙ ground (arith, find-drop mk mk rid rid' n.deployments t, a.0))
        (elim (Option-cases (find mk rid' n'.cache)) [
          | inl e ↦ e
          | inr (d, e) ↦ elim (warm mk rid' d e) [
            | inl same ↦ absurd (ground arith)
            | inr found ↦ absurd (ground (arith, a.1))
          ]
        ])

  pub evict-warm :
      (n : Node) (d : Deployment)
      → find mk rid n.cache ≡ some d
      → evict classes now no_exclusion mk rid n ≡ uncache mk rid n
  unfolding evict
  evict-warm n d e = rw e refl

  drain-step :
      (rounds : ℕ) (n n' : Node) (d : Deployment)
      → replica mk rid n ≡ some d
      → evict classes now no_exclusion mk rid n ≡ ok n'
      → drain classes now (suc rounds) mk rid n ≡ drain classes now rounds mk rid n'
  unfolding drain
  drain-step rounds n n' d e q = rw (e, q, ◌>>=◌) refl

  drain-absent :
      (rounds : ℕ) (n : Node)
      → Inv n
      → replica mk rid n ≡ none
      → Returns (drain classes now rounds mk rid n) (Drained n mk rid)
  unfolding drain
  drain-absent zero n inv e = (
    n,
    refl,
    record {
      inv = inv;
      solvent = λ s. s;
      same_id = refl;
      gone = e;
      absent = λ rid' h. h;
      others = λ mk' rid' h. refl;
    },
  )
  drain-absent (suc rounds) n inv e = rw e (
    n,
    refl,
    record {
      inv = inv;
      solvent = λ s. s;
      same_id = refl;
      gone = e;
      absent = λ rid' h. h;
      others = λ mk' rid' h. refl;
    },
  )

  -- One round is enough for a WARM replica.
  drain-warm :
      (rounds : ℕ) (n : Node) (d : Deployment)
      → Inv n
      → find mk rid n.deployments ≡ none
      → find mk rid n.cache ≡ some d
      → Returns (drain classes now (suc rounds) mk rid n) (Drained n mk rid)
  drain-warm rounds n d inv cold e =
      let (n', q, (u, c)) = uncache-Uncached mk rid d n inv.warm_table e in
      let gone : replica mk rid n' ≡ none =
        replica-warm n' (ap (find mk rid) u.same_hot ∙ cold)
        ∙ (ap (find mk rid) c ∙ ground (arith, find-drop mk mk rid rid n.cache inv.warm_table)) in
      let (n'', q', v) = drain-absent rounds n' (Uncached-Inv n n' d.size_bytes u inv) gone in
      (
        n'',
        drain-step rounds n n' d (replica-warm n cold ∙ e) (evict-warm n d e ∙ q) ∙ q',
        record {
          inv = v.inv;
          solvent = λ s. v.solvent (Uncached-IsSolvent n n' d.size_bytes u s);
          same_id = v.same_id ∙ u.same_id;
          gone = v.gone;
          absent = λ rid' h.
              (let parts = replica-parts mk rid' n h in
                v.absent rid' (
                  replica-none mk rid' n' (ap (find mk rid') u.same_hot ∙ parts.0)
                    (u.gone mk rid' parts.1)));
          others = λ mk' rid' h. v.others mk' rid' h ∙ ap (find mk' rid') u.same_hot;
        },
      )

  drain-cold :
      (rounds : ℕ) (n : Node)
      → Inv n
      → find mk rid n.deployments ≡ none
      → Returns (drain classes now (suc rounds) mk rid n) (Drained n mk rid)
  drain-cold rounds n inv cold = elim (Option-cases (find mk rid n.cache)) [
    | inl e ↦ drain-absent (suc rounds) n inv (replica-warm n cold ∙ e)
    | inr (d, e) ↦ drain-warm rounds n d inv cold e
  ]

  -- Two rounds are enough for a HOT one: it goes, or becomes WARM and then goes.
  drain-hot :
      (rounds : ℕ) (n : Node) (d : Deployment)
      → Inv n
      → find mk rid n.deployments ≡ some d
      → Returns (drain classes now (suc (suc rounds)) mk rid n) (Drained n mk rid)
  drain-hot rounds n d inv e =
      let (n', q, v) = evict-Evicted classes now no_exclusion mk rid d n inv e in
      let cold : find mk rid n'.deployments ≡ none =
        ground (arith, v.hot, find-drop mk mk rid rid n.deployments inv.hot_table) in
      let (n'', q', w) = drain-cold rounds n' v.inv cold in
      (
        n'',
        drain-step (suc rounds) n n' d (replica-hot n d e) q ∙ q',
        record {
          inv = w.inv;
          solvent = λ s. w.solvent (v.solvent s);
          same_id = w.same_id ∙ v.same_id;
          gone = w.gone;
          absent = λ rid' h. elim (Bool-cases (rid == rid')) [
            | inl same ↦ ground (arith, w.gone)
            | inr apart ↦ w.absent rid' (
                evicted-Absent rid' n n' inv.hot_table v.hot v.warm apart
                  (replica-parts mk rid' n h))
          ];
          others = λ mk' rid' h.
              w.others mk' rid' h
              ∙ (ap (find mk' rid') v.hot
                  ∙ ground (arith, find-drop mk mk' rid rid' n.deployments inv.hot_table));
        },
      )

  -- On a node that satisfies its invariant, the loop of `Cluster.evict` on one replica, bounded by
  -- any number of rounds from two on, raises nothing and ends because the replica is neither HOT
  -- nor WARM; the other HOT replicas stay, the invariant holds again, and no card and no CPU cache
  -- is promised beyond its memory if none was before.
  pub drain-Drained :
      (rounds : ℕ) (n : Node)
      → Inv n
      → Returns (drain classes now (suc (suc rounds)) mk rid n) (Drained n mk rid)
  drain-Drained rounds n inv = elim (Option-cases (find mk rid n.deployments)) [
    | inl e ↦ drain-cold (suc rounds) n inv e
    | inr (d, e) ↦ drain-hot rounds n d inv e
  ]
