-- ===== src/Controller/Applied.antt =====
-- controller.py: what `apply` leaves.
use ndif.Prelude.{
  ◌≡◌, refl, sym, ◌∙◌, Bool, false, not, ◌&&◌, ◌||◌, none, List, [], ◌∷◌, ◌++◌, All, All-map,
  All_imp, keep, keep-All, map, if◌then◌else◌, Bool-cases, inl, inr, arith,
}
use ndif.Prelude.Dict.{Dict}
use ndif.Prelude.Results.{Result, ok, raise, key_error, ◌>>=◌, Returns}
use ndif.Cluster.Deployment.{Deployment, NodeId}
use ndif.Cluster.Node.{Node}
use ndif.Cluster.Cluster.Surveying.{Managed}
use ndif.Controller.{Controller, DeploymentDelta, Visit, visits, deployment_of, build, key_of}
use ndif.Controller.Building.{
  any_visit, unknown, forgotten, changes, build-changes, newly_cached, newly_restored,
  newly_created, replica_of, placed_of,
}
use ndif.Controller.Visits.{visits-Apart}
use ndif.Controller.Settled.{ok_second}
use ndif.Controller.Homes.{AtHome, visits-Fits}
use ndif.Controller.Tracking.{StateKey, same_state_key, Once}
use ndif.Controller.Mirror.{replica_at}
use ndif.Controller.Synced.{Synced, Fits, build-Synced, remove_deployment-Synced}
use ndif.Controller.Applying.{
  Operation, delete_actor, Ray, each_or_drop, own, no_operation, start_cache, start_restore,
  placed_deployment, start_create, apply_caches, apply_restores, apply_creates, apply,
}

-- A replica that failed goes under this key.
unfoldable pub lost : {A : Type 0} → (A → Deployment) → (A → Bool) → List A → StateKey → Bool
lost of fails [] k = false
lost of fails (a ∷ rest) k = (fails a && same_state_key (key_of (of a)) k) || lost of fails rest k

-- The controller is in step, without the replicas under the keys that were lost.
pub record Kept (gone : StateKey → Bool) (c c' : Controller) : Type 0 where
  pub synced : Synced c'
  pub same_fit : (e : Deployment) → Fits e c.cluster.nodes → Fits e c'.cluster.nodes
  pub others :
      (k : StateKey)
      → replica_at k c'.cluster.nodes ≡ (if gone k then none else replica_at k c.cluster.nodes)

Kept-trans :
    (f g : StateKey → Bool) (c c' c'' : Controller)
    → Kept f c c'
    → Kept g c' c''
    → Kept (λ k. f k || g k) c c''
Kept-trans f g c c' c'' a b = record {
  synced = b.synced;
  same_fit = λ e h. b.same_fit e (a.same_fit e h);
  others = λ k. ground (arith, a.others k, b.others k);
}

module _ {A : Type 0} (start : A → List Operation) (of : A → Deployment) (fails : A → Bool) where
  each_or_drop-Kept :
      (items : List A) (operations : List Operation) (c : Controller)
      → Synced c
      → All (λ a. Fits (of a) c.cluster.nodes) items
      → Returns
          (each_or_drop start of fails items (operations, c))
          (λ done. Kept (lost of fails items) c done.1)
  unfolding each_or_drop lost
  each_or_drop-Kept [] operations c synced fit =
      ((operations, c), refl, record { synced = synced; same_fit = λ e h. h; others = λ k. refl })
  each_or_drop-Kept (a ∷ rest) operations c synced fit = elim (Bool-cases (fails a)) [
    | inr e ↦
        let (done, h, kept) = each_or_drop-Kept rest (operations ++ start a) c synced fit.1 in
        (
          done,
          rw e h,
          record {
            synced = kept.synced;
            same_fit = kept.same_fit;
            others = λ k. rw e (kept.others k);
          },
        )
    | inl e ↦
        let (c1, f, (synced1, dropped)) = remove_deployment-Synced c (of a) synced fit.0 in
        let (done, h, kept) =
          each_or_drop-Kept rest (operations ++ (start a ++ delete_actor (of a) ∷ [])) c1 synced1 (
            All_imp (λ b. Fits (of b) c.cluster.nodes) (λ b. Fits (of b) c1.cluster.nodes) rest
              (λ b g. dropped.same_fit (of b) g) fit.1) in
        (
          done,
          rw (e, f) h,
          record {
            synced = kept.synced;
            same_fit = λ d g. kept.same_fit d (dropped.same_fit d g);
            others = λ k. ground (arith, kept.others k, dropped.left k);
          },
        )
  ]

module _ (ray : Ray) (delta : DeploymentDelta) where
  abbrev refuses_cache : Deployment → Bool
  refuses_cache d = not (ray.cache_starts d)

  abbrev refuses_restore : Deployment → Bool
  refuses_restore d = not (ray.restore_starts d)

  abbrev refuses_create : NodeId × Deployment → Bool
  refuses_create (id, d) = not (ray.has_handle d)

  -- The keys of the replicas whose operation failed.
  abbrev pub lost_in : StateKey → Bool
  lost_in k =
      ((lost own refuses_cache delta.to_cache k
          || lost own ray.cache_fails (keep ray.cache_starts delta.to_cache) k)
        || lost own refuses_restore delta.from_cache k)
      || lost placed_deployment refuses_create delta.to_create k

  -- Every record of the delta agrees with its node.
  abbrev pub AllFit : Dict Node → Type 0
  AllFit nodes =
      All (λ d. Fits d nodes) delta.to_cache
      × (All (λ d. Fits d nodes) delta.from_cache
          × All (λ (placed : NodeId × Deployment). Fits placed.1 nodes) delta.to_create)

  carried :
      {A : Type 0} (of : A → Deployment) (gone : StateKey → Bool) (c c' : Controller)
      (items : List A)
      → Kept gone c c'
      → All (λ a. Fits (of a) c.cluster.nodes) items
      → All (λ a. Fits (of a) c'.cluster.nodes) items
  carried of gone c c' items kept fit =
      All_imp (λ a. Fits (of a) c.cluster.nodes) (λ a. Fits (of a) c'.cluster.nodes) items
        (λ a g. kept.same_fit (of a) g) fit

  phases-Kept :
      (operations : List Operation) (c : Controller)
      → Synced c
      → AllFit c.cluster.nodes
      → Returns
          (apply_caches ray delta.to_cache (operations, c)
            >>= apply_restores ray delta.from_cache
            >>= apply_creates ray delta.to_create)
          (λ done. Kept lost_in c done.1)
  unfolding apply_caches apply_restores apply_creates
  phases-Kept operations c synced fit =
      let ((o1, c1), h1, k1) =
        each_or_drop-Kept start_cache own refuses_cache delta.to_cache operations c synced fit.0 in
      let ((o2, c2), h2, k2) =
        each_or_drop-Kept no_operation own ray.cache_fails (keep ray.cache_starts delta.to_cache) o1
          c1 k1.synced
          (keep-All (λ d. Fits d c1.cluster.nodes) ray.cache_starts delta.to_cache
            (carried own (lost own refuses_cache delta.to_cache) c c1 delta.to_cache k1 fit.0)) in
      let k12 =
        Kept-trans (lost own refuses_cache delta.to_cache)
          (lost own ray.cache_fails (keep ray.cache_starts delta.to_cache)) c c1 c2 k1 k2 in
      let ((o3, c3), h3, k3) =
        each_or_drop-Kept start_restore own refuses_restore delta.from_cache o2 c2 k2.synced (
          carried own
            (λ k.
              lost own refuses_cache delta.to_cache k
              || lost own ray.cache_fails (keep ray.cache_starts delta.to_cache) k)
            c c2 delta.from_cache k12 fit.1.0) in
      let k123 =
        Kept-trans
          (λ k.
            lost own refuses_cache delta.to_cache k
            || lost own ray.cache_fails (keep ray.cache_starts delta.to_cache) k)
          (lost own refuses_restore delta.from_cache) c c2 c3 k12 k3 in
      let ((o4, c4), h4, k4) =
        each_or_drop-Kept (start_create c3.default_execution_timeout_seconds c3.default_dtype)
          placed_deployment refuses_create delta.to_create o3 c3 k3.synced
          (carried placed_deployment
            (λ k.
              (lost own refuses_cache delta.to_cache k
                || lost own ray.cache_fails (keep ray.cache_starts delta.to_cache) k)
              || lost own refuses_restore delta.from_cache k)
            c c3 delta.to_create k123 fit.1.1) in
      (
        (o4, c4),
        rw (h1, h2, h3, h4) refl,
        Kept-trans
            (λ k.
              (lost own refuses_cache delta.to_cache k
                || lost own ray.cache_fails (keep ray.cache_starts delta.to_cache) k)
              || lost own refuses_restore delta.from_cache k)
            (lost placed_deployment refuses_create delta.to_create) c c3 c4 k123 k4,
      )

delta_of :
    (c c' : Controller) (delta : DeploymentDelta)
    → Managed c.cluster.nodes
    → Once c.state
    → build c ≡ ok (c', delta)
    → (deleted : List Deployment) × (delta ≡ changes (visits c.cluster.nodes) c.state deleted)
delta_of c c' delta managed once h =
    let vs = visits c.cluster.nodes in
    let whole = sym (build-changes c (visits-Apart c.cluster.nodes managed) once) ∙ h in
    elim (Bool-cases (any_visit (unknown c.state) vs)) [
      | inl u ↦
          let failed : ◌≡◌ {A = Result (Controller × DeploymentDelta)} (raise key_error)
              (ok (c', delta)) =
            rw u at whole in
          absurd cc
      | inr u ↦ (map deployment_of (forgotten vs c.state), sym (ok_second (rw u at whole)))
    ]

changes-AllFit :
    (ray : Ray) (c : Controller) (deleted : List Deployment) (nodes : Dict Node)
    → All (λ v. Fits v.deployment nodes) (visits c.cluster.nodes)
    → AllFit ray (changes (visits c.cluster.nodes) c.state deleted) nodes
changes-AllFit ray c deleted nodes fit =
    let vs = visits c.cluster.nodes in
    let kept = λ (p : Visit → Bool). keep-All (λ v. Fits v.deployment nodes) p vs fit in
    (
      All-map (λ d. Fits d nodes) replica_of (keep (newly_cached c.state) vs)
          (kept (newly_cached c.state)),
      (
        All-map (λ d. Fits d nodes) replica_of (keep (newly_restored c.state) vs)
            (kept (newly_restored c.state)),
        All-map (λ placed. Fits placed.1 nodes) placed_of (keep (newly_created c.state) vs)
            (kept (newly_created c.state)),
      ),
    )

-- Where `build` does not raise, `apply` does not either, whatever Ray answers, and leaves the
-- controller in step with its cluster: a replica whose operation failed is gone from the state and
-- from its node, with its memory given back, and every other one is where it was, where the books of
-- the nodes are balanced, no key stands twice in the state and each record names its own node.
pub apply-Kept :
    (ray : Ray) (c c' : Controller) (delta : DeploymentDelta)
    → Managed c.cluster.nodes
    → Once c.state
    → All AtHome (visits c.cluster.nodes)
    → build c ≡ ok (c', delta)
    → Returns (apply ray c) (λ done. Kept (lost_in ray delta) c' done.1)
unfolding apply
apply-Kept ray c c' delta managed once homes h =
    let (synced, same) = build-Synced c c' delta managed once h in
    let (deleted, shape) = delta_of c c' delta managed once h in
    let fit = visits-Fits c.cluster.nodes managed homes in
    let all_fit : AllFit ray delta c'.cluster.nodes =
      rw (shape, same) (changes-AllFit ray c deleted c.cluster.nodes fit) in
    rw h (phases-Kept ray delta (map delete_actor delta.to_delete) c' synced all_fit)
