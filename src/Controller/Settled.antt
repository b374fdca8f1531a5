-- ===== src/Controller/Settled.antt =====
-- controller.py: `build` again, with nothing done in between.
use ndif.Prelude.{
  ◌≡◌, refl, ap, sym, ◌∙◌, Bool, true, false, not, ◌||◌, none, some, List, [], ◌∷◌, All, All_imp,
  All_zip, keep, keep-All, keep-passes, map, if◌then◌else◌, Bool-cases, inl, inr, arith,
}
use ndif.Prelude.Results.{Result, ok, raise, key_error}
use ndif.Cluster.Deployment.{Deployment}
use ndif.Cluster.Cluster.Surveying.{Managed}
use ndif.Controller.{
  Controller, DeploymentDelta, no_delta, Visit, visits, is_hot, is_warm, deployment_of, build,
}
use ndif.Controller.Tracking.{
  StateKey, same_state_key, Tracked, tracked, Once, without, same_state_key_refl,
  same_state_key_sym,
}
use ndif.Controller.Building.{
  Apart, newly_cached, newly_restored, newly_created, unknown, any_visit, entry_of, forgotten,
  changes, build-changes,
}
use ndif.Controller.Visits.{visits-Apart}

-- A replica's own level is that of the dict that it stands in.
abbrev pub Levelled : Visit → Type 0
Levelled v =
    if v.in_cache
    then is_hot v.deployment.deployment_level ≡ false
    else is_warm v.deployment.deployment_level ≡ false

visited_new :
    (v : Visit) (vs : List Visit)
    → All (λ w. same_state_key v.key w.key ≡ false) vs
    → tracked v.key (map entry_of vs) ≡ none
unfolding tracked
visited_new v [] h = refl
visited_new v (w ∷ vs) h = rw (same_state_key_sym v.key w.key h.0) (visited_new v vs h.1)

pub visited-Once : (vs : List Visit) → Apart vs → Once (map entry_of vs)
visited-Once [] apart = tt
visited-Once (v ∷ vs) apart = (visited_new v vs apart.0, visited-Once vs apart.1)

-- In a state that is the list of the replicas, each is known.
visited_known :
    (vs : List Visit) → Apart vs → All (λ v. tracked v.key (map entry_of vs) ≡ some v.deployment) vs
unfolding tracked
visited_known [] apart = tt
visited_known (v ∷ vs) apart = (
  rw (same_state_key_refl v.key) refl,
  All_imp
      (λ w.
        (same_state_key v.key w.key ≡ false)
        × (tracked w.key (map entry_of vs) ≡ some w.deployment))
      (λ w. tracked w.key (map entry_of (v ∷ vs)) ≡ some w.deployment) vs (λ w h. rw h.0 h.1)
      (All_zip (λ w. same_state_key v.key w.key ≡ false)
        (λ w. tracked w.key (map entry_of vs) ≡ some w.deployment) vs apart.0
        (visited_known vs apart.1)),
)

keep_none : {A : Type 0} (p : A → Bool) (xs : List A) → All (λ x. p x ≡ false) xs → keep p xs ≡ []
unfolding keep
keep_none p [] h = refl
keep_none p (x ∷ xs) h = rw h.0 (keep_none p xs h.1)

any_visit_none :
    (p : Visit → Bool) (vs : List Visit) → All (λ v. p v ≡ false) vs → any_visit p vs ≡ false
unfolding any_visit
any_visit_none p [] h = refl
any_visit_none p (v ∷ vs) h = rw h.0 (any_visit_none p vs h.1)

abbrev among_visits : List Visit → StateKey × Deployment → Bool
among_visits vs entry = any_visit (λ v. same_state_key v.key entry.0) vs

one_of_both : (a b : Bool) → a || b ≡ true → not a ≡ true → b ≡ true
one_of_both a b h k = ground arith

forgotten_all :
    (vs : List Visit) (old : Tracked)
    → All (λ entry. among_visits vs entry ≡ true) old
    → forgotten vs old ≡ []
unfolding forgotten any_visit
forgotten_all [] [] h = refl
forgotten_all [] (e ∷ old) h = absurd (ground arith)
forgotten_all (v ∷ vs) old h =
    let stays =
      keep-All (λ e. among_visits (v ∷ vs) e ≡ true) (λ e. not (same_state_key v.key e.0)) old h in
    let others = keep-passes (λ (e : StateKey × Deployment). not (same_state_key v.key e.0)) old in
    forgotten_all vs (without v.key old) (
      All_imp (λ e. (among_visits (v ∷ vs) e ≡ true) × (not (same_state_key v.key e.0) ≡ true))
        (λ e. among_visits vs e ≡ true) (without v.key old)
        (λ e k. one_of_both (same_state_key v.key e.0) (among_visits vs e) k.0 k.1)
        (All_zip (λ e. among_visits (v ∷ vs) e ≡ true) (λ e. not (same_state_key v.key e.0) ≡ true)
          (without v.key old) stays others))

among_own : (vs : List Visit) → All (λ entry. among_visits vs entry ≡ true) (map entry_of vs)
unfolding any_visit
among_own [] = tt
among_own (v ∷ vs) = (
  rw (same_state_key_refl v.key) refl,
  All_imp (λ e. among_visits vs e ≡ true) (λ e. among_visits (v ∷ vs) e ≡ true) (map entry_of vs)
      (λ e h. ground arith) (among_own vs),
)

-- What a known replica at its level counts as.
not_new :
    (state : Tracked) (v : Visit)
    → tracked v.key state ≡ some v.deployment
    → Levelled v
    → ((unknown state v ≡ false) × (newly_cached state v ≡ false))
      × ((newly_restored state v ≡ false) × (newly_created state v ≡ false))
not_new state v known level = elim (Bool-cases v.in_cache) [
  | inl c ↦
      let own : is_hot v.deployment.deployment_level ≡ false = rw c at level in
      rw (c, known, own) ((refl, refl), (refl, refl))
  | inr c ↦
      let own : is_warm v.deployment.deployment_level ≡ false = rw c at level in
      rw (c, known, own) ((refl, refl), (refl, refl))
]

-- A state that is the cluster's replicas, each at its level.
module _ (vs : List Visit) (apart : Apart vs) (levels : All Levelled vs) where
  abbrev own_state : Tracked
  own_state = map entry_of vs

  abbrev Quiet : (Tracked → Visit → Bool) → Type 0
  Quiet test = All (λ v. test own_state v ≡ false) vs

  quiet :
      (test : Tracked → Visit → Bool)
      → ((v : Visit)
          → tracked v.key own_state ≡ some v.deployment
          → Levelled v
          → test own_state v ≡ false)
      → Quiet test
  quiet test f =
      All_imp (λ v. (tracked v.key own_state ≡ some v.deployment) × Levelled v)
        (λ v. test own_state v ≡ false) vs (λ v h. f v h.0 h.1)
        (All_zip (λ v. tracked v.key own_state ≡ some v.deployment) Levelled vs
          (visited_known vs apart) levels)

  nothing_unknown : any_visit (unknown own_state) vs ≡ false
  nothing_unknown =
      any_visit_none (unknown own_state) vs (quiet unknown (λ v h l. (not_new own_state v h l).0.0))

  no_changes : changes vs own_state (map deployment_of (forgotten vs own_state)) ≡ no_delta
  no_changes =
      rw
        (
          keep_none (newly_cached own_state) vs
              (quiet newly_cached (λ v h l. (not_new own_state v h l).0.1)),
          keep_none (newly_restored own_state) vs
              (quiet newly_restored (λ v h l. (not_new own_state v h l).1.0)),
          keep_none (newly_created own_state) vs
              (quiet newly_created (λ v h l. (not_new own_state v h l).1.1)),
          forgotten_all vs own_state (among_own vs),
        )
        refl

abbrev pub pair_result : {A B : Type 0} → A → B → Result (A × B)
pair_result a b = ok (a, b)

pub ok_first : {A B : Type 0} {a a' : A} {b b' : B} → pair_result a b ≡ pair_result a' b' → a ≡ a'
ok_first {A} {B} {a} {a'} {b} {b'} h =
    let same : ◌≡◌ {A = A × B} (a, b) (a', b') = cc in ap (λ p. p.0) same

pub ok_second : {A B : Type 0} {a a' : A} {b b' : B} → pair_result a b ≡ pair_result a' b' → b ≡ b'
ok_second {A} {B} {a} {a'} {b} {b'} h =
    let same : ◌≡◌ {A = A × B} (a, b) (a', b') = cc in ap (λ p. p.1) same

-- The controller whose state is the cluster's replicas finds nothing to do.
build_in_step :
    (c : Controller)
    → Managed c.cluster.nodes
    → All Levelled (visits c.cluster.nodes)
    → c.state ≡ map entry_of (visits c.cluster.nodes)
    → build c ≡ ok (c, no_delta)
build_in_step c managed levels e =
    let vs = visits c.cluster.nodes in
    let apart = visits-Apart c.cluster.nodes managed in
    let once : Once c.state = rw e (visited-Once vs apart) in
    let known : any_visit (unknown c.state) vs ≡ false = rw e (nothing_unknown vs apart levels) in
    let same : changes vs c.state (map deployment_of (forgotten vs c.state)) ≡ no_delta =
      rw e (no_changes vs apart levels) in
    build-changes c apart once ∙ (rw (known, same, sym e) refl)

-- After `build`, `build` again finds nothing to do: the state mirrors the cluster, where the books of
-- the nodes are balanced, no key stands twice in the state, and the level of each replica is that of
-- the dict that it stands in.
pub build_settled :
    (c c' : Controller) (delta : DeploymentDelta)
    → Managed c.cluster.nodes
    → Once c.state
    → All Levelled (visits c.cluster.nodes)
    → build c ≡ ok (c', delta)
    → build c' ≡ ok (c', no_delta)
build_settled c c' delta managed once levels h =
    let vs = visits c.cluster.nodes in
    let whole = sym (build-changes c (visits-Apart c.cluster.nodes managed) once) ∙ h in
    elim (Bool-cases (any_visit (unknown c.state) vs)) [
      | inl u ↦
          let failed : ◌≡◌ {A = Result (Controller × DeploymentDelta)} (raise key_error)
              (ok (c', delta)) =
            rw u at whole in
          absurd cc
      | inr u ↦
          let done = rw u at whole in
          let same : record c { state = map entry_of vs } ≡ c' = ok_first done in
          rw (sym same) (build_in_step (record c { state = map entry_of vs }) managed levels refl)
    ]
