-- ===== src/Controller/Building.antt =====
-- controller.py: what `build` makes of the state and the cluster.
use ndif.Prelude.{
  ◌≡◌, refl, ap, ◌∙◌, Bool, true, false, not, ◌&&◌, ◌||◌, Option, none, some, List, [], ◌∷◌, ◌++◌,
  All, keep, map, if◌then◌else◌, Bool-cases, Option-cases, inl, inr,
}
use ndif.Prelude.Results.{Result, ok, raise, key_error}
use ndif.Cluster.Deployment.{Deployment, NodeId}
use ndif.Controller.{
  Controller, DeploymentDelta, Visit, visits, is_hot, is_warm, note_cached, note_deployed, walk,
  deployment_of, build,
}
use ndif.Controller.Tracking.{
  StateKey, same_state_key, Tracked, tracked, track, untrack, Once, without, tracked-track,
  tracked-untrack_ne, track_new, untrack-without, untrack-Once,
}

-- No replica is come to twice.
abbrev pub Apart : List Visit → Type 0
Apart [] = Unit {0}
Apart (v ∷ vs) = All (λ w. same_state_key v.key w.key ≡ false) vs × Apart vs

abbrev pub at_level : (Deployment → Bool) → Option Deployment → Bool
at_level test none = false
at_level test (some d) = test d

abbrev pub is_new : Option Deployment → Bool
is_new none = true
is_new (some d) = false

-- How a replica was known, in the state before the call.
abbrev pub newly_cached : Tracked → Visit → Bool
newly_cached old v = v.in_cache && at_level (λ d. is_hot d.deployment_level) (tracked v.key old)

abbrev pub newly_restored : Tracked → Visit → Bool
newly_restored old v =
    not v.in_cache && at_level (λ d. is_warm d.deployment_level) (tracked v.key old)

abbrev pub newly_created : Tracked → Visit → Bool
newly_created old v = not v.in_cache && is_new (tracked v.key old)

abbrev pub unknown : Tracked → Visit → Bool
unknown old v = v.in_cache && is_new (tracked v.key old)

unfoldable pub any_visit : (Visit → Bool) → List Visit → Bool
any_visit test [] = false
any_visit test (v ∷ vs) = test v || any_visit test vs

abbrev pub replica_of : Visit → Deployment
replica_of v = v.deployment

abbrev pub placed_of : Visit → NodeId × Deployment
placed_of v = (v.key.node_id, v.deployment)

abbrev pub entry_of : Visit → StateKey × Deployment
entry_of v = (v.key, v.deployment)

-- What is left of the old state.
unfoldable pub forgotten : List Visit → Tracked → Tracked
forgotten [] old = old
forgotten (v ∷ vs) old = forgotten vs (without v.key old)

-- The changes since the old state, each kind by its own condition.
abbrev pub changes : List Visit → Tracked → List Deployment → DeploymentDelta
changes vs old deleted = record {
  to_cache = map replica_of (keep (newly_cached old) vs);
  from_cache = map replica_of (keep (newly_restored old) vs);
  to_create = map placed_of (keep (newly_created old) vs);
  to_delete = deleted;
}

-- The replicas that come later are known as before.
abbrev Alike : Tracked → Tracked → List Visit → Type 0
Alike old new vs = All (λ v. tracked v.key new ≡ tracked v.key old) vs

untrack-Alike :
    (k : StateKey) (old : Tracked) (vs : List Visit)
    → All (λ w. same_state_key k w.key ≡ false) vs
    → Alike old (untrack k old) vs
untrack-Alike k old [] apart = tt
untrack-Alike k old (v ∷ vs) apart =
    (tracked-untrack_ne k v.key old apart.0, untrack-Alike k old vs apart.1)

keep-Alike :
    (test : Bool → Option Deployment → Bool) (old new : Tracked) (vs : List Visit)
    → Alike old new vs
    → keep (λ v. test v.in_cache (tracked v.key new)) vs
      ≡ keep (λ v. test v.in_cache (tracked v.key old)) vs
unfolding keep
keep-Alike test old new [] alike = refl
keep-Alike test old new (v ∷ vs) alike = rw (alike.0, keep-Alike test old new vs alike.1) refl

any_visit-Alike :
    (old new : Tracked) (vs : List Visit)
    → Alike old new vs
    → any_visit (unknown new) vs ≡ any_visit (unknown old) vs
unfolding any_visit
any_visit-Alike old new [] alike = refl
any_visit-Alike old new (v ∷ vs) alike = rw (alike.0, any_visit-Alike old new vs alike.1) refl

changes-Alike :
    (old new : Tracked) (vs : List Visit) (deleted : List Deployment)
    → Alike old new vs
    → changes vs new deleted ≡ changes vs old deleted
changes-Alike old new vs deleted alike =
    rw
      (
        keep-Alike (λ c o. c && at_level (λ d. is_hot d.deployment_level) o) old new vs alike,
        keep-Alike (λ c o. not c && at_level (λ d. is_warm d.deployment_level) o) old new vs alike,
        keep-Alike (λ c o. not c && is_new o) old new vs alike,
      )
      refl

append_one :
    (new : Tracked) (e : StateKey × Deployment) (rest : Tracked)
    → (new ++ e ∷ []) ++ rest ≡ new ++ e ∷ rest
append_one [] e rest = refl
append_one (d ∷ new) e rest = ap (λ t. d ∷ t) (append_one new e rest)

track-fresh :
    (v : Visit) (new : Tracked) (vs : List Visit)
    → All (λ w. same_state_key v.key w.key ≡ false) vs
    → All (λ w. tracked w.key new ≡ none) vs
    → All (λ w. tracked w.key (track v.key v.deployment new) ≡ none) vs
track-fresh v new [] apart fresh = tt
track-fresh v new (w ∷ vs) apart fresh = (
  rw (tracked-track v.key w.key v.deployment new, apart.0) fresh.0,
  track-fresh v new vs apart.1 fresh.1,
)

-- What the loops come to.
abbrev outcome : List Visit → Tracked → Tracked → Result (Tracked × (Tracked × DeploymentDelta))
outcome vs old new =
    if any_visit (unknown old) vs
    then raise key_error
    else ok (forgotten vs old, (new ++ map entry_of vs, changes vs old []))

append_nothing : (new : Tracked) → new ≡ new ++ []
append_nothing [] = refl
append_nothing (d ∷ new) = ap (λ t. d ∷ t) (append_nothing new)

-- One replica, before those that come later.
step-outcome :
    (v : Visit) (vs : List Visit) (old new : Tracked)
    → walk vs (untrack v.key old) (track v.key v.deployment new) ≡ (
        if any_visit (unknown old) vs
        then raise key_error
        else ok (
          forgotten vs (without v.key old),
          (new ++ entry_of v ∷ map entry_of vs, changes vs old []),
        ))
    → walk (v ∷ vs) old new ≡ outcome (v ∷ vs) old new
unfolding walk any_visit keep forgotten note_cached note_deployed
step-outcome v vs old new rest = elim (Bool-cases v.in_cache) [
  | inl c ↦ elim (Option-cases (tracked v.key old)) [
    | inl t ↦ rw (c, t) refl
    | inr (d, t) ↦ elim (Bool-cases (any_visit (unknown old) vs)) [
      | inl u ↦ rw (c, t, rest, u) refl
      | inr u ↦ elim (Bool-cases (is_hot d.deployment_level)) [
        | inl l ↦ rw (c, t, rest, u, l) refl
        | inr l ↦ rw (c, t, rest, u, l) refl
      ]
    ]
  ]
  | inr c ↦ elim (Bool-cases (any_visit (unknown old) vs)) [
    | inl u ↦ rw (c, rest, u) refl
    | inr u ↦ elim (Option-cases (tracked v.key old)) [
      | inl t ↦ rw (c, rest, u, t) refl
      | inr (d, t) ↦ elim (Bool-cases (is_warm d.deployment_level)) [
        | inl l ↦ rw (c, rest, u, t, l) refl
        | inr l ↦ rw (c, rest, u, t, l) refl
      ]
    ]
  ]
]

walk-outcome :
    (vs : List Visit) (old new : Tracked)
    → Apart vs
    → Once old
    → All (λ v. tracked v.key new ≡ none) vs
    → walk vs old new ≡ outcome vs old new
unfolding walk any_visit keep forgotten
walk-outcome [] old new apart once fresh = λ i. ok (old, (append_nothing new i, changes [] old []))
walk-outcome (v ∷ vs) old new apart once fresh =
    let alike = untrack-Alike v.key old vs apart.0 in
    let later =
      walk-outcome vs (untrack v.key old) (track v.key v.deployment new) apart.1
        (untrack-Once v.key old once) (track-fresh v new vs apart.0 fresh.1) in
    let same_left = untrack-without v.key old once in
    let same_new =
      ap (λ t. t ++ map entry_of vs) (track_new v.key v.deployment new fresh.0)
      ∙ append_one new (entry_of v) (map entry_of vs) in
    let known = any_visit-Alike old (untrack v.key old) vs alike in
    let same_changes = changes-Alike old (untrack v.key old) vs [] alike in
    step-outcome v vs old new (
      later ∙ (λ i.
        if known i
        then raise key_error
        else ok (forgotten vs (same_left i), (same_new i, same_changes i))))

no_entries : (vs : List Visit) → All (λ v. tracked v.key [] ≡ none) vs
unfolding tracked
no_entries [] = tt
no_entries (v ∷ vs) = (refl, no_entries vs)

-- `build` raises KeyError if some WARM replica was not known; otherwise the new state is the replicas
-- of the cluster, in order, and the delta holds what differs: the WARM ones that were HOT, the HOT
-- ones that were WARM, the HOT ones that were not known, and the known ones that are gone, where no
-- replica is listed twice and no key stands twice in the state.
pub build-changes :
    (c : Controller)
    → Apart (visits c.cluster.nodes)
    → Once c.state
    → build c ≡ (
        if any_visit (unknown c.state) (visits c.cluster.nodes)
        then raise key_error
        else ok (
          record c { state = map entry_of (visits c.cluster.nodes) },
          changes
              (visits c.cluster.nodes)
              c.state
              (map deployment_of (forgotten (visits c.cluster.nodes) c.state)),
        ))
unfolding build
build-changes c apart once =
    let vs = visits c.cluster.nodes in
    let walked = walk-outcome vs c.state [] apart once (no_entries vs) in
    elim (Bool-cases (any_visit (unknown c.state) vs)) [
      | inl u ↦ rw (walked, u) refl
      | inr u ↦ rw (walked, u) refl
    ]
