-- ===== src/Controller/Tracking.antt =====
-- controller.py: `self.state`, the dict of the replicas that the controller last acted on, keyed by
-- node, model and replica.
use ndif.Prelude.{
  ◌≡◌, refl, ap, sym, ◌∙◌, Bool, true, false, not, ◌&&◌, Option, none, some, List, [], ◌∷◌, ◌++◌,
  keep, ◌==◌, if◌then◌else◌, Bool-cases, inl, inr, arith,
}
use ndif.Evaluator.{ModelKey}
use ndif.Cluster.Deployment.{Deployment, NodeId, ReplicaId}

pub record StateKey : Type 0 where
  pub node_id : NodeId
  pub model_key : ModelKey
  pub replica_id : ReplicaId

unfoldable pub same_state_key : StateKey → StateKey → Bool
same_state_key a b =
    a.node_id == b.node_id && (a.model_key == b.model_key && a.replica_id == b.replica_id)

abbrev pub Tracked : Type 0
Tracked = List (StateKey × Deployment)

-- `self.state.get(key)`
unfoldable pub tracked : StateKey → Tracked → Option Deployment
tracked k [] = none
tracked k ((j, d) ∷ state) = if same_state_key j k then some d else tracked k state

-- `state[key] = deployment`
unfoldable pub track : StateKey → Deployment → Tracked → Tracked
track k d [] = (k, d) ∷ []
track k d ((j, e) ∷ state) = if same_state_key j k then (k, d) ∷ state else (j, e) ∷ track k d state

-- `del state[key]`, and what `pop` leaves; no change where the key is not there.
unfoldable pub untrack : StateKey → Tracked → Tracked
untrack k [] = []
untrack k ((j, e) ∷ state) = if same_state_key j k then state else (j, e) ∷ untrack k state

-- Every key stands once.
abbrev pub Once : Tracked → Type 0
Once [] = Unit {0}
Once ((k, d) ∷ state) = (tracked k state ≡ none) × Once state

pub same_state_key_refl : (a : StateKey) → same_state_key a a ≡ true
unfolding same_state_key
same_state_key_refl a = ground arith

pub same_state_key-eq : (a b : StateKey) → same_state_key a b ≡ true → a ≡ b
unfolding same_state_key
same_state_key-eq a b h =
    let node : a.node_id ≡ b.node_id = ground arith in
    let model : a.model_key ≡ b.model_key = ground arith in
    let replica : a.replica_id ≡ b.replica_id = ground arith in
    λ i. record { node_id = node i; model_key = model i; replica_id = replica i }

pub same_state_key_sym : (a b : StateKey) → same_state_key a b ≡ false → same_state_key b a ≡ false
unfolding same_state_key
same_state_key_sym a b h = ground arith

pub same_state_key_right :
    (a b c : StateKey) → same_state_key a b ≡ true → same_state_key c a ≡ same_state_key c b
unfolding same_state_key
same_state_key_right a b c h = ground arith

-- Keys that are apart can be asked for in either order.
apart_order :
    (i k j : StateKey) (d e : Deployment) (rest : Option Deployment)
    → same_state_key i k ≡ false
    → (if same_state_key i j then some e else if same_state_key k j then some d else rest)
      ≡ (if same_state_key k j then some d else if same_state_key i j then some e else rest)
apart_order i k j d e rest h = elim (Bool-cases (same_state_key i j)) [
  | inl f ↦
      let other = sym (same_state_key_right i j k f) ∙ same_state_key_sym i k h in
      rw (f, other) refl
  | inr f ↦ rw f refl
]

pub tracked-track :
    (k j : StateKey) (d : Deployment) (state : Tracked)
    → tracked j (track k d state) ≡ (if same_state_key k j then some d else tracked j state)
unfolding tracked track
tracked-track k j d [] = refl
tracked-track k j d ((i, e) ∷ state) = elim (Bool-cases (same_state_key i k)) [
  | inl h ↦ let same = same_state_key-eq i k h in rw (h, same) (ground arith)
  | inr h ↦ rw (h, tracked-track k j d state) (apart_order i k j d e (tracked j state) h)
]

pub tracked-untrack_ne :
    (k j : StateKey) (state : Tracked)
    → same_state_key k j ≡ false
    → tracked j (untrack k state) ≡ tracked j state
unfolding tracked untrack
tracked-untrack_ne k j [] h = refl
tracked-untrack_ne k j ((i, e) ∷ state) h = elim (Bool-cases (same_state_key i k)) [
  | inl f ↦ let same = same_state_key-eq i k f in rw (f, same, h) refl
  | inr f ↦ rw (f, tracked-untrack_ne k j state h) refl
]

pub track_new :
    (k : StateKey) (d : Deployment) (state : Tracked)
    → tracked k state ≡ none
    → track k d state ≡ state ++ (k, d) ∷ []
unfolding tracked track
track_new k d [] h = refl
track_new k d ((i, e) ∷ state) h = elim (Bool-cases (same_state_key i k)) [
  | inl f ↦ let found : some e ≡ none = rw f at h in absurd cc
  | inr f ↦ rw f (ap (λ t. (i, e) ∷ t) (track_new k d state (rw f at h)))
]

-- The entries under other keys.
abbrev pub without : StateKey → Tracked → Tracked
without k state = keep (λ entry. not (same_state_key k entry.0)) state

without_new : (k : StateKey) (state : Tracked) → tracked k state ≡ none → without k state ≡ state
unfolding tracked keep
without_new k [] h = refl
without_new k ((i, e) ∷ state) h = elim (Bool-cases (same_state_key i k)) [
  | inl f ↦ let found : some e ≡ none = rw f at h in absurd cc
  | inr f ↦
      let other = same_state_key_sym i k f in
      rw other (ap (λ t. (i, e) ∷ t) (without_new k state (rw f at h)))
]

pub untrack-without :
    (k : StateKey) (state : Tracked) → Once state → untrack k state ≡ without k state
unfolding untrack keep
untrack-without k [] once = refl
untrack-without k ((i, e) ∷ state) once = elim (Bool-cases (same_state_key i k)) [
  | inl f ↦
      let same = same_state_key-eq i k f in
      let here = same_state_key_refl k in
      let gone : tracked k state ≡ none = rw same at once.0 in
      rw (f, same, here) (sym (without_new k state gone))
  | inr f ↦
      let other = same_state_key_sym i k f in
      rw (f, other) (ap (λ t. (i, e) ∷ t) (untrack-without k state once.1))
]

pub untrack-Once : (k : StateKey) (state : Tracked) → Once state → Once (untrack k state)
unfolding untrack
untrack-Once k [] once = tt
untrack-Once k ((i, e) ∷ state) once = elim (Bool-cases (same_state_key i k)) [
  | inl f ↦ rw f once.1
  | inr f ↦ rw f (
    tracked-untrack_ne k i state (same_state_key_sym i k f) ∙ once.0,
    untrack-Once k state once.1,
  )
]

pub tracked-untrack_self :
    (k j : StateKey) (state : Tracked)
    → Once state
    → same_state_key k j ≡ true
    → tracked j (untrack k state) ≡ none
unfolding tracked untrack
tracked-untrack_self k j [] once h = refl
tracked-untrack_self k j ((i, e) ∷ state) once h =
    let same = same_state_key-eq k j h in
    elim (Bool-cases (same_state_key i k)) [
      | inl f ↦
          let here = same_state_key-eq i k f in
          let gone : tracked j state ≡ none = rw (here, same) at once.0 in rw f gone
      | inr f ↦
          let other : same_state_key i j ≡ false = rw same at f in
          rw (f, other) (tracked-untrack_self k j state once.1 h)
    ]
