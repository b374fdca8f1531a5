-- ===== src/Cluster/Replicas/Entries.antt =====
-- node.py: lookups after each access, and the replicas as one list.
use native.Mathlib.Decide.{ℕ_discrete}
use ndif.Prelude.{
  ◌≡◌, inl, inr, Bool, ◌&&◌, none, some, [], ◌∷◌, ◌==◌, if◌then◌else◌, arith, Option-cases,
  Bool-cases,
}
use ndif.Prelude.Dict.{
  Dict, lookup, set, del, lookup-nil, del-nil, Unique, lookup-set, lookup-del_ne, lookup-del_self,
  set-Unique, del-Unique,
}
use ndif.Evaluator.{ModelKey}
use ndif.Cluster.Deployment.{Deployment, ReplicaId}
use ndif.Cluster.Replicas.Shapes.{inner_of_new, inner_of_old, drop_new, drop_old}
use ndif.Cluster.Replicas.Weights.{IsTable}
use ndif.Cluster.Replicas.{Replicas, find, put, put_back, drop, inner_of}

abbrev pub same_key : ModelKey → ReplicaId → ModelKey → ReplicaId → Bool
same_key mk rid mk' rid' = mk == mk' && rid == rid'

put-Unique :
    (mk : ModelKey) (rid : ReplicaId) (d : Deployment) (r : Replicas)
    → Unique r
    → Unique (put mk rid d r)
unfolding put
put-Unique mk rid d r u = set-Unique mk (set rid d (inner_of mk r)) r u

put_back-Unique :
    (mk : ModelKey) (ds : Dict Deployment) (r : Replicas) → Unique r → Unique (put_back mk ds r)
unfolding put_back
put_back-Unique mk [] r u = del-Unique mk r u
put_back-Unique mk (d ∷ ds) r u = set-Unique mk (d ∷ ds) r u

drop-Unique : (mk : ModelKey) (rid : ReplicaId) (r : Replicas) → Unique r → Unique (drop mk rid r)
drop-Unique mk rid r u = elim (Option-cases (lookup mk r)) [
  | inl e ↦ rw (drop_new mk rid r e) u
  | inr (ds, e) ↦ rw (drop_old mk rid r ds e) (put_back-Unique mk (del rid ds) r u)
]

pub find_inner :
    (mk : ModelKey) (rid : ReplicaId) (r : Replicas) → find mk rid r ≡ lookup rid (inner_of mk r)
unfolding find
find_inner mk rid r = ground (arith, lookup-nil {V = Deployment} rid)

module _ (mk mk' : ModelKey) (r : Replicas) where
  inner_of-put_back :
      (ds : Dict Deployment)
      → Unique r
      → inner_of mk' (put_back mk ds r) ≡ (if mk == mk' then ds else inner_of mk' r)
  unfolding put_back
  inner_of-put_back [] u = elim (ℕ_discrete mk mk') [
    | yes e ↦ ground (arith, lookup-del_self mk r u)
    | no n ↦ ground (arith, lookup-del_ne mk mk' r n)
  ]
  inner_of-put_back (d ∷ ds) u = ground (arith, lookup-set mk mk' (d ∷ ds) r)

  pub inner_of-put :
      (rid : ReplicaId) (d : Deployment)
      → inner_of mk' (put mk rid d r)
        ≡ (if mk == mk' then set rid d (inner_of mk r) else inner_of mk' r)
  unfolding put
  inner_of-put rid d = ground (arith, lookup-set mk mk' (set rid d (inner_of mk r)) r)

  pub inner_of-drop :
      (rid : ReplicaId)
      → Unique r
      → inner_of mk' (drop mk rid r)
        ≡ (if mk == mk' then del rid (inner_of mk r) else inner_of mk' r)
  inner_of-drop rid u = elim (Option-cases (lookup mk r)) [
    | inl e ↦ ground (arith, drop_new mk rid r e, inner_of_new mk r e, del-nil {V = Deployment} rid)
    | inr (ds, e) ↦
        rw (drop_old mk rid r ds e, inner_of_old mk r ds e) (inner_of-put_back (del rid ds) u)
  ]

module _ (mk mk' : ModelKey) (rid rid' : ReplicaId) (r : Replicas) where
  pub find-put :
      (d : Deployment)
      → find mk' rid' (put mk rid d r)
        ≡ (if same_key mk rid mk' rid' then some d else find mk' rid' r)
  find-put d = ground (
    arith,
    find_inner mk' rid' (put mk rid d r),
    find_inner mk' rid' r,
    inner_of-put mk mk' r rid d,
    lookup-set rid rid' d (inner_of mk r),
  )

  pub find-drop :
      IsTable r
      → find mk' rid' (drop mk rid r) ≡ (if same_key mk rid mk' rid' then none else find mk' rid' r)
  find-drop t = ground (
    arith,
    find_inner mk' rid' (drop mk rid r),
    find_inner mk' rid' r,
    inner_of-drop mk mk' r rid t.outer,
    lookup-del_self rid (inner_of mk r) (t.inner mk),
    lookup-del_ne rid rid' (inner_of mk r),
  )

pub put-IsTable :
    (mk : ModelKey) (rid : ReplicaId) (d : Deployment) (r : Replicas)
    → IsTable r
    → IsTable (put mk rid d r)
put-IsTable mk rid d r t = record {
  outer = put-Unique mk rid d r t.outer;
  inner = λ mk'. elim (Bool-cases (mk == mk')) [
    | inl e ↦ rw (inner_of-put mk mk' r rid d, e) (set-Unique rid d (inner_of mk r) (t.inner mk))
    | inr e ↦ rw (inner_of-put mk mk' r rid d, e) (t.inner mk')
  ];
}

pub drop-IsTable :
    (mk : ModelKey) (rid : ReplicaId) (r : Replicas) → IsTable r → IsTable (drop mk rid r)
drop-IsTable mk rid r t = record {
  outer = drop-Unique mk rid r t.outer;
  inner = λ mk'. elim (Bool-cases (mk == mk')) [
    | inl e ↦
        rw (inner_of-drop mk mk' r rid t.outer, e) (del-Unique rid (inner_of mk r) (t.inner mk))
    | inr e ↦ rw (inner_of-drop mk mk' r rid t.outer, e) (t.inner mk')
  ];
}
