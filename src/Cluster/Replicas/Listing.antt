-- ===== src/Cluster/Replicas/Listing.antt =====
-- node.py: the replicas as one list, in iteration order.
use native.Mathlib.Decide.{ℕ_discrete}
use ndif.Prelude.{
  ℕ, ◌≡◌, refl, false, some, List, [], ◌∷◌, ◌++◌, arith, All, All_imp, All-append, sum_of,
  sum_of-append,
}
use ndif.Prelude.Dict.{Dict, lookup, Unique, sum_by}
use ndif.Evaluator.{ModelKey}
use ndif.Cluster.Deployment.{Deployment}
use ndif.Cluster.Replicas.Weights.{Weight, total, IsTable}
use ndif.Cluster.Replicas.Entries.{same_key}
use ndif.Cluster.Replicas.{Replicas, find, inner_of, Entry, entries, inner_entries}

-- The entry is what its keys lead to.
abbrev pub Found : Replicas → Entry → Type 0
Found r e = find e.key e.rid r ≡ some e.deployment

-- No two entries share both keys.
abbrev pub Apart : List Entry → Type 0
Apart [] = Unit {0}
Apart (e ∷ es) = All (λ f. same_key e.key e.rid f.key f.rid ≡ false) es × Apart es

abbrev pub weigh : Weight → Entry → ℕ
weigh w e = w e.key e.rid e.deployment

inner-sum :
    (w : Weight) (mk : ModelKey) (ds : Dict Deployment)
    → sum_of (weigh w) (inner_entries mk ds) ≡ sum_by (w mk) ds
unfolding sum_of sum_by inner_entries
inner-sum w mk [] = refl
inner-sum w mk ((rid, d) ∷ ds) = omega (arith, inner-sum w mk ds)

-- A sum over the table is the sum over its list.
pub total-entries : (w : Weight) (r : Replicas) → total w r ≡ sum_of (weigh w) (entries r)
unfolding total sum_by entries sum_of
total-entries w [] = refl
total-entries w ((mk, ds) ∷ r) = omega (
  arith,
  sum_of-append (weigh w) (inner_entries mk ds) (entries r),
  inner-sum w mk ds,
  total-entries w r,
)

tail-IsTable :
    (mk : ModelKey) (ds : Dict Deployment) (r : Replicas) → IsTable ((mk, ds) ∷ r) → IsTable r
unfolding lookup
tail-IsTable mk ds r t = record {
  outer = t.outer.1;
  inner = λ mk'. elim (ℕ_discrete mk mk') [
    | yes e ↦ ground (arith, t.outer.0)
    | no n ↦
        let same : inner_of mk' ((mk, ds) ∷ r) ≡ inner_of mk' r = ground arith in
        rw same at (t.inner mk')
  ];
}

head-Unique :
    (mk : ModelKey) (ds : Dict Deployment) (r : Replicas) → IsTable ((mk, ds) ∷ r) → Unique ds
unfolding lookup
head-Unique mk ds r t =
    let same : inner_of mk ((mk, ds) ∷ r) ≡ ds = ground arith in rw same at (t.inner mk)

-- Within one model's entry.
inner-Found :
    (mk : ModelKey) (ds : Dict Deployment)
    → Unique ds
    → All (λ e. (e.key ≡ mk) × (lookup e.rid ds ≡ some e.deployment)) (inner_entries mk ds)
unfolding inner_entries lookup
inner-Found mk [] u = tt
inner-Found mk ((rid, d) ∷ ds) u = (
  (refl, ground arith),
  All_imp (λ e. (e.key ≡ mk) × (lookup e.rid ds ≡ some e.deployment))
      (λ e. (e.key ≡ mk) × (lookup e.rid ((rid, d) ∷ ds) ≡ some e.deployment)) (inner_entries mk ds)
      (λ e p. (p.0, ground (arith, u.0))) (inner-Found mk ds u.1),
)

pub entries-Found : (r : Replicas) → IsTable r → All (Found r) (entries r)
unfolding entries find lookup
entries-Found [] t = tt
entries-Found ((mk, ds) ∷ r) t =
    All-append (Found ((mk, ds) ∷ r)) (inner_entries mk ds) (entries r)
      (All_imp (λ e. (e.key ≡ mk) × (lookup e.rid ds ≡ some e.deployment)) (Found ((mk, ds) ∷ r))
        (inner_entries mk ds) (λ e p. ground arith) (inner-Found mk ds (head-Unique mk ds r t)))
      (All_imp (Found r) (Found ((mk, ds) ∷ r)) (entries r) (λ e p. ground (arith, t.outer.0))
        (entries-Found r (tail-IsTable mk ds r t)))

Apart-append :
    (xs ys : List Entry)
    → Apart xs
    → Apart ys
    → All (λ e. All (λ f. same_key e.key e.rid f.key f.rid ≡ false) ys) xs
    → Apart (xs ++ ys)
Apart-append [] ys a b c = b
Apart-append (x ∷ xs) ys a b c = (
  All-append (λ f. same_key x.key x.rid f.key f.rid ≡ false) xs ys a.0 c.0,
  Apart-append xs ys a.1 b c.1,
)

inner-Apart : (mk : ModelKey) (ds : Dict Deployment) → Unique ds → Apart (inner_entries mk ds)
unfolding inner_entries
inner-Apart mk [] u = tt
inner-Apart mk ((rid, d) ∷ ds) u = (
  All_imp (λ e. (e.key ≡ mk) × (lookup e.rid ds ≡ some e.deployment))
      (λ f. same_key mk rid f.key f.rid ≡ false) (inner_entries mk ds)
      (λ e p. elim (ℕ_discrete rid e.rid) [
        | yes q ↦ absurd (ground (arith, u.0))
        | no n ↦ ground arith
      ])
      (inner-Found mk ds u.1),
  inner-Apart mk ds u.1,
)

pub entries-Apart : (r : Replicas) → IsTable r → Apart (entries r)
unfolding entries find
entries-Apart [] t = tt
entries-Apart ((mk, ds) ∷ r) t =
    Apart-append (inner_entries mk ds) (entries r) (inner-Apart mk ds (head-Unique mk ds r t))
      (entries-Apart r (tail-IsTable mk ds r t))
      (All_imp (λ e. (e.key ≡ mk) × (lookup e.rid ds ≡ some e.deployment))
        (λ e. All (λ f. same_key e.key e.rid f.key f.rid ≡ false) (entries r)) (inner_entries mk ds)
        (λ e p.
          All_imp (Found r) (λ f. same_key e.key e.rid f.key f.rid ≡ false) (entries r)
            (λ f q. elim (ℕ_discrete mk f.key) [
              | yes s ↦ absurd (ground (arith, t.outer.0))
              | no n ↦ ground arith
            ])
            (entries-Found r (tail-IsTable mk ds r t)))
        (inner-Found mk ds (head-Unique mk ds r t)))
