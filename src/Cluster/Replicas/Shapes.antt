-- ===== src/Cluster/Replicas/Shapes.antt =====
-- node.py: the accesses once the model's entry is known.
use ndif.Prelude.{◌≡◌, ap, none, some, [], arith}
use ndif.Prelude.Dict.{Dict, lookup, set, del}
use ndif.Evaluator.{ModelKey}
use ndif.Cluster.Deployment.{Deployment, ReplicaId}
use ndif.Cluster.Replicas.{Replicas, find, put, put_back, drop, inner_of}

pub inner_of_new : (mk : ModelKey) (r : Replicas) → lookup mk r ≡ none → inner_of mk r ≡ []
inner_of_new mk r e = rw (e, inner_of)

pub inner_of_old :
    (mk : ModelKey) (r : Replicas) (ds : Dict Deployment)
    → lookup mk r ≡ some ds
    → inner_of mk r ≡ ds
inner_of_old mk r ds e = rw (e, inner_of)

module _ (mk : ModelKey) (rid : ReplicaId) (r : Replicas) where
  pub put_new : (d : Deployment) → lookup mk r ≡ none → put mk rid d r ≡ set mk (set rid d []) r
  unfolding put
  put_new d e = ap (λ inner. set mk (set rid d inner) r) (inner_of_new mk r e)

  pub find_new : lookup mk r ≡ none → find mk rid r ≡ none
  unfolding find
  find_new e = ground arith

  pub drop_new : lookup mk r ≡ none → drop mk rid r ≡ r
  unfolding drop
  drop_new e = rw (e, drop)

  module _ (ds : Dict Deployment) (e : lookup mk r ≡ some ds) where
    pub put_old : (d : Deployment) → put mk rid d r ≡ set mk (set rid d ds) r
    unfolding put
    put_old d = ap (λ inner. set mk (set rid d inner) r) (inner_of_old mk r ds e)

    pub find_old : find mk rid r ≡ lookup rid ds
    unfolding find
    find_old = rw (e, find)

    pub drop_old : drop mk rid r ≡ put_back mk (del rid ds) r
    unfolding drop
    drop_old = rw (e, drop)
