-- ===== src/Controller/Applying.antt =====
-- controller.py: `apply` and `_monitor_deployment`, the operations on actors and what is dropped where
-- they fail. What Ray answers is a parameter; a failure of a deployment that is awaited in the
-- background comes later, as an event.
use ndif.Prelude.{ℕ, Bool, not, Option, none, some, List, [], ◌∷◌, ◌++◌, map, keep, if◌then◌else◌}
use ndif.Prelude.Results.{Result, ok, ◌>>=◌}
use ndif.Evaluator.{DtypeName, value_or}
use ndif.Cluster.Deployment.{Deployment, NodeId}
use ndif.Controller.{Controller, build, remove_deployment}

pub data Operation : Type 0 where
  delete_actor : Deployment → Operation
  cache_actor : Deployment → Operation
  restore_actor : Deployment → Operation
  create_actor :
      NodeId → Deployment → (execution_timeout : Option ℕ) → (dtype : DtypeName) → Operation

-- What Ray answers about a replica's actor: whether `cache` gets a future and whether this fails,
-- whether `from_cache` gets a future, and whether there is a handle after `create`.
pub record Ray : Type 0 where
  pub cache_starts : Deployment → Bool
  pub cache_fails : Deployment → Bool
  pub restore_starts : Deployment → Bool
  pub has_handle : Deployment → Bool

abbrev pub Applied : Type 0
Applied = List Operation × Controller

-- The loops over a part of the delta have one shape: an operation on each, and where it fails, the
-- actor is deleted and the replica dropped.
module _ {A : Type 0} (start : A → List Operation) (of : A → Deployment) (fails : A → Bool) where
  unfoldable pub each_or_drop : List A → Applied → Result Applied
  each_or_drop [] done = ok done
  each_or_drop (a ∷ rest) (operations, c) =
      if fails a
      then (remove_deployment (of a) c
          >>= (λ c'. each_or_drop rest (operations ++ (start a ++ delete_actor (of a) ∷ []), c')))
      else each_or_drop rest (operations ++ start a, c)

abbrev pub own : Deployment → Deployment
own d = d

abbrev pub no_operation : Deployment → List Operation
no_operation d = []

abbrev pub start_cache : Deployment → List Operation
start_cache d = cache_actor d ∷ []

abbrev pub start_restore : Deployment → List Operation
start_restore d = restore_actor d ∷ []

abbrev pub placed_deployment : NodeId × Deployment → Deployment
placed_deployment (id, d) = d

-- A limit of the deployment's own stands before the default, and so does its dtype.
unfoldable pub start_create : Option ℕ → DtypeName → NodeId × Deployment → List Operation
start_create default_timeout default_dtype (id, d) =
    let timeout : Option ℕ = elim d.execution_timeout_seconds [
      | none ↦ default_timeout
      | some seconds ↦ some seconds
    ] in
    create_actor id d timeout (value_or d.dtype default_dtype) ∷ []

module _ (ray : Ray) where
  -- HOT to WARM: every one is started, then every one that started is awaited.
  unfoldable pub apply_caches : List Deployment → Applied → Result Applied
  apply_caches deployments done =
      each_or_drop start_cache own (λ d. not (ray.cache_starts d)) deployments done
      >>= each_or_drop no_operation own ray.cache_fails (keep ray.cache_starts deployments)

  unfoldable pub apply_restores : List Deployment → Applied → Result Applied
  apply_restores deployments done =
      each_or_drop start_restore own (λ d. not (ray.restore_starts d)) deployments done

  unfoldable pub apply_creates : List (NodeId × Deployment) → Applied → Result Applied
  apply_creates placed (operations, c) =
      each_or_drop (start_create c.default_execution_timeout_seconds c.default_dtype)
        placed_deployment (λ (id, d). not (ray.has_handle d)) placed (operations, c)

  unfoldable pub apply : Controller → Result Applied
  apply c = build c >>= (λ (c', delta).
      apply_caches delta.to_cache (map delete_actor delta.to_delete, c')
      >>= apply_restores delta.from_cache
      >>= apply_creates delta.to_create)
