-- ===== src/Tests/Nodes.antt =====
-- The theorems of node.py at work on the sample node: a replica that needs 80 bytes on one card.
use ndif.Prelude.{◌+◌, ◌≤◌, ◌≡◌, refl, false, none, [], ◌∷◌, sum_of, keep, arith}
use ndif.Prelude.Dict.{lookup, set}
use ndif.Prelude.Int.{◌-ℤ◌}
use ndif.Prelude.Results.{Returns, ok}
use ndif.Prelude.Sort.{sort, insert}
use ndif.Evaluator.{ceil_div, tp_degree}
use ndif.Cluster.Replicas.{find, drop, entries, inner_entries}
use ndif.Cluster.Node.{deploy, evict, evict_all, uncache, find_cache_evictions, mem_key, pick, mem}
use ndif.Cluster.Node.Clearing.{Cleared, evict_all-Cleared, evict-Evicted}
use ndif.Cluster.Node.Eviction.{Evicted}
use ndif.Cluster.Node.Caching.{Evictable, find_cache_evictions-Evictable}
use ndif.Cluster.Node.Uncaching.{Uncached, uncache-Uncached}
use ndif.Cluster.Resources.{required, fitting}
use ndif.Cluster.Placement.{
  evaluate, full, gpus_needed, weigh_up, share, choose, find_evictions, gpu_plans, plan_gpu,
  occupants, seats, free_up, evictable, too_young, book, all_evictions, update,
}
use ndif.Cluster.Placement.Sound.{IsSound, evaluate-IsSound}
use ndif.Cluster.Placing.{Deployed, deploy-Deployed}
use ndif.Tests.Samples.{
  running, stored, sample_node, sample_node-Inv, any_class, as_listed, as_listed-IsListing,
  newcomer,
}

-- The replica of model 7 has to go.
sample_candidate :
    evaluate as_listed sample_node 20 5 80 false (5 ∷ []) none none none
    ≡ ok (record {
      candidate_level = full;
      gpus = newcomer.gpus;
      evictions = newcomer.evictions;
      reason = none;
    })
unfolding evaluate gpus_needed required ceil_div tp_degree weigh_up share choose fitting
    find_evictions gpu_plans plan_gpu occupants seats free_up evictable too_young entries
    inner_entries book set all_evictions update mem_key mem keep sort insert ◌-ℤ◌ lookup
sample_candidate = refl

evaluate-IsSound_example : IsSound sample_node 20 false (5 ∷ []) newcomer.evictions newcomer.gpus
evaluate-IsSound_example =
    evaluate-IsSound as_listed as_listed-IsListing sample_node sample_node-Inv.cards.distinct
      sample_node-Inv.hot_table 20 false (5 ∷ []) 5 80 none none none
      (record {
        candidate_level = full;
        gpus = newcomer.gpus;
        evictions = newcomer.evictions;
        reason = none;
      })
      sample_candidate

deploy-Deployed_example :
    Returns
      (deploy any_class 20 (5 ∷ []) 77 newcomer sample_node)
      (λ r. Deployed 20 newcomer sample_node r.0 r.1)
unfolding find lookup
deploy-Deployed_example =
    deploy-Deployed any_class 20 (5 ∷ []) 77 newcomer sample_node sample_node-Inv
      evaluate-IsSound_example refl

evict_all-Cleared_example :
    Returns
      (evict_all any_class 20 [] ((7, 1) ∷ []) sample_node)
      (Cleared sample_node ((7, 1) ∷ []))
unfolding find lookup mem_key
evict_all-Cleared_example =
    evict_all-Cleared any_class 20 [] ((7, 1) ∷ []) sample_node sample_node-Inv (refl, tt)
      (λ mk rid h. (running, ground arith))

evict-Evicted_example : Returns (evict any_class 20 [] 7 1 sample_node) (Evicted sample_node 7 1)
unfolding find lookup
evict-Evicted_example = evict-Evicted any_class 20 [] 7 1 running sample_node sample_node-Inv refl

find_cache_evictions-Evictable_example :
    Evictable sample_node.cache (stored ∷ [])
    × (90 + 0 ≤ 70 + sum_of (λ d. d.size_bytes) (stored ∷ []))
unfolding find_cache_evictions pick mem sort insert entries inner_entries ◌-ℤ◌
find_cache_evictions-Evictable_example =
    find_cache_evictions-Evictable [] sample_node 90 (stored ∷ []) sample_node-Inv.warm_table
      sample_node-Inv.warm_named refl

uncache-Uncached_example :
    Returns
      (uncache 9 2 sample_node)
      (λ n'. Uncached sample_node 30 n' × (n'.cache ≡ drop 9 2 sample_node.cache))
unfolding find lookup
uncache-Uncached_example = uncache-Uncached 9 2 stored sample_node sample_node-Inv.warm_table refl
