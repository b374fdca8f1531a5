-- ===== src/Tests/ValueCaches.antt =====
-- The theorem of cache_store.py at work on three deploys.
use ndif.Prelude.{ℕ, ◌≡◌, refl, none, some, List, [], ◌∷◌, keep}
use ndif.ValueCache.{repo_id, task, Values, SpecEntry, bump, add_value, add_entry, add_many}
use ndif.ValueCache.Recent.{recent, logged, distinct, add_many-recent}

abbrev no_values : Values
no_values field = []

-- A deploy of a checkpoint under a task, with the default classes.
abbrev deployed : ℕ → ℕ → SpecEntry
deployed checkpoint its_task repo_id = some checkpoint
deployed checkpoint its_task task = some its_task
deployed checkpoint its_task _ = none

abbrev deploys : List SpecEntry
deploys = deployed 1 7 ∷ deployed 2 7 ∷ deployed 1 8 ∷ []

add_many-recent_example : add_many deploys no_values repo_id ≡ recent (logged repo_id deploys [])
unfolding distinct
add_many-recent_example = add_many-recent deploys no_values repo_id [] refl

-- The checkpoint deployed again comes first, once.
bumps_again : add_many deploys no_values repo_id ≡ 1 ∷ 2 ∷ []
unfolding add_many add_entry add_value bump keep
bumps_again = refl
