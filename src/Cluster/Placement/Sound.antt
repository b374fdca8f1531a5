-- ===== src/Cluster/Placement/Sound.antt =====
-- node.py: the candidates of `evaluate`.
use ndif.Prelude.{
  ℕ, ◌≡◌, sym, ◌∙◌, Bool, true, ◌&&◌, ◌==◌, inl, inr, Option, none, some, List, [], ◌∷◌, map, All,
  All_imp, All_zip, All_every, All-map, take, take-All, ltb, leb, length, arith, if◌then◌else◌,
  Bool-cases,
}
use ndif.Prelude.Dict.{Dict, Unique}
use ndif.Prelude.Results.{ok, >>=-eq-ok}
use ndif.Prelude.Sort.{sort, sort-All}
use ndif.Evaluator.{ModelKey}
use ndif.Cluster.Deployment.{ReplicaId}
use ndif.Cluster.Resources.{fitting}
use ndif.Cluster.Resources.Charges.{Distinct, IsCard, Fitted}
use ndif.Cluster.Replicas.{Key, entries}
use ndif.Cluster.Replicas.Weights.{IsTable}
use ndif.Cluster.Replicas.Listing.{entries-Found}
use ndif.Cluster.Node.{Node, Excluded, mem_key}
use ndif.Cluster.Node.Clearing.{Once}
use ndif.Cluster.Placement.{
  Plan, Candidate, CandidateLevel, cached_and_full, full, is_cached, by_evictions, uneven_split,
  refused, book, index_of, plan_gpu_index, gpu_plans, shorter, all_evictions, find_evictions,
  choose, Count, uneven, cards, weigh_up, share, gpus_needed, evaluate, occupants, plan_gpu,
}
use ndif.Cluster.Placement.Keys.{
  listed, IsListing, all_evictions-Once, mem_key-all_evictions, Within, all-Within,
}
use ndif.Cluster.Placement.Victims.{IsVictim, gpu_plans-All, plan_gpu-victims, occupants-All}
use ndif.Cluster.Placement.Room.{
  RoomFor, Usable, book-All, book-Unique, gpu_plans-Usable, fitting-Usable,
}

-- The evictions are HOT replicas that may go, each once; the booked cards are the node's, each
-- once, and have the booked room when the evictions are made.
pub record IsSound (node : Node) (now : ℕ) (pinned : Bool) (exclude : Excluded)
    (evictions : List Key) (booked : Dict ℕ) : Type 0 where
  pub victims :
      (mk : ModelKey) (rid : ReplicaId)
      → mem_key mk rid evictions ≡ true
      → IsVictim node now pinned exclude mk rid
  pub once : Once evictions
  pub unique : Unique booked
  pub fitted : Fitted booked node.gpu_resources.gpus
  pub room : All (λ e. RoomFor evictions node.deployments node.gpu_resources.gpus e.1 e.0) booked

module _ (order : List Key → List Key) (listing : IsListing order) (node : Node)
    (distinct : Distinct node.gpu_resources.gpus) (table : IsTable node.deployments) (now : ℕ)
    (pinned : Bool) (exclude : Excluded) where
  abbrev Victim : ModelKey → ReplicaId → Type 0
  Victim = IsVictim node now pinned exclude

  -- A key in a list of victims is a victim.
  Victim-in :
      (keys : List Key) (mk : ModelKey) (rid : ReplicaId)
      → All (λ k. Victim k.0 k.1) keys
      → mem_key mk rid keys ≡ true
      → Victim mk rid
  unfolding mem_key
  Victim-in [] mk rid a h = absurd (ground arith)
  Victim-in ((k, r) ∷ keys) mk rid a h = elim (Bool-cases (k == mk && r == rid)) [
    | inl e ↦
        let e1 : k ≡ mk = ground arith in let e2 : r ≡ rid = ground arith in rw (← e1, ← e2) a.0
    | inr e ↦ Victim-in keys mk rid a.1 (ground arith)
  ]

  Victim-listed :
      (plans : List Plan) (mk : ModelKey) (rid : ReplicaId)
      → All (λ plan. All (λ k. Victim k.0 k.1) plan.keys) plans
      → listed mk rid plans ≡ true
      → Victim mk rid
  Victim-listed [] mk rid a h = absurd (ground arith)
  Victim-listed (plan ∷ plans) mk rid a h = elim (Bool-cases (mem_key mk rid plan.keys)) [
    | inl e ↦ Victim-in plan.keys mk rid a.0 e
    | inr e ↦ Victim-listed plans mk rid a.1 (ground arith)
  ]

  -- From the booked indices to the booked cards.
  booked-IsSound :
      (evictions : List Key) (bytes : ℕ) (is : List ℕ)
      → ((mk : ModelKey) (rid : ReplicaId) → mem_key mk rid evictions ≡ true → Victim mk rid)
      → Once evictions
      → All (Usable evictions node bytes) is
      → IsSound node now pinned exclude evictions (book bytes is [])
  booked-IsSound evictions bytes is v o u =
      let all = book-All (Usable evictions node bytes) bytes is [] u tt in
      record {
        victims = v;
        once = o;
        unique = book-Unique bytes is [] tt;
        fitted =
            All_imp (λ e. (e.1 ≡ bytes) × Usable evictions node bytes e.0)
              (λ e. IsCard e.0 node.gpu_resources.gpus) (book bytes is []) (λ e p. p.1.0) all;
        room =
            All_imp (λ e. (e.1 ≡ bytes) × Usable evictions node bytes e.0)
              (λ e. RoomFor evictions node.deployments node.gpu_resources.gpus e.1 e.0)
              (book bytes is []) (λ e p. rw p.0 p.1.1) all;
      }

  none-IsSound : IsSound node now pinned exclude [] []
  unfolding mem_key
  none-IsSound = record {
    victims = λ mk rid h. absurd (ground arith);
    once = tt;
    unique = tt;
    fitted = tt;
    room = tt;
  }

  -- Whatever plans are chosen.
  chosen-IsSound :
      (bytes : ℕ) (chosen : List Plan)
      → All (λ plan. All (λ k. Victim k.0 k.1) plan.keys) chosen
      → ((evictions : List Key)
          → All (λ plan. Within evictions plan.keys → Usable evictions node bytes plan.gpu) chosen)
      → IsSound node now pinned exclude
          (order (all_evictions [] chosen))
          (book bytes (map plan_gpu_index chosen) [])
  unfolding mem_key
  chosen-IsSound bytes chosen victims usable =
      let evictions = order (all_evictions [] chosen) in
      let holds = λ (mk : ModelKey) (rid : ReplicaId).
        listing.same mk rid (all_evictions [] chosen) ∙ mem_key-all_evictions mk rid [] chosen in
      booked-IsSound evictions bytes (map plan_gpu_index chosen)
        (λ mk rid h. Victim-listed chosen mk rid victims (sym (holds mk rid) ∙ h))
        (listing.once (all_evictions [] chosen) (all_evictions-Once [] chosen tt))
        (All-map (Usable evictions node bytes) plan_gpu_index chosen (
          All_imp
            (λ plan.
              Within evictions plan.keys
              × (Within evictions plan.keys → Usable evictions node bytes plan.gpu))
            (λ plan. Usable evictions node bytes plan.gpu) chosen (λ plan p. p.1 p.0)
            (All_zip (λ plan. Within evictions plan.keys)
              (λ plan. Within evictions plan.keys → Usable evictions node bytes plan.gpu) chosen
              (all-Within evictions chosen (λ mk rid h. holds mk rid ∙ h)) (usable evictions))))

  plans-Victims :
      (bytes : ℕ)
      → All
          (λ plan. All (λ k. Victim k.0 k.1) plan.keys)
          (gpu_plans node now pinned exclude bytes node.gpu_resources.gpus)
  plans-Victims bytes =
      gpu_plans-All node now pinned exclude (λ plan. All (λ k. Victim k.0 k.1) plan.keys) bytes
        node.gpu_resources.gpus
        (All_every
          (λ gpu.
            (plan : Plan)
            → plan_gpu bytes gpu
                (occupants node now pinned exclude gpu.index (entries node.deployments))
              ≡ some plan
            → All (λ k. Victim k.0 k.1) plan.keys)
          node.gpu_resources.gpus
          (λ gpu plan h.
            plan_gpu-victims node now pinned exclude bytes gpu _ plan
              (occupants-All node now pinned exclude gpu.index (entries node.deployments)
                (entries-Found node.deployments table))
              h))

  -- What `find_evictions` answers with.
  find_evictions-IsSound :
      (needed bytes : ℕ)
      → IsSound node now pinned exclude
          (find_evictions order node now needed bytes pinned exclude).0
          (find_evictions order node now needed bytes pinned exclude).1
  unfolding find_evictions
  find_evictions-IsSound needed bytes =
      let plans = gpu_plans node now pinned exclude bytes node.gpu_resources.gpus in
      let chosen = take needed (sort shorter plans) in
      elim (Bool-cases (ltb (length plans) needed)) [
        | inl few ↦ rw few none-IsSound
        | inr many ↦ rw many (
            chosen-IsSound bytes chosen
              (take-All (λ plan. All (λ k. Victim k.0 k.1) plan.keys) needed (sort shorter plans)
                (sort-All shorter (λ plan. All (λ k. Victim k.0 k.1) plan.keys) plans
                  (plans-Victims bytes)))
              (λ evictions.
                take-All (λ plan. Within evictions plan.keys → Usable evictions node bytes plan.gpu)
                  needed (sort shorter plans)
                  (sort-All shorter
                    (λ plan. Within evictions plan.keys → Usable evictions node bytes plan.gpu)
                    plans (gpu_plans-Usable evictions node bytes now pinned exclude distinct))))
      ]

  -- The cards that fit as they are need no eviction.
  fit-IsSound :
      (needed bytes : ℕ)
      → IsSound node now pinned exclude []
          (book bytes (map index_of (take needed (fitting bytes node.gpu_resources.gpus))) [])
  unfolding mem_key
  fit-IsSound needed bytes =
      let fit = fitting bytes node.gpu_resources.gpus in
      booked-IsSound [] bytes (map index_of (take needed fit)) (λ mk rid h. absurd (ground arith))
        tt
        (All-map (Usable [] node bytes) index_of (take needed fit) (
          take-All (λ gpu. Usable [] node bytes gpu.index) needed fit
            (fitting-Usable [] node bytes distinct)))

  by_evictions-IsSound :
      (level : CandidateLevel) (answer : List Key × Dict ℕ)
      → IsSound node now pinned exclude answer.0 answer.1
      → IsSound node now pinned exclude
          (by_evictions level answer).evictions
          (by_evictions level answer).gpus
  by_evictions-IsSound level (evictions, []) s = none-IsSound
  by_evictions-IsSound level (evictions, entry ∷ gpus) s = s

  choose-IsSound :
      (mk : ModelKey) (needed bytes : ℕ)
      → IsSound node now pinned exclude
          (choose order node now mk needed bytes pinned exclude).evictions
          (choose order node now mk needed bytes pinned exclude).gpus
  unfolding choose
  choose-IsSound mk needed bytes =
      let fit = fitting bytes node.gpu_resources.gpus in
      elim (Bool-cases (leb needed (length fit))) [
        | inl e ↦ rw e (fit-IsSound needed bytes)
        | inr e ↦ rw e (
            by_evictions-IsSound (if is_cached mk node then cached_and_full else full)
              (find_evictions order node now needed bytes pinned exclude)
              (find_evictions-IsSound needed bytes))
      ]

  count-IsSound :
      (mk : ModelKey) (size : ℕ) (per : Option ℕ) (count : Count) (c : Candidate)
      → weigh_up order node now mk size per pinned exclude count ≡ ok c
      → IsSound node now pinned exclude c.evictions c.gpus
  unfolding weigh_up
  count-IsSound mk size per (uneven gpus max_tp) c h =
      let same : refused (some (uneven_split gpus max_tp)) ≡ c = ground arith in
      rw (← same) none-IsSound
  count-IsSound mk size per (cards needed) c h =
      elim (Bool-cases (ltb (length node.gpu_resources.gpus) needed)) [
        | inl e ↦ let same : refused none ≡ c = ground arith in rw (← same) none-IsSound
        | inr e ↦
            let (bytes, _, found) = >>=-eq-ok (share per size needed) _ (rw e at h) in
            let same : choose order node now mk needed bytes pinned exclude ≡ c = ground arith in
            rw (← same) (choose-IsSound mk needed bytes)
      ]

  -- For a node with distinct cards whose HOT replicas stand once, every candidate that `evaluate`
  -- answers with is sound: its evictions are HOT replicas that may go, each named once, and its
  -- cards are the node's, each booked once, with the room for what is booked when the evictions
  -- are made.
  pub evaluate-IsSound :
      (mk : ModelKey) (size : ℕ) (max_tp gpus per : Option ℕ) (c : Candidate)
      → evaluate order node now mk size pinned exclude max_tp gpus per ≡ ok c
      → IsSound node now pinned exclude c.evictions c.gpus
  unfolding evaluate
  evaluate-IsSound mk size max_tp gpus per c h =
      let (count, _, found) =
        >>=-eq-ok (gpus_needed max_tp gpus size node.gpu_resources.gpus) _ h in
      count-IsSound mk size per count c found
