-- ===== src/Queue/RequestQueue/Position.antt =====
-- request_queue.py: places in the queue.
use mathlib.Core.Path.{subst}
use ndif.Prelude.{
  ℕ, suc, ◌+◌, ◌≤◌, ◌<◌, ◌≡◌, refl, sym, ap, Bool, true, false, some, List, [], ◌∷◌, ◌++◌, ltb,
  ◌==◌, if◌then◌else◌, arith, ltb→lt, All, get_elem?, get_elem?-map_of, Bool-cases, Option-cases,
  ◌⊎◌, inl, inr,
}
use ndif.Prelude.Sort.{insert, sort}
use ndif.Queue.RequestQueue.{
  Request, SortKey, Item, RequestQueue, key_lt, item_lt, put, item_of, rank, stamp, snapshot,
  position, key_of_id, count_before, request_of, oldest, oldest_item, min_waited, waited_since,
}
use ndif.Queue.RequestQueue.Order.{Inv, IsSorted, sort-IsSorted, key_lt_asym, key_lt_irrefl}

-- The item is in the list.
abbrev In : Item → List Item → Type 0
In x [] = ⊥
In x (y ∷ ys) = (y ≡ x) ⊎ In x ys

In-insert : (x y : Item) (ys : List Item) → (y ≡ x) ⊎ In x ys → In x (insert item_lt y ys)
unfolding insert
In-insert x y [] h = h
In-insert x y (z ∷ zs) h = elim (Bool-cases (item_lt z y)) [
  | inl e ↦ rw e (elim h [
    | inl s ↦ inr (In-insert x y zs (inl s))
    | inr m ↦ elim m [ inl s ↦ inl s | inr t ↦ inr (In-insert x y zs (inr t)) ]
  ])
  | inr e ↦ rw e h
]

In-sort : (x : Item) (xs : List Item) → In x xs → In x (sort item_lt xs)
unfolding sort
In-sort x [] m = m
In-sort x (y ∷ ys) (inl e) = In-insert x y (sort item_lt ys) (inl e)
In-sort x (y ∷ ys) (inr m) = In-insert x y (sort item_lt ys) (inr (In-sort x ys m))

count-insert :
    (key : SortKey) (x : Item) (xs : List Item)
    → count_before key (insert item_lt x xs) ≡ count_before key (x ∷ xs)
unfolding insert count_before
count-insert key x [] = refl
count-insert key x (y ∷ ys) = ground (arith, count-insert key x ys)

-- Sorting changes no count.
count-sort :
    (key : SortKey) (xs : List Item) → count_before key (sort item_lt xs) ≡ count_before key xs
unfolding sort count_before
count-sort key [] = refl
count-sort key (x ∷ xs) = omega (arith, count-insert key x (sort item_lt xs), count-sort key xs)

count_none :
    (x : Item) (xs : List Item)
    → All (λ y. key_lt x.key y.key ≡ true) xs
    → count_before x.key xs ≡ 0
unfolding count_before
count_none x [] a = refl
count_none x (y ∷ ys) a = ground (arith, key_lt_asym x.key y.key, a.0, count_none x ys a.1)

after_head :
    (x y : Item) (ys : List Item)
    → All (λ z. key_lt y.key z.key ≡ true) ys
    → In x ys
    → key_lt y.key x.key ≡ true
after_head x y [] a m = absurd m
after_head x y (z ∷ zs) a (inl e) = rw (← e) a.0
after_head x y (z ∷ zs) a (inr m) = after_head x y zs a.1 m

-- In a sorted list an item's place is the number of items before it.
place :
    (x : Item) (xs : List Item)
    → IsSorted xs
    → In x xs
    → get_elem? xs (count_before x.key xs) ≡ some x
unfolding count_before
place x [] s m = absurd m
place x (y ∷ ys) s (inl e) =
    let same : x.key ≡ y.key = ap (λ z. z.key) (sym e) in
    let none_before : (if key_lt y.key x.key then 1 else 0) + count_before x.key ys ≡ 0 =
      rw same (ground (arith, key_lt_irrefl y.key, count_none y ys s.0)) in
    rw none_before (ap some e)
place x (y ∷ ys) s (inr m) =
    let one_more : (if key_lt y.key x.key then 1 else 0) + count_before x.key ys
        ≡ suc (count_before x.key ys) =
      rw (after_head x y ys s.0 m) (omega arith) in
    rw one_more (place x ys s.1 m)

key_of_id-In :
    (id : ℕ) (xs : List Item) (key : SortKey)
    → key_of_id id xs ≡ some key
    → (x : Item) × In x xs × (x.key ≡ key) × (x.request.id ≡ id)
unfolding key_of_id
key_of_id-In id [] key h = absurd (ground arith)
key_of_id-In id (y ∷ ys) key h = elim (Bool-cases (y.request.id == id)) [
  | inl e ↦ (y, inl refl, ground arith, ground arith)
  | inr e ↦ let (x, m, k, i) = key_of_id-In id ys key (ground arith) in (x, inr m, k, i)
]

-- On a queue that satisfies its invariant, where `position` answers with n + 1 for an id, the
-- snapshot has a request of this id at index n.
pub snapshot-position :
    (q : RequestQueue) (id n : ℕ)
    → Inv q
    → position id q ≡ some (suc n)
    → (r : Request) × (get_elem? (snapshot q) n ≡ some r) × (r.id ≡ id)
unfolding position snapshot
snapshot-position q id n v h = elim (Option-cases (key_of_id id q.items)) [
  | inl e ↦ absurd (ground arith)
  | inr (key, e) ↦
      let (x, m, k, i) = key_of_id-In id q.items key e in
      let count : count_before x.key (sort item_lt q.items) ≡ n =
        rw (count-sort x.key q.items, k) (ground arith) in
      let found =
        place x (sort item_lt q.items) (sort-IsSorted q.items v.fresh) (In-sort x q.items m) in
      (x.request, get_elem?-map_of request_of (sort item_lt q.items) n x (rw count at found), i)
]

-- The oldest request has waited at least as long as every other.
min_waited-le :
    (best : Request) (xs : List Item)
    → (waited_since (min_waited best xs) ≤ waited_since best)
      × All (λ x. waited_since (min_waited best xs) ≤ waited_since x.request) xs
unfolding min_waited
min_waited-le best [] = (omega arith, tt)
min_waited-le best (x ∷ xs) =
    let b : Request =
      if ltb (waited_since x.request) (waited_since best) then x.request else best in
    let (first, others) = min_waited-le b xs in
    let least : (waited_since b ≤ waited_since best) × (waited_since b ≤ waited_since x.request) =
      elim (Bool-cases (ltb (waited_since x.request) (waited_since best))) [
        | inl e ↦ rw e (omega (arith, ltb→lt _ _ e), omega arith)
        | inr e ↦ rw e (omega arith, ground arith)
      ] in
    (omega (arith, first, least.0), (omega (arith, first, least.1), others))

oldest_of :
    (items : List Item) (r : Request)
    → oldest_item items ≡ some r
    → All (λ x. waited_since r ≤ waited_since x.request) items
oldest_of [] r h = tt
oldest_of (item ∷ items) r h =
    let same : min_waited item.request items ≡ r = ground arith in
    let (first, others) = min_waited-le item.request items in
    subst (λ s. All (λ x. waited_since s ≤ waited_since x.request) (item ∷ items)) same
      (first, others)

-- No queued request has waited longer than the one that `oldest` answers with.
oldest-le :
    (q : RequestQueue) (r : Request)
    → oldest q ≡ some r
    → All (λ x. waited_since r ≤ waited_since x.request) q.items
unfolding oldest
oldest-le q r h = oldest_of q.items r h

key_of_id-append :
    (id : ℕ) (xs ys : List Item) (key : SortKey)
    → key_of_id id xs ≡ some key
    → key_of_id id (xs ++ ys) ≡ some key
unfolding key_of_id
key_of_id-append id [] ys key h = absurd (ground arith)
key_of_id-append id (x ∷ xs) ys key h = ground (arith, key_of_id-append id xs ys key)

count-append :
    (key : SortKey) (xs ys : List Item)
    → count_before key (xs ++ ys) ≡ count_before key xs + count_before key ys
unfolding count_before
count-append key [] ys = omega arith
count-append key (x ∷ xs) ys = omega (arith, count-append key xs ys)

In-below :
    (x : Item) (xs : List Item) (n : ℕ) → All (λ y. y.key.seq < n) xs → In x xs → x.key.seq < n
In-below x [] n a m = absurd m
In-below x (y ∷ ys) n a (inl e) = rw (← e) a.0
In-below x (y ∷ ys) n a (inr m) = In-below x ys n a.1 m

not_before :
    (now seq : ℕ) (r : Request) (prepend : Bool) (key : SortKey)
    → key.seq < seq
    → (key.rank < rank r prepend) ⊎ ((key.rank ≡ rank r prepend) × (key.enqueued_at ≤ stamp now r))
    → key_lt (item_of now seq r prepend).key key ≡ false
unfolding key_lt item_of
not_before now seq r prepend key k (inl h) = ground arith
not_before now seq r prepend key k (inr h) = ground arith

count_single : (key : SortKey) (x : Item) → key_lt x.key key ≡ false → count_before key (x ∷ []) ≡ 0
unfolding count_before
count_single key x h = ground arith

-- On a queue that satisfies its invariant, a request in a worse tier than a queued one, or in the
-- same tier and no earlier, leaves the position of the queued one as it was.
position-put_later :
    (now : ℕ) (r : Request) (prepend : Bool) (q : RequestQueue) (id : ℕ) (key : SortKey)
    → Inv q
    → key_of_id id q.items ≡ some key
    → (key.rank < rank r prepend) ⊎ ((key.rank ≡ rank r prepend) × (key.enqueued_at ≤ stamp now r))
    → position id (put now r prepend q) ≡ position id q
unfolding position put
position-put_later now r prepend q id key v e h =
    let new = item_of now q.next_seq r prepend in
    let (x, m, k, i) = key_of_id-In id q.items key e in
    let known : key.seq < q.next_seq = rw (← k) (In-below x q.items q.next_seq v.below m) in
    let behind = count_single key new (not_before now q.next_seq r prepend key known h) in
    ground (
      arith,
      key_of_id-append id q.items (new ∷ []) key e,
      count-append key q.items (new ∷ []),
      behind,
    )
