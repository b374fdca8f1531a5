-- ===== src/Queue/RequestQueue/Service.antt =====
-- request_queue.py: the order of service.
use mathlib.Core.List.{map-append}
use ndif.Prelude.{
  ℕ, ◌≤◌, ◌<◌, ◌≡◌, refl, ap, ◌∙◌, Bool, true, some, List, [], ◌∷◌, ◌++◌, map, arith, All, All_imp,
  All_zip, ◌⊎◌, inl, inr,
}
use ndif.Prelude.Sort.{insert, sort}
use ndif.Queue.RequestQueue.{
  Request, Item, RequestQueue, key_lt, item_lt, put, item_of, rank, stamp, snapshot, request_of,
}
use ndif.Queue.RequestQueue.Order.{Inv, key_lt_asym}

insert_last :
    (x : Item) (xs : List Item)
    → All (λ y. item_lt y x ≡ true) xs
    → insert item_lt x xs ≡ xs ++ x ∷ []
unfolding insert
insert_last x [] a = refl
insert_last x (y ∷ ys) a = rw a.0 (ap (◌∷◌ y) (insert_last x ys a.1))

-- `sort` puts an item that follows all others at the end.
insert_snoc :
    (x y : Item) (xs : List Item)
    → item_lt y x ≡ true
    → insert item_lt y (xs ++ x ∷ []) ≡ insert item_lt y xs ++ x ∷ []
unfolding insert
insert_snoc x y [] h = ground (arith, key_lt_asym y.key x.key h)
insert_snoc x y (z ∷ zs) h = ground (arith, insert_snoc x y zs h)

sort_snoc :
    (x : Item) (xs : List Item)
    → All (λ y. item_lt y x ≡ true) xs
    → sort item_lt (xs ++ x ∷ []) ≡ sort item_lt xs ++ x ∷ []
unfolding sort insert
sort_snoc x [] a = refl
sort_snoc x (y ∷ ys) a = rw (sort_snoc x ys a.1) (insert_snoc x y (sort item_lt ys) a.0)

-- The item's tier and time are at most these.
abbrev pub NotAfter : ℕ → ℕ → Item → Type 0
NotAfter tier at x = (x.key.rank < tier) ⊎ ((x.key.rank ≡ tier) × (x.key.enqueued_at ≤ at))

before_new :
    (now : ℕ) (r : Request) (prepend : Bool) (seq : ℕ) (x : Item)
    → NotAfter (rank r prepend) (stamp now r) x
    → x.key.seq < seq
    → item_lt x (item_of now seq r prepend) ≡ true
unfolding key_lt item_of
before_new now r prepend seq x (inl h) k = ground arith
before_new now r prepend seq x (inr h) k = ground arith

-- On a queue that satisfies its invariant, a request that comes no earlier than any queued one of
-- its tier, with no queued one in a worse tier, is put behind all of them in the order of service.
snapshot-put_last :
    (now : ℕ) (r : Request) (prepend : Bool) (q : RequestQueue)
    → Inv q
    → All (NotAfter (rank r prepend) (stamp now r)) q.items
    → snapshot (put now r prepend q)
      ≡ snapshot q ++ record r { enqueued_at = some (stamp now r) } ∷ []
unfolding put snapshot item_of
snapshot-put_last now r prepend q v a =
    let new = item_of now q.next_seq r prepend in
    let last : All (λ y. item_lt y new ≡ true) q.items =
      All_imp (λ y. NotAfter (rank r prepend) (stamp now r) y × (y.key.seq < q.next_seq))
        (λ y. item_lt y new ≡ true) q.items (λ y p. before_new now r prepend q.next_seq y p.0 p.1)
        (All_zip (NotAfter (rank r prepend) (stamp now r)) (λ y. y.key.seq < q.next_seq) q.items a
          v.below) in
    ap (map request_of) (sort_snoc new q.items last)
    ∙ map-append request_of (sort item_lt q.items) (new ∷ [])
