-- ===== src/Queue/RequestQueue/Order.antt =====
-- request_queue.py: the order of the items, and the invariant of the queue.
use ndif.Prelude.{
  ℕ, ◌+◌, ◌<◌, ◌≡◌, ◌≢◌, Bool, true, false, List, [], ◌∷◌, ◌++◌, arith, All, All_imp, All-append,
  Bool-cases, inl, inr,
}
use ndif.Prelude.Sort.{insert, sort, sort-All, insert-All}
use ndif.Queue.RequestQueue.{Request, SortKey, Item, RequestQueue, key_lt, item_lt, put, item_of}

key_lt_trans : (a b c : SortKey) → key_lt a b ≡ true → key_lt b c ≡ true → key_lt a c ≡ true
unfolding key_lt
key_lt_trans a b c h k = ground arith

key_lt_total : (a b : SortKey) → a.seq ≢ b.seq → key_lt a b ≡ false → key_lt b a ≡ true
unfolding key_lt
key_lt_total a b n h = ground arith

pub key_lt_irrefl : (a : SortKey) → key_lt a a ≡ false
unfolding key_lt
key_lt_irrefl a = ground arith

pub key_lt_asym : (a b : SortKey) → key_lt a b ≡ true → key_lt b a ≡ false
unfolding key_lt
key_lt_asym a b h = ground arith

-- Every sequence number stands once and lies below the next one.
abbrev pub Fresh : List Item → Type 0
Fresh [] = Unit {0}
Fresh (x ∷ xs) = All (λ y. y.key.seq ≢ x.key.seq) xs × Fresh xs

pub record Inv (q : RequestQueue) : Type 0 where
  pub below : All (λ x. x.key.seq < q.next_seq) q.items
  pub fresh : Fresh q.items

-- Each item stands before those after it.
abbrev pub IsSorted : List Item → Type 0
IsSorted [] = Unit {0}
IsSorted (x ∷ xs) = All (λ y. key_lt x.key y.key ≡ true) xs × IsSorted xs

insert-IsSorted :
    (x : Item) (xs : List Item)
    → All (λ y. y.key.seq ≢ x.key.seq) xs
    → IsSorted xs
    → IsSorted (insert item_lt x xs)
unfolding insert
insert-IsSorted x [] f s = (tt, tt)
insert-IsSorted x (y ∷ ys) f s = elim (Bool-cases (item_lt y x)) [
  | inl e ↦
      rw e (
        insert-All item_lt (λ z. key_lt y.key z.key ≡ true) x ys e s.0,
        insert-IsSorted x ys f.1 s.1,
      )
  | inr e ↦
      let first : key_lt x.key y.key ≡ true = key_lt_total y.key x.key f.0 e in
      rw e (
        (
          first,
          All_imp (λ z. key_lt y.key z.key ≡ true) (λ z. key_lt x.key z.key ≡ true) ys
              (λ z h. key_lt_trans x.key y.key z.key first h) s.0,
        ),
        s,
      )
]

pub sort-IsSorted : (xs : List Item) → Fresh xs → IsSorted (sort item_lt xs)
unfolding sort
sort-IsSorted [] f = tt
sort-IsSorted (x ∷ xs) f =
    insert-IsSorted x (sort item_lt xs) (sort-All item_lt (λ y. y.key.seq ≢ x.key.seq) xs f.0)
      (sort-IsSorted xs f.1)

snoc-Fresh :
    (x : Item) (xs : List Item)
    → All (λ y. y.key.seq < x.key.seq) xs
    → Fresh xs
    → Fresh (xs ++ x ∷ [])
snoc-Fresh x [] b f = (tt, tt)
snoc-Fresh x (y ∷ ys) b f = (
  All-append (λ z. z.key.seq ≢ y.key.seq) ys (x ∷ []) f.0 (omega (arith, b.0), tt),
  snoc-Fresh x ys b.1 f.1,
)

-- After `put` as before it, the items' sequence numbers are distinct and below the next one.
pub put-Inv :
    (now : ℕ) (r : Request) (prepend : Bool) (q : RequestQueue) → Inv q → Inv (put now r prepend q)
unfolding put item_of
put-Inv now r prepend q v = record {
  below =
      All-append (λ x. x.key.seq < q.next_seq + 1) q.items (item_of now q.next_seq r prepend ∷ [])
        (All_imp (λ x. x.key.seq < q.next_seq) (λ x. x.key.seq < q.next_seq + 1) q.items
          (λ x h. omega arith) v.below)
        (omega arith, tt);
  fresh = snoc-Fresh (item_of now q.next_seq r prepend) q.items v.below v.fresh;
}
