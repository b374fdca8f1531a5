-- ===== src/Queue/Processor/Held.antt =====
-- services/api/queue/processor.py: where a request is, from the call of `enqueue` to its answer.
use ndif.Prelude.{
  ℕ, ◌<◌, ◌≡◌, refl, sym, ap, ◌∙◌, Bool, true, false, ◌&&◌, ◌||◌, none, some, List, [], ◌∷◌, ◌++◌,
  All, ◌==◌, arith,
}
use ndif.Prelude.Dict.{Dict, lookup, set}
use ndif.Prelude.Sort.{sort, insert, extract_min, sort-extract_min}
use ndif.Queue.RequestQueue.{Request, Item, item_lt}
use ndif.Queue.Processor.{
  Processor, Replica, ObjectId, Status, error, completed, respond, respond_all,
}

unfoldable pub in_items : ℕ → List Item → Bool
in_items id [] = false
in_items id (x ∷ xs) = x.request.id == id || in_items id xs

abbrev pub holds : ℕ → Replica → Bool
holds id r = elim r.current_request [ none ↦ false | some request ↦ request.id == id ]

unfoldable pub in_objects : ℕ → Dict Replica → Bool
in_objects id [] = false
in_objects id ((o, r) ∷ objects) = holds id r || in_objects id objects

abbrev pub is_final : Status → Bool
is_final completed = true
is_final error = true
is_final _ = false

unfoldable pub settled : ℕ → List (ℕ × Status) → Bool
settled id [] = false
settled id ((i, s) ∷ replies) = i == id && is_final s || settled id replies

-- A request of this id waits, is in a worker's hand, or has its answer.
abbrev pub held : ℕ → Processor → Bool
held id p = in_items id p.queue.items || (in_objects id p.objects || settled id p.replies)

-- No object stands where the next one will.
abbrev pub Bounded : Processor → Type 0
Bounded p = All (λ e. e.0 < p.next_object) p.objects

-- No request is lost from one state to the other.
abbrev pub Safe : Processor → Processor → Type 0
Safe p p' = Bounded p → Bounded p' × ((id : ℕ) → held id p ≡ true → held id p' ≡ true)

pub Safe-refl : (p : Processor) → Safe p p
Safe-refl p b = (b, λ id h. h)

pub Safe-trans : (p q r : Processor) → Safe p q → Safe q r → Safe p r
Safe-trans p q r f g b = let (c, k) = f b in let (d, l) = g c in (d, λ id h. l id (k id h))

pub in_items-append :
    (id : ℕ) (xs ys : List Item) → in_items id (xs ++ ys) ≡ (in_items id xs || in_items id ys)
unfolding in_items
in_items-append id [] ys = refl
in_items-append id (x ∷ xs) ys = ground (arith, in_items-append id xs ys)

in_items-insert :
    (id : ℕ) (x : Item) (xs : List Item)
    → in_items id (insert item_lt x xs) ≡ (x.request.id == id || in_items id xs)
unfolding in_items insert
in_items-insert id x [] = refl
in_items-insert id x (y ∷ ys) = ground (arith, in_items-insert id x ys)

pub in_items-sort : (id : ℕ) (xs : List Item) → in_items id (sort item_lt xs) ≡ in_items id xs
unfolding in_items sort
in_items-sort id [] = refl
in_items-sort id (x ∷ xs) =
    ground (arith, in_items-insert id x (sort item_lt xs), in_items-sort id xs)

-- What `get` takes out was there, and the rest stays.
pub in_items-extract_min :
    (id : ℕ) (xs : List Item) (m : Item) (rest : List Item)
    → extract_min item_lt xs ≡ some (m, rest)
    → in_items id xs ≡ (m.request.id == id || in_items id rest)
unfolding in_items
in_items-extract_min id xs m rest h =
    sym (in_items-sort id xs)
    ∙ (ap (in_items id) (sort-extract_min item_lt xs h) ∙ ground (arith, in_items-sort id rest))

pub set-old :
    (id : ℕ) (o : ObjectId) (r r' : Replica) (d : Dict Replica)
    → lookup o d ≡ some r
    → in_objects id d ≡ true
    → (in_objects id (set o r' d) || holds id r) ≡ true
unfolding in_objects set lookup
set-old id o r r' [] e h = absurd (ground arith)
set-old id o r r' ((i, x) ∷ d) e h = ground (arith, set-old id o r r' d)

pub set-new :
    (id : ℕ) (o : ObjectId) (r : Replica) (d : Dict Replica)
    → All (λ e. e.0 < o) d
    → in_objects id d ≡ true
    → in_objects id (set o r d) ≡ true
unfolding in_objects set
set-new id o r [] b h = absurd (ground arith)
set-new id o r ((i, x) ∷ d) b h = ground (arith, set-new id o r d b.1, b.0)

pub set-holds :
    (id : ℕ) (o : ObjectId) (r : Replica) (d : Dict Replica)
    → holds id r ≡ true
    → in_objects id (set o r d) ≡ true
unfolding in_objects set
set-holds id o r [] h = ground arith
set-holds id o r ((i, x) ∷ d) h = ground (arith, set-holds id o r d h)

-- An object that is there is written in place.
pub set-bound :
    (o n : ObjectId) (r r' : Replica) (d : Dict Replica)
    → lookup o d ≡ some r
    → All (λ e. e.0 < n) d
    → All (λ e. e.0 < n) (set o r' d)
unfolding lookup set
set-bound o n r r' [] e b = absurd (ground arith)
set-bound o n r r' ((i, x) ∷ d) e b = ground (arith, set-bound o n r r' d, b)

-- Replies are only added.
settled-more :
    (id i : ℕ) (st : Status) (replies : List (ℕ × Status))
    → settled id replies ≡ true
    → settled id ((i, st) ∷ replies) ≡ true
unfolding settled
settled-more id i st replies h = ground arith

pub respond-Safe : (i : ℕ) (st : Status) (p : Processor) → Safe p (respond i st p)
unfolding settled
respond-Safe i st p b = (b, λ id h. ground arith)

pub respond_all-Safe :
    (rs : List Request) (st : Status) (p : Processor) → Safe p (respond_all rs st p)
unfolding respond_all
respond_all-Safe [] st p = Safe-refl p
respond_all-Safe (r ∷ rs) st p =
    Safe-trans p (respond r.id st p) (respond_all (r ∷ rs) st p) (respond-Safe r.id st p)
      (respond_all-Safe rs st (respond r.id st p))
