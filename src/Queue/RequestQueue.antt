-- ===== src/Queue/RequestQueue.antt =====
-- services/api/queue/request_queue.py: FIFO within two priority groups. The heap of
-- `asyncio.PriorityQueue` is the bag of its items, here in order of arrival; only ties between
-- requests of one id or one time could tell the orders apart.
pub mod Order
pub mod Service
pub mod Position
use ndif.Prelude.{
  ℕ, suc, ◌+◌, ◌*◌, Bool, true, false, ◌&&◌, ◌||◌, Option, none, some, List, [], ◌∷◌, ◌++◌, map,
  length, ltb, ◌==◌, if◌then◌else◌,
}
use ndif.Prelude.Sort.{sort, extract_min}

-- What the queue reads of a `BackendRequestModel`. Time is in whole ticks.
pub record Request : Type 0 where
  pub id : ℕ
  pub priority : Bool
  pub enqueued_at : Option ℕ

pub record SortKey : Type 0 where
  pub rank : ℕ
  pub enqueued_at : ℕ
  pub seq : ℕ

-- Python's order of tuples.
unfoldable pub key_lt : SortKey → SortKey → Bool
key_lt a b =
    ltb a.rank b.rank
    || (a.rank == b.rank
        && (ltb a.enqueued_at b.enqueued_at || (a.enqueued_at == b.enqueued_at && ltb a.seq b.seq)))

pub record Item : Type 0 where
  pub key : SortKey
  pub request : Request

abbrev pub item_lt : Item → Item → Bool
item_lt a b = key_lt a.key b.key

-- `next_seq` is what `itertools.count()` gives next.
pub record RequestQueue : Type 0 where
  pub items : List Item
  pub next_seq : ℕ

abbrev pub empty_queue : RequestQueue
empty_queue = record { items = []; next_seq = 0 }

unfoldable pub rank : Request → Bool → ℕ
rank request prepend = (if request.priority then 0 else 1) * 2 + (if prepend then 0 else 1)

-- A request without a time is stamped.
unfoldable pub stamp : ℕ → Request → ℕ
stamp now request = elim request.enqueued_at [ none ↦ now | some at ↦ at ]

unfoldable pub item_of : ℕ → ℕ → Request → Bool → Item
unfolding rank stamp
item_of now seq request prepend = record {
  key = record { rank = rank request prepend; enqueued_at = stamp now request; seq = seq };
  request = record request { enqueued_at = some (stamp now request) };
}

unfoldable pub put : ℕ → Request → Bool → RequestQueue → RequestQueue
put now request prepend q = record {
  items = q.items ++ item_of now q.next_seq request prepend ∷ [];
  next_seq = q.next_seq + 1;
}

-- `none` where the caller would wait.
unfoldable pub get : RequestQueue → Option (Request × RequestQueue)
get q = elim (extract_min item_lt q.items) [
  | none ↦ none
  | some (item, rest) ↦ some (item.request, record q { items = rest })
]

abbrev pub qsize : RequestQueue → ℕ
qsize q = length q.items

abbrev pub request_of : Item → Request
request_of item = item.request

unfoldable pub snapshot : RequestQueue → List Request
snapshot q = map request_of (sort item_lt q.items)

-- A missing time counts as 0.0.
abbrev pub waited_since : Request → ℕ
waited_since request = elim request.enqueued_at [ none ↦ 0 | some at ↦ at ]

-- `min(...)` by time: the first of the least.
unfoldable pub min_waited : Request → List Item → Request
min_waited best [] = best
min_waited best (item ∷ items) =
    min_waited (if ltb (waited_since item.request) (waited_since best) then item.request else best)
      items

abbrev pub oldest_item : List Item → Option Request
oldest_item [] = none
oldest_item (item ∷ items) = some (min_waited item.request items)

unfoldable pub oldest : RequestQueue → Option Request
oldest q = oldest_item q.items

unfoldable pub key_of_id : ℕ → List Item → Option SortKey
key_of_id id [] = none
key_of_id id (item ∷ items) = if item.request.id == id then some item.key else key_of_id id items

unfoldable pub count_before : SortKey → List Item → ℕ
count_before key [] = 0
count_before key (item ∷ items) = (if key_lt item.key key then 1 else 0) + count_before key items

unfoldable pub position : ℕ → RequestQueue → Option ℕ
position id q = elim (key_of_id id q.items) [
  | none ↦ none
  | some key ↦ some (1 + count_before key q.items)
]

unfoldable pub remove_item : ℕ → List Item → Option (Item × List Item)
remove_item id [] = none
remove_item id (item ∷ items) =
    let rest = remove_item id items in
    if item.request.id == id
    then some (item, items)
    else elim rest [ none ↦ none | some (found, others) ↦ some (found, item ∷ others) ]

unfoldable pub remove : ℕ → RequestQueue → Option Request × RequestQueue
remove id q = elim (remove_item id q.items) [
  | none ↦ (none, q)
  | some (found, items) ↦ (some found.request, record q { items = items })
]

unfoldable pub clear : RequestQueue → RequestQueue
clear q = record q { items = [] }
