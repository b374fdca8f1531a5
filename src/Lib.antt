-- ===== src/Lib.antt =====
-- ndif serves models on a cluster of GPU nodes: requests wait in a queue for each model, and the
-- controller keeps the books of the nodes and decides where replicas go; a user's block runs in a
-- sandbox that talks to its model over a socket. This library models the queue, the workers that serve
-- it, the placement of replicas, the schedule of pinned models and the protocol of the sandbox.
--
-- Parts and files:
--   Evaluator     src/ndif/services/ray/deployments/controller/cluster/evaluator.py: sizes, the memo
--                 of checkpoints (`entry` is `_entry`, `size_of` is `__call__`), `tp_degree`, `max_tp`
--                 and `actor_class`; Evaluator/Degree, Sizing and Split have the theorems.
--   Cluster       src/ndif/services/ray/deployments/controller/cluster:
--     Resources   node.py, GPU, GPUResources and CPUResources.
--     Deployment  deployment.py, the fields of a replica and `cacheable`.
--     Replicas    node.py, the nested dicts `deployments` (HOT) and `cache` (WARM), with the accesses
--                 that the code makes.
--     Node        node.py, `find_cache_evictions`, `evict` (in its two branches) and `deploy`, with the
--                 invariant in Node/Invariant.
--     Placement   node.py, `evictable`, `find_evictions` and `evaluate`.
--     Placing     `deploy` on a candidate of `evaluate`.
--     Cluster     cluster.py, `update_nodes`; `deploy` in Cluster/Cluster/Deploying; `evict`
--                 (`evict_replicas`) in Cluster/Cluster/Evicting. The answers are those of
--                 src/ndif/common/schema/controller.py.
--   Queue         src/ndif/services/api/queue:
--     RequestQueue  request_queue.py.
--     Processor     processor.py and replica.py: the handlers; starting, scaling, reconciling and the
--                 events together in Queue/Processor/Events. Held says where a request is, and
--                 Purging and Completing have what `purge` does to it.
--     Dispatcher    dispatcher.py: `dispatch`, `purge` (`purge_next`), `handle_errors`, `_kill` and
--                 `_handle_reconcile` over the dict of processors.
--   Controller    src/ndif/services/ray/deployments/controller/controller.py: the records, `build` and
--                 `_remove_deployment_from_state` (`remove_deployment`):
--     Tracking    the dict `self.state`.
--     Applying    `apply`; a failure in `_monitor_deployment` is a later `remove_deployment`.
--     Requests    `_deploy`, `live`, `_like_existing`, `scale`, `evict` and `get_deployment`.
--     Building, Visits, Settled, Mirror, Synced, Removal, Homes, Applied and Growth have the theorems.
--   Sandbox       src/ndif/services/ray/sandbox/protocol.py:
--     Bytes       the words of `struct`, and lemmas on byte lists.
--     Framing     `send_frame`, `recv_frame` and `recvn` over the pieces that the socket delivers.
--     Text        UTF-8, as Python's `str.encode` and `bytes.decode` have it, for the codec above it.
--     Codec       `encode`, `decode`, `pack` and `unpack`.
--     Channel     `send` and `recv` of one value, and conversations of several.
--     Fanout      `Fanout.recv` and `signature_of`.
--   Schedule      src/ndif/services/dashboard/backend/schedule_store.py: each operation of the store is
--                 a function on the raw entries (`list_events` is `list`, and so on); Schedule/Store has
--                 the theorems.
--   Reconcile     src/ndif/services/dashboard/jobs/reconcile.py: `_reconcile_locked`, in the steps
--                 `decide`, `act` and `deploy_step`; Plan and Passes have the theorems.
--   ValueCache    src/ndif/services/dashboard/backend/cache_store.py: `_bump` (`bump`) and `add_many`.
--   Tests         concrete nodes, clusters, queues, evaluators and messages on which the theorems are applied.
--   Prelude       shared lists, dicts, sorting, signed integers and exceptions as values.
--
-- How the parts interact: `Cluster.deploy` asks the evaluator for sizes and degrees, has each node
-- `evaluate` a candidate, keeps the best, and calls `deploy` on the chosen node, which evicts what the
-- candidate names and books the cards. `IsSound` is what a candidate promises to `deploy`.
--
-- The controller's `build` compares its `state` with what the nodes have after `Cluster.deploy` or
-- `Cluster.evict`, and `apply` turns the difference into operations on actors. `Synced` says that state
-- and nodes agree and that the nodes' books are balanced.
--
-- The dispatcher hands each request to its model's processor, purges the processors when Ray is lost, and
-- has them adopt the replicas that the controller placed. A reconcile pass reads the events of the
-- schedule that are active and asks the controller for the difference.
--
-- How state is modelled: a method that changes `self` is a function from the old state to the new
-- one, in `Result` where it can raise. After an exception the model has no state; in the code the
-- writes made before it stay.
--
-- Choices:
--   - Model keys, ids, dtypes and actor classes are numbers; only their equality matters, and their
--     order where `Cluster.evict` sorts ids.
--   - Memory that is left is an integer, since nothing in the code keeps it from going below zero.
--   - The padding factor and the share of the CPU cache are exact fractions in place of floats.
--   - Time is in whole ticks, and one call sees one time; `now - deployed < minimum` is written with
--     the subtraction on the other side.
--   - A dict is its list of entries in insertion order. The order in which a set is listed, a random
--     choice, a fresh id, the Hub's answers and the classes' attributes are parameters (`World`,
--     `Hub`); `IsWorld` names what is relied on: a listing is a rearrangement, a choice is one of the
--     candidates, a fresh id is used by no replica.
--   - The heap of the queue is the bag of its items: `get` takes the least, as `heappop`
--     does of a valid heap; that `remove` restores the heap is not shown.
--   - `first_divisor` counts the rounds of the range that it runs through; `drain` bounds the rounds of
--     the loop of `Cluster.evict`, and two are enough.
--   - A HOT replica on a card that the node lacks would be a KeyError in `find_evictions`; the
--     invariant rules it out, and the model does not raise it.
--   - The code of a processor between two awaits is one event, and the events come in any order, also
--     in orders that the scheduler would not produce. `Replica` objects stand in a store under numbers,
--     since a worker outlives the pool's entry for it. A worker that finished its request replied
--     `completed` through its actor. The messages and the polling in `wait` are left out.
--   - The dispatcher is its dict of processors, to which its handlers and the events of each processor
--     happen in any order. The errors that `handle_errors` drains are given to it. A kill answers the
--     executing request; how the dispatch then ends is a later event.
--   - `replies` has the calls of `arespond`. Where one raises, a purge is abandoned, and a dispatch that
--     fails ends its worker as one that is interrupted does.
--   - A purge goes from await to await, with any events in between; so a request that comes before it clears
--     the queue can be cleared unanswered. Purges of one processor may overlap: `start` and the
--     dispatcher each run their own. The broadcasts of `reply` that are not a purge's are one event each,
--     since they only add replies that are not final.
--
--   - What Ray answers to the controller is a `Ray`: which operations get a future or a handle, and
--     which awaited ones fail. A node stands in the delta by its id in place of its name.
--   - A socket is what is still to arrive, in the pieces that calls of `recv` see; it is `Live` if no
--     piece is empty. The loop of `recvn` gets `n` rounds of fuel, enough since each round appends a byte
--     or raises. `torch.save` and `torch.load` are a `Torch`, and `Rebuilds` states that loading gives
--     back what was saved, moved to the receiver's place. A `str` is its code points.
--   - `Fanout.recv` is given what each channel would give and which sockets are readable in each round
--     before the deadline; the texts of its errors are left out.
--
--   - What the controller answers to a reconcile pass is a `Client`. The lock keeps other
--     passes out; a write of the schedule in the middle of a pass is left out. A deploy's spec is the event that it is
--     made of. A file of the schedule is its list of entries; an entry whose window or key is bad makes
--     `list` raise.
--
-- Not modelled: Ray's actors and their calls, names and logging, `get_state` and `Node.purge`, HTTP,
-- what the dispatcher reads from and writes to Redis, the controller's start and its loops, the rest of
-- the dashboard, the sandbox's processes and the model actors.
pub mod Prelude
pub mod Evaluator
pub mod Cluster
pub mod Queue
pub mod Controller
pub mod Sandbox
pub mod Schedule
pub mod Reconcile
pub mod ValueCache
pub mod Tests
