-- ===== src/Queue.antt =====
-- mumble/util.c: the message queue that a thread's worker and its controller hand over. A pointer is an
-- address of the heap, or `none` for NULL; `malloc` gives an address that is not in use, which is an
-- argument. `none` as a result stands for an access to memory that is not allocated.
pub mod Chain
pub mod Fifo
pub mod Kept
use lua_mumble.Base.{
  ℕ, zero, suc, List, Option, none, some, ◌==◌, if◌then◌else◌, Bool, true, false, ◌>>=◌,
}

-- `data_of` are the bytes that `data` points to.
pub record QueueNode : Type 0 where
  pub data_of : List ℕ
  pub size : ℕ
  pub next : Option ℕ

pub record LinkQueue : Type 0 where
  pub front : Option ℕ
  pub rear : Option ℕ

abbrev pub Heap : Type 0
Heap = ℕ → Option QueueNode

unfoldable pub set_at : Heap → ℕ → Option QueueNode → Heap
set_at heap address node k = if k == address then node else heap k

unfoldable pub queue_new : LinkQueue
queue_new = record { front = none; rear = none }

-- `rear->next = node`.
unfoldable pub set_next : Heap → ℕ → ℕ → Option Heap
unfolding set_at
set_next heap address next =
    heap address >>= λ node. some (set_at heap address (some (record node { next = some next })))

unfoldable pub link_rear : Option ℕ → ℕ → Heap → LinkQueue → Option (Heap × LinkQueue)
unfolding set_next
link_rear none node heap queue = some (heap, record { front = some node; rear = some node })
link_rear (some rear) node heap queue =
    set_next heap rear node >>= λ linked. some (linked, record queue { rear = some node })

unfoldable pub queue_push : Heap → LinkQueue → ℕ → List ℕ → ℕ → Option (Heap × LinkQueue)
unfolding link_rear set_at
queue_push heap queue node data_of size =
    link_rear queue.rear node
      (set_at heap node (some (record { data_of = data_of; size = size; next = none }))) queue

-- An empty queue has no rear either.
unfoldable pub moved : Option ℕ → LinkQueue → LinkQueue
moved none queue = record { front = none; rear = none }
moved (some next) queue = record queue { front = some next }

unfoldable pub pop_front : Option ℕ → Heap → LinkQueue → Option (LinkQueue × Option ℕ)
unfolding moved
pop_front none heap queue = some (queue, none)
pop_front (some front) heap queue = heap front >>= λ node. some (moved node.next queue, some front)

-- The node is not freed: the caller does that.
unfoldable pub queue_pop : Heap → LinkQueue → Option (LinkQueue × Option ℕ)
unfolding pop_front
queue_pop heap queue = pop_front queue.front heap queue

-- The loop of `queue_free`, with the number of rounds it may take.
unfoldable pub free_nodes : ℕ → Option ℕ → Heap → Option Heap
unfolding set_at
free_nodes fuel none heap = some heap
free_nodes zero (some node) heap = none
free_nodes (suc fuel) (some node) heap =
    heap node >>= λ freed. free_nodes fuel freed.next (set_at heap node none)

pub queue_free : ℕ → Heap → LinkQueue → Option Heap
unfolding free_nodes
queue_free fuel heap queue = free_nodes fuel queue.front heap
