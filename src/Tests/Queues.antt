-- ===== src/Tests/Queues.antt =====
-- A queue of two messages.
use lua_mumble.Base.{ℕ, ◌==◌, if◌then◌else◌, List, [], ◌∷◌, some, none, ◌≡◌, refl, arith, All}
use lua_mumble.Queue.{LinkQueue, Heap, queue_push, queue_pop, queue_free}
use lua_mumble.Queue.Chain.{Item, IsChain, IsApart, IsAway, node_of, head_of, last_of}
use lua_mumble.Queue.Fifo.{IsQueue, queue_push_lem, queue_pop_lem, queue_free_lem}

abbrev hello : Item
hello = record { address = 16; data_of = 104 ∷ 105 ∷ []; size = 2 }

abbrev bye : Item
bye = record { address = 48; data_of = 98 ∷ []; size = 1 }

abbrev heap_one : Heap
heap_one k =
    if k == 16 then some (record { data_of = 104 ∷ 105 ∷ []; size = 2; next = none }) else none

abbrev one_message : LinkQueue
one_message = record { front = some 16; rear = some 16 }

one_message-IsQueue : IsQueue heap_one one_message (hello ∷ [])
unfolding head_of last_of IsChain IsApart IsAway node_of
one_message-IsQueue = record {
  front_at = refl;
  rear_at = refl;
  chained = (refl, tt);
  apart = (tt, tt);
}

queue_push_lem_example :
    (after : Heap) × (pushed : LinkQueue) × (queue_push heap_one one_message 48 (98 ∷ []) 1
      ≡ some (after, pushed))
    × IsQueue after pushed (hello ∷ bye ∷ [])
unfolding IsAway
queue_push_lem_example =
    queue_push_lem heap_one one_message (hello ∷ []) bye one_message-IsQueue
      ((λ e. omega (arith, e)), tt)

queue_pop_lem_example :
    (IsQueue heap_one one_message [] → queue_pop heap_one one_message ≡ some (one_message, none))
    × ((item : Item) (rest : List Item)
        → IsQueue heap_one one_message (item ∷ rest)
        → (popped : LinkQueue) × (queue_pop heap_one one_message ≡ some (popped, some item.address))
          × (heap_one item.address ≡ some (node_of item (head_of rest)))
          × IsQueue heap_one popped rest)
queue_pop_lem_example = queue_pop_lem heap_one one_message

queue_free_lem_example :
    (after : Heap) × (queue_free 1 heap_one one_message ≡ some after)
    × All (λ item. after item.address ≡ none) (hello ∷ [])
    × ((k : ℕ) → IsAway k (hello ∷ []) → after k ≡ heap_one k)
queue_free_lem_example =
    queue_free_lem 1 heap_one one_message (hello ∷ []) one_message-IsQueue (omega arith)
