-- ===== src/Queue/Fifo.antt =====
-- mumble/util.c: the queue in the heap is the list of its messages, oldest first.
use lua_mumble.Base.{
  ℕ, zero, suc, ◌≤◌, List, [], ◌∷◌, ◌++◌, none, some, ◌≡◌, ◌≢◌, refl, sym, ◌∙◌, ap, arith, All,
  length, ◌>>=◌,
}
use lua_mumble.Queue.{
  LinkQueue, Heap, set_at, set_next, link_rear, queue_push, queue_pop, queue_free, queue_new,
  pop_front, moved, free_nodes,
}
use lua_mumble.Queue.Chain.{
  Item, IsChain, IsApart, IsAway, IsChain-set_at, set_at_other, set_at_same, head_of, last_of,
  node_of,
}

last-away :
    (address r : ℕ) (items : List Item)
    → IsAway address items
    → last_of items ≡ some r
    → r ≢ address
unfolding IsAway last_of
last-away address r [] away e = absurd (ground (arith, e))
last-away address r (item ∷ []) (n, away) e = ground (arith, n, e)
last-away address r (item ∷ second ∷ rest) (n, away) e = last-away address r (second ∷ rest) away e

-- The last node now leads to a new one, and nothing else changes.
link :
    (heap : Heap) (r : ℕ) (new : Item) (items : List Item)
    → last_of items ≡ some r
    → IsApart items
    → IsAway new.address items
    → IsChain heap items
    → heap new.address ≡ some (node_of new none)
    → (linked : Heap) × (set_next heap r new.address ≡ some linked)
      × ((k : ℕ) → k ≢ r → linked k ≡ heap k)
      × IsChain linked (items ++ new ∷ [])
unfolding set_next last_of IsApart IsAway IsChain node_of head_of
link heap r new [] last apart away chain at_new = absurd (ground (arith, last))
link heap r new (item ∷ []) last apart (n, away) (here, chain) at_new =
    let same : r ≡ item.address = ground (arith, last) in
    (
      set_at heap r (some (node_of item (some new.address))),
      rw same (rw here refl),
      λ k m. set_at_other heap r _ k m,
      (
        ap (set_at heap r (some (node_of item (some new.address)))) (sym same)
            ∙ set_at_same heap r _,
        (set_at_other heap r _ new.address (λ e. n (sym same ∙ sym e)) ∙ at_new, tt),
      ),
    )
link heap r new (item ∷ second ∷ rest) last (apart, others) (n, away) (here, chain) at_new =
    let (linked, e, frame, chained) =
      link heap r new (second ∷ rest) last others away chain at_new in
    (
      linked,
      e,
      frame,
      (
        frame item.address (λ same. last-away item.address r (second ∷ rest) apart last (sym same))
            ∙ here,
        chained,
      ),
    )

-- The queue holds the items, at addresses of their own.
pub record IsQueue (heap : Heap) (queue : LinkQueue) (items : List Item) : Type 0 where
  pub front_at : queue.front ≡ head_of items
  pub rear_at : queue.rear ≡ last_of items
  pub chained : IsChain heap items
  pub apart : IsApart items

head_of-append :
    (items : List Item) (new : Item) → items ≢ [] → head_of (items ++ new ∷ []) ≡ head_of items
unfolding head_of
head_of-append [] new n = absurd (n refl)
head_of-append (item ∷ rest) new n = refl

last_of-append : (items : List Item) (new : Item) → last_of (items ++ new ∷ []) ≡ some new.address
unfolding last_of
last_of-append [] new = refl
last_of-append (item ∷ []) new = refl
last_of-append (item ∷ second ∷ rest) new = last_of-append (second ∷ rest) new

pub IsAway-append :
    (address : ℕ) (items : List Item) (new : Item)
    → IsAway address items
    → new.address ≢ address
    → IsAway address (items ++ new ∷ [])
unfolding IsAway
IsAway-append address [] new away n = (n, tt)
IsAway-append address (item ∷ rest) new (m, away) n = (m, IsAway-append address rest new away n)

IsApart-append :
    (items : List Item) (new : Item)
    → IsApart items
    → IsAway new.address items
    → IsApart (items ++ new ∷ [])
unfolding IsApart IsAway
IsApart-append [] new apart away = (tt, tt)
IsApart-append (item ∷ rest) new (apart, others) (n, away) = (
  IsAway-append item.address rest new apart (λ e. n (sym e)),
  IsApart-append rest new others away,
)

pub queue_new_lem : (heap : Heap) → IsQueue heap queue_new []
unfolding queue_new head_of last_of IsChain IsApart
queue_new_lem heap = record { front_at = refl; rear_at = refl; chained = tt; apart = tt }

last_some : (item : Item) (rest : List Item) → (r : ℕ) × (last_of (item ∷ rest) ≡ some r)
unfolding last_of
last_some item [] = (item.address, refl)
last_some item (second ∷ rest) = last_some second rest

-- The node is in the heap when it is linked.
pushed_on :
    (heap : Heap) (queue : LinkQueue) (items : List Item) (new : Item)
    → IsQueue heap queue items
    → IsAway new.address items
    → heap new.address ≡ some (node_of new none)
    → (after : Heap) × (pushed : LinkQueue) × (link_rear queue.rear new.address heap queue
        ≡ some (after, pushed))
      × IsQueue after pushed (items ++ new ∷ [])
unfolding link_rear last_of head_of IsChain IsApart IsAway
pushed_on heap queue [] new h away at_new = (
  heap,
  record { front = some new.address; rear = some new.address },
  ap (λ o. link_rear o new.address heap queue) h.rear_at,
  record { front_at = refl; rear_at = refl; chained = (at_new, tt); apart = (tt, tt) },
)
pushed_on heap queue (item ∷ rest) new h away at_new =
    let (r, last) = last_some item rest in
    let (linked, e, frame, chained) =
      link heap r new (item ∷ rest) last h.apart away h.chained at_new in
    (
      linked,
      record queue { rear = some new.address },
      ap (λ o. link_rear o new.address heap queue) (h.rear_at ∙ last)
          ∙ ap (λ o. o >>= λ l. some (l, record queue { rear = some new.address })) e,
      record {
        front_at = h.front_at;
        rear_at = sym (last_of-append (item ∷ rest) new);
        chained = chained;
        apart = IsApart-append (item ∷ rest) new h.apart away;
      },
    )

-- `queue_push` puts a message at the end of the queue's messages, for a node at a new address.
pub queue_push_lem :
    (heap : Heap) (queue : LinkQueue) (items : List Item) (new : Item)
    → IsQueue heap queue items
    → IsAway new.address items
    → (after : Heap) × (pushed : LinkQueue) × (queue_push heap queue new.address new.data_of
          new.size
        ≡ some (after, pushed))
      × IsQueue after pushed (items ++ new ∷ [])
unfolding queue_push node_of
queue_push_lem heap queue items new h away =
    let with_new = set_at heap new.address (some (node_of new none)) in
    pushed_on with_new queue items new
      (record {
        front_at = h.front_at;
        rear_at = h.rear_at;
        chained = IsChain-set_at heap new.address _ items away h.chained;
        apart = h.apart;
      })
      away (set_at_same heap new.address _)

moved_lem :
    (heap : Heap) (queue : LinkQueue) (item : Item) (rest : List Item)
    → IsQueue heap queue (item ∷ rest)
    → IsQueue heap (moved (head_of rest) queue) rest
unfolding moved head_of last_of IsChain IsApart
moved_lem heap queue item [] h = record {
  front_at = refl;
  rear_at = refl;
  chained = tt;
  apart = tt;
}
moved_lem heap queue item (second ∷ rest) h = record {
  front_at = refl;
  rear_at = h.rear_at;
  chained = h.chained.1;
  apart = h.apart.1;
}

-- `queue_pop` gives the node of the oldest message, with its data, and leaves the others; on an empty
-- queue it gives nothing and changes nothing.
pub queue_pop_lem :
    (heap : Heap) (queue : LinkQueue)
    → (IsQueue heap queue [] → queue_pop heap queue ≡ some (queue, none))
      × ((item : Item) (rest : List Item)
          → IsQueue heap queue (item ∷ rest)
          → (popped : LinkQueue) × (queue_pop heap queue ≡ some (popped, some item.address))
            × (heap item.address ≡ some (node_of item (head_of rest)))
            × IsQueue heap popped rest)
unfolding queue_pop pop_front head_of IsChain node_of
queue_pop_lem heap queue = (
  λ h. ap (λ o. pop_front o heap queue) h.front_at,
  λ item rest h. (
    moved (head_of rest) queue,
    ap (λ o. pop_front o heap queue) h.front_at
        ∙ ap (λ o. o >>= λ content. some (moved content.next queue, some item.address)) h.chained.0,
    h.chained.0,
    moved_lem heap queue item rest h,
  ),
)

free_nodes_lem :
    (fuel : ℕ) (heap : Heap) (items : List Item)
    → IsChain heap items
    → IsApart items
    → length items ≤ fuel
    → (after : Heap) × (free_nodes fuel (head_of items) heap ≡ some after)
      × All (λ item. after item.address ≡ none) items
      × ((k : ℕ) → IsAway k items → after k ≡ heap k)
unfolding free_nodes head_of IsChain IsApart IsAway node_of
free_nodes_lem zero heap [] chain apart enough = (heap, refl, tt, λ k away. refl)
free_nodes_lem (suc fuel) heap [] chain apart enough = (heap, refl, tt, λ k away. refl)
free_nodes_lem zero heap (item ∷ rest) chain apart enough = absurd (omega (arith, enough))
free_nodes_lem (suc fuel) heap (item ∷ rest) (here, chain) (apart, others) enough =
    let freed = set_at heap item.address none in
    let (after, e, all_freed, frame) =
      free_nodes_lem fuel freed rest (IsChain-set_at heap item.address none rest apart chain) others
        (omega (arith, enough)) in
    (
      after,
      ap (λ o. o >>= λ content. free_nodes fuel content.next freed) here ∙ e,
      (frame item.address apart ∙ set_at_same heap item.address none, all_freed),
      λ k (n, away). frame k away ∙ set_at_other heap item.address none k (λ same. n (sym same)),
    )

-- `queue_free` ends within as many rounds as there are messages: their nodes are no longer allocated,
-- and nothing else changes.
pub queue_free_lem :
    (fuel : ℕ) (heap : Heap) (queue : LinkQueue) (items : List Item)
    → IsQueue heap queue items
    → length items ≤ fuel
    → (after : Heap) × (queue_free fuel heap queue ≡ some after)
      × All (λ item. after item.address ≡ none) items
      × ((k : ℕ) → IsAway k items → after k ≡ heap k)
unfolding queue_free
queue_free_lem fuel heap queue items h enough =
    let (after, e, freed, frame) = free_nodes_lem fuel heap items h.chained h.apart enough in
    (after, ap (λ o. free_nodes fuel o heap) h.front_at ∙ e, freed, frame)
