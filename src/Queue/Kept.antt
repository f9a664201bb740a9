-- ===== src/Queue/Kept.antt =====
-- mumble/util.c: what is allocated stays allocated when a node is pushed.
use lua_mumble.Base.{
  ℕ, List, Option, none, some, ◌==◌, ◌≡◌, ◌≢◌, inl, inr, arith, Bool-cases, Option-cases,
}
use lua_mumble.Queue.{QueueNode, LinkQueue, Heap, set_at, set_next, link_rear, queue_push}

set_at_kept :
    (heap : Heap) (address k : ℕ) (node : QueueNode)
    → heap k ≢ none
    → set_at heap address (some node) k ≢ none
unfolding set_at
set_at_kept heap address k node used e = elim (Bool-cases (k == address)) [
  | inl here ↦ cc (here, e)
  | inr elsewhere ↦ used (cc (elsewhere, e))
]

link_rear_kept :
    (rear : Option ℕ) (address k : ℕ) (heap after : Heap) (queue linked : LinkQueue)
    → heap k ≢ none
    → link_rear rear address heap queue ≡ some (after, linked)
    → after k ≢ none
unfolding link_rear set_next
link_rear_kept none address k heap after queue linked used e = λ missing. used (cc (e, missing))
link_rear_kept (some rear) address k heap after queue linked used e =
    elim (Option-cases (heap rear)) [
      | inl unused ↦ absurd (ground (arith, e, unused))
      | inr (node, there) ↦
          let kept = set_at_kept heap rear k (record node { next = some address }) used in
          λ missing. kept (ground (arith, e, there, missing))
    ]

pub queue_push_kept :
    (heap after : Heap) (queue pushed : LinkQueue) (address k : ℕ) (copy : List ℕ) (size : ℕ)
    → heap k ≢ none
    → queue_push heap queue address copy size ≡ some (after, pushed)
    → after k ≢ none
unfolding queue_push
queue_push_kept heap after queue pushed address k copy size used e =
    link_rear_kept queue.rear address k _ after queue pushed
      (set_at_kept heap address k (record { data_of = copy; size = size; next = none }) used) e
