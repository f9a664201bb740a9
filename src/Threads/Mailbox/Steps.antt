-- ===== src/Threads/Mailbox/Steps.antt =====
-- mumble/thread.c: what one step of an end does to its messages.
use lua_mumble.Base.{
  ℕ, List, [], ◌∷◌, ◌++◌, Option, none, some, true, ◌>>=◌, load, length, ◌≡◌, refl, sym, ap, ◌∙◌,
  arith,
}
use mathlib.Core.List.{append_assoc}
use mathlib.Core.Path.{subst}
use lua_mumble.Strndup.{IsText, strndup_text, strndup_load, load_all, strndup}
use lua_mumble.Buffer.{buffer_length}
use lua_mumble.Queue.{QueueNode, LinkQueue, Heap, queue_push, queue_pop}
use lua_mumble.Queue.Kept.{queue_push_kept}
use lua_mumble.Queue.Chain.{Item, IsChain, IsApart, head_of, node_of, IsChain-set_at}
use lua_mumble.Queue.Fifo.{IsAway-append, queue_new_lem, queue_push_lem, queue_pop_lem}
use lua_mumble.Threads.Mailbox.{
  Phase, idle, testing, calling, MessageCall, Mailbox, new_mailbox, Argument, string, buffer,
  no_message, sent, send, post, take_message, take_from, finish_call, wake, start_phase,
}
use lua_mumble.Threads.Mailbox.Fifo.{
  bytes_of, texts, item_of, items_of, waiting_texts, InHand, IsFifo, items_of-append,
  waiting_texts-append, texts-append, IsChain-IsAway,
}

InHand-post :
    (phase : Phase) (heap after : Heap) (queue pushed : LinkQueue) (waiting : List (ℕ × List ℕ))
    (address : ℕ) (bytes copy : List ℕ) (size : ℕ)
    → InHand phase heap (items_of waiting)
    → heap address ≡ none
    → queue_push heap queue address copy size ≡ some (after, pushed)
    → InHand phase after (items_of (waiting ++ (address, bytes) ∷ []))
unfolding InHand item_of
InHand-post idle heap after queue pushed waiting address bytes copy size h unused e = tt
InHand-post testing heap after queue pushed waiting address bytes copy size h unused e = tt
InHand-post (calling k) heap after queue pushed waiting address bytes copy size (away, used) unused
      e =
    (
      rw (items_of-append waiting (address, bytes)) (
          IsAway-append k (items_of waiting) (item_of (address, bytes)) away
            (λ same. used (ap heap (sym same) ∙ unused))),
      queue_push_kept heap after queue pushed address k copy size used e,
    )

-- A push of the copy of a text.
post_lem :
    (log : List (List ℕ)) (box : Mailbox) (waiting : List (ℕ × List ℕ)) (address : ℕ)
    (bytes : List ℕ)
    → IsFifo log box waiting
    → box.heap address ≡ none
    → (box' : Mailbox) × (post address bytes (length bytes) box ≡ some box')
      × IsFifo (log ++ bytes ∷ []) box' (waiting ++ (address, bytes) ∷ [])
unfolding post item_of
post_lem log box waiting address bytes h unused =
    let (after, pushed, e, fifo) =
      queue_push_lem box.heap box.queue (items_of waiting) (item_of (address, bytes)) h.queued
        (IsChain-IsAway box.heap address (items_of waiting) unused h.queued.chained) in
    (
      record box { heap = after; queue = pushed; pending = true },
      rw e refl,
      record {
        queued = rw (items_of-append waiting (address, bytes)) fifo;
        order =
            ap (λ more. texts box.calls ++ more) (waiting_texts-append waiting address bytes)
            ∙ sym (append_assoc (texts box.calls) (waiting_texts waiting) (bytes ∷ []))
            ∙ ap (λ l. l ++ bytes ∷ []) h.order;
        in_hand =
            InHand-post box.phase box.heap after box.queue pushed waiting address bytes
              (bytes ++ 0 ∷ []) (length bytes) h.in_hand unused e;
      },
    )

pub sent_same :
    (o : Option Mailbox) (after box' : Mailbox)
    → o ≡ some after
    → (o >>= λ p. some (sent p)) ≡ some (sent box')
    → after ≡ box'
sent_same none after box' e done = absurd (ground (arith, e))
sent_same (some p) after box' e done = ground (arith, e, done)

-- The steps keep the invariant.
pub send_lem :
    (log : List (List ℕ)) (box box' : Mailbox) (waiting : List (ℕ × List ℕ)) (address : ℕ)
    (argument : Argument) (bytes : List ℕ)
    → IsFifo log box waiting
    → box.heap address ≡ none
    → bytes_of argument ≡ some bytes
    → IsText bytes
    → send address argument box ≡ some (sent box')
    → IsFifo (log ++ bytes ∷ []) box' (waiting ++ (address, bytes) ∷ [])
unfolding send bytes_of
send_lem log box box' waiting address (string text) bytes h unused e is_text done =
    let same : text ≡ bytes = ground (arith, e) in
    let (after, pushed, fifo) = post_lem log box waiting address bytes h unused in
    subst (λ b. IsFifo (log ++ bytes ∷ []) b (waiting ++ (address, bytes) ∷ []))
      (sent_same (post address (strndup text) (length text) box) after box'
        (ap (λ t. post address (strndup t) (length t) box) same
          ∙ ap (λ t. post address t (length bytes) box) (strndup_text bytes is_text)
          ∙ pushed)
        done)
      fifo
send_lem log box box' waiting address (buffer b) bytes h unused e is_text done =
    let (copied, size) = strndup_load b.mem b.read_head (buffer_length b) bytes e is_text in
    let (after, pushed, fifo) = post_lem log box waiting address bytes h unused in
    subst (λ b. IsFifo (log ++ bytes ∷ []) b (waiting ++ (address, bytes) ∷ []))
      (sent_same (post address bytes (buffer_length b) box) after box'
        (ap (λ (n : ℕ). post address bytes n box) (sym size) ∙ pushed)
        (ap (λ o. o >>= λ copy. post address copy (buffer_length b) box >>= λ p. some (sent p))
            (sym copied)
          ∙ done))
      fifo
send_lem log box box' waiting address no_message bytes h unused e is_text done =
    absurd (ground (arith, e))

take_none :
    (message : Option ℕ) (box : Mailbox)
    → box.queue.front ≡ none
    → take_from message box.queue.front box ≡ some (record box { phase = idle })
unfolding take_from
take_none none box e = refl
take_none (some callback) box e = rw e refl

-- Nothing waits, so the handler leaves.
pub take_last :
    (log : List (List ℕ)) (box : Mailbox)
    → IsFifo log box []
    → (take_message box ≡ some (record box { phase = idle }))
      × IsFifo log (record box { phase = idle }) []
unfolding take_message take_from head_of items_of
take_last log box h = (
  take_none box.message box (h.queued.front_at),
  record { queued = h.queued; order = h.order; in_hand = unfold InHand in tt },
)

take_some :
    (box : Mailbox) (message front : Option ℕ) (callback address : ℕ) (popped : LinkQueue)
    (node : QueueNode) (bytes : List ℕ)
    → message ≡ some callback
    → front ≡ some address
    → queue_pop box.heap box.queue ≡ some (popped, some address)
    → box.heap address ≡ some node
    → load node.data_of 0 node.size ≡ some bytes
    → take_from message front box
      ≡ some (record box {
        queue = popped;
        phase = calling address;
        calls =
            box.calls ++ record { callback = some callback; self = box.self; text = bytes } ∷ [];
      })
unfolding take_from
take_some box message front callback address popped node bytes listens first popping there loaded =
    rw (listens, first, popping, there, loaded) refl

pub take_first :
    (log : List (List ℕ)) (box : Mailbox) (callback address : ℕ) (bytes : List ℕ)
    (rest : List (ℕ × List ℕ))
    → IsFifo log box ((address, bytes) ∷ rest)
    → box.message ≡ some callback
    → (box' : Mailbox) × (take_message box ≡ some box')
      × IsFifo log box' rest
      × (box'.phase ≡ calling address)
      × (box'.message ≡ some callback)
unfolding take_message waiting_texts items_of item_of node_of head_of InHand IsApart IsChain
take_first log box callback address bytes rest h listens =
    let (popped, e, at_node, fifo) =
      (queue_pop_lem box.heap box.queue).1 (item_of (address, bytes)) (items_of rest) h.queued in
    let call : MessageCall = record { callback = some callback; self = box.self; text = bytes } in
    (
      record box { queue = popped; phase = calling address; calls = box.calls ++ call ∷ [] },
      take_some box box.message box.queue.front callback address popped
          (node_of (item_of (address, bytes)) (head_of (items_of rest))) bytes listens
          h.queued.front_at e at_node (load_all bytes (0 ∷ [])),
      record {
        queued = fifo;
        order =
            ap (λ l. l ++ waiting_texts rest) (texts-append box.calls call)
            ∙ append_assoc (texts box.calls) (bytes ∷ []) (waiting_texts rest)
            ∙ h.order;
        in_hand = (h.queued.apart.0, λ unused. ground (arith, at_node, unused));
      },
      refl,
      listens,
    )

-- The message that was in hand is freed.
pub finish_lem :
    (log : List (List ℕ)) (box : Mailbox) (waiting : List (ℕ × List ℕ)) (address : ℕ)
    → IsFifo log box waiting
    → box.phase ≡ calling address
    → IsFifo log (finish_call address box) waiting
unfolding finish_call InHand
finish_lem log box waiting address h busy =
    let (away, used) = subst (λ p. InHand p box.heap (items_of waiting)) busy h.in_hand in
    record {
      queued = record {
        front_at = h.queued.front_at;
        rear_at = h.queued.rear_at;
        chained = IsChain-set_at box.heap address none (items_of waiting) away h.queued.chained;
        apart = h.queued.apart;
      };
      order = h.order;
      in_hand = tt;
    }

start_phase-InHand :
    (message : Option ℕ) (heap : Heap) (items : List Item) → InHand (start_phase message) heap items
unfolding start_phase InHand
start_phase-InHand none heap items = tt
start_phase-InHand (some callback) heap items = tt

pub wake_lem :
    (log : List (List ℕ)) (box : Mailbox) (waiting : List (ℕ × List ℕ))
    → IsFifo log box waiting
    → IsFifo log (wake box) waiting
unfolding wake
wake_lem log box waiting h = record {
  queued = h.queued;
  order = h.order;
  in_hand = start_phase-InHand box.message box.heap (items_of waiting);
}

-- A handler without a callback leaves the messages where they are.
pub take_silent :
    (log : List (List ℕ)) (box : Mailbox) (waiting : List (ℕ × List ℕ))
    → IsFifo log box waiting
    → box.message ≡ none
    → (take_message box ≡ some (record box { phase = idle }))
      × IsFifo log (record box { phase = idle }) waiting
unfolding take_message take_from InHand
take_silent log box waiting h silent =
    (rw silent refl, record { queued = h.queued; order = h.order; in_hand = tt })

pub new_mailbox_lem : (message self : Option ℕ) → IsFifo [] (new_mailbox message self) []
unfolding new_mailbox items_of waiting_texts texts InHand
new_mailbox_lem message self = record {
  queued = queue_new_lem (λ address. none);
  order = refl;
  in_hand = tt;
}
