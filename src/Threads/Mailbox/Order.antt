-- ===== src/Threads/Mailbox/Order.antt =====
-- mumble/thread.c: messages stay in their order, however the threads take turns.
use lua_mumble.Base.{
  ℕ, suc, List, [], ◌∷◌, ◌++◌, none, some, length, ◌≡◌, ◌≢◌, inl, inr, refl, ap, arith,
  Option-cases,
}
use mathlib.Core.Path.{subst}
use lua_mumble.Queue.Chain.{head_of}
use lua_mumble.Threads.Mailbox.{Mailbox, on_message, take_message}
use lua_mumble.Threads.Mailbox.Fifo.{
  texts, items_of, waiting_texts, IsFifo, Reached, created, posted, woken, taken, returned,
  listened, released,
}
use lua_mumble.Threads.Mailbox.Steps.{
  take_silent, new_mailbox_lem, send_lem, take_last, take_first, finish_lem, wake_lem,
}

take_any :
    (log : List (List ℕ)) (box box' : Mailbox) (waiting : List (ℕ × List ℕ))
    → IsFifo log box waiting
    → take_message box ≡ some box'
    → (rest : List (ℕ × List ℕ)) × IsFifo log box' rest
take_any log box box' [] h done =
    let (e, kept) = take_last log box h in
    ([], subst (λ b. IsFifo log b []) (ground (arith, e, done)) kept)
take_any log box box' ((address, bytes) ∷ rest) h done = elim (Option-cases box.message) [
  | inl silent ↦
      let (e, kept) = take_silent log box ((address, bytes) ∷ rest) h silent in
      (
        (address, bytes) ∷ rest,
        subst (λ b. IsFifo log b ((address, bytes) ∷ rest)) (ground (arith, e, done)) kept,
      )
  | inr (callback, listens) ↦
      let (after, e, kept, busy, same) = take_first log box callback address bytes rest h listens in
      (rest, subst (λ b. IsFifo log b rest) (ground (arith, e, done)) kept)
]

pub Reached-IsFifo :
    {log : List (List ℕ)} {box : Mailbox}
    → Reached log box
    → (waiting : List (ℕ × List ℕ)) × IsFifo log box waiting
unfolding on_message
Reached-IsFifo (created message self) = ([], new_mailbox_lem message self)
Reached-IsFifo (posted {log} {box} {box'} address argument bytes r unused e is_text done) =
    let (waiting, h) = Reached-IsFifo r in
    (
      waiting ++ (address, bytes) ∷ [],
      send_lem log box box' waiting address argument bytes h unused e is_text done,
    )
Reached-IsFifo (woken {log} {box} r resting) =
    let (waiting, h) = Reached-IsFifo r in (waiting, wake_lem log box waiting h)
Reached-IsFifo (taken {log} {box} {box'} r at_test done) =
    let (waiting, h) = Reached-IsFifo r in take_any log box box' waiting h done
Reached-IsFifo (returned {log} {box} address r busy) =
    let (waiting, h) = Reached-IsFifo r in (waiting, finish_lem log box waiting address h busy)
Reached-IsFifo (listened callback r) =
    let (waiting, h) = Reached-IsFifo r in
    (waiting, record { queued = h.queued; order = h.order; in_hand = h.in_hand })
Reached-IsFifo (released r) =
    let (waiting, h) = Reached-IsFifo r in
    (waiting, record { queued = h.queued; order = h.order; in_hand = h.in_hand })

front_none :
    {log : List (List ℕ)} {box : Mailbox} (waiting : List (ℕ × List ℕ))
    → IsFifo log box waiting
    → box.queue.front ≡ none
    → waiting_texts waiting ≡ []
unfolding items_of waiting_texts head_of
front_none [] h empty = refl
front_none (entry ∷ rest) h empty = absurd (ground (arith, h.queued.front_at, empty))

take_total :
    (log : List (List ℕ)) (box : Mailbox) (waiting : List (ℕ × List ℕ))
    → IsFifo log box waiting
    → take_message box ≢ none
take_total log box [] h fault = absurd (ground (arith, (take_last log box h).0, fault))
take_total log box ((address, bytes) ∷ rest) h fault = elim (Option-cases box.message) [
  | inl silent ↦ absurd (ground (arith, (take_silent log box _ h silent).0, fault))
  | inr (callback, listens) ↦
      absurd (ground (arith, (take_first log box callback address bytes rest h listens).1, fault))
]

-- Where no message that is sent has a zero byte, and each comes to an address that is not in use, whatever
-- the order of sends, callbacks, registrations and runs of the handler: the callback was given the messages
-- that were sent first, each once and in order, and the others wait. The queue is empty only if none wait,
-- and the test of the handler's loop never reads memory that is not allocated.
pub Reached_order :
    {log : List (List ℕ)} {box : Mailbox}
    → Reached log box
    → (rest : List (List ℕ)) × (texts box.calls ++ rest ≡ log)
      × (box.queue.front ≡ none → rest ≡ [])
      × (take_message box ≢ none)
Reached_order {log} {box} r =
    let (waiting, h) = Reached-IsFifo r in
    (waiting_texts waiting, h.order, front_none waiting h, take_total log box waiting h)

pub length-waiting_texts :
    (waiting : List (ℕ × List ℕ)) → length (waiting_texts waiting) ≡ length waiting
unfolding waiting_texts
length-waiting_texts [] = refl
length-waiting_texts ((address, bytes) ∷ rest) = ap suc (length-waiting_texts rest)

pub length-items_of : (waiting : List (ℕ × List ℕ)) → length (items_of waiting) ≡ length waiting
unfolding items_of
length-items_of [] = refl
length-items_of (entry ∷ rest) = ap suc (length-items_of rest)
