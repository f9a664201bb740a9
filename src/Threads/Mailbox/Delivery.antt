-- ===== src/Threads/Mailbox/Delivery.antt =====
-- mumble/thread.c: what a callback is given in the end.
use lua_mumble.Base.{
  ℕ, zero, suc, ◌+◌, ◌<◌, List, [], ◌∷◌, ◌++◌, Option, none, some, Bool, true, ◌>>=◌, length, drop,
  ◌≡◌, inl, inr, refl, sym, ap, ◌∙◌, arith, Option-cases, length-append,
}
use mathlib.Core.List.{append-nil}
use lua_mumble.Strndup.{strndup_cells, IsText, strndup}
use lua_mumble.Buffer.{buffer_length}
use lua_mumble.Queue.{LinkQueue, Heap, queue_push}
use lua_mumble.Queue.Chain.{head_of}
use lua_mumble.Threads.Mailbox.{
  message_loop, after_take, message_from, controller_message, worker_message, idle, calling,
  Mailbox, Argument, string, buffer, no_message, sent, send, post, take_message, finish_call, wake,
  start_phase,
}
use lua_mumble.Threads.Mailbox.Fifo.{bytes_of, texts, items_of, waiting_texts, IsFifo, Reached}
use lua_mumble.Threads.Mailbox.Steps.{
  sent_same, send_lem, take_last, take_first, finish_lem, wake_lem,
}
use lua_mumble.Threads.Mailbox.Order.{Reached-IsFifo, length-waiting_texts}

-- A callback that sends nothing to its own end, and during which nobody else does.
abbrev pub IsQuiet : (Mailbox → Option Mailbox) → Type 0
IsQuiet call =
    (box : Mailbox)
    → (self : Option ℕ) × (pending : Bool) × (call box
        ≡ some (record box { self = self; pending = pending }))

run_step :
    (call again : Mailbox → Option Mailbox) (o : Option Mailbox) (next called after : Mailbox)
    (address : ℕ)
    → o ≡ some next
    → next.phase ≡ calling address
    → call next ≡ some called
    → again (finish_call address called) ≡ some after
    → (o >>= λ t. after_take call again t.phase t) ≡ some after
unfolding after_take
run_step call again o next called after address e busy did done =
    ap (λ o. o >>= λ t. after_take call again t.phase t) e
    ∙ ap (λ p. after_take call again p next) busy
    ∙ ap (λ o. o >>= λ c. again (finish_call address c)) did
    ∙ done

message_loop_lem :
    (call : Mailbox → Option Mailbox) (rounds : ℕ) (log : List (List ℕ)) (box : Mailbox)
    (waiting : List (ℕ × List ℕ)) (callback : ℕ)
    → IsQuiet call
    → IsFifo log box waiting
    → box.message ≡ some callback
    → length waiting < rounds
    → (after : Mailbox) × (message_loop call rounds box ≡ some after) × IsFifo log after []
unfolding message_loop
message_loop_lem call zero log box waiting callback quiet h listens enough =
    absurd (omega (arith, enough))
message_loop_lem call (suc rounds) log box [] callback quiet h listens enough =
    let (e, kept) = take_last log box h in
    (record box { phase = idle }, rw e (unfold after_take in refl), kept)
message_loop_lem call (suc rounds) log box ((address, bytes) ∷ rest) callback quiet h listens
      enough =
    let (next, e, kept, busy, same) = take_first log box callback address bytes rest h listens in
    let (self, pending, called) = quiet next in
    let (after, done, drained) =
      message_loop_lem call rounds log
        (finish_call address (record next { self = self; pending = pending })) rest callback quiet
        (finish_lem log (record next { self = self; pending = pending }) rest address
          (record { queued = kept.queued; order = kept.order; in_hand = kept.in_hand }) busy)
        (unfold finish_call in same) (omega (arith, enough)) in
    (
      after,
      run_step call (message_loop call rounds) (take_message box) next _ after address e busy called
          done,
      drained,
    )

handled :
    (call : Mailbox → Option Mailbox) (rounds : ℕ) (log : List (List ℕ)) (box : Mailbox)
    (waiting : List (ℕ × List ℕ)) (callback : ℕ)
    → IsQuiet call
    → IsFifo log box waiting
    → box.message ≡ some callback
    → length waiting < rounds
    → (after : Mailbox) × (controller_message call rounds box ≡ some after)
      × (worker_message call rounds box ≡ some after)
      × IsFifo log after []
unfolding controller_message worker_message message_from start_phase
handled call rounds log box waiting callback quiet h listens enough =
    let (after, e, drained) =
      message_loop_lem call rounds log (wake box) waiting callback quiet
        (wake_lem log box waiting h) (unfold wake in listens) enough in
    let run = ap (λ o. message_from (start_phase o) call rounds (wake box)) listens ∙ e in
    (after, run, run, drained)

post_fields :
    (o : Option (Heap × LinkQueue)) (box box' : Mailbox)
    → (o >>= λ (heap, queue). some (record box { heap = heap; queue = queue; pending = true }))
      ≡ some box'
    → (box'.pending ≡ true) × (box'.message ≡ box.message)
post_fields none box box' e = absurd (ground (arith, e))
post_fields (some (heap, queue)) box box' e = ground (arith, e)

sent_fields :
    (address : ℕ) (copy : List ℕ) (size : ℕ) (box box' : Mailbox)
    → (post address copy size box >>= λ p. some (sent p)) ≡ some (sent box')
    → (box'.pending ≡ true) × (box'.message ≡ box.message)
sent_fields address copy size box box' e = elim (Option-cases (post address copy size box)) [
  | inl failed ↦ absurd (ground (arith, e, failed))
  | inr (p, done) ↦
      post_fields (queue_push box.heap box.queue address (copy ++ 0 ∷ []) size) box box'
        (unfold post in done ∙ ap some (sent_same (post address copy size box) p box' done e))
]

send_fields :
    (address : ℕ) (argument : Argument) (box box' : Mailbox)
    → send address argument box ≡ some (sent box')
    → (box'.pending ≡ true) × (box'.message ≡ box.message)
unfolding send
send_fields address (string bytes) box box' e =
    sent_fields address (strndup bytes) (length bytes) box box' e
send_fields address (buffer b) box box' e =
    elim (Option-cases (strndup_cells (buffer_length b) (drop b.read_head b.mem))) [
      | inl outside ↦ absurd (ground (arith, e, outside))
      | inr (copy, copied) ↦ sent_fields address copy (buffer_length b) box box' (
          ap (λ o. o >>= λ c. post address c (buffer_length b) box >>= λ p. some (sent p))
            (sym copied)
          ∙ e)
    ]
send_fields address no_message box box' e = absurd (ground (arith, e))

-- Where an end has a callback, and neither the message nor one that was sent before has a zero byte: a
-- message that is sent to it, to an address that is not in use, makes its handler pending. Where the
-- callback changes nothing of the end but its reference and its wake-up, and nobody else does meanwhile, the
-- handler then ends within as many rounds as messages were sent before and two; the callback was given all
-- the messages in their order, and the queue is empty.
pub send_delivered :
    {log : List (List ℕ)} {box box' : Mailbox} (call : Mailbox → Option Mailbox)
    (address callback : ℕ) (argument : Argument) (bytes : List ℕ)
    → Reached log box
    → box.message ≡ some callback
    → box.heap address ≡ none
    → bytes_of argument ≡ some bytes
    → IsText bytes
    → send address argument box ≡ some (sent box')
    → IsQuiet call
    → (box'.pending ≡ true)
      × (after : Mailbox) × (controller_message call (length log + 2) box' ≡ some after)
      × (worker_message call (length log + 2) box' ≡ some after)
      × (texts after.calls ≡ log ++ bytes ∷ [])
      × (after.queue.front ≡ none)
unfolding waiting_texts items_of head_of
send_delivered {log} {box} {box'} call address callback argument bytes r listens unused e is_text
      done quiet =
    let (waiting, h) = Reached-IsFifo r in
    let (pending, same) = send_fields address argument box box' done in
    let kept = send_lem log box box' waiting address argument bytes h unused e is_text done in
    let few : length (waiting ++ (address, bytes) ∷ []) < length log + 2 = omega (
      arith,
      ap length h.order,
      length-append (texts box.calls) (waiting_texts waiting),
      length-waiting_texts waiting,
      length-append waiting ((address, bytes) ∷ []),
    ) in
    let (after, first, second, drained) =
      handled call (length log + 2) (log ++ bytes ∷ []) box' (waiting ++ (address, bytes) ∷ [])
        callback quiet kept (same ∙ listens) few in
    (
      pending,
      after,
      first,
      second,
      sym (append-nil (texts after.calls)) ∙ drained.order,
      drained.queued.front_at,
    )
