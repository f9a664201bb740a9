-- ===== src/Threads/Life/Ends.antt =====
-- mumble/thread.c: a thread whose script returns can be joined.
use lua_mumble.Base.{
  ℕ, zero, suc, ◌≤◌, List, [], Option, none, some, Bool, true, false, ◌>>=◌, length, ◌≡◌, refl, ap,
  ◌∙◌, arith, length-append,
}
use lua_mumble.Queue.{Heap}
use lua_mumble.Queue.Fifo.{queue_free_lem}
use lua_mumble.Threads.Mailbox.{Mailbox, new_mailbox}
use lua_mumble.Threads.Mailbox.Fifo.{Reached, created, items_of, texts, waiting_texts}
use lua_mumble.Threads.Mailbox.Order.{Reached-IsFifo, length-waiting_texts, length-items_of}
use lua_mumble.Threads.Life.{
  Stage, loading, working, ending, ended, Thread, load_script, end_script, close_state, worker_gc,
  worker_step, worker_start,
}

-- The queue of a worker can be freed in as many rounds as messages were sent to it.
worker_gc_lem :
    (rounds : ℕ) (log : List (List ℕ)) (box : Mailbox)
    → Reached log box
    → length log ≤ rounds
    → (heap : Heap) × (worker_gc rounds box ≡ some heap)
unfolding worker_gc
worker_gc_lem rounds log box r enough =
    let (waiting, h) = Reached-IsFifo r in
    let (heap, e, freed, frame) =
      queue_free_lem rounds box.heap box.queue (items_of waiting) h.queued (
        omega (
          arith,
          enough,
          ap length h.order,
          length-append (texts box.calls) (waiting_texts waiting),
          length-waiting_texts waiting,
          length-items_of waiting,
        )) in
    (heap, e)

close_lem :
    (rounds : ℕ) (log : List (List ℕ)) (t : Thread) (box : Mailbox)
    → t.worker ≡ some box
    → Reached log box
    → length log ≤ rounds
    → close_state rounds t ≡ some (record t { worker = none; stage = ended })
unfolding close_state
close_lem rounds log t box there r enough =
    let (heap, e) = worker_gc_lem rounds log box r enough in
    ap
      (λ o.
        o >>= λ b. worker_gc rounds b >>= λ heap. some (record t { worker = none; stage = ended }))
      there
    ∙ ap (λ o. o >>= λ (heap : Heap). some (record t { worker = none; stage = ended })) e

step_at :
    (steps : ℕ) (loads : Bool) (message : Option ℕ) (self rounds : ℕ) (t next : Thread)
    (stage : Stage)
    → t.stage ≡ stage
    → worker_step stage loads message self rounds t ≡ some next
    → worker_start (suc steps) loads message self rounds t
      ≡ worker_start steps loads message self rounds next
unfolding worker_start
step_at steps loads message self rounds t next stage at e =
    ap
      (λ s. worker_step s loads message self rounds t >>= λ n.
        worker_start steps loads message self rounds n)
      at
    ∙ ap (λ o. o >>= λ n. worker_start steps loads message self rounds n) e

-- The end of a thread, whose handle and whose controller are as before.
pub record IsEnded (before after : Thread) : Type 0 where
  pub at_end : after.stage ≡ ended
  pub has_started : after.started ≡ true
  pub closed : after.worker ≡ none
  pub same_handle : after.handle ≡ before.handle

-- The worker of a thread that runs can be released within the rounds.
abbrev pub CanClose : ℕ → Thread → Type 0
CanClose rounds t =
    (box : Mailbox) × (log : List (List ℕ)) × (t.worker ≡ some box)
    × Reached log box
    × (length log ≤ rounds)

module _ (loads : Bool) (message : Option ℕ) (self rounds : ℕ) where
  pub stays :
      (steps : ℕ) (t : Thread)
      → t.stage ≡ ended
      → worker_start steps loads message self rounds t ≡ some t
  unfolding worker_step
  stays zero t at = unfold worker_start in refl
  stays (suc steps) t at =
      step_at steps loads message self rounds t t ended at refl ∙ stays steps t at

  pub ends_from_ending :
      (steps : ℕ) (t : Thread)
      → t.stage ≡ ending
      → t.started ≡ true
      → CanClose rounds t
      → (after : Thread) × (worker_start (suc steps) loads message self rounds t ≡ some after)
        × IsEnded t after
  unfolding worker_step
  ends_from_ending steps t at begun (box, log, there, r, enough) =
      let after : Thread = record t { worker = none; stage = ended } in
      (
        after,
        step_at steps loads message self rounds t after ending at
              (close_lem rounds log t box there r enough)
            ∙ stays steps after refl,
        record { at_end = refl; has_started = begun; closed = refl; same_handle = refl },
      )

  pub ends_from_working :
      (steps : ℕ) (t : Thread)
      → t.stage ≡ working
      → t.started ≡ true
      → CanClose rounds t
      → (after : Thread) × (worker_start (suc (suc steps)) loads message self rounds t ≡ some after)
        × IsEnded t after
  unfolding worker_step end_script
  ends_from_working steps t at begun can =
      let (after, e, h) = ends_from_ending steps (end_script t) refl begun can in
      (
        after,
        step_at (suc steps) loads message self rounds t (end_script t) working at refl ∙ e,
        record {
          at_end = h.at_end;
          has_started = h.has_started;
          closed = h.closed;
          same_handle = h.same_handle;
        },
      )

pub ends_from_loading :
    (loads : Bool) (message : Option ℕ) (self rounds : ℕ) (t : Thread)
    → t.stage ≡ loading
    → t.worker ≡ none
    → (after : Thread) × (worker_start 3 loads message self rounds t ≡ some after) × IsEnded t after
unfolding worker_step load_script
ends_from_loading true message self rounds t at none_yet =
    let next = load_script true message self t in
    let (after, e, h) =
      ends_from_working true message self rounds 0 next refl refl
        (new_mailbox message (some self), [], refl, created message (some self), omega arith) in
    (
      after,
      step_at 2 true message self rounds t next loading at refl ∙ e,
      record {
        at_end = h.at_end;
        has_started = h.has_started;
        closed = h.closed;
        same_handle = h.same_handle;
      },
    )
ends_from_loading false message self rounds t at none_yet =
    let next = load_script false message self t in
    (
      next,
      step_at 2 false message self rounds t next loading at refl
          ∙ stays false message self rounds 2 next refl,
      record { at_end = refl; has_started = refl; closed = none_yet; same_handle = refl },
    )
