-- ===== src/Threads/Life/Outcomes.antt =====
-- mumble/thread.c: how the methods of a controller end, at every point of the thread's life.
use lua_mumble.Base.{
  ℕ, ◌≤◌, List, [], ◌∷◌, Option, none, some, Bool, true, false, if◌then◌else◌, length, ◌≡◌, ◌≢◌,
  ◌⊎◌, inl, inr, refl, ap, ◌∙◌,
}
use mathlib.Core.Path.{subst}
use lua_mumble.Threads.Mailbox.{Mailbox, string}
use lua_mumble.Threads.Mailbox.Fifo.{Reached}
use lua_mumble.Threads.Life.{
  Stage, loading, working, ending, ended, Handle, attached, joined, Thread, worker_start, waits,
  returns, raises, controller_join, join_at, join_handle, controller_send, send_worker,
  controller_gc, detach,
}
use lua_mumble.Threads.Life.Ends.{
  IsEnded, ends_from_loading, ends_from_working, ends_from_ending, stays,
}
use lua_mumble.Threads.Life.Laws.{Life, IsAt, IsOnce, IsOver, Calls, Life-IsAt}

over-IsOnce :
    (pending : Bool) (calls : Calls) (owner : Option ℕ)
    → IsOver pending calls owner
    → IsOnce calls × (calls ≢ [] → (owner ≡ none) × (pending ≡ false))
over-IsOnce pending calls owner (inl (on, (no_call, self, e))) =
    (inl no_call, λ n. absurd (n no_call))
over-IsOnce pending calls owner (inr (off, gone, once)) = (once, λ n. (gone, off))

at-IsOnce :
    (stage : Stage) (t : Thread)
    → IsAt stage t
    → IsOnce t.finish_calls
      × (t.finish_calls ≢ []
          → (t.controller.self ≡ none)
            × (t.finish_pending ≡ false)
            × ((stage ≡ ending) ⊎ (stage ≡ ended)))
at-IsOnce loading t (fresh, none_yet, pending, (no_call, self, owner)) =
    (inl no_call, λ n. absurd (n no_call))
at-IsOnce working t (begun, has, there, pending, (no_call, self, owner)) =
    (inl no_call, λ n. absurd (n no_call))
at-IsOnce ending t (begun, has, there, over) =
    let (once, after) = over-IsOnce t.finish_pending t.finish_calls t.controller.self over in
    (once, λ n. let (gone, off) = after n in (gone, off, inl refl))
at-IsOnce ended t (begun, gone, over) =
    let (once, after) = over-IsOnce t.finish_pending t.finish_calls t.controller.self over in
    (once, λ n. let (gone, off) = after n in (gone, off, inr refl))

-- The callback of onFinish is called once at most, with the controller, and only after the script has ended or
-- could not be loaded; the controller has then left the registry.
pub finish_once :
    {t : Thread}
    → Life t
    → ((t.finish_calls ≡ [])
        ⊎ ((callback : ℕ) × (self : ℕ) × (t.finish_calls ≡ (callback, some self) ∷ [])))
      × (t.finish_calls ≢ []
          → (t.controller.self ≡ none)
            × (t.finish_pending ≡ false)
            × ((t.stage ≡ ending) ⊎ (t.stage ≡ ended)))
finish_once {t} l = at-IsOnce t.stage t (Life-IsAt l)

-- A text that is sent waits until the worker was started; it raises an error where the script could not be
-- loaded, and uses the worker's object after it is gone where the script has ended.
pub controller_send_lem :
    {t : Thread} (address : ℕ) (bytes : List ℕ)
    → Life t
    → (t.stage ≡ loading → controller_send address (string bytes) t ≡ some waits)
      × (t.stage ≡ ended
          → t.has_worker ≡ false
          → controller_send address (string bytes) t ≡ some raises)
      × (t.stage ≡ ended → t.has_worker ≡ true → controller_send address (string bytes) t ≡ none)
unfolding controller_send send_worker
controller_send_lem {t} address bytes l = (
  λ at. let h = subst (λ s. IsAt s t) at (Life-IsAt l) in rw h.0 refl,
  λ at failed. let h = subst (λ s. IsAt s t) at (Life-IsAt l) in rw (h.0, failed) refl,
  λ at ran. let h = subst (λ s. IsAt s t) at (Life-IsAt l) in rw (h.0, ran, h.1) refl,
)

module _ (loads : Bool) (message : Option ℕ) (self rounds : ℕ) where
  ends :
      (stage : Stage) (t : Thread)
      → t.stage ≡ stage
      → IsAt stage t
      → ((box : Mailbox)
          → t.worker ≡ some box
          → (log : List (List ℕ)) × Reached log box × (length log ≤ rounds))
      → (after : Thread) × (worker_start 3 loads message self rounds t ≡ some after)
        × IsEnded t after
  ends loading t at (fresh, none_yet, pending, more) can =
      ends_from_loading loads message self rounds t at none_yet
  ends working t at (begun, has, (box, there), pending, more) can =
      let (log, r, enough) = can box there in
      ends_from_working loads message self rounds 1 t at begun (box, log, there, r, enough)
  ends ending t at (begun, has, (box, there), more) can =
      let (log, r, enough) = can box there in
      ends_from_ending loads message self rounds 2 t at begun (box, log, there, r, enough)
  ends ended t at (begun, gone, more) can = (
    t,
    stays loads message self rounds 3 t at,
    record { at_end = at; has_started = begun; closed = gone; same_handle = refl },
  )

join_ended :
    (t : Thread)
    → t.started ≡ true
    → t.stage ≡ ended
    → (handle : Handle) → t.handle ≡ handle
    → controller_join t ≡ join_handle handle t
unfolding controller_join join_at
join_ended t begun at handle held =
    ap (λ b. if b then join_at t.stage t else some waits) begun
    ∙ ap (λ s. join_at s t) at
    ∙ ap (λ h. join_handle h t) held

join_waits :
    (stage : Stage) (t : Thread)
    → stage ≢ ended
    → (begun : Bool) → (if begun then join_at stage t else some waits) ≡ some waits
unfolding join_at
join_waits loading t n true = refl
join_waits loading t n false = refl
join_waits working t n true = refl
join_waits working t n false = refl
join_waits ending t n true = refl
join_waits ending t n false = refl
join_waits ended t n begun = absurd (n refl)

-- A thread whose script is loaded, or is not, and returns: it ends within three steps of its own, and can be
-- joined then and not before. A second join, and garbage collection after a join, use a thread that is gone.
pub controller_join_lem :
    {t : Thread} (loads : Bool) (message : Option ℕ) (self rounds : ℕ)
    → Life t
    → t.handle ≡ attached
    → ((box : Mailbox)
        → t.worker ≡ some box
        → (log : List (List ℕ)) × Reached log box × (length log ≤ rounds))
    → (t.stage ≢ ended → controller_join t ≡ some waits)
      × (after : Thread) × (worker_start 3 loads message self rounds t ≡ some after)
      × (controller_join after ≡ some (returns (record after { handle = joined })))
      × (controller_join (record after { handle = joined }) ≡ none)
      × ((k : ℕ) → controller_gc k (record after { handle = joined }) ≡ none)
unfolding controller_join join_at join_handle controller_gc detach
controller_join_lem {t} loads message self rounds l held can =
    let (after, e, h) = ends loads message self rounds t.stage t refl (Life-IsAt l) can in
    (
      λ n. join_waits t.stage t n t.started,
      after,
      e,
      join_ended after h.has_started h.at_end attached (h.same_handle ∙ held),
      join_ended (record after { handle = joined }) h.has_started h.at_end joined refl,
      λ k. refl,
    )
