-- ===== src/Threads/Life/Laws.antt =====
-- mumble/thread.c: what holds of a thread at every point of its life.
use lua_mumble.Base.{
  ℕ, List, [], ◌∷◌, ◌++◌, Option, none, some, Bool, true, false, ◌≡◌, ◌⊎◌, inl, inr, refl, sym, ap,
  ◌∙◌, arith, Option-cases,
}
use mathlib.Core.Path.{subst}
use lua_mumble.Threads.Mailbox.{Mailbox, new_mailbox}
use lua_mumble.Threads.Life.{
  Stage, loading, working, ending, ended, Handle, Thread, new_thread, load_script, end_script,
  close_state, worker_gc, worker_step, worker_finish, finish_call_of, controller_on_finish,
}

-- The states of a thread. The worker's steps and the controller's come in any order; whatever is done to
-- one of the mailboxes leaves its `self` alone.
pub data Life : Thread → Type 0 where
  started_by : (self : ℕ) → Life (new_thread self)
  stepped :
      {t t' : Thread} (loads : Bool) (message : Option ℕ) (self rounds : ℕ)
      → Life t
      → worker_step t.stage loads message self rounds t ≡ some t'
      → Life t'
  noticed : {t : Thread} → Life t → t.finish_pending ≡ true → Life (worker_finish t)
  finish_set : {t : Thread} (callback : Option ℕ) → Life t → Life (controller_on_finish callback t)
  controller_mail :
      {t : Thread} (box : Mailbox)
      → Life t
      → box.self ≡ t.controller.self
      → Life (record t { controller = box })
  worker_mail :
      {t : Thread} (old box : Mailbox)
      → Life t
      → t.worker ≡ some old
      → Life (record t { worker = some box })
  handle_used : {t : Thread} (handle : Handle) → Life t → Life (record t { handle = handle })

abbrev pub Calls : Type 0
Calls = List (ℕ × Option ℕ)

-- The callback of onFinish was not called yet, and the controller is in the registry.
abbrev pub IsUnnoticed : Calls → Option ℕ → Type 0
IsUnnoticed calls owner = (calls ≡ []) × (self : ℕ) × (owner ≡ some self)

-- One call at most, with the controller.
abbrev pub IsOnce : Calls → Type 0
IsOnce calls = (calls ≡ []) ⊎ ((callback : ℕ) × (self : ℕ) × (calls ≡ (callback, some self) ∷ []))

-- The end was noticed, and the controller has left the registry.
abbrev pub IsNoticed : Bool → Calls → Option ℕ → Type 0
IsNoticed pending calls owner = (pending ≡ false) × (owner ≡ none) × IsOnce calls

abbrev pub IsOver : Bool → Calls → Option ℕ → Type 0
IsOver pending calls owner =
    ((pending ≡ true) × IsUnnoticed calls owner) ⊎ IsNoticed pending calls owner

abbrev pub At : Stage → Bool → Bool → Option Mailbox → Bool → Calls → Option ℕ → Type 0
At loading begun has worker pending calls owner =
    (begun ≡ false) × (worker ≡ none) × (pending ≡ false) × IsUnnoticed calls owner
At working begun has worker pending calls owner =
    (begun ≡ true)
    × (has ≡ true)
    × ((box : Mailbox) × (worker ≡ some box))
    × (pending ≡ false)
    × IsUnnoticed calls owner
At ending begun has worker pending calls owner =
    (begun ≡ true)
    × (has ≡ true)
    × ((box : Mailbox) × (worker ≡ some box))
    × IsOver pending calls owner
At ended begun has worker pending calls owner =
    (begun ≡ true) × (worker ≡ none) × IsOver pending calls owner

abbrev pub IsAt : Stage → Thread → Type 0
IsAt stage t =
    At stage t.started t.has_worker t.worker t.finish_pending t.finish_calls t.controller.self

close_state-IsAt :
    (rounds : ℕ) (t t' : Thread) → IsAt ending t → close_state rounds t ≡ some t' → IsAt t'.stage t'
unfolding close_state
close_state-IsAt rounds t t' (begun, has, (box, there), over) e =
    elim (Option-cases (worker_gc rounds box)) [
      | inl fault ↦ absurd (ground (arith, e, there, fault))
      | inr (heap, freed) ↦
          subst (λ u. IsAt u.stage u)
            (let same : record t { worker = none; stage = ended } ≡ t' =
                ground (arith, e, there, freed) in
              same)
            (begun, refl, over)
    ]

got : {A : Type 0} (a b : A) → some a ≡ some b → a ≡ b
got a b e = cc

worker_step-IsAt :
    (stage : Stage) (loads : Bool) (message : Option ℕ) (self rounds : ℕ) (t t' : Thread)
    → t.stage ≡ stage
    → IsAt stage t
    → worker_step stage loads message self rounds t ≡ some t'
    → IsAt t'.stage t'
unfolding worker_step load_script end_script
worker_step-IsAt loading true message self rounds t t' at (fresh, none_yet, pending, unnoticed) e =
    subst (λ u. IsAt u.stage u) (got _ _ e)
      (refl, refl, (new_mailbox message (some self), refl), pending, unnoticed)
worker_step-IsAt loading false message self rounds t t' at (fresh, none_yet, pending, unnoticed) e =
    subst (λ u. IsAt u.stage u) (got _ _ e) (refl, none_yet, inl (refl, unnoticed))
worker_step-IsAt working loads message self rounds t t' at (begun, has, there, pending, unnoticed)
      e =
    subst (λ u. IsAt u.stage u) (got _ _ e) (begun, has, there, inl (refl, unnoticed))
worker_step-IsAt ending loads message self rounds t t' at h e = close_state-IsAt rounds t t' h e
worker_step-IsAt ended loads message self rounds t t' at h e =
    subst (λ u. IsAt u.stage u) (got _ _ e) (subst (λ s. IsAt s t) (sym at) h)

one_call :
    (finish : Option ℕ) (self : ℕ)
    → (finish_call_of finish (some self) ≡ [])
      ⊎ ((callback : ℕ) × (owner : ℕ) × (finish_call_of finish (some self)
            ≡ (callback, some owner) ∷ []))
unfolding finish_call_of
one_call none self = inl refl
one_call (some callback) self = inr (callback, self, refl)

worker_finish-IsNoticed :
    (t : Thread)
    → IsOver t.finish_pending t.finish_calls t.controller.self
    → t.finish_pending ≡ true
    → IsOnce (worker_finish t).finish_calls
unfolding worker_finish
worker_finish-IsNoticed t (inl (pending, (no_call, self, owner))) on =
    let calls : t.finish_calls ++ finish_call_of t.finish t.controller.self
        ≡ finish_call_of t.finish (some self) =
      ap (λ l. l ++ finish_call_of t.finish t.controller.self) no_call
      ∙ ap (λ o. finish_call_of t.finish o) owner in
    subst (λ l. IsOnce l) (sym calls) (one_call t.finish self)
worker_finish-IsNoticed t (inr (quiet, gone, once)) on = absurd (ground (arith, quiet, on))

worker_finish-IsAt :
    (stage : Stage) (t : Thread)
    → IsAt stage t
    → t.finish_pending ≡ true
    → IsAt stage (worker_finish t)
unfolding worker_finish
worker_finish-IsAt loading t (fresh, none_yet, pending, unnoticed) on =
    absurd (ground (arith, pending, on))
worker_finish-IsAt working t (begun, has, there, pending, unnoticed) on =
    absurd (ground (arith, pending, on))
worker_finish-IsAt ending t (begun, has, there, over) on =
    (begun, has, there, inr (refl, refl, worker_finish-IsNoticed t over on))
worker_finish-IsAt ended t (begun, gone, over) on =
    (begun, gone, inr (refl, refl, worker_finish-IsNoticed t over on))

worker_mail-IsAt :
    (stage : Stage) (t : Thread) (old box : Mailbox)
    → IsAt stage t
    → t.worker ≡ some old
    → IsAt stage (record t { worker = some box })
worker_mail-IsAt loading t old box (fresh, none_yet, pending, more) there =
    absurd (ground (arith, none_yet, there))
worker_mail-IsAt working t old box (begun, has, was, pending, more) there =
    (begun, has, (box, refl), pending, more)
worker_mail-IsAt ending t old box (begun, has, was, more) there = (begun, has, (box, refl), more)
worker_mail-IsAt ended t old box (begun, gone, more) there = absurd (ground (arith, gone, there))

pub Life-IsAt : {t : Thread} → Life t → IsAt t.stage t
unfolding new_thread new_mailbox controller_on_finish worker_finish
Life-IsAt (started_by self) = (refl, refl, refl, (refl, self, refl))
Life-IsAt (stepped {t} {t'} loads message self rounds l e) =
    worker_step-IsAt t.stage loads message self rounds t t' refl (Life-IsAt l) e
Life-IsAt (noticed {t} l on) = worker_finish-IsAt t.stage t (Life-IsAt l) on
Life-IsAt (finish_set callback l) = Life-IsAt l
Life-IsAt (controller_mail {t} box l same) =
    subst
      (λ owner. At t.stage t.started t.has_worker t.worker t.finish_pending t.finish_calls owner)
      (sym same) (Life-IsAt l)
Life-IsAt (worker_mail {t} old box l there) = worker_mail-IsAt t.stage t old box (Life-IsAt l) there
Life-IsAt (handle_used handle l) = Life-IsAt l
