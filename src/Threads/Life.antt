-- ===== src/Threads/Life.antt =====
-- mumble/thread.c: the life of a thread, from `mumble_thread_worker_start` to the end of its Lua state, and
-- what its controller does meanwhile. The worker's steps and the controller's come in any order. Loading the
-- script succeeds or fails, which is an argument. `none` is a use of the worker's object after its Lua state
-- is closed, or of a thread that was joined or detached already. The Lua scripts are not run; the sleep and
-- the event loop of a worker are libuv's.
pub mod Laws
pub mod Ends
pub mod Outcomes
use lua_mumble.Base.{
  ℕ, zero, suc, ◌+◌, ◌-◌, ◌*◌, ◌/◌, ◌%◌, ◌^◌, ◌≤◌, ◌<◌, List, [], ◌∷◌, ◌++◌, map, Option, none,
  some, Bool, true, false, not, ◌&&◌, ◌||◌, ◌==◌, ltb, leb, if◌then◌else◌, ◌>>=◌, load, store,
  length, take, drop, ◌≡◌, ◌≢◌, ◌⊎◌, ◌↔◌, inl, inr, refl, sym, ap, ◌∙◌, arith, All, Bool-cases,
  Option-cases, ==_iff, length-append, take-append, String,
}
use mathlib.Core.Option
use lua_mumble.Queue.{Heap, queue_free}
use lua_mumble.Threads.Mailbox.{
  Mailbox, new_mailbox, Argument, no_message, Sent, sent, argument_error, send, on_message,
}

-- Where the worker's thread is in `mumble_thread_worker_start`.
pub data Stage : Type 0 where
  loading : Stage
  working : Stage
  ending : Stage
  ended : Stage

-- The handle of the thread.
pub data Handle : Type 0 where
  attached : Handle
  joined : Handle
  detached : Handle

-- `has_worker` says that the controller's pointer to the worker is not NULL, and `worker` is the worker's
-- object while it exists. `finish_calls` are the calls of the callback of `onFinish`, with the references
-- of the callback and of the controller.
pub record Thread : Type 0 where
  pub controller : Mailbox
  pub worker : Option Mailbox
  pub has_worker : Bool
  pub started : Bool
  pub finish : Option ℕ
  pub finish_pending : Bool
  pub finish_calls : List (ℕ × Option ℕ)
  pub stage : Stage
  pub handle : Handle

-- `self` is the reference that `luaL_ref` gives.
unfoldable pub new_thread : ℕ → Thread
new_thread self = record {
  controller = new_mailbox none (some self);
  worker = none;
  has_worker = false;
  started = false;
  finish = none;
  finish_pending = false;
  finish_calls = [];
  stage = loading;
  handle = attached;
}

-- The script is loaded, or not; `message` is what is in the memory of the worker's field.
unfoldable pub load_script : Bool → Option ℕ → ℕ → Thread → Thread
load_script true message self t = record t {
  worker = some (new_mailbox message (some self));
  has_worker = true;
  started = true;
  stage = working;
}
load_script false message self t = record t {
  has_worker = false;
  started = true;
  finish_pending = true;
  stage = ended;
}

-- The script has returned, or has raised an error, which is logged.
unfoldable pub end_script : Thread → Thread
end_script t = record t { finish_pending = true; stage = ending }

-- `thread_worker_gc` frees the queue of the worker, with the rounds that it takes.
pub worker_gc : ℕ → Mailbox → Option Heap
worker_gc rounds box = queue_free rounds box.heap box.queue

-- The Lua state is closed, and with it the worker's object goes.
unfoldable pub close_state : ℕ → Thread → Option Thread
unfolding worker_gc
close_state rounds t = t.worker >>= λ box.
    worker_gc rounds box >>= λ heap. some (record t { worker = none; stage = ended })

unfoldable pub worker_step : Stage → Bool → Option ℕ → ℕ → ℕ → Thread → Option Thread
unfolding load_script end_script close_state
worker_step loading loads message self rounds t = some (load_script loads message self t)
worker_step working loads message self rounds t = some (end_script t)
worker_step ending loads message self rounds t = close_state rounds t
worker_step ended loads message self rounds t = some t

-- The thread's function as a whole, in as many steps as are given.
pub worker_start : ℕ → Bool → Option ℕ → ℕ → ℕ → Thread → Option Thread
unfolding worker_step
worker_start zero loads message self rounds t = some t
worker_start (suc steps) loads message self rounds t =
    worker_step t.stage loads message self rounds t >>= λ next.
    worker_start steps loads message self rounds next

unfoldable pub finish_call_of : Option ℕ → Option ℕ → List (ℕ × Option ℕ)
finish_call_of none self = []
finish_call_of (some callback) self = (callback, self) ∷ []

-- libuv runs `mumble_thread_worker_finish`: both references are released.
unfoldable pub worker_finish : Thread → Thread
unfolding finish_call_of
worker_finish t = record t {
  finish_calls = t.finish_calls ++ finish_call_of t.finish t.controller.self;
  finish = none;
  finish_pending = false;
  controller = record t.controller { self = none };
}

-- What a method does: it waits for the condition variable, returns, or raises an error.
pub data Answer : Type 0 where
  waits : Answer
  returns : Thread → Answer
  raises : Answer

unfoldable pub join_handle : Handle → Thread → Option Answer
join_handle attached t = some (returns (record t { handle = joined }))
join_handle joined t = none
join_handle detached t = none

unfoldable pub join_at : Stage → Thread → Option Answer
unfolding join_handle
join_at loading t = some waits
join_at working t = some waits
join_at ending t = some waits
join_at ended t = join_handle t.handle t

pub controller_join : Thread → Option Answer
unfolding join_at
controller_join t = if t.started then join_at t.stage t else some waits

unfoldable pub answer : (Mailbox → Thread) → Sent → Answer
answer changed (sent box) = returns (changed box)
answer changed argument_error = raises

-- The worker's object is looked at only where there is a message to send.
unfoldable pub send_worker : ℕ → Argument → Thread → Option Answer
unfolding answer
send_worker address no_message t = some raises
send_worker address argument t = t.worker >>= λ box. send address argument box >>= λ done.
    some (answer (λ after. record t { worker = some after }) done)

pub controller_send : ℕ → Argument → Thread → Option Answer
unfolding send_worker
controller_send address argument t =
    if not t.started
    then some waits
    else (if not t.has_worker then some raises else send_worker address argument t)

-- The worker's own methods run while its Lua state is open.
pub worker_send : ℕ → Argument → Thread → Option Answer
unfolding answer
worker_send address argument t = send address argument t.controller >>= λ done.
    some (answer (λ after. record t { controller = after }) done)

-- `none` is an argument that is no function: the old callback is gone before the error is raised.
pub controller_on_finish : Option ℕ → Thread → Thread
controller_on_finish callback t = record t { finish = callback }

pub controller_on_message : Option ℕ → Thread → Thread
controller_on_message callback t = record t { controller = on_message callback t.controller }

pub worker_on_message : Option ℕ → Thread → Thread
worker_on_message callback t = record t { worker = Option.map (on_message callback) t.worker }

unfoldable pub detach : Handle → Option Handle
detach attached = some detached
detach joined = none
detach detached = none

-- Garbage collection of the controller: its thread is detached, and its queue is freed.
pub controller_gc : ℕ → Thread → Option (Thread × Heap)
unfolding detach
controller_gc rounds t = detach t.handle >>= λ handle.
    queue_free rounds t.controller.heap t.controller.queue >>= λ heap.
    some (record t { handle = handle }, heap)
