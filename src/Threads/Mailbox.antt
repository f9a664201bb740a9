-- ===== src/Threads/Mailbox.antt =====
-- mumble/thread.c: one end of a thread, a MumbleThreadController or a MumbleThreadWorker, with the queue of
-- the messages that the other end sends to it. The nodes of a queue stand in a heap of their own, since no
-- node is in two queues; `malloc` gives an address that is not in use, which is an argument. What is done
-- under a mutex is one step. `calls` are the calls of the Lua callback. `none` is an access to memory that
-- is not allocated.
pub mod Fifo
pub mod Steps
pub mod Order
pub mod Delivery
use lua_mumble.Base.{
  ℕ, zero, suc, List, [], ◌∷◌, ◌++◌, Option, none, some, Bool, true, false, ◌>>=◌, load, length,
  drop, if◌then◌else◌,
}
use lua_mumble.Strndup.{strndup, strndup_cells}
use lua_mumble.Buffer.{ByteBuffer, buffer_length}
use lua_mumble.Queue.{LinkQueue, Heap, set_at, queue_new, queue_push, queue_pop}

-- Where the end is in its message handler: not in it, at the test of the loop, or in the call of its
-- callback, with the address of the message that was taken.
pub data Phase : Type 0 where
  idle : Phase
  testing : Phase
  calling : ℕ → Phase

-- References in the registry; `none` is LUA_NOREF, which pushes nil.
pub record MessageCall : Type 0 where
  pub callback : Option ℕ
  pub self : Option ℕ
  pub text : List ℕ

-- `pending` is set by `uv_async_send` until libuv runs the handler.
pub record Mailbox : Type 0 where
  pub heap : Heap
  pub queue : LinkQueue
  pub message : Option ℕ
  pub self : Option ℕ
  pub pending : Bool
  pub phase : Phase
  pub calls : List MessageCall

-- A worker's `message` is not initialised.
unfoldable pub new_mailbox : Option ℕ → Option ℕ → Mailbox
new_mailbox message self = record {
  heap = λ address. none;
  queue = queue_new;
  message = message;
  self = self;
  pending = false;
  phase = idle;
  calls = [];
}

-- The Lua argument of `send`.
pub data Argument : Type 0 where
  string : List ℕ → Argument
  buffer : ByteBuffer → Argument
  no_message : Argument

pub data Sent : Type 0 where
  sent : Mailbox → Sent
  argument_error : Sent

unfoldable pub post : ℕ → List ℕ → ℕ → Mailbox → Option Mailbox
post address copy size box =
    queue_push box.heap box.queue address (copy ++ 0 ∷ []) size >>= λ (heap, queue).
    some (record box { heap = heap; queue = queue; pending = true })

unfoldable pub send : ℕ → Argument → Mailbox → Option Sent
unfolding post
send address (string bytes) box =
    post address (strndup bytes) (length bytes) box >>= λ posted. some (sent posted)
send address (buffer b) box =
    let size = buffer_length b in
    strndup_cells size (drop b.read_head b.mem) >>= λ copy.
    post address copy size box >>= λ posted. some (sent posted)
send address no_message box = some argument_error

-- The old callback is released before the argument is checked; `none` is no function, which raises.
unfoldable pub on_message : Option ℕ → Mailbox → Mailbox
on_message callback box = record box { message = callback }

-- The test of the loop, and a message that is taken: the handler leaves, or calls the callback.
unfoldable pub take_from : Option ℕ → Option ℕ → Mailbox → Option Mailbox
take_from none front box = some (record box { phase = idle })
take_from (some callback) none box = some (record box { phase = idle })
take_from (some callback) (some front) box = do
  (queue, popped) ← queue_pop box.heap box.queue
  address ← popped
  node ← box.heap address
  text ← load node.data_of 0 node.size
  let call : MessageCall = record { callback = some callback; self = box.self; text = text }
  some (record box { queue = queue; phase = calling address; calls = box.calls ++ call ∷ [] })

unfoldable pub take_message : Mailbox → Option Mailbox
unfolding take_from
take_message box = take_from box.message box.queue.front box

-- The callback has returned: the message is freed.
unfoldable pub finish_call : ℕ → Mailbox → Mailbox
unfolding set_at
finish_call address box = record box { heap = set_at box.heap address none; phase = testing }

unfoldable pub start_phase : Option ℕ → Phase
start_phase none = idle
start_phase (some callback) = testing

-- libuv runs the handler of the end's `async_message`.
unfoldable pub wake : Mailbox → Mailbox
unfolding start_phase
wake box = record box { pending = false; phase = start_phase box.message }

unfoldable pub after_take :
    (Mailbox → Option Mailbox) → (Mailbox → Option Mailbox) → Phase → Mailbox → Option Mailbox
unfolding finish_call
after_take call again idle box = some box
after_take call again testing box = some box
after_take call again (calling address) box =
    call box >>= λ called. again (finish_call address called)

-- The loop of the handler, with the rounds that it may take. `call` is what the callback does to this
-- end, and what other threads do to it meanwhile.
unfoldable pub message_loop : (Mailbox → Option Mailbox) → ℕ → Mailbox → Option Mailbox
unfolding take_message after_take
message_loop call zero box = none
message_loop call (suc rounds) box =
    take_message box >>= λ taken. after_take call (message_loop call rounds) taken.phase taken

unfoldable pub message_from : Phase → (Mailbox → Option Mailbox) → ℕ → Mailbox → Option Mailbox
unfolding message_loop
message_from testing call rounds box = message_loop call rounds box
message_from idle call rounds box = some box
message_from (calling address) call rounds box = some box

pub controller_message : (Mailbox → Option Mailbox) → ℕ → Mailbox → Option Mailbox
unfolding wake message_from
controller_message call rounds box = message_from (start_phase box.message) call rounds (wake box)

-- The same code for a worker.
pub worker_message : (Mailbox → Option Mailbox) → ℕ → Mailbox → Option Mailbox
unfolding wake message_from
worker_message call rounds box = message_from (start_phase box.message) call rounds (wake box)
