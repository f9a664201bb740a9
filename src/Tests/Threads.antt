-- ===== src/Tests/Threads.antt =====
-- A worker that is sent a message, and threads that run and have ended.
use lua_mumble.Base.{
  ℕ, ◌^◌, ◌<◌, List, [], ◌∷◌, ◌++◌, none, some, true, false, ◌==◌, if◌then◌else◌, length, ◌≡◌, ◌≢◌,
  ◌⊎◌, refl, arith, All,
}
use lua_mumble.Tests.Memory.{memory, memory-IsMemory}
use lua_mumble.Threads.Mailbox.{
  Mailbox, idle, new_mailbox, string, send, post, on_message, take_message, controller_message,
  worker_message,
}
use lua_mumble.Threads.Mailbox.Fifo.{Reached, created, posted, listened, texts, bytes_of}
use lua_mumble.Threads.Mailbox.Order.{Reached_order}
use lua_mumble.Threads.Mailbox.Delivery.{send_delivered}
use lua_mumble.Threads.Bytecode.{no_dump, script_dump, function, filename, neither}
use lua_mumble.Threads.Bytecode.Pieces.{script_dump_lem, bytes_of_dump, concat}
use lua_mumble.Threads.Life.{
  ending, ended, joined, Thread, new_thread, load_script, end_script, worker_step, worker_start,
  controller_join, controller_gc, waits, returns,
}
use lua_mumble.Threads.Life.Laws.{Life, started_by, stepped}
use lua_mumble.Threads.Life.Outcomes.{finish_once, controller_join_lem}
use lua_mumble.Strndup.{IsText, strndup}
use lua_mumble.Queue.{queue_new, queue_push}

-- A worker that listens with its callback 9.
abbrev listening : Mailbox
listening = record {
  heap = λ address. none;
  queue = record { front = none; rear = none };
  message = some 9;
  self = some 4;
  pending = false;
  phase = idle;
  calls = [];
}

listening-Reached : Reached [] listening
unfolding new_mailbox on_message queue_new
listening-Reached = listened (some 9) (created none (some 4))

-- "hi" is sent.
abbrev told : Mailbox
told = record {
  heap = λ k.
      if k == 16
      then some (record { data_of = 104 ∷ 105 ∷ 0 ∷ []; size = 2; next = none })
      else none;
  queue = record { front = some 16; rear = some 16 };
  message = some 9;
  self = some 4;
  pending = true;
  phase = idle;
  calls = [];
}

hi-IsText : IsText (104 ∷ 105 ∷ [])
unfolding IsText
hi-IsText = (λ e. omega (arith, e), (λ e. omega (arith, e), tt))

told-Reached : Reached ((104 ∷ 105 ∷ []) ∷ []) told
unfolding send post strndup bytes_of queue_push
told-Reached =
    posted 16 (string (104 ∷ 105 ∷ [])) (104 ∷ 105 ∷ []) listening-Reached refl refl hi-IsText refl

Reached_order_example :
    (rest : List (List ℕ)) × (texts told.calls ++ rest ≡ (104 ∷ 105 ∷ []) ∷ [])
    × (told.queue.front ≡ none → rest ≡ [])
    × (take_message told ≢ none)
Reached_order_example = Reached_order told-Reached

send_delivered_example :
    (told.pending ≡ true)
    × (after : Mailbox) × (controller_message some 2 told ≡ some after)
    × (worker_message some 2 told ≡ some after)
    × (texts after.calls ≡ (104 ∷ 105 ∷ []) ∷ [])
    × (after.queue.front ≡ none)
unfolding send post strndup bytes_of queue_push
send_delivered_example =
    send_delivered {box' = told} some 16 9 (string (104 ∷ 105 ∷ [])) (104 ∷ 105 ∷ [])
      listening-Reached refl refl refl hi-IsText refl (λ box. (box.self, box.pending, refl))

script_dump_lem_example :
    ((pieces : List (List ℕ))
      → All (λ piece. length piece < 2 ^ 63) pieces
      → (script_dump memory (function pieces) ≢ none)
        × (script_dump memory (function pieces) ≡ some (false, no_dump)
            → (bytes_of_dump no_dump.bytecode ≡ concat pieces)
              × (no_dump.bytecode_size ≡ length (concat pieces))))
    × (script_dump memory filename ≡ some (false, no_dump))
    × (script_dump memory neither ≢ some (false, no_dump))
script_dump_lem_example = script_dump_lem memory no_dump memory-IsMemory

running-Life : Life (end_script (load_script true none 5 (new_thread 7)))
unfolding worker_step load_script new_thread
running-Life = stepped true none 5 0 (stepped true none 5 0 (started_by 7) refl) refl

failed-Life : Life (load_script false none 5 (new_thread 7))
unfolding worker_step new_thread
failed-Life = stepped false none 5 0 (started_by 7) refl

abbrev ended_thread : Thread
ended_thread = load_script false none 5 (new_thread 7)

finish_once_example :
    ((ended_thread.finish_calls ≡ [])
      ⊎ ((callback : ℕ) × (self : ℕ) × (ended_thread.finish_calls ≡ (callback, some self) ∷ [])))
    × (ended_thread.finish_calls ≢ []
        → (ended_thread.controller.self ≡ none)
          × (ended_thread.finish_pending ≡ false)
          × ((ended_thread.stage ≡ ending) ⊎ (ended_thread.stage ≡ ended)))
finish_once_example = finish_once failed-Life

controller_join_lem_example :
    ((new_thread 7).stage ≢ ended → controller_join (new_thread 7) ≡ some waits)
    × (after : Thread) × (worker_start 3 true none 5 0 (new_thread 7) ≡ some after)
    × (controller_join after ≡ some (returns (record after { handle = joined })))
    × (controller_join (record after { handle = joined }) ≡ none)
    × ((k : ℕ) → controller_gc k (record after { handle = joined }) ≡ none)
unfolding new_thread
controller_join_lem_example =
    controller_join_lem true none 5 0 (started_by 7) refl (λ box e. absurd (ground (arith, e)))
