-- ===== src/Threads/Mailbox/Fifo.antt =====
-- mumble/thread.c: the messages of one end under any interleaving of its handler, its Lua code and the
-- sends of the other threads.
use lua_mumble.Base.{ℕ, List, [], ◌∷◌, ◌++◌, Option, none, some, load, length, ◌≡◌, ◌≢◌, refl, ap}
use lua_mumble.Strndup.{IsText}
use lua_mumble.Buffer.{buffer_length}
use lua_mumble.Queue.{Heap}
use lua_mumble.Queue.Chain.{Item, IsChain, IsAway}
use lua_mumble.Queue.Fifo.{IsQueue}
use lua_mumble.Threads.Mailbox.{
  Phase, idle, testing, calling, MessageCall, Mailbox, new_mailbox, Argument, string, buffer,
  no_message, sent, send, on_message, take_message, finish_call, wake,
}

-- The bytes that an argument of `send` stands for.
unfoldable pub bytes_of : Argument → Option (List ℕ)
bytes_of (string bytes) = some bytes
bytes_of (buffer b) = load b.mem b.read_head (buffer_length b)
bytes_of no_message = none

unfoldable pub texts : List MessageCall → List (List ℕ)
texts [] = []
texts (call ∷ rest) = call.text ∷ texts rest

-- A message that waits, at its address.
unfoldable pub item_of : ℕ × List ℕ → Item
item_of (address, bytes) = record {
  address = address;
  data_of = bytes ++ 0 ∷ [];
  size = length bytes;
}

unfoldable pub items_of : List (ℕ × List ℕ) → List Item
unfolding item_of
items_of [] = []
items_of (entry ∷ rest) = item_of entry ∷ items_of rest

unfoldable pub waiting_texts : List (ℕ × List ℕ) → List (List ℕ)
waiting_texts [] = []
waiting_texts ((address, bytes) ∷ rest) = bytes ∷ waiting_texts rest

-- What has been sent to an end, and the state that it may be in: the steps of its thread and those of the
-- others come in any order. Messages with a zero byte are left out.
pub data Reached : List (List ℕ) → Mailbox → Type 0 where
  created : (message self : Option ℕ) → Reached [] (new_mailbox message self)
  posted :
      {log : List (List ℕ)} {box box' : Mailbox} (address : ℕ) (argument : Argument)
      (bytes : List ℕ)
      → Reached log box
      → box.heap address ≡ none
      → bytes_of argument ≡ some bytes
      → IsText bytes
      → send address argument box ≡ some (sent box')
      → Reached (log ++ bytes ∷ []) box'
  woken :
      {log : List (List ℕ)} {box : Mailbox}
      → Reached log box
      → box.phase ≡ idle
      → Reached log (wake box)
  taken :
      {log : List (List ℕ)} {box box' : Mailbox}
      → Reached log box
      → box.phase ≡ testing
      → take_message box ≡ some box'
      → Reached log box'
  returned :
      {log : List (List ℕ)} {box : Mailbox} (address : ℕ)
      → Reached log box
      → box.phase ≡ calling address
      → Reached log (finish_call address box)
  listened :
      {log : List (List ℕ)} {box : Mailbox} (callback : Option ℕ)
      → Reached log box
      → Reached log (on_message callback box)
  released :
      {log : List (List ℕ)} {box : Mailbox}
      → Reached log box
      → Reached log (record box { self = none })

-- The message in hand is allocated and not in the queue.
unfoldable pub InHand : Phase → Heap → List Item → Type 0
InHand idle heap items = Unit {0}
InHand testing heap items = Unit {0}
InHand (calling address) heap items = IsAway address items × (heap address ≢ none)

-- What was sent is what the callback was given, in order, and then what waits in the queue.
pub record IsFifo (log : List (List ℕ)) (box : Mailbox) (waiting : List (ℕ × List ℕ)) : Type 0 where
  pub queued : IsQueue box.heap box.queue (items_of waiting)
  pub order : texts box.calls ++ waiting_texts waiting ≡ log
  pub in_hand : InHand box.phase box.heap (items_of waiting)

pub items_of-append :
    (waiting : List (ℕ × List ℕ)) (entry : ℕ × List ℕ)
    → items_of (waiting ++ entry ∷ []) ≡ items_of waiting ++ item_of entry ∷ []
unfolding items_of
items_of-append [] entry = refl
items_of-append (first ∷ rest) entry = ap (◌∷◌ (item_of first)) (items_of-append rest entry)

pub waiting_texts-append :
    (waiting : List (ℕ × List ℕ)) (address : ℕ) (bytes : List ℕ)
    → waiting_texts (waiting ++ (address, bytes) ∷ []) ≡ waiting_texts waiting ++ bytes ∷ []
unfolding waiting_texts
waiting_texts-append [] address bytes = refl
waiting_texts-append ((a, first) ∷ rest) address bytes =
    ap (◌∷◌ first) (waiting_texts-append rest address bytes)

pub texts-append :
    (calls : List MessageCall) (call : MessageCall)
    → texts (calls ++ call ∷ []) ≡ texts calls ++ call.text ∷ []
unfolding texts
texts-append [] call = refl
texts-append (first ∷ rest) call = ap (◌∷◌ first.text) (texts-append rest call)

-- An address that is not in use is not in the chain.
pub IsChain-IsAway :
    (heap : Heap) (address : ℕ) (items : List Item)
    → heap address ≡ none
    → IsChain heap items
    → IsAway address items
unfolding IsChain IsAway
IsChain-IsAway heap address [] unused chain = tt
IsChain-IsAway heap address (item ∷ rest) unused (here, chain) =
    (λ same. cc (here, unused, ap heap same), IsChain-IsAway heap address rest unused chain)
