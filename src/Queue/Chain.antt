-- ===== src/Queue/Chain.antt =====
-- mumble/util.c: the nodes of a queue in the heap, from the front on.
use lua_mumble.Base.{ℕ, List, [], ◌∷◌, Option, none, some, ◌≡◌, ◌≢◌, ◌∙◌, arith, All}
use lua_mumble.Queue.{QueueNode, Heap, set_at}

-- A message at its address.
pub record Item : Type 0 where
  pub address : ℕ
  pub data_of : List ℕ
  pub size : ℕ

unfoldable pub node_of : Item → Option ℕ → QueueNode
node_of item next = record { data_of = item.data_of; size = item.size; next = next }

unfoldable pub head_of : List Item → Option ℕ
head_of [] = none
head_of (item ∷ rest) = some item.address

unfoldable pub last_of : List Item → Option ℕ
last_of [] = none
last_of (item ∷ []) = some item.address
last_of (item ∷ second ∷ rest) = last_of (second ∷ rest)

-- Every item's node is in the heap and leads to the next item.
unfoldable pub IsChain : Heap → List Item → Type 0
unfolding node_of head_of
IsChain heap [] = Unit {0}
IsChain heap (item ∷ rest) =
    (heap item.address ≡ some (node_of item (head_of rest))) × IsChain heap rest

unfoldable pub IsAway : ℕ → List Item → Type 0
IsAway address items = All (λ item. item.address ≢ address) items

unfoldable pub IsApart : List Item → Type 0
unfolding IsAway
IsApart [] = Unit {0}
IsApart (item ∷ rest) = IsAway item.address rest × IsApart rest

pub set_at_other :
    (heap : Heap) (address : ℕ) (content : Option QueueNode) (k : ℕ)
    → k ≢ address
    → set_at heap address content k ≡ heap k
unfolding set_at
set_at_other heap address content k n = ground (arith, n)

pub set_at_same :
    (heap : Heap) (address : ℕ) (content : Option QueueNode)
    → set_at heap address content address ≡ content
unfolding set_at
set_at_same heap address content = ground arith

-- A write elsewhere leaves the chain alone.
pub IsChain-set_at :
    (heap : Heap) (address : ℕ) (content : Option QueueNode) (items : List Item)
    → IsAway address items
    → IsChain heap items
    → IsChain (set_at heap address content) items
unfolding IsChain IsAway
IsChain-set_at heap address content [] away chain = tt
IsChain-set_at heap address content (item ∷ rest) (n, away) (here, chain) = (
  set_at_other heap address content item.address n ∙ here,
  IsChain-set_at heap address content rest away chain,
)
