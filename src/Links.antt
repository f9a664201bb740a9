-- ===== src/Links.antt =====
-- mumble/util.c: the singly linked lists that hold clients, users' streams and pipes. A list is the
-- nodes from its head on, each with its index and its data; `A` is a pointer, and freeing a node is
-- dropping it.
pub mod Laws
use lua_mumble.Base.{
  ℕ, suc, List, [], ◌∷◌, Option, none, some, ◌==◌, if◌then◌else◌, Bool, true, false,
}

pub record LinkNode {ℓ} (A : Type ℓ) : Type ℓ where
  pub index : ℕ
  pub data_of : A

module _ {ℓ} {A : Type ℓ} where
  pub list_add : List (LinkNode A) → ℕ → A → List (LinkNode A)
  list_add head index d = record { index = index; data_of = d } ∷ head

  -- The first node with the index is unlinked.
  pub list_remove : List (LinkNode A) → ℕ → List (LinkNode A)
  list_remove [] index = []
  list_remove (node ∷ next) index =
      if node.index == index then next else node ∷ list_remove next index

  -- `same` compares two pointers.
  pub list_remove_data : (A → A → Bool) → List (LinkNode A) → A → List (LinkNode A)
  list_remove_data same [] d = []
  list_remove_data same (node ∷ next) d =
      if same node.data_of d then next else node ∷ list_remove_data same next d

  pub list_clear : List (LinkNode A) → List (LinkNode A)
  list_clear [] = []
  list_clear (node ∷ next) = list_clear next

  pub list_count : List (LinkNode A) → ℕ
  list_count [] = 0
  list_count (node ∷ next) = suc (list_count next)

  unfoldable pub list_get : List (LinkNode A) → ℕ → Option A
  list_get [] index = none
  list_get (node ∷ next) index =
      if node.index == index then some node.data_of else list_get next index
