-- ===== src/Links/Laws.antt =====
-- mumble/util.c: what the linked lists find after an addition and a removal.
use lua_mumble.Base.{
  if◌then◌else◌, ℕ, suc, ◌-◌, ◌≤◌, List, [], ◌∷◌, none, some, ◌==◌, true, false, ◌≡◌, ◌≢◌, refl,
  arith,
}
use native.Mathlib.Decide.{ℕ_discrete}
use lua_mumble.Links.{LinkNode, list_add, list_remove, list_clear, list_count, list_get}

module _ {ℓ} {A : Type ℓ} where
  -- How many nodes have the index.
  unfoldable pub copies : List (LinkNode A) → ℕ → ℕ
  copies [] index = 0
  copies (node ∷ next) index =
      if node.index == index then suc (copies next index) else copies next index

  -- An index that was added is found with its data, and every other index as before.
  pub list_get-list_add :
      (l : List (LinkNode A)) (index : ℕ) (d : A) (other : ℕ)
      → (list_get (list_add l index d) index ≡ some d)
        × (other ≢ index → list_get (list_add l index d) other ≡ list_get l other)
        × (list_count (list_add l index d) ≡ suc (list_count l))
  unfolding list_get list_add list_count
  list_get-list_add l index d other = ground arith

  -- A removal leaves every other index alone.
  pub list_get-list_remove_other :
      (l : List (LinkNode A)) (index other : ℕ)
      → other ≢ index
      → list_get (list_remove l index) other ≡ list_get l other
  unfolding list_get list_remove
  list_get-list_remove_other [] index other h = refl
  list_get-list_remove_other (node ∷ next) index other h =
      ground (arith, list_get-list_remove_other next index other h)

  -- Where the index is there at most once, it is not found after it was removed.
  pub list_get-list_remove :
      (l : List (LinkNode A)) (index : ℕ)
      → copies l index ≤ 1
      → list_get (list_remove l index) index ≡ none
  unfolding list_get list_remove copies
  list_get-list_remove [] index h = refl
  list_get-list_remove (node ∷ next) index h =
      ground (arith, list_get-list_remove next index, absent next index)
    where
      absent : (l : List (LinkNode A)) (index : ℕ) → copies l index ≡ 0 → list_get l index ≡ none
      absent [] index h = refl
      absent (node ∷ next) index h = ground (arith, absent next index)

  -- A removal makes the list one shorter where the index is found, and else leaves it as it is.
  pub list_count-list_remove :
      (l : List (LinkNode A)) (index : ℕ)
      → (list_get l index ≡ none → list_remove l index ≡ l)
        × (list_get l index ≢ none → suc (list_count (list_remove l index)) ≡ list_count l)
  unfolding list_get list_remove list_count
  list_count-list_remove [] index = ((λ h. refl), (λ h. absurd (h refl)))
  list_count-list_remove (node ∷ next) index = ground (arith, list_count-list_remove next index)

  pub list_clear_lem : (l : List (LinkNode A)) → list_clear l ≡ []
  unfolding list_clear
  list_clear_lem [] = refl
  list_clear_lem (node ∷ next) = list_clear_lem next

  pub copies_absent :
      (l : List (LinkNode A)) (index : ℕ) → list_get l index ≡ none → copies l index ≡ 0
  unfolding list_get copies
  copies_absent [] index h = refl
  copies_absent (node ∷ next) index h = ground (arith, copies_absent next index)

  pub copies-list_add :
      (l : List (LinkNode A)) (index : ℕ) (d : A) (other : ℕ)
      → ((index == other) ≡ true → copies (list_add l index d) other ≡ suc (copies l other))
        × ((index == other) ≡ false → copies (list_add l index d) other ≡ copies l other)
  unfolding list_add copies
  copies-list_add l index d other = ground arith

  pub copies-list_remove :
      (l : List (LinkNode A)) (index other : ℕ)
      → copies (list_remove l index) other ≤ copies l other
  unfolding list_remove copies
  copies-list_remove [] index other = omega arith
  copies-list_remove (node ∷ next) index other = ground (arith, copies-list_remove next index other)

  pub list_remove_head :
      (node : LinkNode A) (next : List (LinkNode A)) → list_remove (node ∷ next) node.index ≡ next
  unfolding list_remove
  list_remove_head node next = ground arith

  -- A removal takes one of the nodes with the index.
  pub copies-list_remove_eq :
      (l : List (LinkNode A)) (index other : ℕ)
      → copies (list_remove l index) other
        ≡ (if index == other then copies l other - 1 else copies l other)
  unfolding list_remove copies
  copies-list_remove_eq [] index other = ground arith
  copies-list_remove_eq (node ∷ next) index other = elim (ℕ_discrete node.index index) [
    | yes e ↦ ground (arith, e)
    | no n ↦ elim (ℕ_discrete index other) [
      | yes e ↦ ground (arith, n, e, copies-list_remove_eq next index other)
      | no m ↦ ground (arith, n, m, copies-list_remove_eq next index other)
    ]
  ]
