-- ===== src/Client/Session/Objects.antt =====
-- mumble/mumble.c: the table and the list agree, and an object stands at its own number, whatever is added,
-- removed or changed.
use lua_mumble.Base.{
  ℕ, ◌⊎◌, ◌≢◌, ◌==◌, List, [], ◌∷◌, Option, none, some, ◌≡◌, refl, sym, ◌∙◌, ap, arith,
  if◌then◌else◌, Option-cases, inl, inr,
}
use native.Mathlib.Decide.{ℕ_discrete}
use lua_mumble.Links.{LinkNode, list_get}
use lua_mumble.Links.Laws.{copies}
use lua_mumble.Client.Users.{Known}
use lua_mumble.Client.Users.Kept.{IsKept}
use lua_mumble.Client.Session.{
  change_found, update_nodes, update_table, update, change_nodes, update_all,
}

module _ {A : Type 0} where
  found_some :
      (change : A → A) (o : Option A) (b : A)
      → change_found change o ≡ some b
      → (a : A) × (o ≡ some a) × (change a ≡ b)
  unfolding change_found
  found_some change none b e = ground (arith, e)
  found_some change (some a) b e = (a, refl, ground (arith, e))

  -- What a changed table holds is a changed object of the key, or one that was there.
  found_update :
      (key : ℕ) (change : A → A) (table : ℕ → Option A) (k : ℕ) (b : A)
      → update_table key change table k ≡ some b
      → ((a : A) × (k ≡ key) × (table k ≡ some a) × (change a ≡ b)) ⊎ (table k ≡ some b)
  unfolding update_table change_found
  found_update key change table k b e = elim (Option-cases (table k)) [
    | inl absent ↦ absurd (ground (arith, absent, e))
    | inr (a, e₁) ↦ elim (ℕ_discrete k key) [
      | yes same ↦ inl (a, same, e₁, ground (arith, same, e₁, e))
      | no other ↦ inr (ground (arith, other, e))
    ]
  ]

  list_get-update_nodes :
      (key : ℕ) (change : A → A) (l : List (LinkNode A)) (k : ℕ)
      → list_get (update_nodes key change l) k
        ≡ (if k == key then change_found change (list_get l k) else list_get l k)
  unfolding list_get update_nodes change_found
  list_get-update_nodes key change [] k = ground arith
  list_get-update_nodes key change (node ∷ next) k =
      ground (arith, list_get-update_nodes key change next k)

  copies-update_nodes :
      (key : ℕ) (change : A → A) (l : List (LinkNode A)) (k : ℕ)
      → copies (update_nodes key change l) k ≡ copies l k
  unfolding update_nodes copies
  copies-update_nodes key change [] k = refl
  copies-update_nodes key change (node ∷ next) k =
      ground (arith, copies-update_nodes key change next k)

  list_get-change_nodes :
      (change : A → A) (l : List (LinkNode A)) (k : ℕ)
      → list_get (change_nodes change l) k ≡ change_found change (list_get l k)
  unfolding list_get change_nodes change_found
  list_get-change_nodes change [] k = refl
  list_get-change_nodes change (node ∷ next) k = ground (arith, list_get-change_nodes change next k)

  copies-change_nodes :
      (change : A → A) (l : List (LinkNode A)) (k : ℕ)
      → copies (change_nodes change l) k ≡ copies l k
  unfolding change_nodes copies
  copies-change_nodes change [] k = refl
  copies-change_nodes change (node ∷ next) k = ground (arith, copies-change_nodes change next k)

-- A change that keeps the object's number keeps everything.
module _ {A : Type 0} (id : A → ℕ) (change : A → A) (known : Known A) (h : IsKept id known) where
  pub IsKept-update :
      (key : ℕ) → ((a : A) → id a ≡ key → id (change a) ≡ key) → IsKept id (update key change known)
  unfolding update update_table
  IsKept-update key keeps = record {
    agreed = record {
      same = λ k. ground (arith, h.agreed.same k, list_get-update_nodes key change known.list k);
      once = λ k. omega (arith, h.agreed.once k, copies-update_nodes key change known.list k);
    };
    own = λ k b e. elim (found_update key change known.table k b e) [
      | inl (a, same, e₁, e₂) ↦ ap id (sym e₂) ∙ keeps a (h.own k a e₁ ∙ same) ∙ sym same
      | inr e₁ ↦ h.own k b e₁
    ];
  }

  pub IsKept-update_all : ((a : A) → id (change a) ≡ id a) → IsKept id (update_all change known)
  unfolding update_all
  IsKept-update_all keeps = record {
    agreed = record {
      same = λ k. rw (list_get-change_nodes change known.list k, h.agreed.same k) refl;
      once = λ k. omega (arith, h.agreed.once k, copies-change_nodes change known.list k);
    };
    own = λ k b e.
        let (a, e₁, e₂) = found_some change (known.table k) b e in
        ap id (sym e₂) ∙ keeps a ∙ h.own k a e₁;
  }

-- A changed object stands at its key, and no other key changes.
pub table-update :
    {A : Type 0} (key : ℕ) (change : A → A) (known : Known A) (a : A)
    → known.table key ≡ some a
    → ((update key change known).table key ≡ some (change a))
      × ((k : ℕ) → k ≢ key → (update key change known).table k ≡ known.table k)
unfolding update update_table change_found
table-update key change known a e = (ground (arith, e), λ k n. ground (arith, n))
