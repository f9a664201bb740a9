-- ===== src/Client/Users/Agree.antt =====
-- mumble/mumble.c: the Lua table and the linked list of users and channels agree.
use lua_mumble.Base.{ℕ, ◌≤◌, ◌≢◌, none, some, ◌≡◌, refl, ◌∙◌, arith, Option-cases, inl, inr}
use lua_mumble.Links.{list_add, list_get}
use lua_mumble.Links.Laws.{
  copies, list_get-list_add, list_get-list_remove, list_get-list_remove_other, copies_absent,
  copies-list_add, copies-list_remove,
}
use lua_mumble.Client.Users.{
  MumbleUser, MumbleChannel, Known, mumble_user_get, mumble_user_remove, mumble_channel_get,
  mumble_channel_remove, get_or_add, remove, set_key,
}

-- Both hold the same object at every key, and the list holds a key at most once.
pub record IsAgreed {A : Type 0} (known : Known A) : Type 0 where
  pub same : (k : ℕ) → list_get known.list k ≡ known.table k
  pub once : (k : ℕ) → copies known.list k ≤ 1

module _ {A : Type 0} (known : Known A) (key : ℕ) where
  pub found_eq :
      (made found : A) → known.table key ≡ some found → get_or_add known key made ≡ (known, found)
  unfolding get_or_add
  found_eq made found e = rw (e, get_or_add) refl

  pub added_eq :
      (made : A)
      → known.table key ≡ none
      → get_or_add known key made ≡ (
        record { table = set_key known.table key (some made); list = list_add known.list key made },
        made,
      )
  unfolding get_or_add
  added_eq made e = rw (e, get_or_add) refl

  pub get_or_add_lem :
      (made : A)
      → IsAgreed known
      → IsAgreed (get_or_add known key made).0
        × ((get_or_add known key made).0.table key ≡ some (get_or_add known key made).1)
        × ((k : ℕ) → k ≢ key → (get_or_add known key made).0.table k ≡ known.table k)
  get_or_add_lem made h = elim (Option-cases (known.table key)) [
    | inr (found, e) ↦ rw (found_eq made found e) (h, e, λ k n. refl)
    | inl e ↦
        let empty = copies_absent known.list key (h.same key ∙ e) in
        rw (added_eq made e) (
          record {
            same = λ k.
                unfold set_key in ground (arith, h.same k, list_get-list_add known.list key made k);
            once = λ k. ground (arith, h.once k, copies-list_add known.list key made k);
          },
          unfold set_key in ground arith,
          λ k n. unfold set_key in ground arith,
        )
  ]

  pub remove_lem :
      IsAgreed known
      → IsAgreed (remove known key)
        × ((remove known key).table key ≡ none)
        × ((k : ℕ) → k ≢ key → (remove known key).table k ≡ known.table k)
  unfolding remove set_key
  remove_lem h = (
    record {
      same = λ k. ground (
        arith,
        h.same k,
        h.once k,
        list_get-list_remove known.list key,
        list_get-list_remove_other known.list key k,
      );
      once = λ k. omega (arith, h.once k, copies-list_remove known.list key k);
    },
    ground arith,
    λ k n. ground arith,
  )

-- `mumble_user_get` returns the user of the session, which both the table and the list hold from
-- then on, and changes no other session.
pub mumble_user_get_lem :
    (ref : ℕ) (known : Known MumbleUser) (session : ℕ)
    → IsAgreed known
    → IsAgreed (mumble_user_get ref known session).0
      × ((mumble_user_get ref known session).0.table session
          ≡ some (mumble_user_get ref known session).1)
      × ((k : ℕ) → k ≢ session → (mumble_user_get ref known session).0.table k ≡ known.table k)
unfolding mumble_user_get
mumble_user_get_lem ref known session h = get_or_add_lem known session _ h

-- `mumble_user_remove` takes the session out of both, and changes no other one.
pub mumble_user_remove_lem :
    (known : Known MumbleUser) (session : ℕ)
    → IsAgreed known
    → IsAgreed (mumble_user_remove known session)
      × ((mumble_user_remove known session).table session ≡ none)
      × ((k : ℕ) → k ≢ session → (mumble_user_remove known session).table k ≡ known.table k)
unfolding mumble_user_remove
mumble_user_remove_lem known session h = remove_lem known session h

-- `mumble_channel_get` returns the channel of the number, which both the table and the list hold
-- from then on, and changes no other one.
pub mumble_channel_get_lem :
    (ref : ℕ) (known : Known MumbleChannel) (channel_id : ℕ)
    → IsAgreed known
    → IsAgreed (mumble_channel_get ref known channel_id).0
      × ((mumble_channel_get ref known channel_id).0.table channel_id
          ≡ some (mumble_channel_get ref known channel_id).1)
      × ((k : ℕ)
          → k ≢ channel_id
          → (mumble_channel_get ref known channel_id).0.table k ≡ known.table k)
unfolding mumble_channel_get
mumble_channel_get_lem ref known channel_id h = get_or_add_lem known channel_id _ h

-- `mumble_channel_remove` takes the channel out of both, and changes no other one.
pub mumble_channel_remove_lem :
    (known : Known MumbleChannel) (channel_id : ℕ)
    → IsAgreed known
    → IsAgreed (mumble_channel_remove known channel_id)
      × ((mumble_channel_remove known channel_id).table channel_id ≡ none)
      × ((k : ℕ)
          → k ≢ channel_id
          → (mumble_channel_remove known channel_id).table k ≡ known.table k)
unfolding mumble_channel_remove
mumble_channel_remove_lem known channel_id h = remove_lem known channel_id h
