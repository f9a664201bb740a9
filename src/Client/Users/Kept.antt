-- ===== src/Client/Users/Kept.antt =====
-- mumble/mumble.c: an object that is known stands at its own number.
use lua_mumble.Base.{
  ℕ, Bool, false, Option, none, some, ◌≡◌, refl, arith, Option-cases, inl, inr, ap, sym, ◌∙◌,
}
use lua_mumble.Links.{list_remove}
use lua_mumble.Client.Users.{
  Known, MumbleUser, MumbleChannel, mumble_user_get, mumble_user_remove, mumble_channel_get,
  mumble_channel_remove, get_or_add, remove, set_key, new_user, new_channel,
}
use lua_mumble.Client.Users.Agree.{IsAgreed, get_or_add_lem, remove_lem, found_eq, added_eq}

-- `id` is the number that an object has itself.
pub record IsKept {A : Type 0} (id : A → ℕ) (known : Known A) : Type 0 where
  pub agreed : IsAgreed known
  pub own : (k : ℕ) (a : A) → known.table k ≡ some a → id a ≡ k

module _ {A : Type 0} (id : A → ℕ) (known : Known A) (key : ℕ) (h : IsKept id known) where
  pub IsKept-get_or_add :
      (made : A)
      → id made ≡ key
      → IsKept id (get_or_add known key made).0
        × ((get_or_add known key made).0.table key ≡ some (get_or_add known key made).1)
  IsKept-get_or_add made e =
      let (agreed, found, other) = get_or_add_lem known key made h.agreed in
      (
        record {
          agreed = agreed;
          own = elim (Option-cases (known.table key)) [
            | inr (was, e₁) ↦ rw (found_eq known key made was e₁) h.own
            | inl e₁ ↦
                rw (added_eq known key made e₁)
                  (λ k a e₂. unfold set_key in ground (arith, h.own k a, e, e₂))
          ];
        },
        found,
      )

  pub IsKept-remove : IsKept id (remove known key)
  unfolding remove set_key
  IsKept-remove =
      let (agreed, absent, other) = remove_lem known key h.agreed in
      record { agreed = agreed; own = λ k a e. ground (arith, h.own k a, e) }

-- The users, at their sessions.
module _ (known : Known MumbleUser) (session : ℕ) (h : IsKept (λ user. user.session) known) where
  pub IsKept-mumble_user_get :
      (ref : ℕ)
      → IsKept (λ user. user.session) (mumble_user_get ref known session).0
        × ((mumble_user_get ref known session).0.table session
            ≡ some (mumble_user_get ref known session).1)
  unfolding mumble_user_get new_user
  IsKept-mumble_user_get ref =
      IsKept-get_or_add (λ user. user.session) known session h (new_user ref session) refl

  pub IsKept-mumble_user_remove : IsKept (λ user. user.session) (mumble_user_remove known session)
  unfolding mumble_user_remove
  IsKept-mumble_user_remove = IsKept-remove (λ user. user.session) known session h

-- The channels, at their numbers.
module _ (known : Known MumbleChannel) (channel_id : ℕ)
    (h : IsKept (λ channel. channel.channel_id) known) where
  pub IsKept-mumble_channel_get :
      (ref : ℕ)
      → IsKept (λ channel. channel.channel_id) (mumble_channel_get ref known channel_id).0
        × ((mumble_channel_get ref known channel_id).0.table channel_id
            ≡ some (mumble_channel_get ref known channel_id).1)
  unfolding mumble_channel_get new_channel
  IsKept-mumble_channel_get ref =
      IsKept-get_or_add (λ channel. channel.channel_id) known channel_id h
        (new_channel ref channel_id) refl

  pub IsKept-mumble_channel_remove :
      IsKept (λ channel. channel.channel_id) (mumble_channel_remove known channel_id)
  unfolding mumble_channel_remove
  IsKept-mumble_channel_remove = IsKept-remove (λ channel. channel.channel_id) known channel_id h

pub list-mumble_user_remove :
    (known : Known MumbleUser) (session : ℕ)
    → (mumble_user_remove known session).list ≡ list_remove known.list session
unfolding mumble_user_remove remove
list-mumble_user_remove known session = refl

pub list-mumble_channel_remove :
    (known : Known MumbleChannel) (channel_id : ℕ)
    → (mumble_channel_remove known channel_id).list ≡ list_remove known.list channel_id
unfolding mumble_channel_remove remove
list-mumble_channel_remove known channel_id = refl

pub mumble_user_get_found :
    (ref : ℕ) (known : Known MumbleUser) (session : ℕ) (user : MumbleUser)
    → known.table session ≡ some user
    → mumble_user_get ref known session ≡ (known, user)
unfolding mumble_user_get
mumble_user_get_found ref known session user e =
    found_eq known session (new_user ref session) user e

-- Whether a user that need not be there is speaking.
abbrev pub speaking_of : Option MumbleUser → Bool
speaking_of none = false
speaking_of (some user) = user.speaking

-- A new user is not speaking.
pub mumble_user_get_speaking :
    (ref : ℕ) (known : Known MumbleUser) (session : ℕ)
    → (mumble_user_get ref known session).1.speaking ≡ speaking_of (known.table session)
unfolding mumble_user_get get_or_add new_user
mumble_user_get_speaking ref known session = elim (Option-cases (known.table session)) [
  | inl absent ↦
      ap (λ p. p.1.speaking) (added_eq known session (new_user ref session) absent)
      ∙ ap speaking_of (sym absent)
  | inr (user, found) ↦
      ap (λ p. p.1.speaking) (found_eq known session (new_user ref session) user found)
      ∙ ap speaking_of (sym found)
]
