-- ===== src/Client/Handlers/Users/Removal.antt =====
-- mumble/packet.c: a user who left, and the client that was kicked or banned.
use lua_mumble.Base.{
  ℕ, ◌==◌, ◌≢◌, List, Option, none, some, Bool, true, false, ◌≡◌, refl, sym, ◌∙◌, ap, arith,
}
use lua_mumble.Client.Events.{Call}
use lua_mumble.Client.Users.Agree.{mumble_user_remove_lem}
use lua_mumble.Client.Session.{MumbleClient, user_get}
use lua_mumble.Client.Session.Leave.{mumble_disconnect_lem}
use lua_mumble.Client.Session.Outcomes.{some_eq, if_true, if_false}
use lua_mumble.Client.Session.Sound.{IsSound}
use lua_mumble.Client.Handlers.Users.{UserRemove, packet_user_remove, actor_of}
use lua_mumble.Client.Handlers.Users.Laws.{IsSound-actor_of}

module _ (new_ref : ℕ → ℕ) where
  connecting-actor_of :
      (actor : Option ℕ) (ban : Option Bool) (client : MumbleClient)
      → (actor_of new_ref actor ban client).0.connecting ≡ client.connecting
  unfolding actor_of user_get
  connecting-actor_of (some session) (some ban) client = refl
  connecting-actor_of (some session) none client = refl
  connecting-actor_of none ban client = refl

  -- Another user who is removed is not known any more, and no other session changes. Where the message is
  -- about the client itself, which is connecting or connected, it knows no user and no channel
  -- afterwards and is not connected.
  pub packet_user_remove_lem :
      (user : UserRemove) (client after : MumbleClient) (calls : List Call)
      → IsSound client
      → packet_user_remove new_ref user client ≡ some (after, calls)
      → (client.session ≢ user.session
          → (after.users.table user.session ≡ none)
            × ((k : ℕ) → k ≢ user.session → after.users.table k ≡ client.users.table k))
        × (client.session ≡ user.session
            → client.connecting ≡ true
            → ((k : ℕ) → after.users.table k ≡ none)
              × ((k : ℕ) → after.channels.table k ≡ none)
              × (after.connected ≡ false))
  unfolding packet_user_remove
  packet_user_remove_lem user client after calls h e = (
    λ other.
        let differs : (client.session == user.session) ≡ false = ground (arith, other) in
        let left = ap (λ p. p.0.users) (some_eq (sym (if_false _ _ _ differs) ∙ e)) in
        let (agreed, absent, same) =
          mumble_user_remove_lem client.users user.session h.users_kept.agreed in
        (ap (λ u. u.table user.session) left ∙ absent, λ k n. ap (λ u. u.table k) left ∙ same k n),
    λ own on.
        let same : (client.session == user.session) ≡ true = ground (arith, own) in
        let left = ap (λ p. p.0) (some_eq (sym (if_true _ _ _ same) ∙ e)) in
        let (no_users, no_channels, users, channels, off) =
          mumble_disconnect_lem _ _ (IsSound-actor_of new_ref user.actor user.ban client h)
            (connecting-actor_of user.actor user.ban client ∙ on) in
        (
          λ k. ap (λ c. c.users.table k) left ∙ no_users k,
          λ k. ap (λ c. c.channels.table k) left ∙ no_channels k,
          ap (λ c. c.connected) left ∙ off,
        ),
  )
