-- ===== src/Client/Session/Sound.antt =====
-- mumble/mumble.c: what holds of a client between two messages, and that each access to its users and
-- channels keeps it.
use lua_mumble.Base.{ℕ, some, none, ◌≡◌, List, [], ◌∷◌, Option, ◌∙◌, false, true, Bool, ◌>>=◌}
use lua_mumble.Links.{LinkNode}
use lua_mumble.Client.Users.{Known, MumbleUser, MumbleChannel}
use lua_mumble.Client.Users.Kept.{
  IsKept, IsKept-mumble_user_get, IsKept-mumble_user_remove, IsKept-mumble_channel_get,
  IsKept-mumble_channel_remove,
}
use lua_mumble.Client.Events.{Call}
use lua_mumble.Client.Session.{
  MumbleClient, Outcome, needs, user_get, channel_get, change_user, change_channel, remove_users,
  remove_channels, mumble_client_cleanup, mumble_disconnect, leave,
}
use lua_mumble.Client.Session.Objects.{IsKept-update}

-- The users and the channels are each known alike to their table and list, at their own numbers.
pub record IsSound (client : MumbleClient) : Type 0 where
  pub users_kept : IsKept (λ user. user.session) client.users
  pub channels_kept : IsKept (λ channel. channel.channel_id) client.channels

module _ (new_ref : ℕ → ℕ) (client : MumbleClient) (h : IsSound client) where
  pub IsSound-user_get :
      (session : ℕ)
      → IsSound (user_get new_ref session client).0
        × ((user_get new_ref session client).0.users.table session
            ≡ some (user_get new_ref session client).1)
  unfolding user_get
  IsSound-user_get session =
      let (kept, found) = IsKept-mumble_user_get client.users session h.users_kept _ in
      (record { users_kept = kept; channels_kept = h.channels_kept }, found)

  pub IsSound-channel_get :
      (channel_id : ℕ)
      → IsSound (channel_get new_ref channel_id client).0
        × ((channel_get new_ref channel_id client).0.channels.table channel_id
            ≡ some (channel_get new_ref channel_id client).1)
  unfolding channel_get
  IsSound-channel_get channel_id =
      let (kept, found) = IsKept-mumble_channel_get client.channels channel_id h.channels_kept _ in
      (record { users_kept = h.users_kept; channels_kept = kept }, found)

module _ (client : MumbleClient) (h : IsSound client) where
  pub IsSound-change_user :
      (session : ℕ) (change : MumbleUser → MumbleUser)
      → ((user : MumbleUser) → user.session ≡ session → (change user).session ≡ session)
      → IsSound (change_user session change client)
  unfolding change_user
  IsSound-change_user session change keeps = record {
    users_kept =
        IsKept-update (λ user. user.session) change client.users h.users_kept session keeps;
    channels_kept = h.channels_kept;
  }

  pub IsSound-change_channel :
      (channel_id : ℕ) (change : MumbleChannel → MumbleChannel)
      → ((channel : MumbleChannel) → (change channel).channel_id ≡ channel.channel_id)
      → IsSound (change_channel channel_id change client)
  unfolding change_channel
  IsSound-change_channel channel_id change keeps = record {
    users_kept = h.users_kept;
    channels_kept =
        IsKept-update (λ channel. channel.channel_id) change client.channels h.channels_kept
          channel_id (λ channel e. keeps channel ∙ e);
  }

IsKept-remove_users :
    (nodes : List (LinkNode MumbleUser)) (users : Known MumbleUser)
    → IsKept (λ user. user.session) users
    → IsKept (λ user. user.session) (remove_users nodes users)
unfolding remove_users
IsKept-remove_users [] users h = h
IsKept-remove_users (node ∷ next) users h =
    IsKept-remove_users next _ (IsKept-mumble_user_remove users node.index h)

IsKept-remove_channels :
    (nodes : List (LinkNode MumbleChannel)) (channels : Known MumbleChannel)
    → IsKept (λ channel. channel.channel_id) channels
    → IsKept (λ channel. channel.channel_id) (remove_channels nodes channels)
unfolding remove_channels
IsKept-remove_channels [] channels h = h
IsKept-remove_channels (node ∷ next) channels h =
    IsKept-remove_channels next _ (IsKept-mumble_channel_remove channels node.index h)

pub IsSound-mumble_client_cleanup :
    (client : MumbleClient) → IsSound client → IsSound (mumble_client_cleanup client)
unfolding mumble_client_cleanup
IsSound-mumble_client_cleanup client h = record {
  users_kept = IsKept-remove_users client.users.list client.users h.users_kept;
  channels_kept = IsKept-remove_channels client.channels.list client.channels h.channels_kept;
}

IsSound-leave :
    (connecting : Bool) (calls : List Call) (client : MumbleClient)
    → IsSound client
    → IsSound (leave connecting calls client).0
unfolding leave
IsSound-leave true calls client h =
    IsSound-mumble_client_cleanup _
      (record { users_kept = h.users_kept; channels_kept = h.channels_kept })
IsSound-leave false calls client h = h

pub IsSound-mumble_disconnect :
    (reason : List ℕ) (client : MumbleClient)
    → IsSound client
    → IsSound (mumble_disconnect reason false client).0
unfolding mumble_disconnect
IsSound-mumble_disconnect reason client h = IsSound-leave client.connecting _ client h

-- An outcome's state, where the behaviour is defined.
unfoldable pub IsSoundOutcome : Outcome → Type 0
IsSoundOutcome none = Unit
IsSoundOutcome (some (client, calls)) = IsSound client

pub IsSoundOutcome->>= :
    {A : Type 0} (o : Option A) (k : A → Outcome)
    → ((a : A) → IsSoundOutcome (k a))
    → IsSoundOutcome (o >>= k)
unfolding IsSoundOutcome
IsSoundOutcome->>= none k h = tt
IsSoundOutcome->>= (some a) k h = h a

pub IsSoundOutcome-needs :
    {A : Type 0} (o : Option A) (k : A → MumbleClient → Outcome) (client : MumbleClient)
    → IsSound client
    → ((a : A) → IsSoundOutcome (k a client))
    → IsSoundOutcome (needs o k client)
unfolding needs IsSoundOutcome
IsSoundOutcome-needs none k client h next = h
IsSoundOutcome-needs (some a) k client h next = next a
