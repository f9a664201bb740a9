-- ===== src/Client/Session.antt =====
-- mumble/mumble.c: the part of a client that the server's messages change, and its users and channels as
-- objects. The Lua table and the list hold the same object, so that a change shows in both. `new_ref`
-- gives the answers of `mumble_registry_ref` in their order.
pub mod Objects
pub mod Leave
pub mod Sound
pub mod Outcomes
use lua_mumble.Base.{
  ℕ, suc, ◌+◌, ◌∷◌, List, [], Option, none, some, Bool, true, false, if◌then◌else◌, ◌==◌, String,
}
use lua_mumble.Links.{LinkNode}
use lua_mumble.Client.Users.{
  Known, MumbleUser, MumbleChannel, mumble_user_get, mumble_channel_get, mumble_user_remove,
  mumble_channel_remove,
}
use lua_mumble.Client.Events.{Value, Call, lua_string}

pub record MumbleClient : Type 0 where
  pub connecting : Bool
  pub connected : Bool
  pub synced : Bool
  pub legacy : Bool
  pub ping_timer_active : Bool
  pub session : ℕ
  pub max_bandwidth : ℕ
  pub audio_frames : ℕ
  pub bitrate : ℕ
  pub users : Known MumbleUser
  pub channels : Known MumbleChannel
  pub refs : ℕ

-- A handler's new state and its hooks in their order; nothing where the C code's behaviour is not
-- defined. The callbacks of the hooks are not run.
abbrev pub Outcome : Type 0
Outcome = Option (MumbleClient × List Call)

-- A message without a field that its handler needs does nothing.
unfoldable pub needs :
    {A : Type 0} → Option A → (A → MumbleClient → Outcome) → MumbleClient → Outcome
needs none k client = some (client, [])
needs (some a) k client = k a client

unfoldable pub change_found : {A : Type 0} → (A → A) → Option A → Option A
change_found change none = none
change_found change (some a) = some (change a)

module _ {A : Type 0} where
  unfoldable pub update_nodes : ℕ → (A → A) → List (LinkNode A) → List (LinkNode A)
  update_nodes key change [] = []
  update_nodes key change (node ∷ next) =
      (if node.index == key
        then record { index = node.index; data_of = change node.data_of }
        else node)
      ∷ update_nodes key change next

  unfoldable pub update_table : ℕ → (A → A) → (ℕ → Option A) → ℕ → Option A
  unfolding change_found
  update_table key change table k = if k == key then change_found change (table k) else table k

  -- An assignment through the pointer to the object of the key.
  unfoldable pub update : ℕ → (A → A) → Known A → Known A
  unfolding update_nodes update_table
  update key change known = record {
    table = update_table key change known.table;
    list = update_nodes key change known.list;
  }

-- Assignments through the pointers to all objects.
unfoldable pub change_nodes : {A : Type 0} → (A → A) → List (LinkNode A) → List (LinkNode A)
change_nodes change [] = []
change_nodes change (node ∷ next) =
    record { index = node.index; data_of = change node.data_of } ∷ change_nodes change next

unfoldable pub update_all : {A : Type 0} → (A → A) → Known A → Known A
unfolding change_nodes change_found
update_all change known = record {
  table = λ k. change_found change (known.table k);
  list = change_nodes change known.list;
}

unfoldable pub next_ref : {A : Type 0} → Option A → ℕ → ℕ
next_ref none refs = suc refs
next_ref (some found) refs = refs

module _ (new_ref : ℕ → ℕ) where
  -- The user of a session, made where there is none; a number of the registry is used up in that case.
  unfoldable pub user_get : ℕ → MumbleClient → MumbleClient × MumbleUser
  unfolding next_ref
  user_get session client =
      let (users, user) = mumble_user_get (new_ref client.refs) client.users session in
      (
        record client { users = users; refs = next_ref (client.users.table session) client.refs },
        user,
      )

  unfoldable pub channel_get : ℕ → MumbleClient → MumbleClient × MumbleChannel
  unfolding next_ref
  channel_get channel_id client =
      let (channels, channel) =
        mumble_channel_get (new_ref client.refs) client.channels channel_id in
      (
        record client {
          channels = channels;
          refs = next_ref (client.channels.table channel_id) client.refs;
        },
        channel,
      )

unfoldable pub change_user : ℕ → (MumbleUser → MumbleUser) → MumbleClient → MumbleClient
unfolding update
change_user session change client = record client { users = update session change client.users }

unfoldable pub change_channel : ℕ → (MumbleChannel → MumbleChannel) → MumbleClient → MumbleClient
unfolding update
change_channel channel_id change client = record client {
  channels = update channel_id change client.channels;
}

-- What `mumble_client_cleanup` does to the users and the channels: each node of the list is removed.
unfoldable pub remove_users : List (LinkNode MumbleUser) → Known MumbleUser → Known MumbleUser
remove_users [] users = users
remove_users (node ∷ next) users = remove_users next (mumble_user_remove users node.index)

unfoldable pub remove_channels :
    List (LinkNode MumbleChannel) → Known MumbleChannel → Known MumbleChannel
remove_channels [] channels = channels
remove_channels (node ∷ next) channels =
    remove_channels next (mumble_channel_remove channels node.index)

pub mumble_client_cleanup : MumbleClient → MumbleClient
unfolding remove_users remove_channels
mumble_client_cleanup client = record client {
  ping_timer_active = false;
  users = remove_users client.users.list client.users;
  channels = remove_channels client.channels.list client.channels;
}

leave : Bool → List Call → MumbleClient → MumbleClient × List Call
leave true calls client =
    (mumble_client_cleanup (record client { connecting = false; connected = false }), calls)
leave false calls client = (client, [])

-- Nothing happens where the client is not connecting or connected.
pub mumble_disconnect : List ℕ → Bool → MumbleClient → MumbleClient × List Call
unfolding leave
mumble_disconnect reason garbagecollected client =
    leave client.connecting
      (if garbagecollected
        then []
        else record { hook = "OnDisconnect"; argument = lua_string reason } ∷ [])
      client
