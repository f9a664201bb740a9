-- ===== src/Client/Handlers/Users.antt =====
-- mumble/packet.c: `packet_user_remove` and `packet_user_state`.
pub mod Laws
pub mod Effects
pub mod Taken
pub mod Removal
use lua_mumble.Base.{
  codes, ℕ, ◌∷◌, ◌++◌, List, [], Option, none, some, Bool, true, false, not, ◌&&◌, if◌then◌else◌,
  ◌==◌, ◌>>=◌, String, length,
}
use lua_mumble.Client.Users.{MumbleUser, MumbleChannel, mumble_user_remove}
use lua_mumble.Client.Events.{
  Key, at, Value, lua_nil, lua_boolean, lua_string, lua_number, bits, lua_user, lua_table, Fields,
  done, Call, set_field, event, lua_pushinteger, given, some_array, mumble_user_raw_get,
  mumble_channel_raw_get,
}
use lua_mumble.Client.Session.{
  MumbleClient, Outcome, user_get, channel_get, change_user, change_channel, mumble_disconnect,
  needs,
}
use lua_mumble.Client.Handlers.{or_kept, or_kept_some, copy_of, length_of, push_copy, push_hex}
use lua_mumble.Client.Handlers.Channels.{add_all, remove_all}

pub record UserRemove : Type 0 where
  pub session : ℕ
  pub actor : Option ℕ
  pub reason : Option (List ℕ)
  pub ban : Option Bool

no_reason : Option (List ℕ) → List ℕ
no_reason none = codes "No reason given"
no_reason (some []) = codes "No reason given"
no_reason (some (c ∷ rest)) = c ∷ rest

-- `%s` of a NULL pointer.
or_null : Option (List ℕ) → List ℕ
or_null none = codes "(null)"
or_null (some s) = s

-- The name of the user that is given where the message has both an actor and `ban`.
disconnect_message : UserRemove → Option MumbleUser → List ℕ
unfolding no_reason or_null or_kept
disconnect_message user actor =
    codes (if or_kept user.ban false then "banned" else "kicked")
    ++ codes " from server "
    ++ elim actor [ none ↦ [] | some by ↦ codes "by " ++ or_null by.name ++ codes " " ]
    ++ codes "(Reason \""
    ++ no_reason user.reason
    ++ codes "\")"

module _ (new_ref : ℕ → ℕ) where
  -- The actor, made where there is none yet, in a message with both an actor and `ban`.
  pub actor_of : Option ℕ → Option Bool → MumbleClient → MumbleClient × Option MumbleUser
  actor_of (some session) (some ban) client =
      let (known, actor) = user_get new_ref session client in (known, some actor)
  actor_of (some session) none client = (client, none)
  actor_of none ban client = (client, none)

  -- The client itself is disconnected, any other user is removed.
  unfoldable pub packet_user_remove : UserRemove → MumbleClient → Outcome
  unfolding actor_of disconnect_message
  packet_user_remove user client =
      let call : Call = record {
        hook = "OnUserRemove";
        argument = event (
            ("user", mumble_user_raw_get client.users user.session)
            ∷ ("actor", given (mumble_user_raw_get client.users) user.actor)
            ∷ ("reason", given lua_string user.reason)
            ∷ ("ban", given lua_boolean user.ban)
            ∷ []);
      } in
      if client.session == user.session
      then (let (known, actor) = actor_of user.actor user.ban client in
          let (left, calls) = mumble_disconnect (disconnect_message user actor) false known in
          some (left, call ∷ calls))
      else some (record client { users = mumble_user_remove client.users user.session }, call ∷ [])

pub record VolumeAdjustment : Type 0 where
  pub listening_channel : ℕ
  pub volume_adjustment : ℕ

pub record UserState : Type 0 where
  pub session : Option ℕ
  pub actor : Option ℕ
  pub name : Option (List ℕ)
  pub user_id : Option ℕ
  pub channel_id : Option ℕ
  pub mute : Option Bool
  pub deaf : Option Bool
  pub suppress : Option Bool
  pub self_mute : Option Bool
  pub self_deaf : Option Bool
  pub texture : Option (List ℕ)
  pub comment : Option (List ℕ)
  pub hash : Option (List ℕ)
  pub comment_hash : Option (List ℕ)
  pub texture_hash : Option (List ℕ)
  pub priority_speaker : Option Bool
  pub recording : Option Bool
  pub listening_channel_add : List ℕ
  pub listening_channel_remove : List ℕ
  pub listening_volume_adjustment : List VolumeAdjustment

-- What the message of a session sets in its user.
unfoldable pub changed_user : UserState → ℕ → MumbleUser → MumbleUser
unfolding or_kept or_kept_some copy_of length_of add_all remove_all
changed_user state session user = record user {
  connected = true;
  session = session;
  name = or_kept_some state.name user.name;
  channel_id = or_kept state.channel_id user.channel_id;
  user_id = or_kept state.user_id user.user_id;
  mute = or_kept state.mute user.mute;
  deaf = or_kept state.deaf user.deaf;
  self_mute = or_kept state.self_mute user.self_mute;
  self_deaf = or_kept state.self_deaf user.self_deaf;
  suppress = or_kept state.suppress user.suppress;
  comment = or_kept_some state.comment user.comment;
  recording = or_kept state.recording user.recording;
  priority_speaker = or_kept state.priority_speaker user.priority_speaker;
  texture = copy_of state.texture user.texture;
  hash = or_kept_some state.hash user.hash;
  comment_hash = copy_of state.comment_hash user.comment_hash;
  comment_hash_len = length_of state.comment_hash user.comment_hash_len;
  texture_hash = copy_of state.texture_hash user.texture_hash;
  texture_hash_len = length_of state.texture_hash user.texture_hash_len;
  listens =
      remove_all state.listening_channel_remove (add_all state.listening_channel_add user.listens);
}

-- The bytes of the message as they are read back from the user.
pub record Copies : Type 0 where
  pub texture : Value
  pub comment_hash : Value
  pub texture_hash : Value

unfoldable pub copies_of : UserState → Option Copies
unfolding push_copy push_hex
copies_of state = push_copy lua_string state.texture >>= λ texture.
    push_copy push_hex state.comment_hash >>= λ comment_hash.
    push_copy push_hex state.texture_hash >>= λ texture_hash.
    some (record { texture = texture; comment_hash = comment_hash; texture_hash = texture_hash })

volume_fields : List VolumeAdjustment → Fields
volume_fields [] = done
volume_fields (v ∷ rest) =
    set_field (at v.listening_channel) (lua_number (bits v.volume_adjustment)) (volume_fields rest)

volume_table : List VolumeAdjustment → Value
unfolding volume_fields
volume_table [] = lua_nil
volume_table (v ∷ rest) = lua_table (volume_fields (v ∷ rest))

user_event : UserState → ℕ → Copies → MumbleClient → Value
unfolding volume_table
user_event state session copies client =
    let channel = mumble_channel_raw_get client.channels in
    event (
      ("actor", given (mumble_user_raw_get client.users) state.actor)
      ∷ ("session", lua_pushinteger session)
      ∷ ("name", given lua_string state.name)
      ∷ ("channel", given channel state.channel_id)
      ∷ ("user_id", given lua_pushinteger state.user_id)
      ∷ ("mute", given lua_boolean state.mute)
      ∷ ("deaf", given lua_boolean state.deaf)
      ∷ ("self_mute", given lua_boolean state.self_mute)
      ∷ ("self_deaf", given lua_boolean state.self_deaf)
      ∷ ("suppress", given lua_boolean state.suppress)
      ∷ ("comment", given lua_string state.comment)
      ∷ ("recording", given lua_boolean state.recording)
      ∷ ("priority_speaker", given lua_boolean state.priority_speaker)
      ∷ ("texture", copies.texture)
      ∷ ("hash", given lua_string state.hash)
      ∷ ("comment_hash", copies.comment_hash)
      ∷ ("texture_hash", copies.texture_hash)
      ∷ ("listening_channel_add", some_array channel state.listening_channel_add)
      ∷ ("listening_channel_remove", some_array channel state.listening_channel_remove)
      ∷ ("listening_volume_adjustment", volume_table state.listening_volume_adjustment)
      ∷ ("user", mumble_user_raw_get client.users session)
      ∷ [])

call_if : Bool → Call → List Call
call_if true call = call ∷ []
call_if false call = []

-- The hook of a user who moves, where the user was connected and the client is synced.
channel_calls : Option ℕ → UserState → ℕ → MumbleUser → MumbleClient → List Call
unfolding call_if
channel_calls none state session user client = []
channel_calls (some channel_id) state session user client =
    call_if (user.connected && client.synced && not (user.channel_id == channel_id)) (record {
      hook = "OnUserChannel";
      argument = event (
          ("actor", given (mumble_user_raw_get client.users) state.actor)
          ∷ ("from", mumble_channel_raw_get client.channels user.channel_id)
          ∷ ("to", mumble_channel_raw_get client.channels channel_id)
          ∷ ("user", mumble_user_raw_get client.users session)
          ∷ []);
    })

-- The hook of a user who was not connected, where the client is synced.
connect_calls : Value → MumbleUser → MumbleClient → List Call
unfolding call_if
connect_calls argument user client =
    call_if (not user.connected && client.synced)
      (record { hook = "OnUserConnect"; argument = argument })

module _ (new_ref : ℕ → ℕ) where
  unfoldable pub set_volumes : List VolumeAdjustment → MumbleClient → MumbleClient
  set_volumes [] client = client
  set_volumes (v ∷ rest) client = set_volumes rest (
      change_channel v.listening_channel
        (λ channel. record channel { listening_volume_adjustment = some v.volume_adjustment })
        (channel_get new_ref v.listening_channel client).0)

  -- The hooks of a message for a user as it was before.
  unfoldable pub state_calls : UserState → ℕ → Copies → MumbleUser → MumbleClient → List Call
  unfolding channel_calls connect_calls user_event
  state_calls state session copies user client =
      let argument = user_event state session copies client in
      channel_calls state.channel_id state session user client
      ++ connect_calls argument user client
      ++ (record { hook = "OnUserState"; argument = argument } ∷ [])

  -- A message for the user of a session.
  unfoldable pub user_state : UserState → ℕ → MumbleClient → Outcome
  unfolding copies_of set_volumes state_calls
  user_state state session client =
      let (known, user) = user_get new_ref session client in
      copies_of state >>= λ copies. some (
        set_volumes state.listening_volume_adjustment
            (change_user session (changed_user state session) known),
        state_calls state session copies user known,
      )

  -- A message without a session does nothing.
  unfoldable pub packet_user_state : UserState → MumbleClient → Outcome
  unfolding user_state
  packet_user_state state = needs state.session (user_state state)
