-- ===== src/Client/Reports.antt =====
-- mumble/packet.c: the handlers that change nothing and only call a hook. Each gives the call for an
-- unpacked message; the records are the structures that protobuf-c makes of proto/Mumble.proto, with
-- `none` for a field that is not there. The log is left out.
pub mod Access
pub mod Stats
pub mod Pongs
use lua_mumble.Base.{
  ℕ, suc, ◌≤◌, ◌∷◌, ◌&&◌, List, [], Option, none, some, Bool, true, false, if◌then◌else◌, ◌==◌, ltb,
  ℤ, length, String,
}
use lua_mumble.Client.Users.{Known, MumbleUser, MumbleChannel}
use lua_mumble.Client.Events.{
  Key, key, at, Value, lua_nil, lua_boolean, lua_integer, lua_string, lua_table, Fields, done, Call,
  set_field, fields, event, lua_pushinteger, given, array, some_array, mumble_user_raw_get,
  mumble_channel_raw_get,
}

pub record Reject : Type 0 where
  pub type_of : Option ℕ
  pub reason : Option (List ℕ)

pub packet_server_reject : Reject → Call
packet_server_reject reject = record {
  hook = "OnServerReject";
  argument = event (
      ("type", given lua_pushinteger reject.type_of)
      ∷ ("reason", given lua_string reject.reason)
      ∷ []);
}

pub record TextMessage : Type 0 where
  pub actor : Option ℕ
  pub message : Option (List ℕ)
  pub session : List ℕ
  pub channel_id : List ℕ

-- A message to no channel is direct.
direct : List ℕ → Value
direct [] = lua_boolean true
direct (c ∷ rest) = lua_nil

pub packet_text_message : Known MumbleUser → Known MumbleChannel → TextMessage → Call
unfolding direct
packet_text_message users channels msg = record {
  hook = "OnMessage";
  argument = event (
      ("actor", given (mumble_user_raw_get users) msg.actor)
      ∷ ("message", given lua_string msg.message)
      ∷ ("users", some_array (mumble_user_raw_get users) msg.session)
      ∷ ("channels", some_array (mumble_channel_raw_get channels) msg.channel_id)
      ∷ ("direct", direct msg.channel_id)
      ∷ []);
}

pub record QueryUsers : Type 0 where
  pub ids : List ℕ
  pub names : List (List ℕ)

names_of : List ℕ → List (List ℕ) → Fields
names_of [] names = done
names_of (id ∷ ids) [] = done
names_of (id ∷ ids) (name ∷ names) = set_field (at id) (lua_string name) (names_of ids names)

-- The names by their numbers, where there are as many of both.
pub packet_query_users : QueryUsers → Call
unfolding names_of
packet_query_users users = record {
  hook = "OnQueryUsers";
  argument = lua_table (
      if ltb 0 (length users.ids) && length users.ids == length users.names
      then names_of users.ids users.names
      else done);
}

pub record ContextActionModify : Type 0 where
  pub action : Option (List ℕ)
  pub text : Option (List ℕ)
  pub context : Option ℕ
  pub operation : Option ℕ

pub packet_context_action_modify : ContextActionModify → Call
packet_context_action_modify modify = record {
  hook = "OnContextActionModify";
  argument = event (
      ("action", given lua_string modify.action)
      ∷ ("text", given lua_string modify.text)
      ∷ ("context", given lua_pushinteger modify.context)
      ∷ ("operation", given lua_pushinteger modify.operation)
      ∷ []);
}

pub record ListedUser : Type 0 where
  pub user_id : ℕ
  pub name : Option (List ℕ)
  pub last_seen : Option (List ℕ)
  pub last_channel : Option ℕ

listed_user : Known MumbleChannel → ListedUser → Value
listed_user channels user = event (
    ("user_id", lua_pushinteger user.user_id)
    ∷ ("name", given lua_string user.name)
    ∷ ("last_seen", given lua_string user.last_seen)
    ∷ ("last_channel", given (mumble_channel_raw_get channels) user.last_channel)
    ∷ [])

pub packet_user_list : Known MumbleChannel → List ListedUser → Call
unfolding listed_user
packet_user_list channels users = record {
  hook = "OnUserList";
  argument = array (listed_user channels) users;
}

pub record CodecVersion : Type 0 where
  pub alpha : ℤ
  pub beta : ℤ
  pub prefer_alpha : Bool
  pub opus : Option Bool

pub packet_codec_version : CodecVersion → Call
packet_codec_version codec = record {
  hook = "OnCodecVersion";
  argument = event (
      ("alpha", lua_integer codec.alpha)
      ∷ ("beta", lua_integer codec.beta)
      ∷ ("prefer_alpha", lua_boolean codec.prefer_alpha)
      ∷ ("opus", given lua_boolean codec.opus)
      ∷ []);
}

pub record ServerConfig : Type 0 where
  pub max_bandwidth : Option ℕ
  pub welcome_text : Option (List ℕ)
  pub allow_html : Option Bool
  pub message_length : Option ℕ
  pub image_message_length : Option ℕ
  pub max_users : Option ℕ
  pub recording_allowed : Option Bool

-- `lua_pushinteger` of a Boolean.
unfoldable pub boolean_integer : Bool → Value
boolean_integer b = lua_pushinteger (if b then 1 else 0)

pub packet_server_config : ServerConfig → Call
unfolding boolean_integer
packet_server_config config = record {
  hook = "OnServerConfig";
  argument = event (
      ("max_bandwidth", given lua_pushinteger config.max_bandwidth)
      ∷ ("welcome_text", given lua_string config.welcome_text)
      ∷ ("allow_html", given lua_boolean config.allow_html)
      ∷ ("message_length", given lua_pushinteger config.message_length)
      ∷ ("image_message_length", given lua_pushinteger config.image_message_length)
      ∷ ("max_users", given lua_pushinteger config.max_users)
      ∷ ("recording_allowed", given boolean_integer config.recording_allowed)
      ∷ []);
}

pub record SuggestConfig : Type 0 where
  pub version_v1 : Option ℕ
  pub version_v2 : Option ℕ
  pub positional : Option Bool
  pub push_to_talk : Option Bool

pub packet_suggest_config : SuggestConfig → Call
packet_suggest_config config = record {
  hook = "OnSuggestConfig";
  argument = event (
      ("version_v1", given lua_pushinteger config.version_v1)
      ∷ ("version_v2", given lua_pushinteger config.version_v2)
      ∷ ("positional", given lua_boolean config.positional)
      ∷ ("push_to_talk", given lua_boolean config.push_to_talk)
      ∷ []);
}

pub record PluginData : Type 0 where
  pub sendersession : Option ℕ
  pub receiversessions : List ℕ
  pub data_of : Option (List ℕ)
  pub dataid : Option (List ℕ)

pub packet_plugin_data : Known MumbleUser → PluginData → Call
packet_plugin_data users transmission = record {
  hook = "OnPluginData";
  argument = event (
      ("sender", given (mumble_user_raw_get users) transmission.sendersession)
      ∷ ("receivers", some_array (mumble_user_raw_get users) transmission.receiversessions)
      ∷ ("data", given lua_string transmission.data_of)
      ∷ ("id", given lua_string transmission.dataid)
      ∷ []);
}
