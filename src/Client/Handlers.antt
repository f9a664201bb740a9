-- ===== src/Client/Handlers.antt =====
-- mumble/packet.c: the handlers that change the client. Each takes an unpacked message; `none` is a field
-- that is not there. The log is left out.
pub mod Channels
pub mod Users
pub mod Copies
pub mod Laws
pub mod Flush
pub mod Tunnel
pub mod Dispatch
use lua_mumble.Base.{
  ℕ, ◌∷◌, List, [], Option, none, some, Bool, true, false, if◌then◌else◌, String, length, suc,
  ◌>>=◌, load, ◌++◌, ◌==◌,
}
use lua_mumble.Strndup.{strndup, read_copy}
use lua_mumble.Client.Users.{Known, MumbleUser, MumbleChannel}
use lua_mumble.Client.Bandwidth.{adjust_audio_bandwidth}
use lua_mumble.Client.CryptSetup.{bin_to_strhex}
use lua_mumble.Client.Events.{
  Value, lua_nil, lua_boolean, lua_string, lua_integer, Call, event, lua_pushinteger, given,
  some_array, mumble_user_raw_get, mumble_channel_raw_get,
}
use lua_mumble.Client.Reports.{boolean_integer}
use lua_mumble.Client.Reports.Stats.{Version, version_table}
use lua_mumble.Client.Session.{MumbleClient, Outcome, change_channel, channel_get, update_all}

-- A field that the message has replaces the object's.
unfoldable pub or_kept : {A : Type 0} → Option A → A → A
or_kept none kept = kept
or_kept (some a) kept = a

unfoldable pub or_kept_some : {A : Type 0} → Option A → Option A → Option A
or_kept_some none kept = kept
or_kept_some (some a) kept = some a

unfoldable pub copy_of : Option (List ℕ) → Option (List ℕ) → Option (List ℕ)
unfolding strndup
copy_of none kept = kept
copy_of (some bytes) kept = some (strndup bytes)

unfoldable pub length_of : Option (List ℕ) → ℕ → ℕ
length_of none kept = kept
length_of (some bytes) kept = length bytes

-- The value of a field of bytes that is read from the copy.
unfoldable pub push_copy : (List ℕ → Value) → Option (List ℕ) → Option Value
unfolding read_copy
push_copy push none = some lua_nil
push_copy push (some bytes) = read_copy bytes >>= λ copy. some (push copy)

unfoldable pub push_hex : List ℕ → Value
push_hex bytes = lua_string (bin_to_strhex bytes)

-- A version without `version_v2` is that of an older server.
pub packet_server_version : Version → MumbleClient → Outcome
packet_server_version version client = some (
  record client { legacy = elim version.version_v2 [ none ↦ true | some v ↦ client.legacy ] },
  record { hook = "OnServerVersion"; argument = version_table version } ∷ [],
)

pub record ServerSync : Type 0 where
  pub session : Option ℕ
  pub max_bandwidth : Option ℕ
  pub welcome_text : Option (List ℕ)
  pub permissions : Option ℕ

set_bandwidth : Option ℕ → MumbleClient → Option MumbleClient
set_bandwidth none client = some client
set_bandwidth (some max_bandwidth) client =
    adjust_audio_bandwidth client.audio_frames max_bandwidth client.bitrate
    >>= λ (audio_frames, bitrate, buffer_length). some (record client {
      max_bandwidth = max_bandwidth;
      audio_frames = audio_frames;
      bitrate = bitrate;
    })

pub record PermissionQuery : Type 0 where
  pub channel_id : Option ℕ
  pub permissions : Option ℕ
  pub flush : Option Bool

-- Every channel of the table, by `lua_next`.
pub flush_permissions : MumbleClient → MumbleClient
flush_permissions client = record client {
  channels = update_all (λ channel. record channel { permissions = 0 }) client.channels;
}

module _ (new_ref : ℕ → ℕ) where
  -- The permissions of the message are those of the root channel.
  set_root : Option ℕ → MumbleClient → MumbleClient
  set_root none client = client
  set_root (some permissions) client =
      change_channel 0 (λ channel. record channel { permissions = permissions })
        (channel_get new_ref 0 client).0

  pub packet_server_sync : ServerSync → MumbleClient → Outcome
  unfolding or_kept set_bandwidth set_root
  packet_server_sync sync client =
      set_bandwidth sync.max_bandwidth (record client {
        synced = true;
        ping_timer_active = true;
        session = or_kept sync.session client.session;
      })
      >>= λ adjusted. some (
        set_root sync.permissions adjusted,
        record {
          hook = "OnServerSync";
          argument = event (
              ("user", given (mumble_user_raw_get client.users) sync.session)
              ∷ ("max_bandwidth", given lua_pushinteger sync.max_bandwidth)
              ∷ ("welcome_text", given lua_string sync.welcome_text)
              ∷ ("permissions", given lua_pushinteger sync.permissions)
              ∷ []);
        }
            ∷ [],
      )

  query_permissions : Option ℕ → Option ℕ → Option Bool → MumbleClient → MumbleClient
  unfolding flush_permissions
  query_permissions (some channel_id) (some permissions) flush client =
      change_channel channel_id (λ channel. record channel { permissions = permissions })
        (channel_get new_ref channel_id client).0
  query_permissions (some channel_id) none flush client =
      if or_kept flush false then flush_permissions client else client
  query_permissions none permissions flush client =
      if or_kept flush false then flush_permissions client else client

  unfoldable pub packet_permission_query : PermissionQuery → MumbleClient → Outcome
  unfolding query_permissions
  packet_permission_query query client =
      let next = query_permissions query.channel_id query.permissions query.flush client in
      some (
        next,
        record {
          hook = "OnPermissionQuery";
          argument = event (
              ("channel", given (mumble_channel_raw_get next.channels) query.channel_id)
              ∷ ("permissions", given lua_pushinteger query.permissions)
              ∷ ("flush", given boolean_integer query.flush)
              ∷ []);
        }
            ∷ [],
      )
