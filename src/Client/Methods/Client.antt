-- ===== src/Client/Methods/Client.antt =====
-- mumble/client.c: the methods of a client that send messages or push users and channels. Strings and
-- numbers that the Lua library checks are arguments, and so are `uname` and the memory for an array.
pub mod Lists
use lua_mumble.Base.{
  ℕ, zero, suc, ◌+◌, ◌<<◌, bit_or, u32, u64, List, [], ◌∷◌, map, length, Option, none, some, Bool,
  true, false, ◌||◌, ◌==◌, if◌then◌else◌, ◌>>=◌, ◌≡◌, refl, ap, ◌∙◌, sym,
}
use lua_mumble.Links.{LinkNode}
use lua_mumble.Client.Users.{MumbleChannel}
use lua_mumble.Client.Events.{array, mumble_user_raw_get, mumble_channel_raw_get}
use lua_mumble.Client.Session.{MumbleClient}
use lua_mumble.Client.Reports.Stats.{Version}
use lua_mumble.Client.Methods.{
  Authenticate, version, authenticate, ban_query, user_list_query, voice_target, plugin_data,
  user_state, channel_state, texture_blob, comment_blob, description_blob, Sent, Result, sends,
  pushes, raises, undefined, user_state_init, channel_state_init, GivenIds, ids, type_error,
  table_ids, prepend, with_ids, Given, in_table, arguments,
}
use lua_mumble.Client.Methods.Path.{channel_call}

-- `mumble_client_connected` and `mumble_client_connecting`.
unfoldable pub when : Bool → Result → Result
when true result = result
when false result = raises

-- The list of a table or of the arguments: each argument goes to a cell of its own.
unfoldable pub given_list : Given → GivenIds
given_list (in_table n values) = table_ids n values
given_list (arguments values) = table_ids (length values) values

-- The tokens of a table of length `n`, in the order of `lua_next`; what is no string is NULL. `none` is a
-- cell that no value fills. Entries beyond the array are left out.
unfoldable pub tokens_from : ℕ → List (Option (List ℕ)) → Option (List (Option (List ℕ)))
tokens_from zero values = some []
tokens_from (suc n) [] = none
tokens_from (suc n) (value ∷ rest) = tokens_from n rest >>= λ tokens. some (value ∷ tokens)

-- What comes of the tokens, where the array is allocated.
unfoldable pub with_tokens :
    Bool → Option (List (Option (List ℕ))) → (List (Option (List ℕ)) → List Result) → List Result
with_tokens false tokens then_do = raises ∷ []
with_tokens true none then_do = undefined ∷ []
with_tokens true (some tokens) then_do = then_do tokens

unfoldable pub token_table : Option (ℕ × List (Option (List ℕ))) → Option (List (Option (List ℕ)))
unfolding tokens_from
token_table none = some []
token_table (some (n, values)) = tokens_from n values

unfoldable is_missing : {A : Type 0} → Option A → Bool
is_missing none = true
is_missing (some a) = false

-- MUMBLE_VERSION_V1 and MUMBLE_VERSION_V2.
unfoldable pub version_v1 : ℕ → ℕ → ℕ → ℕ
version_v1 major minor patch = u32 (bit_or (bit_or (u64 (major << 16)) (u64 (minor << 8))) patch)

unfoldable pub version_v2 : ℕ → ℕ → ℕ → ℕ
version_v2 major minor patch =
    bit_or (bit_or (u64 (major << 48)) (u64 (minor << 32))) (u64 (patch << 16))

unfoldable pub version_of : Bool → ℕ → ℕ → ℕ → List ℕ → List ℕ → List ℕ → Version
unfolding version_v1 version_v2
version_of legacy major minor patch release os os_version = record {
  version_v1 = some (version_v1 major minor patch);
  version_v2 = if legacy then none else some (version_v2 major minor patch);
  release = some release;
  os = some os;
  os_version = some os_version;
}

-- Both messages, or an error before the first one. No array is needed without a table.
pub client_auth :
    MumbleClient
    → Version
    → List ℕ
    → Option (List ℕ)
    → Option (ℕ × List (Option (List ℕ)))
    → Bool
    → List Result
unfolding with_tokens token_table is_missing
client_auth client v username password tokens allocated =
    if client.connected
    then with_tokens (is_missing tokens || allocated) (token_table tokens) (λ given.
      sends (version v)
      ∷ sends
          (authenticate (record { username = some username; password = password; tokens = given }))
      ∷ [])
    else raises ∷ []

pub client_set_tokens : MumbleClient → ℕ → List (Option (List ℕ)) → Bool → List Result
unfolding with_tokens tokens_from
client_set_tokens client n values allocated =
    if client.connected
    then with_tokens allocated (tokens_from n values) (λ given.
      sends (authenticate (record { username = none; password = none; tokens = given })) ∷ [])
    else raises ∷ []

pub client_request_ban_list : MumbleClient → Result
unfolding when
client_request_ban_list client = when client.connected (sends ban_query)

pub client_request_user_list : MumbleClient → Result
unfolding when
client_request_user_list client = when client.connected (sends user_list_query)

pub client_send_plugin_data : MumbleClient → List ℕ → List ℕ → Given → Bool → Result
unfolding when given_list with_ids
client_send_plugin_data client dataid text receivers allocated = when client.connected (
    with_ids allocated (given_list receivers) (λ list. plugin_data (record {
      sendersession = some client.session;
      receiversessions = list;
      data_of = some text;
      dataid = some dataid;
    })))

-- The frame of a packet in milliseconds; `none` is an error.
pub client_set_audio_packet_size : ℕ → MumbleClient → Option MumbleClient
client_set_audio_packet_size size client =
    if size == 10 || size == 20 || size == 40 || size == 60
    then some (record client { audio_frames = size })
    else none

pub client_set_comment : MumbleClient → List ℕ → Result
unfolding when
client_set_comment client comment = when client.connected (
    sends (
      user_state
        (record user_state_init { session = some client.session; comment = some comment })))

unfoldable pub indexes : {A : Type 0} → List (LinkNode A) → List ℕ
indexes [] = []
indexes (node ∷ next) = node.index ∷ indexes next

pub client_get_users : MumbleClient → Result
unfolding indexes
client_get_users client =
    pushes (array (mumble_user_raw_get client.users) (indexes client.users.list))

pub client_get_channels : MumbleClient → Result
unfolding indexes
client_get_channels client =
    pushes (array (mumble_channel_raw_get client.channels) (indexes client.channels.list))

-- A path from the root, which is channel 0. `none` is no result.
unfoldable pub from_root :
    (List ℕ → List (List ℕ)) → MumbleClient → List ℕ → Option MumbleChannel → Option Result
from_root strtok client path none = none
from_root strtok client path (some root) = some (channel_call strtok client.channels root path)

pub client_get_channel : (List ℕ → List (List ℕ)) → MumbleClient → List ℕ → Option Result
unfolding from_root
client_get_channel strtok client path =
    if client.connecting
    then from_root strtok client path (client.channels.table 0)
    else some raises

-- The targets are their addresses.
pub client_register_voice_target : MumbleClient → ℕ → Given → Bool → Result
unfolding when given_list with_ids
client_register_voice_target client id targets allocated =
    when client.connected (with_ids allocated (given_list targets) (voice_target (u32 id)))

pub client_request_texture_blob : MumbleClient → Given → Bool → Result
unfolding when given_list with_ids
client_request_texture_blob client users allocated =
    when client.connected (with_ids allocated (given_list users) texture_blob)

-- These two take a table only.
unfoldable pub only_table : Given → (GivenIds → Result) → Result
only_table (in_table n values) k = k (table_ids n values)
only_table (arguments values) k = raises

pub client_request_comment_blob : MumbleClient → Given → Bool → Result
unfolding when only_table with_ids
client_request_comment_blob client users allocated =
    when client.connected (only_table users (λ list. with_ids allocated list comment_blob))

pub client_request_description_blob : MumbleClient → Given → Bool → Result
unfolding when only_table with_ids
client_request_description_blob client channels allocated =
    when client.connected (only_table channels (λ list. with_ids allocated list description_blob))

-- The fields that have a flag are set without it: the position, `temporary`, the limit on users and the parent
-- are not sent.
pub client_create_channel : MumbleClient → List ℕ → List ℕ → Result
unfolding when
client_create_channel client name description = when client.connected (
    sends (
      channel_state
        (record channel_state_init { name = some name; description = some description })))
