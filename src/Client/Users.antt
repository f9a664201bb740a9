-- ===== src/Client/Users.antt =====
-- mumble/mumble.c: the users and channels that a client knows, in a Lua table and in a linked list. A
-- table is what it holds at each key. `mumble_registry_ref` of a new table is an argument.
pub mod Agree
pub mod Kept
use lua_mumble.Base.{
  ℕ, List, [], Option, none, some, ◌==◌, if◌then◌else◌, Bool, true, false, ℤ, pos,
}
use lua_mumble.Links.{LinkNode, list_add, list_remove}

pub record MumbleUser : Type 0 where
  pub data_ref : ℕ
  pub connected : Bool
  pub session : ℕ
  pub user_id : ℕ
  pub channel_id : ℕ
  pub name : Option (List ℕ)
  pub mute : Bool
  pub deaf : Bool
  pub self_mute : Bool
  pub self_deaf : Bool
  pub suppress : Bool
  pub comment : Option (List ℕ)
  pub comment_hash : Option (List ℕ)
  pub comment_hash_len : ℕ
  pub speaking : Bool
  pub recording : Bool
  pub priority_speaker : Bool
  pub texture : Option (List ℕ)
  pub texture_hash : Option (List ℕ)
  pub texture_hash_len : ℕ
  pub hash : Option (List ℕ)
  pub listens : List (LinkNode (Unit {0}))

-- `none` in `can_enter`, `description_hash_len` and `listening_volume_adjustment` is a field that was
-- never set: a new channel has whatever was in its memory. The volume is the bits of a float.
pub record MumbleChannel : Type 0 where
  pub data_ref : ℕ
  pub name : Option (List ℕ)
  pub channel_id : ℕ
  pub parent : ℕ
  pub description : Option (List ℕ)
  pub description_hash : Option (List ℕ)
  pub description_hash_len : Option ℕ
  pub temporary : Bool
  pub position : ℤ
  pub max_users : ℕ
  pub links : List (LinkNode (Unit {0}))
  pub is_enter_restricted : Bool
  pub can_enter : Option Bool
  pub permissions : ℕ
  pub listening_volume_adjustment : Option ℕ

new_user : ℕ → ℕ → MumbleUser
new_user ref session = record {
  data_ref = ref;
  connected = false;
  session = session;
  user_id = 0;
  channel_id = 0;
  name = none;
  mute = false;
  deaf = false;
  self_mute = false;
  self_deaf = false;
  suppress = false;
  comment = none;
  comment_hash = none;
  comment_hash_len = 0;
  speaking = false;
  recording = false;
  priority_speaker = false;
  texture = none;
  texture_hash = none;
  texture_hash_len = 0;
  hash = none;
  listens = [];
}

new_channel : ℕ → ℕ → MumbleChannel
new_channel ref channel_id = record {
  data_ref = ref;
  name = none;
  channel_id = channel_id;
  parent = 0;
  description = none;
  description_hash = none;
  description_hash_len = none;
  temporary = false;
  position = pos 0;
  max_users = 0;
  links = [];
  is_enter_restricted = false;
  can_enter = none;
  permissions = 0;
  listening_volume_adjustment = none;
}

-- The Lua table and the list of one kind of object.
pub record Known (A : Type 0) : Type 0 where
  pub table : ℕ → Option A
  pub list : List (LinkNode A)

pub set_key : {A : Type 0} → (ℕ → Option A) → ℕ → Option A → ℕ → Option A
set_key table key value k = if k == key then value else table k

module _ {A : Type 0} where
  pub get_or_add : Known A → ℕ → A → Known A × A
  unfolding set_key
  get_or_add known key made = elim (known.table key) [
    | some found ↦ (known, found)
    | none ↦ (
      record { table = set_key known.table key (some made); list = list_add known.list key made },
      made,
    )
  ]

  pub remove : Known A → ℕ → Known A
  unfolding set_key
  remove known key = record {
    table = set_key known.table key none;
    list = list_remove known.list key;
  }

pub mumble_user_get : ℕ → Known MumbleUser → ℕ → Known MumbleUser × MumbleUser
unfolding get_or_add new_user
mumble_user_get ref known session = get_or_add known session (new_user ref session)

pub mumble_user_remove : Known MumbleUser → ℕ → Known MumbleUser
unfolding remove
mumble_user_remove known session = remove known session

pub mumble_channel_get : ℕ → Known MumbleChannel → ℕ → Known MumbleChannel × MumbleChannel
unfolding get_or_add new_channel
mumble_channel_get ref known channel_id = get_or_add known channel_id (new_channel ref channel_id)

pub mumble_channel_remove : Known MumbleChannel → ℕ → Known MumbleChannel
unfolding remove
mumble_channel_remove known channel_id = remove known channel_id
