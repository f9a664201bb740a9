-- ===== src/Client/Reports/Access.antt =====
-- mumble/packet.c and mumble/mumble.c: the reports on bans and access rights. `inet_ntop` gives the text
-- of an address, or nothing where it fails; `format` is `sprintf`. An address has its 16 bytes.
pub mod Addresses
use lua_mumble.Base.{
  ℕ, suc, ◌∷◌, List, [], Option, none, some, Bool, true, false, if◌then◌else◌, ◌==◌, get_or, String,
  ◌&&◌, take,
}
use lua_mumble.Client.Users.{Known, MumbleUser, MumbleChannel}
use lua_mumble.Client.Events.{
  Value, lua_nil, lua_boolean, lua_string, lua_table, Call, event, lua_pushinteger, given, array,
  some_array, mumble_user_raw_get, mumble_channel_raw_get,
}

all_zero : List ℕ → Bool
all_zero [] = true
all_zero (b ∷ rest) = if b == 0 then all_zero rest else false

-- Eight bytes of zero, two more, and a word of ones.
unfoldable pub is_ipv4 : List ℕ → Bool
unfolding all_zero
is_ipv4 address =
    all_zero (take 8 address)
    && get_or address 8 0 == 0
    && get_or address 9 0 == 0
    && get_or address 10 0 == 0xff
    && get_or address 11 0 == 0xff

pub record Ban : Type 0 where
  pub address : List ℕ
  pub mask : ℕ
  pub name : Option (List ℕ)
  pub hash : Option (List ℕ)
  pub reason : Option (List ℕ)
  pub start : Option (List ℕ)
  pub duration : Option ℕ

module _ (inet_ntop : Bool → List ℕ → Option (List ℕ)) (format : String → List ℕ → List ℕ) where
  fallback_ipv6 : List ℕ → List ℕ
  fallback_ipv6 a =
      format "%02x%02x:%02x%02x:%02x%02x:%02x%02x:%02x%02x:%02x%02x:%02x%02x:%02x%02x" (
        get_or a 0 0
        ∷ get_or a 1 0
        ∷ get_or a 2 0
        ∷ get_or a 3 0
        ∷ get_or a 4 0
        ∷ get_or a 5 0
        ∷ get_or a 5 0
        ∷ get_or a 7 0
        ∷ get_or a 8 0
        ∷ get_or a 9 0
        ∷ get_or a 10 0
        ∷ get_or a 11 0
        ∷ get_or a 12 0
        ∷ get_or a 13 0
        ∷ get_or a 14 0
        ∷ get_or a 15 0
        ∷ [])

  fallback_ipv4 : List ℕ → List ℕ
  fallback_ipv4 a =
      format "%d.%d.%d.%d" (get_or a 12 0 ∷ get_or a 13 0 ∷ get_or a 14 0 ∷ get_or a 15 0 ∷ [])

  text_or : Option (List ℕ) → List ℕ → Value
  text_or none other = lua_string other
  text_or (some s) other = lua_string s

  -- The flag of `inet_ntop` is true for AF_INET6. `inet_ntop` reads the first four or
  -- sixteen bytes of what it is given, and gets the address from its beginning in both cases.
  unfoldable pub mumble_push_address : List ℕ → Value
  unfolding is_ipv4 fallback_ipv6 fallback_ipv4 text_or
  mumble_push_address address =
      if is_ipv4 address
      then event (
          ("ipv4", lua_boolean true)
          ∷ ("string", text_or (inet_ntop false (take 4 address)) (fallback_ipv4 address))
          ∷ ("data", array lua_pushinteger address)
          ∷ [])
      else event (
          ("ipv6", lua_boolean true)
          ∷ ("string", text_or (inet_ntop true (take 16 address)) (fallback_ipv6 address))
          ∷ ("data", array lua_pushinteger address)
          ∷ [])

  ban_entry : Ban → Value
  unfolding mumble_push_address
  ban_entry ban = event (
      ("address", mumble_push_address ban.address)
      ∷ ("mask", lua_pushinteger ban.mask)
      ∷ ("name", given lua_string ban.name)
      ∷ ("hash", given lua_string ban.hash)
      ∷ ("reason", given lua_string ban.reason)
      ∷ ("start", given lua_string ban.start)
      ∷ ("duration", given lua_pushinteger ban.duration)
      ∷ [])

  pub packet_ban_list : List Ban → Call
  unfolding ban_entry
  packet_ban_list bans = record { hook = "OnBanList"; argument = array ban_entry bans }

pub record PermissionDenied : Type 0 where
  pub type_of : Option ℕ
  pub permission : Option ℕ
  pub channel_id : Option ℕ
  pub session : Option ℕ
  pub reason : Option (List ℕ)
  pub name : Option (List ℕ)

pub packet_permission_denied : Known MumbleUser → Known MumbleChannel → PermissionDenied → Call
packet_permission_denied users channels proto = record {
  hook = "OnPermissionDenied";
  argument = event (
      ("type", given lua_pushinteger proto.type_of)
      ∷ ("permission", given lua_pushinteger proto.permission)
      ∷ ("channel", given (mumble_channel_raw_get channels) proto.channel_id)
      ∷ ("user", given (mumble_user_raw_get users) proto.session)
      ∷ ("reason", given lua_string proto.reason)
      ∷ ("name", given lua_string proto.name)
      ∷ []);
}

pub record ChanGroup : Type 0 where
  pub name : Option (List ℕ)
  pub inherited : Option Bool
  pub inheritable : Option Bool
  pub add : List ℕ
  pub remove : List ℕ
  pub inherited_members : List ℕ

pub record ChanAcl : Type 0 where
  pub apply_here : Option Bool
  pub apply_subs : Option Bool
  pub inherited : Option Bool
  pub user_id : Option ℕ
  pub group : Option (List ℕ)
  pub grant : Option ℕ
  pub deny : Option ℕ

pub record Acl : Type 0 where
  pub channel_id : ℕ
  pub groups : List ChanGroup
  pub acls : List ChanAcl
  pub inherit_acls : Option Bool
  pub query : Option Bool

unfoldable pub acl_group : ChanGroup → Value
acl_group changroup = event (
    ("name", given lua_string changroup.name)
    ∷ ("inherited", given lua_boolean changroup.inherited)
    ∷ ("inheritable", given lua_boolean changroup.inheritable)
    ∷ ("add", some_array lua_pushinteger changroup.add)
    ∷ ("remove", some_array lua_pushinteger changroup.remove)
    ∷ ("inherited_members", some_array lua_pushinteger changroup.inherited_members)
    ∷ [])

-- `lua_pushboolean` of a number.
unfoldable pub integer_boolean : ℕ → Value
integer_boolean n = lua_boolean (if n == 0 then false else true)

unfoldable pub acl_entry : ChanAcl → Value
unfolding integer_boolean
acl_entry chanacl = event (
    ("apply_here", given lua_boolean chanacl.apply_here)
    ∷ ("apply_subs", given lua_boolean chanacl.apply_subs)
    ∷ ("inherited", given lua_boolean chanacl.inherited)
    ∷ ("user_id", given integer_boolean chanacl.user_id)
    ∷ ("group", given lua_string chanacl.group)
    ∷ ("grant", given lua_pushinteger chanacl.grant)
    ∷ ("deny", given lua_pushinteger chanacl.deny)
    ∷ [])

pub packet_acl : Known MumbleChannel → Acl → Call
unfolding acl_group acl_entry
packet_acl channels acl = record {
  hook = "OnACL";
  argument = event (
      ("channel", mumble_channel_raw_get channels acl.channel_id)
      ∷ ("groups", some_array acl_group acl.groups)
      ∷ ("acls", some_array acl_entry acl.acls)
      ∷ ("inherit_acls", given lua_boolean acl.inherit_acls)
      ∷ ("query", given lua_boolean acl.query)
      ∷ []);
}
