-- ===== src/Client/Methods/Client/Lists.antt =====
-- mumble/client.c: users and targets as a table or as arguments.
use lua_mumble.Base.{
  ℕ, u32, List, [], ◌∷◌, ◌++◌, map, length, Option, none, some, true, ◌≡◌, refl, ap,
}
use lua_mumble.Client.Session.{MumbleClient}
use lua_mumble.Client.Methods.{
  voice_target, plugin_data, texture_blob, sends, raises, ids, type_error, table_ids, prepend,
  with_ids, in_table, arguments,
}
use lua_mumble.Client.Methods.Ids.{table_all}
use lua_mumble.Client.Methods.Client.{
  when, given_list, client_send_plugin_data, client_register_voice_target,
  client_request_texture_blob,
}

arguments_all : (list : List ℕ) → table_ids (length (map some list)) (map some list) ≡ ids list
unfolding table_ids prepend
arguments_all [] = refl
arguments_all (id ∷ rest) = ap (prepend id) (arguments_all rest)

wrong_argument :
    (list : List ℕ) (rest : List (Option ℕ))
    → table_ids (length (map some list ++ none ∷ rest)) (map some list ++ none ∷ rest) ≡ type_error
unfolding table_ids prepend
wrong_argument [] rest = refl
wrong_argument (id ∷ list) rest = ap (prepend id) (wrong_argument list rest)

-- The methods of a connected client that take a list send the same for a table and for arguments, with all
-- its elements in order; an argument of another type, after any others, raises an error.
pub client_lists :
    (client : MumbleClient) (dataid text : List ℕ) (id : ℕ) (list : List ℕ) (rest : List (Option ℕ))
    → client.connected ≡ true
    → let table = in_table (length list) (map some list) in
      let each = arguments (map some list) in
      let wrong = arguments (map some list ++ none ∷ rest) in
      (client_send_plugin_data client dataid text table true
        ≡ sends (
            plugin_data (record {
              sendersession = some client.session;
              receiversessions = list;
              data_of = some text;
              dataid = some dataid;
            })))
      × (client_send_plugin_data client dataid text each true
          ≡ client_send_plugin_data client dataid text table true)
      × (client_register_voice_target client id table true ≡ sends (voice_target (u32 id) list))
      × (client_register_voice_target client id each true ≡ sends (voice_target (u32 id) list))
      × (client_request_texture_blob client table true ≡ sends (texture_blob list))
      × (client_request_texture_blob client each true ≡ sends (texture_blob list))
      × (client_send_plugin_data client dataid text wrong true ≡ raises)
      × (client_register_voice_target client id wrong true ≡ raises)
      × (client_request_texture_blob client wrong true ≡ raises)
unfolding client_send_plugin_data client_register_voice_target client_request_texture_blob when
    given_list with_ids
client_lists client dataid text id list rest on = (
  rw (on, table_all list) refl,
  rw (on, table_all list, arguments_all list) refl,
  rw (on, table_all list) refl,
  rw (on, arguments_all list) refl,
  rw (on, table_all list) refl,
  rw (on, arguments_all list) refl,
  rw (on, wrong_argument list rest) refl,
  rw (on, wrong_argument list rest) refl,
  rw (on, wrong_argument list rest) refl,
)
