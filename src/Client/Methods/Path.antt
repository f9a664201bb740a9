-- ===== src/Client/Methods/Path.antt =====
-- mumble/channel.c, `channel_call`: the channel at a path. `strtok` of the C library, with the delimiters of
-- the call, is an argument: the tokens of a text.
use lua_mumble.Base.{
  ℕ, ◌∷◌, List, [], Option, none, some, Bool, true, false, not, ◌&&◌, if◌then◌else◌, ◌==◌, ◌>>=◌,
}
use lua_mumble.Links.{LinkNode}
use lua_mumble.Client.Users.{MumbleChannel, Known}
use lua_mumble.Client.Events.{lua_nil, mumble_channel_raw_get}
use lua_mumble.Client.Methods.{Result, pushes}

-- `strcmp` of two strings is 0.
unfoldable pub same_text : List ℕ → List ℕ → Bool
same_text [] [] = true
same_text [] (b ∷ bs) = false
same_text (a ∷ left) [] = false
same_text (a ∷ left) (b ∷ bs) = let rest = same_text left bs in if a == b then rest else false

named : List ℕ → Option (List ℕ) → Bool
unfolding same_text
named token none = false
named token (some name) = same_text token name

is_child : ℕ → List ℕ → MumbleChannel → Bool
unfolding named
is_child parent token channel =
    named token channel.name
    && (not (channel.channel_id == channel.parent) && channel.parent == parent)

-- The child of a name: of several, the last one in the list.
unfoldable pub child_named : ℕ → List ℕ → List (LinkNode MumbleChannel) → Option MumbleChannel
unfolding is_child
child_named parent token [] = none
child_named parent token (node ∷ next) =
    let later = child_named parent token next in
    elim later [
      | some channel ↦ some channel
      | none ↦ if is_child parent token node.data_of then some node.data_of else none
    ]

-- One token: "." stays, ".." goes to the parent.
unfoldable pub step : Known MumbleChannel → MumbleChannel → List ℕ → Option MumbleChannel
unfolding same_text child_named
step channels channel token =
    if same_text token (46 ∷ [])
    then some channel
    else if same_text token (46 ∷ 46 ∷ [])
    then channels.table channel.parent
    else child_named channel.channel_id token channels.list

unfoldable pub walk : Known MumbleChannel → MumbleChannel → List (List ℕ) → Option MumbleChannel
unfolding step
walk channels channel [] = some channel
walk channels channel (token ∷ rest) =
    step channels channel token >>= λ next. walk channels next rest

unfoldable pub channel_call :
    (List ℕ → List (List ℕ)) → Known MumbleChannel → MumbleChannel → List ℕ → Result
unfolding walk
channel_call strtok channels channel path = pushes (elim (walk channels channel (strtok path)) [
  | none ↦ lua_nil
  | some found ↦ mumble_channel_raw_get channels found.channel_id
])
