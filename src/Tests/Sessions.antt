-- ===== src/Tests/Sessions.antt =====
-- A client that learns of users and channels, and packets on their way.
use lua_mumble.Base.{
  ℕ, ◌≢◌, ◌+◌, ◌-◌, List, [], ◌∷◌, Option, some, none, Bool, true, false, not, ◌&&◌, load,
  if◌then◌else◌, ◌≡◌, refl, arith, length, take, drop, pos,
}
use lua_mumble.Links.{list_get}
use lua_mumble.Links.Laws.{copies}
use lua_mumble.Client.Handlers.Users.Taken.{HasState, packet_user_state_lem}
use lua_mumble.Client.Users.{MumbleUser, MumbleChannel, Known}
use lua_mumble.Client.Users.Kept.{IsKept}
use lua_mumble.Client.Events.{Call}
use lua_mumble.Client.Session.{MumbleClient, Outcome, channel_get, needs}
use lua_mumble.Client.Session.Sound.{IsSound}
use lua_mumble.Client.Handlers.{PermissionQuery, packet_permission_query, push_copy}
use lua_mumble.Strndup.{IsText, read_copy}
use lua_mumble.Client.Handlers.Copies.{packet_state_zero}
use lua_mumble.Client.Handlers.Channels.{ChannelState, packet_channel_state, channel_state}
use lua_mumble.Client.Handlers.Channels.Linked.{packet_channel_state_links, links_after, times}
use lua_mumble.Client.Handlers.Users.{
  UserState, UserRemove, packet_user_state, packet_user_remove, user_state, copies_of,
}
use lua_mumble.Client.Handlers.Users.Effects.{hooks_in, user_before}
use lua_mumble.Client.Handlers.Users.Removal.{packet_user_remove_lem}
use lua_mumble.Client.Tcp.{MumblePacket, packet_reset, has_handler, socket_read_event, handled}
use lua_mumble.Client.Send.{packet_sendex, has_packed_size}
use lua_mumble.Client.Send.Framing.{packet_sendex-socket_read_event}
use lua_mumble.Client.Session.{change_user, user_get}
use lua_mumble.Crypt.State.{init}
use lua_mumble.Client.Voice.{Opus, Audio}
use lua_mumble.Client.Reports.Pongs.{Times}
use lua_mumble.Client.Events.{whole, lua_nil}
use lua_mumble.Client.Handlers.Tunnel.{Connection, Step, on_client, packet_tcp_udp_tunnel}
use lua_mumble.Client.Udp.{handle_udp_packet}
use lua_mumble.Client.Handlers.Dispatch.{
  user_state as user_state_message, udp_tunnel, packet_handler, here, next,
}
use lua_mumble.Client.Handlers.Dispatch.Soundness.{Reached_lem}

abbrev pub no_objects : {A : Type 0} → Known A
no_objects = record { table = λ k. none; list = [] }

abbrev idle : MumblePacket
idle = record { type_of = 0; length_of = 0; header = none; body = none }

abbrev pub first_ref : ℕ → ℕ
first_ref n = n + 10

abbrev pub new_client : MumbleClient
new_client = record {
  connecting = true;
  connected = true;
  synced = true;
  legacy = false;
  ping_timer_active = true;
  session = 7;
  max_bandwidth = 72000;
  audio_frames = 20;
  bitrate = 40000;
  users = no_objects;
  channels = no_objects;
  refs = 0;
}

nothing-IsKept : {A : Type 0} (id : A → ℕ) → IsKept id no_objects
unfolding list_get copies
nothing-IsKept id = record {
  agreed = record { same = λ k. refl; once = λ k. omega arith };
  own = λ k a e. absurd (ground (arith, e));
}

pub new_client-IsSound : IsSound new_client
new_client-IsSound = record {
  users_kept = nothing-IsKept (λ user. user.session);
  channels_kept = nothing-IsKept (λ channel. channel.channel_id);
}

-- What a handler returned.
abbrev pub returned : Outcome → MumbleClient × List Call
returned none = (new_client, [])
returned (some result) = result

abbrev joins : UserState
joins = record {
  session = some 5;
  actor = none;
  name = some (65 ∷ []);
  user_id = none;
  channel_id = some 2;
  mute = none;
  deaf = none;
  suppress = none;
  self_mute = some true;
  self_deaf = none;
  texture = none;
  comment = none;
  hash = none;
  comment_hash = some (1 ∷ 2 ∷ []);
  texture_hash = none;
  priority_speaker = none;
  recording = none;
  listening_channel_add = 3 ∷ [];
  listening_channel_remove = [];
  listening_volume_adjustment = [];
}

abbrev joined : MumbleClient × List Call
joined = returned (packet_user_state first_ref joins new_client)

abbrev joined_again : MumbleClient × List Call
joined_again = returned (packet_user_state first_ref joins joined.0)

packet_user_state_lem_example :
    ((user : MumbleUser) × (joined.0.users.table 5 ≡ some user)
      × HasState joins 5 (user_before first_ref 5 new_client) user)
    × ((k : ℕ) → k ≢ 5 → joined.0.users.table k ≡ none)
    × (hooks_in "OnUserState" joined.1 ≡ 1)
    × (hooks_in "OnUserConnect" joined.1
        ≡ (if not (user_before first_ref 5 new_client).connected && true then 1 else 0))
unfolding packet_user_state needs user_state copies_of push_copy read_copy load
packet_user_state_lem_example =
    packet_user_state_lem first_ref joins 5 new_client joined.0 joined.1 new_client-IsSound refl
      refl

abbrev kicks : UserRemove
kicks = record { session = 7; actor = some 5; reason = none; ban = some false }

abbrev kicked : MumbleClient × List Call
kicked = returned (packet_user_remove first_ref kicks new_client)

packet_user_remove_lem_example :
    (new_client.session ≢ kicks.session
      → (kicked.0.users.table kicks.session ≡ none)
        × ((k : ℕ) → k ≢ kicks.session → kicked.0.users.table k ≡ none))
    × (new_client.session ≡ kicks.session
        → new_client.connecting ≡ true
        → ((k : ℕ) → kicked.0.users.table k ≡ none)
          × ((k : ℕ) → kicked.0.channels.table k ≡ none)
          × (kicked.0.connected ≡ false))
unfolding packet_user_remove
packet_user_remove_lem_example =
    packet_user_remove_lem first_ref kicks new_client kicked.0 kicked.1 new_client-IsSound refl

abbrev links_two : ChannelState
links_two = record {
  channel_id = some 1;
  parent = some 0;
  name = some (66 ∷ []);
  description = none;
  temporary = none;
  position = none;
  description_hash = none;
  max_users = none;
  links_add = 4 ∷ 4 ∷ [];
  links_remove = 4 ∷ [];
  links = [];
  is_enter_restricted = none;
  can_enter = some true;
}

abbrev linked : MumbleClient × List Call
linked = returned (packet_channel_state first_ref links_two new_client)

packet_channel_state_links_example :
    (channel : MumbleChannel) × (linked.0.channels.table 1 ≡ some channel)
    × (copies channel.links 4
        ≡ links_after []
            (copies (channel_get first_ref 1 new_client).1.links 4
              + times 4 (4 ∷ 4 ∷ [])
              - times 4 (4 ∷ []))
            4)
    × (◌≢◌ {A = ℕ} 4 1 → linked.0.channels.table 4 ≡ none)
unfolding packet_channel_state channel_state needs push_copy
packet_channel_state_links_example =
    packet_channel_state_links first_ref links_two new_client 1 linked.0 linked.1 4
      new_client-IsSound refl refl

abbrev flushes : PermissionQuery
flushes = record { channel_id = none; permissions = none; flush = some true }

abbrev flushed : MumbleClient × List Call
flushed = returned (packet_permission_query first_ref flushes linked.0)

packet_state_zero_example :
    ((state : ChannelState) (channel_id : ℕ)
      → state.channel_id ≡ some channel_id
      → state.description_hash ≡ some (5 ∷ 0 ∷ 6 ∷ 7 ∷ [])
      → packet_channel_state first_ref state new_client ≡ none)
    × ((state : UserState) (session : ℕ)
        → state.session ≡ some session
        → state.texture ≡ some (5 ∷ 0 ∷ 6 ∷ 7 ∷ [])
        → packet_user_state first_ref state new_client ≡ none)
    × (read_copy (5 ∷ []) ≡ some (5 ∷ []))
unfolding IsText
packet_state_zero_example =
    packet_state_zero first_ref new_client (5 ∷ []) (7 ∷ []) 6 ((λ e. omega (arith, e)), tt)

abbrev text_of : Bool → List ℕ → Option (List ℕ)
text_of v6 bytes = some (48 ∷ [])

abbrev mapped : List ℕ
mapped = 0 ∷ 0 ∷ 0 ∷ 0 ∷ 0 ∷ 0 ∷ 0 ∷ 0 ∷ 0 ∷ 0 ∷ 255 ∷ 255 ∷ 10 ∷ 1 ∷ 2 ∷ 3 ∷ []

abbrev silent_opus : Opus
silent_opus = record {
  nb_channels = λ packet. pos 1;
  bandwidth = λ packet. pos 1105;
  samples_per_frame = λ packet. pos 480;
}

abbrev connection : Connection
connection = record {
  client = new_client;
  link = record { legacy = false; udp_ping_acc = 0; udp_packets = 0; tcp_udp_tunnel = true };
  crypt = init;
  resync = 0;
  replies = [];
}

-- Voice of session 6, which was not known.
abbrev voice_of_6 : List ℕ → Option (ℕ × Audio)
voice_of_6 packed =
    some (6, record { header = 0; frame_number = 3; opus_data = packed; is_terminator = false })

abbrev no_times : ℕ → Times
no_times timestamp = record { time = whole 0; average = whole 0; deviation = whole 0 }

abbrev stepped : Step → Connection × List Call
stepped none = (connection, [])
stepped (some result) = result

abbrev tunnelled : Connection × List Call
tunnelled = stepped (
    packet_tcp_udp_tunnel silent_opus first_ref voice_of_6 (λ packed. none) (λ t. lua_nil)
      (0 ∷ 9 ∷ []) (record connection { client = joined.0 }))

Reached_lem_example : IsSound tunnelled.0.client
unfolding packet_handler packet_user_state needs user_state copies_of push_copy read_copy load
    on_client packet_tcp_udp_tunnel handle_udp_packet change_user user_get
Reached_lem_example =
    Reached_lem first_ref (λ f. pos f) text_of (λ s bytes. bytes) silent_opus voice_of_6
      (λ packed. none) (λ t. lua_nil) no_times connection tunnelled.0 new_client-IsSound
      (next (udp_tunnel (0 ∷ 9 ∷ [])) (record connection { client = joined.0 }) tunnelled.0
        tunnelled.1
        (next (user_state_message joins) connection (record connection { client = joined.0 })
          joined.1 here refl)
        refl)

packet_sendex-socket_read_event_example :
    (bytes : List ℕ) × ((packet_sendex (λ out. some 9) 11 (1 ∷ 2 ∷ 3 ∷ []) true).1 ≡ some bytes)
    × (some 9 ≡ some (length bytes)
        → (packet_sendex (λ out. some 9) 11 (1 ∷ 2 ∷ 3 ∷ []) true).0 ≡ pos 0)
    × (has_handler 11 ≡ true
        → socket_read_event (some (take 6 bytes)) (some (drop 6 bytes)) true (packet_reset idle)
          ≡ (packet_reset idle, handled 11 (1 ∷ 2 ∷ 3 ∷ [])))
unfolding has_packed_size
packet_sendex-socket_read_event_example =
    packet_sendex-socket_read_event (λ out. some 9) 11 (1 ∷ 2 ∷ 3 ∷ []) idle refl (omega arith)
      (omega arith)
