-- ===== src/Client/Handlers/Tunnel.antt =====
-- mumble/packet.c, `packet_tcp_udp_tunnel` and `packet_crypt_setup`: the handlers that act on the UDP link and
-- the crypt state too, with the voice that `mumble_handle_udp_packet` hands on. Unpacking of protobuf, libopus
-- and the table of OnPongUDP, which has times, are arguments.
pub mod Soundness
use lua_mumble.Base.{ℕ, List, [], ◌∷◌, ◌++◌, Option, none, some, Bool, true, false, ◌>>=◌}
use lua_mumble.Crypt.State.{CryptState}
use lua_mumble.Client.CryptSetup.{Setup, Reply, packet_crypt_setup}
use lua_mumble.Client.Events.{Value, Call}
use lua_mumble.Client.Session.{MumbleClient, Outcome}
use lua_mumble.Client.Udp.{
  Link, Action, ping_legacy, ping_protobuf, hook_ping, hook_pong, voice_legacy, voice_protobuf,
  handle_udp_packet,
}
use lua_mumble.Client.Voice.{
  Opus, Audio, mumble_handle_speaking_hooks_legacy, mumble_handle_speaking_hooks_protobuf,
}

-- The parts of a client that its messages reach. `replies` is what the handler of the key exchange has sent,
-- with the pings and the hook that it makes.
pub record Connection : Type 0 where
  pub client : MumbleClient
  pub link : Link
  pub crypt : CryptState
  pub resync : ℕ
  pub replies : List Reply

abbrev pub Step : Type 0
Step = Option (Connection × List Call)

-- A handler that acts on the session only.
unfoldable pub on_client : Outcome → Connection → Step
on_client none c = none
on_client (some (client, calls)) c = some (record c { client = client }, calls)

unfoldable pub setup_crypt : Setup → Connection → Step
setup_crypt setup c =
    let (crypt, resync, reply) = packet_crypt_setup setup c.crypt c.resync in
    some (record c { crypt = crypt; resync = resync; replies = c.replies ++ reply ∷ [] }, [])

unfoldable pub is_unpacked : {A : Type 0} → Option A → Bool
is_unpacked none = false
is_unpacked (some a) = true

module _ (opus : Opus) (new_ref : ℕ → ℕ) (unpack_audio : List ℕ → Option (ℕ × Audio))
    (unpack_ping : List ℕ → Option ℕ) (pong : ℕ → Value) where
  -- The session is that of the sender.
  unfoldable pub voice : Option (ℕ × Audio) → MumbleClient → Outcome
  voice none client = some (client, [])
  voice (some (session, audio)) client =
      some (mumble_handle_speaking_hooks_protobuf opus new_ref audio session client)

  -- What a packet of voice or a ping does to the session. The pings that a client sends are no part of it.
  unfoldable pub act : Action → MumbleClient → Outcome
  unfolding voice
  act (voice_legacy buffer id target session) client =
      mumble_handle_speaking_hooks_legacy opus new_ref buffer id target session client
  act (voice_protobuf packed) client = voice (unpack_audio packed) client
  act (hook_pong timestamp) client =
      some (client, record { hook = "OnPongUDP"; argument = pong timestamp } ∷ [])
  act (hook_ping timestamp) client = some (client, [])
  act (ping_legacy timestamp) client = some (client, [])
  act (ping_protobuf timestamp) client = some (client, [])

  unfoldable pub act_all : List Action → MumbleClient → Outcome
  unfolding act
  act_all [] client = some (client, [])
  act_all (action ∷ rest) client = act action client >>= λ (next, calls).
      act_all rest next >>= λ (last, more). some (last, calls ++ more)

  -- The body is handled like a packet of UDP that came through TCP.
  unfoldable pub packet_tcp_udp_tunnel : List ℕ → Connection → Step
  unfolding act_all is_unpacked on_client
  packet_tcp_udp_tunnel body c =
      handle_udp_packet (λ packed. is_unpacked (unpack_audio packed)) unpack_ping body false
        (record c.link { legacy = c.client.legacy })
      >>= λ (link, actions). on_client (act_all actions c.client) (record c { link = link })
