-- ===== src/Client/Handlers/Tunnel/Soundness.antt =====
-- mumble/packet.c, `packet_tcp_udp_tunnel`: voice through the tunnel leaves a session sound.
use lua_mumble.Base.{ℕ, List, [], ◌∷◌, ◌++◌, Option, none, some, false, not, ◌>>=◌}
use lua_mumble.Client.Events.{Value}
use lua_mumble.Client.Session.{MumbleClient, Outcome}
use lua_mumble.Client.Session.Sound.{IsSound, IsSoundOutcome, IsSoundOutcome->>=}
use lua_mumble.Client.Udp.{
  Action, ping_legacy, ping_protobuf, hook_ping, hook_pong, voice_legacy, voice_protobuf,
  handle_udp_packet,
}
use lua_mumble.Client.Voice.{
  Opus, Audio, Frame, read_frame, mumble_handle_speaking_hooks_legacy,
  mumble_handle_speaking_hooks_protobuf,
}
use lua_mumble.Client.Voice.Turns.{speaking_hooks_lem}
use lua_mumble.Client.Handlers.Tunnel.{
  Connection, Step, on_client, voice, act, act_all, packet_tcp_udp_tunnel,
}

-- A step that returns leaves the session sound.
unfoldable pub IsSoundStep : Step → Type 0
IsSoundStep none = Unit
IsSoundStep (some (c, calls)) = IsSound c.client

pub IsSoundStep-on_client :
    (o : Outcome) (c : Connection) → IsSoundOutcome o → IsSoundStep (on_client o c)
unfolding IsSoundStep IsSoundOutcome on_client
IsSoundStep-on_client none c h = tt
IsSoundStep-on_client (some (client, calls)) c h = h

IsSoundStep->>= :
    {A : Type 0} (o : Option A) (k : A → Step)
    → ((a : A) → IsSoundStep (k a))
    → IsSoundStep (o >>= k)
unfolding IsSoundStep
IsSoundStep->>= none k h = tt
IsSoundStep->>= (some a) k h = h a

-- The frame of a packet of protobuf.
abbrev frame_of : Audio → Frame
frame_of audio = record {
  codec = 4;
  target = audio.header;
  sequence = audio.frame_number;
  speaking = not audio.is_terminator;
  payload = audio.opus_data;
  context = some audio.header;
  opus_data = audio.opus_data;
}

module _ (opus : Opus) (new_ref : ℕ → ℕ) (unpack_audio : List ℕ → Option (ℕ × Audio))
    (unpack_ping : List ℕ → Option ℕ) (pong : ℕ → Value) where
  IsSoundOutcome-voice :
      (unpacked : Option (ℕ × Audio)) (client : MumbleClient)
      → IsSound client
      → IsSoundOutcome (voice opus new_ref unpack_audio unpack_ping pong unpacked client)
  unfolding voice IsSoundOutcome mumble_handle_speaking_hooks_protobuf
  IsSoundOutcome-voice none client h = h
  IsSoundOutcome-voice (some (session, audio)) client h =
      (speaking_hooks_lem opus new_ref (frame_of audio) session client h).0

  IsSoundOutcome-act :
      (action : Action) (client : MumbleClient)
      → IsSound client
      → IsSoundOutcome (act opus new_ref unpack_audio unpack_ping pong action client)
  unfolding act IsSoundOutcome mumble_handle_speaking_hooks_legacy
  IsSoundOutcome-act (voice_legacy buffer id target session) client h =
      IsSoundOutcome->>= (read_frame buffer id target) _
        (λ frame. (speaking_hooks_lem opus new_ref frame session client h).0)
  IsSoundOutcome-act (voice_protobuf packed) client h =
      IsSoundOutcome-voice (unpack_audio packed) client h
  IsSoundOutcome-act (hook_pong timestamp) client h = h
  IsSoundOutcome-act (hook_ping timestamp) client h = h
  IsSoundOutcome-act (ping_legacy timestamp) client h = h
  IsSoundOutcome-act (ping_protobuf timestamp) client h = h

  IsSoundOutcome-then :
      (o : Outcome) (k : MumbleClient → Outcome)
      → IsSoundOutcome o
      → ((client : MumbleClient) → IsSound client → IsSoundOutcome (k client))
      → IsSoundOutcome
          (o >>= λ (next, calls). k next >>= λ (last, more). some (last, calls ++ more))
  unfolding IsSoundOutcome
  IsSoundOutcome-then none k h keeps = tt
  IsSoundOutcome-then (some (next, calls)) k h keeps = last (k next) (keeps next h)
    where
      last :
          (o : Outcome)
          → IsSoundOutcome o
          → IsSoundOutcome (o >>= λ (last, more). some (last, calls ++ more))
      last none s = tt
      last (some (after, more)) s = s

  IsSoundOutcome-act_all :
      (actions : List Action) (client : MumbleClient)
      → IsSound client
      → IsSoundOutcome (act_all opus new_ref unpack_audio unpack_ping pong actions client)
  unfolding act_all IsSoundOutcome
  IsSoundOutcome-act_all [] client h = h
  IsSoundOutcome-act_all (action ∷ rest) client h =
      IsSoundOutcome-then (act opus new_ref unpack_audio unpack_ping pong action client)
        (act_all opus new_ref unpack_audio unpack_ping pong rest)
        (IsSoundOutcome-act action client h) (λ next sound. IsSoundOutcome-act_all rest next sound)

  pub IsSoundStep-tunnel :
      (body : List ℕ) (c : Connection)
      → IsSound c.client
      → IsSoundStep (packet_tcp_udp_tunnel opus new_ref unpack_audio unpack_ping pong body c)
  unfolding packet_tcp_udp_tunnel
  IsSoundStep-tunnel body c h =
      IsSoundStep->>= (handle_udp_packet _ unpack_ping body false _) _ (λ (link, actions).
        IsSoundStep-on_client _ (record c { link = link })
          (IsSoundOutcome-act_all actions c.client h))
