-- ===== src/Client/Voice/Transmit.antt =====
-- mumble/client.c and mumble/audio.c: a voice packet that the client sends, and that its own hooks are told
-- of. The bytes of a buffer on the stack before they are written, protobuf's packing and libopus are
-- arguments. `none` is an access out of the buffer.
pub mod Heard
use lua_mumble.Base.{
  ℕ, get_elem?, u8, u16, u32, u64, ℤ, bit_and, bit_or, ◌<<◌, ◌>>◌, zero, suc, ◌+◌, ◌-◌, ◌*◌, ◌/◌,
  ◌%◌, ◌^◌, ◌≤◌, ◌<◌, List, [], ◌∷◌, ◌++◌, map, Option, none, some, Bool, true, false, not, ◌&&◌,
  ◌||◌, ◌==◌, ltb, leb, if◌then◌else◌, ◌>>=◌, load, store, length, take, drop, ◌≡◌, ◌≢◌, ◌⊎◌, ◌↔◌,
  inl, inr, refl, sym, ap, ◌∙◌, arith, All, Bool-cases, Option-cases, ==_iff, length-append,
  take-append, String,
}
use lua_mumble.VoicePacket.{
  VoicePacket, voicepacket_init, voicepacket_setheader, voicepacket_setframe, voicepacket_getlength,
}
use lua_mumble.Client.Events.{Call}
use lua_mumble.Client.Session.{MumbleClient}
use lua_mumble.Client.Voice.{
  Opus, Audio, mumble_handle_speaking_hooks_legacy, mumble_handle_speaking_hooks_protobuf,
}

-- What is given to `packet_sendex` as a tunnelled packet, or to `packet_sendudp`.
pub data Sending : Type 0 where
  tunnel : List ℕ → Sending
  datagram : List ℕ → Sending

pub record Transmission : Type 0 where
  pub audio_target : ℕ
  pub audio_sequence : ℕ
  pub tcp_udp_tunnel : Bool

unfoldable pub route : Bool → List ℕ → Sending
route tcp_udp_tunnel bytes = if tcp_udp_tunnel then tunnel bytes else datagram bytes

unfoldable pub frame_header_of : ℕ → Bool → ℕ → ℕ
frame_header_of codec speaking outputlen =
    if codec == 4 && not speaking
    then u16 (bit_or (1 << 13) outputlen)
    else (if (codec == 2 || codec == 0 || codec == 3) && speaking
        then u16 (bit_or (1 << 0) outputlen)
        else u16 outputlen)

-- A header and a frame in a buffer; what the two functions return is not looked at.
unfoldable pub voice_packet : List ℕ → ℕ → ℕ → ℕ → ℕ → List ℕ → Option VoicePacket
voice_packet buffer codec target sequence frame_header frame = do
  (with_header, first) ← voicepacket_setheader (voicepacket_init buffer) codec target sequence
  (with_frame, second) ← voicepacket_setframe with_header codec frame_header frame
  some with_frame

unfoldable pub packet_bytes : VoicePacket → List ℕ
packet_bytes packet = take (voicepacket_getlength packet) packet.buffer

module _ (opus : Opus) (new_ref : ℕ → ℕ) (pack : Audio → List ℕ) where
  pub transmit_legacy :
      List ℕ
      → ℕ
      → List ℕ
      → Bool
      → Transmission
      → MumbleClient
      → Option (Sending × MumbleClient × List Call)
  unfolding voice_packet packet_bytes route frame_header_of
  transmit_legacy buffer codec output speaking t client = do
    packet ←
        voice_packet buffer codec t.audio_target t.audio_sequence
          (frame_header_of codec speaking (length output)) output
    (after, calls) ←
        mumble_handle_speaking_hooks_legacy opus new_ref (drop 1 packet.buffer) codec t.audio_target
          client.session client
    some (route t.tcp_udp_tunnel (packet_bytes packet), after, calls)

  -- The first byte is PROTO_UDP_AUDIO, and the buffer has PAYLOAD_SIZE_MAX bytes.
  pub transmit_protobuf :
      List ℕ → Bool → Transmission → MumbleClient → Option (Sending × MumbleClient × List Call)
  unfolding route
  transmit_protobuf output speaking t client =
      let audio : Audio = record {
        header = t.audio_target;
        frame_number = t.audio_sequence;
        opus_data = output;
        is_terminator = not speaking;
      } in
      if ltb 8191 (1 + length (pack audio))
      then none
      else (let (after, calls) =
            mumble_handle_speaking_hooks_protobuf opus new_ref audio client.session client in
          some (route t.tcp_udp_tunnel (0 ∷ pack audio), after, calls))

  pub client_transmit :
      List ℕ
      → ℕ
      → List ℕ
      → Bool
      → Transmission
      → MumbleClient
      → Option (Transmission × Sending × MumbleClient × List Call)
  unfolding transmit_legacy transmit_protobuf
  client_transmit buffer codec output speaking t client =
      (if client.legacy
        then transmit_legacy buffer (u8 codec) output speaking t client
        else transmit_protobuf output speaking t client)
      >>= λ (sending, after, calls).
          some (record t { audio_sequence = u32 (t.audio_sequence + 1) }, sending, after, calls)

  -- A packet of the encoder; one above UDP_BUFFER_MAX is not sent, and all streams are stopped.
  pub send_legacy_audio :
      List ℕ
      → List ℕ
      → Bool
      → ℕ
      → Transmission
      → MumbleClient
      → Option (Option Sending × MumbleClient × List Call)
  unfolding voice_packet packet_bytes route
  send_legacy_audio buffer encoded end_frame sequence t client = do
    packet ←
        voice_packet buffer 4 t.audio_target sequence
          (u16 (if end_frame then bit_or (length encoded) (1 << 13) else length encoded)) encoded
    if ltb 1024 (voicepacket_getlength packet)
        then some (none, client, [])
        else (mumble_handle_speaking_hooks_legacy opus new_ref (drop 1 packet.buffer) 4
              t.audio_target client.session client
            >>= λ (after, calls).
                some (some (route t.tcp_udp_tunnel (packet_bytes packet)), after, calls))

  -- The buffer has PCM_BUFFER bytes.
  pub send_protobuf_audio :
      List ℕ
      → Bool
      → ℕ
      → Transmission
      → MumbleClient
      → Option (Option Sending × MumbleClient × List Call)
  unfolding route
  send_protobuf_audio encoded end_frame sequence t client =
      let audio : Audio = record {
        header = t.audio_target;
        frame_number = sequence;
        opus_data = encoded;
        is_terminator = end_frame;
      } in
      if ltb 5760 (1 + length (pack audio))
      then none
      else (if ltb 1024 (1 + length (pack audio))
          then some (none, client, [])
          else (let (after, calls) =
                mumble_handle_speaking_hooks_protobuf opus new_ref audio client.session client in
              some (some (route t.tcp_udp_tunnel (0 ∷ pack audio)), after, calls)))
