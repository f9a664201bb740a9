-- ===== src/Client/Voice.antt =====
-- mumble/mumble.c: the voice of a user, which the hooks OnUserStartSpeaking, OnUserSpeak and
-- OnUserStopSpeaking are told of. libopus's reading of a packet is an argument (Opus). The recording of
-- voices and the time at which a user last spoke are left out. `none` is a read out of the packet.
pub mod Turns
pub mod Transmit
use lua_mumble.Base.{
  ℤ, u16, bit_and, get_elem?, ℕ, zero, suc, ◌+◌, ◌-◌, ◌*◌, ◌/◌, ◌%◌, ◌^◌, ◌≤◌, ◌<◌, List, [], ◌∷◌,
  ◌++◌, map, Option, none, some, Bool, true, false, not, ◌&&◌, ◌||◌, ◌==◌, ltb, leb, if◌then◌else◌,
  ◌>>=◌, load, store, length, take, drop, ◌≡◌, ◌≢◌, ◌⊎◌, ◌↔◌, inl, inr, refl, sym, ap, ◌∙◌, arith,
  All, Bool-cases, Option-cases, ==_iff, length-append, take-append, String,
}
use lua_mumble.Varint.{util_get_varint}
use lua_mumble.Client.Users.{MumbleUser}
use lua_mumble.Client.Events.{
  Value, Call, event, lua_boolean, lua_number, lua_integer, lua_string, lua_pushinteger, given,
  whole, mumble_user_raw_get,
}
use lua_mumble.Client.Session.{MumbleClient, user_get, change_user}

-- What libopus says of a packet.
pub record Opus : Type 0 where
  pub nb_channels : List ℕ → ℤ
  pub bandwidth : List ℕ → ℤ
  pub samples_per_frame : List ℕ → ℤ

-- A voice packet as it was read; `opus_data` are the bytes from the payload on, and the context is that of
-- protobuf.
pub record Frame : Type 0 where
  pub codec : ℕ
  pub target : ℕ
  pub sequence : ℕ
  pub speaking : Bool
  pub payload : List ℕ
  pub context : Option ℕ
  pub opus_data : List ℕ

-- MumbleUDP.Audio. `target` and `context` are the cases of a oneof, which are kept at one place: `header`.
pub record Audio : Type 0 where
  pub header : ℕ
  pub frame_number : ℕ
  pub opus_data : List ℕ
  pub is_terminator : Bool

unfoldable pub is_one_frame : Bool → Bool → Bool
is_one_frame was speaking = not was && not speaking

unfoldable pub is_changed : Bool → Bool → Bool
is_changed was speaking = if was then not speaking else speaking

unfoldable pub starts : Bool → Bool → Bool
unfolding is_one_frame is_changed
starts was speaking = is_one_frame was speaking || (is_changed was speaking && speaking)

unfoldable pub stops : Bool → Bool → Bool
unfolding is_one_frame is_changed
stops was speaking = is_one_frame was speaking || (is_changed was speaking && not speaking)

unfoldable pub call_if : Bool → String → Value → List Call
call_if true hook argument = record { hook = hook; argument = argument } ∷ []
call_if false hook argument = []

unfoldable pub set_speaking : Bool → MumbleUser → MumbleUser
set_speaking speaking user = record user { speaking = speaking }

-- The bytes from `read` on, with the length and the end of the stream that the frame header says.
unfoldable pub read_payload : List ℕ → ℕ → ℕ → ℕ → ℕ → ℕ → Bool → Option Frame
read_payload buffer codec target sequence read payload_len speaking =
    load buffer read payload_len >>= λ payload. some (record {
      codec = codec;
      target = target;
      sequence = sequence;
      speaking = speaking;
      payload = payload;
      context = none;
      opus_data = drop read buffer;
    })

unfoldable pub read_frame : List ℕ → ℕ → ℕ → Option Frame
unfolding read_payload
read_frame buffer codec target = do
  (sequence, read) ← util_get_varint buffer 0
  if codec == 2 || codec == 0 || codec == 3
      then (get_elem? buffer read >>= λ frame_header.
          read_payload buffer codec target sequence (read + 1) (bit_and frame_header 0x7f)
            (bit_and frame_header 0x80 == 0))
      else (if codec == 4
          then (util_get_varint (drop read buffer) read >>= λ (value, after).
              read_payload buffer codec target sequence after (bit_and (u16 value) 0x1fff)
                (bit_and (u16 value) 0x2000 == 0))
          else read_payload buffer codec target sequence read 0 false)

module _ (opus : Opus) (new_ref : ℕ → ℕ) where
  unfoldable pub speak_event : Frame → Value → Value
  speak_event frame user = event (
      ("codec", lua_number (whole frame.codec))
      ∷ ("target", lua_number (whole frame.target))
      ∷ ("sequence", lua_number (whole frame.sequence))
      ∷ ("user", user)
      ∷ ("speaking", lua_boolean frame.speaking)
      ∷ ("data", lua_string frame.payload)
      ∷ ("context", given lua_pushinteger frame.context)
      ∷ ("channels", lua_integer (opus.nb_channels frame.opus_data))
      ∷ ("bandwidth", lua_integer (opus.bandwidth frame.opus_data))
      ∷ ("samples_per_frame", lua_integer (opus.samples_per_frame frame.opus_data))
      ∷ [])

  -- The hooks of a packet, for a user who was speaking or not.
  unfoldable pub speaking_calls : Bool → Frame → Value → List Call
  unfolding starts stops call_if speak_event
  speaking_calls was frame user =
      call_if (starts was frame.speaking) "OnUserStartSpeaking" user
      ++ (record { hook = "OnUserSpeak"; argument = speak_event frame user }
          ∷ call_if (stops was frame.speaking) "OnUserStopSpeaking" user)

  -- The user of the session is made where there is none.
  unfoldable pub speaking_hooks : Frame → ℕ → MumbleClient → MumbleClient × List Call
  unfolding set_speaking speaking_calls
  speaking_hooks frame session client =
      let (known, user) = user_get new_ref session client in
      let now = change_user session (set_speaking frame.speaking) known in
      (now, speaking_calls user.speaking frame (mumble_user_raw_get now.users session))

  unfoldable pub mumble_handle_speaking_hooks_protobuf :
      Audio → ℕ → MumbleClient → MumbleClient × List Call
  unfolding speaking_hooks
  mumble_handle_speaking_hooks_protobuf audio session client =
      speaking_hooks
        (record {
          codec = 4;
          target = audio.header;
          sequence = audio.frame_number;
          speaking = not audio.is_terminator;
          payload = audio.opus_data;
          context = some audio.header;
          opus_data = audio.opus_data;
        })
        session client

  unfoldable pub mumble_handle_speaking_hooks_legacy :
      List ℕ → ℕ → ℕ → ℕ → MumbleClient → Option (MumbleClient × List Call)
  unfolding read_frame speaking_hooks
  mumble_handle_speaking_hooks_legacy buffer codec target session client =
      read_frame buffer codec target >>= λ frame. some (speaking_hooks frame session client)
