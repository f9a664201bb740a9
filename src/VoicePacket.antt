-- ===== src/VoicePacket.antt =====
-- mumble/audio.c: putting together a legacy voice packet. The pointers are not NULL; a result below
-- zero is `failed` with its amount.
pub mod Header
pub mod Frame
use lua_mumble.Base.{
  ℕ, ◌+◌, ◌-◌, ◌*◌, ◌^◌, List, [], ◌∷◌, Option, none, some, ltb, leb, ◌==◌, if◌then◌else◌, length,
  u8, u16, bit_and, bit_or, ◌<<◌, store, ◌>>=◌, Bool, true, false, ◌||◌,
}
use lua_mumble.Varint.{util_set_varint}

pub record VoicePacket : Type 0 where
  pub buffer : List ℕ
  pub length_of : ℕ
  pub header_length : ℕ

pub data Status : Type 0 where
  done : Status
  failed : ℕ → Status

pub voicepacket_init : List ℕ → VoicePacket
voicepacket_init buffer = record { buffer = buffer; length_of = 0; header_length = 0 }

pub voicepacket_setheader : VoicePacket → ℕ → ℕ → ℕ → Option (VoicePacket × Status)
voicepacket_setheader p type_of target sequence =
    if ltb 0 p.length_of then some (p, failed 2) else (do
      first ← store p.buffer 0 (u8 (bit_or (bit_and type_of 0x7 << 5) (bit_and target 0x1f)) ∷ [])
      (buffer, offset) ← util_set_varint first 1 sequence
      some (record { buffer = buffer; length_of = 1 + offset; header_length = 1 + offset }, done))

-- The frame header behind the packet's header, and its size.
unfoldable pub frame_header_at : List ℕ → ℕ → ℕ → ℕ → Option (List ℕ × ℕ)
frame_header_at buffer at type_of frame_header =
    if type_of == 4
    then util_set_varint buffer at (u16 frame_header)
    else if type_of == 2 || type_of == 0 || type_of == 3
    then (do buffer' ← store buffer at (u8 frame_header ∷ []); some (buffer', 1))
    else some (buffer, 0)

unfoldable pub voicepacket_setframe : VoicePacket → ℕ → ℕ → List ℕ → Option (VoicePacket × Status)
unfolding frame_header_at
voicepacket_setframe p type_of frame_header frame =
    if length frame == 0 || leb 0x2000 (length frame)
    then some (p, failed 1)
    else if p.header_length == 0
    then some (p, failed 2)
    else (frame_header_at p.buffer p.header_length type_of frame_header >>= λ (buffer, offset).
        (if offset == 0 then some (record p { buffer = buffer }, failed 3) else (do
          buffer' ← store buffer (p.header_length + offset) frame
          some (
            record p { buffer = buffer'; length_of = p.header_length + length frame + offset },
            done,
          ))))

unfoldable pub voicepacket_getlength : VoicePacket → ℕ
voicepacket_getlength p = p.length_of
