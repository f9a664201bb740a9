-- ===== src/Client/Voice/Transmit/Heard.antt =====
-- mumble/client.c and mumble/mumble.c: the hooks of a client are told what it transmits.
use lua_mumble.Base.{
  drop-append, length-drop, ℕ, u16, u32, bit_and, ◌+◌, ◌^◌, ◌≤◌, ◌<◌, List, ◌∷◌, ◌++◌, none, some,
  Bool, true, false, ◌==◌, load, length, take, drop, ◌≡◌, refl, sym, ap, ◌∙◌, arith, length-append,
  take-append,
}
use mathlib.Core.List.{append_assoc}
use lua_mumble.Base.Bits.{bit_or_fields, bit_and_mask, bit_and_low, bit_and_high}
use lua_mumble.Buffer.Storage.{load-eq}
use lua_mumble.Buffer.VarInt.Write.{length-set_bytes_le}
use lua_mumble.Varint.{set_bytes, util_get_varint}
use lua_mumble.Varint.RoundTrip.{get-set}
use lua_mumble.VoicePacket.{
  VoicePacket, done, voicepacket_init, voicepacket_setheader, voicepacket_setframe,
  voicepacket_getlength,
}
use lua_mumble.VoicePacket.Frame.{setframe_lem, setheader_shape, first_byte}
use lua_mumble.Client.Session.{MumbleClient}
use lua_mumble.Client.Voice.{
  Opus, Audio, Frame, read_frame, read_payload, speaking_hooks, mumble_handle_speaking_hooks_legacy,
}
use lua_mumble.Client.Voice.Transmit.{
  Transmission, route, frame_header_of, voice_packet, packet_bytes, transmit_legacy,
  client_transmit,
}

-- The frame header of Opus: the length, with bit 13 at the end of the stream.
unfoldable pub header_of : Bool → ℕ → ℕ
header_of true n = n
header_of false n = 8192 + n

frame_header_of-opus :
    (speaking : Bool) (n : ℕ) → n < 0x2000 → frame_header_of 4 speaking n ≡ header_of speaking n
unfolding frame_header_of header_of
frame_header_of-opus true n h = omega arith
frame_header_of-opus false n h = omega (arith, bit_or_fields 13 1 n h)

header_small : (speaking : Bool) (n : ℕ) → n < 0x2000 → header_of speaking n < 2 ^ 16
unfolding header_of
header_small true n h = omega (arith, h)
header_small false n h = omega (arith, h)

header_length :
    (speaking : Bool) (n : ℕ) → n < 0x2000 → bit_and (u16 (header_of speaking n)) 0x1fff ≡ n
unfolding header_of
header_length true n h = omega (arith, bit_and_mask 13 (u16 n))
header_length false n h = omega (arith, bit_and_mask 13 (u16 (8192 + n)))

header_speaking :
    (speaking : Bool) (n : ℕ)
    → n < 0x2000
    → (bit_and (u16 (header_of speaking n)) 0x2000 == 0) ≡ speaking
unfolding header_of
header_speaking true n h =
    ap (λ (t : ℕ). t == 0)
      (ap (λ (t : ℕ). bit_and t 0x2000) (let e : u16 n ≡ n = omega (arith, h) in e)
        ∙ bit_and_low 13 n h)
header_speaking false n h =
    ap (λ (t : ℕ). t == 0)
      (ap (λ (t : ℕ). bit_and t 0x2000)
          (let e : u16 (8192 + n) ≡ 2 ^ 13 + n = omega (arith, h) in e)
        ∙ bit_and_high 13 n h)

-- What `mumble_handle_speaking_hooks_legacy` reads of two numbers and a payload.
read_frame_lem :
    (target sequence n : ℕ) (speaking : Bool) (output rest : List ℕ)
    → sequence < 2 ^ 32
    → length output ≡ n
    → n < 0x2000
    → read_frame
        ((set_bytes sequence ++ set_bytes (header_of speaking n)) ++ (output ++ rest))
        4
        target
      ≡ some (record {
        codec = 4;
        target = target;
        sequence = sequence;
        speaking = speaking;
        payload = output;
        context = none;
        opus_data = output ++ rest;
      })
unfolding read_frame read_payload
read_frame_lem target sequence n speaking output rest small size short =
    let first = set_bytes sequence in
    let second = set_bytes (header_of speaking n) in
    let buffer = (first ++ second) ++ (output ++ rest) in
    let split : buffer ≡ first ++ (second ++ (output ++ rest)) =
      append_assoc first second (output ++ rest) in
    let got : util_get_varint buffer 0 ≡ some (sequence, length first) =
      ap (λ b. util_get_varint b 0) split
      ∙ get-set sequence 0 _ (omega (arith, small))
      ∙ ap (λ (k : ℕ). some (sequence, k))
          (let e : 0 + length first ≡ length first = omega arith in e) in
    let behind : drop (length first) buffer ≡ second ++ (output ++ rest) =
      ap (drop (length first)) split ∙ drop-append (length first) first _ refl in
    let header : header_of speaking n < 2 ^ 16 = header_small speaking n short in
    let got_header : util_get_varint (drop (length first) buffer) (length first)
        ≡ some (header_of speaking n, length first + length second) =
      ap (λ b. util_get_varint b (length first)) behind
      ∙ get-set (header_of speaking n) (length first) _ (omega (arith, header)) in
    let payload : drop (length first + length second) buffer ≡ output ++ rest =
      drop-append (length first + length second) (first ++ second) (output ++ rest)
        (length-append first second) in
    let loaded : load buffer (length first + length second) n ≡ some output =
      load-eq buffer (length first + length second) n (
        omega (
          arith,
          size,
          length-append (first ++ second) (output ++ rest),
          length-append first second,
          length-append output rest,
        ))
      ∙ ap (λ l. some (take n l)) payload
      ∙ ap some (take-append n output rest size) in
    rw (got, got_header)
      (rw (header_length speaking n short, header_speaking speaking n short)
        (rw (loaded, payload) refl))

-- The packet that is put together: its bytes, and what the hooks read behind the first byte.
packet_lem :
    (buffer output : List ℕ) (target sequence : ℕ) (speaking : Bool)
    → 19 + length output ≤ length buffer
    → 0 < length output
    → length output < 0x2000
    → (packet : VoicePacket) × (rest : List ℕ) × (voice_packet buffer 4 target sequence
          (frame_header_of 4 speaking (length output))
          output
        ≡ some packet)
      × (drop 1 packet.buffer
          ≡ (set_bytes sequence ++ set_bytes (header_of speaking (length output)))
            ++ (output ++ rest))
      × (packet_bytes packet
          ≡ first_byte 4 target
            ∷ ((set_bytes sequence ++ set_bytes (header_of speaking (length output))) ++ output))
unfolding voice_packet packet_bytes voicepacket_getlength
packet_lem buffer output target sequence speaking room some_output short =
    let n = length output in
    let first = set_bytes sequence in
    let second = set_bytes (header_of speaking n) in
    let mem = drop (length first) (drop 1 buffer) in
    let before = first_byte 4 target ∷ first in
    let rest = drop n (drop (length second) mem) in
    let headed : VoicePacket = record {
      buffer = before ++ mem;
      length_of = 1 + length first;
      header_length = 1 + length first;
    } in
    let framed : VoicePacket = record {
      buffer = (before ++ second) ++ (output ++ rest);
      length_of = 1 + length first + n + length second;
      header_length = 1 + length first;
    } in
    let one : voicepacket_setheader (voicepacket_init buffer) 4 target sequence
        ≡ some (headed, done) =
      setheader_shape buffer 4 target sequence (omega (arith, room)) in
    let two : voicepacket_setframe headed 4 (frame_header_of 4 speaking n) output
        ≡ some (framed, done) =
      ap (λ (w : ℕ). voicepacket_setframe headed 4 w output) (frame_header_of-opus speaking n short)
      ∙ setframe_lem headed before mem output (header_of speaking n) refl (omega arith)
          (omega arith) some_output short (header_small speaking n short)
          (omega (
            arith,
            room,
            length-drop (length first) (drop 1 buffer),
            length-drop 1 buffer,
            length-set_bytes_le sequence,
            length-set_bytes_le (header_of speaking n),
          )) in
    (
      framed,
      rest,
      rw (one, two) refl,
      refl,
      ap (take framed.length_of) (sym (append_assoc (before ++ second) output rest))
          ∙ take-append framed.length_of ((before ++ second) ++ output) rest
              (omega (arith, length-append (before ++ second) output, length-append before second)),
    )

-- What a legacy client transmits with Opus: the bytes of the packet go the way that is in use, the sequence
-- counts one up, and the hooks are told of the same codec, target, sequence and payload, and of the end of
-- the stream where it is one.
pub client_transmit_lem :
    (opus : Opus) (new_ref : ℕ → ℕ) (pack : Audio → List ℕ) (buffer output : List ℕ)
    (speaking : Bool) (t : Transmission) (client : MumbleClient)
    → client.legacy ≡ true
    → 19 + length output ≤ length buffer
    → 0 < length output
    → length output < 0x2000
    → t.audio_sequence < 2 ^ 32
    → (rest : List ℕ) × (let frame : Frame = record {
      codec = 4;
      target = t.audio_target;
      sequence = t.audio_sequence;
      speaking = speaking;
      payload = output;
      context = none;
      opus_data = output ++ rest;
    } in
        client_transmit opus new_ref pack buffer 4 output speaking t client
        ≡ some (
          record t { audio_sequence = u32 (t.audio_sequence + 1) },
          route t.tcp_udp_tunnel (
              first_byte 4 t.audio_target
              ∷ ((set_bytes t.audio_sequence ++ set_bytes (header_of speaking (length output)))
                  ++ output)),
          (speaking_hooks opus new_ref frame client.session client).0,
          (speaking_hooks opus new_ref frame client.session client).1,
        ))
unfolding client_transmit transmit_legacy mumble_handle_speaking_hooks_legacy
client_transmit_lem opus new_ref pack buffer output speaking t client legacy room some_output short
      small =
    let (packet, rest, made, behind, bytes) =
      packet_lem buffer output t.audio_target t.audio_sequence speaking room some_output short in
    let read =
      ap (λ b. read_frame b 4 t.audio_target) behind
      ∙ read_frame_lem t.audio_target t.audio_sequence (length output) speaking output rest small
          refl short in
    (rest, rw (legacy, made, read, bytes) refl)
