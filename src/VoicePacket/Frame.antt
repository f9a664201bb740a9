-- ===== src/VoicePacket/Frame.antt =====
-- mumble/audio.c: an Opus frame behind a header.
use lua_mumble.Base.{
  length-drop, ℕ, u8, u16, bit_and, bit_or, ◌<<◌, ◌+◌, ◌^◌, ◌≤◌, ◌<◌, List, [], ◌∷◌, ◌++◌, some,
  false, ◌||◌, ◌==◌, leb, store, length, drop, ◌≡◌, refl, sym, ap, ◌∙◌, arith, length-append,
}
use mathlib.Core.List.{append_assoc}
use lua_mumble.Buffer.Storage.{store-append}
use lua_mumble.Varint.{set_bytes, util_set_varint}
use lua_mumble.Buffer.VarInt.Write.{length-set_bytes_le}
use lua_mumble.VoicePacket.{
  voicepacket_init, voicepacket_setheader, VoicePacket, done, voicepacket_setframe, frame_header_at,
}

length-set_bytes_pos : (v : ℕ) → 0 < length (set_bytes v)
unfolding set_bytes
length-set_bytes_pos v = ground arith

-- A frame goes behind the header and the frame header, and what is behind it stays.
pub setframe_lem :
    (p : VoicePacket) (before mem frame : List ℕ) (frame_header : ℕ)
    → p.buffer ≡ before ++ mem
    → p.header_length ≡ length before
    → 0 < length before
    → 0 < length frame
    → length frame < 0x2000
    → frame_header < 2 ^ 16
    → length (set_bytes frame_header) + length frame ≤ length mem
    → let word = set_bytes frame_header in
      voicepacket_setframe p 4 frame_header frame
      ≡ some (
        record p {
          buffer = (before ++ word) ++ (frame ++ drop (length frame) (drop (length word) mem));
          length_of = p.header_length + length frame + length word;
        },
        done,
      )
unfolding voicepacket_setframe frame_header_at util_set_varint
setframe_lem p before mem frame frame_header shape at some_header some_frame short small fits =
    let word = set_bytes frame_header in
    let same : u16 frame_header ≡ frame_header = omega (arith, small) in
    let first : store p.buffer p.header_length (set_bytes (u16 frame_header))
        ≡ some ((before ++ word) ++ drop (length word) mem) =
      ap (λ b. store b p.header_length (set_bytes (u16 frame_header))) shape
      ∙ ap (λ (n : ℕ). store (before ++ mem) n (set_bytes (u16 frame_header))) at
      ∙ ap (λ (v : ℕ). store (before ++ mem) (length before) (set_bytes v)) same
      ∙ store-append before mem word (omega (arith, fits))
      ∙ ap some (sym (append_assoc before word (drop (length word) mem))) in
    let second : store ((before ++ word) ++ drop (length word) mem) (p.header_length + length word)
          frame
        ≡ some ((before ++ word) ++ (frame ++ drop (length frame) (drop (length word) mem))) =
      ap (λ (n : ℕ). store ((before ++ word) ++ drop (length word) mem) n frame)
        (let e : p.header_length + length word ≡ length (before ++ word) =
            omega (arith, at, length-append before word) in
          e)
      ∙ store-append (before ++ word) (drop (length word) mem) frame
          (omega (arith, fits, length-drop (length word) mem)) in
    let valid : (length frame == 0 || leb 0x2000 (length frame)) ≡ false =
      ground (arith, some_frame, short) in
    let headed : (p.header_length == 0) ≡ false = ground (arith, at, some_header) in
    let counted : (length (set_bytes (u16 frame_header)) == 0) ≡ false =
      ground (arith, length-set_bytes_pos (u16 frame_header)) in
    rw (valid, headed, first, counted) (rw same (rw second refl))

-- The first byte of a header.
abbrev pub first_byte : ℕ → ℕ → ℕ
first_byte type_of target = u8 (bit_or (bit_and type_of 0x7 << 5) (bit_and target 0x1f))

-- A header at the beginning of a buffer with room for it.
pub setheader_shape :
    (buffer : List ℕ) (type_of target sequence : ℕ)
    → 10 ≤ length buffer
    → let bytes = set_bytes sequence in
      voicepacket_setheader (voicepacket_init buffer) type_of target sequence
      ≡ some (
        record {
          buffer = (first_byte type_of target ∷ bytes) ++ drop (length bytes) (drop 1 buffer);
          length_of = 1 + length bytes;
          header_length = 1 + length bytes;
        },
        done,
      )
unfolding voicepacket_setheader voicepacket_init util_set_varint
setheader_shape buffer type_of target sequence room =
    let head = first_byte type_of target in
    let first : store buffer 0 (head ∷ []) ≡ some ((head ∷ []) ++ drop 1 buffer) =
      store-append [] buffer (head ∷ []) (omega (arith, room)) in
    let second : store ((head ∷ []) ++ drop 1 buffer) 1 (set_bytes sequence)
        ≡ some (
            (head ∷ [])
            ++ (set_bytes sequence ++ drop (length (set_bytes sequence)) (drop 1 buffer))) =
      store-append (head ∷ []) (drop 1 buffer) (set_bytes sequence)
        (omega (arith, room, length-drop 1 buffer, length-set_bytes_le sequence)) in
    rw (first, second) refl
