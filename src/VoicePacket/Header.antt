-- ===== src/VoicePacket/Header.antt =====
-- mumble/audio.c: what a receiver finds in the header of a voice packet.
use lua_mumble.Base.{
  ℕ, ◌+◌, ◌*◌, ◌^◌, ◌≤◌, ◌<◌, List, [], ◌∷◌, some, length, drop, u8, ◌≡◌, refl, ap, ◌∙◌, arith,
  bit_and, bit_or, ◌<<◌, get_elem?,
}
use lua_mumble.Base.Bits.{bit_and_mask, bit_or_fields}
use lua_mumble.Buffer.Storage.{stored, store-eq, length-stored}
use lua_mumble.Varint.{set_bytes, util_set_varint, util_get_varint}
use lua_mumble.Varint.RoundTrip.{get-set}
use lua_mumble.Buffer.VarInt.Write.{length-set_bytes_le}
use lua_mumble.VoicePacket.{VoicePacket, done, voicepacket_init, voicepacket_setheader}

-- The first byte of a header.
first_byte : ℕ → ℕ → ℕ
first_byte type_of target = u8 (bit_or (bit_and type_of 0x7 << 5) (bit_and target 0x1f))

first_byte-eq :
    (type_of target : ℕ)
    → type_of < 8
    → target < 32
    → first_byte type_of target ≡ type_of * 32 + target
unfolding first_byte
first_byte-eq type_of target h k =
    let kind : bit_and type_of 0x7 ≡ type_of = bit_and_mask 3 type_of ∙ omega arith in
    let low : bit_and target 0x1f ≡ target = bit_and_mask 5 target ∙ omega arith in
    rw (kind, low, bit_or_fields 5 type_of target (omega arith)) (omega arith)

-- A header that is set on a fresh packet with room for it: the first byte holds the kind and the
-- target, the number behind it is the sequence, and the length of the header is what is read.
pub setheader_lem :
    (buffer : List ℕ) (type_of target sequence : ℕ)
    → 10 ≤ length buffer
    → type_of < 8
    → target < 32
    → sequence < 2 ^ 32
    → (p : VoicePacket) × (voicepacket_setheader (voicepacket_init buffer) type_of target sequence
        ≡ some (p, done))
      × (get_elem? p.buffer 0 ≡ some (type_of * 32 + target))
      × (util_get_varint (drop 1 p.buffer) 1 ≡ some (sequence, p.header_length))
      × (p.length_of ≡ p.header_length)
unfolding voicepacket_setheader voicepacket_init first_byte util_set_varint stored
setheader_lem buffer type_of target sequence h k l m =
    let bytes = set_bytes sequence in
    let head = first_byte type_of target in
    let first = stored buffer 0 (head ∷ []) in
    let whole = stored first 1 bytes in
    let size : length first ≡ length buffer = length-stored buffer 0 (head ∷ []) (omega arith) in
    (
      record { buffer = whole; length_of = 1 + length bytes; header_length = 1 + length bytes },
      rw (store-eq buffer 0 (head ∷ []) (omega arith))
          (rw (store-eq first 1 bytes (omega (arith, size, length-set_bytes_le sequence))) refl),
      ap some (first_byte-eq type_of target k l),
      get-set sequence 1 _ (omega arith),
      refl,
    )
