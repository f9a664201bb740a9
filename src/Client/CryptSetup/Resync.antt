-- ===== src/Client/CryptSetup/Resync.antt =====
-- mumble/packet.c: what a message of the server does to the crypt state.
use lua_mumble.Base.{
  ◌-◌, ℕ, ◌+◌, ◌*◌, ◌/◌, ◌%◌, List, [], ◌∷◌, Option, none, some, length, ◌≡◌, refl, ap₂, arith,
  true, bit_and, All, IsByte, ltb, if◌then◌else◌,
}
use lua_mumble.Base.Bits.{bit_and_mask}
use lua_mumble.Crypt.State.{CryptState, is_valid, set_key}
use lua_mumble.Crypt.State.Laws.{IsSized, setters-IsSized}
use lua_mumble.Client.CryptSetup.{Setup, bin_to_strhex, hex_str, packet_crypt_setup, resync}

-- The digits of a character of `bin_to_strhex`.
hex_value : ℕ → ℕ
hex_value c = if ltb c 58 then c - 48 else c - 87

unfoldable pub from_strhex : List ℕ → List ℕ
unfolding hex_value
from_strhex [] = []
from_strhex (h ∷ []) = []
from_strhex (h ∷ l ∷ s) = (hex_value h * 16 + hex_value l) ∷ from_strhex s

-- The string of hexadecimal digits has two for each byte and gives back the bytes.
pub bin_to_strhex_lem :
    (bin : List ℕ)
    → All IsByte bin
    → (from_strhex (bin_to_strhex bin) ≡ bin) × (length (bin_to_strhex bin) ≡ 2 * length bin)
unfolding bin_to_strhex hex_str from_strhex hex_value
bin_to_strhex_lem [] h = (refl, refl)
bin_to_strhex_lem (b ∷ bin) h =
    let (same, twice) = bin_to_strhex_lem bin h.1 in
    let high : bit_and (b / 16) 0x0f ≡ b / 16 = omega (arith, bit_and_mask 4 (b / 16), h.0) in
    let low : bit_and b 0x0f ≡ b % 16 = bit_and_mask 4 b in
    (rw (high, low) (ap₂ ◌∷◌ (ground (arith, h.0)) same), omega (arith, twice))

-- A message of the server keeps the sizes of the arrays, whatever the lengths that it carries.
pub packet_crypt_setup-IsSized :
    (crypt : Setup) (c : CryptState) (n : ℕ) → IsSized c → IsSized (packet_crypt_setup crypt c n).0
unfolding packet_crypt_setup resync
packet_crypt_setup-IsSized crypt c n h = kept crypt.key crypt.client_nonce crypt.server_nonce
  where
    kept : (key client server : Option (List ℕ)) → IsSized (resync c n key client server).0
    kept (some key) (some client) (some server) = (setters-IsSized key client server c h).0
    kept none client (some server) = (setters-IsSized [] [] server c h).3
    kept (some key) none (some server) = (setters-IsSized [] [] server c h).3
    kept none client none = h
    kept (some key) none none = h
    kept (some key) (some client) none = h

-- A key and two nonces of 16 bytes become those of the state, which is then valid, and the handler
-- pings. The client's nonce is the one for sending.
pub packet_crypt_setup_keys :
    (key client server : List ℕ) (c : CryptState) (n : ℕ)
    → length key ≡ 16
    → length client ≡ 16
    → length server ≡ 16
    → let sent : Setup = record {
      key = some key;
      client_nonce = some client;
      server_nonce = some server;
    } in
      let (c', n', reply) = packet_crypt_setup sent c n in
      (reply.pings ≡ true)
      × (c'.raw_key ≡ key)
      × (c'.encrypt_iv ≡ client)
      × (c'.decrypt_iv ≡ server)
      × (n' ≡ n)
unfolding packet_crypt_setup resync is_valid set_key
packet_crypt_setup_keys key client server c n h k l = ground arith
