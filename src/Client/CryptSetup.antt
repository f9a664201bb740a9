-- ===== src/Client/CryptSetup.antt =====
-- mumble/packet.c, `packet_crypt_setup`, and mumble/util.c, `bin_to_strhex`.
pub mod Resync
use lua_mumble.Base.{
  ℕ, suc, ◌+◌, ◌%◌, ◌^◌, List, [], ◌∷◌, Option, none, some, if◌then◌else◌, ltb, bit_and, ◌>>◌, u32,
  Bool, true, false, map,
}
use lua_mumble.Crypt.State.{CryptState, set_key, set_decrypt_iv, is_valid}

-- A digit as its character.
hex_str : ℕ → ℕ
hex_str d = if ltb d 10 then 48 + d else 87 + d

pub bin_to_strhex : List ℕ → List ℕ
unfolding hex_str
bin_to_strhex [] = []
bin_to_strhex (b ∷ bin) =
    hex_str (bit_and (b >> 4) 0x0f) ∷ hex_str (bit_and b 0x0f) ∷ bin_to_strhex bin

-- The unpacked message.
pub record Setup : Type 0 where
  pub key : Option (List ℕ)
  pub client_nonce : Option (List ℕ)
  pub server_nonce : Option (List ℕ)

-- What the handler sends (the client's nonce), whether it pings, and the table of its hook.
pub record Reply : Type 0 where
  pub send_nonce : Option (List ℕ)
  pub pings : Bool
  pub valid : Bool
  pub key_hex : Option (List ℕ)
  pub client_nonce_hex : Option (List ℕ)
  pub server_nonce_hex : Option (List ℕ)

to_hex : Option (List ℕ) → Option (List ℕ)
to_hex none = none
to_hex (some bin) = some (bin_to_strhex bin)

-- The new state, the number of resyncs and the nonce that is sent. A key or nonce of the wrong size
-- changes nothing.
resync :
    CryptState
    → ℕ
    → Option (List ℕ)
    → Option (List ℕ)
    → Option (List ℕ)
    → CryptState × ℕ × Option (List ℕ)
resync c n (some key) (some client) (some server) = ((set_key key client server c).0, n, none)
resync c n none client (some server) = ((set_decrypt_iv server c).0, u32 (suc n), none)
resync c n (some key) none (some server) = ((set_decrypt_iv server c).0, u32 (suc n), none)
resync c n none client none = (c, n, some c.encrypt_iv)
resync c n (some key) none none = (c, n, some c.encrypt_iv)
resync c n (some key) (some client) none = (c, n, some c.encrypt_iv)

pub packet_crypt_setup : Setup → CryptState → ℕ → CryptState × ℕ × Reply
unfolding resync to_hex
packet_crypt_setup crypt c n =
    let (c', n', nonce) = resync c n crypt.key crypt.client_nonce crypt.server_nonce in
    (
      c',
      n',
      record {
        send_nonce = nonce;
        pings = is_valid c';
        valid = is_valid c';
        key_hex = to_hex crypt.key;
        client_nonce_hex = to_hex crypt.client_nonce;
        server_nonce_hex = to_hex crypt.server_nonce;
      },
    )
