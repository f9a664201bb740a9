-- ===== src/Client/Send.antt =====
-- mumble/packet.c, `packet_sendex`: a message on its way to the server. The packed message is an
-- argument, `body`: what protobuf-c packs, or for a voice packet the bytes themselves; its size is the
-- packed size. `malloc` is a flag, and `SSL_write` gives the number of bytes that it wrote.
pub mod Framing
use lua_mumble.Base.{
  ℕ, ◌+◌, ◌*◌, ◌/◌, ◌%◌, ◌^◌, List, [], ◌∷◌, ◌++◌, Option, none, some, Bool, true, false,
  if◌then◌else◌, ◌==◌, ltb, ℤ, pos, negsuc, length,
}

-- The types that the switch knows: those that a client may send.
unfoldable pub has_packed_size : ℕ → Bool
has_packed_size t =
    if t == 4
    then false
    else if t == 5
    then false
    else if t == 12
    then false
    else if t == 16
    then false
    else if t == 24
    then false
    else if t == 25
    then false
    else ltb t 27

-- `htons` and `htonl`, as bytes.
unfoldable pub htons : ℕ → List ℕ
htons n = n / 256 % 256 ∷ n % 256 ∷ []

unfoldable pub htonl : ℕ → List ℕ
htonl n = n / 2 ^ 24 % 256 ∷ n / 2 ^ 16 % 256 ∷ n / 256 % 256 ∷ n % 256 ∷ []

unfoldable pub packet_out : ℕ → List ℕ → List ℕ
unfolding htons htonl
packet_out type_of body = htons type_of ++ htonl (length body) ++ body

-- The result, and the bytes given to `SSL_write` where there are any.
unfoldable pub packet_sendex : (List ℕ → Option ℕ) → ℕ → List ℕ → Bool → ℤ × Option (List ℕ)
unfolding has_packed_size packet_out
packet_sendex ssl_write type_of body allocated =
    if has_packed_size type_of
    then (if allocated
        then (
          elim (ssl_write (packet_out type_of body)) [
            | none ↦ negsuc 0
            | some written ↦ if written == length (packet_out type_of body) then pos 0 else negsuc 0
          ],
          some (packet_out type_of body),
        )
        else (pos 2, none))
    else (pos 1, none)
