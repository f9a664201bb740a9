-- ===== src/Crypt.antt =====
-- mumble/ocb.c: OCB-AES128 over the packets of the UDP channel.
pub mod Block
pub mod Aes
pub mod Ocb
pub mod Iv
pub mod State
