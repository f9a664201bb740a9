-- ===== src/Client.antt =====
-- mumble/mumble.c and mumble/packet.c: the connection of a client.
pub mod Udp
pub mod Tcp
pub mod Users
pub mod Events
pub mod Reports
pub mod Session
pub mod Handlers
pub mod Hooks
pub mod Voice
pub mod Send
pub mod Methods
pub mod Bandwidth
pub mod CryptSetup
