-- ===== src/Tests.antt =====
-- Concrete runs: an allocator, a block cipher and libuv handles by hand, and inputs on which the
-- theorems' conditions hold.
mod Memory
mod Buffers
mod Clients
mod Queues
mod Threads
mod Pipes
mod Voices
mod Sessions
mod Methods
mod Timers
mod Ciphers
mod Rings
