-- ===== src/Threads.antt =====
-- mumble/thread.c: threads with a Lua state of their own, and the messages that they hand over.
pub mod Mailbox
pub mod Life
pub mod Bytecode
