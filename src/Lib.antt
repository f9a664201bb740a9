-- ===== src/Lib.antt =====
-- lua-mumble, a Mumble client for Lua in C: its voice encryption, its byte buffers and its client.
--
-- The client (mumble/mumble.c, mumble/packet.c) keeps a TCP connection for messages and a UDP link
-- for voice. Voice packets are sealed by the crypt state (mumble/ocb.c), which `packet_crypt_setup`
-- sets up, and are put together and taken apart with the varints of mumble/audio.c. Lua scripts get
-- byte buffers (mumble/buffer.c), timers (mumble/timer.c), pipes (mumble/pipe.c) and threads
-- (mumble/thread.c), which send messages to each other. What happens is told to the functions that a
-- script hooks (`mumble_hook_call`). Users and channels stand in the linked lists of mumble/util.c.
--
-- Which file is about which part:
--   Base          words of C, Boolean tests, lists with native indices, faults, bit operations.
--   Crypt         mumble/ocb.c. Block: XOR, S2 and S3. Ocb: `crypt_ocb_encrypt` and
--                 `crypt_ocb_decrypt`. Iv: the IV and the window of late packets. State:
--                 `mumble_crypt` with `crypt_encrypt`, `crypt_decrypt` and the setters. The AES block
--                 cipher is an argument (Aes), a permutation of blocks with its inverse.
--   Alloc         `malloc` and `realloc`, an argument of the buffer.
--   Buffer        mumble/buffer.c. VarInt: `buffer_writeVarInt` and `buffer_readVarInt`. Lua: the
--                 methods that do more than pass on one call.
--   Varint        `util_set_varint` and `util_get_varint` of mumble/audio.c.
--   VoicePacket   `voicepacket_*` of mumble/audio.c.
--   Ring          `ring_*` of mumble/audio.c.
--   Links         `list_*` of mumble/util.c.
--   Timer         mumble/timer.c, with libuv's timer handle as an argument.
--   Client        mumble/mumble.c and mumble/packet.c. Udp: pings, fallback and dispatch of packets.
--                 Tcp: read events. Users: the users and channels that the client knows. Bandwidth:
--                 `mumble_adjust_audio_bandwidth`. CryptSetup: `packet_crypt_setup`. Events: the Lua
--                 values that hooks are given. Session: the client's state, with its users and
--                 channels as objects, and `mumble_disconnect`. Reports: the handlers of messages
--                 that change nothing. Handlers: those that do, the tunnel of voice (Tunnel), and the
--                 table of handlers (Dispatch).
--                 Send: `packet_sendex`. Methods: mumble/user.c, mumble/channel.c, mumble/target.c,
--                 mumble/banentry.c and the methods of mumble/client.c. Voice: the hooks of voice
--                 packets, and (Transmit) the packets that a client sends. Hooks: `mumble_hook_call`
--                 and the hooks of mumble/client.c, on the stack of Lua.
--   Strndup       `SAFE_STRNDUP` of mumble/packet.c and what reads its copies.
--   Registry      `mumble_registry_unref` of mumble/mumble.c.
--   Threads       mumble/thread.c. Mailbox: one end, its queue and its message handler. Life: from
--                 the start of a worker to its end, with join, send and garbage collection. Bytecode:
--                 the copy of a worker function.
--   Pipe          mumble/pipe.c, with libuv's stream handle and the system calls as arguments.
--   Queue         `queue_*` of mumble/util.c, on a heap. Chain: the nodes of a queue.
--   Tests         concrete runs.
--
-- Numbers are natural numbers, and a word of C wraps where it is written so (`u8`, `u32`, `u64`).
-- Storage is a list of cells; an access out of it is `none`. The loops over a message in Crypt.Ocb
-- have the length of the message as fuel, one round for each block and more than there are blocks.
-- The recursion of `buffer_readVarInt` has the number of unread bytes as fuel, since each call takes
-- one. The loop that lowers the bitrate has the bitrate as fuel, since each round takes 1000 off.
--
-- The loop of a message handler has rounds as fuel: two more than messages were sent are enough where
-- nothing is sent meanwhile. A worker's thread is three steps: the script is loaded, it ends, and its
-- state is closed. What is done under a mutex is one step.
--
-- `queue_free` has the number of rounds as fuel, and as many rounds as there are messages are enough.
-- A handler takes the unpacked message; its result is the new state with the calls of its hooks, or
-- `none` where C's behaviour is not defined. The callbacks of the hooks are Lua code: the handlers do
-- not run them, and in Client.Hooks what they do is an argument.
--
-- Not modelled: generated protobuf code, sockets, TLS, Opus and the mixing of floating-point samples,
-- `setListeningVolumeAdjustment` of a channel, which packs the wrong structure, the recording of
-- voices, logging, the event loop of a worker, and the getters of a client. libuv,
-- `strtok`, the clock and the running averages of pings are arguments.
pub mod Base
pub mod Crypt
pub mod Alloc
pub mod Registry
pub mod Strndup
pub mod Threads
pub mod Pipe
pub mod Buffer
pub mod Timer
pub mod Varint
pub mod Links
pub mod Queue
pub mod Ring
pub mod Client
pub mod VoicePacket
pub mod Tests
