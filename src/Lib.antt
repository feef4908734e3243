-- ===== src/Lib.antt =====
-- IOCP Engine: a server for Windows that speaks a binary protocol over raw TCP and over WebSocket, and
-- passes messages between the members of rooms.
--
-- A completed read hands its bytes to one of two decoders of the session. A decoder buffers them up to
-- a limit and hands out whole messages, which go to the message handler, under a limit on their rate.
-- The handler answers through `Send` and `Close`, which put items into the session's queue. Each
-- session writes one item at a time; the completion of a write starts the next. A limit that is passed,
-- a protocol error, a timeout or a failed call of the system ends in `Disconnect`.
--
-- The files, and the code that they are about (paths from the repository's root):
--   Base, Base/*: lists over the native numbers, bits, and 64-bit sizes with their wrap-around.
--   Framing, Framing/*: src/protocol/framing.hpp, `LengthPrefixedAccumulator`. Framing/Stream is the
--     specification, on streams of bytes; Framing/Drain the loop of the server around the accumulator.
--   SendCursor, SendCursor/*: src/core/send_cursor.hpp, the progress of a gathered write.
--   Outbound, Outbound/*: src/core/outbound_queue.hpp, `OutboundQueue` and `GlobalQueueBudget`.
--   WebSocket, WebSocket/*: the codec of src/transport/websocket_transport.cpp: frames
--     (WebSocket/Frame), the decoder (WebSocket/Decoder), UTF-8 (WebSocket/Utf8) and the codes of a
--     close frame (WebSocket/CloseCode). WebSocket/Decoder/Wire describes RFC 6455 frames.
--   WebSocket/Handshake, WebSocket/Base64, WebSocket/Sha1: `ParseHandshake`, `ComputeAcceptKey` and what
--     they use. WebSocket/Handshake/Lines describes requests as clients write them.
--   Server: src/core/iocp_server.hpp and the structs of src/core/iocp_server.cpp.
--   Server/Outgoing: `Enqueue`, `StartNextWrite`, `HandleWrite`, `FinishWrite`, `Disconnect`.
--     Server/Outgoing/Sections has their parts under `send_mutex`, and Server/Outgoing/Concurrent a
--     step relation of these parts, for any number of threads.
--   Server/Control: `Send`, `Close`, `SendControl`, `SendRaw`.
--   Server/Detection: `HandleRead`, `ProcessIncoming`, `ProcessDetection`.
--   Server/Incoming: `ProcessRaw`, `ProcessWebSocket`, `DeliverMessage`, `UpdateInboundAccounting`.
--   Server/Timer: one tick of `TimerLoop` for one session.
--   Server/Lifecycle, Server/Lifecycle/*: the life cycle of a session, and runs of events (Runs).
--   SessionHandle: src/core/session_handle.hpp.
--   Sessions, Sessions/*: `ShardedSessionRegistry` of src/core/iocp_server.cpp, for any type of session;
--     Sessions/Refine has the one map that it implements.
--   Rooms, Rooms/*: src/pubsub/room_registry.hpp. Rooms/Subscriptions is the specification, sets of pairs
--     of a session and a room.
--   Router, Router/*: src/application/protocol_router.cpp, `ProtocolRouter`: its messages
--     (Router/Schema, after schema/protocol.fbs), the checks (Router/Validation), what it
--     builds (Router/Replies) and `Handle` (Router).
--
-- State. A member function returns the new object. The functions of the server take one session with
-- the counters of the server (`Server.State`). What the operating system answers, the clock, and the
-- message handler are arguments; the handler is a function from the state and the message to its calls
-- on its own session and its answer, and it is any function. The router is that handler in the
-- program; its model has its own state, and a list of the calls of `Send` as its output. FlatBuffers is
-- not in the repository: what verifies the bytes and reads the tables is an argument, from the bytes to a
-- message or nothing, and a message that the router builds is kept as a message. An unordered map or
-- set is a list whose order stands for nothing.
--
-- Numbers. `std::size_t` and `std::uint64_t` have 64 bits and wrap around in the definitions, the
-- 32-bit fields likewise. The theorems on the decoders assume limits up to 2^61, so that `cursor * 2`
-- does not wrap around; those on the send path assume limits below 2^63. The clock does not run
-- backwards past zero, and the configured durations are not negative. One reading of the clock serves
-- a whole completed read.
--
-- Fuel. The loops on fuel are `Utf8.valid_on`, the rounds of the WebSocket decoder, the loops of
-- `ProcessRaw` and `ProcessWebSocket`, and those over header lines, tokens and padding. A round of the
-- decoders takes at least one byte off the buffer, one of the header lines moves on by two bytes, and
-- one of the tokens by one, so one more round than there are bytes is enough; the padding has at most
-- 64 rounds.
--
-- Threads. In Server/Outgoing/Concurrent a step is what runs under `send_mutex` together with the
-- change of the global counter that follows it. A failed allocation in `StartNextWrite` is in
-- `Server.Outgoing.launch` only. The other files run one call after another.
--
-- Not modelled: the object pool, accepting, starting and stopping with the count of the operations, the
-- program's entry, and the calls of the operating system. The hash of a handle only places an
-- entry in a container.
pub mod Base
pub mod Framing
pub mod SendCursor
pub mod Outbound
pub mod WebSocket
pub mod Server
pub mod SessionHandle
pub mod Sessions
pub mod Rooms
pub mod Router
