-- ===== src/Server.antt =====
-- src/core/iocp_server.hpp and .cpp: one client session with the server's counters.
-- A function that changes the session or the counters returns the new state. The operating system's
-- answers (whether an allocation or a post succeeds), the clock and the message handler's calls are
-- arguments.
pub mod Outgoing
pub mod Control
pub mod Incoming
pub mod Detection
pub mod Timer
pub mod Lifecycle
mod Tests
use iocp_engine.Base.{ℕ, ◌+◌, Bool, true, false, List, [], length}
use iocp_engine.Framing
use iocp_engine.Framing.{Accumulator}
use iocp_engine.WebSocket.Handshake.{OriginValidator}
use iocp_engine.WebSocket.Decoder
use iocp_engine.WebSocket.Decoder.{WebSocketDecoder}

pub data SessionState : Type 0 where
  connecting handshaking opened closing closed : SessionState

pub data TransportKind : Type 0 where
  detecting raw_tcp web_socket : TransportKind

pub data MessageDisposition : Type 0 where
  accepted malformed close : MessageDisposition

-- Durations are counts of milliseconds.
pub record ServerConfig : Type 0 where
  pub max_message_bytes : ℕ
  pub max_session_inbound_bytes : ℕ
  pub max_global_inbound_bytes : ℕ
  pub max_session_queued_bytes : ℕ
  pub max_global_queued_bytes : ℕ
  pub max_handshake_bytes : ℕ
  pub max_messages_per_second : ℕ
  pub malformed_message_limit : ℕ
  pub handshake_timeout : ℕ
  pub idle_timeout : ℕ
  pub websocket_ping_interval : ℕ
  pub websocket_pong_timeout : ℕ
  pub close_timeout : ℕ
  pub origin_validator : OriginValidator

pub record Metrics : Type 0 where
  pub active_connections : ℕ
  pub received_messages : ℕ
  pub sent_messages : ℕ
  pub malformed_messages : ℕ
  pub send_failures : ℕ
  pub queued_bytes : ℕ
  pub inbound_bytes : ℕ

-- `header` holds the `header_size` bytes of the array that are used.
pub record OutboundItem : Type 0 where
  pub header : List ℕ
  pub payload : List ℕ
  pub close_after : Bool

abbrev pub item_bytes : OutboundItem → ℕ
item_bytes i = length i.header + length i.payload

-- `has_socket` is `socket != INVALID_SOCKET`.
pub record ClientSession : Type 0 where
  pub has_socket : Bool
  pub state : SessionState
  pub transport : TransportKind
  pub disconnect_started : Bool
  pub detection_buffer : List ℕ
  pub raw_decoder : Accumulator
  pub websocket_decoder : WebSocketDecoder
  pub inbound_accounted : ℕ
  pub malformed_messages : ℕ
  pub connected_at_ms : ℕ
  pub last_activity_ms : ℕ
  pub last_pong_ms : ℕ
  pub close_started_ms : ℕ
  pub awaiting_pong : Bool
  pub rate_window_ms : ℕ
  pub rate_window_messages : ℕ
  pub send_queue : List OutboundItem
  pub queued_bytes : ℕ
  pub write_active : Bool

-- The constructor, for a socket that is open, at the time `now`.
unfoldable pub new_session : ServerConfig → ℕ → ClientSession
new_session c now = record {
  has_socket = true;
  state = connecting;
  transport = detecting;
  disconnect_started = false;
  detection_buffer = [];
  raw_decoder = Framing.new c.max_message_bytes c.max_session_inbound_bytes;
  websocket_decoder = Decoder.new c.max_message_bytes c.max_session_inbound_bytes true;
  inbound_accounted = 0;
  malformed_messages = 0;
  connected_at_ms = now;
  last_activity_ms = now;
  last_pong_ms = now;
  close_started_ms = 0;
  awaiting_pong = false;
  rate_window_ms = now;
  rate_window_messages = 0;
  send_queue = [];
  queued_bytes = 0;
  write_active = false;
}

-- `registered`: the session is in the registry. `writing` holds the posted write operations, and
-- `disconnects` counts the calls of the disconnect handler.
pub record State : Type 0 where
  pub session : ClientSession
  pub metrics : Metrics
  pub registered : Bool
  pub writing : List OutboundItem
  pub disconnects : ℕ
