-- ===== src/WebSocket.antt =====
-- src/transport/websocket_transport.hpp and .cpp: the opcodes and results that the codec shares.
pub mod Utf8
pub mod CloseCode
pub mod Frame
pub mod Decoder
pub mod Base64
pub mod Sha1
pub mod Handshake
use iocp_engine.Base.{ℕ, ◌%◌, Bool, true, false, List, ◌==◌, if◌then◌else◌}

-- The enum has a fixed underlying type, so a cast can give any number: `unknown n`.
pub data WsOpcode : Type 0 where
  continuation text binary close ping pong : WsOpcode
  unknown : ℕ → WsOpcode

pub opcode_value : WsOpcode → ℕ
opcode_value continuation = 0x0
opcode_value text = 0x1
opcode_value binary = 0x2
opcode_value close = 0x8
opcode_value ping = 0x9
opcode_value pong = 0xA
opcode_value (unknown n) = n

-- `static_cast<WsOpcode>(n)`
pub opcode_of : ℕ → WsOpcode
opcode_of n =
    if n == 0x0
    then continuation
    else if n == 0x1
    then text
    else if n == 0x2
    then binary
    else if n == 0x8
    then close
    else if n == 0x9
    then ping
    else if n == 0xA
    then pong
    else unknown n

pub is_control_opcode : WsOpcode → Bool
is_control_opcode close = true
is_control_opcode ping = true
is_control_opcode pong = true
is_control_opcode _ = false

pub is_known_opcode : WsOpcode → Bool
is_known_opcode (unknown n) = false
is_known_opcode _ = true

pub data WsParseStatus : Type 0 where
  need_more_data event_ready protocol_error message_too_large buffer_limit_exceeded : WsParseStatus

pub data WsEventType : Type 0 where
  binary_message ping pong close : WsEventType

pub record WsEvent : Type 0 where
  pub type : WsEventType
  pub payload : List ℕ
  pub close_code : ℕ
