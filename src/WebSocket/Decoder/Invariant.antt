-- ===== src/WebSocket/Decoder/Invariant.antt =====
-- What the decoder keeps, and what it promises of the events that it hands out.
use iocp_engine.Base.{
  ℕ, ◌+◌, ◌-◌, ◌*◌, ◌^◌, ◌≤◌, ◌<◌, ◌≡◌, ◌⊎◌, true, false, List, [], length, drop, get_or, All,
  IsByte,
}
use iocp_engine.WebSocket.{
  WsOpcode, is_control_opcode, WsParseStatus, event_ready, WsEventType, WsEvent,
}
use iocp_engine.WebSocket.CloseCode.{is_valid_close_code}
use iocp_engine.WebSocket.Utf8.{is_valid_utf8}
use iocp_engine.WebSocket.Decoder.{WebSocketDecoder, Round, finished, again}

-- The bytes that are not yet decoded.
abbrev pub pending : WebSocketDecoder → List ℕ
pending d = drop d.cursor d.buffer

pub record IsValid (d : WebSocketDecoder) : Type 0 where
  pub limits : d.max_buffered_bytes ≤ 2 ^ 61
  pub message_limit : d.max_message_bytes ≤ 2 ^ 61
  pub cursor_in : d.cursor ≤ length d.buffer
  pub pending_in : length d.buffer - d.cursor ≤ d.max_buffered_bytes
  pub memory : length d.buffer ≤ 4096 + 2 * d.max_buffered_bytes
  pub fragments_in : length d.fragmented_payload ≤ d.max_message_bytes
  pub bytes : All IsByte d.buffer
  pub fragment_bytes : All IsByte d.fragmented_payload

-- `e` is valid and has the configuration of `d`.
pub record Stays (d e : WebSocketDecoder) : Type 0 where
  pub valid : IsValid e
  pub same_message_limit : e.max_message_bytes ≡ d.max_message_bytes
  pub same_buffer_limit : e.max_buffered_bytes ≡ d.max_buffered_bytes
  pub same_masking : e.require_masking ≡ d.require_masking
  pub same_flag : e.limit_exceeded ≡ d.limit_exceeded

-- A close payload is empty, or a valid code and a reason in UTF-8.
abbrev pub CloseFits : List ℕ → ℕ → Type 0
CloseFits payload code =
    (payload ≡ []) × (code ≡ 1000)
    ⊎ (2 ≤ length payload)
      × (code ≡ get_or payload 0 0 * 256 + get_or payload 1 0)
      × (is_valid_close_code code ≡ true)
      × (is_valid_utf8 (drop 2 payload) ≡ true)

abbrev pub EventFits : ℕ → WsEventType → List ℕ → ℕ → Type 0
EventFits max WsEventType.binary_message payload code = length payload ≤ max
EventFits max WsEventType.ping payload code = length payload ≤ 125
EventFits max WsEventType.pong payload code = length payload ≤ 125
EventFits max WsEventType.close payload code = (length payload ≤ 125) × CloseFits payload code

abbrev pub StatusFits : ℕ → WsParseStatus → WsEvent → Type 0
StatusFits max event_ready e = EventFits max e.type e.payload e.close_code × All IsByte e.payload
StatusFits max _ e = Unit

-- After one frame: a valid decoder, with an event that fits, or behind the header of a fragment.
abbrev pub RoundFits : WebSocketDecoder → Round → Type 0
RoundFits d (finished out) =
    Stays d out.decoder × StatusFits d.max_message_bytes out.status out.event
RoundFits d (again e) = Stays d e × (d.cursor < e.cursor) × (e.buffer ≡ d.buffer)

-- What is known when a frame's payload is handled: `e` is `d` with the cursor behind the frame.
pub record Arrived (d e : WebSocketDecoder) (opcode : WsOpcode) (payload : List ℕ) : Type 0 where
  pub stays : Stays d e
  pub behind : d.cursor < e.cursor
  pub same_buffer : e.buffer ≡ d.buffer
  pub fits : length payload ≤ d.max_message_bytes
  pub control : (is_control_opcode opcode ≡ false) ⊎ (length payload ≤ 125)
  pub payload_bytes : All IsByte payload
