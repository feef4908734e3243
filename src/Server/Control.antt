-- ===== src/Server/Control.antt =====
-- The calls of the API, `Send` and `Close`, and the control frames that the server sends itself.
-- `now` is what `MonotonicMilliseconds` returns during the call.
use iocp_engine.Base.{
  ℕ, ◌/◌, ◌^◌, bit_and, Bool, true, false, not, ◌&&◌, ◌||◌, Option, none, some, List, [], ◌∷◌, ltb,
  ◌==◌, if◌then◌else◌, length, take,
}
use iocp_engine.Framing.{encode_length}
use iocp_engine.SendCursor.{SharedBuffer}
use iocp_engine.WebSocket.{WsOpcode}
use iocp_engine.WebSocket.Frame.{build_frame_header}
use iocp_engine.Server.{
  SessionState, opened, closing, closed, TransportKind, detecting, raw_tcp, web_socket,
  ServerConfig, OutboundItem, State,
}
use iocp_engine.Server.Outgoing.{Answers, disconnect, enqueue}

abbrev pub is_open : SessionState → Bool
is_open opened = true
is_open _ = false

abbrev pub is_web_socket : TransportKind → Bool
is_web_socket web_socket = true
is_web_socket _ = false

-- The frame of a server: `WebSocketHeader` copies the bytes that `BuildFrameHeader` uses.
unfoldable pub web_socket_header : WsOpcode → ℕ → List ℕ
web_socket_header opcode payload_size =
    let (header, header_size) = build_frame_header opcode payload_size in take header_size header

abbrev pub plain_item : List ℕ → List ℕ → OutboundItem
plain_item header payload = record { header = header; payload = payload; close_after = false }

-- `none` is the `std::length_error` of `EncodeLength`.
unfoldable pub send_framed :
    ServerConfig → Answers → State → List ℕ → Option (List ℕ) → Option (Bool × State)
send_framed c a s payload none = none
send_framed c a s payload (some header) = some (enqueue c a s (plain_item header payload))

unfoldable pub send_on :
    ServerConfig → Answers → State → List ℕ → TransportKind → Option (Bool × State)
send_on c a s payload detecting = some (false, s)
send_on c a s payload raw_tcp = send_framed c a s payload (encode_length (length payload))
send_on c a s payload web_socket =
    some (enqueue c a s (plain_item (web_socket_header WsOpcode.binary (length payload)) payload))

unfoldable pub send : ServerConfig → Answers → State → SharedBuffer → Option (Bool × State)
send c a s none = some (false, s)
send c a s (some payload) =
    if not s.registered
      || length payload == 0
      || ltb c.max_message_bytes (length payload)
      || not (is_open s.session.state)
    then some (false, s)
    else send_on c a s payload s.session.transport

-- An item that is refused disconnects when it was to be the last one.
unfoldable pub enqueue_or_disconnect : ServerConfig → Answers → State → OutboundItem → State
enqueue_or_disconnect c a s item =
    let (taken, after) = enqueue c a s item in
    if not taken && item.close_after then disconnect after else after

abbrev pub is_ending : SessionState → Bool
is_ending closing = true
is_ending closed = true
is_ending _ = false

unfoldable pub send_control : ServerConfig → Answers → ℕ → State → WsOpcode → List ℕ → Bool → State
send_control c a now s opcode payload close_after =
    if close_after && is_ending s.session.state
    then s
    else enqueue_or_disconnect c a
        (if close_after
          then record s { session = record s.session { state = closing; close_started_ms = now } }
          else s)
        (record {
          header = web_socket_header opcode (length payload);
          payload = payload;
          close_after = close_after;
        })

unfoldable pub send_raw : ServerConfig → Answers → State → List ℕ → Bool → State
send_raw c a s response close_after =
    enqueue_or_disconnect c a s
      (record { header = []; payload = response; close_after = close_after })

-- The status code and at most 123 bytes of the reason.
abbrev pub close_payload : ℕ → List ℕ → List ℕ
close_payload code reason =
    bit_and (code / 2 ^ 8) 0xff
    ∷ bit_and code 0xff
    ∷ (if ltb 123 (length reason) then take 123 reason else reason)

unfoldable pub close : ServerConfig → Answers → ℕ → State → ℕ → List ℕ → State
close c a now s code reason =
    if not s.registered
    then s
    else if not (is_web_socket s.session.transport)
    then disconnect s
    else send_control c a now s WsOpcode.close (close_payload code reason) true
