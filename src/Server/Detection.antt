-- ===== src/Server/Detection.antt =====
-- `HandleRead`, `ProcessIncoming` and `ProcessDetection`: a completed read, and what the first bytes of a
-- session say of its transport.
mod Tests
use iocp_engine.Base.{
  ℕ, ◌+◌, ◌-◌, min, Bool, true, false, not, ◌&&◌, ◌||◌, Option, none, some, List, [], ◌∷◌, ◌++◌,
  ltb, leb, ◌==◌, if◌then◌else◌, length, take, drop,
}
use iocp_engine.Base.Text.{ascii}
use iocp_engine.Base.Keyed.{same_list, number_key}
use iocp_engine.WebSocket.Handshake.{HandshakeStatus, HandshakeResult, parse_handshake}
use iocp_engine.Server.{
  SessionState, opened, TransportKind, detecting, raw_tcp, web_socket, ServerConfig, State,
}
use iocp_engine.Server.Outgoing.{Answers, disconnect}
use iocp_engine.Server.Control.{send_raw}
use iocp_engine.Server.Incoming.{
  MessageHandler, update_inbound_accounting, process_raw, process_websocket,
}

abbrev pub get_prefix : List ℕ
get_prefix = b'G' ∷ b'E' ∷ b'T' ∷ b' ' ∷ []

unfoldable pub is_possible_http : List ℕ → Bool
is_possible_http buffer =
    let compare_length : ℕ = min (length buffer) (length get_prefix) in
    same_list (take compare_length buffer) (take compare_length get_prefix)

abbrev pub with_detection_buffer : State → List ℕ → State
with_detection_buffer s buffer = record s {
  session = record s.session { detection_buffer = buffer };
}

-- The transport is known, and the bytes leave the buffer of the detection.
unfoldable pub settle_transport : ServerConfig → State → TransportKind → State
settle_transport c s transport =
    update_inbound_accounting c
      (record s {
        session = record s.session { transport = transport; state = opened; detection_buffer = [] };
      })
      0

unfoldable pub answer_handshake :
    ServerConfig
    → Answers
    → ℕ
    → MessageHandler
    → State
    → HandshakeStatus
    → HandshakeResult
    → Option State
answer_handshake c a now h s HandshakeStatus.need_more_data result = some s
answer_handshake c a now h s HandshakeStatus.rejected result =
    some (send_raw c a s result.response true)
answer_handshake c a now h s HandshakeStatus.accepted result =
    let t : State = send_raw c a s result.response false in
    let u : State = settle_transport c t web_socket in
    let remaining : List ℕ =
      if ltb result.consumed (length t.session.detection_buffer)
      then drop result.consumed t.session.detection_buffer
      else [] in
    if length remaining == 0 then some u else process_websocket c a now h u remaining

unfoldable pub after_parse :
    ServerConfig → Answers → ℕ → MessageHandler → State → Option HandshakeResult → Option State
after_parse c a now h s none = none
after_parse c a now h s (some result) = answer_handshake c a now h s result.status result

-- What follows the accounting of the bytes.
unfoldable pub detect : ServerConfig → Answers → ℕ → MessageHandler → State → Option State
detect c a now h s =
    let buffer : List ℕ = s.session.detection_buffer in
    if not (is_possible_http buffer)
    then process_raw c a now h (settle_transport c s raw_tcp) buffer
    else if ltb (length buffer) (length get_prefix)
    then some s
    else after_parse c a now h s (parse_handshake buffer c.max_handshake_bytes c.origin_validator)

unfoldable pub process_detection :
    ServerConfig → Answers → ℕ → MessageHandler → State → List ℕ → Option State
process_detection c a now h s bytes =
    let buffer : List ℕ = s.session.detection_buffer in
    if ltb c.max_session_inbound_bytes (length buffer)
      || ltb (c.max_session_inbound_bytes - length buffer) (length bytes)
    then some (disconnect s)
    else detect c a now h (
        update_inbound_accounting c (with_detection_buffer s (buffer ++ bytes))
          (length (buffer ++ bytes)))

unfoldable pub process_on :
    ServerConfig → Answers → ℕ → MessageHandler → State → List ℕ → TransportKind → Option State
process_on c a now h s bytes detecting = process_detection c a now h s bytes
process_on c a now h s bytes raw_tcp = process_raw c a now h s bytes
process_on c a now h s bytes web_socket = process_websocket c a now h s bytes

unfoldable pub process_incoming :
    ServerConfig → Answers → ℕ → MessageHandler → State → List ℕ → Option State
process_incoming c a now h s bytes = process_on c a now h s bytes s.session.transport

-- `goes_on`: the server runs and the next read is posted.
unfoldable pub after_read : Bool → Option State → Option State
after_read goes_on none = none
after_read goes_on (some s) =
    if not s.session.disconnect_started && goes_on then some s else some (disconnect s)

unfoldable pub handle_read :
    ServerConfig → Answers → ℕ → MessageHandler → State → Bool → List ℕ → Bool → Option State
handle_read c a now h s succeeded bytes goes_on =
    if not succeeded || length bytes == 0 || s.session.disconnect_started
    then some (disconnect s)
    else after_read goes_on (
        process_incoming c a now h
          (record s { session = record s.session { last_activity_ms = now } }) bytes)
