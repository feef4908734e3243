-- ===== src/Server/Incoming.antt =====
-- What a completed read starts: `ProcessRaw`, `ProcessWebSocket` and `DeliverMessage`.
-- The clock gives one answer, `now`, for the whole of it. One call of `launch` at most is made, since
-- `write_active` stays set: so one `Answers` serves.
pub mod Limits
use iocp_engine.Base.Text.{ascii}
use iocp_engine.Base.{
  ℕ, zero, suc, ◌+◌, ◌%◌, ◌^◌, Bool, true, false, not, ◌&&◌, ◌||◌, Option, none, some, List, [],
  ◌∷◌, ltb, leb, if◌then◌else◌, length,
}
use Prim.Native.Char.{code}
use Prim.Native.String.{String, [] as []ₛ, ◌∷◌ as ◌∷ₛ◌}
use iocp_engine.Base.Size.{add_size}
use iocp_engine.Framing.{FrameDecodeStatus, message_ready, need_more_data, Accumulator}
use iocp_engine.Framing
use iocp_engine.SendCursor.{SharedBuffer}
use iocp_engine.WebSocket.{WsOpcode, WsParseStatus, WsEvent, WsEventType}
use iocp_engine.WebSocket.Decoder
use iocp_engine.WebSocket.Decoder.{WebSocketDecoder, Outcome}
use iocp_engine.Server.{
  SessionState, opened, closing, closed, MessageDisposition, accepted, malformed, ServerConfig,
  OutboundItem, State,
}
use iocp_engine.Server.Outgoing.{Answers, disconnect, update_inbound_counters}
use iocp_engine.Server.Control.{is_open, send, close, send_control}

-- What the message handler calls on its own session.
pub data Call : Type 0 where
  send_buffer : SharedBuffer → Call
  close_with : ℕ → List ℕ → Call

-- `none`: no handler is registered.
abbrev pub MessageHandler : Type 0
MessageHandler = Option (State → List ℕ → List Call × MessageDisposition)

unfoldable pub run_calls : ServerConfig → Answers → ℕ → State → List Call → Option State
run_calls c a now s [] = some s
run_calls c a now s (send_buffer b ∷ rest) = elim (send c a s b) [
  | none ↦ none
  | some r ↦ run_calls c a now r.1 rest
]
run_calls c a now s (close_with code reason ∷ rest) =
    run_calls c a now (close c a now s code reason) rest

unfoldable pub record_malformed : State → State
record_malformed s = record s {
  session = record s.session { malformed_messages = (s.session.malformed_messages + 1) % 2 ^ 32 };
  metrics = record s.metrics { malformed_messages = add_size s.metrics.malformed_messages 1 };
}

unfoldable pub update_inbound_accounting : ServerConfig → State → ℕ → State
update_inbound_accounting c s bytes =
    let t : State = update_inbound_counters s bytes in
    if ltb s.session.inbound_accounted bytes
      && ltb c.max_global_inbound_bytes t.metrics.inbound_bytes
    then disconnect t
    else t

-- The window of the rate limit after one more message.
unfoldable pub count_message : ℕ → State → State
count_message now s =
    let fresh : Bool = leb (s.session.rate_window_ms + 1000) now in
    record s {
      session = record s.session {
        rate_window_ms = if fresh then now else s.session.rate_window_ms;
        rate_window_messages = add_size (if fresh then 0 else s.session.rate_window_messages) 1;
      };
    }

abbrev is_close : MessageDisposition → Bool
is_close MessageDisposition.close = true
is_close _ = false

unfoldable pub judge : ServerConfig → Answers → ℕ → State → MessageDisposition → Bool × State
judge c a now s accepted = (true, s)
judge c a now s disposition =
    let t : State = record_malformed s in
    if is_close disposition || leb c.malformed_message_limit t.session.malformed_messages
    then (false, close c a now t 1007 (ascii "invalid application message"))
    else (true, t)

-- `none`: an exception of a call of the handler.
unfoldable pub hand_over :
    ServerConfig → Answers → ℕ → MessageHandler → State → List ℕ → Option (Bool × State)
hand_over c a now none s message = some (true, s)
hand_over c a now (some handler) s message =
    let t : State = record s {
      metrics = record s.metrics { received_messages = add_size s.metrics.received_messages 1 };
    } in
    let (calls, disposition) = handler t message in
    elim (run_calls c a now t calls) [ none ↦ none | some u ↦ some (judge c a now u disposition) ]

-- The answer `false` stops the caller's loop.
unfoldable pub deliver_message :
    ServerConfig → Answers → ℕ → MessageHandler → State → List ℕ → Option (Bool × State)
deliver_message c a now h s message =
    let t : State = count_message now s in
    if ltb c.max_messages_per_second t.session.rate_window_messages
    then some (false, close c a now t 1008 (ascii "message rate limit exceeded"))
    else hand_over c a now h t message

abbrev pub with_raw_decoder : State → Accumulator → State
with_raw_decoder s d = record s { session = record s.session { raw_decoder = d } }

abbrev pub with_websocket_decoder : State → WebSocketDecoder → State
with_websocket_decoder s d = record s { session = record s.session { websocket_decoder = d } }

abbrev pub settle_raw : ServerConfig → State → State
settle_raw c s = update_inbound_accounting c s (Framing.buffered_bytes s.session.raw_decoder)

-- `next` is the rest of the caller's loop.
unfoldable pub after_delivery : (State → Option State) → Option (Bool × State) → Option State
after_delivery next none = none
after_delivery next (some (false, u)) = some u
after_delivery next (some (true, u)) = next u

-- One round of `ProcessRaw` after its call of `Next`.
unfoldable pub raw_round :
    (State → Option State)
    → ServerConfig
    → Answers
    → ℕ
    → MessageHandler
    → State
    → FrameDecodeStatus
    → List ℕ
    → Option State
raw_round next c a now h s need_more_data message = some (settle_raw c s)
raw_round next c a now h s message_ready message =
    after_delivery next (deliver_message c a now h s message)
raw_round next c a now h s _ message = some (disconnect (record_malformed s))

-- The loop of `ProcessRaw` with what follows it. `none` also when the fuel runs out.
unfoldable pub raw_loop : ℕ → ServerConfig → Answers → ℕ → MessageHandler → State → Option State
raw_loop zero c a now h s = none
raw_loop (suc fuel) c a now h s =
    let (status, message, d) = Framing.next s.session.raw_decoder in
    if s.session.disconnect_started
    then some (settle_raw c s)
    else raw_round (raw_loop fuel c a now h) c a now h (with_raw_decoder s d) status message

-- A message takes five bytes at least, so these rounds are enough.
unfoldable pub process_raw :
    ServerConfig → Answers → ℕ → MessageHandler → State → List ℕ → Option State
process_raw c a now h s bytes =
    let (fits, d) = Framing.append s.session.raw_decoder bytes in
    let t : State = with_raw_decoder s d in
    if fits
    then raw_loop (suc (length d.buffer)) c a now h (settle_raw c t)
    else some (disconnect t)

abbrev pub settle_websocket : ServerConfig → State → State
settle_websocket c s =
    update_inbound_accounting c s (Decoder.buffered_bytes s.session.websocket_decoder)

-- What the loop of `ProcessWebSocket` does with an event: `true` goes on.
unfoldable pub handle_event :
    ServerConfig
    → Answers
    → ℕ
    → MessageHandler
    → State
    → WsEventType
    → List ℕ
    → Option (Bool × State)
handle_event c a now h s WsEventType.binary_message payload = deliver_message c a now h s payload
handle_event c a now h s WsEventType.ping payload =
    some (true, send_control c a now s WsOpcode.pong payload false)
handle_event c a now h s WsEventType.pong payload =
    some
      (true, record s { session = record s.session { awaiting_pong = false; last_pong_ms = now } })
handle_event c a now h s WsEventType.close payload =
    some (false, send_control c a now s WsOpcode.close payload true)

-- One round of `ProcessWebSocket` after its call of `Next`.
unfoldable pub websocket_round :
    (State → Option State)
    → ServerConfig
    → Answers
    → ℕ
    → MessageHandler
    → State
    → WsParseStatus
    → WsEvent
    → String
    → Option State
websocket_round next c a now h s WsParseStatus.need_more_data event error =
    some (settle_websocket c s)
websocket_round next c a now h s WsParseStatus.event_ready event error =
    after_delivery next (handle_event c a now h s event.type event.payload)
websocket_round next c a now h s WsParseStatus.protocol_error event error =
    some (close c a now (record_malformed s) 1002 (ascii error))
websocket_round next c a now h s _ event error = some (close c a now s 1009 (ascii error))

unfoldable pub after_next :
    (State → Option State)
    → ServerConfig
    → Answers
    → ℕ
    → MessageHandler
    → State
    → Option Outcome
    → Option State
after_next next c a now h s none = none
after_next next c a now h s (some out) =
    websocket_round next c a now h (with_websocket_decoder s out.decoder) out.status out.event
      out.error

unfoldable pub websocket_loop :
    ℕ → ServerConfig → Answers → ℕ → MessageHandler → State → Option State
websocket_loop zero c a now h s = none
websocket_loop (suc fuel) c a now h s =
    if not s.session.disconnect_started && is_open s.session.state
    then after_next (websocket_loop fuel c a now h) c a now h s
        (Decoder.next s.session.websocket_decoder)
    else some (settle_websocket c s)

abbrev pub is_closing : SessionState → Bool
is_closing closing = true
is_closing _ = false

-- An event takes two bytes at least, so these rounds are enough.
unfoldable pub process_websocket :
    ServerConfig → Answers → ℕ → MessageHandler → State → List ℕ → Option State
process_websocket c a now h s bytes =
    if is_closing s.session.state
    then some s
    else let (fits, d) = Decoder.append s.session.websocket_decoder bytes in
      let t : State = with_websocket_decoder s d in
      if fits
      then websocket_loop (suc (length d.buffer)) c a now h (settle_websocket c t)
      else some (close c a now t 1009 (ascii "receive buffer limit exceeded"))
