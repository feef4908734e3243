-- ===== src/Server/Lifecycle/WebSocket.antt =====
-- `ProcessWebSocket`: its end, and the life cycle of the session.
use iocp_engine.Base.Text.{ascii}
use iocp_engine.Base.{
  ◌≡◌, ◌<◌, ◌^◌, ◌-◌, subst, sym, Bool, true, false, not, ◌&&◌, arith, ℕ, zero, suc, List, refl,
  Option, length, All, IsByte,
}
use Prim.Native.String.{String}
use iocp_engine.WebSocket.{WsOpcode, WsParseStatus, WsEvent, WsEventType}
use iocp_engine.WebSocket.Decoder
use iocp_engine.WebSocket.Decoder.{WebSocketDecoder, Outcome}
use iocp_engine.WebSocket.Decoder.Invariant.{IsValid}
use iocp_engine.WebSocket.Decoder.Append.{append_lem}
use iocp_engine.WebSocket.Decoder.Next.{next_fits}
use iocp_engine.WebSocket.Decoder.Progress.{next-Moves}
use iocp_engine.Server.{State, ServerConfig}
use iocp_engine.Server.Outgoing.{Answers}
use iocp_engine.Server.Control.{close, is_open}
use iocp_engine.Server.Incoming.{
  MessageHandler, record_malformed, with_websocket_decoder, settle_websocket, is_closing,
  handle_event, websocket_round, after_next, websocket_loop, process_websocket,
}
use iocp_engine.Server.Lifecycle.{Lifecycle, Onward, Onward-self, Onward-trans}
use iocp_engine.Server.Lifecycle.Sending.{Gives, close-Onward, send_control-Onward}
use iocp_engine.Server.Lifecycle.Ending.{
  Sound, Ends, Onward-Sound, Onward-Ends, Ends-trans, if_Ends, after_delivery-Ends,
}
use iocp_engine.Server.Lifecycle.Receiving.{
  deliver_message-Gives, record_malformed-Onward, update_inbound_accounting-Onward,
}

pong-Onward :
    (s : State) (now : ℕ)
    → Lifecycle s
    → Onward s
        (record s { session = record s.session { awaiting_pong = false; last_pong_ms = now } })
pong-Onward s now v = ground arith

handle_event-Gives :
    (c : ServerConfig) (a : Answers) (now : ℕ) (h : MessageHandler) (s : State) (type : WsEventType)
    (payload : List ℕ)
    → c.max_message_bytes < 2 ^ 32
    → Lifecycle s
    → Gives s (handle_event c a now h s type payload)
unfolding handle_event
handle_event-Gives c a now h s WsEventType.binary_message payload k v =
    deliver_message-Gives c a now h s payload k v
handle_event-Gives c a now h s WsEventType.ping payload k v =
    (_, refl, send_control-Onward c a now s WsOpcode.pong payload false v)
handle_event-Gives c a now h s WsEventType.pong payload k v = (_, refl, pong-Onward s now v)
handle_event-Gives c a now h s WsEventType.close payload k v =
    (_, refl, send_control-Onward c a now s WsOpcode.close payload true v)

abbrev left : WebSocketDecoder → ℕ
left d = length d.buffer - d.cursor

-- The rest of the loop, where `fuel` rounds are left.
abbrev Loops : ℕ → (State → Option State) → Type 0
Loops fuel next = (s : State) → Sound s → left s.session.websocket_decoder < fuel → Ends s (next s)

malformed_close-Onward :
    (c : ServerConfig) (a : Answers) (now : ℕ) (s : State) (code : ℕ) (reason : List ℕ)
    → Lifecycle s
    → Onward s (close c a now (record_malformed s) code reason)
malformed_close-Onward c a now s code reason v =
    let w : Onward s (record_malformed s) = record_malformed-Onward s v in
    Onward-trans s _ _ w (close-Onward c a now (record_malformed s) code reason w.lifecycle)

websocket_round-Ends :
    (fuel : ℕ) (next : State → Option State) (c : ServerConfig) (a : Answers) (now : ℕ)
    (h : MessageHandler) (s : State) (status : WsParseStatus) (event : WsEvent) (error : String)
    → c.max_message_bytes < 2 ^ 32
    → Loops fuel next
    → Sound s
    → (status ≡ WsParseStatus.event_ready → left s.session.websocket_decoder < fuel)
    → Ends s (websocket_round next c a now h s status event error)
unfolding websocket_round
websocket_round-Ends fuel next c a now h s WsParseStatus.need_more_data event error k l v w =
    Onward-Ends s _ v (update_inbound_accounting-Onward c s _ v.0)
websocket_round-Ends fuel next c a now h s WsParseStatus.event_ready event error k l v w =
    after_delivery-Ends next s _ v
      (λ u x.
        l u (Onward-Sound s u v x) (subst (λ d. left d < fuel) (sym x.same_websocket) (w refl)))
      (handle_event-Gives c a now h s event.type event.payload k v.0)
websocket_round-Ends fuel next c a now h s WsParseStatus.protocol_error event error k l v w =
    Onward-Ends s _ v (malformed_close-Onward c a now s 1002 (ascii error) v.0)
websocket_round-Ends fuel next c a now h s WsParseStatus.message_too_large event error k l v w =
    Onward-Ends s _ v (close-Onward c a now s 1009 (ascii error) v.0)
websocket_round-Ends fuel next c a now h s WsParseStatus.buffer_limit_exceeded event error k l v w =
    Onward-Ends s _ v (close-Onward c a now s 1009 (ascii error) v.0)

decoder-Lifecycle :
    (s : State) (d : WebSocketDecoder) → Lifecycle s → Lifecycle (with_websocket_decoder s d)
decoder-Lifecycle s d v = ground arith

after_next-Ends :
    (fuel : ℕ) (next : State → Option State) (c : ServerConfig) (a : Answers) (now : ℕ)
    (h : MessageHandler) (s : State)
    → c.max_message_bytes < 2 ^ 32
    → Loops fuel next
    → Sound s
    → left s.session.websocket_decoder < suc fuel
    → Ends s (after_next next c a now h s (Decoder.next s.session.websocket_decoder))
unfolding after_next
after_next-Ends fuel next c a now h s k l v w =
    let (out, e, stays, fits) = next_fits s.session.websocket_decoder v.2 in
    let m = next-Moves s.session.websocket_decoder out v.2 e in
    subst (λ o. Ends s (after_next next c a now h s o)) (sym e)
      (websocket_round-Ends fuel next c a now h (with_websocket_decoder s out.decoder) out.status
        out.event out.error k l (decoder-Lifecycle s out.decoder v.0, v.1, stays.valid, v.3)
        (λ f. ground (arith, m, w, stays.valid.cursor_in)))

websocket_loop-Ends :
    (fuel : ℕ) (c : ServerConfig) (a : Answers) (now : ℕ) (h : MessageHandler)
    → c.max_message_bytes < 2 ^ 32
    → Loops fuel (websocket_loop fuel c a now h)
unfolding websocket_loop
websocket_loop-Ends zero c a now h k s v l = ground arith
websocket_loop-Ends (suc fuel) c a now h k s v l =
    if_Ends s (not s.session.disconnect_started && is_open s.session.state) _ _
      (after_next-Ends fuel (websocket_loop fuel c a now h) c a now h s k
        (websocket_loop-Ends fuel c a now h k) v l)
      (Onward-Ends s _ v (update_inbound_accounting-Onward c s _ v.0))

append-IsValid :
    (d : WebSocketDecoder) (bytes : List ℕ)
    → IsValid d
    → All IsByte bytes
    → IsValid (Decoder.append d bytes).1
append-IsValid d bytes v b = ground (arith, append_lem d bytes v b)

-- `ProcessWebSocket` of a valid session ends, on any bytes, with any handler and any answer of the
-- operating system, when `max_message_bytes` is below 2^32. It leaves a valid session: either live, or
-- torn down once, with its disconnect reported once, its socket closed and its queue empty; and one
-- that was torn down before stays so.
pub process_websocket-Ends :
    (c : ServerConfig) (a : Answers) (now : ℕ) (h : MessageHandler) (s : State) (bytes : List ℕ)
    → c.max_message_bytes < 2 ^ 32
    → Sound s
    → All IsByte bytes
    → Ends s (process_websocket c a now h s bytes)
unfolding process_websocket
process_websocket-Ends c a now h s bytes k v b =
    let r : Bool × WebSocketDecoder = Decoder.append s.session.websocket_decoder bytes in
    let t : State = with_websocket_decoder s r.1 in
    let x : Sound t = (
      decoder-Lifecycle s r.1 v.0,
      v.1,
      append-IsValid s.session.websocket_decoder bytes v.2 b,
      v.3,
    ) in
    let w : Onward t (settle_websocket c t) = update_inbound_accounting-Onward c t _ x.0 in
    if_Ends s (is_closing s.session.state) _ _ (Onward-Ends s s v (Onward-self s v.0)) (
      if_Ends s r.0 _ _
        (Ends-trans s (settle_websocket c t) _ w.stays_dead (
          websocket_loop-Ends _ c a now h k (settle_websocket c t)
            (Onward-Sound t (settle_websocket c t) x w)
            (subst (λ q. left q < suc (length r.1.buffer)) (sym w.same_websocket) (omega arith))))
        (Onward-Ends t _ x (close-Onward c a now t 1009 _ x.0)))
