-- ===== src/WebSocket/Decoder/Handlers.antt =====
-- What each kind of frame does once its payload is there.
use iocp_engine.Base.{
  ℕ, ◌+◌, ◌*◌, ◌%◌, ◌^◌, ◌≤◌, ◌≡◌, bit_or, Bool, true, false, List, [], ◌∷◌, ◌++◌, length,
  length-append, get_or, arith, All, All-append, All-get_or, IsByte,
}
use iocp_engine.Base.Bits.{bit_or-field}
use iocp_engine.WebSocket.{
  WsOpcode, continuation, text, binary, unknown, is_control_opcode, is_known_opcode,
}
use iocp_engine.WebSocket.Decoder.{
  WebSocketDecoder, handle_close, last_fragment, handle_continuation, handle_binary, handle_frame,
}
use iocp_engine.WebSocket.Decoder.Invariant.{Stays, RoundFits, Arrived}

close_code_lem :
    (payload : List ℕ)
    → All IsByte payload
    → bit_or (get_or payload 0 0 * 2 ^ 8 % 2 ^ 16) (get_or payload 1 0)
      ≡ get_or payload 0 0 * 256 + get_or payload 1 0
close_code_lem payload h =
    let p = All-get_or IsByte payload 0 0 (omega arith) h in
    let q = All-get_or IsByte payload 1 0 (omega arith) h in
    ground (arith, bit_or-field 8 (get_or payload 0 0) (get_or payload 1 0))

handle_close-RoundFits :
    (d e : WebSocketDecoder) (payload : List ℕ)
    → Stays d e
    → length payload ≤ 125
    → All IsByte payload
    → RoundFits d (handle_close e payload)
unfolding handle_close
handle_close-RoundFits d e [] s h b = ground arith
handle_close-RoundFits d e (x ∷ []) s h b = ground arith
handle_close-RoundFits d e (x ∷ y ∷ r) s h b = ground (arith, close_code_lem (x ∷ y ∷ r) b)

last_fragment-RoundFits :
    (d e : WebSocketDecoder) (assembled : List ℕ) (opcode : WsOpcode)
    → Stays d e
    → length assembled ≤ d.max_message_bytes
    → All IsByte assembled
    → RoundFits d (last_fragment e assembled opcode)
unfolding last_fragment
last_fragment-RoundFits d e assembled binary s h b = ground arith
last_fragment-RoundFits d e assembled _ s h b = ground arith

handle_continuation-RoundFits :
    (d e : WebSocketDecoder) (fin : Bool) (payload : List ℕ)
    → Arrived d e continuation payload
    → RoundFits d (handle_continuation e fin payload)
unfolding handle_continuation
handle_continuation-RoundFits d e fin payload a = ground (
  arith,
  length-append e.fragmented_payload payload,
  All-append IsByte e.fragmented_payload payload a.stays.valid.fragment_bytes a.payload_bytes,
  last_fragment-RoundFits d (record e { fragmented = false; fragmented_payload = [] })
      (e.fragmented_payload ++ payload) e.fragmented_opcode,
)

pub handle_frame-RoundFits :
    (d e : WebSocketDecoder) (opcode : WsOpcode) (fin : Bool) (payload : List ℕ)
    → is_known_opcode opcode ≡ true
    → Arrived d e opcode payload
    → RoundFits d (handle_frame e opcode fin payload)
unfolding handle_frame is_known_opcode is_control_opcode
handle_frame-RoundFits d e continuation fin payload k a =
    handle_continuation-RoundFits d e fin payload a
handle_frame-RoundFits d e text fin payload k a = (a.stays, tt)
handle_frame-RoundFits d e binary fin payload k a = unfold handle_binary in ground arith
handle_frame-RoundFits d e WsOpcode.close fin payload k a =
    handle_close-RoundFits d e payload a.stays (ground arith) a.payload_bytes
handle_frame-RoundFits d e WsOpcode.ping fin payload k a = ground arith
handle_frame-RoundFits d e WsOpcode.pong fin payload k a = ground arith
handle_frame-RoundFits d e (unknown n) fin payload k a = absurd (cc)
