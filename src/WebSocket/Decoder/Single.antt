-- ===== src/WebSocket/Decoder/Single.antt =====
-- Messages and control frames in one frame, and the frames that the server itself builds.
use iocp_engine.Base.{
  ℕ, ◌/◌, ◌%◌, ◌^◌, ◌≤◌, ◌<◌, ◌≡◌, inl, inr, refl, subst, ap, ◌∙◌, bit_and, Bool, true, false, List,
  ◌++◌, if◌then◌else◌, length, take, dec_le, arith, some,
}
use iocp_engine.Base.Bits.{bit_and-mask, byte_top_set}
use iocp_engine.WebSocket.{
  WsOpcode, continuation, text, binary, close, ping, pong, unknown, is_control_opcode,
  is_known_opcode, opcode_value, WsEventType, event_ready,
}
use iocp_engine.WebSocket.Frame.{build_frame_header, build_frame}
use iocp_engine.WebSocket.Decoder.{
  WebSocketDecoder, Outcome, ready, handle_frame, next, handle_binary,
}
use iocp_engine.WebSocket.Decoder.Invariant.{pending, IsValid, RoundFits}
use iocp_engine.WebSocket.Decoder.Wire.{Mask, server_frame, header}
use iocp_engine.WebSocket.Decoder.Next.{next_frame-RoundFits}
use iocp_engine.WebSocket.Decoder.RoundTrip.{wire, past, next_frame-wire}
use iocp_engine.WebSocket.Decoder.Fragments.{Delivered, pending-past, step_finished}

binary_whole :
    (e : WebSocketDecoder) (p : List ℕ)
    → e.fragmented ≡ false
    → handle_frame e binary true p ≡ ready WsEventType.binary_message p e
unfolding handle_frame handle_binary
binary_whole e p f = ground arith

-- A binary message in one frame comes out of one call of `Next`, and the bytes behind it stay
-- undecoded. The conditions are those of a fragmented message.
pub next-binary :
    (d : WebSocketDecoder) (m : Mask) (message rest : List ℕ)
    → IsValid d
    → d.limit_exceeded ≡ false
    → d.fragmented ≡ false
    → length message ≤ d.max_message_bytes
    → pending d ≡ wire d.require_masking true binary m message ++ rest
    → (out : Outcome) × (next d ≡ some out) × Delivered message rest out
unfolding next is_known_opcode is_control_opcode
next-binary d m message rest v f o h e =
    let w = wire d.require_masking true binary m message in
    let taken =
      next_frame-wire d true binary m message rest v f
        (record { known = refl; fits = h; control = inl refl }) e
      ∙ binary_whole (past d (length w)) message o in
    let fits = subst (RoundFits d) taken (next_frame-RoundFits d v) in
    (
      _,
      step_finished (length d.buffer) d _ taken,
      record {
        status = refl;
        type = refl;
        payload = refl;
        waiting = pending-past d w rest e;
        whole = o;
        valid = fits.0.valid;
      },
    )

abbrev pub ping_or_pong : Bool → WsOpcode
ping_or_pong b = if b then ping else pong

abbrev pub ping_or_pong_event : Bool → WsEventType
ping_or_pong_event b = if b then WsEventType.ping else WsEventType.pong

-- A ping or a pong of at most 125 bytes, and at most `max_message_bytes`, comes out of one call of `Next`
-- of a valid decoder whose buffer has not overflowed, also between the fragments of a message. The
-- bytes behind it stay undecoded, and nothing but the buffer and the cursor changes.
pub next-ping_or_pong :
    (d : WebSocketDecoder) (which : Bool) (m : Mask) (payload rest : List ℕ)
    → IsValid d
    → d.limit_exceeded ≡ false
    → length payload ≤ 125
    → length payload ≤ d.max_message_bytes
    → pending d ≡ wire d.require_masking true (ping_or_pong which) m payload ++ rest
    → (out : Outcome) × (next d ≡ some out)
      × (out.status ≡ event_ready)
      × (out.event.type ≡ ping_or_pong_event which)
      × (out.event.payload ≡ payload)
      × (pending out.decoder ≡ rest)
      × (out.decoder ≡ record d { buffer = out.decoder.buffer; cursor = out.decoder.cursor })
unfolding next is_known_opcode is_control_opcode handle_frame
next-ping_or_pong d true m payload rest v f s h e =
    let w = wire d.require_masking true ping m payload in
    let taken =
      next_frame-wire d true ping m payload rest v f
        (record { known = refl; fits = h; control = inr (refl, s) }) e in
    (_, step_finished (length d.buffer) d _ taken, refl, refl, refl, pending-past d w rest e, refl)
next-ping_or_pong d false m payload rest v f s h e =
    let w = wire d.require_masking true pong m payload in
    let taken =
      next_frame-wire d true pong m payload rest v f
        (record { known = refl; fits = h; control = inr (refl, s) }) e in
    (_, step_finished (length d.buffer) d _ taken, refl, refl, refl, pending-past d w rest e, refl)

opcode_value-lt : (op : WsOpcode) → is_known_opcode op ≡ true → opcode_value op < 128
unfolding is_known_opcode opcode_value
opcode_value-lt continuation k = omega arith
opcode_value-lt text k = omega arith
opcode_value-lt binary k = omega arith
opcode_value-lt close k = omega arith
opcode_value-lt ping k = omega arith
opcode_value-lt pong k = omega arith
opcode_value-lt (unknown n) k = absurd (cc)

byte_mask : (n i : ℕ) → bit_and (n / 2 ^ i) 0xff % 256 ≡ n / 2 ^ i % 256
byte_mask n i = rw (bit_and-mask 8 (n / 2 ^ i)) (omega arith)

-- The used part of the header array.
abbrev used_header : WsOpcode → ℕ → List ℕ
used_header op n = take (build_frame_header op n).1 (build_frame_header op n).0

used_header-header :
    (op : WsOpcode) (n : ℕ)
    → is_known_opcode op ≡ true
    → n < 2 ^ 63
    → used_header op n ≡ header true op false n
unfolding build_frame_header header
used_header-header op n k h = elim (dec_le n 125) [
  | yes p ↦ ground (arith, byte_top_set (opcode_value op), opcode_value-lt op k)
  | no p ↦ elim (dec_le n 65535) [
    | yes q ↦
        ground (
          arith,
          byte_top_set (opcode_value op),
          opcode_value-lt op k,
          byte_mask n 8,
          byte_mask n 0,
        )
    | no q ↦ ground (
      arith,
      byte_top_set (opcode_value op),
      opcode_value-lt op k,
      byte_mask n 56,
      byte_mask n 48,
      byte_mask n 40,
      byte_mask n 32,
      byte_mask n 24,
      byte_mask n 16,
      byte_mask n 8,
      byte_mask n 0,
    )
  ]
]

-- `BuildFrame` writes a final frame without a mask in the form of RFC 6455, its length in the least
-- of the three encodings, for every known opcode and every payload that a 64-bit length can announce.
pub build_frame-server_frame :
    (op : WsOpcode) (payload : List ℕ)
    → is_known_opcode op ≡ true
    → length payload < 2 ^ 63
    → build_frame op payload ≡ server_frame true op payload
build_frame-server_frame op payload k h =
    unfold build_frame server_frame in
    ap (λ l. l ++ payload) (used_header-header op (length payload) k h)
