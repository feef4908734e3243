-- ===== src/WebSocket/Decoder/Tests.antt =====
-- Frames in and out, and the theorems at them.
use iocp_engine.Base.{
  ℕ, ◌≤◌, ◌≡◌, ◌↔◌, ◌⊎◌, refl, true, false, List, [], ◌∷◌, length, arith, All, IsByte, some,
}
use mathlib.Core.Option
use iocp_engine.WebSocket.{
  continuation, ping, is_known_opcode, opcode_of, opcode_value, is_control_opcode, WsEventType,
  event_ready, protocol_error,
}
use iocp_engine.WebSocket.CloseCode.{is_valid_close_code}
use iocp_engine.WebSocket.Utf8.{is_valid_utf8}
use iocp_engine.WebSocket.Utf8.Encoding.{Text, is_valid_utf8_iff}
use iocp_engine.WebSocket.CloseCode.{Sendable as SendableCode, is_valid_close_code_lem}
use iocp_engine.WebSocket.Frame.{build_frame}
use iocp_engine.WebSocket.Decoder.{
  WebSocketDecoder, Outcome, next, next_on, next_frame, buffered_bytes, payload_size, check_sizes,
  take_frame, handle_frame, handle_close, handle_binary, unmask, append,
}
use iocp_engine.WebSocket.Decoder.Invariant.{pending, IsValid, Stays, StatusFits}
use iocp_engine.WebSocket.Decoder.Next.{next_fits}
use iocp_engine.WebSocket.Decoder.Wire.{Mask, client_frame, server_frame, header, cycle_xor}
use iocp_engine.WebSocket.Decoder.Fragments.{Delivered, next-fragmented_message}
use iocp_engine.WebSocket.Decoder.Single.{next-binary, next-ping_or_pong, build_frame-server_frame}
use iocp_engine.WebSocket.Decoder.Append.{Fits, Extends, append_lem}

abbrev key : Mask
key = record { m0 = 1; m1 = 2; m2 = 4; m3 = 8 }

-- A server-side decoder holding some bytes.
abbrev holding : List ℕ → WebSocketDecoder
holding bytes = record {
  max_message_bytes = 64;
  max_buffered_bytes = 128;
  require_masking = true;
  buffer = bytes;
  cursor = 0;
  fragmented = false;
  fragmented_opcode = continuation;
  fragmented_payload = [];
  limit_exceeded = false;
}

-- "hi" under the key, and one byte of the next frame.
abbrev hi_frame : List ℕ
hi_frame = 0x82 ∷ 0x82 ∷ 1 ∷ 2 ∷ 4 ∷ 8 ∷ 0x69 ∷ 0x6b ∷ 0x82 ∷ []

next-hi :
    Option.map (λ (out : Outcome). out.event.payload) (next (holding hi_frame))
    ≡ some (0x68 ∷ 0x69 ∷ [])
unfolding next next_on next_frame opcode_of is_known_opcode buffered_bytes payload_size check_sizes
    take_frame handle_frame handle_binary unmask is_control_opcode
next-hi = refl

-- A close frame with code 1005, which must not be sent.
next-bad_close :
    Option.map
      (λ (out : Outcome). out.status)
      (next (holding (0x88 ∷ 0x82 ∷ 0 ∷ 0 ∷ 0 ∷ 0 ∷ 3 ∷ 0xed ∷ [])))
    ≡ some protocol_error
unfolding next next_on next_frame opcode_of is_known_opcode buffered_bytes payload_size check_sizes
    take_frame handle_frame handle_close unmask is_control_opcode is_valid_close_code
next-bad_close = refl

holding-IsValid : (bytes : List ℕ) → All IsByte bytes → length bytes ≤ 128 → IsValid (holding bytes)
holding-IsValid bytes h k = record {
  limits = omega arith;
  message_limit = omega arith;
  cursor_in = omega arith;
  pending_in = omega arith;
  memory = omega arith;
  fragments_in = omega arith;
  bytes = h;
  fragment_bytes = tt;
}

next_fits_example :
    (out : Outcome) × (next (holding hi_frame) ≡ some out)
    × Stays (holding hi_frame) out.decoder
    × StatusFits 64 out.status out.event
next_fits_example =
    next_fits (holding hi_frame) (holding-IsValid hi_frame (omega arith) (omega arith))

next-binary_example :
    (out : Outcome) × (next (holding hi_frame) ≡ some out)
    × Delivered (0x68 ∷ 0x69 ∷ []) (0x82 ∷ []) out
unfolding client_frame header cycle_xor opcode_value
next-binary_example =
    next-binary (holding hi_frame) key (0x68 ∷ 0x69 ∷ []) (0x82 ∷ [])
      (holding-IsValid hi_frame (omega arith) (omega arith)) refl refl (omega arith) refl

abbrev ping_frame : List ℕ
ping_frame = 0x89 ∷ 0x81 ∷ 1 ∷ 2 ∷ 4 ∷ 8 ∷ 0x06 ∷ []

next-ping_or_pong_example :
    (out : Outcome) × (next (holding ping_frame) ≡ some out)
    × (out.status ≡ event_ready)
    × (out.event.type ≡ WsEventType.ping)
    × (out.event.payload ≡ 7 ∷ [])
    × (pending out.decoder ≡ [])
    × (out.decoder
        ≡ record (holding ping_frame) { buffer = out.decoder.buffer; cursor = out.decoder.cursor })
unfolding client_frame header cycle_xor opcode_value
next-ping_or_pong_example =
    next-ping_or_pong (holding ping_frame) true key (7 ∷ []) []
      (holding-IsValid ping_frame (omega arith) (omega arith)) refl (omega arith) (omega arith) refl

-- "hi" in two fragments.
abbrev cut_frames : List ℕ
cut_frames = 0x02 ∷ 0x81 ∷ 1 ∷ 2 ∷ 4 ∷ 8 ∷ 0x69 ∷ 0x80 ∷ 0x81 ∷ 1 ∷ 2 ∷ 4 ∷ 8 ∷ 0x68 ∷ []

next-fragmented_message_example :
    (out : Outcome) × (next (holding cut_frames) ≡ some out) × Delivered (0x68 ∷ 0x69 ∷ []) [] out
unfolding client_frame header cycle_xor opcode_value
next-fragmented_message_example =
    next-fragmented_message (holding cut_frames) (key, 0x68 ∷ []) [] (key, 0x69 ∷ []) []
      (holding-IsValid cut_frames (omega arith) (omega arith)) refl refl (omega arith) refl

build_frame-server_frame_example :
    build_frame ping (1 ∷ 2 ∷ []) ≡ server_frame true ping (1 ∷ 2 ∷ [])
unfolding is_known_opcode
build_frame-server_frame_example = build_frame-server_frame ping (1 ∷ 2 ∷ []) refl (omega arith)

append_lem_example :
    let (done, e) = append (holding hi_frame) (7 ∷ []) in
    (Fits (holding hi_frame) (7 ∷ [])
      × (done ≡ true)
      × Extends (holding hi_frame) (7 ∷ []) e
      × (e.limit_exceeded ≡ false))
    ⊎ (¬ Fits (holding hi_frame) (7 ∷ [])
        × (done ≡ false)
        × Extends (holding hi_frame) [] e
        × (e.limit_exceeded ≡ true))
append_lem_example =
    append_lem (holding hi_frame) (7 ∷ []) (holding-IsValid hi_frame (omega arith) (omega arith))
      (omega arith)

is_valid_close_code_lem_example :
    (is_valid_close_code 1000 ≡ true) × SendableCode 1000
    ⊎ (is_valid_close_code 1000 ≡ false) × ¬ SendableCode 1000
is_valid_close_code_lem_example = is_valid_close_code_lem 1000

-- U+20AC in three bytes.
is_valid_utf8_iff_example :
    (is_valid_utf8 (0xe2 ∷ 0x82 ∷ 0xac ∷ []) ≡ true) ↔ Text (0xe2 ∷ 0x82 ∷ 0xac ∷ [])
is_valid_utf8_iff_example = is_valid_utf8_iff (0xe2 ∷ 0x82 ∷ 0xac ∷ []) (omega arith)
