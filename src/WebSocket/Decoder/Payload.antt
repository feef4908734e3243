-- ===== src/WebSocket/Decoder/Payload.antt =====
-- Waiting for a frame's payload, and unmasking it.
use iocp_engine.Base.{
  ℕ, suc, ◌+◌, ◌-◌, ◌%◌, ◌≤◌, ◌≡◌, ◌⊎◌, refl, ap, Bool, true, false, List, [], ◌∷◌, if◌then◌else◌,
  length, length-drop, length-take, take, drop, dec_le, arith, All, All-drop, All-take, All-get_or,
  IsByte,
}
use iocp_engine.Base.Bits.{bit_xor-byte}
use iocp_engine.WebSocket.{WsOpcode, is_control_opcode, is_known_opcode}
use iocp_engine.WebSocket.Decoder.{
  WebSocketDecoder, buffered_bytes, waiting, unmask, handle_frame, take_frame,
}
use iocp_engine.WebSocket.Decoder.Invariant.{pending, IsValid, Stays, RoundFits}
use iocp_engine.WebSocket.Decoder.Handlers.{handle_frame-RoundFits}

length-unmask : (mask : List ℕ) (i : ℕ) (xs : List ℕ) → length (unmask mask i xs) ≡ length xs
unfolding unmask
length-unmask mask i [] = refl
length-unmask mask i (x ∷ xs) = ap suc (length-unmask mask (i + 1) xs)

unmask-IsByte :
    (mask : List ℕ) (i : ℕ) (xs : List ℕ)
    → All IsByte mask
    → All IsByte xs
    → All IsByte (unmask mask i xs)
unfolding unmask
unmask-IsByte mask i [] m h = tt
unmask-IsByte mask i (x ∷ xs) m h = (
  bit_xor-byte x _ h.0 (All-get_or IsByte mask (i % 4) 0 (omega arith) m),
  unmask-IsByte mask (i + 1) xs m h.1,
)

pub buffered_bytes_lem : (d : WebSocketDecoder) → IsValid d → buffered_bytes d ≡ length (pending d)
unfolding buffered_bytes
buffered_bytes_lem d v = omega (arith, length-drop d.cursor d.buffer)

pub self-Stays : (d : WebSocketDecoder) → IsValid d → Stays d d
self-Stays d v = record {
  valid = v;
  same_message_limit = refl;
  same_buffer_limit = refl;
  same_masking = refl;
  same_flag = refl;
}

pub advance-Stays :
    (d : WebSocketDecoder) (n : ℕ)
    → IsValid d
    → n ≤ length (pending d)
    → Stays d (record d { cursor = d.cursor + n })
advance-Stays d n v h = record {
  valid = record {
    limits = v.limits;
    message_limit = v.message_limit;
    cursor_in = omega (arith, length-drop d.cursor d.buffer);
    pending_in = omega (arith, length-drop d.cursor d.buffer, v.pending_in);
    memory = v.memory;
    fragments_in = v.fragments_in;
    bytes = v.bytes;
    fragment_bytes = v.fragment_bytes;
  };
  same_message_limit = refl;
  same_buffer_limit = refl;
  same_masking = refl;
  same_flag = refl;
}

-- The payload of a frame: `masked` or not, it has the announced length.
abbrev pub frame_payload : WebSocketDecoder → Bool → ℕ → ℕ → List ℕ
frame_payload d masked header_size size =
    let source = take size (drop header_size (pending d)) in
    if masked then unmask (drop (header_size - 4) (pending d)) 0 source else source

frame_payload_lem :
    (d : WebSocketDecoder) (masked : Bool) (header_size size : ℕ)
    → IsValid d
    → (length (frame_payload d masked header_size size) ≤ size)
      × All IsByte (frame_payload d masked header_size size)
frame_payload_lem d masked header_size size v =
    let pending_bytes = All-drop IsByte d.cursor d.buffer v.bytes in
    let source_bytes =
      All-take IsByte size (drop header_size (pending d))
        (All-drop IsByte header_size (pending d) pending_bytes) in
    ground (
      arith,
      length-take size (drop header_size (pending d)),
      length-unmask (drop (header_size - 4) (pending d)) 0
          (take size (drop header_size (pending d))),
      source_bytes,
      unmask-IsByte (drop (header_size - 4) (pending d)) 0
          (take size (drop header_size (pending d)))
          (All-drop IsByte (header_size - 4) (pending d) pending_bytes) source_bytes,
    )

pub take_frame_whole :
    (d : WebSocketDecoder) (opcode : WsOpcode) (fin masked : Bool) (header_size size : ℕ)
    → IsValid d
    → header_size ≤ 14
    → size ≤ d.max_message_bytes
    → header_size + size ≤ length (pending d)
    → take_frame d opcode fin masked header_size size
      ≡ handle_frame
          (record d { cursor = d.cursor + (header_size + size) })
          opcode
          fin
          (frame_payload d masked header_size size)
unfolding take_frame
take_frame_whole d opcode fin masked header_size size v hi fits whole =
    ground (arith, buffered_bytes_lem d v, length-drop d.cursor d.buffer)

pub take_frame_part :
    (d : WebSocketDecoder) (opcode : WsOpcode) (fin masked : Bool) (header_size size : ℕ)
    → IsValid d
    → header_size ≤ 14
    → size ≤ d.max_message_bytes
    → ¬ (header_size + size ≤ length (pending d))
    → take_frame d opcode fin masked header_size size ≡ waiting d
unfolding take_frame
take_frame_part d opcode fin masked header_size size v hi fits part =
    ground (arith, buffered_bytes_lem d v, length-drop d.cursor d.buffer)

pub take_frame-RoundFits :
    (d : WebSocketDecoder) (opcode : WsOpcode) (fin masked : Bool) (header_size size : ℕ)
    → IsValid d
    → is_known_opcode opcode ≡ true
    → 2 ≤ header_size
    → header_size ≤ 14
    → size ≤ d.max_message_bytes
    → (is_control_opcode opcode ≡ false) ⊎ (size ≤ 125)
    → RoundFits d (take_frame d opcode fin masked header_size size)
take_frame-RoundFits d opcode fin masked header_size size v k lo hi fits control =
    elim (dec_le (header_size + size) (length (pending d))) [
      | yes whole ↦ rw (take_frame_whole d opcode fin masked header_size size v hi fits whole) (
          handle_frame-RoundFits d _ opcode fin (frame_payload d masked header_size size) k
            (record {
              stays = advance-Stays d (header_size + size) v whole;
              behind = omega arith;
              same_buffer = refl;
              fits = omega (arith, frame_payload_lem d masked header_size size v);
              control = ground (arith, frame_payload_lem d masked header_size size v);
              payload_bytes = (frame_payload_lem d masked header_size size v).1;
            }))
      | no part ↦
          rw (take_frame_part d opcode fin masked header_size size v hi fits part)
            (self-Stays d v, tt)
    ]
