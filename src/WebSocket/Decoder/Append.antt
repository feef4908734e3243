-- ===== src/WebSocket/Decoder/Append.antt =====
-- `Append` and `CompactIfUseful` of the decoder, and a fresh or reset decoder.
use iocp_engine.Base.{
  ℕ, ◌+◌, ◌*◌, ◌^◌, ◌≤◌, ◌<◌, ◌≡◌, ◌⊎◌, refl, ap, Bool, true, false, List, [], ◌++◌, length,
  length-append, length-drop, drop-all, drop-append_le, arith, All, All-append, All-drop, IsByte,
  append-nil,
}
use iocp_engine.WebSocket.Decoder.{
  WebSocketDecoder, new, reset, compact_if_useful, append_compacted, append,
}
use iocp_engine.WebSocket.Decoder.Invariant.{pending, IsValid, Stays}
use iocp_engine.WebSocket.Decoder.Payload.{buffered_bytes_lem}

pub new-IsValid :
    (message buffered : ℕ) (masking : Bool)
    → message ≤ 2 ^ 61
    → buffered ≤ 2 ^ 61
    → IsValid (new message buffered masking)
unfolding new
new-IsValid message buffered masking h k = record {
  limits = k;
  message_limit = h;
  cursor_in = omega arith;
  pending_in = omega arith;
  memory = omega arith;
  fragments_in = omega arith;
  bytes = tt;
  fragment_bytes = tt;
}

-- A reset decoder is valid, holds no byte and has no open fragment.
pub reset-IsValid :
    (d : WebSocketDecoder)
    → IsValid d
    → IsValid (reset d) × (pending (reset d) ≡ []) × ((reset d).fragmented ≡ false)
unfolding reset
reset-IsValid d v = (
  record {
    limits = v.limits;
    message_limit = v.message_limit;
    cursor_in = omega arith;
    pending_in = omega arith;
    memory = omega arith;
    fragments_in = omega arith;
    bytes = tt;
    fragment_bytes = tt;
  },
  refl,
  refl,
)

-- The part of the state that `Append` leaves alone.
abbrev pub SameFragments : WebSocketDecoder → WebSocketDecoder → Type 0
SameFragments d e =
    (e.fragmented ≡ d.fragmented)
    × (e.fragmented_opcode ≡ d.fragmented_opcode)
    × (e.fragmented_payload ≡ d.fragmented_payload)

record Compacted (d e : WebSocketDecoder) : Type 0 where
  stays : Stays d e
  same_pending : pending e ≡ pending d
  same_fragments : SameFragments d e
  short_prefix : (e.cursor < 4096) × (e.cursor ≤ length e.buffer) ⊎ (e.cursor * 2 < length e.buffer)

compact-Compacted : (d : WebSocketDecoder) → IsValid d → Compacted d (compact_if_useful d)
unfolding compact_if_useful
compact-Compacted d v = ground (
  arith,
  drop-all d.cursor d.buffer,
  length-drop d.cursor d.buffer,
  All-drop IsByte d.cursor d.buffer v.bytes,
)

abbrev pub Fits : WebSocketDecoder → List ℕ → Type 0
Fits d bytes = length (pending d) + length bytes ≤ d.max_buffered_bytes

-- `e` is `d` with more bytes to decode; only the overflow flag may differ.
pub record Extends (d : WebSocketDecoder) (bytes : List ℕ) (e : WebSocketDecoder) : Type 0 where
  pub valid : IsValid e
  pub grown : pending e ≡ pending d ++ bytes
  pub same_fragments : SameFragments d e
  pub same_message_limit : e.max_message_bytes ≡ d.max_message_bytes
  pub same_buffer_limit : e.max_buffered_bytes ≡ d.max_buffered_bytes
  pub same_masking : e.require_masking ≡ d.require_masking

append_compacted_lem :
    (d c : WebSocketDecoder) (bytes : List ℕ)
    → All IsByte bytes
    → Compacted d c
    → let (done, e) = append_compacted c bytes in
      (Fits d bytes × (done ≡ true) × Extends d bytes e × (e.limit_exceeded ≡ d.limit_exceeded))
      ⊎ (¬ Fits d bytes × (done ≡ false) × Extends d [] e × (e.limit_exceeded ≡ true))
unfolding append_compacted
append_compacted_lem d c bytes h k = ground (
  arith,
  length-append c.buffer bytes,
  drop-append_le c.cursor c.buffer bytes k.stays.valid.cursor_in,
  All-append IsByte c.buffer bytes k.stays.valid.bytes h,
  buffered_bytes_lem c k.stays.valid,
  length-drop c.cursor c.buffer,
  append-nil (pending d),
  ap {B = ℕ} length k.same_pending,
)

-- For a valid decoder `Append` succeeds exactly when the undecoded bytes and the new ones fit
-- `max_buffered_bytes`. It then adds the new bytes behind the undecoded ones, whether or not it
-- compacts; otherwise it adds nothing and sets the overflow flag. An open fragment is kept.
pub append_lem :
    (d : WebSocketDecoder) (bytes : List ℕ)
    → IsValid d
    → All IsByte bytes
    → let (done, e) = append d bytes in
      (Fits d bytes × (done ≡ true) × Extends d bytes e × (e.limit_exceeded ≡ d.limit_exceeded))
      ⊎ (¬ Fits d bytes × (done ≡ false) × Extends d [] e × (e.limit_exceeded ≡ true))
unfolding append
append_lem d bytes v h = append_compacted_lem d _ bytes h (compact-Compacted d v)
