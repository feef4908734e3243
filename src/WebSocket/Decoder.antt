-- ===== src/WebSocket/Decoder.antt =====
-- `WebSocketDecoder`: frames, fragments and control frames out of a byte stream.
pub mod Invariant
pub mod Handlers
pub mod Payload
pub mod Next
pub mod Wire
pub mod Header
pub mod RoundTrip
pub mod Fragments
pub mod Single
pub mod Append
pub mod Progress
mod Tests
use Prim.Native.String.{String}
use iocp_engine.Base.{
  ℕ, zero, suc, ◌+◌, ◌-◌, ◌*◌, ◌/◌, ◌%◌, ◌^◌, bit_and, bit_or, bit_xor, Bool, true, false, not,
  ◌&&◌, ◌||◌, Option, none, some, List, [], ◌∷◌, ◌++◌, ltb, leb, ◌==◌, if◌then◌else◌, length,
  get_or, take, drop,
}
use iocp_engine.Base.Size.{size_mod, add_size, sub_size, mul_size}
use iocp_engine.WebSocket.{
  WsOpcode, continuation, text, binary, opcode_of, is_control_opcode, is_known_opcode,
  WsParseStatus, need_more_data, event_ready, protocol_error, message_too_large,
  buffer_limit_exceeded, WsEventType, WsEvent,
}
use iocp_engine.WebSocket.CloseCode.{is_valid_close_code}
use iocp_engine.WebSocket.Utf8.{is_valid_utf8}

pub record WebSocketDecoder : Type 0 where
  pub max_message_bytes : ℕ
  pub max_buffered_bytes : ℕ
  pub require_masking : Bool
  pub buffer : List ℕ
  pub cursor : ℕ
  pub fragmented : Bool
  pub fragmented_opcode : WsOpcode
  pub fragmented_payload : List ℕ
  pub limit_exceeded : Bool

unfoldable pub new : ℕ → ℕ → Bool → WebSocketDecoder
new max_message max_buffered require_masking = record {
  max_message_bytes = max_message;
  max_buffered_bytes = max_buffered;
  require_masking = require_masking;
  buffer = [];
  cursor = 0;
  fragmented = false;
  fragmented_opcode = continuation;
  fragmented_payload = [];
  limit_exceeded = false;
}

-- `memmove` to the front, then `resize`, leaves the bytes from the cursor on.
unfoldable pub compact_if_useful : WebSocketDecoder → WebSocketDecoder
compact_if_useful d =
    if cursor == 0
    then d
    else if cursor == length buffer
    then record d { buffer = []; cursor = 0 }
    else if leb 4096 cursor && leb (length buffer) (mul_size cursor 2)
    then record d { buffer = drop cursor buffer; cursor = 0 }
    else d
  where
    open d use {buffer, cursor}

unfoldable pub buffered_bytes : WebSocketDecoder → ℕ
buffered_bytes d = sub_size (length d.buffer) d.cursor

unfoldable pub append_compacted : WebSocketDecoder → List ℕ → Bool × WebSocketDecoder
unfolding buffered_bytes
append_compacted d bytes =
    if ltb d.max_buffered_bytes (length bytes)
      || ltb (sub_size d.max_buffered_bytes (length bytes)) (buffered_bytes d)
    then (false, record d { limit_exceeded = true })
    else (true, record d { buffer = d.buffer ++ bytes })

unfoldable pub append : WebSocketDecoder → List ℕ → Bool × WebSocketDecoder
append d bytes = append_compacted (compact_if_useful d) bytes

-- `fragmented_opcode_` keeps its value.
unfoldable pub reset : WebSocketDecoder → WebSocketDecoder
reset d = record d {
  buffer = [];
  cursor = 0;
  fragmented = false;
  fragmented_payload = [];
  limit_exceeded = false;
}

-- What `Next` returns, with its two output parameters and the new object.
pub record Outcome : Type 0 where
  pub status : WsParseStatus
  pub event : WsEvent
  pub error : String
  pub decoder : WebSocketDecoder

abbrev pub no_event : WsEvent
no_event = record { type = WsEventType.binary_message; payload = []; close_code = 1000 }

-- The outcome of one frame: `again` is the call `Next(event, error)` at the end of a fragment.
pub data Round : Type 0 where
  finished : Outcome → Round
  again : WebSocketDecoder → Round

abbrev pub waiting : WebSocketDecoder → Round
waiting d = finished (record { status = need_more_data; event = no_event; error = ""; decoder = d })

abbrev pub failed : WsParseStatus → String → WebSocketDecoder → Round
failed status error d =
    finished (record { status = status; event = no_event; error = error; decoder = d })

abbrev pub ready : WsEventType → List ℕ → WebSocketDecoder → Round
ready type payload d = finished (record {
  status = event_ready;
  event = record { type = type; payload = payload; close_code = 1000 };
  error = "";
  decoder = d;
})

-- `payload_size = (payload_size << 8U) | byte`, for each byte.
unfoldable pub or_bytes : ℕ → List ℕ → ℕ
or_bytes size [] = size
or_bytes size (byte ∷ bytes) = or_bytes (bit_or (size * 2 ^ 8 % size_mod) byte) bytes

-- The lengths that the header announces: its own, before the mask, and the payload's.
pub data PayloadSize : Type 0 where
  short : PayloadSize
  bad : String → PayloadSize
  sizes : ℕ → ℕ → PayloadSize

unfoldable pub payload_size : ℕ → ℕ → List ℕ → PayloadSize
unfolding or_bytes
payload_size available length_code bytes =
    if length_code == 126
    then if ltb available 4
      then short
      else if ltb size16 126
      then bad "non-canonical 16-bit WebSocket length"
      else sizes 4 size16
    else if length_code == 127
    then if ltb available 10
      then short
      else if not (bit_and (get_or bytes 2 0) 0x80 == 0)
      then bad "WebSocket 64-bit length has reserved high bit set"
      else if leb size64 65535
      then bad "non-canonical 64-bit WebSocket length"
      else sizes 10 size64
    else sizes 2 length_code
  where
    size16 : ℕ
    size16 = bit_or (get_or bytes 2 0 * 2 ^ 8) (get_or bytes 3 0)

    size64 : ℕ
    size64 = or_bytes 0 (take 8 (drop 2 bytes))

-- `source[index] ^ mask[index % 4]`, from `index` on.
unfoldable pub unmask : List ℕ → ℕ → List ℕ → List ℕ
unmask mask index [] = []
unmask mask index (byte ∷ bytes) =
    bit_xor byte (get_or mask (index % 4) 0) ∷ unmask mask (index + 1) bytes

-- A close frame: `payload` holds the code and the reason.
unfoldable pub handle_close : WebSocketDecoder → List ℕ → Round
handle_close d payload =
    if length payload == 1
    then failed protocol_error "WebSocket close payload cannot contain one byte" d
    else if leb 2 (length payload)
    then if not (is_valid_close_code code) || not (is_valid_utf8 (drop 2 payload))
      then finished (record {
        status = protocol_error;
        event = closing code;
        error = "WebSocket close code or reason is invalid";
        decoder = d;
      })
      else finished (record { status = event_ready; event = closing code; error = ""; decoder = d })
    else finished (record { status = event_ready; event = closing 1000; error = ""; decoder = d })
  where
    code : ℕ
    code = bit_or (get_or payload 0 0 * 2 ^ 8 % 2 ^ 16) (get_or payload 1 0)

    closing : ℕ → WsEvent
    closing c = record { type = WsEventType.close; payload = payload; close_code = c }

unfoldable pub last_fragment : WebSocketDecoder → List ℕ → WsOpcode → Round
last_fragment d assembled binary = ready WsEventType.binary_message assembled d
last_fragment d assembled _ = failed protocol_error "text messages are not supported" d

unfoldable pub handle_continuation : WebSocketDecoder → Bool → List ℕ → Round
unfolding last_fragment
handle_continuation d fin payload =
    if not d.fragmented
    then failed protocol_error "unexpected WebSocket continuation frame" d
    else if ltb (sub_size d.max_message_bytes (length d.fragmented_payload)) (length payload)
    then failed message_too_large "assembled WebSocket message exceeds configured limit" d
    else if not fin
    then again (record d { fragmented_payload = assembled })
    else last_fragment (record d { fragmented = false; fragmented_payload = [] }) assembled
        d.fragmented_opcode
  where
    assembled : List ℕ
    assembled = d.fragmented_payload ++ payload

unfoldable pub handle_binary : WebSocketDecoder → Bool → List ℕ → Round
handle_binary d fin payload =
    if d.fragmented
    then failed protocol_error "new data frame received during fragmented message" d
    else if not fin
    then again
        (record d { fragmented = true; fragmented_opcode = binary; fragmented_payload = payload })
    else ready WsEventType.binary_message payload d

-- The part of `Next` behind `cursor_ += total_size`. An unknown opcode does not get here.
unfoldable pub handle_frame : WebSocketDecoder → WsOpcode → Bool → List ℕ → Round
unfolding handle_close handle_continuation handle_binary
handle_frame d text fin payload =
    failed protocol_error "text messages are not supported; use binary FlatBuffers" d
handle_frame d continuation fin payload = handle_continuation d fin payload
handle_frame d binary fin payload = handle_binary d fin payload
handle_frame d WsOpcode.ping fin payload = ready WsEventType.ping payload d
handle_frame d WsOpcode.pong fin payload = ready WsEventType.pong payload d
handle_frame d WsOpcode.close fin payload = handle_close d payload
handle_frame d (WsOpcode.unknown n) fin payload = handle_close d payload

-- The payload behind a header of `header_size` bytes, the mask included, is unmasked and handled.
unfoldable pub take_frame : WebSocketDecoder → WsOpcode → Bool → Bool → ℕ → ℕ → Round
unfolding buffered_bytes
take_frame d opcode fin masked header_size size =
    if ltb (sub_size (size_mod - 1) header_size) size
    then failed protocol_error "WebSocket frame length overflows address space" d
    else if ltb (buffered_bytes d) (add_size header_size size)
    then waiting d
    else handle_frame (record d { cursor = add_size d.cursor (add_size header_size size) }) opcode
        fin (if masked then unmask (drop (header_size - 4) bytes) 0 source else source)
  where
    bytes : List ℕ
    bytes = drop d.cursor d.buffer

    source : List ℕ
    source = take size (drop header_size bytes)

unfoldable pub check_sizes : WebSocketDecoder → WsOpcode → Bool → Bool → PayloadSize → Round
check_sizes d opcode fin masked short = waiting d
check_sizes d opcode fin masked (bad error) = failed protocol_error error d
check_sizes d opcode fin masked (sizes header_size size) =
    if is_control_opcode opcode && (not fin || ltb 125 size)
    then failed protocol_error "fragmented or oversized WebSocket control frame" d
    else if ltb d.max_message_bytes size
    then failed message_too_large "WebSocket message exceeds configured limit" d
    else take_frame d opcode fin masked (if masked then header_size + 4 else header_size) size

-- `Next` up to its recursive calls.
unfoldable pub next_frame : WebSocketDecoder → Round
next_frame d =
    if d.limit_exceeded
    then failed buffer_limit_exceeded "WebSocket receive buffer limit exceeded" d
    else if ltb (buffered_bytes d) 2
    then waiting d
    else if not (bit_and b0 0x70 == 0) || not (is_known_opcode opcode)
    then failed protocol_error "RSV bits or opcode are invalid" d
    else if d.require_masking && not masked
    then failed protocol_error "client WebSocket frames must be masked" d
    else if not d.require_masking && masked
    then failed protocol_error "server WebSocket frames must not be masked" d
    else check_sizes d opcode fin masked (payload_size (buffered_bytes d) (bit_and b1 0x7f) bytes)
  where
    bytes : List ℕ
    bytes = drop d.cursor d.buffer

    b0 : ℕ
    b0 = get_or bytes 0 0

    b1 : ℕ
    b1 = get_or bytes 1 0

    fin : Bool
    fin = not (bit_and b0 0x80 == 0)

    opcode : WsOpcode
    opcode = opcode_of (bit_and b0 0x0f)

    masked : Bool
    masked = not (bit_and b1 0x80 == 0)

-- `none` means that the fuel ran out.
unfoldable pub next_on : ℕ → WebSocketDecoder → Option Outcome
next_on zero d = none
next_on (suc fuel) d = elim (next_frame d) [ finished out ↦ some out | again d' ↦ next_on fuel d' ]

-- Each round takes a header off the buffered bytes, so these are enough.
unfoldable pub next : WebSocketDecoder → Option Outcome
next d = next_on (suc (length d.buffer)) d
