-- ===== src/WebSocket/Decoder/Next.antt =====
-- `Next` on any valid decoder.
use iocp_engine.Base.{
  ℕ, zero, suc, ◌+◌, ◌-◌, ◌≤◌, ◌<◌, ◌≡◌, refl, subst, ap, bit_and, Bool, true, not, List, ◌==◌,
  if◌then◌else◌, length, get_or, arith, Option, some,
}
use iocp_engine.WebSocket.{WsOpcode, opcode_of, is_known_opcode}
use iocp_engine.WebSocket.Decoder.{
  WebSocketDecoder, buffered_bytes, Outcome, Round, finished, again, PayloadSize, short, bad, sizes,
  payload_size, check_sizes, next_frame, next_on, next,
}
use iocp_engine.WebSocket.Decoder.Invariant.{pending, IsValid, Stays, StatusFits, RoundFits}
use iocp_engine.WebSocket.Decoder.Payload.{self-Stays, take_frame-RoundFits}

-- A header without its mask is of 2, 4 or 10 bytes.
abbrev pub SizesFit : PayloadSize → Type 0
SizesFit (sizes header_size size) = (2 ≤ header_size) × (header_size ≤ 10)
SizesFit _ = Unit

check_sizes-RoundFits :
    (d : WebSocketDecoder) (opcode : WsOpcode) (fin masked : Bool) (p : PayloadSize)
    → IsValid d
    → is_known_opcode opcode ≡ true
    → SizesFit p
    → RoundFits d (check_sizes d opcode fin masked p)
unfolding check_sizes
check_sizes-RoundFits d opcode fin masked short v k h = (self-Stays d v, tt)
check_sizes-RoundFits d opcode fin masked (bad error) v k h = (self-Stays d v, tt)
check_sizes-RoundFits d opcode fin masked (sizes header_size size) v k h = ground (
  arith,
  self-Stays d v,
  take_frame-RoundFits d opcode fin masked (if masked then header_size + 4 else header_size) size v
      k,
)

pub payload_size-SizesFit :
    (available code : ℕ) (bytes : List ℕ) → SizesFit (payload_size available code bytes)
unfolding payload_size
payload_size-SizesFit available code bytes = ground arith

pub next_frame-RoundFits : (d : WebSocketDecoder) → IsValid d → RoundFits d (next_frame d)
unfolding next_frame
next_frame-RoundFits d v =
    let bytes = pending d in
    let opcode = opcode_of (bit_and (get_or bytes 0 0) 0x0f) in
    let sized = payload_size (buffered_bytes d) (bit_and (get_or bytes 1 0) 0x7f) bytes in
    ground (
      arith,
      self-Stays d v,
      check_sizes-RoundFits d opcode (not (bit_and (get_or bytes 0 0) 0x80 == 0))
          (not (bit_and (get_or bytes 1 0) 0x80 == 0)) sized v,
      payload_size-SizesFit (buffered_bytes d) (bit_and (get_or bytes 1 0) 0x7f) bytes,
    )

-- `d` with all that the rounds so far have kept.
Stays-trans : {c d e : WebSocketDecoder} → Stays c d → Stays d e → Stays c e
Stays-trans p q = ground arith

abbrev Answer : WebSocketDecoder → Option Outcome → Type 0
Answer d r =
    (out : Outcome) × (r ≡ some out)
    × Stays d out.decoder
    × StatusFits d.max_message_bytes out.status out.event

next_round :
    (fuel : ℕ) (d : WebSocketDecoder) (r : Round)
    → next_frame d ≡ r
    → RoundFits d r
    → length d.buffer - d.cursor < suc fuel
    → ((b : WebSocketDecoder)
        → IsValid b
        → length b.buffer - b.cursor < fuel
        → Answer b (next_on fuel b))
    → Answer d (next_on (suc fuel) d)
unfolding next_on
next_round fuel d (finished out) e (s, f) h later = (out, rw (next_on, e), s, f)
next_round fuel d (again b) e (s, moved, same) h later =
    let (out, p, t, f) =
      later b s.valid (rw same (omega (arith, s.valid.cursor_in, ap {B = ℕ} length same))) in
    (
      out,
      rw (next_on, e) p,
      Stays-trans s t,
      subst (λ m. StatusFits m out.status out.event) s.same_message_limit f,
    )

next_on-Answer :
    (fuel : ℕ) (d : WebSocketDecoder)
    → IsValid d
    → length d.buffer - d.cursor < fuel
    → Answer d (next_on fuel d)
next_on-Answer zero d v h = absurd (omega arith)
next_on-Answer (suc fuel) d v h =
    next_round fuel d (next_frame d) refl (next_frame-RoundFits d v) h (next_on-Answer fuel)

-- On any valid decoder `Next` ends, within one more round than there are buffered bytes. The
-- decoder that it leaves is valid and has the same configuration. A binary message that it hands out
-- has at most `max_message_bytes` bytes, however many fragments it came in; a ping or a pong has at
-- most 125; a close payload has at most 125 and is empty, with code 1000, or starts with a valid close
-- code, which is the event's, and goes on in valid UTF-8.
pub next_fits :
    (d : WebSocketDecoder)
    → IsValid d
    → (out : Outcome) × (next d ≡ some out)
      × Stays d out.decoder
      × StatusFits d.max_message_bytes out.status out.event
unfolding next
next_fits d v = next_on-Answer (suc (length d.buffer)) d v (omega arith)
