-- ===== src/WebSocket/Decoder/Progress.antt =====
-- How far a call of `Next` moves the cursor.
use iocp_engine.Base.{
  ℕ, zero, suc, ◌+◌, ◌≤◌, ◌<◌, ◌≡◌, ◌⊎◌, inl, inr, refl, sym, subst, ◌∙◌, bit_and, Bool, true,
  false, not, List, [], ◌++◌, ◌==◌, if◌then◌else◌, length, get_or, dec_le, arith, some,
}
use mathlib.Core.Option.{some-injective}
use iocp_engine.WebSocket.{
  WsOpcode, continuation, text, binary, unknown, opcode_of, WsParseStatus, event_ready,
}
use iocp_engine.WebSocket.Decoder.{
  WebSocketDecoder, buffered_bytes, Outcome, Round, finished, again, PayloadSize, short, bad, sizes,
  payload_size, handle_close, last_fragment, handle_continuation, handle_binary, handle_frame,
  take_frame, check_sizes, next_frame, next_on, next,
}
use iocp_engine.WebSocket.Decoder.Invariant.{pending, IsValid, RoundFits}
use iocp_engine.WebSocket.Decoder.Fragments.{step_finished, step_again}
use iocp_engine.WebSocket.Decoder.Payload.{take_frame_whole, take_frame_part, frame_payload}
use iocp_engine.WebSocket.Decoder.Next.{SizesFit, payload_size-SizesFit, next_frame-RoundFits}

abbrev InPlace : WebSocketDecoder → WebSocketDecoder → Type 0
InPlace d e = (e.cursor ≡ d.cursor) × (e.buffer ≡ d.buffer)

abbrev RoundInPlace : WebSocketDecoder → Round → Type 0
RoundInPlace d (finished out) = InPlace d out.decoder
RoundInPlace d (again e) = InPlace d e

abbrev pub is_ready : WsParseStatus → Bool
is_ready event_ready = true
is_ready _ = false

-- An event leaves fewer bytes to decode.
abbrev pub Moves : WebSocketDecoder → Outcome → Type 0
Moves d out =
    (is_ready out.status ≡ false)
    ⊎ ((out.decoder.buffer ≡ d.buffer) × (d.cursor < out.decoder.cursor))

abbrev RoundMoves : WebSocketDecoder → Round → Type 0
RoundMoves d (finished out) = Moves d out
RoundMoves d (again e) = (e.buffer ≡ d.buffer) × (d.cursor < e.cursor)

handle_close-RoundInPlace :
    (d : WebSocketDecoder) (payload : List ℕ) → RoundInPlace d (handle_close d payload)
unfolding handle_close
handle_close-RoundInPlace d payload = ground arith

last_fragment-RoundInPlace :
    (d e : WebSocketDecoder) (assembled : List ℕ) (opcode : WsOpcode)
    → InPlace d e
    → RoundInPlace d (last_fragment e assembled opcode)
unfolding last_fragment
last_fragment-RoundInPlace d e assembled binary p = p
last_fragment-RoundInPlace d e assembled _ p = p

handle_continuation-RoundInPlace :
    (d : WebSocketDecoder) (fin : Bool) (payload : List ℕ)
    → RoundInPlace d (handle_continuation d fin payload)
unfolding handle_continuation
handle_continuation-RoundInPlace d fin payload = ground (
  arith,
  last_fragment-RoundInPlace d (record d { fragmented = false; fragmented_payload = [] })
      (d.fragmented_payload ++ payload) d.fragmented_opcode (refl, refl),
)

handle_frame-RoundInPlace :
    (d : WebSocketDecoder) (opcode : WsOpcode) (fin : Bool) (payload : List ℕ)
    → RoundInPlace d (handle_frame d opcode fin payload)
unfolding handle_frame
handle_frame-RoundInPlace d text fin payload = (refl, refl)
handle_frame-RoundInPlace d continuation fin payload =
    handle_continuation-RoundInPlace d fin payload
handle_frame-RoundInPlace d binary fin payload = unfold handle_binary in ground arith
handle_frame-RoundInPlace d WsOpcode.ping fin payload = (refl, refl)
handle_frame-RoundInPlace d WsOpcode.pong fin payload = (refl, refl)
handle_frame-RoundInPlace d WsOpcode.close fin payload = handle_close-RoundInPlace d payload
handle_frame-RoundInPlace d (unknown n) fin payload = handle_close-RoundInPlace d payload

behind_moves :
    (d e : WebSocketDecoder) (r : Round)
    → RoundInPlace e r
    → (e.buffer ≡ d.buffer) × (d.cursor < e.cursor)
    → RoundMoves d r
behind_moves d e (finished out) p m = inr (p.1 ∙ m.0, subst (λ n. d.cursor < n) (sym p.0) m.1)
behind_moves d e (again b) p m = (p.1 ∙ m.0, subst (λ n. d.cursor < n) (sym p.0) m.1)

take_frame-RoundMoves :
    (d : WebSocketDecoder) (opcode : WsOpcode) (fin masked : Bool) (header_size size : ℕ)
    → IsValid d
    → 2 ≤ header_size
    → header_size ≤ 14
    → size ≤ d.max_message_bytes
    → RoundMoves d (take_frame d opcode fin masked header_size size)
take_frame-RoundMoves d opcode fin masked header_size size v lo hi fits =
    elim (dec_le (header_size + size) (length (pending d))) [
      | yes whole ↦
          subst (RoundMoves d)
            (sym (take_frame_whole d opcode fin masked header_size size v hi fits whole))
            (behind_moves d (record d { cursor = d.cursor + (header_size + size) }) _
              (handle_frame-RoundInPlace _ opcode fin (frame_payload d masked header_size size))
              (refl, omega arith))
      | no part ↦
          subst (RoundMoves d)
            (sym (take_frame_part d opcode fin masked header_size size v hi fits part)) (inl refl)
    ]

check_sizes-RoundMoves :
    (d : WebSocketDecoder) (opcode : WsOpcode) (fin masked : Bool) (p : PayloadSize)
    → IsValid d
    → SizesFit p
    → RoundMoves d (check_sizes d opcode fin masked p)
unfolding check_sizes
check_sizes-RoundMoves d opcode fin masked short v h = inl refl
check_sizes-RoundMoves d opcode fin masked (bad error) v h = inl refl
check_sizes-RoundMoves d opcode fin masked (sizes header_size size) v h = ground (
  arith,
  take_frame-RoundMoves d opcode fin masked (if masked then header_size + 4 else header_size) size
      v,
)

next_frame-RoundMoves : (d : WebSocketDecoder) → IsValid d → RoundMoves d (next_frame d)
unfolding next_frame
next_frame-RoundMoves d v =
    let bytes = pending d in
    let opcode = opcode_of (bit_and (get_or bytes 0 0) 0x0f) in
    let sized = payload_size (buffered_bytes d) (bit_and (get_or bytes 1 0) 0x7f) bytes in
    ground (
      arith,
      check_sizes-RoundMoves d opcode (not (bit_and (get_or bytes 0 0) 0x80 == 0))
          (not (bit_and (get_or bytes 1 0) 0x80 == 0)) sized v,
      payload_size-SizesFit (buffered_bytes d) (bit_and (get_or bytes 1 0) 0x7f) bytes,
    )

round-Moves :
    (fuel : ℕ) (d : WebSocketDecoder) (r : Round) (out : Outcome)
    → next_frame d ≡ r
    → IsValid d
    → RoundFits d r
    → RoundMoves d r
    → next_on (suc fuel) d ≡ some out
    → ((b : WebSocketDecoder) → IsValid b → next_on fuel b ≡ some out → Moves b out)
    → Moves d out
round-Moves fuel d (finished o) out e v f m n later =
    let same : o ≡ out = some-injective _ _ (sym (step_finished fuel d o e) ∙ n) in
    subst (Moves d) same m
round-Moves fuel d (again b) out e v f m n later =
    let w : Moves b out = later b f.0.valid (sym (step_again fuel d b e) ∙ n) in
    ground (arith, w, m)

next_on-Moves :
    (fuel : ℕ) (d : WebSocketDecoder) (out : Outcome)
    → IsValid d
    → next_on fuel d ≡ some out
    → Moves d out
unfolding next_on
next_on-Moves zero d out v e = absurd (cc)
next_on-Moves (suc fuel) d out v e =
    round-Moves fuel d (next_frame d) out refl v (next_frame-RoundFits d v)
      (next_frame-RoundMoves d v) e (λ b w f. next_on-Moves fuel b out w f)

pub next-Moves :
    (d : WebSocketDecoder) (out : Outcome) → IsValid d → next d ≡ some out → Moves d out
unfolding next
next-Moves d out v e = next_on-Moves (suc (length d.buffer)) d out v e
