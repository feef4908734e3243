-- ===== src/WebSocket/Decoder/Fragments.antt =====
-- Binary messages in fragments.
use iocp_engine.Base.{
  ℕ, zero, suc, ◌+◌, ◌-◌, ◌^◌, ◌≤◌, ◌<◌, ◌≡◌, inl, refl, sym, subst, ap, ◌∙◌, Bool, true, false,
  List, [], ◌∷◌, ◌++◌, length, length-append, drop, arith, append_assoc, Option, some, drop-append,
  drop-drop,
}
use iocp_engine.WebSocket.{
  continuation, binary, is_control_opcode, is_known_opcode, WsEventType, event_ready,
}
use iocp_engine.WebSocket.Decoder.{
  WebSocketDecoder, Outcome, finished, again, ready, handle_frame, next_frame, next_on, next,
  handle_binary, handle_continuation, last_fragment,
}
use iocp_engine.WebSocket.Decoder.Invariant.{pending, IsValid, RoundFits}
use iocp_engine.WebSocket.Decoder.Wire.{Mask}
use iocp_engine.WebSocket.Decoder.Next.{next_frame-RoundFits}
use iocp_engine.WebSocket.Decoder.RoundTrip.{wire, past, next_frame-wire}

-- A fragment and the mask that it is sent under.
abbrev pub Fragment : Type 0
Fragment = Mask × List ℕ

-- Continuation frames, the last one final.
abbrev pub continued : Bool → List Fragment → Fragment → List ℕ
continued masked [] (m, p) = wire masked true continuation m p
continued masked ((m, p) ∷ fs) last = wire masked false continuation m p ++ continued masked fs last

-- A message in two fragments or more.
abbrev pub fragmented_message : Bool → Fragment → List Fragment → Fragment → List ℕ
fragmented_message masked (m, p) fs last = wire masked false binary m p ++ continued masked fs last

abbrev pub assembled : List Fragment → Fragment → List ℕ
assembled [] (m, p) = p
assembled ((m, p) ∷ fs) last = p ++ assembled fs last

-- A message is handed out, the bytes behind it wait, and no fragment is open.
pub record Delivered (message rest : List ℕ) (out : Outcome) : Type 0 where
  pub status : out.status ≡ event_ready
  pub type : out.event.type ≡ WsEventType.binary_message
  pub payload : out.event.payload ≡ message
  pub waiting : pending out.decoder ≡ rest
  pub whole : out.decoder.fragmented ≡ false
  pub valid : IsValid out.decoder

pub pending-past :
    (d : WebSocketDecoder) (w rest : List ℕ)
    → pending d ≡ w ++ rest
    → pending (past d (length w)) ≡ rest
pending-past d w rest e =
    sym (drop-drop (length w) d.cursor d.buffer)
    ∙ ap (drop (length w)) e
    ∙ drop-append w rest (length w) refl

continuation_more :
    (e : WebSocketDecoder) (p : List ℕ)
    → e.fragmented ≡ true
    → length e.fragmented_payload + length p ≤ e.max_message_bytes
    → e.max_message_bytes ≤ 2 ^ 61
    → handle_frame e continuation false p
      ≡ again (record e { fragmented_payload = e.fragmented_payload ++ p })
unfolding handle_frame handle_continuation
continuation_more e p f h l = ground arith

continuation_last :
    (e : WebSocketDecoder) (p : List ℕ)
    → e.fragmented ≡ true
    → e.fragmented_opcode ≡ binary
    → length e.fragmented_payload + length p ≤ e.max_message_bytes
    → e.max_message_bytes ≤ 2 ^ 61
    → handle_frame e continuation true p
      ≡ ready WsEventType.binary_message
          (e.fragmented_payload ++ p)
          (record e { fragmented = false; fragmented_payload = [] })
unfolding handle_frame handle_continuation last_fragment
continuation_last e p f o h l = ground arith

pub step_finished :
    (fuel : ℕ) (d : WebSocketDecoder) (out : Outcome)
    → next_frame d ≡ finished out
    → next_on (suc fuel) d ≡ some out
unfolding next_on
step_finished fuel d out e = rw (e, next_on)

pub step_again :
    (fuel : ℕ) (d b : WebSocketDecoder)
    → next_frame d ≡ again b
    → next_on (suc fuel) d ≡ next_on fuel b
unfolding next_on
step_again fuel d b e = rw (e, next_on)

abbrev Delivers : List ℕ → List ℕ → Option Outcome → Type 0
Delivers message rest r = (out : Outcome) × (r ≡ some out) × Delivered message rest out

-- With some fragments taken in, the others follow.
continued_lem :
    (fs : List Fragment) (fuel : ℕ) (d : WebSocketDecoder) (last : Fragment) (rest : List ℕ)
    → IsValid d
    → d.limit_exceeded ≡ false
    → d.fragmented ≡ true
    → d.fragmented_opcode ≡ binary
    → length d.fragmented_payload + length (assembled fs last) ≤ d.max_message_bytes
    → pending d ≡ continued d.require_masking fs last ++ rest
    → length d.buffer - d.cursor < fuel
    → Delivers (d.fragmented_payload ++ assembled fs last) rest (next_on fuel d)
unfolding is_known_opcode is_control_opcode
continued_lem fs zero d last rest v f o b h e k = absurd (omega arith)
continued_lem [] (suc fuel) d (m, p) rest v f o b h e k =
    let w = wire d.require_masking true continuation m p in
    let taken =
      next_frame-wire d true continuation m p rest v f
        (record { known = refl; fits = omega arith; control = inl refl }) e
      ∙ continuation_last (past d (length w)) p o b h v.message_limit in
    let fits = subst (RoundFits d) taken (next_frame-RoundFits d v) in
    (
      _,
      step_finished fuel d _ taken,
      record {
        status = refl;
        type = refl;
        payload = refl;
        waiting = pending-past d w rest e;
        whole = refl;
        valid = fits.0.valid;
      },
    )
continued_lem ((m, p) ∷ fs) (suc fuel) d last rest v f o b h e k =
    let w = wire d.require_masking false continuation m p in
    let front = e ∙ append_assoc w (continued d.require_masking fs last) rest in
    let taken =
      next_frame-wire d false continuation m p (continued d.require_masking fs last ++ rest) v f
        (record {
          known = refl;
          fits = omega (arith, length-append p (assembled fs last));
          control = inl refl;
        })
        front
      ∙ continuation_more (past d (length w)) p o
          (omega (arith, length-append p (assembled fs last))) v.message_limit in
    let fits = subst (RoundFits d) taken (next_frame-RoundFits d v) in
    let b' : WebSocketDecoder = record (past d (length w)) {
      fragmented_payload = d.fragmented_payload ++ p;
    } in
    let later =
      continued_lem fs fuel b' last rest fits.0.valid f o b
        (omega (arith, length-append p (assembled fs last), length-append d.fragmented_payload p))
        (pending-past d w (continued d.require_masking fs last ++ rest) front)
        (omega (arith, fits.1)) in
    (later.0, step_again fuel d b' taken ∙ later.1, same_message later.2)
  where
    same_message :
        {out : Outcome}
        → Delivered ((d.fragmented_payload ++ p) ++ assembled fs last) rest out
        → Delivered (d.fragmented_payload ++ (p ++ assembled fs last)) rest out
    same_message x = rw (append_assoc d.fragmented_payload p (assembled fs last)) at x

binary_first :
    (e : WebSocketDecoder) (p : List ℕ)
    → e.fragmented ≡ false
    → handle_frame e binary false p
      ≡ again (record e { fragmented = true; fragmented_opcode = binary; fragmented_payload = p })
unfolding handle_frame handle_binary
binary_first e p f = ground arith

-- A binary message that its sender cut into two or more fragments, each frame under its own mask
-- where masks are required, comes out of one call of `Next` as the fragments' payloads in order. The
-- bytes behind it stay undecoded. The conditions: the decoder is valid, has not overflowed and has no
-- open fragment, and the message is not longer than `max_message_bytes`.
pub next-fragmented_message :
    (d : WebSocketDecoder) (first : Fragment) (fs : List Fragment) (last : Fragment) (rest : List ℕ)
    → IsValid d
    → d.limit_exceeded ≡ false
    → d.fragmented ≡ false
    → length (assembled (first ∷ fs) last) ≤ d.max_message_bytes
    → pending d ≡ fragmented_message d.require_masking first fs last ++ rest
    → (out : Outcome) × (next d ≡ some out) × Delivered (assembled (first ∷ fs) last) rest out
unfolding next is_known_opcode is_control_opcode
next-fragmented_message d (m, p) fs last rest v f o h e =
    let w = wire d.require_masking false binary m p in
    let front = e ∙ append_assoc w (continued d.require_masking fs last) rest in
    let taken =
      next_frame-wire d false binary m p (continued d.require_masking fs last ++ rest) v f
        (record {
          known = refl;
          fits = omega (arith, length-append p (assembled fs last));
          control = inl refl;
        })
        front
      ∙ binary_first (past d (length w)) p o in
    let fits = subst (RoundFits d) taken (next_frame-RoundFits d v) in
    let b' : WebSocketDecoder = record (past d (length w)) {
      fragmented = true;
      fragmented_opcode = binary;
      fragmented_payload = p;
    } in
    let later =
      continued_lem fs (length d.buffer) b' last rest fits.0.valid f refl refl
        (omega (arith, length-append p (assembled fs last)))
        (pending-past d w (continued d.require_masking fs last ++ rest) front)
        (omega (arith, fits.1, fits.0.valid.cursor_in)) in
    (later.0, step_again (length d.buffer) d b' taken ∙ later.1, later.2)
