-- ===== src/WebSocket/Decoder/RoundTrip.antt =====
-- The reading of a frame that was written: its opcode, its payload, and what follows it.
use iocp_engine.Base.{
  ℕ, ◌+◌, ◌-◌, ◌%◌, ◌≤◌, ◌≡◌, ◌⊎◌, inl, inr, refl, sym, ap, ap₂, ◌∙◌, Bool, true, false, List, [],
  ◌∷◌, ◌++◌, if◌then◌else◌, length, length-append, drop, get_or, arith, append_assoc, take-append,
  drop-append, drop-drop, Bool-cases,
}
use iocp_engine.Base.Bits.{bit_xor_twice}
use iocp_engine.WebSocket.{WsOpcode, is_control_opcode, is_known_opcode}
use iocp_engine.WebSocket.Decoder.{
  WebSocketDecoder, Round, sizes, unmask, handle_frame, take_frame, check_sizes, next_frame,
}
use iocp_engine.WebSocket.Decoder.Invariant.{pending, IsValid}
use iocp_engine.WebSocket.Decoder.Payload.{frame_payload, take_frame_whole}
use iocp_engine.WebSocket.Decoder.Wire.{
  header, Mask, mask_bytes, cycle_xor, client_frame, server_frame, length-cycle_xor,
}
use iocp_engine.WebSocket.Decoder.Header.{header_length, length-header, next_frame-header}

-- Unmasking from index `i` on undoes the mask, turned by `i`.
unmask-cycle_xor_from :
    (mask : List ℕ) (xs : List ℕ) (i : ℕ)
    → let at = λ (k : ℕ). get_or mask ((i + k) % 4) 0 in
      unmask mask i (cycle_xor (at 0) (at 1) (at 2) (at 3) xs) ≡ xs
unfolding unmask cycle_xor
unmask-cycle_xor_from mask [] i = refl
unmask-cycle_xor_from mask (x ∷ xs) i =
    let e0 : (i + 0) % 4 ≡ i % 4 = omega arith in
    let e1 : (i + 1) % 4 ≡ (i + 1 + 0) % 4 = omega arith in
    let e2 : (i + 2) % 4 ≡ (i + 1 + 1) % 4 = omega arith in
    let e3 : (i + 3) % 4 ≡ (i + 1 + 2) % 4 = omega arith in
    let e4 : i % 4 ≡ (i + 1 + 3) % 4 = omega arith in
    ap₂ ◌∷◌ (rw e0 (bit_xor_twice x (get_or mask (i % 4) 0)))
      (rw (e1, e2, e3, e0, e4) (unmask-cycle_xor_from mask xs (i + 1)))

pub unmask-cycle_xor :
    (m : Mask) (rest xs : List ℕ)
    → unmask (mask_bytes m ++ rest) 0 (cycle_xor m.m0 m.m1 m.m2 m.m3 xs) ≡ xs
unmask-cycle_xor m rest xs = unmask-cycle_xor_from (mask_bytes m ++ rest) xs 0

-- What the peer must respect for `Next` to reach the payload.
pub record Sendable (d : WebSocketDecoder) (fin : Bool) (op : WsOpcode) (payload : List ℕ)
    : Type 0 where
  pub known : is_known_opcode op ≡ true
  pub fits : length payload ≤ d.max_message_bytes
  pub control : (is_control_opcode op ≡ false) ⊎ (fin ≡ true) × (length payload ≤ 125)

-- The wire form that a decoder expects: with a mask from clients, without from servers.
abbrev pub wire : Bool → Bool → WsOpcode → Mask → List ℕ → List ℕ
wire masked fin op m payload =
    if masked then client_frame fin op m payload else server_frame fin op payload

check_sizes_pass :
    (d : WebSocketDecoder) (fin : Bool) (op : WsOpcode) (masked : Bool) (h n : ℕ)
    → n ≤ d.max_message_bytes
    → (is_control_opcode op ≡ false) ⊎ (fin ≡ true) × (n ≤ 125)
    → check_sizes d op fin masked (sizes h n)
      ≡ take_frame d op fin masked (if masked then h + 4 else h) n
unfolding check_sizes
check_sizes_pass d fin op masked h n fits control = ground arith

-- The decoder behind a frame.
abbrev pub past : WebSocketDecoder → ℕ → WebSocketDecoder
past d n = record d { cursor = d.cursor + n }

header_length_bounds : (n : ℕ) → (2 ≤ header_length n) × (header_length n ≤ 10)
unfolding header_length
header_length_bounds n = ground arith

client_frame_taken :
    (d : WebSocketDecoder) (fin : Bool) (op : WsOpcode) (m : Mask) (payload rest : List ℕ)
    → IsValid d
    → d.limit_exceeded ≡ false
    → d.require_masking ≡ true
    → Sendable d fin op payload
    → pending d ≡ client_frame fin op m payload ++ rest
    → next_frame d ≡ handle_frame (past d (length (client_frame fin op m payload))) op fin payload
unfolding client_frame
client_frame_taken d fin op m payload rest v f b s e =
    let n = length payload in
    let body = cycle_xor m.m0 m.m1 m.m2 m.m3 payload in
    let h = header_length n in
    let hd = header fin op true n in
    let split : pending d ≡ hd ++ ((mask_bytes m ++ body) ++ rest) =
      e ∙ append_assoc hd (mask_bytes m ++ body) rest in
    let size : length hd ≡ h = length-header fin op true n in
    let total : length (client_frame fin op m payload) ≡ h + 4 + n = omega (
      arith,
      length-append hd (mask_bytes m ++ body),
      length-append (mask_bytes m) body,
      length-cycle_xor m.m0 m.m1 m.m2 m.m3 payload,
      size,
    ) in
    let at_mask : drop h (pending d) ≡ mask_bytes m ++ (body ++ rest) =
      ap (drop h) split ∙ drop-append hd ((mask_bytes m ++ body) ++ rest) h (sym size) in
    let at_body : drop (h + 4) (pending d) ≡ body ++ rest =
      sym (drop-drop 4 h (pending d)) ∙ ap (drop 4) at_mask in
    let whole : h + 4 + n ≤ length (pending d) =
      omega
        (arith, ap {B = ℕ} length e, length-append (client_frame fin op m payload) rest, total) in
    let unmasked : frame_payload d true (h + 4) n ≡ payload =
      rw
        (
          at_body,
          take-append body rest n (sym (length-cycle_xor m.m0 m.m1 m.m2 m.m3 payload)),
          (let q : h + 4 - 4 ≡ h = omega arith in q),
          at_mask,
        )
        (unmask-cycle_xor m (body ++ rest) payload) in
    next_frame-header d fin op n ((mask_bytes m ++ body) ++ rest) v f s.known
      (omega (arith, v.message_limit, s.fits)) (rw b split)
    ∙ ap (λ k. check_sizes d op fin k (sizes h n)) b
    ∙ check_sizes_pass d fin op true h n s.fits s.control
    ∙ take_frame_whole d op fin true (h + 4) n v (omega (arith, header_length_bounds n)) s.fits
        whole
    ∙ rw (unmasked, total)

server_frame_taken :
    (d : WebSocketDecoder) (fin : Bool) (op : WsOpcode) (payload rest : List ℕ)
    → IsValid d
    → d.limit_exceeded ≡ false
    → d.require_masking ≡ false
    → Sendable d fin op payload
    → pending d ≡ server_frame fin op payload ++ rest
    → next_frame d ≡ handle_frame (past d (length (server_frame fin op payload))) op fin payload
unfolding server_frame
server_frame_taken d fin op payload rest v f b s e =
    let n = length payload in
    let h = header_length n in
    let hd = header fin op false n in
    let split : pending d ≡ hd ++ (payload ++ rest) = e ∙ append_assoc hd payload rest in
    let size : length hd ≡ h = length-header fin op false n in
    let total : length (server_frame fin op payload) ≡ h + n =
      omega (arith, length-append hd payload, size) in
    let at_body : drop h (pending d) ≡ payload ++ rest =
      ap (drop h) split ∙ drop-append hd (payload ++ rest) h (sym size) in
    let whole : h + n ≤ length (pending d) =
      omega (arith, ap {B = ℕ} length e, length-append (server_frame fin op payload) rest, total) in
    let plain : frame_payload d false h n ≡ payload =
      rw at_body (take-append payload rest n refl) in
    next_frame-header d fin op n (payload ++ rest) v f s.known
      (omega (arith, v.message_limit, s.fits)) (rw b split)
    ∙ ap (λ k. check_sizes d op fin k (sizes h n)) b
    ∙ check_sizes_pass d fin op false h n s.fits s.control
    ∙ take_frame_whole d op fin false h n v (omega (arith, header_length_bounds n)) s.fits whole
    ∙ rw (plain, total)

-- For any valid decoder whose undecoded bytes start with a frame in the form that it expects, `Next`
-- reads the opcode and the payload that were sent, the mask undone, and moves behind the frame.
pub next_frame-wire :
    (d : WebSocketDecoder) (fin : Bool) (op : WsOpcode) (m : Mask) (payload rest : List ℕ)
    → IsValid d
    → d.limit_exceeded ≡ false
    → Sendable d fin op payload
    → pending d ≡ wire d.require_masking fin op m payload ++ rest
    → next_frame d
      ≡ handle_frame (past d (length (wire d.require_masking fin op m payload))) op fin payload
next_frame-wire d fin op m payload rest v f s e = elim (Bool-cases d.require_masking) [
  | inl b ↦
      client_frame_taken d fin op m payload rest v f b s (e ∙ ap (form rest) b) ∙ ap behind (sym b)
  | inr b ↦
      server_frame_taken d fin op payload rest v f b s (e ∙ ap (form rest) b) ∙ ap behind (sym b)
]
  where
    form : List ℕ → Bool → List ℕ
    form tail k = wire k fin op m payload ++ tail

    behind : Bool → Round
    behind k = handle_frame (past d (length (wire k fin op m payload))) op fin payload
