-- ===== src/WebSocket/Decoder/Header.antt =====
-- How `Next` reads the header of a frame.
use iocp_engine.Base.{
  ℕ, ◌+◌, ◌*◌, ◌/◌, ◌%◌, ◌^◌, ◌≤◌, ◌<◌, ◌≡◌, refl, ap, ◌∙◌, bit_and, bit_or, Bool, true, false, not,
  List, [], ◌∷◌, ◌++◌, leb, ◌==◌, if◌then◌else◌, length, take, drop, dec_le, arith,
}
use iocp_engine.Base.Bits.{bit_and-mask, bit_or-field, byte_top, byte_reserved}
use iocp_engine.WebSocket.{
  WsOpcode, continuation, text, binary, close, ping, pong, unknown, opcode_of, opcode_value,
  is_known_opcode,
}
use iocp_engine.WebSocket.Decoder.{
  WebSocketDecoder, sizes, or_bytes, payload_size, check_sizes, next_frame,
}
use iocp_engine.WebSocket.Decoder.Invariant.{pending, IsValid}
use iocp_engine.WebSocket.Decoder.Payload.{buffered_bytes_lem}
use iocp_engine.WebSocket.Decoder.Wire.{flag, header}

opcode_of-value :
    (op : WsOpcode)
    → is_known_opcode op ≡ true
    → (opcode_of (opcode_value op) ≡ op) × (opcode_value op < 16)
unfolding opcode_of opcode_value is_known_opcode
opcode_of-value continuation k = (refl, omega arith)
opcode_of-value text k = (refl, omega arith)
opcode_of-value binary k = (refl, omega arith)
opcode_of-value close k = (refl, omega arith)
opcode_of-value ping k = (refl, omega arith)
opcode_of-value pong k = (refl, omega arith)
opcode_of-value (unknown n) k = absurd (cc)

first_byte :
    (fin : Bool) (v : ℕ)
    → v < 16
    → let b = flag fin + v in
      (bit_and b 0x0f ≡ v) × (bit_and b 0x70 ≡ 0) × (not (bit_and b 0x80 == 0) ≡ fin)
first_byte true v h =
    ground (arith, bit_and-mask 4 (128 + v), byte_reserved (128 + v), byte_top (128 + v))
first_byte false v h = ground (arith, bit_and-mask 4 v, byte_reserved v, byte_top v)

second_byte :
    (masked : Bool) (code : ℕ)
    → code < 128
    → let b = flag masked + code in (bit_and b 0x7f ≡ code) × (not (bit_and b 0x80 == 0) ≡ masked)
second_byte true code h = ground (arith, bit_and-mask 7 (128 + code), byte_top (128 + code))
second_byte false code h = ground (arith, bit_and-mask 7 code, byte_top code)

-- The first two bytes.
next_frame_two :
    (d : WebSocketDecoder) (fin : Bool) (op : WsOpcode) (code : ℕ) (tail : List ℕ)
    → IsValid d
    → d.limit_exceeded ≡ false
    → is_known_opcode op ≡ true
    → code < 128
    → pending d ≡ (flag fin + opcode_value op) ∷ (flag d.require_masking + code) ∷ tail
    → next_frame d
      ≡ check_sizes d op fin d.require_masking (payload_size (length (pending d)) code (pending d))
unfolding next_frame
next_frame_two d fin op code tail v f k h e = ground (
  arith,
  buffered_bytes_lem d v,
  ap {B = ℕ} length e,
  opcode_of-value op k,
  first_byte fin (opcode_value op),
  second_byte d.require_masking code h,
)

-- The code that the second byte carries, and the length of a header.
pub length_code : ℕ → ℕ
length_code n = if leb n 125 then n else if leb n 65535 then 126 else 127

unfoldable pub header_length : ℕ → ℕ
header_length n = if leb n 125 then 2 else if leb n 65535 then 4 else 10

pub length-header :
    (fin : Bool) (op : WsOpcode) (masked : Bool) (n : ℕ)
    → length (header fin op masked n) ≡ header_length n
unfolding header header_length
length-header fin op masked n = ground arith

or_step : (size b : ℕ) → size < 2 ^ 56 → b < 256 → bit_or (size * 2 ^ 8 % 2 ^ 64) b ≡ size * 256 + b
or_step size b h k = ground (arith, bit_or-field 8 size b)

or_eight :
    (a b c d e f g h : ℕ) (rest : List ℕ)
    → a < 256
    → b < 256
    → c < 256
    → d < 256
    → e < 256
    → f < 256
    → g < 256
    → h < 256
    → or_bytes 0 (take 8 (a ∷ b ∷ c ∷ d ∷ e ∷ f ∷ g ∷ h ∷ rest))
      ≡ ((((((a * 256 + b) * 256 + c) * 256 + d) * 256 + e) * 256 + f) * 256 + g) * 256 + h
unfolding or_bytes
or_eight a b c d e f g h rest ha hb hc hd he hf hg hh =
    let one : bit_or (0 * 2 ^ 8 % 2 ^ 64) a ≡ a = or_step 0 a (omega arith) ha ∙ omega arith in
    let two = or_step a b (omega arith) hb in
    let three = or_step (a * 256 + b) c (omega arith) hc in
    let four = or_step ((a * 256 + b) * 256 + c) d (omega arith) hd in
    let five = or_step (((a * 256 + b) * 256 + c) * 256 + d) e (omega arith) he in
    let six = or_step ((((a * 256 + b) * 256 + c) * 256 + d) * 256 + e) f (omega arith) hf in
    let seven =
      or_step (((((a * 256 + b) * 256 + c) * 256 + d) * 256 + e) * 256 + f) g (omega arith) hg in
    let eight =
      or_step ((((((a * 256 + b) * 256 + c) * 256 + d) * 256 + e) * 256 + f) * 256 + g) h
        (omega arith) hh in
    rw (one, two, three, four, five, six, seven) eight

-- The 64-bit case, for a number that the eight bytes spell.
wide_size :
    (available n a : ℕ) (x y : ℕ) (more : List ℕ)
    → 10 ≤ available
    → a < 128
    → 65535 < n
    → or_bytes 0 (take 8 (a ∷ more)) ≡ n
    → payload_size available 127 (x ∷ y ∷ a ∷ more) ≡ sizes 10 n
unfolding payload_size
wide_size available n a x y more h k lo e = ground (arith, byte_top a)

eight_digits :
    (n : ℕ)
    → n < 2 ^ 63
    → ((((((n / 2 ^ 56 % 256 * 256 + n / 2 ^ 48 % 256) * 256 + n / 2 ^ 40 % 256) * 256
                        + n / 2 ^ 32 % 256)
                      * 256
                    + n / 2 ^ 24 % 256)
                  * 256
                + n / 2 ^ 16 % 256)
              * 256
            + n / 2 ^ 8 % 256)
          * 256
        + n % 256
      ≡ n
eight_digits n h = omega arith

-- The parts of a header for a payload of more than 65535 bytes.
wide_header :
    (fin : Bool) (op : WsOpcode) (masked : Bool) (n : ℕ)
    → 65535 < n
    → (header fin op masked n
        ≡ (flag fin + opcode_value op)
          ∷ (flag masked + 127)
          ∷ (n / 2 ^ 56 % 256)
          ∷ (n / 2 ^ 48 % 256)
          ∷ (n / 2 ^ 40 % 256)
          ∷ (n / 2 ^ 32 % 256)
          ∷ (n / 2 ^ 24 % 256)
          ∷ (n / 2 ^ 16 % 256)
          ∷ (n / 2 ^ 8 % 256)
          ∷ (n % 256)
          ∷ [])
      × (length_code n ≡ 127)
      × (header_length n ≡ 10)
unfolding header length_code header_length
wide_header fin op masked n h = ground arith

payload_size-narrow :
    (fin : Bool) (op : WsOpcode) (masked : Bool) (n : ℕ) (rest : List ℕ)
    → n ≤ 65535
    → let bytes = header fin op masked n ++ rest in
      payload_size (length bytes) (length_code n) bytes ≡ sizes (header_length n) n
unfolding header payload_size length_code header_length
payload_size-narrow fin op masked n rest h = ground (arith, bit_or-field 8 (n / 256) (n % 256))

payload_size-wide :
    (fin : Bool) (op : WsOpcode) (masked : Bool) (n : ℕ) (rest : List ℕ)
    → n < 2 ^ 63
    → 65535 < n
    → let bytes = header fin op masked n ++ rest in
      payload_size (length bytes) (length_code n) bytes ≡ sizes (header_length n) n
payload_size-wide fin op masked n rest h lo =
    let (shape, code, size) = wide_header fin op masked n lo in
    rw (shape, code, size)
      (wide_size _ n (n / 2 ^ 56 % 256) _ _ _ (omega arith) (omega arith) lo (
        or_eight (n / 2 ^ 56 % 256) (n / 2 ^ 48 % 256) (n / 2 ^ 40 % 256) (n / 2 ^ 32 % 256)
          (n / 2 ^ 24 % 256) (n / 2 ^ 16 % 256) (n / 2 ^ 8 % 256) (n % 256) rest (omega arith)
          (omega arith) (omega arith) (omega arith) (omega arith) (omega arith) (omega arith)
          (omega arith)
        ∙ eight_digits n h))

-- `Next` reads back the length that a header was written for, and the header's own length.
pub payload_size-header :
    (fin : Bool) (op : WsOpcode) (masked : Bool) (n : ℕ) (rest : List ℕ)
    → n < 2 ^ 63
    → let bytes = header fin op masked n ++ rest in
      payload_size (length bytes) (length_code n) bytes ≡ sizes (header_length n) n
payload_size-header fin op masked n rest h = elim (dec_le n 65535) [
  | yes p ↦ payload_size-narrow fin op masked n rest p
  | no p ↦ payload_size-wide fin op masked n rest h (omega arith)
]

header_bytes :
    (fin : Bool) (op : WsOpcode) (masked : Bool) (n : ℕ)
    → (tail : List ℕ) × (header fin op masked n
        ≡ (flag fin + opcode_value op) ∷ (flag masked + length_code n) ∷ tail)
      × (length_code n < 128)
header_bytes fin op masked n = elim (dec_le n 65535) [
  | yes q ↦ (
    drop 2 (header fin op masked n),
    unfold header length_code in ground arith,
    unfold length_code in ground arith,
  )
  | no q ↦
      let (shape, code, size) = wide_header fin op masked n (omega arith) in
      (drop 2 (header fin op masked n), rw (shape, code), rw code (omega arith))
]

-- A whole header, in front of anything: `Next` goes on to check the sizes that it announces.
pub next_frame-header :
    (d : WebSocketDecoder) (fin : Bool) (op : WsOpcode) (n : ℕ) (rest : List ℕ)
    → IsValid d
    → d.limit_exceeded ≡ false
    → is_known_opcode op ≡ true
    → n < 2 ^ 63
    → pending d ≡ header fin op d.require_masking n ++ rest
    → next_frame d ≡ check_sizes d op fin d.require_masking (sizes (header_length n) n)
next_frame-header d fin op n rest v f k h e =
    let (tail, shape, small) = header_bytes fin op d.require_masking n in
    next_frame_two d fin op (length_code n) (tail ++ rest) v f k small
      (e ∙ ap (λ l. l ++ rest) shape)
    ∙ ap (check_sizes d op fin d.require_masking)
        (rw e (payload_size-header fin op d.require_masking n rest h))
