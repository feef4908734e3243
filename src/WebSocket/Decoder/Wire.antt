-- ===== src/WebSocket/Decoder/Wire.antt =====
-- RFC 6455, section 5.2: the bytes of one frame, in place-value arithmetic.
use iocp_engine.Base.{
  ℕ, suc, ◌+◌, ◌/◌, ◌%◌, ◌^◌, ◌≡◌, refl, ap, bit_xor, Bool, true, false, List, [], ◌∷◌, ◌++◌, leb,
  if◌then◌else◌, length,
}
use iocp_engine.WebSocket.{WsOpcode, opcode_value}

-- The length field, behind the mask bit `base` (128 or 0): 7 bits, or 16, or 64, whichever is least.
abbrev pub length_field : ℕ → ℕ → List ℕ
length_field base n =
    if leb n 125
    then (base + n) ∷ []
    else if leb n 65535
    then (base + 126) ∷ (n / 256) ∷ (n % 256) ∷ []
    else (base + 127)
      ∷ (n / 2 ^ 56 % 256)
      ∷ (n / 2 ^ 48 % 256)
      ∷ (n / 2 ^ 40 % 256)
      ∷ (n / 2 ^ 32 % 256)
      ∷ (n / 2 ^ 24 % 256)
      ∷ (n / 2 ^ 16 % 256)
      ∷ (n / 2 ^ 8 % 256)
      ∷ (n % 256)
      ∷ []

abbrev pub flag : Bool → ℕ
flag b = if b then 128 else 0

unfoldable pub header : Bool → WsOpcode → Bool → ℕ → List ℕ
header fin opcode masked n = (flag fin + opcode_value opcode) ∷ length_field (flag masked) n

-- The four bytes of a mask.
pub record Mask : Type 0 where
  pub m0 : ℕ
  pub m1 : ℕ
  pub m2 : ℕ
  pub m3 : ℕ

abbrev pub mask_bytes : Mask → List ℕ
mask_bytes m = m.m0 ∷ m.m1 ∷ m.m2 ∷ m.m3 ∷ []

-- Each byte goes out under the next byte of the mask, in turn.
unfoldable pub cycle_xor : ℕ → ℕ → ℕ → ℕ → List ℕ → List ℕ
cycle_xor a b c d [] = []
cycle_xor a b c d (x ∷ xs) = bit_xor x a ∷ cycle_xor b c d a xs

-- A frame from a client, with a mask, and one from a server, without.
unfoldable pub client_frame : Bool → WsOpcode → Mask → List ℕ → List ℕ
client_frame fin opcode m payload =
    header fin opcode true (length payload)
    ++ (mask_bytes m ++ cycle_xor m.m0 m.m1 m.m2 m.m3 payload)

unfoldable pub server_frame : Bool → WsOpcode → List ℕ → List ℕ
server_frame fin opcode payload = header fin opcode false (length payload) ++ payload

pub length-cycle_xor : (a b c d : ℕ) (xs : List ℕ) → length (cycle_xor a b c d xs) ≡ length xs
unfolding cycle_xor
length-cycle_xor a b c d [] = refl
length-cycle_xor a b c d (x ∷ xs) = ap suc (length-cycle_xor b c d a xs)
