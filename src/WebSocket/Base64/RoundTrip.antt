-- ===== src/WebSocket/Base64/RoundTrip.antt =====
-- The encoder against a decoder by `Base64Value`.
use iocp_engine.Base.{
  ℕ, ◌+◌, ◌*◌, ◌/◌, ◌%◌, ◌^◌, ◌<◌, bit_or, ◌≡◌, refl, ap, ap₂, ◌∙◌, Bool, true, false, none, some,
  List, [], ◌∷◌, ◌==◌, if◌then◌else◌, length, get_or, All, IsByte, arith,
}
use iocp_engine.Base.Bits.{bit_or-field, bit_and-mask, same_below, same_below_sound}
use iocp_engine.WebSocket.Base64.{alphabet, letter, base64_encode, base64_value}

-- The number that a letter stands for; `=` and all else stand for 0.
abbrev pub digit_of : ℕ → ℕ
digit_of c = elim (base64_value c) [ none ↦ 0 | some d ↦ d ]

-- Four letters are three bytes, or two or one where `=` stands at the end.
abbrev pub decode_group : ℕ → ℕ → ℕ → ℕ → List ℕ → List ℕ
decode_group p q r s rest =
    let value : ℕ = digit_of p * 2 ^ 18 + digit_of q * 2 ^ 12 + digit_of r * 2 ^ 6 + digit_of s in
    if s == b'='
    then if r == b'=' then value / 2 ^ 16 ∷ rest else value / 2 ^ 16 ∷ value / 2 ^ 8 % 256 ∷ rest
    else value / 2 ^ 16 ∷ value / 2 ^ 8 % 256 ∷ value % 256 ∷ rest

unfoldable pub decode : List ℕ → List ℕ
decode (p ∷ q ∷ r ∷ s ∷ rest) = decode_group p q r s (decode rest)
decode _ = []

abbrev plain : ℕ → ℕ
plain i = i

-- 64 for a letter that is `=`.
abbrev value_at : ℕ → ℕ
value_at i = if get_or alphabet i 0 == b'=' then 64 else digit_of (get_or alphabet i 0)

letter-value : (i : ℕ) → i < 64 → value_at i ≡ i
unfolding base64_value same_below
letter-value i h = same_below_sound value_at plain 64 refl i h

-- The mask leaves a place of the alphabet.
letter-place : (value k : ℕ) → letter value k ≡ get_or alphabet (value / 2 ^ k % 64) 0
unfolding letter
letter-place value k = ap (λ i. get_or alphabet i 0) (bit_and-mask 6 (value / 2 ^ k))

-- A letter that is not `=`, by its value.
below_sixty_four :
    (is_pad : Bool) (d i : ℕ) → (if is_pad then 64 else d) ≡ i → i < 64 → (d ≡ i) × (is_pad ≡ false)
below_sixty_four true d i e h = absurd (omega arith)
below_sixty_four false d i e h = (e, refl)

letter-digit :
    (value k : ℕ)
    → (digit_of (letter value k) ≡ value / 2 ^ k % 64) × ((letter value k == b'=') ≡ false)
letter-digit value k =
    let i : ℕ = value / 2 ^ k % 64 in
    let small : i < 64 = omega arith in
    rw (letter-place value k) (below_sixty_four _ _ i (letter-value i small) small)

three_bytes :
    (a b c : ℕ)
    → IsByte a
    → IsByte b
    → IsByte c
    → bit_or (bit_or (a * 2 ^ 16) (b * 2 ^ 8)) c ≡ a * 2 ^ 16 + b * 2 ^ 8 + c
three_bytes a b c p q r =
    let e : bit_or (a * 2 ^ 16) (b * 2 ^ 8) ≡ a * 2 ^ 16 + b * 2 ^ 8 =
      bit_or-field 16 a (b * 2 ^ 8) (omega arith) in
    let f : a * 2 ^ 16 + b * 2 ^ 8 ≡ (a * 2 ^ 8 + b) * 2 ^ 8 = omega arith in
    rw (e, f) (bit_or-field 8 (a * 2 ^ 8 + b) c r)

-- The four digits of a group.
four_digits :
    (value : ℕ)
    → value < 2 ^ 24
    → value / 2 ^ 18 % 64 * 2 ^ 18
        + value / 2 ^ 12 % 64 * 2 ^ 12
        + value / 2 ^ 6 % 64 * 2 ^ 6
        + value / 2 ^ 0 % 64
      ≡ value
four_digits value h = omega arith

decode_four :
    (value : ℕ) (rest : List ℕ)
    → value < 2 ^ 24
    → decode_group (letter value 18) (letter value 12) (letter value 6) (letter value 0) rest
      ≡ value / 2 ^ 16 ∷ value / 2 ^ 8 % 256 ∷ value % 256 ∷ rest
decode_four value rest h =
    rw
      (
        (letter-digit value 18).0,
        (letter-digit value 12).0,
        (letter-digit value 6).0,
        (letter-digit value 0).0,
        (letter-digit value 0).1,
        four_digits value h,
      )
      refl

decode_three :
    (value : ℕ)
    → value < 2 ^ 24
    → value % 2 ^ 6 ≡ 0
    → decode_group (letter value 18) (letter value 12) (letter value 6) b'=' []
      ≡ value / 2 ^ 16 ∷ value / 2 ^ 8 % 256 ∷ []
unfolding base64_value
decode_three value h e =
    let sum : value / 2 ^ 18 % 64 * 2 ^ 18
          + value / 2 ^ 12 % 64 * 2 ^ 12
          + value / 2 ^ 6 % 64 * 2 ^ 6
          + 0
        ≡ value =
      omega arith in
    rw
      (
        (letter-digit value 18).0,
        (letter-digit value 12).0,
        (letter-digit value 6).0,
        (letter-digit value 6).1,
        sum,
      )
      refl

decode_two :
    (value : ℕ)
    → value < 2 ^ 24
    → value % 2 ^ 12 ≡ 0
    → decode_group (letter value 18) (letter value 12) b'=' b'=' [] ≡ value / 2 ^ 16 ∷ []
unfolding base64_value
decode_two value h e =
    let sum : value / 2 ^ 18 % 64 * 2 ^ 18 + value / 2 ^ 12 % 64 * 2 ^ 12 + 0 * 2 ^ 6 + 0 ≡ value =
      omega arith in
    rw ((letter-digit value 18).0, (letter-digit value 12).0, sum) refl

bytes_again :
    (a b c : ℕ) (rest decoded : List ℕ)
    → All IsByte (a ∷ b ∷ c ∷ rest)
    → decoded ≡ rest
    → (a * 2 ^ 16 + b * 2 ^ 8 + c) / 2 ^ 16
        ∷ (a * 2 ^ 16 + b * 2 ^ 8 + c) / 2 ^ 8 % 256
        ∷ (a * 2 ^ 16 + b * 2 ^ 8 + c) % 256
        ∷ decoded
      ≡ a ∷ b ∷ c ∷ rest
bytes_again a b c rest decoded h e =
    let first : (a * 2 ^ 16 + b * 2 ^ 8 + c) / 2 ^ 16 ≡ a = omega arith in
    let second : (a * 2 ^ 16 + b * 2 ^ 8 + c) / 2 ^ 8 % 256 ≡ b = omega arith in
    let third : (a * 2 ^ 16 + b * 2 ^ 8 + c) % 256 ≡ c = omega arith in
    rw (first, second, third, e) refl

-- Decoding what the encoder made of bytes gives the bytes back, and the encoder makes four letters of
-- each three bytes that it has begun.
pub decode-base64_encode :
    (bytes : List ℕ)
    → All IsByte bytes
    → (decode (base64_encode bytes) ≡ bytes)
      × (length (base64_encode bytes) ≡ 4 * ((length bytes + 2) / 3))
unfolding decode base64_encode
decode-base64_encode [] h = (refl, refl)
decode-base64_encode (a ∷ []) h = (
  decode_two (a * 2 ^ 16) (omega arith) (omega arith) ∙ ap (λ (t : ℕ). t ∷ []) (omega arith),
  refl,
)
decode-base64_encode (a ∷ b ∷ []) h =
    let e : bit_or (a * 2 ^ 16) (b * 2 ^ 8) ≡ a * 2 ^ 16 + b * 2 ^ 8 =
      bit_or-field 16 a (b * 2 ^ 8) (omega arith) in
    (
      rw e (
          decode_three (a * 2 ^ 16 + b * 2 ^ 8) (omega arith) (omega arith)
          ∙ ap₂ (λ (t u : ℕ). t ∷ u ∷ []) (omega arith) (omega arith)),
      refl,
    )
decode-base64_encode (a ∷ b ∷ c ∷ rest) h =
    let e = three_bytes a b c h.0 h.1.0 h.1.1.0 in
    let next = decode-base64_encode rest h.1.1.1 in
    (
      rw e (
          decode_four (a * 2 ^ 16 + b * 2 ^ 8 + c) (decode (base64_encode rest)) (omega arith)
          ∙ bytes_again a b c rest _ h next.0),
      omega (arith, next.1),
    )
