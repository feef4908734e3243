-- ===== src/Framing/Encode.antt =====
-- `EncodeLength` writes the prefix that the stream format asks for.
use iocp_engine.Base.{
  ℕ, ◌/◌, ◌^◌, ◌≤◌, ◌<◌, ◌≡◌, ◌⊎◌, none, some, List, ◌++◌, arith, length, All, IsByte,
}
use iocp_engine.Base.Bits.{bit_and-mask}
use iocp_engine.Framing.{encode_length, message_ready}
use iocp_engine.Framing.Stream.{prefix, decode, decode-frame, frame, Fits}

-- Below 2 ^ 32 the four bytes are the place-value digits of the length; from there on it throws.
pub encode_length-prefix :
    (n : ℕ)
    → (n < 2 ^ 32) × (encode_length n ≡ some (prefix n)) ⊎ (2 ^ 32 ≤ n) × (encode_length n ≡ none)
unfolding encode_length
encode_length-prefix n = ground (
  arith,
  bit_and-mask 8 (n / 2 ^ 24),
  bit_and-mask 8 (n / 2 ^ 16),
  bit_and-mask 8 (n / 2 ^ 8),
  bit_and-mask 8 n,
)

-- The prefix that `EncodeLength` gives for a message, put before it, makes a stream that starts with
-- that message: `decode` reads it back and leaves what follows. The message must be of 1 to `max`
-- bytes and under 2 ^ 32.
pub decode-encode_length :
    (max : ℕ) (p rest : List ℕ)
    → Fits max p
    → (h : List ℕ) × (encode_length (length p) ≡ some h)
      × All IsByte h
      × (decode max ((h ++ p) ++ rest) ≡ (message_ready, p, rest))
unfolding frame
decode-encode_length max p rest f = (
  prefix (length p),
  ground (arith, encode_length-prefix (length p)),
  omega arith,
  decode-frame max p rest f,
)
