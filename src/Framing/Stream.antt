-- ===== src/Framing/Stream.antt =====
-- The wire format of raw TCP, on plain byte lists: what a frame is, and how a stream starts.
use iocp_engine.Base.{
  length-drop, ℕ, ◌+◌, ◌*◌, ◌/◌, ◌%◌, ◌^◌, ◌≤◌, ◌<◌, ◌≡◌, refl, ◌||◌, List, [], ◌∷◌, ◌++◌, arith,
  ltb, ◌==◌, if◌then◌else◌, length, length-append, take, drop, take-append, drop-append,
}
use iocp_engine.Framing.{FrameDecodeStatus, need_more_data, message_ready, invalid_length}

-- The place value of four bytes, most significant first.
abbrev pub be32 : ℕ → ℕ → ℕ → ℕ → ℕ
be32 a b c d = a * 2 ^ 24 + b * 2 ^ 16 + c * 2 ^ 8 + d

abbrev pub prefix : ℕ → List ℕ
prefix n = n / 2 ^ 24 % 256 ∷ n / 2 ^ 16 % 256 ∷ n / 2 ^ 8 % 256 ∷ n % 256 ∷ []

unfoldable pub frame : List ℕ → List ℕ
frame p = prefix (length p) ++ p

-- What stands at the front of a stream, and what follows it.
abbrev pub payload_after : ℕ → ℕ → List ℕ → List ℕ → FrameDecodeStatus × List ℕ × List ℕ
payload_after max n stream rest =
    if n == 0 || ltb max n
    then (invalid_length, [], stream)
    else if ltb (length rest) n
    then (need_more_data, [], stream)
    else (message_ready, take n rest, drop n rest)

unfoldable pub decode : ℕ → List ℕ → FrameDecodeStatus × List ℕ × List ℕ
decode max [] = (need_more_data, [], [])
decode max (a ∷ []) = (need_more_data, [], a ∷ [])
decode max (a ∷ b ∷ []) = (need_more_data, [], a ∷ b ∷ [])
decode max (a ∷ b ∷ c ∷ []) = (need_more_data, [], a ∷ b ∷ c ∷ [])
decode max (a ∷ b ∷ c ∷ d ∷ rest) = payload_after max (be32 a b c d) (a ∷ b ∷ c ∷ d ∷ rest) rest

-- A message that the transport can carry.
abbrev pub Fits : ℕ → List ℕ → Type 0
Fits max p = (1 ≤ length p) × (length p ≤ max) × (length p < 2 ^ 32)

-- A stream that starts with a whole frame gives its payload and what follows.
pub decode-frame :
    (max : ℕ) (p rest : List ℕ)
    → Fits max p
    → decode max (frame p ++ rest) ≡ (message_ready, p, rest)
unfolding decode frame
decode-frame max p rest h = ground (
  arith,
  length-append p rest,
  take-append p rest (be32 (n / 2 ^ 24 % 256) (n / 2 ^ 16 % 256) (n / 2 ^ 8 % 256) (n % 256)),
  drop-append p rest (be32 (n / 2 ^ 24 % 256) (n / 2 ^ 16 % 256) (n / 2 ^ 8 % 256) (n % 256)),
)
  where
    n : ℕ
    n = length p

-- A stream that is cut inside its first frame gives nothing yet.
pub decode_cut :
    (max : ℕ) (p s rest t : List ℕ)
    → Fits max p
    → s ++ rest ≡ frame p ++ t
    → length s < length (frame p)
    → decode max s ≡ (need_more_data, [], s)
unfolding decode frame
decode_cut max p [] rest t f e h = refl
decode_cut max p (a ∷ []) rest t f e h = refl
decode_cut max p (a ∷ b ∷ []) rest t f e h = refl
decode_cut max p (a ∷ b ∷ c ∷ []) rest t f e h = refl
decode_cut max p (a ∷ b ∷ c ∷ d ∷ s) rest t f e h = ground arith

-- What waits for more data is shorter than the longest frame.
pub decode_waiting : (max : ℕ) (s : List ℕ) → (decode max s).0 ≡ need_more_data → length s < 4 + max
unfolding decode
decode_waiting max [] e = omega arith
decode_waiting max (a ∷ []) e = omega arith
decode_waiting max (a ∷ b ∷ []) e = omega arith
decode_waiting max (a ∷ b ∷ c ∷ []) e = omega arith
decode_waiting max (a ∷ b ∷ c ∷ d ∷ s) e = ground arith

-- A decoded frame takes bytes off the stream.
pub decode_shrinks :
    (max : ℕ) (s p r : List ℕ) → decode max s ≡ (message_ready, p, r) → length r < length s
unfolding decode
decode_shrinks max [] p r e = cc
decode_shrinks max (a ∷ []) p r e = cc
decode_shrinks max (a ∷ b ∷ []) p r e = cc
decode_shrinks max (a ∷ b ∷ c ∷ []) p r e = cc
decode_shrinks max (a ∷ b ∷ c ∷ d ∷ s) p r e = ground (arith, length-drop (be32 a b c d) s)
