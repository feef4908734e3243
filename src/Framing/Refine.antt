-- ===== src/Framing/Refine.antt =====
-- `next` against `decode` on the bytes that are not yet decoded.
use iocp_engine.Base.{
  ℕ, suc, ◌+◌, ◌*◌, ◌^◌, ◌<◌, ◌≡◌, refl, ap, ◌∙◌, true, false, List, [], ◌∷◌, bit_or, arith, length,
  length-drop, get_or, get_or-drop, drop, drop-drop, All, All-get_or, IsByte,
}
use iocp_engine.Base.Bits.{bit_or-field}
use iocp_engine.Framing.{Accumulator, buffer_limit_exceeded, shl32, read_length, next}
use iocp_engine.Framing.Stream.{be32, decode}
use iocp_engine.Framing.Invariant.{pending, IsValid}

-- The shifts and ors of four bytes are their place value.
or_be32 :
    (a b c d : ℕ)
    → a < 256
    → b < 256
    → c < 256
    → d < 256
    → bit_or (bit_or (bit_or (shl32 a 24) (shl32 b 16)) (shl32 c 8)) d ≡ be32 a b c d
or_be32 a b c d ha hb hc hd = ground (
  arith,
  bit_or-field 24 a (b * 2 ^ 16) (omega arith),
  bit_or-field 16 (a * 2 ^ 8 + b) (c * 2 ^ 8) (omega arith),
  bit_or-field 8 (a * 2 ^ 16 + b * 2 ^ 8 + c) d (omega arith),
)

byte_at : (n i : ℕ) (xs : List ℕ) → All IsByte xs → get_or xs (n + i) 0 < 256
byte_at n i xs h = All-get_or IsByte xs (n + i) 0 (omega arith) h

read_length_lem :
    (a : Accumulator)
    → IsValid a
    → let at = λ (i : ℕ). get_or (pending a) i 0 in
      read_length a.buffer a.cursor ≡ be32 (at 0) (at 1) (at 2) (at 3)
unfolding read_length
read_length_lem a v =
    rw
      (
        get_or-drop a.cursor 0 a.buffer 0,
        get_or-drop a.cursor 1 a.buffer 0,
        get_or-drop a.cursor 2 a.buffer 0,
        get_or-drop a.cursor 3 a.buffer 0,
      )
      (or_be32 _ _ _ _ (byte_at a.cursor 0 a.buffer v.bytes) (byte_at a.cursor 1 a.buffer v.bytes)
        (byte_at a.cursor 2 a.buffer v.bytes) (byte_at a.cursor 3 a.buffer v.bytes))

-- What a step of `next` leaves: the same object but for the cursor, which moves inside the buffer.
pub record Advances (a b : Accumulator) : Type 0 where
  pub valid : IsValid b
  pub same_message_limit : b.max_message_bytes ≡ a.max_message_bytes
  pub same_buffer_limit : b.max_buffered_bytes ≡ a.max_buffered_bytes
  pub same_flag : b.limit_exceeded ≡ a.limit_exceeded

drop_four : (n x y z w : ℕ) (r : List ℕ) → drop (4 + n) (x ∷ y ∷ z ∷ w ∷ r) ≡ drop n r
drop_four n x y z w r = let e : 4 + n ≡ suc (suc (suc (suc n))) = omega arith in rw e

next-pending :
    (a : Accumulator) (xs : List ℕ)
    → IsValid a
    → a.limit_exceeded ≡ false
    → pending a ≡ xs
    → let (status, payload, b) = next a in
      ((status, payload, pending b) ≡ decode a.max_message_bytes xs) × Advances a b
unfolding next decode
next-pending a [] v f e = ground (arith, length-drop a.cursor a.buffer)
next-pending a (x ∷ []) v f e = ground (arith, length-drop a.cursor a.buffer)
next-pending a (x ∷ y ∷ []) v f e = ground (arith, length-drop a.cursor a.buffer)
next-pending a (x ∷ y ∷ z ∷ []) v f e = ground (arith, length-drop a.cursor a.buffer)
next-pending a (x ∷ y ∷ z ∷ w ∷ r) v f e = ground (
  arith,
  length-drop a.cursor a.buffer,
  ap {B = ℕ} length e,
  size,
  drop-drop 4 a.cursor a.buffer,
  drop-drop (4 + be32 x y z w) a.cursor a.buffer,
  drop_four (be32 x y z w) x y z w r,
  ap {B = List ℕ} (drop 4) e,
  ap {B = List ℕ} (drop (4 + be32 x y z w)) e,
)
  where
    size : read_length a.buffer a.cursor ≡ be32 x y z w
    size =
        read_length_lem a v
        ∙ ap (λ (l : List ℕ). be32 (get_or l 0 0) (get_or l 1 0) (get_or l 2 0) (get_or l 3 0)) e

-- For a valid accumulator that has not overflowed, `next` gives the status and the payload that
-- `decode` gives on the undecoded bytes, and leaves undecoded what `decode` leaves. The result is
-- valid, with the same limits.
pub next-decode :
    (a : Accumulator)
    → IsValid a
    → a.limit_exceeded ≡ false
    → let (status, payload, b) = next a in
      ((status, payload, pending b) ≡ decode a.max_message_bytes (pending a)) × Advances a b
next-decode a v f = next-pending a (pending a) v f refl

-- A marked accumulator answers `buffer_limit_exceeded`, and stays as it is.
pub next_flagged :
    (a : Accumulator) → a.limit_exceeded ≡ true → next a ≡ (buffer_limit_exceeded, [], a)
unfolding next
next_flagged a e = ground (arith, e)
