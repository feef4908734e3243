-- ===== src/Framing.antt =====
-- src/protocol/framing.hpp: the accumulator of the raw TCP transport, which cuts a byte stream into
-- messages with a 32-bit big-endian length in front. A member function returns the new object.
pub mod Stream
pub mod Invariant
pub mod Refine
pub mod Drain
pub mod Encode
mod Tests
use iocp_engine.Base.{
  ℕ, ◌+◌, ◌-◌, ◌*◌, ◌/◌, ◌%◌, ◌^◌, bit_and, bit_or, Bool, true, false, ◌&&◌, ◌||◌, Option, none,
  some, List, [], ◌∷◌, ◌++◌, ltb, leb, ◌==◌, if◌then◌else◌, length, get_or, take, drop,
}
use iocp_engine.Base.Size.{add_size, sub_size, mul_size}

pub data FrameDecodeStatus : Type 0 where
  need_more_data message_ready invalid_length buffer_limit_exceeded : FrameDecodeStatus

pub record Accumulator : Type 0 where
  pub max_message_bytes : ℕ
  pub max_buffered_bytes : ℕ
  pub buffer : List ℕ
  pub cursor : ℕ
  pub limit_exceeded : Bool

pub new : ℕ → ℕ → Accumulator
new max_message max_buffered = record {
  max_message_bytes = max_message;
  max_buffered_bytes = max_buffered;
  buffer = [];
  cursor = 0;
  limit_exceeded = false;
}

-- `memmove` to the front, then `resize`, leaves the bytes from the cursor on.
pub compact_if_useful : Accumulator → Accumulator
compact_if_useful a =
    if cursor == 0
    then a
    else if cursor == length buffer
    then record a { buffer = []; cursor = 0 }
    else if leb 4096 cursor && leb (length buffer) (mul_size cursor 2)
    then record a { buffer = drop cursor buffer; cursor = 0 }
    else a
  where
    open a use {buffer, cursor}

pub buffered_bytes : Accumulator → ℕ
buffered_bytes a = sub_size (length a.buffer) a.cursor

pub append_compacted : Accumulator → List ℕ → Bool × Accumulator
unfolding buffered_bytes
append_compacted a bytes =
    if ltb a.max_buffered_bytes (length bytes)
      || ltb (sub_size a.max_buffered_bytes (length bytes)) (buffered_bytes a)
    then (false, record a { limit_exceeded = true })
    else (true, record a { buffer = a.buffer ++ bytes })

pub append : Accumulator → List ℕ → Bool × Accumulator
append a bytes = append_compacted (compact_if_useful a) bytes

-- `static_cast<std::uint32_t>(x) << k`
abbrev pub shl32 : ℕ → ℕ → ℕ
shl32 x k = x * 2 ^ k % 2 ^ 32

-- The four bytes at the cursor.
pub read_length : List ℕ → ℕ → ℕ
read_length buffer cursor =
    bit_or (bit_or (bit_or (shl32 (at 0) 24) (shl32 (at 1) 16)) (shl32 (at 2) 8)) (at 3)
  where
    at : ℕ → ℕ
    at i = get_or buffer (cursor + i) 0

abbrev pub header_size : ℕ
header_size = 4

-- The payload is the span of the buffer that `Next` hands out.
pub next : Accumulator → FrameDecodeStatus × List ℕ × Accumulator
unfolding buffered_bytes
next a =
    if a.limit_exceeded
    then (buffer_limit_exceeded, [], a)
    else if ltb available header_size
    then (need_more_data, [], a)
    else if size == 0 || ltb a.max_message_bytes size
    then (invalid_length, [], a)
    else if ltb (sub_size available header_size) size
    then (need_more_data, [], a)
    else (
      message_ready,
      take size (drop (a.cursor + header_size) a.buffer),
      record a { cursor = add_size a.cursor (header_size + size) },
    )
  where
    available : ℕ
    available = buffered_bytes a

    size : ℕ
    size = read_length a.buffer a.cursor

pub reset : Accumulator → Accumulator
reset a = record a { buffer = []; cursor = 0; limit_exceeded = false }

-- `none` is the `std::length_error`.
pub encode_length : ℕ → Option (List ℕ)
encode_length n =
    if ltb (2 ^ 32 - 1) n
    then none
    else some (
        bit_and (n / 2 ^ 24) 0xff
        ∷ bit_and (n / 2 ^ 16) 0xff
        ∷ bit_and (n / 2 ^ 8) 0xff
        ∷ bit_and n 0xff
        ∷ [])
