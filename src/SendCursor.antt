-- ===== src/SendCursor.antt =====
-- src/core/send_cursor.hpp: how far a gathered write of header and payload has come.
pub mod Progress
mod Tests
use iocp_engine.Base.{
  ℕ, ◌+◌, ◌-◌, Bool, Option, none, some, List, [], ◌++◌, ltb, leb, ◌==◌, if◌then◌else◌, length,
  take, drop, replicate,
}
use iocp_engine.Base.Size.{add_size, sub_size}

-- A null buffer is `none`.
abbrev pub SharedBuffer : Type 0
SharedBuffer = Option (List ℕ)

abbrev pub buffer_size : SharedBuffer → ℕ
buffer_size none = 0
buffer_size (some bytes) = length bytes

-- `header` is the array of 16 bytes, of which `header_size` are used.
pub record SendCursor : Type 0 where
  pub header : List ℕ
  pub header_size : ℕ
  pub payload : SharedBuffer
  pub sent : ℕ

abbrev pub header_capacity : ℕ
header_capacity = 16

-- `none` is the `std::length_error`.
pub new : List ℕ → SharedBuffer → Option SendCursor
new header payload =
    if ltb header_capacity (length header)
    then none
    else some (record {
      header = header ++ replicate (header_capacity - length header) 0;
      header_size = length header;
      payload = payload;
      sent = 0;
    })

pub total_size : SendCursor → ℕ
total_size c = add_size c.header_size (buffer_size c.payload)

pub remaining : SendCursor → ℕ
unfolding total_size
remaining c = sub_size (total_size c) c.sent

pub complete : SendCursor → Bool
unfolding remaining
complete c = remaining c == 0

pub consume : SendCursor → ℕ → SendCursor
unfolding remaining
consume c bytes = record c {
  sent = add_size c.sent (if ltb (remaining c) bytes then remaining c else bytes);
}

pub header_remainder : SendCursor → List ℕ
header_remainder c =
    if leb c.header_size c.sent then [] else drop c.sent (take c.header_size c.header)

-- `subspan` of the payload; its offset must lie inside, which `Progress.IsValid` gives.
pub payload_remainder : SendCursor → List ℕ
payload_remainder c = elim c.payload [
  | none ↦ []
  | some bytes ↦ drop (if ltb c.header_size c.sent then c.sent - c.header_size else 0) bytes
]
