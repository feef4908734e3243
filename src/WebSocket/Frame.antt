-- ===== src/WebSocket/Frame.antt =====
-- `BuildFrameHeader` and `BuildFrame`
use iocp_engine.Base.{
  ℕ, ◌*◌, ◌/◌, ◌%◌, ◌^◌, bit_and, bit_or, List, [], ◌∷◌, ◌++◌, leb, if◌then◌else◌, length, take,
  replicate,
}
use iocp_engine.WebSocket.{WsOpcode, opcode_value}

-- `static_cast<std::uint8_t>((size >> (index * 8U)) & 0xffU)`
abbrev pub byte_of : ℕ → ℕ → ℕ
byte_of size index = bit_and (size / 2 ^ (8 * index)) 0xff % 256

-- The array of ten bytes, and `header_size`.
unfoldable pub build_frame_header : WsOpcode → ℕ → List ℕ × ℕ
build_frame_header opcode payload_size =
    if leb payload_size 125
    then (first ∷ payload_size ∷ replicate 8 0, 2)
    else if leb payload_size 65535
    then (first ∷ 126 ∷ byte_of payload_size 1 ∷ byte_of payload_size 0 ∷ replicate 6 0, 4)
    else (
      first
          ∷ 127
          ∷ byte_of payload_size 7
          ∷ byte_of payload_size 6
          ∷ byte_of payload_size 5
          ∷ byte_of payload_size 4
          ∷ byte_of payload_size 3
          ∷ byte_of payload_size 2
          ∷ byte_of payload_size 1
          ∷ byte_of payload_size 0
          ∷ [],
      10,
    )
  where
    first : ℕ
    first = bit_or 0x80 (opcode_value opcode) % 256

unfoldable pub build_frame : WsOpcode → List ℕ → List ℕ
build_frame opcode payload =
    let (header, header_size) = build_frame_header opcode (length payload) in
    take header_size header ++ payload
