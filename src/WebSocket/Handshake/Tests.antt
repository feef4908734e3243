-- ===== src/WebSocket/Handshake/Tests.antt =====
-- The handshake of RFC 6455, section 1.3, and the theorems at it.
use iocp_engine.Base.{
  ℕ, List, [], ◌∷◌, ◌≡◌, refl, ◌++◌, none, some, length, false, ◌+◌, ◌*◌, ◌/◌, ◌%◌, ◌≤◌, ◌<◌, ◌↔◌,
  ◌⊎◌, true, bit_xor, All, arith,
}
use iocp_engine.Base.Keyed.{number_key}
use iocp_engine.Base.Keyed as Keyed
use iocp_engine.WebSocket.Base64.RoundTrip.{decode, decode-base64_encode}
use iocp_engine.WebSocket.Base64.Key.{IsKey, is_valid_web_socket_key_iff}
use iocp_engine.WebSocket.Sha1.Padding.{padded_with, pad-blocks}
use iocp_engine.WebSocket.Sha1.Schedule.{word, big_endian, words_of_lem}
use iocp_engine.WebSocket.Handshake.Finding.{Without-contains}
use iocp_engine.WebSocket.Handshake.Lines.{IsHeader, AreNew, collect}
use iocp_engine.WebSocket.Handshake.Printed.{print_request, IsTarget, parse_handshake-print}
use iocp_engine.WebSocket.Handshake.Total.{Waits, Rejects, Accepts, parse_handshake-some}
use iocp_engine.Base.Text.{ascii, starts_with}
use iocp_engine.WebSocket.Sha1.{
  sha1, process_blocks, process_block, pad, pad_zeros, be_bytes, words_of, rounds, round,
  more_words, first_words, word_at, rotate_left, function, constant, add_registers, digest_of,
}
use iocp_engine.WebSocket.Base64.{
  base64_encode, letter, base64_value, count_decoded, is_valid_web_socket_key,
}
use iocp_engine.WebSocket.Handshake.Strings.{
  find, find_from, trim, trim_front, trim_back, to_lower, contains_token,
}
use iocp_engine.WebSocket.Handshake.{
  compute_accept_key, parse_handshake, line, crlf, switching_protocols, Headers, HandshakeResult,
  accepted, is_upgrade_line, read_line, read_headers, are_upgrade_headers, judge_headers,
  judge_lines, map_lines,
}

abbrev key : List ℕ
key = ascii "dGhlIHNhbXBsZSBub25jZQ=="

accept_key : compute_accept_key key ≡ ascii "s3pPLMBiTxaQ9kYGzzhZRbK+xOo="
unfolding compute_accept_key base64_encode letter sha1 process_blocks process_block pad pad_zeros
    be_bytes words_of rounds round more_words first_words word_at rotate_left function constant
    add_registers digest_of
accept_key = refl

abbrev request : List ℕ
request =
    line "GET /chat HTTP/1.1"
    ++ line "Host: server.example.com"
    ++ line "Upgrade: WebSocket"
    ++ line "Connection: keep-alive, Upgrade "
    ++ line "Sec-WebSocket-Key: dGhlIHNhbXBsZSBub25jZQ=="
    ++ line "Origin: http://example.com"
    ++ line "Sec-WebSocket-Version: 13"
    ++ crlf

handshake :
    parse_handshake (request ++ ascii "more") 1000 none
    ≡ some (record {
      status = accepted;
      consumed = length request;
      response = switching_protocols key;
      origin = ascii "http://example.com";
      error = [];
    })
unfolding parse_handshake find find_from starts_with trim_front trim_back to_lower contains_token
    is_upgrade_line read_line read_headers are_upgrade_headers judge_headers judge_lines map_lines
    is_valid_web_socket_key count_decoded base64_value
handshake = refl

abc :
    sha1 (ascii "abc")
    ≡ 0xa9 ∷ 0x99 ∷ 0x3e ∷ 0x36 ∷ 0x47 ∷ 0x06 ∷ 0x81 ∷ 0x6a ∷ 0xba ∷ 0x3e ∷ 0x25 ∷ 0x71 ∷ 0x78
      ∷ 0x50 ∷ 0xc2 ∷ 0x6c ∷ 0x9c ∷ 0xd0 ∷ 0xd8 ∷ 0x9d ∷ []
unfolding sha1 process_blocks process_block pad pad_zeros be_bytes words_of rounds round more_words
    first_words word_at rotate_left function constant add_registers digest_of
abc = refl

decode-base64_encode_example :
    (decode (base64_encode (77 ∷ 97 ∷ 110 ∷ 255 ∷ [])) ≡ 77 ∷ 97 ∷ 110 ∷ 255 ∷ [])
    × (length (base64_encode (77 ∷ 97 ∷ 110 ∷ 255 ∷ [])) ≡ 4 * ((4 + 2) / 3))
decode-base64_encode_example =
    decode-base64_encode (77 ∷ 97 ∷ 110 ∷ 255 ∷ [])
      (omega arith, (omega arith, (omega arith, (omega arith, tt))))

is_valid_web_socket_key_iff_example : (is_valid_web_socket_key key ≡ true) ↔ IsKey key
is_valid_web_socket_key_iff_example = is_valid_web_socket_key_iff key

pad-blocks_example :
    (gap : ℕ) × (pad key ≡ padded_with gap key) × (length (pad key) % 64 ≡ 0) × (gap < 64)
pad-blocks_example = pad-blocks key (omega arith)

words_of_lem_example :
    ((20 < 16) × (word (97 ∷ 98 ∷ []) 20 ≡ big_endian (97 ∷ 98 ∷ []) (4 * 20)))
    ⊎ ((16 ≤ 20)
        × (word (97 ∷ 98 ∷ []) 20
            ≡ rotate_left
                (bit_xor
                  (bit_xor
                    (bit_xor (word (97 ∷ 98 ∷ []) 17) (word (97 ∷ 98 ∷ []) 12))
                    (word (97 ∷ 98 ∷ []) 6))
                  (word (97 ∷ 98 ∷ []) 4))
                1))
words_of_lem_example = words_of_lem (97 ∷ 98 ∷ []) 20 (omega arith, (omega arith, tt)) (omega arith)

abbrev headers : Headers
headers =
    (ascii "Upgrade", ascii "WebSocket")
    ∷ (ascii "Connection", ascii "Upgrade")
    ∷ (ascii "Sec-WebSocket-Key", key)
    ∷ (ascii "Sec-WebSocket-Version", ascii "13")
    ∷ []

header :
    (name value : List ℕ)
    → Keyed.contains b':' name ≡ false
    → Keyed.contains b'\r' name ≡ false
    → trim name ≡ name
    → Keyed.contains b'\r' value ≡ false
    → trim value ≡ value
    → IsHeader (name, value)
header name value a b c d e = (
  Without-contains b':' name a,
  Without-contains b'\r' name b,
  c,
  Without-contains b'\r' value d,
  e,
)

headers-IsHeader : All IsHeader headers
unfolding trim_front trim_back
headers-IsHeader = (
  header (ascii "Upgrade") (ascii "WebSocket") refl refl refl refl refl,
  (
    header (ascii "Connection") (ascii "Upgrade") refl refl refl refl refl,
    (
      header (ascii "Sec-WebSocket-Key") key refl refl refl refl refl,
      (header (ascii "Sec-WebSocket-Version") (ascii "13") refl refl refl refl refl, tt),
    ),
  ),
)

headers-AreNew : AreNew [] headers
unfolding to_lower
headers-AreNew = (refl, (refl, (refl, (refl, tt))))

chat-IsTarget : IsTarget (ascii "/chat")
chat-IsTarget =
    (Without-contains b' ' (ascii "/chat") refl, Without-contains b'\r' (ascii "/chat") refl)

parse_handshake-print_example :
    parse_handshake (print_request (ascii "/chat") headers ++ ascii "more") 1000 none
    ≡ some
        (judge_headers none (length (print_request (ascii "/chat") headers)) (collect [] headers))
parse_handshake-print_example =
    parse_handshake-print (ascii "/chat") (ascii "more") headers 1000 none chat-IsTarget
      headers-IsHeader headers-AreNew (omega arith) (omega arith)

parse_handshake-some_example :
    (r : HandshakeResult) × (parse_handshake request 1000 none ≡ some r)
    × (Waits request 1000 r ⊎ (Rejects request r ⊎ Accepts request r))
parse_handshake-some_example = parse_handshake-some request 1000 none (omega arith)
