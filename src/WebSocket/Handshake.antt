-- ===== src/WebSocket/Handshake.antt =====
-- `ParseHandshake` and `ComputeAcceptKey`, on the bytes of the request.
pub mod Strings
pub mod Finding
pub mod Rounds
pub mod Total
pub mod Lines
pub mod Printed
mod Tests
use iocp_engine.Base.{
  ℕ, zero, suc, ◌+◌, ◌-◌, ◌^◌, Bool, true, false, not, ◌&&◌, ◌||◌, Option, none, some, List, [],
  ◌∷◌, ◌++◌, ◌==◌, ltb, leb, if◌then◌else◌, length, take, drop, map,
}
use Prim.Native.String.{String}
use iocp_engine.Base.Size.{size_mod, add_size, sub_size}
use iocp_engine.Base.Text.{ascii, starts_with}
use iocp_engine.Base.Keyed.{same_list, number_key, text_key}
use iocp_engine.Base.Keyed as Keyed
use iocp_engine.WebSocket.Base64.{base64_encode, is_valid_web_socket_key}
use iocp_engine.WebSocket.Sha1.{sha1}
use iocp_engine.WebSocket.Handshake.Strings.{
  npos, find, find_from, substr, is_blank, trim_front, trim_back, trim, to_lower, lower,
  contains_token,
}

abbrev pub guid : List ℕ
guid = ascii "258EAFA5-E914-47DA-95CA-C5AB0DC85B11"

unfoldable pub compute_accept_key : List ℕ → List ℕ
compute_accept_key client_key = base64_encode (sha1 (client_key ++ guid))

pub data HandshakeStatus : Type 0 where
  need_more_data accepted rejected : HandshakeStatus

pub record HandshakeResult : Type 0 where
  pub status : HandshakeStatus
  pub consumed : ℕ
  pub response : List ℕ
  pub origin : List ℕ
  pub error : List ℕ

-- `none` is the empty `std::function`.
abbrev pub OriginValidator : Type 0
OriginValidator = Option (List ℕ → Bool)

abbrev pub Headers : Type 0
Headers = List (List ℕ × List ℕ)

abbrev pub crlf : List ℕ
crlf = b'\r' ∷ b'\n' ∷ []

abbrev pub header_terminator : List ℕ
header_terminator = b'\r' ∷ b'\n' ∷ b'\r' ∷ b'\n' ∷ []

abbrev pub line : String → List ℕ
line text = ascii text ++ crlf

abbrev pub bad_request : List ℕ
bad_request = line "HTTP/1.1 400 Bad Request" ++ line "Connection: close" ++ crlf

abbrev pub headers_too_large : List ℕ
headers_too_large =
    line "HTTP/1.1 431 Request Header Fields Too Large" ++ line "Connection: close" ++ crlf

abbrev pub upgrade_required : List ℕ
upgrade_required =
    line "HTTP/1.1 400 Bad Request"
    ++ line "Sec-WebSocket-Version: 13"
    ++ line "Connection: close"
    ++ crlf

abbrev pub forbidden : List ℕ
forbidden = line "HTTP/1.1 403 Forbidden" ++ line "Connection: close" ++ crlf

abbrev pub switching_protocols : List ℕ → List ℕ
switching_protocols key =
    line "HTTP/1.1 101 Switching Protocols"
    ++ line "Upgrade: websocket"
    ++ line "Connection: Upgrade"
    ++ ascii "Sec-WebSocket-Accept: "
    ++ compute_accept_key key
    ++ crlf
    ++ crlf

abbrev pub refuse : ℕ → List ℕ → String → HandshakeResult
refuse consumed response error = record {
  status = rejected;
  consumed = consumed;
  response = response;
  origin = [];
  error = ascii error;
}

-- The test of the request line.
unfoldable pub is_upgrade_line : List ℕ → Bool
is_upgrade_line request_line =
    let first_space : ℕ = find_from (b' ' ∷ []) request_line 0 in
    let second_space : ℕ = find_from (b' ' ∷ []) request_line (add_size first_space 1) in
    not (first_space == npos)
    && not (second_space == npos)
    && same_list (substr request_line 0 first_space) (ascii "GET")
    && same_list (drop (add_size second_space 1) request_line) (ascii "HTTP/1.1")

-- How the loop over the header lines ends.
pub data HeaderLines : Type 0 where
  parsed : Headers → HeaderLines
  no_colon duplicate : HeaderLines

abbrev pub is_some {ℓ} : {A : Type ℓ} → Option A → Bool
is_some none = false
is_some (some a) = true

abbrev pub colon_of : List ℕ → ℕ
colon_of header = find (b':' ∷ []) header 0

abbrev pub name_of : List ℕ → List ℕ
name_of header = lower (trim (substr header 0 (colon_of header)))

abbrev pub value_of : List ℕ → List ℕ
value_of header = trim (drop (add_size (colon_of header) 1) header)

-- One round of the loop; `rest` is what the others give.
unfoldable pub read_line : Headers → List ℕ → Option HeaderLines → Option HeaderLines
read_line headers header rest =
    if colon_of header == npos
    then some no_colon
    else if is_some (Keyed.find (name_of header) headers)
    then some duplicate
    else rest

-- `none` when the fuel runs out.
unfoldable pub read_headers : ℕ → List ℕ → ℕ → Headers → ℕ → Option HeaderLines
read_headers zero request header_end headers position = none
read_headers (suc fuel) request header_end headers position =
    let line_end : ℕ = find_from crlf request position in
    let header : List ℕ = substr request position (sub_size line_end position) in
    let rest =
      read_headers fuel request header_end (Keyed.assign (name_of header) (value_of header) headers)
        (add_size line_end 2) in
    if ltb position header_end then read_line headers header rest else some (parsed headers)

abbrev pub text_of : Option (List ℕ) → List ℕ
text_of none = []
text_of (some value) = value

-- The tests of the four headers; without a header its test fails.
abbrev pub satisfies : (List ℕ → Bool) → Option (List ℕ) → Bool
satisfies test none = false
satisfies test (some value) = test value

unfoldable pub are_upgrade_headers : Headers → Bool
are_upgrade_headers headers =
    satisfies (λ value. same_list (lower value) (ascii "websocket"))
      (Keyed.find (ascii "upgrade") headers)
    && satisfies (λ value. contains_token (suc (length value)) value (ascii "upgrade"))
        (Keyed.find (ascii "connection") headers)
    && satisfies is_valid_web_socket_key (Keyed.find (ascii "sec-websocket-key") headers)
    && satisfies (λ value. same_list value (ascii "13"))
        (Keyed.find (ascii "sec-websocket-version") headers)

abbrev pub allows : OriginValidator → List ℕ → Bool
allows none origin = true
allows (some f) origin = f origin

-- What follows the loop.
unfoldable pub judge_headers : OriginValidator → ℕ → Headers → HandshakeResult
judge_headers origin_validator consumed headers =
    let origin : List ℕ = text_of (Keyed.find (ascii "origin") headers) in
    if not (are_upgrade_headers headers)
    then refuse consumed upgrade_required
        "required WebSocket upgrade headers are missing or invalid"
    else if not (allows origin_validator origin)
    then record (refuse consumed forbidden "WebSocket Origin is not allowed") { origin = origin }
    else record {
      status = accepted;
      consumed = consumed;
      response = switching_protocols (text_of (Keyed.find (ascii "sec-websocket-key") headers));
      origin = origin;
      error = [];
    }

unfoldable pub judge_lines : OriginValidator → ℕ → HeaderLines → HandshakeResult
judge_lines origin_validator consumed no_colon = refuse consumed bad_request "malformed HTTP header"
judge_lines origin_validator consumed duplicate =
    refuse consumed bad_request "duplicate HTTP header"
judge_lines origin_validator consumed (parsed headers) =
    judge_headers origin_validator consumed headers

abbrev pub waiting : HandshakeResult
waiting = record { status = need_more_data; consumed = 0; response = []; origin = []; error = [] }

unfoldable pub map_lines : OriginValidator → ℕ → Option HeaderLines → Option HandshakeResult
map_lines origin_validator consumed none = none
map_lines origin_validator consumed (some lines) =
    some (judge_lines origin_validator consumed lines)

-- `none` when the fuel of the loop runs out, which it does not.
unfoldable pub parse_handshake : List ℕ → ℕ → OriginValidator → Option HandshakeResult
parse_handshake request max_header_bytes origin_validator =
    let header_end : ℕ = find_from header_terminator request 0 in
    let request_line_end : ℕ = find_from crlf request 0 in
    if ltb max_header_bytes (length request)
    then some (refuse 0 headers_too_large "HTTP upgrade headers exceed configured limit")
    else if header_end == npos
    then some waiting
    else if request_line_end == npos
    then some (refuse (header_end + 4) bad_request "missing HTTP request line")
    else if not (is_upgrade_line (substr request 0 request_line_end))
    then some (refuse (header_end + 4) bad_request "WebSocket upgrade requires GET over HTTP/1.1")
    else map_lines origin_validator (header_end + 4)
        (read_headers (suc (length request)) request header_end [] (request_line_end + 2))
