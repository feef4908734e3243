-- ===== src/WebSocket/Handshake/Printed.antt =====
-- `ParseHandshake` on requests as clients write them.
use iocp_engine.Base.{
  ℕ, suc, ◌+◌, ◌^◌, ◌<◌, ◌≤◌, ◌≡◌, ◌≢◌, refl, ap, sym, ◌∙◌, true, false, ◌==◌, ==_iff, ltb, some,
  List, [], ◌∷◌, ◌++◌, append_assoc, length, take, drop, drop-drop, drop-append, take-append,
  length-append, All, All-append, arith,
}
use iocp_engine.Base.Text.{ascii, starts_with}
use iocp_engine.Base.Size.{add_size}
use iocp_engine.WebSocket.Handshake.Strings.{npos, find, find_from}
use iocp_engine.WebSocket.Handshake.{
  OriginValidator, Headers, crlf, header_terminator, is_upgrade_line, judge_headers, judge_lines,
  map_lines, parse_handshake,
}
use iocp_engine.WebSocket.Handshake.Finding.{Without, Without-contains, find-append}
use iocp_engine.WebSocket.Handshake.Lines.{
  line_of, lines_text, IsHeader, collect, AreNew, line_of-Without, read_headers-lines,
}

skip :
    (l rest : List ℕ) (o : ℕ)
    → Without b'\r' l
    → starts_with rest crlf ≡ false
    → find header_terminator (l ++ (crlf ++ rest)) o
      ≡ find header_terminator rest (o + length l + 2)
unfolding find starts_with
skip [] rest o h e = rw e (ap (find header_terminator rest) (omega arith))
skip (x ∷ l) rest o h e =
    let other : (x == b'\r') ≡ false = ground (arith, h.0, ==_iff x b'\r') in
    rw other (skip l rest (o + 1) h.1 e ∙ ap (find header_terminator rest) (omega arith))

line-begins :
    (l rest : List ℕ) → Without b'\r' l → 0 < length l → starts_with (l ++ rest) crlf ≡ false
unfolding starts_with
line-begins [] rest h n = absurd (omega arith)
line-begins (x ∷ l) rest h n = ground (arith, h.0, ==_iff x b'\r')

length-line_of : (h : List ℕ × List ℕ) → 2 ≤ length (line_of h)
length-line_of (name, value) = omega (arith, length-append name (b':' ∷ b' ' ∷ value))

-- The first empty line comes after the last header.
find-lines :
    (l more : List ℕ) (hs : Headers) (o : ℕ)
    → Without b'\r' l
    → All IsHeader hs
    → find header_terminator (l ++ (crlf ++ (lines_text hs ++ (crlf ++ more)))) o
      ≡ o + length l + length (lines_text hs)
find-lines l more [] o h k = find-append b'\r' (b'\n' ∷ b'\r' ∷ b'\n' ∷ []) l more o h ∙ omega arith
find-lines l more (q ∷ hs) o h k =
    let rest : List ℕ = crlf ++ (lines_text hs ++ (crlf ++ more)) in
    let e : lines_text (q ∷ hs) ++ (crlf ++ more) ≡ line_of q ++ rest =
      append_assoc (line_of q) (crlf ++ lines_text hs) (crlf ++ more) in
    rw e (
      skip l (line_of q ++ rest) o h
        (line-begins (line_of q) rest (line_of-Without q k.0) (omega (arith, length-line_of q)))
      ∙ find-lines (line_of q) more hs (o + length l + 2) (line_of-Without q k.0) k.1
      ∙ omega (arith, length-append (line_of q) (crlf ++ lines_text hs)))

abbrev pub request_line : List ℕ → List ℕ
request_line target = ascii "GET " ++ (target ++ ascii " HTTP/1.1")

abbrev pub print_request : List ℕ → Headers → List ℕ
print_request target hs = request_line target ++ (crlf ++ (lines_text hs ++ crlf))

-- A target without spaces and carriage returns.
abbrev pub IsTarget : List ℕ → Type 0
IsTarget target = Without b' ' target × Without b'\r' target

request_line-upgrades :
    (target : List ℕ)
    → IsTarget target
    → length target < 2 ^ 63
    → is_upgrade_line (request_line target) ≡ true
unfolding is_upgrade_line find_from find starts_with
request_line-upgrades target h n =
    let tail : List ℕ = ascii " HTTP/1.1" in
    let second : find (b' ' ∷ []) (target ++ tail) 4 ≡ 4 + length target =
      find-append b' ' [] target (ascii "HTTP/1.1") 4 h.0 in
    let present : (4 + length target == npos) ≡ false = ground (arith, n) in
    let next : add_size (4 + length target) 1 ≡ suc (suc (suc (suc (length target + 1)))) =
      omega arith in
    let version : drop (length target + 1) (target ++ tail) ≡ ascii "HTTP/1.1" =
      sym (drop-drop 1 (length target) (target ++ tail))
      ∙ ap (drop 1) (drop-append target tail (length target) refl) in
    rw (second, present, next, version) refl

request_line-Without : (target : List ℕ) → IsTarget target → Without b'\r' (request_line target)
request_line-Without target h =
    let keep = All-append (λ (x : ℕ). x ≢ b'\r') in
    keep (ascii "GET ") (target ++ ascii " HTTP/1.1") (Without-contains b'\r' (ascii "GET ") refl)
      (keep target (ascii " HTTP/1.1") h.1 (Without-contains b'\r' (ascii " HTTP/1.1") refl))

length-lines_text : (hs : Headers) → length hs ≤ length (lines_text hs)
length-lines_text [] = omega arith
length-lines_text (q ∷ hs) =
    omega (arith, length-lines_text hs, length-append (line_of q) (crlf ++ lines_text hs))

parse_lines :
    (l more : List ℕ) (hs : Headers) (max : ℕ) (v : OriginValidator)
    → let request = l ++ (crlf ++ (lines_text hs ++ (crlf ++ more))) in
      Without b'\r' l
      → is_upgrade_line l ≡ true
      → All IsHeader hs
      → AreNew [] hs
      → length request ≤ max
      → max < 2 ^ 63
      → parse_handshake request max v
        ≡ some (judge_headers v (length l + length (lines_text hs) + 4) (collect [] hs))
unfolding parse_handshake map_lines judge_lines find_from
parse_lines l more hs max v w u k new n m =
    let request : List ℕ = l ++ (crlf ++ (lines_text hs ++ (crlf ++ more))) in
    let size : length request ≡ length l + 2 + length (lines_text hs) + 2 + length more =
      length-append l (crlf ++ (lines_text hs ++ (crlf ++ more)))
      ∙ omega (arith, length-append (lines_text hs) (crlf ++ more)) in
    let fits : ltb max (length request) ≡ false = ground arith in
    let ending : find header_terminator request 0 ≡ length l + length (lines_text hs) =
      find-lines l more hs 0 w k ∙ omega arith in
    let line : find crlf request 0 ≡ length l =
      find-append b'\r' (b'\n' ∷ []) l (lines_text hs ++ (crlf ++ more)) 0 w ∙ omega arith in
    let found : (length l + length (lines_text hs) == npos) ≡ false = ground (arith, size) in
    let broken : (length l == npos) ≡ false = ground (arith, size) in
    let head : take (length l) request ≡ l = take-append l _ (length l) refl in
    let rest : drop (length l + 2) request ≡ lines_text hs ++ (crlf ++ more) =
      sym (drop-drop 2 (length l) request) ∙ ap (drop 2) (drop-append l _ (length l) refl) in
    rw
      (
        fits,
        ending,
        line,
        found,
        broken,
        head,
        u,
        read_headers-lines (suc (length request)) request more (length l + length (lines_text hs))
            [] hs (length l + 2) (omega arith) k new rest (omega arith)
            (omega (arith, length-lines_text hs, size)),
      )
      refl

print_request-append :
    (target more : List ℕ) (hs : Headers)
    → print_request target hs ++ more
      ≡ request_line target ++ (crlf ++ (lines_text hs ++ (crlf ++ more)))
print_request-append target more hs =
    append_assoc (request_line target) (crlf ++ (lines_text hs ++ crlf)) more
    ∙ ap (λ t. request_line target ++ (crlf ++ t)) (append_assoc (lines_text hs) crlf more)

length-print_request :
    (target : List ℕ) (hs : Headers)
    → length (print_request target hs) ≡ length (request_line target) + length (lines_text hs) + 4
length-print_request target hs =
    length-append (request_line target) (crlf ++ (lines_text hs ++ crlf))
    ∙ omega (arith, length-append (lines_text hs) crlf)

-- A GET request over HTTP/1.1 is read as it was written, whatever bytes follow it: its headers, with their
-- names in lower case, are judged, and exactly its own bytes are consumed. The target has no space, names
-- have no colon, names and values have no carriage return and no blanks at their ends, no name comes
-- twice, and all the bytes are within the limit, which is below 2^63.
pub parse_handshake-print :
    (target more : List ℕ) (hs : Headers) (max_header_bytes : ℕ) (v : OriginValidator)
    → IsTarget target
    → All IsHeader hs
    → AreNew [] hs
    → length (print_request target hs ++ more) ≤ max_header_bytes
    → max_header_bytes < 2 ^ 63
    → parse_handshake (print_request target hs ++ more) max_header_bytes v
      ≡ some (judge_headers v (length (print_request target hs)) (collect [] hs))
parse_handshake-print target more hs max v t k new n m =
    let e = print_request-append target more hs in
    let bound : length (request_line target ++ (crlf ++ (lines_text hs ++ (crlf ++ more)))) ≤ max =
      omega (arith, n, ap length e) in
    let width : length target ≤ length (request_line target) = omega (
      arith,
      length-append (ascii "GET ") (target ++ ascii " HTTP/1.1"),
      length-append target (ascii " HTTP/1.1"),
    ) in
    let short : length target < 2 ^ 63 = omega (
      arith,
      width,
      bound,
      m,
      length-append (request_line target) (crlf ++ (lines_text hs ++ (crlf ++ more))),
    ) in
    ap (λ request. parse_handshake request max v) e
    ∙ parse_lines (request_line target) more hs max v (request_line-Without target t)
        (request_line-upgrades target t short) k new bound m
    ∙ ap (λ consumed. some (judge_headers v consumed (collect [] hs)))
        (sym (length-print_request target hs))
