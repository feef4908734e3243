-- ===== src/WebSocket/Handshake/Lines.antt =====
-- The loop over the header lines of a request as clients write it.
use iocp_engine.Base.{
  ℕ, zero, suc, ◌+◌, ◌-◌, ◌^◌, ◌<◌, ◌≡◌, ◌≢◌, refl, ap, sym, ◌∙◌, true, false, ◌==◌, ltb, Option,
  none, some, List, [], ◌∷◌, ◌++◌, append_assoc, length, take, drop, drop-drop, drop-append,
  take-append, length-append, length-drop, All, All-append, arith,
}
use iocp_engine.Base.Size.{add_size, sub_size}
use iocp_engine.Base.Keyed.{text_key}
use iocp_engine.Base.Keyed as Keyed
use iocp_engine.WebSocket.Handshake.Strings.{npos, find_from, trim, trim_front, lower}
use iocp_engine.WebSocket.Handshake.{
  Headers, crlf, HeaderLines, parsed, colon_of, name_of, value_of, read_line, read_headers,
}
use iocp_engine.WebSocket.Handshake.Finding.{Without, find-append}

abbrev pub line_of : List ℕ × List ℕ → List ℕ
line_of (name, value) = name ++ (b':' ∷ b' ' ∷ value)

abbrev pub lines_text : Headers → List ℕ
lines_text [] = []
lines_text (h ∷ hs) = line_of h ++ (crlf ++ lines_text hs)

-- No carriage return in the line, no colon in the name, no blanks at the ends.
abbrev pub IsHeader : List ℕ × List ℕ → Type 0
IsHeader (name, value) =
    Without b':' name
    × Without b'\r' name
    × (trim name ≡ name)
    × Without b'\r' value
    × (trim value ≡ value)

-- The headers in the order of their lines, under their names in lower case.
abbrev pub collect : Headers → Headers → Headers
collect table [] = table
collect table ((name, value) ∷ hs) = collect (Keyed.assign (lower name) value table) hs

-- No name comes twice.
abbrev pub AreNew : Headers → Headers → Type 0
AreNew table [] = Unit
AreNew table ((name, value) ∷ hs) =
    (Keyed.find (lower name) table ≡ none) × AreNew (Keyed.assign (lower name) value table) hs

pub line_of-Without : (h : List ℕ × List ℕ) → IsHeader h → Without b'\r' (line_of h)
line_of-Without (name, value) h =
    All-append (λ (x : ℕ). x ≢ b'\r') name (b':' ∷ b' ' ∷ value) h.1
      ((λ e. absurd (cc e)), ((λ e. absurd (cc e)), h.3))

colon_of-line_of :
    (name value : List ℕ) → Without b':' name → colon_of (line_of (name, value)) ≡ length name
colon_of-line_of name value h = find-append b':' [] name (b' ' ∷ value) 0 h ∙ omega arith

name_of-line_of :
    (name value : List ℕ) → IsHeader (name, value) → name_of (line_of (name, value)) ≡ lower name
name_of-line_of name value h =
    rw
      (
        colon_of-line_of name value h.0,
        take-append name (b':' ∷ b' ' ∷ value) (length name) refl,
        h.2,
      )
      refl

value_of-line_of :
    (name value : List ℕ)
    → length name < 2 ^ 63
    → IsHeader (name, value)
    → value_of (line_of (name, value)) ≡ value
unfolding trim_front
value_of-line_of name value n h =
    let e : add_size (length name) 1 ≡ length (name ++ (b':' ∷ [])) =
      omega (arith, length-append name (b':' ∷ [])) in
    let f : line_of (name, value) ≡ (name ++ (b':' ∷ [])) ++ (b' ' ∷ value) =
      sym (append_assoc name (b':' ∷ []) (b' ' ∷ value)) in
    rw (colon_of-line_of name value h.0, e)
      (ap trim (
          ap (drop (length (name ++ (b':' ∷ [])))) f
          ∙ drop-append (name ++ (b':' ∷ [])) (b' ' ∷ value) _ refl)
        ∙ h.4)

-- At the position of a line, the next one and the parts of this one.
record IsLineAt (request : List ℕ) (position : ℕ) (h : List ℕ × List ℕ) (rest : List ℕ)
    : Type 0 where
  line_end : find_from crlf request position ≡ position + length (line_of h)
  header : take (length (line_of h)) (drop position request) ≡ line_of h
  after : drop (position + length (line_of h) + 2) request ≡ rest

at_line :
    (request : List ℕ) (position : ℕ) (h : List ℕ × List ℕ) (rest : List ℕ)
    → IsHeader h
    → drop position request ≡ line_of h ++ (crlf ++ rest)
    → IsLineAt request position h rest
unfolding find_from
at_line request position h rest k e = record {
  line_end = rw e (find-append b'\r' (b'\n' ∷ []) (line_of h) rest position (line_of-Without h k));
  header = rw e (take-append (line_of h) (crlf ++ rest) _ refl);
  after =
      ap (λ i. drop i request) (omega arith)
      ∙ sym (drop-drop (length (line_of h) + 2) position request)
      ∙ ap (drop (length (line_of h) + 2)) e
      ∙ sym (drop-drop 2 (length (line_of h)) _)
      ∙ ap (drop 2) (drop-append (line_of h) (crlf ++ rest) _ refl);
}

read_line-new :
    (table : Headers) (name value : List ℕ) (rest : Option HeaderLines)
    → length name < 2 ^ 63
    → IsHeader (name, value)
    → Keyed.find (lower name) table ≡ none
    → read_line table (line_of (name, value)) rest ≡ rest
unfolding read_line
read_line-new table name value rest n h new =
    let present : (colon_of (line_of (name, value)) == npos) ≡ false =
      rw (colon_of-line_of name value h.0) (ground (arith, n)) in
    rw (present, name_of-line_of name value h, new) refl

pub read_headers-lines :
    (fuel : ℕ) (request more : List ℕ) (header_end : ℕ) (table hs : Headers) (position : ℕ)
    → length request < 2 ^ 63
    → All IsHeader hs
    → AreNew table hs
    → drop position request ≡ lines_text hs ++ (crlf ++ more)
    → position + length (lines_text hs) ≡ header_end + 2
    → length hs < fuel
    → read_headers fuel request header_end table position ≡ some (parsed (collect table hs))
unfolding read_headers
read_headers-lines zero request more header_end table hs position n k new e size f =
    absurd (omega arith)
read_headers-lines (suc fuel) request more header_end table [] position n k new e size f =
    let stop : ltb position header_end ≡ false = ground arith in rw stop refl
read_headers-lines (suc fuel) request more header_end table ((name, value) ∷ hs) position n k new e
      size f =
    let h : List ℕ × List ℕ = (name, value) in
    let at =
      at_line request position h (lines_text hs ++ (crlf ++ more)) k.0
        (e ∙ append_assoc (line_of h) (crlf ++ lines_text hs) (crlf ++ more)) in
    let width : length (line_of h) ≡ length name + (2 + length value) =
      length-append name (b':' ∷ b' ' ∷ value) ∙ omega arith in
    let total : length (lines_text (h ∷ hs)) ≡ length (line_of h) + (2 + length (lines_text hs)) =
      length-append (line_of h) (crlf ++ lines_text hs) ∙ omega arith in
    let room : length request - position ≡ length (lines_text (h ∷ hs)) + (2 + length more) =
      sym (length-drop position request)
      ∙ ap length e
      ∙ length-append (lines_text (h ∷ hs)) (crlf ++ more)
      ∙ omega arith in
    let before : ltb position header_end ≡ true = ground (arith, size, total, width) in
    let short : sub_size (position + length (line_of h)) position ≡ length (line_of h) =
      omega (arith, room, total, n) in
    let step : add_size (position + length (line_of h)) 2 ≡ position + length (line_of h) + 2 =
      omega (arith, room, total, n) in
    let small : length name < 2 ^ 63 = omega (arith, room, total, width, n) in
    rw
      (
        before,
        at.line_end,
        short,
        at.header,
        step,
        name_of-line_of name value k.0,
        value_of-line_of name value small k.0,
      )
      (read_line-new table name value _ small k.0 new.0
        ∙ read_headers-lines fuel request more header_end _ hs _ n k.1 new.1 at.after
            (omega (arith, size, total)) (omega arith))
