-- ===== src/WebSocket/Handshake/Rounds.antt =====
-- The loop over the header lines of any request.
use iocp_engine.Base.{
  ℕ, zero, suc, ◌+◌, ◌-◌, ◌^◌, ◌<◌, ◌≤◌, ◌≡◌, refl, ap, ◌∙◌, true, Bool-cases, inl, inr, ◌==◌, ltb,
  Option, some, List, [], ◌∷◌, length, drop, drop-drop, length-drop, arith,
}
use iocp_engine.Base.Text.{starts_with}
use iocp_engine.Base.Size.{add_size}
use iocp_engine.Base.Keyed.{text_key}
use iocp_engine.Base.Keyed as Keyed
use iocp_engine.WebSocket.Handshake.Strings.{npos, find_from}
use iocp_engine.WebSocket.Handshake.{
  Headers, crlf, header_terminator, HeaderLines, no_colon, duplicate, parsed, is_some, colon_of,
  name_of, read_line, read_headers,
}
use iocp_engine.WebSocket.Handshake.Finding.{find_le}

abbrev pub At : List ℕ → List ℕ → ℕ → Type 0
At p text i = starts_with (drop i text) p ≡ true

starts_with_size : (text p : List ℕ) → starts_with text p ≡ true → length p ≤ length text
unfolding starts_with
starts_with_size text [] h = omega arith
starts_with_size [] (c ∷ p) h = absurd (cc)
starts_with_size (x ∷ text) (c ∷ p) h = omega (arith, starts_with_size text p (ground (arith, h)))

pub At-bound : (p text : List ℕ) (i : ℕ) → 0 < length p → At p text i → i + length p ≤ length text
At-bound p text i n h = omega (arith, n, starts_with_size (drop i text) p h, length-drop i text)

-- An empty line begins with the end of a line.
pub terminator-crlf :
    (text : List ℕ) → starts_with text header_terminator ≡ true → starts_with text crlf ≡ true
unfolding starts_with
terminator-crlf [] h = absurd (cc)
terminator-crlf (a ∷ []) h = absurd (ground (arith, h))
terminator-crlf (a ∷ b ∷ text) h = ground (arith, h)

pub find_from_le :
    (p text : List ℕ) (position e : ℕ)
    → 0 < length p
    → position ≤ e
    → At p text e
    → (position ≤ find_from p text position) × (find_from p text position ≤ e)
unfolding find_from
find_from_le p text position e n k h =
    let place : position + (e - position) ≡ e = omega arith in
    let moved : drop (e - position) (drop position text) ≡ drop e text =
      drop-drop (e - position) position text ∙ ap (λ i. drop i text) place in
    let (low, high) =
      find_le p (drop position text) position (e - position)
        (omega (arith, n, length-drop position text, At-bound p text e n h)) (rw moved h) in
    (low, omega arith)

abbrev pub Ends : Option HeaderLines → Type 0
Ends o = (lines : HeaderLines) × (o ≡ some lines)

read_line-Ends :
    (headers : Headers) (header : List ℕ) (rest : Option HeaderLines)
    → Ends rest
    → Ends (read_line headers header rest)
unfolding read_line
read_line-Ends headers header rest h = elim (Bool-cases (colon_of header == npos)) [
  | inl e ↦ rw e (no_colon, refl)
  | inr e ↦ elim (Bool-cases (is_some (Keyed.find (name_of header) headers))) [
    | inl f ↦ rw (e, f) (duplicate, refl)
    | inr f ↦ rw (e, f) h
  ]
]

-- Each round of the loop moves on, and stops at the empty line.
pub read_headers-some :
    (fuel : ℕ) (request : List ℕ) (header_end : ℕ) (headers : Headers) (position : ℕ)
    → length request < 2 ^ 63
    → At crlf request header_end
    → position ≤ header_end + 2
    → header_end + 2 < position + fuel
    → Ends (read_headers fuel request header_end headers position)
unfolding read_headers
read_headers-some zero request e headers position n h b k = absurd (omega arith)
read_headers-some (suc fuel) request e headers position n h b k =
    elim (Bool-cases (ltb position e)) [
      | inr z ↦ rw z (parsed headers, refl)
      | inl z ↦
          let before : position < e = ground (arith, z) in
          let (low, high) = find_from_le crlf request position e (omega arith) (omega arith) h in
          let bound : e + 2 ≤ length request = At-bound crlf request e (omega arith) h in
          let step : add_size (find_from crlf request position) 2
              ≡ find_from crlf request position + 2 =
            omega arith in
          rw z (
            read_line-Ends headers _ _ (
              read_headers-some fuel request e _ (add_size (find_from crlf request position) 2) n h
                (omega (arith, step)) (omega (arith, step))))
    ]
