-- ===== src/WebSocket/Handshake/Total.antt =====
-- `ParseHandshake` on any bytes.
use iocp_engine.Base.{
  ℕ, suc, ◌+◌, ◌^◌, ◌<◌, ◌≤◌, ◌≡◌, ◌≢◌, refl, ◌∙◌, true, false, Bool-cases, inl, inr, ◌⊎◌, ◌==◌,
  ==_iff, ltb, some, List, [], length, drop, arith,
}
use Prim.Native.String.{String}
use iocp_engine.Base.Text.{ascii, starts_with}
use iocp_engine.Base.Keyed.{text_key}
use iocp_engine.Base.Keyed as Keyed
use iocp_engine.WebSocket.Handshake.Strings.{npos, find, find_from, substr}
use iocp_engine.WebSocket.Handshake.{
  need_more_data, accepted, rejected, HandshakeResult, OriginValidator, refuse, bad_request, crlf,
  header_terminator, is_upgrade_line, HeaderLines, text_of, are_upgrade_headers, allows,
  judge_headers, judge_lines, map_lines, parse_handshake,
}
use iocp_engine.WebSocket.Handshake.Finding.{find_le, find_found}
use iocp_engine.WebSocket.Handshake.Rounds.{
  At, At-bound, terminator-crlf, find_from_le, read_headers-some,
}

-- The answers, by their status line.
abbrev IsAnswer : ℕ → HandshakeResult → Type 0
IsAnswer consumed r =
    (r.consumed ≡ consumed)
    × (((r.status ≡ rejected) × (starts_with r.response (ascii "HTTP/1.1 4") ≡ true))
        ⊎ ((r.status ≡ accepted) × (starts_with r.response (ascii "HTTP/1.1 101 ") ≡ true)))

judge_lines-IsAnswer :
    (v : OriginValidator) (consumed : ℕ) (lines : HeaderLines)
    → IsAnswer consumed (judge_lines v consumed lines)
unfolding judge_lines judge_headers starts_with
judge_lines-IsAnswer v consumed HeaderLines.no_colon = (refl, inl (refl, refl))
judge_lines-IsAnswer v consumed HeaderLines.duplicate = (refl, inl (refl, refl))
judge_lines-IsAnswer v consumed (HeaderLines.parsed headers) =
    elim (Bool-cases (are_upgrade_headers headers)) [
      | inl e ↦ elim (Bool-cases (allows v (text_of (Keyed.find (ascii "origin") headers)))) [
        | inl f ↦ rw (e, f) (refl, inr (refl, refl))
        | inr f ↦ rw (e, f) (refl, inl (refl, refl))
      ]
      | inr e ↦ rw e (refl, inl (refl, refl))
    ]

-- What an answer is, for a request of `request` that is read up to its first empty line.
abbrev pub Waits : List ℕ → ℕ → HandshakeResult → Type 0
Waits request max_header_bytes r =
    (r.status ≡ need_more_data)
    × (r.response ≡ [])
    × (length request ≤ max_header_bytes)
    × ((i : ℕ) → starts_with (drop i request) header_terminator ≡ false)

abbrev pub Rejects : List ℕ → HandshakeResult → Type 0
Rejects request r =
    (r.status ≡ rejected)
    × (starts_with r.response (ascii "HTTP/1.1 4") ≡ true)
    × (r.consumed ≤ length request)

abbrev pub Accepts : List ℕ → HandshakeResult → Type 0
Accepts request r =
    (r.status ≡ accepted)
    × (starts_with r.response (ascii "HTTP/1.1 101 ") ≡ true)
    × (r.consumed ≤ length request)
    × ((i : ℕ) × (r.consumed ≡ i + 4)
        × (starts_with (drop i request) header_terminator ≡ true)
        × ((j : ℕ) → starts_with (drop j request) header_terminator ≡ true → i ≤ j))

abbrev Sorted : List ℕ → ℕ → HandshakeResult → Type 0
Sorted request max_header_bytes r =
    Waits request max_header_bytes r ⊎ (Rejects request r ⊎ Accepts request r)

-- The end of the headers is at the first empty line.
find-terminator :
    (request : List ℕ)
    → find_from header_terminator request 0 ≢ npos
    → At header_terminator request (find_from header_terminator request 0)
      × ((j : ℕ) → At header_terminator request j → find_from header_terminator request 0 ≤ j)
unfolding find_from
find-terminator request h =
    let (i, e, k, g) = find_found header_terminator request 0 h in
    let same_place : find header_terminator request 0 ≡ i = e ∙ omega arith in
    (
      rw same_place g,
      λ j a. omega (
        arith,
        (find_le header_terminator request 0 j
            (omega (arith, At-bound header_terminator request j (omega arith) a)) a).1,
      ),
    )

absent-terminator :
    (request : List ℕ)
    → length request < 2 ^ 63
    → find_from header_terminator request 0 ≡ npos
    → (i : ℕ) → starts_with (drop i request) header_terminator ≡ false
unfolding find_from
absent-terminator request n h i =
    elim (Bool-cases (starts_with (drop i request) header_terminator)) [
      | inr e ↦ e
      | inl e ↦
          let bound = At-bound header_terminator request i (omega arith) e in
          absurd (
            omega
              (arith, h, bound, (find_le header_terminator request 0 i (omega (arith, bound)) e).1))
    ]

answer-Sorted :
    (request : List ℕ) (max header_end : ℕ) (r : HandshakeResult)
    → At header_terminator request header_end
    → ((j : ℕ) → At header_terminator request j → header_end ≤ j)
    → IsAnswer (header_end + 4) r
    → Sorted request max r
answer-Sorted request max header_end r a f (e, inl (s, t)) =
    inr
      (inl (s, t, omega (arith, e, At-bound header_terminator request header_end (omega arith) a)))
answer-Sorted request max header_end r a f (e, inr (s, t)) = inr (
    inr (
      s,
      t,
      omega (arith, e, At-bound header_terminator request header_end (omega arith) a),
      (header_end, e, a, f),
    ))

bad_request-IsAnswer :
    (consumed : ℕ) (error : String) → IsAnswer consumed (refuse consumed bad_request error)
unfolding starts_with
bad_request-IsAnswer consumed error = (refl, inl (refl, refl))

-- For fewer than 2^63 bytes the parser answers. It waits only within the limit, when no empty line has
-- arrived, and then writes nothing. Otherwise it rejects with a status line of 400 to 499 and has consumed
-- no more than there is, or it accepts with the status line 101 and has consumed what ends with the
-- first empty line.
pub parse_handshake-some :
    (request : List ℕ) (max_header_bytes : ℕ) (v : OriginValidator)
    → length request < 2 ^ 63
    → (r : HandshakeResult) × (parse_handshake request max_header_bytes v ≡ some r)
      × (Waits request max_header_bytes r ⊎ (Rejects request r ⊎ Accepts request r))
unfolding parse_handshake map_lines
parse_handshake-some request max v n = elim (Bool-cases (ltb max (length request))) [
  | inl e ↦ rw e (_, refl, inr (inl (refl, unfold starts_with in refl, omega arith)))
  | inr e ↦ elim (Bool-cases (find_from header_terminator request 0 == npos)) [
    | inl f ↦
        rw (e, f)
          (
            _,
            refl,
            inl (refl, refl, ground (arith, e), absent-terminator request n ((==_iff _ _).0 f)),
          )
    | inr f ↦
        let header_end : ℕ = find_from header_terminator request 0 in
        let (a, first) = find-terminator request (ground (arith, f, ==_iff header_end npos)) in
        let bound = At-bound header_terminator request header_end (omega arith) a in
        let ends = terminator-crlf (drop header_end request) a in
        let line_end =
          (find_from_le crlf request 0 header_end (omega arith) (omega arith) ends).1 in
        let found : (find_from crlf request 0 == npos) ≡ false =
          ground (arith, bound, line_end, n) in
        elim (Bool-cases (is_upgrade_line (substr request 0 (find_from crlf request 0)))) [
          | inr g ↦
              rw (e, f, found, g)
                (
                  _,
                  refl,
                  answer-Sorted request max header_end
                      (refuse (header_end + 4) bad_request
                        "WebSocket upgrade requires GET over HTTP/1.1")
                      a first
                      (bad_request-IsAnswer (header_end + 4)
                        "WebSocket upgrade requires GET over HTTP/1.1"),
                )
          | inl g ↦
              let (lines, read) =
                read_headers-some (suc (length request)) request header_end []
                  (find_from crlf request 0 + 2) n ends (omega (arith, line_end))
                  (omega (arith, bound)) in
              rw (e, f, found, g, read)
                (
                  _,
                  refl,
                  answer-Sorted request max header_end (judge_lines v (header_end + 4) lines) a
                      first (judge_lines-IsAnswer v (header_end + 4) lines),
                )
        ]
  ]
]
