-- ===== src/SendCursor/Progress.antt =====
-- The two remainders against the wire bytes, under partial writes.
use iocp_engine.Base.{
  ℕ, ◌+◌, ◌-◌, ◌^◌, ◌≤◌, ◌<◌, ◌≡◌, ◌↔◌, refl, sym, ◌∙◌, ap, true, none, some, List, [], ◌∷◌, ◌++◌,
  arith, length, length-append, length-take, length-drop, take, drop, replicate, dec_le,
  take-append, drop-all, drop-drop, drop-append_any, drop-nil, take-append-drop, append_assoc, min,
  append-nil, ==_iff,
}
use iocp_engine.SendCursor.{
  SendCursor, SharedBuffer, buffer_size, new, remaining, complete, consume, header_remainder,
  payload_remainder,
}

abbrev pub payload_bytes : SharedBuffer → List ℕ
payload_bytes none = []
payload_bytes (some bytes) = bytes

-- All that the cursor has to send.
abbrev pub wire : SendCursor → List ℕ
wire c = take c.header_size c.header ++ payload_bytes c.payload

-- What is still to be sent, as the two buffers of the next gathered write.
abbrev pub unsent : SendCursor → List ℕ
unsent c = header_remainder c ++ payload_remainder c

pub record IsValid (c : SendCursor) : Type 0 where
  pub header_in : c.header_size ≤ length c.header
  pub small : c.header_size + buffer_size c.payload < 2 ^ 63
  pub sent_in : c.sent ≤ c.header_size + buffer_size c.payload

pub new-IsValid :
    (header : List ℕ) (payload : SharedBuffer) (c : SendCursor)
    → buffer_size payload < 2 ^ 62
    → new header payload ≡ some c
    → IsValid c × (unsent c ≡ header ++ payload_bytes payload)
unfolding new header_remainder payload_remainder
new-IsValid header none c h e = ground (
  arith,
  length-append header (replicate (16 - length header) 0),
  take-append header (replicate (16 - length header) 0) (length header),
)
new-IsValid header (some p) c h e = ground (
  arith,
  length-append header (replicate (16 - length header) 0),
  take-append header (replicate (16 - length header) 0) (length header),
)

pub remaining_lem :
    (c : SendCursor) → IsValid c → remaining c ≡ c.header_size + buffer_size c.payload - c.sent
unfolding remaining
remaining_lem c v = omega arith

-- The remainders, one after the other, are the wire bytes past the ones that are sent.
pub unsent-drop : (c : SendCursor) → IsValid c → unsent c ≡ drop c.sent (wire c)
unfolding header_remainder payload_remainder
unsent-drop c v =
    rw (drop-append_any c.sent (take c.header_size c.header) (payload_bytes c.payload))
      (by_payload c.payload refl)
  where
    by_payload :
        (p : SharedBuffer)
        → c.payload ≡ p
        → unsent c
          ≡ drop c.sent (take c.header_size c.header)
            ++ drop (c.sent - length (take c.header_size c.header)) (payload_bytes p)
    by_payload none e = ground (
      arith,
      drop-all c.sent (take c.header_size c.header),
      length-take c.header_size c.header,
      drop-nil {A = ℕ} (c.sent - length (take c.header_size c.header)),
    )
    by_payload (some bytes) e =
        ground
          (arith, drop-all c.sent (take c.header_size c.header), length-take c.header_size c.header)

length-payload_bytes : (p : SharedBuffer) → length (payload_bytes p) ≡ buffer_size p
length-payload_bytes none = refl
length-payload_bytes (some bytes) = refl

pub length-unsent : (c : SendCursor) → IsValid c → length (unsent c) ≡ remaining c
length-unsent c v = omega (
  arith,
  ap {B = ℕ} length (unsent-drop c v),
  length-drop c.sent (wire c),
  length-append (take c.header_size c.header) (payload_bytes c.payload),
  length-take c.header_size c.header,
  remaining_lem c v,
  length-payload_bytes c.payload,
)

pub consume-IsValid : (c : SendCursor) (n : ℕ) → IsValid c → IsValid (consume c n)
unfolding consume
consume-IsValid c n v = ground (arith, remaining_lem c v)

sent-consume :
    (c : SendCursor) (n : ℕ) → IsValid c → (consume c n).sent ≡ c.sent + min n (remaining c)
unfolding consume
sent-consume c n v = ground (arith, remaining_lem c v)

wire-consume : (c : SendCursor) (n : ℕ) → wire (consume c n) ≡ wire c
unfolding consume
wire-consume c n = refl

drop-min : (n : ℕ) (xs : List ℕ) → drop (min n (length xs)) xs ≡ drop n xs
drop-min n xs = elim (dec_le n (length xs)) [
  | yes h ↦ let e : min n (length xs) ≡ n = omega arith in rw e
  | no h ↦
      let e : min n (length xs) ≡ length xs = omega arith in
      rw e (drop-all (length xs) xs (omega arith) ∙ sym (drop-all n xs (omega arith)))
]

-- After a write of `n` bytes the next one starts `n` bytes further on.
pub unsent-consume : (c : SendCursor) (n : ℕ) → IsValid c → unsent (consume c n) ≡ drop n (unsent c)
unsent-consume c n v =
    unsent-drop (consume c n) (consume-IsValid c n v)
    ∙ rw
        (
          wire-consume c n,
          sent-consume c n v,
          ← drop-drop (min n (remaining c)) c.sent (wire c),
          ← unsent-drop c v,
          ← length-unsent c v,
        )
        (drop-min n (unsent c))

pub complete_iff : (c : SendCursor) → IsValid c → (complete c ≡ true) ↔ (unsent c ≡ [])
unfolding complete
complete_iff c v = (
  λ h. nil_of_length (unsent c) (omega (arith, length-unsent c v, (==_iff (remaining c) 0).0 h)),
  λ h. (==_iff (remaining c) 0).1 (omega (arith, length-unsent c v, ap {B = ℕ} length h)),
)
  where
    nil_of_length : (xs : List ℕ) → length xs ≡ 0 → xs ≡ []
    nil_of_length [] h = refl
    nil_of_length (x ∷ xs) h = absurd (omega arith)

-- The completions of one write, as `HandleWrite` of src/core/iocp_server.cpp takes them: each reports
-- how many of the offered bytes went out. The result is what went out, and the cursor.
pub transmit : List ℕ → SendCursor → List ℕ × SendCursor
transmit [] c = ([], c)
transmit (n ∷ ns) c = let (out, d) = transmit ns (consume c n) in (take n (unsent c) ++ out, d)

-- Whatever the sizes of the partial writes, what went out and what is unsent make up, in order, what
-- was unsent before: no byte is lost, repeated or moved. The cursor stays valid.
pub transmit_lem :
    (ns : List ℕ) (c : SendCursor)
    → IsValid c
    → let (out, d) = transmit ns c in (out ++ unsent d ≡ unsent c) × IsValid d
unfolding transmit
transmit_lem [] c v = (refl, v)
transmit_lem (n ∷ ns) c v =
    let (same, valid) = transmit_lem ns (consume c n) (consume-IsValid c n v) in
    (
      append_assoc (take n (unsent c)) _ _
          ∙ ap (◌++◌ (take n (unsent c))) (same ∙ unsent-consume c n v)
          ∙ take-append-drop n (unsent c),
      valid,
    )

abbrev pub sum : List ℕ → ℕ
sum [] = 0
sum (n ∷ ns) = n + sum ns

unsent-transmit :
    (ns : List ℕ) (c : SendCursor) → IsValid c → unsent (transmit ns c).1 ≡ drop (sum ns) (unsent c)
unfolding transmit
unsent-transmit [] c v = refl
unsent-transmit (n ∷ ns) c v =
    unsent-transmit ns (consume c n) (consume-IsValid c n v)
    ∙ ap (drop (sum ns)) (unsent-consume c n v)
    ∙ drop-drop (sum ns) n (unsent c)

-- When the partial writes add up to the unsent bytes at least, the cursor reports completion, and
-- exactly the unsent bytes went out.
pub transmit_all :
    (ns : List ℕ) (c : SendCursor)
    → IsValid c
    → length (unsent c) ≤ sum ns
    → let (out, d) = transmit ns c in (complete d ≡ true) × (out ≡ unsent c)
transmit_all ns c v h =
    let (same, valid) = transmit_lem ns c v in
    let done = unsent-transmit ns c v ∙ drop-all (sum ns) (unsent c) h in
    (
      (complete_iff (transmit ns c).1 valid).1 done,
      sym (append-nil (transmit ns c).0) ∙ ap (◌++◌ (transmit ns c).0) (sym done) ∙ same,
    )
