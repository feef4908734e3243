-- ===== src/Framing/Drain.antt =====
-- The loop around the accumulator, as `ProcessRaw` of src/core/iocp_server.cpp runs it for each receive
-- completion: append, then take messages until none is ready.
use iocp_engine.Base.{
  ℕ, zero, suc, ◌+◌, ◌≤◌, ◌<◌, ◌^◌, ◌≡◌, refl, sym, ◌∙◌, ap, inl, inr, false, List, [], ◌∷◌, ◌++◌,
  arith, length, concat, map, if◌then◌else◌, All, IsByte, append_assoc, append-nil, dec_lt,
  All-append_right, append_split, append_nil_left,
}
use iocp_engine.Framing.{
  Accumulator, new, FrameDecodeStatus, need_more_data, message_ready, buffer_limit_exceeded, append,
  next,
}
use iocp_engine.Framing.Stream.{
  Fits, frame, decode, decode-frame, decode_cut, decode_waiting, decode_shrinks,
}
use iocp_engine.Framing.Invariant.{pending, IsValid, append-Extends, new-IsValid}
use iocp_engine.Framing.Refine.{Advances, next-decode}

-- A final status `message_ready` means that the fuel ran out.
pub drain : ℕ → Accumulator → List (List ℕ) × FrameDecodeStatus × Accumulator
drain zero a = ([], message_ready, a)
drain (suc fuel) a =
    let (status, message, b) = next a in
    elim status [
      | message_ready ↦ let (more, last, c) = drain fuel b in (message ∷ more, last, c)
      | other ↦ ([], other, b)
    ]

-- A frame takes five bytes at least, so one round for each buffered byte is enough.
pub receive : Accumulator → List ℕ → List (List ℕ) × FrameDecodeStatus × Accumulator
receive a bytes =
    let (ok, b) = append a bytes in
    if ok then drain (suc (length (pending b))) b else ([], buffer_limit_exceeded, b)

pub receive_all : Accumulator → List (List ℕ) → List (List ℕ) × Accumulator
receive_all a [] = ([], a)
receive_all a (bytes ∷ rest) =
    let (messages, status, b) = receive a bytes in
    let (more, c) = receive_all b rest in (messages ++ more, c)

abbrev frames : List (List ℕ) → List ℕ
frames ms = concat (map frame ms)

-- What draining leaves of a stream `s` that begins the frames of `ms`: the messages that are whole.
record Drained (a : Accumulator) (ms : List (List ℕ)) (rest : List ℕ)
    (out : List (List ℕ) × FrameDecodeStatus × Accumulator) : Type 0 where
  left : List (List ℕ)
  split : ms ≡ out.0 ++ left
  waits : decode out.2.max_message_bytes (pending out.2) ≡ (need_more_data, [], pending out.2)
  status : out.1 ≡ need_more_data
  onward : pending out.2 ++ rest ≡ frames left
  advances : Advances a out.2

-- The flag is carried along, since `next` answers by it first.
abbrev IsReady : Accumulator → Type 0
IsReady a = IsValid a × (a.limit_exceeded ≡ false)

drain_waits :
    (fuel : ℕ) (a : Accumulator) (ms : List (List ℕ)) (rest : List ℕ)
    → IsReady a
    → decode a.max_message_bytes (pending a) ≡ (need_more_data, [], pending a)
    → pending a ++ rest ≡ frames ms
    → Drained a ms rest (drain (suc fuel) a)
unfolding drain
drain_waits fuel a ms rest v d e =
    let (n, adv) = next-decode a v.0 v.1 in
    record {
      left = ms;
      split = ground arith;
      waits = ground arith;
      status = ground arith;
      onward = ground arith;
      advances = ground arith;
    }

drain_takes :
    (fuel : ℕ) (a : Accumulator) (m w rest : List ℕ) (ms : List (List ℕ))
    → IsReady a
    → decode a.max_message_bytes (pending a) ≡ (message_ready, m, w)
    → ((b : Accumulator) → Advances a b → pending b ≡ w → Drained b ms rest (drain fuel b))
    → Drained a (m ∷ ms) rest (drain (suc fuel) a)
unfolding drain
drain_takes fuel a m w rest ms v d next_round =
    let (n, adv) = next-decode a v.0 v.1 in
    let later = next_round (next a).2 adv (ground arith) in
    record {
      left = later.left;
      split = ground arith;
      waits = ground arith;
      status = ground arith;
      onward = ground arith;
      advances = ground arith;
    }

advanced : {a b : Accumulator} → IsReady a → Advances a b → IsReady b
advanced v adv = (adv.valid, adv.same_flag ∙ v.1)

drain_lem :
    (fuel : ℕ) (a : Accumulator) (ms : List (List ℕ)) (rest : List ℕ)
    → IsReady a
    → All (Fits a.max_message_bytes) ms
    → pending a ++ rest ≡ frames ms
    → length (pending a) < fuel
    → Drained a ms rest (drain fuel a)
drain_lem zero a ms rest v f e h = absurd (omega arith)
drain_lem (suc fuel) a [] rest v f e h =
    drain_waits fuel a [] rest v (rw (append_nil_left (pending a) rest e) (unfold decode in refl)) e
drain_lem (suc fuel) a (m ∷ ms) rest v f e h =
    elim (dec_lt (length (pending a)) (length (frame m))) [
      | yes short ↦
          drain_waits fuel a (m ∷ ms) rest v
            (decode_cut a.max_message_bytes m (pending a) rest (frames ms) f.0 e short) e
      | no whole ↦
          let (w, p, q) = append_split (frame m) (pending a) rest (frames ms) e (omega arith) in
          let d : decode a.max_message_bytes (pending a) ≡ (message_ready, m, w) =
            rw p (decode-frame a.max_message_bytes m w f.0) in
          drain_takes fuel a m w rest ms v d λ b adv pb.
            drain_lem fuel b ms rest (advanced v adv) (rw adv.same_message_limit f.1) (rw pb q)
              (rw pb (omega (arith, decode_shrinks a.max_message_bytes (pending a) m w d)))
    ]

-- A chunk that fits is appended and drained.
receive_lem :
    (a : Accumulator) (ms : List (List ℕ)) (bytes rest : List ℕ)
    → IsReady a
    → All (Fits a.max_message_bytes) ms
    → All IsByte bytes
    → length (pending a) + length bytes ≤ a.max_buffered_bytes
    → pending a ++ (bytes ++ rest) ≡ frames ms
    → let out = receive a bytes in
      (left : List (List ℕ)) × (ms ≡ out.0 ++ left)
      × (decode out.2.max_message_bytes (pending out.2) ≡ (need_more_data, [], pending out.2))
      × (pending out.2 ++ rest ≡ frames left)
      × IsReady out.2
      × (out.2.max_message_bytes ≡ a.max_message_bytes)
      × (out.2.max_buffered_bytes ≡ a.max_buffered_bytes)
      × (out.1 ≡ need_more_data)
unfolding receive
receive_lem a ms bytes rest v f hb fit e = elim (append-Extends a bytes v.0 hb) [
  | inl (_, ok, x, flag) ↦
      let b = (append a bytes).1 in
      let d =
        drain_lem (suc (length (pending b))) b ms rest (x.valid, flag ∙ v.1)
          (rw x.same_message_limit f) (rw x.grown (append_assoc (pending a) bytes rest ∙ e))
          (omega arith) in
      rw ok (
        d.left,
        d.split,
        d.waits,
        d.onward,
        advanced (x.valid, flag ∙ v.1) d.advances,
        d.advances.same_message_limit ∙ x.same_message_limit,
        d.advances.same_buffer_limit ∙ x.same_buffer_limit,
        d.status,
      )
  | inr full ↦ absurd (full.0 fit)
]

receive_all_lem :
    (chunks : List (List ℕ)) (a : Accumulator) (ms : List (List ℕ)) (c : ℕ)
    → IsReady a
    → decode a.max_message_bytes (pending a) ≡ (need_more_data, [], pending a)
    → All (Fits a.max_message_bytes) ms
    → All (λ k. All IsByte k × (length k ≤ c)) chunks
    → 3 + a.max_message_bytes + c ≤ a.max_buffered_bytes
    → pending a ++ concat chunks ≡ frames ms
    → ((receive_all a chunks).0 ≡ ms) × (pending (receive_all a chunks).1 ≡ [])
unfolding receive_all
receive_all_lem [] a [] c v d f k b e = (refl, append_nil_left (pending a) [] e)
receive_all_lem [] a (m ∷ ms) c v d f k b e =
    absurd (cc (d, decode-frame a.max_message_bytes m (frames ms) f.0, append-nil (pending a), e))
receive_all_lem (bytes ∷ chunks) a ms c v d f k b e =
    let waiting = decode_waiting a.max_message_bytes (pending a) (ap (λ t. t.0) d) in
    let (left, s, w, on, v', m', b', _) =
      receive_lem a ms bytes (concat chunks) v f k.0.0 (omega arith) e in
    let ih =
      receive_all_lem chunks (receive a bytes).2 left c v' w
        (rw m' (All-append_right (Fits a.max_message_bytes) (receive a bytes).0 left (rw s at f)))
        k.1 (rw (m', b') b) on in
    (ap (◌++◌ (receive a bytes).0) ih.0 ∙ sym s, ih.1)

-- However the network cuts the frames of some messages into chunks, a fresh accumulator that drains
-- after each chunk hands out exactly those messages, in order, and keeps no byte. The conditions:
-- each message is of 1 to `max_message` bytes and under 2 ^ 32, each chunk is of bytes and at most
-- `c` long, and the buffer limit leaves room for a chunk behind a partial frame.
pub receive_all-frames :
    (max_message max_buffered c : ℕ) (ms chunks : List (List ℕ))
    → max_buffered ≤ 2 ^ 61
    → 3 + max_message + c ≤ max_buffered
    → All (Fits max_message) ms
    → All (λ k. All IsByte k × (length k ≤ c)) chunks
    → concat chunks ≡ concat (map frame ms)
    → let (messages, a) = receive_all (new max_message max_buffered) chunks in
      (messages ≡ ms) × (pending a ≡ [])
unfolding new decode
receive_all-frames max_message max_buffered c ms chunks limit room f k e =
    receive_all_lem chunks (new max_message max_buffered) ms c
      (new-IsValid max_message max_buffered limit, refl) refl f k room e
