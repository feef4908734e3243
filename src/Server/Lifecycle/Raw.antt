-- ===== src/Server/Lifecycle/Raw.antt =====
-- `ProcessRaw`: its end, and the life cycle of the session.
use iocp_engine.Base.{
  ◌≡◌, ◌<◌, ◌^◌, ap, subst, sym, ◌∙◌, Bool, Bool-cases, inl, inr, arith, ℕ, zero, suc, List, refl,
  Option, length, All, IsByte, length-drop,
}
use iocp_engine.Framing.{
  Accumulator, FrameDecodeStatus, message_ready, need_more_data, invalid_length,
  buffer_limit_exceeded,
}
use iocp_engine.Framing
use iocp_engine.Framing.Stream.{decode_shrinks}
use iocp_engine.Framing.Invariant.{pending, IsValid, append-Extends}
use iocp_engine.Framing.Refine.{next-decode, next_flagged}
use iocp_engine.Server.{State, ServerConfig}
use iocp_engine.Server.Outgoing.{Answers}
use iocp_engine.Server.Incoming.{
  MessageHandler, with_raw_decoder, settle_raw, raw_round, raw_loop, process_raw,
}
use iocp_engine.Server.Lifecycle.{Lifecycle, Onward, Onward-self, then_disconnect}
use iocp_engine.Server.Lifecycle.Ending.{
  Sound, Ends, Onward-Sound, Onward-Ends, Ends-trans, if_Ends, after_delivery-Ends,
}
use iocp_engine.Server.Lifecycle.Receiving.{
  deliver_message-Gives, record_malformed-Onward, update_inbound_accounting-Onward,
}

-- A step of the accumulator: it stays valid, and a message makes its rest shorter.
abbrev Shrinks : Accumulator → FrameDecodeStatus × List ℕ × Accumulator → Type 0
Shrinks a r = IsValid r.2 × (r.0 ≡ message_ready → length (pending r.2) < length (pending a))

next-Shrinks : (a : Accumulator) → IsValid a → Shrinks a (Framing.next a)
next-Shrinks a v = elim (Bool-cases a.limit_exceeded) [
  | inl e ↦ subst (Shrinks a) (sym (next_flagged a e)) (v, λ f. cc)
  | inr e ↦
      let (d, w) = next-decode a v e in
      (
        w.valid,
        λ f.
            decode_shrinks a.max_message_bytes (pending a) _ _
              (sym d ∙ ap (λ q. (q, (Framing.next a).1, pending (Framing.next a).2)) f),
      )
]

-- The rest of the loop, where `fuel` rounds are left.
abbrev Loops : ℕ → (State → Option State) → Type 0
Loops fuel next =
    (s : State) → Sound s → length (pending s.session.raw_decoder) < fuel → Ends s (next s)

raw_round-Ends :
    (fuel : ℕ) (next : State → Option State) (c : ServerConfig) (a : Answers) (now : ℕ)
    (h : MessageHandler) (s : State) (status : FrameDecodeStatus) (message : List ℕ)
    → c.max_message_bytes < 2 ^ 32
    → Loops fuel next
    → Sound s
    → (status ≡ message_ready → length (pending s.session.raw_decoder) < fuel)
    → Ends s (raw_round next c a now h s status message)
unfolding raw_round
raw_round-Ends fuel next c a now h s need_more_data message k l v w =
    Onward-Ends s _ v (update_inbound_accounting-Onward c s _ v.0)
raw_round-Ends fuel next c a now h s message_ready message k l v w =
    after_delivery-Ends next s _ v
      (λ u x.
        l u (Onward-Sound s u v x)
          (subst (λ d. length (pending d) < fuel) (sym x.same_raw) (w refl)))
      (deliver_message-Gives c a now h s message k v.0)
raw_round-Ends fuel next c a now h s invalid_length message k l v w =
    Onward-Ends s _ v (then_disconnect s _ (record_malformed-Onward s v.0))
raw_round-Ends fuel next c a now h s buffer_limit_exceeded message k l v w =
    Onward-Ends s _ v (then_disconnect s _ (record_malformed-Onward s v.0))

decoder-Lifecycle : (s : State) (d : Accumulator) → Lifecycle s → Lifecycle (with_raw_decoder s d)
decoder-Lifecycle s d v = ground arith

raw_loop-Ends :
    (fuel : ℕ) (c : ServerConfig) (a : Answers) (now : ℕ) (h : MessageHandler)
    → c.max_message_bytes < 2 ^ 32
    → Loops fuel (raw_loop fuel c a now h)
unfolding raw_loop
raw_loop-Ends zero c a now h k s v l = ground arith
raw_loop-Ends (suc fuel) c a now h k s v l =
    let r : FrameDecodeStatus × List ℕ × Accumulator = Framing.next s.session.raw_decoder in
    let n : Shrinks s.session.raw_decoder r = next-Shrinks s.session.raw_decoder v.1 in
    if_Ends s s.session.disconnect_started _ _
      (Onward-Ends s _ v (update_inbound_accounting-Onward c s _ v.0))
      (raw_round-Ends fuel (raw_loop fuel c a now h) c a now h (with_raw_decoder s r.2) r.0 r.1 k
        (raw_loop-Ends fuel c a now h k) (decoder-Lifecycle s r.2 v.0, n.0, v.2, v.3)
        (λ e. omega (arith, n.1 e)))

append-IsValid :
    (a : Accumulator) (bytes : List ℕ)
    → IsValid a
    → All IsByte bytes
    → IsValid (Framing.append a bytes).1
append-IsValid a bytes v b = elim (append-Extends a bytes v b) [
  | inl p ↦ p.2.valid
  | inr p ↦ p.2.valid
]

-- `ProcessRaw` of a valid session ends, on any bytes, with any handler and any answer of the
-- operating system, when `max_message_bytes` is below 2^32. It leaves a valid session: either live, or
-- torn down once, with its disconnect reported once, its socket closed and its queue empty; and one
-- that was torn down before stays so.
pub process_raw-Ends :
    (c : ServerConfig) (a : Answers) (now : ℕ) (h : MessageHandler) (s : State) (bytes : List ℕ)
    → c.max_message_bytes < 2 ^ 32
    → Sound s
    → All IsByte bytes
    → Ends s (process_raw c a now h s bytes)
unfolding process_raw
process_raw-Ends c a now h s bytes k v b =
    let r : Bool × Accumulator = Framing.append s.session.raw_decoder bytes in
    let d : IsValid r.1 = append-IsValid s.session.raw_decoder bytes v.1 b in
    let t : State = with_raw_decoder s r.1 in
    let w : Onward t (settle_raw c t) =
      update_inbound_accounting-Onward c t _ (decoder-Lifecycle s r.1 v.0) in
    if_Ends s r.0 _ _
      (Ends-trans s (settle_raw c t) _ w.stays_dead (
        raw_loop-Ends _ c a now h k (settle_raw c t)
          (Onward-Sound t (settle_raw c t) (decoder-Lifecycle s r.1 v.0, d, v.2, v.3) w)
          (subst (λ q. length (pending q) < suc (length r.1.buffer)) (sym w.same_raw)
            (omega (arith, length-drop r.1.cursor r.1.buffer)))))
      (Onward-Ends t _ (decoder-Lifecycle s r.1 v.0, d, v.2, v.3)
        (then_disconnect t t (Onward-self t (decoder-Lifecycle s r.1 v.0))))
