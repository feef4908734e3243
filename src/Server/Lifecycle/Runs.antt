-- ===== src/Server/Lifecycle/Runs.antt =====
-- Any sequence of what can happen to one session, handled one after another.
use iocp_engine.Base.{
  ℕ, ◌<◌, ◌^◌, ◌≡◌, ◌⊎◌, inl, inr, subst, sym, refl, Bool, true, false, List, [], ◌∷◌, Option, none,
  some, arith, All, IsByte,
}
use iocp_engine.SendCursor.{SharedBuffer}
use iocp_engine.WebSocket.{WsOpcode}
use iocp_engine.Server.{State, ServerConfig, OutboundItem}
use iocp_engine.Server.Outgoing.{Answers, disconnect, finish_failed, finish_sent}
use iocp_engine.Server.Control.{send, close}
use iocp_engine.Server.Incoming.{MessageHandler}
use iocp_engine.Server.Detection.{handle_read}
use iocp_engine.Server.Timer.{check_pong, tick_open, tick}
use iocp_engine.Server.Timer.Expiry.{pinged}
use iocp_engine.Server.Lifecycle.{
  Lifecycle, Onward, Onward-self, Onward-trans, if_Onward, disconnect-Onward,
}
use iocp_engine.Server.Lifecycle.Sending.{
  finish_failed-Onward, finish_sent-Onward, send_control-Onward, close-Onward, send-Gives,
}
use iocp_engine.Server.Lifecycle.Ending.{Sound, Onward-Ends}
use iocp_engine.Server.Lifecycle.Torn.{
  Torn, disconnect-Torn, send-Torn, close-Torn, tick-Torn, finish_failed-Torn, finish_sent-Torn,
}
use iocp_engine.Server.Lifecycle.Detection.{Good, Holds, Ends-Holds, handle_read-Holds}

-- `reads`: a completed read, whether it succeeded, its bytes, and whether the server runs and posts the
-- next one.
pub data Event : Type 0 where
  sends : SharedBuffer → Event
  closes : ℕ → List ℕ → Event
  reads : Bool → List ℕ → Bool → Event
  write_finishes write_fails : OutboundItem → Event
  ticks disconnects : Event

pub after_send : Option (Bool × State) → Option State
after_send none = none
after_send (some (taken, s)) = some s

pub handle : ServerConfig → MessageHandler → Answers → ℕ → Event → State → Option State
handle c h a now (sends b) s = after_send (send c a s b)
handle c h a now (closes code reason) s = some (close c a now s code reason)
handle c h a now (reads succeeded bytes goes_on) s = handle_read c a now h s succeeded bytes goes_on
handle c h a now (write_finishes item) s = some (finish_sent a s item)
handle c h a now (write_fails item) s = some (finish_failed s item)
handle c h a now ticks s = some (tick c a now s)
handle c h a now disconnects s = some (disconnect s)

abbrev pub BytesOf : Event → Type 0
BytesOf (reads succeeded bytes goes_on) = All IsByte bytes
BytesOf _ = Unit

pinged-Onward : (s : State) (now : ℕ) → Lifecycle s → Onward s (pinged s now)
pinged-Onward s now v = ground arith

check_pong-Onward :
    (c : ServerConfig) (a : Answers) (now : ℕ) (s : State)
    → Lifecycle s
    → Onward s (check_pong c a now s)
unfolding check_pong
check_pong-Onward c a now s v =
    let w : Onward s (pinged s now) = pinged-Onward s now v in
    if_Onward s _ (if_Onward s _ (disconnect-Onward s v).1 (Onward-self s v)) (
      if_Onward s _
        (Onward-trans s _ _ w
          (send_control-Onward c a now (pinged s now) WsOpcode.ping [] false w.lifecycle))
        (Onward-self s v))

tick_open-Onward :
    (c : ServerConfig) (a : Answers) (now : ℕ) (s : State)
    → Lifecycle s
    → Onward s (tick_open c a now s)
unfolding tick_open
tick_open-Onward c a now s v =
    if_Onward s _ (disconnect-Onward s v).1
      (if_Onward s _ (check_pong-Onward c a now s v) (Onward-self s v))

tick-Onward :
    (c : ServerConfig) (a : Answers) (now : ℕ) (s : State) → Lifecycle s → Onward s (tick c a now s)
unfolding tick
tick-Onward c a now s v =
    ground (arith, (disconnect-Onward s v).1, tick_open-Onward c a now s v, Onward-self s v)

Onward-Holds : (s t : State) → Sound s → Onward s t → Holds s (some t)
Onward-Holds s t v w = Ends-Holds s (some t) (Onward-Ends s t v w)

handle-Sound :
    (c : ServerConfig) (h : MessageHandler) (a : Answers) (now : ℕ) (e : Event) (s : State)
    → c.max_message_bytes < 2 ^ 32
    → c.max_session_inbound_bytes < 2 ^ 63
    → BytesOf e
    → Sound s
    → Holds s (handle c h a now e s)
unfolding handle after_send
handle-Sound c h a now (sends b) s k n l v =
    let (r, e, w) = send-Gives c a s b k v.0 in
    subst (λ o. Holds s (after_send o)) (sym e) (Onward-Holds s r.1 v w)
handle-Sound c h a now (closes code reason) s k n l v =
    Onward-Holds s _ v (close-Onward c a now s code reason v.0)
handle-Sound c h a now (reads succeeded bytes goes_on) s k n l v =
    handle_read-Holds c a now h s succeeded bytes goes_on k n (inl v) l
handle-Sound c h a now (write_finishes item) s k n l v =
    Onward-Holds s _ v (finish_sent-Onward a s item v.0)
handle-Sound c h a now (write_fails item) s k n l v =
    Onward-Holds s _ v (finish_failed-Onward s item v.0)
handle-Sound c h a now ticks s k n l v = Onward-Holds s _ v (tick-Onward c a now s v.0)
handle-Sound c h a now disconnects s k n l v = Onward-Holds s _ v (disconnect-Onward s v.0).1

Torn-Holds : (s t : State) → Torn t → Holds s (some t)
Torn-Holds s t v = (t, refl, inr v, inr v.0)

handle-Torn :
    (c : ServerConfig) (h : MessageHandler) (a : Answers) (now : ℕ) (e : Event) (s : State)
    → c.max_message_bytes < 2 ^ 32
    → c.max_session_inbound_bytes < 2 ^ 63
    → BytesOf e
    → Torn s
    → Holds s (handle c h a now e s)
unfolding handle after_send
handle-Torn c h a now (sends b) s k n l v = rw (send-Torn c a s b v) (Torn-Holds s s v)
handle-Torn c h a now (closes code reason) s k n l v =
    rw (close-Torn c a now s code reason v) (Torn-Holds s s v)
handle-Torn c h a now (reads succeeded bytes goes_on) s k n l v =
    handle_read-Holds c a now h s succeeded bytes goes_on k n (inr v) l
handle-Torn c h a now (write_finishes item) s k n l v = Torn-Holds s _ (finish_sent-Torn a s item v)
handle-Torn c h a now (write_fails item) s k n l v = Torn-Holds s _ (finish_failed-Torn s item v)
handle-Torn c h a now ticks s k n l v = rw (tick-Torn c a now s v) (Torn-Holds s s v)
handle-Torn c h a now disconnects s k n l v = rw (disconnect-Torn s v) (Torn-Holds s s v)

handle-Holds :
    (c : ServerConfig) (h : MessageHandler) (a : Answers) (now : ℕ) (e : Event) (s : State)
    → c.max_message_bytes < 2 ^ 32
    → c.max_session_inbound_bytes < 2 ^ 63
    → BytesOf e
    → Good s
    → Holds s (handle c h a now e s)
handle-Holds c h a now e s k n l (inl v) = handle-Sound c h a now e s k n l v
handle-Holds c h a now e s k n l (inr v) = handle-Torn c h a now e s k n l v

Holds-trans :
    (s t : State) (o : Option State)
    → (s.session.disconnect_started ≡ false) ⊎ (t.session.disconnect_started ≡ true)
    → Holds t o
    → Holds s o
Holds-trans s t o d (u, e, g, w) = (u, e, g, ground (arith, d, w))

pub and_then : (State → Option State) → Option State → Option State
and_then f none = none
and_then f (some s) = f s

-- Each event with what the system answers and the time.
pub run : ServerConfig → MessageHandler → List (Answers × ℕ × Event) → State → Option State
run c h [] s = some s
run c h ((a, now, e) ∷ es) s = and_then (run c h es) (handle c h a now e s)

-- Any sequence of events on a session is handled to its end, with any handler and any answers of the
-- operating system: sends, closes, completed reads in any transport, detection and handshake included,
-- completed and failed writes, ticks and disconnects. The session starts live or closed with valid
-- decoders, or torn down once; `max_message_bytes` is below 2^32, `max_session_inbound_bytes` below 2^63,
-- and what is read consists of bytes. The session is afterwards live with valid decoders, or was torn
-- down exactly once, with its socket closed and its queue empty; and one that was torn down before stays
-- so. Only `state` of a session that was torn down may say otherwise.
pub run-Holds :
    (c : ServerConfig) (h : MessageHandler) (es : List (Answers × ℕ × Event)) (s : State)
    → c.max_message_bytes < 2 ^ 32
    → c.max_session_inbound_bytes < 2 ^ 63
    → All (λ e. BytesOf e.2) es
    → Good s
    → Holds s (run c h es s)
unfolding run and_then
run-Holds c h [] s k n l v = (s, refl, v, ground arith)
run-Holds c h ((a, now, e) ∷ es) s k n (b, bs) v =
    let (t, p, w, d) = handle-Holds c h a now e s k n b v in
    subst (λ o. Holds s (and_then (run c h es) o)) (sym p)
      (Holds-trans s t (run c h es t) d (run-Holds c h es t k n bs w))
