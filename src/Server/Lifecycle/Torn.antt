-- ===== src/Server/Lifecycle/Torn.antt =====
-- A session that was torn down, whatever its state says since.
use iocp_engine.Base.{
  ℕ, ◌≡◌, ◌⊎◌, inl, inr, refl, ap, Bool, true, false, Option, none, some, List, [], if◌then◌else◌,
  suc, arith, subst, sym,
}
use iocp_engine.Framing
use iocp_engine.Framing.{Accumulator}
use iocp_engine.WebSocket.Decoder
use iocp_engine.WebSocket.Decoder.{WebSocketDecoder}
use iocp_engine.SendCursor.{SharedBuffer}
use iocp_engine.Server.{State, ServerConfig, OutboundItem, item_bytes}
use iocp_engine.Server.Outgoing.{
  Answers, disconnect, update_inbound_counters, send_state, with_send_state, count_failure,
  take_front, start_next_write, finish_failed, sent, finish_sent,
}
use iocp_engine.Server.Outgoing.Sections.{SendState, start_section, finish_section}
use iocp_engine.Server.Control.{send, close}
use iocp_engine.Server.Timer.{tick}
use iocp_engine.Server.Incoming.{
  MessageHandler, update_inbound_accounting, with_raw_decoder, with_websocket_decoder, settle_raw,
  settle_websocket, raw_loop, process_raw, websocket_loop, is_closing, process_websocket,
}
use iocp_engine.Server.Lifecycle.{Live, Lifecycle}

abbrev pub Torn : State → Type 0
Torn s =
    (s.session.disconnect_started ≡ true)
    × (s.session.has_socket ≡ false)
    × (s.registered ≡ false)
    × (s.disconnects ≡ 1)
    × (s.session.send_queue ≡ [])

abbrev pub Settled : State → Type 0
Settled s = Live s ⊎ Torn s

pub Lifecycle-Settled : (s : State) → Lifecycle s → Settled s
Lifecycle-Settled s (inl v) = inl v
Lifecycle-Settled s (inr v) = inr (v.0, v.2, v.3, v.4, v.5)

pub disconnect-Torn : (s : State) → Torn s → disconnect s ≡ s
unfolding disconnect
disconnect-Torn s v = rw v.0 refl

-- The accounting of a session that was torn down changes the counters only.
pub update_inbound_accounting-Torn :
    (c : ServerConfig) (s : State) (bytes : ℕ) → Torn s → Torn (update_inbound_accounting c s bytes)
unfolding update_inbound_accounting update_inbound_counters disconnect
update_inbound_accounting-Torn c s bytes v = ground arith

raw_loop-Torn :
    (fuel : ℕ) (c : ServerConfig) (a : Answers) (now : ℕ) (h : MessageHandler) (s : State)
    → Torn s
    → raw_loop (suc fuel) c a now h s ≡ some (settle_raw c s)
unfolding raw_loop
raw_loop-Torn fuel c a now h s v = rw v.0 refl

websocket_loop-Torn :
    (fuel : ℕ) (c : ServerConfig) (a : Answers) (now : ℕ) (h : MessageHandler) (s : State)
    → Torn s
    → websocket_loop (suc fuel) c a now h s ≡ some (settle_websocket c s)
unfolding websocket_loop
websocket_loop-Torn fuel c a now h s v = rw v.0 refl

if_Torn : (b : Bool) (x y : State) → Torn x → Torn y → Torn (if b then x else y)
if_Torn true x y v w = v
if_Torn false x y v w = w

abbrev pub StaysTorn : Option State → Type 0
StaysTorn o = (t : State) × (o ≡ some t) × Torn t

if_StaysTorn :
    (b : Bool) (x y : Option State) → StaysTorn x → StaysTorn y → StaysTorn (if b then x else y)
if_StaysTorn true x y v w = v
if_StaysTorn false x y v w = w

pub close-Torn :
    (c : ServerConfig) (a : Answers) (now : ℕ) (s : State) (code : ℕ) (reason : List ℕ)
    → Torn s
    → close c a now s code reason ≡ s
unfolding close
close-Torn c a now s code reason v = rw v.2 refl

pub process_raw-StaysTorn :
    (c : ServerConfig) (a : Answers) (now : ℕ) (h : MessageHandler) (s : State) (bytes : List ℕ)
    → Torn s
    → StaysTorn (process_raw c a now h s bytes)
unfolding process_raw
process_raw-StaysTorn c a now h s bytes v =
    let r : Bool × Accumulator = Framing.append s.session.raw_decoder bytes in
    let t : State = with_raw_decoder s r.1 in
    let u : Torn (settle_raw c t) = update_inbound_accounting-Torn c t _ v in
    if_StaysTorn r.0 _ _
      (
        settle_raw c (settle_raw c t),
        raw_loop-Torn _ c a now h (settle_raw c t) u,
        update_inbound_accounting-Torn c (settle_raw c t) _ u,
      )
      (t, ap some (disconnect-Torn t v), v)

pub process_websocket-StaysTorn :
    (c : ServerConfig) (a : Answers) (now : ℕ) (h : MessageHandler) (s : State) (bytes : List ℕ)
    → Torn s
    → StaysTorn (process_websocket c a now h s bytes)
unfolding process_websocket
process_websocket-StaysTorn c a now h s bytes v =
    let r : Bool × WebSocketDecoder = Decoder.append s.session.websocket_decoder bytes in
    let t : State = with_websocket_decoder s r.1 in
    let u : Torn (settle_websocket c t) = update_inbound_accounting-Torn c t _ v in
    if_StaysTorn (is_closing s.session.state) _ _ (s, refl, v)
      (if_StaysTorn r.0 _ _
        (
          settle_websocket c (settle_websocket c t),
          websocket_loop-Torn _ c a now h (settle_websocket c t) u,
          update_inbound_accounting-Torn c (settle_websocket c t) _ u,
        )
        (t, ap some (close-Torn c a now t 1009 _ v), v))

pub send-Torn :
    (c : ServerConfig) (a : Answers) (s : State) (b : SharedBuffer)
    → Torn s
    → send c a s b ≡ some (false, s)
unfolding send
send-Torn c a s none v = refl
send-Torn c a s (some payload) v = rw v.2 refl

pub tick-Torn : (c : ServerConfig) (a : Answers) (now : ℕ) (s : State) → Torn s → tick c a now s ≡ s
unfolding tick
tick-Torn c a now s v = rw v.0 refl

-- The section of a write that ended keeps the empty queue.
with_finish-Torn :
    (s : State) (n : ℕ) → Torn s → Torn (with_send_state s (finish_section (send_state s) n))
unfolding finish_section
with_finish-Torn s n v = v

start_empty : (p : SendState) → p.send_queue ≡ [] → (start_section p).send_queue ≡ []
unfolding start_section
start_empty p e = rw e refl

start_next_write-Torn : (a : Answers) (s : State) → Torn s → Torn (start_next_write a s)
unfolding start_next_write take_front
start_next_write-Torn a s v =
    let t : State = with_send_state s (start_section (send_state s)) in
    let w : Torn t = (v.0, v.1, v.2, v.3, start_empty (send_state s) v.4) in
    subst (λ q. Torn (take_front a t q)) (sym v.4) w

pub finish_failed-Torn : (s : State) (item : OutboundItem) → Torn s → Torn (finish_failed s item)
unfolding finish_failed
finish_failed-Torn s item v =
    let t : State =
      count_failure (with_send_state s (finish_section (send_state s) (item_bytes item))) in
    let w : Torn t = with_finish-Torn s (item_bytes item) v in
    subst Torn (sym (disconnect-Torn t w)) w

pub finish_sent-Torn :
    (a : Answers) (s : State) (item : OutboundItem) → Torn s → Torn (finish_sent a s item)
unfolding finish_sent sent
finish_sent-Torn a s item v =
    let w : Torn (sent s item) = with_finish-Torn s (item_bytes item) v in
    if_Torn item.close_after _ _ (subst Torn (sym (disconnect-Torn (sent s item) w)) w)
      (start_next_write-Torn a (sent s item) w)
