-- ===== src/Server/Incoming/Limits.antt =====
-- The limits on what a session may send: the server's inbound bytes, and the rate of messages.
use iocp_engine.Base.Text.{ascii}
use iocp_engine.Base.{
  ℕ, ◌+◌, ◌^◌, ◌<◌, ◌≤◌, ◌≡◌, ◌⊎◌, refl, ◌∙◌, true, false, List, [], ◌∷◌, arith, length, some, All,
}
use iocp_engine.Server.{State, ServerConfig}
use iocp_engine.Server.Outgoing.{Answers, update_inbound_counters, disconnect, tear_down}
use iocp_engine.Server.Outgoing.Sections.{clear_section}
use iocp_engine.Server.Control.{close}
use iocp_engine.Server.Incoming.{
  MessageHandler, update_inbound_accounting, count_message, deliver_message,
}

-- `UpdateInboundAccounting` of a live session, where the counters do not wrap around: the session's
-- share becomes `bytes`, and the server's count becomes the same with the `others` bytes, unless the
-- share grows and the count passes the limit; then the session is torn down and its share is gone.
pub update_inbound_accounting_lem :
    (c : ServerConfig) (s : State) (bytes others : ℕ)
    → s.session.disconnect_started ≡ false
    → s.metrics.inbound_bytes ≡ s.session.inbound_accounted + others
    → s.session.inbound_accounted + others < 2 ^ 64
    → bytes + others < 2 ^ 64
    → let t = update_inbound_accounting c s bytes in
      ((bytes ≤ s.session.inbound_accounted) ⊎ (bytes + others ≤ c.max_global_inbound_bytes))
        × (t.session.inbound_accounted ≡ bytes)
        × (t.metrics.inbound_bytes ≡ bytes + others)
        × (t.session.disconnect_started ≡ false)
      ⊎ (s.session.inbound_accounted < bytes)
        × (c.max_global_inbound_bytes < bytes + others)
        × (t.session.inbound_accounted ≡ 0)
        × (t.metrics.inbound_bytes ≡ others)
        × (t.session.disconnect_started ≡ true)
unfolding update_inbound_accounting update_inbound_counters disconnect tear_down clear_section
update_inbound_accounting_lem c s bytes others d e k l = ground arith

-- The arrivals of a list of times, one after the other.
pub count_messages : List ℕ → State → State
count_messages [] s = s
count_messages (t ∷ ts) s = count_messages ts (count_message t s)

abbrev pub InWindow : State → ℕ → Type 0
InWindow s now = now < s.session.rate_window_ms + 1000

count_message_lem :
    (now : ℕ) (s : State)
    → InWindow s now
    → s.session.rate_window_messages + 1 < 2 ^ 64
    → ((count_message now s).session.rate_window_ms ≡ s.session.rate_window_ms)
      × ((count_message now s).session.rate_window_messages ≡ s.session.rate_window_messages + 1)
unfolding count_message
count_message_lem now s h k = ground arith

count_messages_on :
    (ts : List ℕ) (s : State) (w : ℕ)
    → s.session.rate_window_ms ≡ w
    → All (λ t. t < w + 1000) ts
    → s.session.rate_window_messages + length ts < 2 ^ 64
    → ((count_messages ts s).session.rate_window_ms ≡ w)
      × ((count_messages ts s).session.rate_window_messages
          ≡ s.session.rate_window_messages + length ts)
unfolding count_messages
count_messages_on [] s w e h k = (e, omega arith)
count_messages_on (t ∷ ts) s w e (h, hs) k =
    let (p, q) = count_message_lem t s (omega arith) (omega arith) in
    let (x, y) = count_messages_on ts (count_message t s) w (p ∙ e) hs (omega arith) in
    (x, omega arith)

count_messages_lem :
    (ts : List ℕ) (s : State)
    → All (InWindow s) ts
    → s.session.rate_window_messages + length ts < 2 ^ 64
    → ((count_messages ts s).session.rate_window_ms ≡ s.session.rate_window_ms)
      × ((count_messages ts s).session.rate_window_messages
          ≡ s.session.rate_window_messages + length ts)
count_messages_lem ts s h k = count_messages_on ts s s.session.rate_window_ms refl h k

-- However many messages of a window are counted before it, a further one of the same window that makes
-- their number pass `max_messages_per_second` does not reach the handler: the session is closed with
-- 1008 instead.
pub rate_limited :
    (c : ServerConfig) (a : Answers) (h : MessageHandler) (s : State) (ts : List ℕ) (now : ℕ)
    (message : List ℕ)
    → All (InWindow s) ts
    → InWindow s now
    → s.session.rate_window_messages + length ts + 1 < 2 ^ 64
    → c.max_messages_per_second < s.session.rate_window_messages + length ts + 1
    → deliver_message c a now h (count_messages ts s) message
      ≡ some (
        false,
        close c a now
            (count_message now (count_messages ts s))
            1008
            (ascii "message rate limit exceeded"),
      )
unfolding deliver_message
rate_limited c a h s ts now message w v k l =
    let (p, q) = count_messages_lem ts s w (omega arith) in
    ground (arith, p, q, count_message_lem now (count_messages ts s))
