-- ===== src/Server/Timer/Expiry.antt =====
-- The deadlines of a session.
use iocp_engine.Base.{ℕ, ◌+◌, ◌<◌, ◌≡◌, ◌⊎◌, inl, true, false, [], arith}
use iocp_engine.WebSocket.{WsOpcode}
use iocp_engine.Server.{handshaking, opened, closing, ServerConfig, State}
use iocp_engine.Server.Outgoing.{Answers}
use iocp_engine.Server.Control.{is_web_socket, send_control}
use iocp_engine.Server.Timer.{check_pong, tick_open, tick}
use iocp_engine.Server.Lifecycle.{Live, Dead, disconnect-Onward}

-- Some deadline of the session is over.
abbrev pub Expired : ServerConfig → ℕ → State → Type 0
Expired c now s =
    (s.session.state ≡ handshaking) × (s.session.connected_at_ms + c.handshake_timeout < now)
    ⊎ ((s.session.state ≡ closing) × (s.session.close_started_ms + c.close_timeout < now)
        ⊎ ((s.session.state ≡ opened) × (s.session.last_activity_ms + c.idle_timeout < now)
            ⊎ (s.session.state ≡ opened)
              × (is_web_socket s.session.transport ≡ true)
              × (s.session.awaiting_pong ≡ true)
              × (s.session.last_pong_ms + c.websocket_pong_timeout < now)))

-- A ping is due.
abbrev pub PingDue : ServerConfig → ℕ → State → Type 0
PingDue c now s =
    (s.session.state ≡ opened)
    × (is_web_socket s.session.transport ≡ true)
    × (s.session.awaiting_pong ≡ false)
    × (s.session.last_pong_ms + c.websocket_ping_interval < now)

abbrev pub pinged : State → ℕ → State
pinged s now = record s { session = record s.session { awaiting_pong = true; last_pong_ms = now } }

-- A tick of a live session tears it down exactly when a deadline is over: the handshake's, the close
-- handshake's, the idle one, or the one for the answer to a ping. Otherwise it sends a ping when one is
-- due, and notes it, and does nothing else.
pub tick_lem :
    (c : ServerConfig) (a : Answers) (now : ℕ) (s : State)
    → Live s
    → Expired c now s × Dead (tick c a now s)
      ⊎ ¬ Expired c now s
        × (PingDue c now s
              × (tick c a now s ≡ send_control c a now (pinged s now) WsOpcode.ping [] false)
            ⊎ ¬ PingDue c now s × (tick c a now s ≡ s))
unfolding tick tick_open check_pong
tick_lem c a now s v = ground (arith, (disconnect-Onward s (inl v)).0)
