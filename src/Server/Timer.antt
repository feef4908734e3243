-- ===== src/Server/Timer.antt =====
-- What `TimerLoop` does with one session at each tick, for one reading `now` of the clock.
pub mod Expiry
use iocp_engine.Base.{ℕ, ◌+◌, Bool, true, false, [], ltb, if◌then◌else◌}
use iocp_engine.WebSocket.{WsOpcode}
use iocp_engine.Server.{SessionState, handshaking, opened, closing, ServerConfig, State}
use iocp_engine.Server.Outgoing.{Answers, disconnect}
use iocp_engine.Server.Control.{is_web_socket, send_control}

-- `now - since > limit` on signed numbers, where `limit` is not negative.
abbrev pub has_passed : ℕ → ℕ → ℕ → Bool
has_passed now since limit = ltb (since + limit) now

unfoldable pub check_pong : ServerConfig → Answers → ℕ → State → State
check_pong c a now s =
    if s.session.awaiting_pong
    then if has_passed now s.session.last_pong_ms c.websocket_pong_timeout then disconnect s else s
    else if has_passed now s.session.last_pong_ms c.websocket_ping_interval
    then send_control c a now
        (record s { session = record s.session { awaiting_pong = true; last_pong_ms = now } })
        WsOpcode.ping [] false
    else s

unfoldable pub tick_open : ServerConfig → Answers → ℕ → State → State
tick_open c a now s =
    if has_passed now s.session.last_activity_ms c.idle_timeout
    then disconnect s
    else if is_web_socket s.session.transport
    then check_pong c a now s
    else s

unfoldable pub tick : ServerConfig → Answers → ℕ → State → State
tick c a now s = if s.session.disconnect_started then s else elim s.session.state [
  | handshaking ↦
      if has_passed now s.session.connected_at_ms c.handshake_timeout then disconnect s else s
  | closing ↦ if has_passed now s.session.close_started_ms c.close_timeout then disconnect s else s
  | opened ↦ tick_open c a now s
  | other ↦ s
]
