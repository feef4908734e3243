-- ===== src/Server/Detection/Tests.antt =====
-- A new session that receives its first bytes, and what happens to it after them.
use iocp_engine.Base.{ℕ, inl, refl, true, none, some, List, [], ◌∷◌, arith}
use iocp_engine.Framing.Invariant as Raw
use iocp_engine.WebSocket.Decoder.Append as Web
use iocp_engine.Server.{ServerConfig, State, new_session, handshaking, MessageDisposition}
use iocp_engine.Server.Outgoing.{Answers}
use iocp_engine.Server.Detection.{handle_read}
use iocp_engine.Server.Incoming.{send_buffer, MessageHandler}
use iocp_engine.Server.Lifecycle.Ending.{Sound}
use iocp_engine.Server.Lifecycle.Detection.{Holds, handle_read-Holds}
use iocp_engine.Server.Lifecycle.Runs.{
  Event, sends, closes, reads, ticks, disconnects, run, run-Holds,
}

abbrev config : ServerConfig
config = record {
  max_message_bytes = 16;
  max_session_inbound_bytes = 64;
  max_global_inbound_bytes = 100;
  max_session_queued_bytes = 400;
  max_global_queued_bytes = 800;
  max_handshake_bytes = 60;
  max_messages_per_second = 2;
  malformed_message_limit = 3;
  handshake_timeout = 50;
  idle_timeout = 600;
  websocket_ping_interval = 200;
  websocket_pong_timeout = 100;
  close_timeout = 30;
  origin_validator = none;
}

abbrev first : State
unfolding new_session
first = record {
  session = record (new_session config 1000) { state = handshaking };
  metrics = record {
    active_connections = 1;
    received_messages = 0;
    sent_messages = 0;
    malformed_messages = 0;
    send_failures = 0;
    queued_bytes = 0;
    inbound_bytes = 0;
  };
  registered = true;
  writing = [];
  disconnects = 0;
}

first-Sound : Sound first
unfolding new_session
first-Sound = (
  inl (refl, refl, refl, refl, refl),
  Raw.new-IsValid 16 64 (omega arith),
  Web.new-IsValid 16 64 true (omega arith) (omega arith),
  tt,
)

abbrev yes_to_all : Answers
yes_to_all = record { allocates = true; posts = true }

-- A frame on raw TCP: one message of two bytes.
abbrev frame : List ℕ
frame = 0 ∷ 0 ∷ 0 ∷ 2 ∷ 7 ∷ 8 ∷ []

handle_read-Holds_example :
    Holds first (handle_read config yes_to_all 1010 none first true frame true)
handle_read-Holds_example =
    handle_read-Holds config yes_to_all 1010 none first true frame true (omega arith) (omega arith)
      (inl first-Sound)
      (omega arith, (omega arith, (omega arith, (omega arith, (omega arith, (omega arith, tt))))))

abbrev echo : MessageHandler
echo = some (λ s message. (send_buffer (some message) ∷ [], MessageDisposition.accepted))

-- The first read says that the transport is raw TCP, and the message is sent back.
abbrev a_life : List (Answers × ℕ × Event)
a_life =
    (yes_to_all, 1010, reads true frame true)
    ∷ (yes_to_all, 1020, sends (some (8 ∷ [])))
    ∷ (yes_to_all, 1100, ticks)
    ∷ (yes_to_all, 1200, closes 1000 [])
    ∷ (yes_to_all, 1210, disconnects)
    ∷ (yes_to_all, 1220, reads true frame true)
    ∷ []

run-Holds_example : Holds first (run config echo a_life first)
run-Holds_example =
    run-Holds config echo a_life first (omega arith) (omega arith) (omega arith) (inl first-Sound)
