-- ===== src/Server/Tests.antt =====
-- A small server with one session, and the theorems at it.
use iocp_engine.Base.Text.{ascii}
use iocp_engine.Base.{
  ◌+◌, ◌<◌, ◌≤◌, ◌≡◌, ◌⊎◌, inl, refl, true, false, [], ◌∷◌, ◌++◌, arith, some, none,
}
use iocp_engine.Framing.Invariant as Raw
use iocp_engine.WebSocket.Decoder.Append as Web
use iocp_engine.WebSocket.{WsOpcode}
use iocp_engine.Server.{
  MessageDisposition, opened, raw_tcp, web_socket, ServerConfig, OutboundItem, State, new_session,
}
use iocp_engine.Server.Outgoing.{Answers, disconnect}
use iocp_engine.Server.Outgoing.Sections.{enqueue_section, reserve_global}
use iocp_engine.Server.Outgoing.Teardown.{disconnect_returns}
use iocp_engine.Server.Outgoing.Concurrent.{
  bytes_of, SendPath, enqueues, fresh, Reach, begins, goes,
}
use iocp_engine.Server.Outgoing.Concurrent.Accounting.{
  reachable-accounting, reachable-order, reachable-awake,
}
use iocp_engine.Server.Control.{close, send_control}
use iocp_engine.Server.Incoming.{
  send_buffer, MessageHandler, update_inbound_accounting, count_message, deliver_message,
  process_raw, process_websocket,
}
use iocp_engine.Server.Incoming.Limits.{update_inbound_accounting_lem, count_messages, rate_limited}
use iocp_engine.Server.Timer.{tick}
use iocp_engine.Server.Timer.Expiry.{Expired, PingDue, pinged, tick_lem}
use iocp_engine.Server.Lifecycle.{Dead}
use iocp_engine.Server.Lifecycle.Ending.{Sound, Ends}
use iocp_engine.Server.Lifecycle.Raw.{process_raw-Ends}
use iocp_engine.Server.Lifecycle.WebSocket.{process_websocket-Ends}

abbrev small : ServerConfig
small = record {
  max_message_bytes = 16;
  max_session_inbound_bytes = 64;
  max_global_inbound_bytes = 100;
  max_session_queued_bytes = 40;
  max_global_queued_bytes = 80;
  max_handshake_bytes = 60;
  max_messages_per_second = 2;
  malformed_message_limit = 3;
  handshake_timeout = 50;
  idle_timeout = 600;
  websocket_ping_interval = 200;
  websocket_pong_timeout = 100;
  close_timeout = 30;
  origin_validator = none;
}

abbrev yes_to_all : Answers
yes_to_all = record { allocates = true; posts = true }

-- A handler that sends each message back.
abbrev echo : MessageHandler
echo = some (λ s message. (send_buffer (some message) ∷ [], MessageDisposition.accepted))

abbrev on_raw : State
unfolding new_session
on_raw = record {
  session = record (new_session small 1000) { state = opened; transport = raw_tcp };
  metrics = record {
    active_connections = 2;
    received_messages = 0;
    sent_messages = 0;
    malformed_messages = 0;
    send_failures = 0;
    queued_bytes = 5;
    inbound_bytes = 7;
  };
  registered = true;
  writing = [];
  disconnects = 0;
}

abbrev on_websocket : State
on_websocket = record on_raw { session = record on_raw.session { transport = web_socket } }

on_raw-Sound : Sound on_raw
unfolding new_session
on_raw-Sound = (
  inl (refl, refl, refl, refl, refl),
  Raw.new-IsValid 16 64 (omega arith),
  Web.new-IsValid 16 64 true (omega arith) (omega arith),
  tt,
)

on_websocket-Sound : Sound on_websocket
unfolding new_session
on_websocket-Sound = (
  inl (refl, refl, refl, refl, refl),
  Raw.new-IsValid 16 64 (omega arith),
  Web.new-IsValid 16 64 true (omega arith) (omega arith),
  tt,
)

process_raw-Ends_example :
    Ends on_raw (process_raw small yes_to_all 1010 echo on_raw (0 ∷ 0 ∷ 0 ∷ 1 ∷ 7 ∷ 0 ∷ []))
process_raw-Ends_example =
    process_raw-Ends small yes_to_all 1010 echo on_raw (0 ∷ 0 ∷ 0 ∷ 1 ∷ 7 ∷ 0 ∷ []) (omega arith)
      on_raw-Sound (omega arith)

process_websocket-Ends_example : Ends on_websocket (
    process_websocket small yes_to_all 1010 echo on_websocket
      (0x82 ∷ 0x81 ∷ 1 ∷ 2 ∷ 3 ∷ 4 ∷ 6 ∷ []))
process_websocket-Ends_example =
    process_websocket-Ends small yes_to_all 1010 echo on_websocket
      (0x82 ∷ 0x81 ∷ 1 ∷ 2 ∷ 3 ∷ 4 ∷ 6 ∷ []) (omega arith) on_websocket-Sound (omega arith)

tick_lem_example :
    Expired small 1300 on_websocket × Dead (tick small yes_to_all 1300 on_websocket)
    ⊎ ¬ Expired small 1300 on_websocket
      × (PingDue small 1300 on_websocket
            × (tick small yes_to_all 1300 on_websocket
                ≡ send_control small yes_to_all 1300
                    (pinged on_websocket 1300)
                    WsOpcode.ping
                    []
                    false)
          ⊎ ¬ PingDue small 1300 on_websocket
            × (tick small yes_to_all 1300 on_websocket ≡ on_websocket))
unfolding new_session
tick_lem_example = tick_lem small yes_to_all 1300 on_websocket (refl, refl, refl, refl, refl)

disconnect_returns_example :
    ((disconnect on_raw).session.queued_bytes ≡ 0)
    × ((disconnect on_raw).metrics.queued_bytes ≡ 0 + 5)
    × ((disconnect on_raw).session.inbound_accounted ≡ 0)
    × ((disconnect on_raw).metrics.inbound_bytes ≡ 7)
    × ((disconnect on_raw).metrics.active_connections ≡ 1)
    × ((disconnect on_raw).disconnects ≡ on_raw.disconnects + 1)
    × (disconnect (disconnect on_raw) ≡ disconnect on_raw)
unfolding new_session
disconnect_returns_example =
    disconnect_returns on_raw 0 5 7 1 refl refl refl refl refl (omega arith) (omega arith)
      (omega arith)

update_inbound_accounting_lem_example :
    let t = update_inbound_accounting small on_raw 95 in
    ((95 ≤ on_raw.session.inbound_accounted) ⊎ (95 + 7 ≤ 100))
      × (t.session.inbound_accounted ≡ 95)
      × (t.metrics.inbound_bytes ≡ 95 + 7)
      × (t.session.disconnect_started ≡ false)
    ⊎ (on_raw.session.inbound_accounted < 95)
      × (100 < 95 + 7)
      × (t.session.inbound_accounted ≡ 0)
      × (t.metrics.inbound_bytes ≡ 7)
      × (t.session.disconnect_started ≡ true)
unfolding new_session
update_inbound_accounting_lem_example =
    update_inbound_accounting_lem small on_raw 95 7 refl refl (omega arith) (omega arith)

rate_limited_example :
    deliver_message small yes_to_all 1300 echo (count_messages (1100 ∷ 1200 ∷ []) on_raw) (7 ∷ [])
    ≡ some (
      false,
      close small yes_to_all 1300
          (count_message 1300 (count_messages (1100 ∷ 1200 ∷ []) on_raw))
          1008
          (ascii "message rate limit exceeded"),
    )
unfolding new_session
rate_limited_example =
    rate_limited small yes_to_all echo on_raw (1100 ∷ 1200 ∷ []) 1300 (7 ∷ []) (omega arith)
      (omega arith) (omega arith) (omega arith)

abbrev hello : OutboundItem
hello = record { header = 1 ∷ 2 ∷ []; payload = 3 ∷ 4 ∷ []; close_after = false }

-- After one call of `Enqueue`.
abbrev after_hello : SendPath
after_hello = record (fresh 5) {
  sends = record (fresh 5).sends {
    queued_bytes = 4;
    global_bytes = 9;
    send_queue = hello ∷ [];
    write_active = true;
  };
  starters = 1;
  accepted = hello ∷ [];
}

after_hello-Reach : Reach small 5 after_hello
unfolding enqueue_section reserve_global
after_hello-Reach = goes begins (enqueues hello refl refl refl)

reachable-accounting_example :
    (after_hello.starters + 0 ≤ 1)
    × (after_hello.sends.queued_bytes ≡ bytes_of (hello ∷ []) + bytes_of [])
    × (after_hello.sends.global_bytes ≡ after_hello.sends.queued_bytes + 5)
    × (after_hello.sends.queued_bytes ≤ 40)
    × (after_hello.sends.global_bytes ≤ 80)
reachable-accounting_example =
    reachable-accounting small 5 (omega arith) (omega arith) (omega arith) after_hello
      after_hello-Reach

reachable-order_example :
    (after_hello.accepted ≡ [] ++ ([] ++ (after_hello.sends.send_queue ++ [])))
    × ((after_hello.dropped ≡ []) ⊎ (after_hello.sends.disconnect_started ≡ true))
reachable-order_example =
    reachable-order small 5 (omega arith) (omega arith) (omega arith) after_hello after_hello-Reach

reachable-awake_example :
    ((after_hello.sends.send_queue ≡ [])
      ⊎ ((0 < after_hello.starters + 0)
          ⊎ ((0 < after_hello.failing) × (after_hello.sends.disconnect_started ≡ false)
              ⊎ (after_hello.sends.disconnect_started ≡ true) × (after_hello.clearing ≡ true))))
    × ((after_hello.sends.disconnect_started ≡ false)
        ⊎ ((after_hello.clearing ≡ true) ⊎ (after_hello.sends.send_queue ≡ [])))
reachable-awake_example =
    reachable-awake small 5 (omega arith) (omega arith) (omega arith) after_hello after_hello-Reach
