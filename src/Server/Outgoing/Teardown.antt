-- ===== src/Server/Outgoing/Teardown.antt =====
-- What `Disconnect` gives back.
use iocp_engine.Base.{ℕ, ◌+◌, ◌^◌, ◌<◌, ◌≡◌, true, false, arith}
use iocp_engine.Server.{State, closed}
use iocp_engine.Server.Outgoing.{send_state, update_inbound_counters, tear_down, disconnect}
use iocp_engine.Server.Outgoing.Sections.{clear_section}
use iocp_engine.Server.Outgoing.Concurrent.{bytes_of}
use iocp_engine.Server.Outgoing.Concurrent.Effects.{clear_each_counts}

-- `Disconnect` of a session that was not torn down gives back exactly its shares of the server's
-- counters: its accounted inbound bytes, the bytes of its queue, and one connection. `writing` bytes
-- of an item under way stay counted, until its completion; `others` and `inbound` belong to other
-- sessions. A second call changes nothing.
pub disconnect_returns :
    (s : State) (writing others inbound connections : ℕ)
    → s.session.disconnect_started ≡ false
    → s.session.queued_bytes ≡ bytes_of s.session.send_queue + writing
    → s.metrics.queued_bytes ≡ bytes_of s.session.send_queue + (writing + others)
    → s.metrics.inbound_bytes ≡ s.session.inbound_accounted + inbound
    → s.metrics.active_connections ≡ connections + 1
    → s.metrics.queued_bytes < 2 ^ 64
    → s.metrics.inbound_bytes < 2 ^ 64
    → s.metrics.active_connections < 2 ^ 64
    → ((disconnect s).session.queued_bytes ≡ writing)
      × ((disconnect s).metrics.queued_bytes ≡ writing + others)
      × ((disconnect s).session.inbound_accounted ≡ 0)
      × ((disconnect s).metrics.inbound_bytes ≡ inbound)
      × ((disconnect s).metrics.active_connections ≡ connections)
      × ((disconnect s).disconnects ≡ s.disconnects + 1)
      × (disconnect (disconnect s) ≡ disconnect s)
unfolding disconnect tear_down update_inbound_counters clear_section
disconnect_returns s writing others inbound connections d q g i n l m k = ground (
  arith,
  clear_each_counts
      (send_state (record s {
        session = record s.session {
          disconnect_started = true;
          state = closed;
          has_socket = false;
        };
        registered = false;
      }))
      s.session.send_queue writing (writing + others) q g (omega arith) (omega arith),
)
