-- ===== src/Server/Outgoing.antt =====
-- The send path: `Enqueue`, `StartNextWrite`, `FinishWrite` and `Disconnect`.
pub mod Sections
pub mod Concurrent
pub mod Teardown
use iocp_engine.Base.{
  ℕ, ◌+◌, ◌-◌, ◌*◌, ◌%◌, ◌^◌, Bool, true, false, Option, none, some, not, ◌&&◌, ◌||◌, List, [], ◌∷◌,
  ◌++◌, ltb, leb, ◌==◌, if◌then◌else◌, length,
}
use iocp_engine.Base.Size.{add_size, sub_size}
use iocp_engine.SendCursor.{SendCursor, consume, complete}
use iocp_engine.Server.{
  SessionState, opened, closing, closed, ServerConfig, Metrics, OutboundItem, item_bytes,
  ClientSession, State,
}
use Sections.{SendState, enqueue_section, start_section, finish_section, clear_section}

-- The members that `send_mutex` guards, and the global counter.
abbrev pub send_state : State → SendState
send_state s = record {
  disconnect_started = s.session.disconnect_started;
  send_queue = s.session.send_queue;
  queued_bytes = s.session.queued_bytes;
  write_active = s.session.write_active;
  global_bytes = s.metrics.queued_bytes;
}

abbrev pub with_send_state : State → SendState → State
with_send_state s p = record s {
  session = record s.session {
    send_queue = p.send_queue;
    queued_bytes = p.queued_bytes;
    write_active = p.write_active;
  };
  metrics = record s.metrics { queued_bytes = p.global_bytes };
}

abbrev pub count_failure : State → State
count_failure s = record s {
  metrics = record s.metrics { send_failures = add_size s.metrics.send_failures 1 };
}

-- `UpdateInboundAccounting` without the test of the global limit. `fetch_add` and `fetch_sub` wrap.
unfoldable pub update_inbound_counters : State → ℕ → State
update_inbound_counters s bytes =
    if ltb s.session.inbound_accounted bytes
    then record s {
      session = record s.session { inbound_accounted = bytes };
      metrics = record s.metrics {
        inbound_bytes = add_size s.metrics.inbound_bytes (bytes - s.session.inbound_accounted);
      };
    }
    else if ltb bytes s.session.inbound_accounted
    then record s {
      session = record s.session { inbound_accounted = bytes };
      metrics = record s.metrics {
        inbound_bytes = sub_size s.metrics.inbound_bytes (s.session.inbound_accounted - bytes);
      };
    }
    else s

-- `Disconnect` behind its guard. `UpdateInboundAccounting(session, 0)` cannot call it again: it only
-- lowers the count.
unfoldable pub tear_down : State → State
unfolding update_inbound_counters clear_section
tear_down s =
    let s1 : State = record s {
      session = record s.session { disconnect_started = true; state = closed; has_socket = false };
      registered = false;
    } in
    let s2 : State = with_send_state s1 (clear_section (send_state s1)) in
    let s3 : State = update_inbound_counters s2 0 in
    record s3 {
      metrics = record s3.metrics { active_connections = sub_size s3.metrics.active_connections 1 };
      disconnects = s3.disconnects + 1;
    }

unfoldable pub disconnect : State → State
disconnect s = if s.session.disconnect_started then s else tear_down s

-- What the operating system answers to the next calls.
pub record Answers : Type 0 where
  pub allocates : Bool
  pub posts : Bool

-- `FinishWrite(operation, false)`
unfoldable pub finish_failed : State → OutboundItem → State
unfolding finish_section disconnect
finish_failed s item =
    disconnect (count_failure (with_send_state s (finish_section (send_state s) (item_bytes item))))

-- A session whose socket is closed posts nothing.
unfoldable pub launch : Answers → State → OutboundItem → State
unfolding finish_failed
launch a s item =
    if not a.allocates
    then disconnect (
        count_failure (record s {
          session = record s.session {
            queued_bytes = sub_size s.session.queued_bytes (item_bytes item);
          };
          metrics = record s.metrics {
            queued_bytes = sub_size s.metrics.queued_bytes (item_bytes item);
          };
        }))
    else if a.posts && s.session.has_socket
    then record s { writing = s.writing ++ (item ∷ []) }
    else finish_failed s item

-- `StartNextWrite` after its section, on the queue that the section found.
unfoldable pub take_front : Answers → State → List OutboundItem → State
take_front a s [] = s
take_front a s (item ∷ rest) = launch a s item

unfoldable pub start_next_write : Answers → State → State
start_next_write a s =
    take_front a (with_send_state s (start_section (send_state s))) s.session.send_queue

unfoldable pub enqueue : ServerConfig → Answers → State → OutboundItem → Bool × State
unfolding enqueue_section
enqueue c a s item =
    if s.session.disconnect_started
    then (false, s)
    else if (enqueue_section c (send_state s) item).0
    then (
      true,
      if s.session.write_active
          then with_send_state s (enqueue_section c (send_state s) item).1
          else start_next_write a (with_send_state s (enqueue_section c (send_state s) item).1),
    )
    else (false, count_failure s)

-- `FinishWrite(operation, true)` up to its test.
unfoldable pub sent : State → OutboundItem → State
unfolding finish_section
sent s item =
    let t : State = with_send_state s (finish_section (send_state s) (item_bytes item)) in
    record t { metrics = record t.metrics { sent_messages = add_size t.metrics.sent_messages 1 } }

unfoldable pub finish_sent : Answers → State → OutboundItem → State
finish_sent a s item =
    if item.close_after then disconnect (sent s item) else start_next_write a (sent s item)

-- `HandleWrite` for an operation whose cursor is `cursor`: the cursor of the operation that goes on, if
-- one does, and the state.
unfoldable pub handle_write :
    Answers → State → OutboundItem → SendCursor → Bool → ℕ → Option SendCursor × State
handle_write a s item cursor succeeded bytes_transferred =
    if not succeeded || bytes_transferred == 0
    then (none, finish_failed s item)
    else let after : SendCursor = consume cursor bytes_transferred in
      if not (complete after)
      then if a.posts && s.session.has_socket then (some after, s) else (none, finish_failed s item)
      else (none, finish_sent a s item)
