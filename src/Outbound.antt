-- ===== src/Outbound.antt =====
-- src/core/outbound_queue.hpp: a bounded FIFO of buffers for each session, and the byte budget that all
-- queues share. A queue holds a reference to the budget, so an operation returns both.
pub mod Invariant
pub mod Shared
pub mod Fifo
mod Tests
use iocp_engine.Base.{
  ℕ, ◌+◌, ◌-◌, Bool, true, false, ◌||◌, Option, none, some, List, [], ◌∷◌, ◌++◌, ltb, if◌then◌else◌,
  length,
}
use iocp_engine.Base.Size.{add_size, sub_size}
use iocp_engine.SendCursor.{SharedBuffer}

pub data QueueResult : Type 0 where
  accepted session_limit_exceeded global_limit_exceeded closed : QueueResult

pub record GlobalQueueBudget : Type 0 where
  pub limit : ℕ
  pub used : ℕ

pub try_reserve : GlobalQueueBudget → ℕ → Bool × GlobalQueueBudget
try_reserve g bytes =
    if ltb g.limit bytes || ltb (sub_size g.limit bytes) g.used
    then (false, g)
    else (true, record g { used = add_size g.used bytes })

pub release : GlobalQueueBudget → ℕ → GlobalQueueBudget
release g bytes = record g { used = if ltb g.used bytes then 0 else g.used - bytes }

-- Only buffers that are not null are queued.
pub record OutboundQueue : Type 0 where
  pub session_limit : ℕ
  pub queue : List (List ℕ)
  pub queued_bytes : ℕ
  pub is_closed : Bool

pub new : ℕ → OutboundQueue
new limit = record { session_limit = limit; queue = []; queued_bytes = 0; is_closed = false }

pub push_bytes :
    OutboundQueue → GlobalQueueBudget → List ℕ → QueueResult × OutboundQueue × GlobalQueueBudget
push_bytes q g buffer =
    if q.is_closed
    then (closed, q, g)
    else if ltb q.session_limit bytes || ltb (sub_size q.session_limit bytes) q.queued_bytes
    then (session_limit_exceeded, q, g)
    else if (try_reserve g bytes).0
    then (
      accepted,
      record q { queue = q.queue ++ (buffer ∷ []); queued_bytes = add_size q.queued_bytes bytes },
      (try_reserve g bytes).1,
    )
    else (global_limit_exceeded, q, (try_reserve g bytes).1)
  where
    bytes : ℕ
    bytes = length buffer

pub push :
    OutboundQueue
    → GlobalQueueBudget
    → SharedBuffer
    → QueueResult × OutboundQueue × GlobalQueueBudget
push q g none = (closed, q, g)
push q g (some buffer) = push_bytes q g buffer

-- A null buffer, `none`, stands for an empty queue.
pub pop : OutboundQueue → GlobalQueueBudget → SharedBuffer × OutboundQueue × GlobalQueueBudget
pop q g = elim q.queue [
  | [] ↦ (none, q, g)
  | value ∷ rest ↦ (
    some value,
    record q { queue = rest; queued_bytes = sub_size q.queued_bytes (length value) },
    release g (length value),
  )
]

pub release_each : GlobalQueueBudget → List (List ℕ) → GlobalQueueBudget
release_each g [] = g
release_each g (buffer ∷ rest) = release_each (release g (length buffer)) rest

pub close : OutboundQueue → GlobalQueueBudget → OutboundQueue × GlobalQueueBudget
close q g = (record q { is_closed = true; queue = []; queued_bytes = 0 }, release_each g q.queue)
