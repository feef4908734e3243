-- ===== src/Server/Outgoing/Sections.antt =====
-- The sections that run under `send_mutex`, on the members that it guards and on the global counter
-- `metrics.queued_bytes`.
use iocp_engine.Base.{ℕ, ◌-◌, Bool, true, false, not, ◌||◌, List, [], ◌∷◌, ◌++◌, ltb, if◌then◌else◌}
use iocp_engine.Base.Size.{add_size, sub_size}
use iocp_engine.Server.{ServerConfig, OutboundItem, item_bytes}

pub record SendState : Type 0 where
  pub disconnect_started : Bool
  pub send_queue : List OutboundItem
  pub queued_bytes : ℕ
  pub write_active : Bool
  pub global_bytes : ℕ

-- `ReserveGlobalQueued`: the loop ends with the answer that its last, successful round gives.
unfoldable pub reserve_global : ServerConfig → ℕ → ℕ → Bool
reserve_global c current bytes =
    not (
      ltb c.max_global_queued_bytes bytes || ltb (sub_size c.max_global_queued_bytes bytes) current)

-- `Enqueue`, past the test of `disconnect_started`.
unfoldable pub enqueue_section : ServerConfig → SendState → OutboundItem → Bool × SendState
unfolding reserve_global
enqueue_section c p item =
    if ltb c.max_session_queued_bytes bytes
      || ltb (sub_size c.max_session_queued_bytes bytes) p.queued_bytes
      || not (reserve_global c p.global_bytes bytes)
    then (false, p)
    else (
      true,
      record p {
        queued_bytes = add_size p.queued_bytes bytes;
        global_bytes = add_size p.global_bytes bytes;
        send_queue = p.send_queue ++ (item ∷ []);
        write_active = true;
      },
    )
  where
    bytes : ℕ
    bytes = item_bytes item

-- `StartNextWrite`: an empty queue stops the writer, else the front is taken.
unfoldable pub start_section : SendState → SendState
start_section p = elim p.send_queue [
  | [] ↦ record p { write_active = false }
  | item ∷ rest ↦ record p { send_queue = rest }
]

-- `FinishWrite`: the session's count is clamped, the global one is not.
unfoldable pub finish_section : SendState → ℕ → SendState
finish_section p bytes = record p {
  queued_bytes = if ltb p.queued_bytes bytes then 0 else p.queued_bytes - bytes;
  global_bytes = sub_size p.global_bytes bytes;
}

unfoldable pub clear_each : SendState → List OutboundItem → SendState
clear_each p [] = p
clear_each p (item ∷ rest) =
    clear_each
      (record p {
        global_bytes = sub_size p.global_bytes (item_bytes item);
        queued_bytes = sub_size p.queued_bytes (item_bytes item);
      })
      rest

-- `Disconnect`
unfoldable pub clear_section : SendState → SendState
unfolding clear_each
clear_section p = record (clear_each p p.send_queue) { send_queue = [] }
