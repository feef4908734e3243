-- ===== src/Outbound/Tests.antt =====
-- Two queues over one budget, and the theorems at them.
use iocp_engine.Base.{
  ℕ, ◌+◌, ◌≤◌, ◌≡◌, ◌≢◌, ◌⊎◌, inl, refl, false, none, some, List, [], ◌∷◌, ◌++◌, arith, All,
}
use iocp_engine.Outbound.{
  accepted, session_limit_exceeded, global_limit_exceeded, GlobalQueueBudget, OutboundQueue, push,
  push_bytes, try_reserve,
}
use iocp_engine.Outbound.Invariant.{IsValid, verdict, push_lem}
use iocp_engine.Outbound.Shared.{Call, pushes, pops, closes, run, total, run_balanced}
use iocp_engine.Outbound.Fifo
use iocp_engine.Outbound.Fifo.{Access, run_fifo}

abbrev busy : OutboundQueue
busy = record {
  session_limit = 8;
  queue = (1 ∷ 2 ∷ []) ∷ (3 ∷ []) ∷ [];
  queued_bytes = 3;
  is_closed = false;
}

abbrev quiet : OutboundQueue
quiet = record { session_limit = 8; queue = (4 ∷ []) ∷ []; queued_bytes = 1; is_closed = false }

abbrev budget : GlobalQueueBudget
budget = record { limit = 6; used = 4 }

push_over_the_budget : (push busy budget (some (1 ∷ 2 ∷ 3 ∷ []))).0 ≡ global_limit_exceeded
unfolding push push_bytes try_reserve
push_over_the_budget = refl

push_over_the_session :
    (push busy budget (some (1 ∷ 2 ∷ 3 ∷ 4 ∷ 5 ∷ 6 ∷ []))).0 ≡ session_limit_exceeded
unfolding push push_bytes try_reserve
push_over_the_session = refl

busy-IsValid : IsValid busy
busy-IsValid = record {
  counted = omega arith;
  within = omega arith;
  small = omega arith;
  closed_empty = inl refl;
}

quiet-IsValid : IsValid quiet
quiet-IsValid = record {
  counted = omega arith;
  within = omega arith;
  small = omega arith;
  closed_empty = inl refl;
}

push_lem_example :
    let (r, q, g) = push busy budget (some (5 ∷ 6 ∷ [])) in
    (r ≡ verdict busy budget 2)
    × ((r ≡ accepted) × (q.queue ≡ busy.queue ++ ((5 ∷ 6 ∷ []) ∷ [])) × (g.used ≡ 4 + 2)
        ⊎ (r ≢ accepted) × (q ≡ busy) × (g ≡ budget))
push_lem_example = push_lem 1 busy budget busy-IsValid (omega arith) (5 ∷ 6 ∷ [])

abbrev mixed_calls : List (ℕ × Call)
mixed_calls = (0, pushes (some (5 ∷ 6 ∷ []))) ∷ (1, pops) ∷ (1, pushes none) ∷ (0, closes) ∷ []

run_balanced_example :
    let (qs, g) = run mixed_calls (busy ∷ quiet ∷ []) budget in
    All IsValid qs × (g.used ≡ total qs) × (g.used ≤ 6)
run_balanced_example =
    run_balanced mixed_calls (busy ∷ quiet ∷ []) budget (busy-IsValid, (quiet-IsValid, tt)) refl
      (omega arith) (omega arith)

abbrev accesses : List (GlobalQueueBudget × Access)
accesses = (budget, Access.pops) ∷ (budget, Access.pushes (7 ∷ 7 ∷ [])) ∷ []

run_fifo_example :
    let (ins, outs, last) = Fifo.run accesses busy in outs ++ last.queue ≡ busy.queue ++ ins
run_fifo_example = run_fifo accesses busy
