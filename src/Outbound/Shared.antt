-- ===== src/Outbound/Shared.antt =====
-- Several queues over one budget, and any sequence of calls on them.
use iocp_engine.Base.{ℕ, zero, suc, ◌+◌, ◌≤◌, ◌<◌, ◌^◌, ◌≡◌, refl, List, [], ◌∷◌, arith, All}
use iocp_engine.SendCursor.{SharedBuffer}
use iocp_engine.Outbound.{GlobalQueueBudget, OutboundQueue, push, pop, close}
use iocp_engine.Outbound.Invariant.{IsValid, Counts, Keeps, push-Keeps, pop-Keeps, close-Keeps}

pub data Call : Type 0 where
  pushes : SharedBuffer → Call
  pops closes : Call

pub call : Call → OutboundQueue → GlobalQueueBudget → OutboundQueue × GlobalQueueBudget
call (pushes b) q g = ((push q g b).1, (push q g b).2)
call pops q g = ((pop q g).1, (pop q g).2)
call closes q g = close q g

-- A call on the queue with the given index; another index changes nothing.
pub call_at :
    ℕ → Call → List OutboundQueue → GlobalQueueBudget → List OutboundQueue × GlobalQueueBudget
call_at i c [] g = ([], g)
call_at zero c (q ∷ qs) g = let (q', g') = call c q g in (q' ∷ qs, g')
call_at (suc i) c (q ∷ qs) g = let (qs', g') = call_at i c qs g in (q ∷ qs', g')

pub run :
    List (ℕ × Call)
    → List OutboundQueue
    → GlobalQueueBudget
    → List OutboundQueue × GlobalQueueBudget
run [] qs g = (qs, g)
run ((i, c) ∷ cs) qs g = let (qs', g') = call_at i c qs g in run cs qs' g'

abbrev pub total : List OutboundQueue → ℕ
total [] = 0
total (q ∷ qs) = q.queued_bytes + total qs

call-Keeps :
    (c : Call) (others : ℕ) (q : OutboundQueue) (g : GlobalQueueBudget)
    → IsValid q
    → Counts g q.queued_bytes others
    → let (q', g') = call c q g in Keeps others q g q' g'
unfolding call
call-Keeps (pushes b) others q g v k = push-Keeps others q g v k b
call-Keeps pops others q g v k = pop-Keeps others q g v k
call-Keeps closes others q g v k = close-Keeps others q g v k

record Balanced (others : ℕ) (qs : List OutboundQueue) (g : GlobalQueueBudget) (limit : ℕ)
    : Type 0 where
  valid : All IsValid qs
  counts : Counts g (total qs) others
  same_limit : g.limit ≡ limit

call_at-Balanced :
    (i : ℕ) (c : Call) (others : ℕ) (qs : List OutboundQueue) (g : GlobalQueueBudget) (limit : ℕ)
    → Balanced others qs g limit
    → let (qs', g') = call_at i c qs g in Balanced others qs' g' limit
unfolding call_at
call_at-Balanced i c others [] g limit b = b
call_at-Balanced zero c others (q ∷ qs) g limit b =
    let k =
      call-Keeps c (total qs + others) q g b.valid.0
        (record { sum = omega arith; within = omega arith; small = omega arith }) in
    record { valid = (k.valid, b.valid.1); counts = omega arith; same_limit = omega arith }
call_at-Balanced (suc i) c others (q ∷ qs) g limit b =
    let k =
      call_at-Balanced i c (q.queued_bytes + others) qs g limit
        (record { valid = b.valid.1; counts = omega arith; same_limit = b.same_limit }) in
    record { valid = (b.valid.0, k.valid); counts = omega arith; same_limit = omega arith }

run-Balanced :
    (cs : List (ℕ × Call)) (others : ℕ) (qs : List OutboundQueue) (g : GlobalQueueBudget)
    (limit : ℕ)
    → Balanced others qs g limit
    → let (qs', g') = run cs qs g in Balanced others qs' g' limit
unfolding run
run-Balanced [] others qs g limit b = b
run-Balanced ((i, c) ∷ cs) others qs g limit b =
    run-Balanced cs others _ _ limit (call_at-Balanced i c others qs g limit b)

-- After any sequence of pushes, pops and closes on queues that share a budget, each queue counts its
-- bytes exactly and stays within its own limit, a closed queue is empty, and the budget's `used` is
-- the sum of the queues' bytes and stays within the budget's limit. So the clamp in `Release` is
-- never needed. This holds if it holds at the start, with limits below 2 ^ 63.
pub run_balanced :
    (cs : List (ℕ × Call)) (qs : List OutboundQueue) (g : GlobalQueueBudget)
    → All IsValid qs
    → g.used ≡ total qs
    → g.used ≤ g.limit
    → g.limit < 2 ^ 63
    → let (qs', g') = run cs qs g in All IsValid qs' × (g'.used ≡ total qs') × (g'.used ≤ g.limit)
run_balanced cs qs g v e h k =
    let b = run-Balanced cs 0 qs g g.limit (record {
      valid = v;
      counts = record { sum = omega arith; within = h; small = k };
      same_limit = refl;
    }) in
    (b.valid, omega arith, omega arith)
