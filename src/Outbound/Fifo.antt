-- ===== src/Outbound/Fifo.antt =====
-- The order of one queue, while the other sessions use the budget in between.
use iocp_engine.Base.{
  ℕ, ◌≡◌, refl, ap, sym, ◌∙◌, none, some, List, [], ◌∷◌, ◌++◌, arith, append_assoc, append-nil,
}
use iocp_engine.SendCursor.{SharedBuffer}
use iocp_engine.Outbound.{
  QueueResult, accepted, GlobalQueueBudget, OutboundQueue, push, push_bytes, pop,
}

pub data Access : Type 0 where
  pushes : List ℕ → Access
  pops : Access

abbrev pub if_accepted : QueueResult → List ℕ → List (List ℕ)
if_accepted accepted b = b ∷ []
if_accepted _ b = []

abbrev pub if_some : SharedBuffer → List (List ℕ)
if_some none = []
if_some (some b) = b ∷ []

-- Each access meets the budget as the other sessions left it. The results are the accepted buffers,
-- the popped ones, and the queue.
pub run :
    List (GlobalQueueBudget × Access)
    → OutboundQueue
    → List (List ℕ) × List (List ℕ) × OutboundQueue
run [] q = ([], [], q)
run ((g, pushes b) ∷ rest) q =
    let (r, q', _) = push q g (some b) in
    let (ins, outs, last) = run rest q' in (if_accepted r b ++ ins, outs, last)
run ((g, pops) ∷ rest) q =
    let (b, q', _) = pop q g in
    let (ins, outs, last) = run rest q' in (ins, if_some b ++ outs, last)

push_adds :
    (q : OutboundQueue) (g : GlobalQueueBudget) (b : List ℕ)
    → let (r, q', g') = push q g (some b) in q'.queue ≡ q.queue ++ if_accepted r b
unfolding push push_bytes
push_adds q g b = ground (arith, append-nil q.queue)

pop_removes :
    (q : OutboundQueue) (g : GlobalQueueBudget)
    → let (b, q', g') = pop q g in q.queue ≡ if_some b ++ q'.queue
pop_removes q g = by_queue q.queue refl
  where
    by_queue :
        (bs : List (List ℕ))
        → q.queue ≡ bs
        → let (b, q', g') = pop q g in q.queue ≡ if_some b ++ q'.queue
    by_queue [] e = unfold pop in ground arith
    by_queue (b ∷ bs) e = unfold pop in ground arith

-- What is popped, followed by what is left in the queue, is what was in the queue followed by what
-- was accepted, in the same order.
pub run_fifo :
    (accesses : List (GlobalQueueBudget × Access)) (q : OutboundQueue)
    → let (ins, outs, last) = run accesses q in outs ++ last.queue ≡ q.queue ++ ins
unfolding run
run_fifo [] q = sym (append-nil q.queue)
run_fifo ((g, pushes b) ∷ rest) q =
    run_fifo rest (push q g (some b)).1
    ∙ ap (λ l. l ++ (run rest (push q g (some b)).1).0) (push_adds q g b)
    ∙ append_assoc q.queue (if_accepted (push q g (some b)).0 b) _
run_fifo ((g, pops) ∷ rest) q =
    append_assoc (if_some (pop q g).0) _ _
    ∙ ap (◌++◌ (if_some (pop q g).0)) (run_fifo rest (pop q g).1)
    ∙ sym (append_assoc (if_some (pop q g).0) (pop q g).1.queue _)
    ∙ ap (λ l. l ++ (run rest (pop q g).1).0) (sym (pop_removes q g))
