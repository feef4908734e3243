-- ===== src/Server/Outgoing/Concurrent/Accounting.antt =====
-- The states that the steps of Server/Outgoing/Concurrent.antt reach.
use iocp_engine.Base.{
  ℕ, ◌+◌, ◌^◌, ◌≤◌, ◌<◌, ◌≡◌, ◌⊎◌, inl, inr, refl, sym, subst, true, false, [], ◌++◌, length, arith,
}
use iocp_engine.Server.{ServerConfig}
use iocp_engine.Server.Outgoing.Concurrent.{
  bytes_of, SendPath, Step, enqueues, starts_nothing, starts, finishes, stops, disconnects, clears,
  elsewhere, Inv, Reach, begins, goes,
}
use iocp_engine.Server.Outgoing.Concurrent.Steps.{
  step_enqueues, step_starts_nothing, step_starts, step_finishes, step_disconnects, step_clears,
  step_elsewhere,
}

pub Step-Inv : (c : ServerConfig) (x y : SendPath) → Inv c x → Step c x y → Inv c y
Step-Inv c x y v (enqueues item f g e) = subst (Inv c) (sym e) (step_enqueues c x item v f g)
Step-Inv c x y v (starts_nothing n f g e) = subst (Inv c) (sym e) (step_starts_nothing c x n v f g)
Step-Inv c x y v (starts n item rest f g e) =
    subst (Inv c) (sym e) (step_starts c x n item rest v f g)
Step-Inv c x y v (finishes item rest f e) = subst (Inv c) (sym e) (
    step_finishes c x item rest (x.starters + 1) x.failing (omega arith) (omega arith) (omega arith)
      v f)
Step-Inv c x y v (stops item rest f e) = subst (Inv c) (sym e) (
    step_finishes c x item rest x.starters (x.failing + 1) (omega arith) (omega arith) (omega arith)
      v f)
Step-Inv c x y v (disconnects e f) = subst (Inv c) (sym e) (step_disconnects c x v f)
Step-Inv c x y v (clears f e) = subst (Inv c) (sym e) (step_clears c x v f)
Step-Inv c x y v (elsewhere n f e) = subst (Inv c) (sym e) (step_elsewhere c x n v f)

Reach-Inv :
    (c : ServerConfig) (n : ℕ)
    → c.max_session_queued_bytes < 2 ^ 63
    → c.max_global_queued_bytes < 2 ^ 63
    → n ≤ c.max_global_queued_bytes
    → (x : SendPath) → Reach c n x
    → Inv c x
Reach-Inv c n k l m x begins = record {
  counted = refl;
  global = omega arith;
  session_within = omega arith;
  global_within = m;
  limits = (k, l);
  single = omega arith;
  active = inr (refl, refl, refl);
  order = refl;
  open_queue = inl (refl, refl);
  drains = inl refl;
}
Reach-Inv c n k l m y (goes {x = x} r s) = Step-Inv c x y (Reach-Inv c n k l m x r) s

-- In every interleaving of senders, completions and the disconnect, with limits below 2^63, at most
-- one write is about to start or under way; the session's count is exactly the bytes of the queue and
-- of the item being written, the global count exceeds it by the bytes of the other sessions, and
-- neither passes its limit.
pub reachable-accounting :
    (c : ServerConfig) (n : ℕ)
    → c.max_session_queued_bytes < 2 ^ 63
    → c.max_global_queued_bytes < 2 ^ 63
    → n ≤ c.max_global_queued_bytes
    → (x : SendPath) → Reach c n x
    → (x.starters + length x.taken ≤ 1)
      × (x.sends.queued_bytes ≡ bytes_of x.sends.send_queue + bytes_of x.taken)
      × (x.sends.global_bytes ≡ x.sends.queued_bytes + x.others)
      × (x.sends.queued_bytes ≤ c.max_session_queued_bytes)
      × (x.sends.global_bytes ≤ c.max_global_queued_bytes)
reachable-accounting c n k l m x r =
    let v : Inv c x = Reach-Inv c n k l m x r in
    (v.single, v.counted, v.global, v.session_within, v.global_within)

-- In every interleaving, the accepted items are, in their order of acceptance, the finished ones, the
-- one being written, the queued ones and those that the disconnect dropped; nothing is dropped before
-- the disconnect.
pub reachable-order :
    (c : ServerConfig) (n : ℕ)
    → c.max_session_queued_bytes < 2 ^ 63
    → c.max_global_queued_bytes < 2 ^ 63
    → n ≤ c.max_global_queued_bytes
    → (x : SendPath) → Reach c n x
    → (x.accepted ≡ x.finished ++ (x.taken ++ (x.sends.send_queue ++ x.dropped)))
      × ((x.dropped ≡ []) ⊎ (x.sends.disconnect_started ≡ true))
reachable-order c n k l m x r =
    let v : Inv c x = Reach-Inv c n k l m x r in (v.order, ground (arith, v.open_queue))

-- In every interleaving, with limits below 2^63 and a global count that starts within its limit, a queue
-- that holds an item has a thread that is about to take it, a write under way whose completion takes it, a
-- thread that is about to call `Disconnect` for the first time, or a `Disconnect` that has still to clear
-- the queue, and no such call leaves an item in it: no wake-up is lost.
pub reachable-awake :
    (c : ServerConfig) (n : ℕ)
    → c.max_session_queued_bytes < 2 ^ 63
    → c.max_global_queued_bytes < 2 ^ 63
    → n ≤ c.max_global_queued_bytes
    → (x : SendPath) → Reach c n x
    → ((x.sends.send_queue ≡ [])
        ⊎ ((0 < x.starters + length x.taken)
            ⊎ ((0 < x.failing) × (x.sends.disconnect_started ≡ false)
                ⊎ (x.sends.disconnect_started ≡ true) × (x.clearing ≡ true))))
      × ((x.sends.disconnect_started ≡ false) ⊎ ((x.clearing ≡ true) ⊎ (x.sends.send_queue ≡ [])))
reachable-awake c n k l m x r =
    let v : Inv c x = Reach-Inv c n k l m x r in (ground (arith, v.active, v.drains), v.drains)
