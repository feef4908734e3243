-- ===== src/Outbound/Invariant.antt =====
-- The byte counters of the queues and of the budget they share, under any interleaving of calls.
use iocp_engine.Base.{
  ℕ, ◌+◌, ◌-◌, ◌^◌, ◌≤◌, ◌<◌, ◌≡◌, refl, ◌⊎◌, ◌≢◌, false, none, some, List, [], ◌∷◌, ◌++◌, arith,
  length, leb, if◌then◌else◌,
}
use iocp_engine.SendCursor.{SharedBuffer}
use iocp_engine.Outbound.{
  QueueResult, accepted, session_limit_exceeded, global_limit_exceeded, closed, GlobalQueueBudget,
  OutboundQueue, try_reserve, release, push_bytes, push, pop, release_each, close,
}

abbrev pub bytes_of : List (List ℕ) → ℕ
bytes_of [] = 0
bytes_of (b ∷ bs) = length b + bytes_of bs

bytes_of-append : (bs cs : List (List ℕ)) → bytes_of (bs ++ cs) ≡ bytes_of bs + bytes_of cs
bytes_of-append [] cs = omega arith
bytes_of-append (b ∷ bs) cs = omega (arith, bytes_of-append bs cs)

pub record IsValid (q : OutboundQueue) : Type 0 where
  pub counted : q.queued_bytes ≡ bytes_of q.queue
  pub within : q.queued_bytes ≤ q.session_limit
  pub small : q.session_limit < 2 ^ 63
  pub closed_empty : (q.is_closed ≡ false) ⊎ (q.queue ≡ [])

-- The budget counts the bytes of a queue and `others`, those of all other queues.
pub record Counts (g : GlobalQueueBudget) (own others : ℕ) : Type 0 where
  pub sum : g.used ≡ own + others
  pub within : g.used ≤ g.limit
  pub small : g.limit < 2 ^ 63

-- What `push` answers, in plain arithmetic.
abbrev pub verdict : OutboundQueue → GlobalQueueBudget → ℕ → QueueResult
verdict q g n =
    if q.is_closed
    then closed
    else if leb (q.queued_bytes + n) q.session_limit
    then if leb (g.used + n) g.limit then accepted else global_limit_exceeded
    else session_limit_exceeded

-- What a call keeps of a queue and its budget.
pub record Keeps (others : ℕ) (q : OutboundQueue) (g : GlobalQueueBudget) (q' : OutboundQueue)
    (g' : GlobalQueueBudget) : Type 0 where
  pub valid : IsValid q'
  pub counts : Counts g' q'.queued_bytes others
  pub same_limits : (q'.session_limit ≡ q.session_limit) × (g'.limit ≡ g.limit)

module _ (others : ℕ) (q : OutboundQueue) (g : GlobalQueueBudget) (v : IsValid q)
    (c : Counts g q.queued_bytes others) where
  pub push_bytes-Keeps :
      (buffer : List ℕ) → let (r, q', g') = push_bytes q g buffer in Keeps others q g q' g'
  unfolding push_bytes try_reserve
  push_bytes-Keeps buffer = ground (arith, bytes_of-append q.queue (buffer ∷ []))

  pub push-Keeps :
      (buffer : SharedBuffer) → let (r, q', g') = push q g buffer in Keeps others q g q' g'
  unfolding push
  push-Keeps none = record { valid = v; counts = c; same_limits = (refl, refl) }
  push-Keeps (some buffer) = push_bytes-Keeps buffer

  -- For a valid queue whose bytes the budget counts, `push` refuses a closed queue, then a buffer
  -- that takes the queue over its limit, then one that takes the budget over its limit, and accepts
  -- any other; only an accepted buffer is queued, behind the others.
  pub push_lem :
      (buffer : List ℕ)
      → let (r, q', g') = push q g (some buffer) in
        (r ≡ verdict q g (length buffer))
        × ((r ≡ accepted)
              × (q'.queue ≡ q.queue ++ (buffer ∷ []))
              × (g'.used ≡ g.used + length buffer)
            ⊎ (r ≢ accepted) × (q' ≡ q) × (g' ≡ g))
  unfolding push push_bytes try_reserve
  push_lem buffer = ground arith

  pub pop-Keeps : let (b, q', g') = pop q g in Keeps others q g q' g'
  pop-Keeps = by_queue q.queue refl
    where
      by_queue :
          (bs : List (List ℕ)) → q.queue ≡ bs → let (b, q', g') = pop q g in Keeps others q g q' g'
      by_queue [] e = unfold pop in ground arith
      by_queue (b ∷ bs) e = unfold pop release in ground arith

used-release_each :
    (bs : List (List ℕ)) (g : GlobalQueueBudget)
    → bytes_of bs ≤ g.used
    → ((release_each g bs).used ≡ g.used - bytes_of bs) × ((release_each g bs).limit ≡ g.limit)
unfolding release_each release
used-release_each [] g h = (omega arith, refl)
used-release_each (b ∷ bs) g h = ground (arith, used-release_each bs (release g (length b)))

pub close-Keeps :
    (others : ℕ) (q : OutboundQueue) (g : GlobalQueueBudget)
    → IsValid q
    → Counts g q.queued_bytes others
    → let (q', g') = close q g in Keeps others q g q' g'
unfolding close
close-Keeps others q g v c = ground (arith, used-release_each q.queue g)
