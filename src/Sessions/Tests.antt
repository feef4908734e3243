-- ===== src/Sessions/Tests.antt =====
-- Two generations of one number.
use iocp_engine.Base.{ℕ, ◌≡◌, refl, none, List, [], ◌∷◌, map, if◌then◌else◌}
use iocp_engine.Base.Keyed.{count}
use iocp_engine.SessionHandle.{SessionHandle, handle_key}
use iocp_engine.Sessions.{
  new, current, find_session, snapshot, insert, set_shard, remove, remove_current,
}
use iocp_engine.Sessions.Refine.{
  is_some, Command, inserts, removes, perform, perform_all, meaning_all, nothing,
}
use iocp_engine.Sessions.Census.{sessions-perform_all}

abbrev handle_at : ℕ → ℕ → SessionHandle
handle_at id generation = record { id = id; generation = generation }

abbrev handle_of : SessionHandle × ℕ → SessionHandle
handle_of session = session.0

abbrev commands : List (Command handle_of)
commands =
    inserts (handle_at 7 1, 100)
    ∷ inserts (handle_at 39 2, 200)
    ∷ removes (handle_at 7 1)
    ∷ inserts (handle_at 7 3, 300)
    ∷ removes (handle_at 7 1)
    ∷ []

sessions-perform_all_example :
    let shards = perform_all handle_of (new handle_of) commands in
    let entry =
      current handle_of (handle_at 7 3) (meaning_all handle_of (nothing handle_of) commands 7) in
    (find_session handle_of shards (handle_at 7 3) ≡ entry)
    × (count (handle_at 7 3) (map handle_of (snapshot handle_of shards))
        ≡ (if is_some entry then 1 else 0))
sessions-perform_all_example = sessions-perform_all handle_of commands (handle_at 7 3)

stale :
    find_session handle_of (perform_all handle_of (new handle_of) commands) (handle_at 7 1) ≡ none
unfolding find_session perform_all perform insert set_shard remove remove_current current
stale = refl
