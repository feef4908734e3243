-- ===== src/Sessions.antt =====
-- src/core/iocp_server.cpp, `ShardedSessionRegistry`: the sessions by their handles, in 32 maps.
-- Each function runs under the mutex of one map; `snapshot` goes through the maps one after another.
pub mod Refine
pub mod Census
mod Tests
use iocp_engine.Base.{
  ℕ, zero, suc, ◌%◌, Bool, true, false, Option, none, some, List, [], ◌∷◌, ◌++◌, ◌==◌, map,
  if◌then◌else◌, get_or, replicate, concat,
}
use iocp_engine.Base.Keyed.{find, assign, erase, number_key}
use iocp_engine.SessionHandle.{SessionHandle}

abbrev pub shard_count : ℕ
shard_count = 32

-- `handle_of` is the field `handle` of the session that a value points to.
module _ {ℓ} {A : Type ℓ} (handle_of : A → SessionHandle) where
  abbrev pub Shard : Type ℓ
  Shard = List (ℕ × A)

  abbrev pub ShardedSessionRegistry : Type ℓ
  ShardedSessionRegistry = List Shard

  abbrev pub new : ShardedSessionRegistry
  new = replicate shard_count []

  unfoldable pub set_shard : ShardedSessionRegistry → ℕ → Shard → ShardedSessionRegistry
  set_shard [] index m = []
  set_shard (n ∷ shards) zero m = m ∷ shards
  set_shard (n ∷ shards) (suc index) m = n ∷ set_shard shards index m

  abbrev pub shard : ShardedSessionRegistry → ℕ → Shard
  shard shards index = get_or shards index []

  unfoldable pub insert : ShardedSessionRegistry → SessionHandle → A → ShardedSessionRegistry
  insert shards handle value =
      let index : ℕ = handle.id % shard_count in
      set_shard shards index (assign handle.id value (shard shards index))

  -- A value of the same generation.
  unfoldable pub current : SessionHandle → Option A → Option A
  current handle none = none
  current handle (some value) =
      if (handle_of value).generation == handle.generation then some value else none

  unfoldable pub find_session : ShardedSessionRegistry → SessionHandle → Option A
  find_session shards handle =
      current handle (find handle.id (shard shards (handle.id % shard_count)))

  unfoldable pub remove_current : SessionHandle → Option A → Shard → Shard
  remove_current handle none m = m
  remove_current handle (some value) m = erase handle.id m

  unfoldable pub remove : ShardedSessionRegistry → SessionHandle → ShardedSessionRegistry
  remove shards handle =
      let index : ℕ = handle.id % shard_count in
      set_shard shards index
        (remove_current handle (find_session shards handle) (shard shards index))

  abbrev pub values : Shard → List A
  values [] = []
  values ((id, value) ∷ m) = value ∷ values m

  unfoldable pub snapshot : ShardedSessionRegistry → List A
  snapshot [] = []
  snapshot (m ∷ shards) = values m ++ snapshot shards
