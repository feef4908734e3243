-- ===== src/Sessions/Refine.antt =====
-- The 32 maps as one.
use iocp_engine.Base.{
  ℕ, zero, suc, ◌%◌, ◌<◌, ◌≡◌, refl, ap, fun_ext, ◌∙◌, Bool, true, false, Bool-cases, inl, inr,
  ◌&&◌, Option, none, some, List, [], ◌∷◌, ◌==◌, ==_iff, if◌then◌else◌, length, replicate, arith,
}
use iocp_engine.Base.Keyed.{find, assign, number_key, find-assign, find-erase}
use iocp_engine.SessionHandle.{SessionHandle}
use iocp_engine.Sessions.{
  shard_count, Shard, ShardedSessionRegistry, new, set_shard, shard, insert, current, find_session,
  remove_current, remove,
}

abbrev pub is_some {ℓ} : {A : Type ℓ} → Option A → Bool
is_some none = false
is_some (some a) = true

pub same_place : (i j : ℕ) → i ≡ j → i % shard_count ≡ j % shard_count
same_place i j e = ap (λ k. k % shard_count) e

module _ {ℓ} {A : Type ℓ} (handle_of : A → SessionHandle) where
  pub length-set_shard :
      (shards : ShardedSessionRegistry handle_of) (i : ℕ) (m : Shard handle_of)
      → length (set_shard handle_of shards i m) ≡ length shards
  unfolding set_shard
  length-set_shard [] i m = refl
  length-set_shard (n ∷ shards) zero m = refl
  length-set_shard (n ∷ shards) (suc i) m = ap suc (length-set_shard shards i m)

  pub shard-set_shard :
      (shards : ShardedSessionRegistry handle_of) (i j : ℕ) (m : Shard handle_of)
      → i < length shards
      → shard handle_of (set_shard handle_of shards i m) j
        ≡ (if j == i then m else shard handle_of shards j)
  unfolding set_shard
  shard-set_shard [] i j m h = absurd (omega arith)
  shard-set_shard (n ∷ shards) zero zero m h = refl
  shard-set_shard (n ∷ shards) zero (suc j) m h = ground arith
  shard-set_shard (n ∷ shards) (suc i) zero m h = ground arith
  shard-set_shard (n ∷ shards) (suc i) (suc j) m h =
      ground (arith, shard-set_shard shards i j m (omega arith), ==_iff j i, ==_iff (suc j) (suc i))

  -- What is under a number.
  abbrev pub lookup : ShardedSessionRegistry handle_of → ℕ → Option A
  lookup shards id = find id (shard handle_of shards (id % shard_count))

  lookup-set_shard :
      (shards : ShardedSessionRegistry handle_of) (i id : ℕ) (m : Shard handle_of)
      → length shards ≡ shard_count
      → lookup (set_shard handle_of shards (i % shard_count) m) id
        ≡ (if id % shard_count == i % shard_count then find id m else lookup shards id)
  lookup-set_shard shards i id m n =
      rw (shard-set_shard shards (i % shard_count) (id % shard_count) m (omega (arith, n)))
        (elim (Bool-cases (id % shard_count == i % shard_count)) [
          | inl e ↦ rw e refl
          | inr e ↦ rw e refl
        ])

  pub lookup-insert :
      (shards : ShardedSessionRegistry handle_of) (handle : SessionHandle) (value : A) (id : ℕ)
      → length shards ≡ shard_count
      → lookup (insert handle_of shards handle value) id
        ≡ (if id == handle.id then some value else lookup shards id)
  unfolding insert
  lookup-insert shards handle value id n = ground (
    arith,
    lookup-set_shard shards handle.id id
        (assign handle.id value (shard handle_of shards (handle.id % shard_count))) n,
    find-assign handle.id id value (shard handle_of shards (handle.id % shard_count)),
    ==_iff id handle.id,
    ==_iff handle.id id,
    ==_iff (id % shard_count) (handle.id % shard_count),
    same_place id handle.id,
  )

  pub find-remove_current :
      (handle : SessionHandle) (o : Option A) (m : Shard handle_of) (id : ℕ)
      → find id (remove_current handle_of handle o m)
        ≡ (if id == handle.id && is_some o then none else find id m)
  unfolding remove_current
  find-remove_current handle none m id = ground arith
  find-remove_current handle (some value) m id =
      ground (arith, find-erase handle.id id m, ==_iff id handle.id, ==_iff handle.id id)

  pub lookup-remove :
      (shards : ShardedSessionRegistry handle_of) (handle : SessionHandle) (id : ℕ)
      → length shards ≡ shard_count
      → lookup (remove handle_of shards handle) id ≡ (
          if id == handle.id && is_some (find_session handle_of shards handle)
          then none
          else lookup shards id)
  unfolding remove
  lookup-remove shards handle id n =
      let m : Shard handle_of = shard handle_of shards (handle.id % shard_count) in
      let o : Option A = find_session handle_of shards handle in
      ground (
        arith,
        lookup-set_shard shards handle.id id (remove_current handle_of handle o m) n,
        find-remove_current handle o m id,
        ==_iff id handle.id,
        ==_iff (id % shard_count) (handle.id % shard_count),
        same_place id handle.id,
      )

  pub data Command : Type ℓ where
    inserts : A → Command
    removes : SessionHandle → Command

  unfoldable pub perform :
      ShardedSessionRegistry handle_of → Command → ShardedSessionRegistry handle_of
  perform shards (inserts value) = insert handle_of shards (handle_of value) value
  perform shards (removes handle) = remove handle_of shards handle

  unfoldable pub perform_all :
      ShardedSessionRegistry handle_of → List Command → ShardedSessionRegistry handle_of
  perform_all shards [] = shards
  perform_all shards (c ∷ cs) = perform_all (perform shards c) cs

  -- One map from numbers to sessions.
  abbrev pub meaning : (ℕ → Option A) → Command → ℕ → Option A
  meaning f (inserts value) id = if id == (handle_of value).id then some value else f id
  meaning f (removes handle) id =
      if id == handle.id && is_some (current handle_of handle (f handle.id)) then none else f id

  unfoldable pub meaning_all : (ℕ → Option A) → List Command → ℕ → Option A
  meaning_all f [] = f
  meaning_all f (c ∷ cs) = meaning_all (meaning f c) cs

  pub length-perform :
      (shards : ShardedSessionRegistry handle_of) (c : Command)
      → length (perform shards c) ≡ length shards
  unfolding perform insert remove
  length-perform shards (inserts value) = length-set_shard shards _ _
  length-perform shards (removes handle) = length-set_shard shards _ _

  lookup-perform :
      (shards : ShardedSessionRegistry handle_of) (c : Command) (id : ℕ)
      → length shards ≡ shard_count
      → lookup (perform shards c) id ≡ meaning (lookup shards) c id
  unfolding perform find_session
  lookup-perform shards (inserts value) id n = lookup-insert shards (handle_of value) value id n
  lookup-perform shards (removes handle) id n = lookup-remove shards handle id n

  lookup-perform_all :
      (shards : ShardedSessionRegistry handle_of) (cs : List Command)
      → length shards ≡ shard_count
      → lookup (perform_all shards cs) ≡ meaning_all (lookup shards) cs
  unfolding perform_all meaning_all
  lookup-perform_all shards [] n = refl
  lookup-perform_all shards (c ∷ cs) n =
      lookup-perform_all (perform shards c) cs (length-perform shards c ∙ n)
      ∙ ap (λ (f : ℕ → Option A). meaning_all f cs) (fun_ext λ id. lookup-perform shards c id n)

  abbrev pub nothing : ℕ → Option A
  nothing id = none

  pub shard-new : (n i : ℕ) → shard handle_of (replicate n []) i ≡ []
  shard-new zero i = refl
  shard-new (suc n) zero = refl
  shard-new (suc n) (suc i) = shard-new n i

  lookup-new : lookup (new handle_of) ≡ nothing
  lookup-new = fun_ext λ id. ap (find id) (shard-new shard_count (id % shard_count))

  -- Finding in the registry is finding in the map.
  pub find_session-perform_all :
      (cs : List Command) (handle : SessionHandle)
      → find_session handle_of (perform_all (new handle_of) cs) handle
        ≡ current handle_of handle (meaning_all nothing cs handle.id)
  unfolding find_session
  find_session-perform_all cs handle =
      ap (λ (f : ℕ → Option A). current handle_of handle (f handle.id))
        (lookup-perform_all (new handle_of) cs refl
          ∙ ap (λ (f : ℕ → Option A). meaning_all f cs) lookup-new)
