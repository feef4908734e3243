-- ===== src/Sessions/Census.antt =====
-- Which sessions a snapshot lists.
use iocp_engine.Base.{
  ℕ, zero, suc, ◌+◌, ◌%◌, ◌≡◌, ◌≢◌, refl, ap, sym, subst, ◌∙◌, true, Bool-cases, inl, inr, Option,
  none, some, List, [], ◌∷◌, ◌++◌, ◌==◌, ==_iff, ltb, map, if◌then◌else◌, length, arith,
}
use iocp_engine.Base.Keyed.{count, find, assign, erase, number_key, find-assign, find-erase}
use iocp_engine.SessionHandle.{SessionHandle, handle_key}
use iocp_engine.Sessions.{
  shard_count, Shard, ShardedSessionRegistry, new, set_shard, shard, insert, current, find_session,
  remove_current, remove, values, snapshot,
}
use iocp_engine.Sessions.Refine.{
  is_some, length-set_shard, shard-set_shard, find-remove_current, shard-new, same_place, Command,
  inserts, removes, perform, perform_all, meaning_all, nothing, find_session-perform_all,
}

module _ {ℓ} {A : Type ℓ} (handle_of : A → SessionHandle) where
  -- Each session is under its number, once.
  abbrev Tidy : Shard handle_of → Type ℓ
  Tidy [] = Unit
  Tidy ((id, value) ∷ m) = ((handle_of value).id ≡ id) × (find id m ≡ none) × Tidy m

  abbrev census : SessionHandle → List A → ℕ
  census handle vs = count handle (map handle_of vs)

  assign-Tidy :
      (value : A) (m : Shard handle_of) → Tidy m → Tidy (assign (handle_of value).id value m)
  assign-Tidy value [] v = (refl, refl, tt)
  assign-Tidy value ((id, w) ∷ m) v = elim (Bool-cases (id == (handle_of value).id)) [
    | inl e ↦
        rw e (refl, ap (λ i. find i m) (sym ((==_iff id (handle_of value).id).0 e)) ∙ v.1, v.2)
    | inr e ↦ rw e (
      v.0,
      find-assign (handle_of value).id id value m
          ∙ ground (arith, v.1, e, ==_iff id (handle_of value).id, ==_iff (handle_of value).id id),
      assign-Tidy value m v.2,
    )
  ]

  erase-Tidy : (id : ℕ) (m : Shard handle_of) → Tidy m → Tidy (erase id m)
  erase-Tidy id [] v = tt
  erase-Tidy id ((i, w) ∷ m) v = elim (Bool-cases (i == id)) [
    | inl e ↦ rw e (erase-Tidy id m v.2)
    | inr e ↦ rw e (v.0, find-erase id i m ∙ ground (arith, v.1), erase-Tidy id m v.2)
  ]

  remove_current-Tidy :
      (handle : SessionHandle) (o : Option A) (m : Shard handle_of)
      → Tidy m
      → Tidy (remove_current handle_of handle o m)
  unfolding remove_current
  remove_current-Tidy handle none m v = v
  remove_current-Tidy handle (some value) m v = erase-Tidy handle.id m v

  found : SessionHandle → Option A → ℕ
  found handle o = if is_some (current handle_of handle o) then 1 else 0

  census-Tidy :
      (handle : SessionHandle) (m : Shard handle_of)
      → Tidy m
      → census handle (values handle_of m) ≡ found handle (find handle.id m)
  unfolding found current
  census-Tidy handle [] v = refl
  census-Tidy handle ((id, w) ∷ m) v =
      ground (arith, census-Tidy handle m v.2, v.0, v.1, ==_iff id handle.id)

  -- Each number in the one map that its remainder names.
  record Placed (shards : ShardedSessionRegistry handle_of) : Type ℓ where
    all_shards : length shards ≡ shard_count
    tidy : (j : ℕ) → Tidy (shard handle_of shards j)
    in_place : (id j : ℕ) → id % shard_count ≢ j → find id (shard handle_of shards j) ≡ none

  set_shard-Placed :
      (shards : ShardedSessionRegistry handle_of) (i : ℕ) (m : Shard handle_of)
      → Placed shards
      → Tidy m
      → ((id : ℕ) → id % shard_count ≢ i % shard_count → find id m ≡ none)
      → Placed (set_shard handle_of shards (i % shard_count) m)
  set_shard-Placed shards i m v t f =
      let at = λ (j : ℕ).
        shard-set_shard handle_of shards (i % shard_count) j m (omega (arith, v.all_shards)) in
      record {
        all_shards = length-set_shard handle_of shards _ m ∙ v.all_shards;
        tidy = λ j. elim (Bool-cases (j == i % shard_count)) [
          | inl e ↦ rw (at j, e) t
          | inr e ↦ rw (at j, e) (v.tidy j)
        ];
        in_place = λ id j h. elim (Bool-cases (j == i % shard_count)) [
          | inl e ↦ rw (at j, e) (f id (λ z. h (z ∙ sym ((==_iff j _).0 e))))
          | inr e ↦ rw (at j, e) (v.in_place id j h)
        ];
      }

  perform-Placed :
      (shards : ShardedSessionRegistry handle_of) (c : Command handle_of)
      → Placed shards
      → Placed (perform handle_of shards c)
  unfolding perform insert remove
  perform-Placed shards (inserts value) v =
      let id : ℕ = (handle_of value).id in
      let m : Shard handle_of = shard handle_of shards (id % shard_count) in
      set_shard-Placed shards id (assign id value m) v (assign-Tidy value m (v.tidy _)) (λ i h.
        find-assign id i value m
        ∙ ground (arith, same_place id i, h, v.in_place i (id % shard_count) h, ==_iff id i))
  perform-Placed shards (removes handle) v =
      let id : ℕ = handle.id in
      let m : Shard handle_of = shard handle_of shards (id % shard_count) in
      let o : Option A = find_session handle_of shards handle in
      set_shard-Placed shards id (remove_current handle_of handle o m) v
        (remove_current-Tidy handle o m (v.tidy _))
        (λ i h.
          find-remove_current handle_of handle o m i
          ∙ ground (arith, v.in_place i (id % shard_count) h))

  perform_all-Placed :
      (shards : ShardedSessionRegistry handle_of) (cs : List (Command handle_of))
      → Placed shards
      → Placed (perform_all handle_of shards cs)
  unfolding perform_all
  perform_all-Placed shards [] v = v
  perform_all-Placed shards (c ∷ cs) v =
      perform_all-Placed (perform handle_of shards c) cs (perform-Placed shards c v)

  new-Placed : Placed (new handle_of)
  new-Placed = record {
    all_shards = refl;
    tidy = λ j. subst Tidy (sym (shard-new handle_of shard_count j)) tt;
    in_place = λ id j h. ap (find id) (shard-new handle_of shard_count j);
  }

  census-append :
      (handle : SessionHandle) (vs ws : List A)
      → census handle (vs ++ ws) ≡ census handle vs + census handle ws
  census-append handle [] ws = omega arith
  census-append handle (x ∷ vs) ws = omega (arith, census-append handle vs ws)

  absent :
      (handle : SessionHandle) (shards : ShardedSessionRegistry handle_of)
      → ((j : ℕ) → census handle (values handle_of (shard handle_of shards j)) ≡ 0)
      → census handle (snapshot handle_of shards) ≡ 0
  unfolding snapshot
  absent handle [] h = refl
  absent handle (m ∷ shards) h =
      census-append handle (values handle_of m) (snapshot handle_of shards)
      ∙ omega (arith, h 0, absent handle shards (λ j. h (suc j)))

  -- One map has all of them.
  census-snapshot :
      (handle : SessionHandle) (shards : ShardedSessionRegistry handle_of) (place n : ℕ)
      → ((j : ℕ)
          → census handle (values handle_of (shard handle_of shards j))
            ≡ (if j == place then n else 0))
      → census handle (snapshot handle_of shards) ≡ (if ltb place (length shards) then n else 0)
  unfolding snapshot
  census-snapshot handle [] place n h = ground arith
  census-snapshot handle (m ∷ shards) zero n h =
      census-append handle (values handle_of m) (snapshot handle_of shards)
      ∙ ground
          (arith, h 0, absent handle shards (λ j. h (suc j) ∙ ground (arith, ==_iff (suc j) 0)))
  census-snapshot handle (m ∷ shards) (suc place) n h =
      census-append handle (values handle_of m) (snapshot handle_of shards)
      ∙ ground (
        arith,
        h 0,
        ==_iff 0 (suc place),
        census-snapshot handle shards place n
            (λ j. h (suc j) ∙ ground (arith, ==_iff (suc j) (suc place), ==_iff j place)),
      )

  census-shard :
      (handle : SessionHandle) (shards : ShardedSessionRegistry handle_of)
      → Placed shards
      → (j : ℕ)
      → census handle (values handle_of (shard handle_of shards j)) ≡ (
          if j == handle.id % shard_count
          then found handle (find handle.id (shard handle_of shards (handle.id % shard_count)))
          else 0)
  unfolding found current
  census-shard handle shards v j = elim (Bool-cases (j == handle.id % shard_count)) [
    | inl e ↦
        rw (e, (==_iff j (handle.id % shard_count)).0 e)
          (census-Tidy handle _ (v.tidy (handle.id % shard_count)))
    | inr e ↦ rw e (
        census-Tidy handle _ (v.tidy j)
        ∙ ap (found handle) (
            v.in_place handle.id j (λ z. ground (arith, e, z, ==_iff j (handle.id % shard_count)))))
  ]

  -- The snapshot lists what is found.
  snapshot-find_session :
      (cs : List (Command handle_of)) (handle : SessionHandle)
      → let shards = perform_all handle_of (new handle_of) cs in
        count handle (map handle_of (snapshot handle_of shards))
        ≡ (if is_some (find_session handle_of shards handle) then 1 else 0)
  unfolding find_session
  snapshot-find_session cs handle =
      let shards : ShardedSessionRegistry handle_of = perform_all handle_of (new handle_of) cs in
      let v : Placed shards = perform_all-Placed (new handle_of) cs new-Placed in
      let place : ℕ = handle.id % shard_count in
      let inside : ltb place (length shards) ≡ true = ground (arith, v.all_shards) in
      census-snapshot handle shards place
        (found handle (find handle.id (shard handle_of shards place)))
        (census-shard handle shards v)
      ∙ rw inside (unfold found in refl)

  -- After any sequence of insertions and removals on the empty registry, a handle finds what one map from
  -- numbers to sessions has under its number, when that has its generation, and nothing otherwise; and
  -- the snapshot lists a session with that handle once when there is one, and not at all otherwise. In
  -- that map an insertion replaces what is under the session's number, and a removal removes only the
  -- same generation.
  pub sessions-perform_all :
      (cs : List (Command handle_of)) (handle : SessionHandle)
      → let shards = perform_all handle_of (new handle_of) cs in
        let entry =
          current handle_of handle (meaning_all handle_of (nothing handle_of) cs handle.id) in
        (find_session handle_of shards handle ≡ entry)
        × (count handle (map handle_of (snapshot handle_of shards))
            ≡ (if is_some entry then 1 else 0))
  sessions-perform_all cs handle =
      let e = find_session-perform_all handle_of cs handle in
      (e, snapshot-find_session cs handle ∙ ap (λ (o : Option A). if is_some o then 1 else 0) e)
