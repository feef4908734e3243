-- ===== src/Rooms/Indices.antt =====
-- The two indices, entry by entry.
use iocp_engine.Base.{◌≡◌, refl, not, ◌&&◌, Option, none, some, List, [], ◌∷◌, if◌then◌else◌, arith}
use iocp_engine.Base.Keyed.{
  Key, same, same_iff, contains, count, add, remove, find, contains-remove, contains-add,
  count-remove, contains-count, find-assign, find-erase,
}
use iocp_engine.SessionHandle.{SessionHandle, handle_key}
use iocp_engine.Rooms.{
  Room, RoomRegistry, or_empty, rooms_of, members, subscribe, put_back, room_key, drop_found,
  drop_member, leave_found, leave, drop_from_each, remove_found, remove_session,
}

module _ {ℓ κ} {K : Type ℓ} {V : Type κ} ⦃k : Key K⦄ where
  pub find-put_back :
      (a b : K) (vs : List V) (m : List (K × List V))
      → or_empty (find b (put_back a vs m)) ≡ (if same a b then vs else or_empty (find b m))
  find-put_back a b [] m = ground (arith, find-erase a b m)
  find-put_back a b (v ∷ vs) m = ground (arith, find-assign a b (v ∷ vs) m)

drop_found_lem :
    (s : SessionHandle) (q p : Room) (m : List (Room × List SessionHandle))
    (o : Option (List SessionHandle))
    → find q m ≡ o
    → or_empty (find p (drop_found s q m o))
      ≡ (if same q p then remove s (or_empty (find p m)) else or_empty (find p m))
unfolding drop_found
drop_found_lem s q p m none e = ground (arith, same_iff q p)
drop_found_lem s q p m (some ss) e = ground (arith, same_iff q p, find-put_back q p (remove s ss) m)

pub members-drop :
    (s : SessionHandle) (q p : Room) (m : List (Room × List SessionHandle))
    → or_empty (find p (drop_member s q m))
      ≡ (if same q p then remove s (or_empty (find p m)) else or_empty (find p m))
unfolding drop_member
members-drop s q p m = drop_found_lem s q p m (find q m) refl

-- The two indices agree: a session stands once among the members of each of its rooms, and not among
-- those of another.
abbrev pub Mirrors : RoomRegistry → Type 0
Mirrors r =
    (s : SessionHandle) (q : Room)
    → count s (members r q) ≡ (if contains q (rooms_of r s) then 1 else 0)

members-drop_each :
    (s t : SessionHandle) (q : Room) (rooms : List Room) (m : List (Room × List SessionHandle))
    → count t (or_empty (find q (drop_from_each s rooms m)))
      ≡ (if same s t && contains q rooms then 0 else count t (or_empty (find q m)))
unfolding drop_from_each
members-drop_each s t q [] m = ground (arith)
members-drop_each s t q (room ∷ rooms) m = ground (
  arith,
  members-drop_each s t q rooms (drop_member s room m),
  members-drop s room q m,
  count-remove s t (or_empty (find q m)),
)

pub rooms-subscribe :
    (r : RoomRegistry) (s t : SessionHandle) (q : Room)
    → rooms_of (subscribe r s q).1 t ≡ (if same s t then add q (rooms_of r s) else rooms_of r t)
unfolding subscribe
rooms-subscribe r s t q =
    ground (arith, find-assign s t (add q (rooms_of r s)) r.session_to_rooms, same_iff s t)

members-subscribe :
    (r : RoomRegistry) (s : SessionHandle) (q p : Room)
    → Mirrors r
    → members (subscribe r s q).1 p ≡ (if same q p then add s (members r q) else members r p)
unfolding subscribe
members-subscribe r s q p v = ground (
  arith,
  find-assign q p (add s (members r q)) r.room_to_sessions,
  same_iff q p,
  v s q,
  contains-count s (members r q),
)

pub subscribe-Mirrors :
    (r : RoomRegistry) (s : SessionHandle) (q : Room) → Mirrors r → Mirrors (subscribe r s q).1
subscribe-Mirrors r s q v t p = ground (
  arith,
  rooms-subscribe r s t q,
  members-subscribe r s q p v,
  v t p,
  v s q,
  v t q,
  v s p,
  contains-add q p (rooms_of r s),
  contains-count s (members r q),
  contains-count t (members r q),
  same_iff s t,
  same_iff q p,
)

rooms-leave_found :
    (r : RoomRegistry) (s t : SessionHandle) (q p : Room) (o : Option (List Room))
    → find s r.session_to_rooms ≡ o
    → contains p (rooms_of (leave_found r s q o).1 t)
      ≡ (not (same s t && same q p) && contains p (rooms_of r t))
unfolding leave_found
rooms-leave_found r s t q p none e = ground (arith, same_iff s t, same_iff q p)
rooms-leave_found r s t q p (some rooms) e = ground (
  arith,
  same_iff s t,
  same_iff q p,
  find-put_back s t (remove q rooms) r.session_to_rooms,
  contains-remove q p rooms,
)

pub rooms-leave :
    (r : RoomRegistry) (s t : SessionHandle) (q p : Room)
    → contains p (rooms_of (leave r s q).1 t)
      ≡ (not (same s t && same q p) && contains p (rooms_of r t))
unfolding leave
rooms-leave r s t q p = rooms-leave_found r s t q p (find s r.session_to_rooms) refl

count-leave_found :
    (r : RoomRegistry) (s t : SessionHandle) (q p : Room) (o : Option (List Room))
    → find s r.session_to_rooms ≡ o
    → Mirrors r
    → count t (members (leave_found r s q o).1 p)
      ≡ (if same s t && same q p then 0 else count t (members r p))
unfolding leave_found
count-leave_found r s t q p none e v = ground (arith, same_iff s t, same_iff q p, v s q)
count-leave_found r s t q p (some rooms) e v = ground (
  arith,
  same_iff s t,
  same_iff q p,
  v s q,
  members-drop s q p r.room_to_sessions,
  count-remove s t (members r p),
)

pub leave-Mirrors :
    (r : RoomRegistry) (s : SessionHandle) (q : Room) → Mirrors r → Mirrors (leave r s q).1
unfolding leave
leave-Mirrors r s q v t p = ground (
  arith,
  rooms-leave_found r s t q p (find s r.session_to_rooms) refl,
  count-leave_found r s t q p (find s r.session_to_rooms) refl v,
  v t p,
)

rooms-remove_found :
    (r : RoomRegistry) (s t : SessionHandle) (p : Room) (o : Option (List Room))
    → find s r.session_to_rooms ≡ o
    → contains p (rooms_of (remove_found r s o) t) ≡ (not (same s t) && contains p (rooms_of r t))
unfolding remove_found
rooms-remove_found r s t p none e = ground (arith, same_iff s t)
rooms-remove_found r s t p (some rooms) e =
    ground (arith, same_iff s t, find-erase s t r.session_to_rooms)

pub rooms-remove_session :
    (r : RoomRegistry) (s t : SessionHandle) (p : Room)
    → contains p (rooms_of (remove_session r s) t) ≡ (not (same s t) && contains p (rooms_of r t))
unfolding remove_session
rooms-remove_session r s t p = rooms-remove_found r s t p (find s r.session_to_rooms) refl

count-remove_found :
    (r : RoomRegistry) (s t : SessionHandle) (p : Room) (o : Option (List Room))
    → find s r.session_to_rooms ≡ o
    → Mirrors r
    → count t (members (remove_found r s o) p) ≡ (if same s t then 0 else count t (members r p))
unfolding remove_found
count-remove_found r s t p none e v = ground (arith, same_iff s t, v s p)
count-remove_found r s t p (some rooms) e v =
    ground (arith, same_iff s t, v s p, v t p, members-drop_each s t p rooms r.room_to_sessions)

pub remove_session-Mirrors :
    (r : RoomRegistry) (s : SessionHandle) → Mirrors r → Mirrors (remove_session r s)
unfolding remove_session
remove_session-Mirrors r s v t p = ground (
  arith,
  rooms-remove_found r s t p (find s r.session_to_rooms) refl,
  count-remove_found r s t p (find s r.session_to_rooms) refl v,
  v t p,
)
