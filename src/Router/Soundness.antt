-- ===== src/Router/Soundness.antt =====
-- What the changes of the rooms and of the principals keep.
use iocp_engine.Base.{
  ℕ, ◌≡◌, refl, sym, subst, true, false, ◌&&◌, ◌||◌, Option, none, some, [], arith,
}
use iocp_engine.Base.Keyed.{same, same_iff, find-assign, find-erase}
use iocp_engine.SessionHandle.{SessionHandle, handle_key}
use iocp_engine.Rooms.{
  Room, room_key, RoomRegistry, RoomResult, Authorizer, allows, is_valid_room, rooms_of, join,
  leave, subscribe, snapshot, remove_session,
}
use iocp_engine.Rooms
use iocp_engine.Rooms.Indices.{
  Mirrors, leave-Mirrors, rooms-leave, remove_session-Mirrors, rooms-remove_session,
}
use iocp_engine.Rooms.Subscriptions.{
  subscriptions, joins, perform, perform-Mirrors, subscriptions-perform,
}
use iocp_engine.Router.Schema.{Text}
use iocp_engine.Router.Replies.{ProtocolRouter, Policy, principal, is_some, room_policy, send}
use iocp_engine.Router.{authenticated, on_disconnect}

-- The registry's indices agree, every room with a subscriber is valid, and its subscribers are
-- authenticated.
pub record Sound (r : ProtocolRouter) : Type 0 where
  pub mirrors : Mirrors r.rooms
  pub members_known :
      (s : SessionHandle) (q : Room)
      → subscriptions r.rooms s q ≡ true
      → (is_valid_room q ≡ true) × (is_some (principal r s) ≡ true)

abbrev pub fresh : ProtocolRouter
fresh = record { rooms = Rooms.new; principals = []; server_sequence = 1 }

pub fresh-Sound : Sound fresh
fresh-Sound = record { mirrors = λ s q. refl; members_known = λ s q h. absurd (cc) }

-- Only the sequence number may differ.
abbrev Same : ProtocolRouter → ProtocolRouter → Type 0
Same r t = (t.rooms ≡ r.rooms) × (t.principals ≡ r.principals)

Same-Sound : (r t : ProtocolRouter) → Same r t → Sound r → Sound t
Same-Sound r t (e, f) v = record {
  mirrors = subst Mirrors (sym e) v.mirrors;
  members_known = λ s q h. ground (arith, v.members_known s q, e, f, h);
}

pub authenticated-Sound :
    (now : ℕ) (r : ProtocolRouter) (s : SessionHandle) (id : ℕ) (o : Option Text)
    → Sound r
    → Sound (authenticated now r s id o).router
unfolding authenticated send
authenticated-Sound now r s id none v = record {
  mirrors = v.mirrors;
  members_known = v.members_known;
}
authenticated-Sound now r s id (some who) v = record {
  mirrors = v.mirrors;
  members_known = λ t q h. ground (arith, v.members_known t q h, find-assign s t who r.principals);
}

joined-subscriptions :
    (a : Authorizer) (r : RoomRegistry) (s t : SessionHandle) (q o : Room)
    → subscriptions (join a r s q).1 t o
      ≡ ((is_valid_room q && allows a s q false && same s t && same q o) || subscriptions r t o)
unfolding perform
joined-subscriptions a r s t q o = ground (arith, subscriptions-perform a r (joins s q) t o)

joined-Mirrors :
    (a : Authorizer) (r : RoomRegistry) (s : SessionHandle) (q : Room)
    → Mirrors r
    → Mirrors (join a r s q).1
unfolding perform
joined-Mirrors a r s q v = perform-Mirrors a r (joins s q) v

pub joined-Sound :
    (p : Policy) (r : ProtocolRouter) (s : SessionHandle) (q : Room)
    → is_some (principal r s) ≡ true
    → Sound r
    → Sound (record r { rooms = (join (room_policy p r) r.rooms s q).1 })
joined-Sound p r s q a v = record {
  mirrors = joined-Mirrors (room_policy p r) r.rooms s q v.mirrors;
  members_known = λ t o h. ground (
    arith,
    joined-subscriptions (room_policy p r) r.rooms s t q o,
    v.members_known t o,
    same_iff s t,
    same_iff q o,
  );
}

pub left-Sound :
    (r : ProtocolRouter) (s : SessionHandle) (q : Room)
    → Sound r
    → Sound (record r { rooms = (leave r.rooms s q).1 })
left-Sound r s q v = record {
  mirrors = leave-Mirrors r.rooms s q v.mirrors;
  members_known = λ t o h. ground (arith, rooms-leave r.rooms s t q o, v.members_known t o);
}

pub on_disconnect-Sound :
    (r : ProtocolRouter) (s : SessionHandle) → Sound r → Sound (on_disconnect r s)
unfolding on_disconnect
on_disconnect-Sound r s v = record {
  mirrors = remove_session-Mirrors r.rooms s v.mirrors;
  members_known = λ t o h.
      ground (
        arith,
        rooms-remove_session r.rooms s t o,
        v.members_known t o,
        find-erase s t r.principals,
      );
}
