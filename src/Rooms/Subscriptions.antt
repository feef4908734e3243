-- ===== src/Rooms/Subscriptions.antt =====
-- The registry as what it promises: a set of pairs of a session and a room.
use iocp_engine.Base.{
  ◌≡◌, refl, ap, fun_ext, ◌∙◌, Bool, false, not, ◌&&◌, ◌||◌, List, [], ◌∷◌, if◌then◌else◌, arith,
}
use iocp_engine.Base.Keyed.{same, same_iff, contains, count, contains-add}
use iocp_engine.SessionHandle.{SessionHandle, handle_key}
use iocp_engine.Rooms.{
  Room, room_key, RoomRegistry, Authorizer, new, is_valid_room, allows, rooms_of, join, leave,
  snapshot, remove_session,
}
use iocp_engine.Rooms.Indices.{
  Mirrors, rooms-subscribe, subscribe-Mirrors, rooms-leave, leave-Mirrors, rooms-remove_session,
  remove_session-Mirrors,
}

-- Whether a session is subscribed to a room.
abbrev pub Subscriptions : Type 0
Subscriptions = SessionHandle → Room → Bool

abbrev pub subscriptions : RoomRegistry → Subscriptions
subscriptions r s q = contains q (rooms_of r s)

pub data Command : Type 0 where
  joins leaves : SessionHandle → Room → Command
  disconnects : SessionHandle → Command

unfoldable pub perform : Authorizer → RoomRegistry → Command → RoomRegistry
perform a r (joins s q) = (join a r s q).1
perform a r (leaves s q) = (leave r s q).1
perform a r (disconnects s) = remove_session r s

unfoldable pub perform_all : Authorizer → RoomRegistry → List Command → RoomRegistry
perform_all a r [] = r
perform_all a r (c ∷ cs) = perform_all a (perform a r c) cs

abbrev pub may_join : Authorizer → SessionHandle → Room → Bool
may_join a s q = is_valid_room q && allows a s q false

-- The same on sets of pairs.
abbrev pub meaning : Authorizer → Subscriptions → Command → Subscriptions
meaning a f (joins s q) t p = (may_join a s q && same s t && same q p) || f t p
meaning a f (leaves s q) t p = not (same s t && same q p) && f t p
meaning a f (disconnects s) t p = not (same s t) && f t p

unfoldable pub meaning_all : Authorizer → Subscriptions → List Command → Subscriptions
meaning_all a f [] = f
meaning_all a f (c ∷ cs) = meaning_all a (meaning a f c) cs

pub perform-Mirrors :
    (a : Authorizer) (r : RoomRegistry) (c : Command) → Mirrors r → Mirrors (perform a r c)
unfolding perform join
perform-Mirrors a r (joins s q) v t p = ground (arith, subscribe-Mirrors r s q v t p, v t p)
perform-Mirrors a r (leaves s q) v t p = leave-Mirrors r s q v t p
perform-Mirrors a r (disconnects s) v t p = remove_session-Mirrors r s v t p

pub subscriptions-perform :
    (a : Authorizer) (r : RoomRegistry) (c : Command) (t : SessionHandle) (p : Room)
    → subscriptions (perform a r c) t p ≡ meaning a (subscriptions r) c t p
unfolding perform join
subscriptions-perform a r (joins s q) t p =
    ground
      (arith, rooms-subscribe r s t q, contains-add q p (rooms_of r s), same_iff s t, same_iff q p)
subscriptions-perform a r (leaves s q) t p = rooms-leave r s t q p
subscriptions-perform a r (disconnects s) t p = rooms-remove_session r s t p

perform_all-Mirrors :
    (a : Authorizer) (cs : List Command) (r : RoomRegistry)
    → Mirrors r
    → Mirrors (perform_all a r cs)
unfolding perform_all
perform_all-Mirrors a [] r v = v
perform_all-Mirrors a (c ∷ cs) r v =
    perform_all-Mirrors a cs (perform a r c) (perform-Mirrors a r c v)

subscriptions-perform_all :
    (a : Authorizer) (cs : List Command) (r : RoomRegistry)
    → subscriptions (perform_all a r cs) ≡ meaning_all a (subscriptions r) cs
unfolding perform_all meaning_all
subscriptions-perform_all a [] r = refl
subscriptions-perform_all a (c ∷ cs) r =
    subscriptions-perform_all a cs (perform a r c)
    ∙ ap (λ (f : Subscriptions). meaning_all a f cs)
        (fun_ext λ t. fun_ext λ p. subscriptions-perform a r c t p)

abbrev pub nobody : Subscriptions
nobody s q = false

-- After any sequence of joins, leaves and disconnects on a fresh registry, the snapshot of a room holds
-- a session once when it is subscribed to the room, and not at all otherwise. Subscribed are those pairs
-- of a session and a valid room that were joined with the authorizer's consent, and neither left nor
-- disconnected since.
pub snapshot-perform_all :
    (a : Authorizer) (cs : List Command) (t : SessionHandle) (p : Room)
    → count t (snapshot (perform_all a new cs) p) ≡ (if meaning_all a nobody cs t p then 1 else 0)
unfolding snapshot
snapshot-perform_all a cs t p =
    perform_all-Mirrors a cs new (λ s q. refl) t p
    ∙ ap (λ (f : Subscriptions). if f t p then 1 else 0) (subscriptions-perform_all a cs new)
