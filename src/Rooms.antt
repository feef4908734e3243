-- ===== src/Rooms.antt =====
-- src/pubsub/room_registry.hpp: which sessions are subscribed to which rooms, in two indices.
-- Each function runs under the registry's mutex, but for the calls of the authorizer.
pub mod Subscriptions
pub mod Indices
pub mod Names
mod Tests
use iocp_engine.Base.{
  ℕ, Bool, true, false, not, ◌&&◌, ◌||◌, Option, none, some, List, [], ◌∷◌, ◌==◌, ltb, leb,
  if◌then◌else◌, length,
}
use iocp_engine.Base.Keyed.{Key, text_key, contains, add, remove, find, assign, erase}
use iocp_engine.Base.Text.{starts_with}
use iocp_engine.SessionHandle.{SessionHandle, handle_key}

pub data RoomResult : Type 0 where
  ok invalid_room unauthorized already_subscribed not_subscribed : RoomResult

-- The name of a room: its bytes.
abbrev pub Room : Type 0
Room = List ℕ

instance abbrev pub room_key : Key Room
room_key = text_key

-- `none` is the empty `std::function`.
abbrev pub Authorizer : Type 0
Authorizer = Option (SessionHandle → Room → Bool → Bool)

pub record RoomRegistry : Type 0 where
  pub room_to_sessions : List (Room × List SessionHandle)
  pub session_to_rooms : List (SessionHandle × List Room)

abbrev pub new : RoomRegistry
new = record { room_to_sessions = []; session_to_rooms = [] }

abbrev pub or_empty {ℓ} : {A : Type ℓ} → Option (List A) → List A
or_empty none = []
or_empty (some xs) = xs

unfoldable pub any_prefix : List ℕ → List (List ℕ) → Bool
any_prefix text [] = false
any_prefix text (p ∷ ps) = starts_with text p || any_prefix text ps

-- "match:", "facility:", "court:", "equipment:", "booking:user:"
abbrev pub prefixes : List (List ℕ)
prefixes =
    (b'm' ∷ b'a' ∷ b't' ∷ b'c' ∷ b'h' ∷ b':' ∷ [])
    ∷ (b'f' ∷ b'a' ∷ b'c' ∷ b'i' ∷ b'l' ∷ b'i' ∷ b't' ∷ b'y' ∷ b':' ∷ [])
    ∷ (b'c' ∷ b'o' ∷ b'u' ∷ b'r' ∷ b't' ∷ b':' ∷ [])
    ∷ (b'e' ∷ b'q' ∷ b'u' ∷ b'i' ∷ b'p' ∷ b'm' ∷ b'e' ∷ b'n' ∷ b't' ∷ b':' ∷ [])
    ∷ (b'b' ∷ b'o' ∷ b'o' ∷ b'k' ∷ b'i' ∷ b'n' ∷ b'g' ∷ b':' ∷ b'u' ∷ b's' ∷ b'e' ∷ b'r' ∷ b':'
        ∷ [])
    ∷ []

unfoldable pub is_room_byte : ℕ → Bool
is_room_byte c =
    (leb b'a' c && leb c b'z')
    || (leb b'A' c && leb c b'Z')
    || (leb b'0' c && leb c b'9')
    || c == b':'
    || c == b'-'
    || c == b'_'
    || c == b'.'

unfoldable pub all_room_bytes : List ℕ → Bool
all_room_bytes [] = true
all_room_bytes (c ∷ cs) = is_room_byte c && all_room_bytes cs

unfoldable pub is_valid_room : Room → Bool
is_valid_room room =
    if length room == 0 || ltb 160 (length room)
    then false
    else if not (any_prefix room prefixes)
    then false
    else all_room_bytes room

abbrev pub allows : Authorizer → SessionHandle → Room → Bool → Bool
allows none session room publishing = true
allows (some f) session room publishing = f session room publishing

-- The rooms of a session, and the sessions of a room, as `operator[]` reads them.
abbrev pub rooms_of : RoomRegistry → SessionHandle → List Room
rooms_of r session = or_empty (find session r.session_to_rooms)

abbrev pub members : RoomRegistry → Room → List SessionHandle
members r room = or_empty (find room r.room_to_sessions)

-- `Join` under the mutex.
unfoldable pub subscribe : RoomRegistry → SessionHandle → Room → RoomResult × RoomRegistry
subscribe r session room = if contains room (rooms_of r session) then (already_subscribed, r) else (
  ok,
  record r {
    session_to_rooms = assign session (add room (rooms_of r session)) r.session_to_rooms;
    room_to_sessions = assign room (add session (members r room)) r.room_to_sessions;
  },
)

unfoldable pub join : Authorizer → RoomRegistry → SessionHandle → Room → RoomResult × RoomRegistry
join a r session room =
    if not (is_valid_room room)
    then (invalid_room, r)
    else if not (allows a session room false)
    then (unauthorized, r)
    else subscribe r session room

abbrev pub is_empty {ℓ} : {A : Type ℓ} → List A → Bool
is_empty [] = true
is_empty (x ∷ xs) = false

-- An entry that becomes empty is erased.
abbrev pub put_back {ℓ κ} :
    {K : Type ℓ} {V : Type κ} → ⦃k : Key K⦄ → K → List V → List (K × List V) → List (K × List V)
put_back key values m = if is_empty values then erase key m else assign key values m

unfoldable pub drop_found :
    SessionHandle
    → Room
    → List (Room × List SessionHandle)
    → Option (List SessionHandle)
    → List (Room × List SessionHandle)
drop_found session room m none = m
drop_found session room m (some sessions) = put_back room (remove session sessions) m

-- What `Leave` and `RemoveSession` do to the members of a room.
unfoldable pub drop_member :
    SessionHandle → Room → List (Room × List SessionHandle) → List (Room × List SessionHandle)
drop_member session room m = drop_found session room m (find room m)

unfoldable pub leave_found :
    RoomRegistry → SessionHandle → Room → Option (List Room) → RoomResult × RoomRegistry
leave_found r session room none = (not_subscribed, r)
leave_found r session room (some rooms) =
    if not (contains room rooms) then (not_subscribed, r) else (
      ok,
      record r {
        session_to_rooms = put_back session (remove room rooms) r.session_to_rooms;
        room_to_sessions = drop_member session room r.room_to_sessions;
      },
    )

unfoldable pub leave : RoomRegistry → SessionHandle → Room → RoomResult × RoomRegistry
leave r session room = leave_found r session room (find session r.session_to_rooms)

unfoldable pub authorize_publish : Authorizer → RoomRegistry → SessionHandle → Room → RoomResult
authorize_publish a r session room =
    if not (is_valid_room room)
    then invalid_room
    else if not (allows a session room true)
    then unauthorized
    else if not (contains room (rooms_of r session))
    then not_subscribed
    else ok

unfoldable pub snapshot : RoomRegistry → Room → List SessionHandle
snapshot r room = members r room

unfoldable pub drop_from_each :
    SessionHandle → List Room → List (Room × List SessionHandle) → List (Room × List SessionHandle)
drop_from_each session [] m = m
drop_from_each session (room ∷ rooms) m = drop_from_each session rooms (drop_member session room m)

unfoldable pub remove_found : RoomRegistry → SessionHandle → Option (List Room) → RoomRegistry
remove_found r session none = r
remove_found r session (some rooms) = record r {
  room_to_sessions = drop_from_each session rooms r.room_to_sessions;
  session_to_rooms = erase session r.session_to_rooms;
}

unfoldable pub remove_session : RoomRegistry → SessionHandle → RoomRegistry
remove_session r session = remove_found r session (find session r.session_to_rooms)
