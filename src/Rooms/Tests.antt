-- ===== src/Rooms/Tests.antt =====
-- The registry at small examples.
use iocp_engine.Base.{
  ◌≡◌, ◌↔◌, refl, true, false, none, some, List, [], ◌∷◌, if◌then◌else◌, ◌==◌, ◌≤◌, length, All,
}
use iocp_engine.Base.Text.{ascii, starts_with}
use iocp_engine.Base.Keyed.{count}
use iocp_engine.SessionHandle.{SessionHandle, handle_key}
use iocp_engine.Rooms.{
  Room, room_key, unauthorized, Authorizer, new, prefixes, is_valid_room, subscribe, join,
  authorize_publish, snapshot, any_prefix, all_room_bytes, is_room_byte,
}
use iocp_engine.Rooms.Subscriptions.{
  Command, joins, leaves, disconnects, perform, perform_all, meaning_all, nobody,
  snapshot-perform_all,
}
use iocp_engine.Rooms.Names.{HasPrefix, IsRoomByte, is_valid_room_iff}

abbrev alice : SessionHandle
alice = record { id = 1; generation = 1 }

abbrev bob : SessionHandle
bob = record { id = 2; generation = 1 }

abbrev court : Room
court = ascii "court:7"

-- Nobody but Alice may be in a match.
abbrev strict : Authorizer
strict = some (λ session room publishing. session.id == 1)

abbrev commands : List Command
commands =
    joins alice court
    ∷ joins alice court
    ∷ joins bob court
    ∷ joins alice (ascii "match:1")
    ∷ leaves alice court
    ∷ joins alice court
    ∷ disconnects bob
    ∷ []

snapshot-perform_all_example :
    count alice (snapshot (perform_all strict new commands) court)
    ≡ (if meaning_all strict nobody commands alice court then 1 else 0)
snapshot-perform_all_example = snapshot-perform_all strict commands alice court

is_valid_room_iff_example :
    (is_valid_room court ≡ true)
    ↔ HasPrefix court prefixes × (length court ≤ 160) × All IsRoomByte court
is_valid_room_iff_example = is_valid_room_iff court

members_of_court :
    snapshot (perform_all none new (joins alice court ∷ joins bob court ∷ [])) court
    ≡ bob ∷ alice ∷ []
unfolding snapshot perform_all perform join is_valid_room subscribe any_prefix starts_with
    all_room_bytes is_room_byte
members_of_court = refl

closed_rooms : authorize_publish strict new bob court ≡ unauthorized
unfolding authorize_publish is_valid_room any_prefix starts_with all_room_bytes is_room_byte
closed_rooms = refl

no_such_prefix : is_valid_room (ascii "lobby:1") ≡ false
unfolding is_valid_room any_prefix starts_with
no_such_prefix = refl
