-- ===== src/Router/Tests.antt =====
-- The router with two sessions and a room.
use iocp_engine.Base.{
  refl, ℕ, ◌≡◌, ◌⊎◌, true, ◌&&◌, Option, none, some, List, [], ◌∷◌, if◌then◌else◌, ◌==◌, All,
}
use iocp_engine.Base.Text.{ascii}
use iocp_engine.Base.Keyed.{count}
use iocp_engine.SessionHandle.{SessionHandle, handle_key}
use iocp_engine.Rooms.{Room, is_valid_room, snapshot}
use iocp_engine.Server.{malformed}
use iocp_engine.Router.Schema.{
  Payload, unknown_payload, authenticate, join_room, publish, system_alert, known_message,
  NetworkMessage,
}
use iocp_engine.Router.Replies.{ProtocolRouter, Policy, is_authenticated}
use iocp_engine.Router.{dispatch, handle_message, handle, nothing}
use iocp_engine.Router.Soundness.{fresh, fresh-Sound}
use iocp_engine.Router.Access.{Event, receives, react_all, react_all-Sound, react_all-members}
use iocp_engine.Router.Delivery.{recipients, IsFrom, reaches, handle_message-Delivers}
use iocp_engine.Router.Rejection.{IsSilent, Rejects, handle-Rejects}

abbrev alice : SessionHandle
alice = record { id = 1; generation = 1 }

abbrev bob : SessionHandle
bob = record { id = 2; generation = 1 }

abbrev court : Room
court = ascii "court:7"

abbrev message : Payload → NetworkMessage
message p = record {
  protocol_version = 1;
  request_id = 9;
  sequence_id = 0;
  sent_at_ms = 0;
  payload = p;
}

abbrev token : NetworkMessage
token = message (authenticate (some (some (ascii "secret"))))

abbrev joining : NetworkMessage
joining = message (join_room (some (some court)))

abbrev alert : NetworkMessage
alert = message (
    publish (
      some (record {
        room = some court;
        message = known_message (system_alert (some (record { message = some (ascii "closed") })));
      })))

-- One byte names the message.
abbrev verify : List ℕ → Option NetworkMessage
verify [] = none
verify (c ∷ cs) =
    if c == 0
    then some token
    else if c == 1
    then some joining
    else if c == 2
    then some alert
    else none

abbrev policy : Policy
policy = record { authenticator = some (λ text. some text); room_authorizer = none }

abbrev events : List Event
events =
    receives 5 alice (0 ∷ [])
    ∷ receives 6 alice (1 ∷ [])
    ∷ receives 7 bob (0 ∷ [])
    ∷ receives 8 bob (1 ∷ [])
    ∷ []

abbrev router : ProtocolRouter
router = react_all verify policy fresh events

handle_message-Delivers_example :
    (count bob (recipients (handle_message policy 9 router alice (2 ∷ []) alert).sends) ≡ (
      if alert.protocol_version == 1 && reaches policy router alice bob alert.payload
      then 1
      else 0))
    × All (IsFrom (2 ∷ [])) (handle_message policy 9 router alice (2 ∷ []) alert).sends
handle_message-Delivers_example =
    handle_message-Delivers policy 9 router alice bob (2 ∷ []) alert
      (react_all-Sound verify policy events fresh fresh-Sound).mirrors

react_all-members_example :
    let r = react_all verify policy fresh events in
    (count bob (snapshot r.rooms court) ≡ 0)
    ⊎ (count bob (snapshot r.rooms court) ≡ 1)
      × (is_authenticated r bob ≡ true)
      × (is_valid_room court ≡ true)
react_all-members_example = react_all-members verify policy events bob court

handle-Rejects_example :
    let h = handle verify policy 9 router bob (2 ∷ []) in
    ((m : NetworkMessage) × (verify (2 ∷ []) ≡ some m) × Rejects router bob m h)
    ⊎ (verify (2 ∷ []) ≡ none) × IsSilent router h
handle-Rejects_example = handle-Rejects verify policy 9 router bob (2 ∷ [])

-- A type that the schema does not have.
foreign :
    handle_message policy 9 fresh bob [] (message (unknown_payload 200 true))
    ≡ nothing fresh malformed
unfolding handle_message dispatch
foreign = refl
