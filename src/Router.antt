-- ===== src/Router.antt =====
-- src/application/protocol_router.hpp and .cpp: what the server does with a message of the application.
-- FlatBuffers is not in the repository: `verify` stands for the generated verifier and accessors, and
-- gives the message, or nothing when the verifier fails. What the router builds is kept as a message.
pub mod Schema
pub mod Validation
pub mod Replies
pub mod Soundness
pub mod Delivery
pub mod Rejection
pub mod Access
mod Tests
use iocp_engine.Base.{
  ℕ, ◌+◌, Bool, true, false, not, ◌&&◌, ◌||◌, Option, none, some, List, [], ◌∷◌, ◌==◌, map,
  if◌then◌else◌, length, drop,
}
use iocp_engine.Base.Size.{add_size}
use iocp_engine.Base.Keyed.{find, assign, erase, same_list, number_key}
use iocp_engine.SessionHandle.{SessionHandle, handle_key}
use iocp_engine.Rooms.{
  Room, RoomRegistry, RoomResult, Authorizer, snapshot, authorize_publish, remove_session,
}
use iocp_engine.Rooms
use iocp_engine.Server.{MessageDisposition, accepted, malformed}
use iocp_engine.Base.Text.{ascii}
use Schema.{
  Text, Publish, DomainPayload, SubscriptionOperation, ErrorCode, AuthenticationResult,
  SubscriptionAck, ErrorResponse, Payload, no_payload, unknown_payload, domain, ping, pong,
  authenticate, join_room, leave_room, publish, authentication_result, subscription_ack,
  error_response, NetworkMessage, DomainTable, match_info, match_score_update, facility_update,
  equipment_update, booking_notification, system_alert,
}
use Validation.{valid_string, max_identifier_length, max_text_length, validate_domain, str}
use Replies.{
  protocol_version, room_result_reason, principal, is_some, is_authenticated, booking_prefix,
  authorize_principal, authorize_found, authorize_room, room_policy, send, send_error, is_ok,
  or_absent, send_ack, Outgoing, ProtocolRouter, Policy, Handled, built, forwarded,
}

-- The answer of the authenticator; without one, nobody is authenticated.
abbrev pub ask : Policy → Text → Option Text
ask p token = elim p.authenticator [ none ↦ none | some f ↦ f token ]

unfoldable pub authenticated : ℕ → ProtocolRouter → SessionHandle → ℕ → Option Text → Handled
authenticated now r session request_id none = send now r session accepted request_id (
    authentication_result (
      some (record {
        accepted = false;
        principal_id = none;
        reason = some (ascii "authentication rejected");
      })))
authenticated now r session request_id (some who) =
    send now (record r { principals = assign session who r.principals }) session accepted request_id
      (authentication_result
        (some (record { accepted = true; principal_id = some who; reason = none })))

-- A reference to the table, and in it to the string.
abbrev pub table_string : Option (Option Text) → Option Text
table_string none = none
table_string (some value) = value

unfoldable pub handle_authenticate :
    Policy → ℕ → ProtocolRouter → SessionHandle → ℕ → Option (Option Text) → Handled
handle_authenticate p now r session request_id table =
    if not (valid_string (table_string table) max_text_length false)
    then send_error now r session malformed request_id ErrorCode.malformed_message
        (ascii "authentication token is required")
    else authenticated now r session request_id (ask p (str (table_string table)))

abbrev pub nothing : ProtocolRouter → MessageDisposition → Handled
nothing r disposition = record { disposition = disposition; router = r; sends = [] }

unfoldable pub handle_ping : ℕ → ProtocolRouter → SessionHandle → ℕ → Option ℕ → Handled
handle_ping now r session request_id none = nothing r malformed
handle_ping now r session request_id (some timestamp_ms) =
    send now r session accepted request_id (pong (some timestamp_ms))

unfoldable pub handle_join :
    Policy → ℕ → ProtocolRouter → SessionHandle → ℕ → Option (Option Text) → Handled
handle_join p now r session request_id table =
    if not (is_authenticated r session)
    then send_error now r session accepted request_id ErrorCode.unauthorized
        (ascii "authenticate before joining rooms")
    else if not (valid_string (table_string table) max_identifier_length false)
    then send_error now r session malformed request_id ErrorCode.invalid_room
        (ascii "room is required")
    else let room : Room = str (table_string table) in
      let (result, rooms) = Rooms.join (room_policy p r) r.rooms session room in
      send_ack now (record r { rooms = rooms }) session request_id room SubscriptionOperation.join
        result

unfoldable pub handle_leave :
    ℕ → ProtocolRouter → SessionHandle → ℕ → Option (Option Text) → Handled
handle_leave now r session request_id table =
    if not (valid_string (table_string table) max_identifier_length false)
    then send_error now r session malformed request_id ErrorCode.invalid_room
        (ascii "room is required")
    else let room : Room = str (table_string table) in
      let (result, rooms) = Rooms.leave r.rooms session room in
      send_ack now (record r { rooms = rooms }) session request_id room SubscriptionOperation.leave
        result

abbrev pub to_each : List ℕ → List SessionHandle → List (SessionHandle × Outgoing)
to_each payload recipients = map (λ recipient. (recipient, forwarded payload)) recipients

abbrev pub publish_error : RoomResult → ErrorCode
publish_error RoomResult.unauthorized = ErrorCode.forbidden
publish_error _ = ErrorCode.not_subscribed

abbrev pub publish_room : Option Publish → Room
publish_room none = []
publish_room (some value) = str value.room

-- A publication that passed the checks, and what the registry says of it.
unfoldable pub publish_as :
    ℕ → ProtocolRouter → SessionHandle → ℕ → List ℕ → Room → RoomResult → Handled
publish_as now r session request_id payload room RoomResult.ok = record {
  disposition = accepted;
  router = r;
  sends = to_each payload (snapshot r.rooms room);
}
publish_as now r session request_id payload room result =
    send_error now r session accepted request_id (publish_error result) (room_result_reason result)

unfoldable pub handle_publish :
    Policy → ℕ → ProtocolRouter → SessionHandle → ℕ → List ℕ → Option Publish → Handled
handle_publish p now r session request_id payload table =
    if not (is_authenticated r session)
    then send_error now r session accepted request_id ErrorCode.unauthorized
        (ascii "authenticate before publishing")
    else if not (validate_domain table)
    then send_error now r session malformed request_id ErrorCode.malformed_message
        (ascii "published domain payload is invalid")
    else publish_as now r session request_id payload (publish_room table)
        (authorize_publish (room_policy p r) r.rooms session (publish_room table))

unfoldable pub dispatch :
    Policy → ℕ → ProtocolRouter → SessionHandle → ℕ → List ℕ → Payload → Handled
dispatch p now r session request_id payload (authenticate table) =
    handle_authenticate p now r session request_id table
dispatch p now r session request_id payload (ping table) =
    handle_ping now r session request_id table
dispatch p now r session request_id payload (pong table) = nothing r accepted
dispatch p now r session request_id payload (join_room table) =
    handle_join p now r session request_id table
dispatch p now r session request_id payload (leave_room table) =
    handle_leave now r session request_id table
dispatch p now r session request_id payload (publish table) =
    handle_publish p now r session request_id payload table
dispatch p now r session request_id payload (unknown_payload type present) = nothing r malformed
dispatch p now r session request_id payload no_payload = nothing r malformed
dispatch p now r session request_id payload _ =
    send_error now r session accepted request_id ErrorCode.forbidden
      (ascii "payload type is server-to-client only")

abbrev pub has_table : DomainTable → Bool
has_table (match_info value) = is_some value
has_table (match_score_update value) = is_some value
has_table (facility_update value) = is_some value
has_table (equipment_update value) = is_some value
has_table (booking_notification value) = is_some value
has_table (system_alert value) = is_some value

-- The type is not NONE, and the reference not null.
abbrev pub has_payload : Payload → Bool
has_payload no_payload = false
has_payload (unknown_payload type present) = present
has_payload (domain value) = has_table value
has_payload (ping value) = is_some value
has_payload (pong value) = is_some value
has_payload (authenticate value) = is_some value
has_payload (join_room value) = is_some value
has_payload (leave_room value) = is_some value
has_payload (publish value) = is_some value
has_payload (authentication_result value) = is_some value
has_payload (subscription_ack value) = is_some value
has_payload (error_response value) = is_some value

unfoldable pub handle_message :
    Policy → ℕ → ProtocolRouter → SessionHandle → List ℕ → NetworkMessage → Handled
handle_message p now r session payload message =
    if not (message.protocol_version == protocol_version)
    then send_error now r session accepted message.request_id ErrorCode.unsupported_version
        (ascii "supported protocol_version is 1")
    else if not (has_payload message.payload)
    then send_error now r session malformed message.request_id ErrorCode.malformed_message
        (ascii "payload is required")
    else dispatch p now r session message.request_id payload message.payload

unfoldable pub handle_verified :
    Policy → ℕ → ProtocolRouter → SessionHandle → List ℕ → Option NetworkMessage → Handled
handle_verified p now r session payload none = nothing r malformed
handle_verified p now r session payload (some message) =
    handle_message p now r session payload message

unfoldable pub handle :
    (List ℕ → Option NetworkMessage)
    → Policy
    → ℕ
    → ProtocolRouter
    → SessionHandle
    → List ℕ
    → Handled
handle verify p now r session payload = handle_verified p now r session payload (verify payload)

unfoldable pub on_disconnect : ProtocolRouter → SessionHandle → ProtocolRouter
on_disconnect r session = record r {
  rooms = remove_session r.rooms session;
  principals = erase session r.principals;
}
