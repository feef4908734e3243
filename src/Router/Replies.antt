-- ===== src/Router/Replies.antt =====
-- The router's state, its policy, and the messages that it builds.
use iocp_engine.Base.{
  ℕ, Bool, true, false, Option, none, some, List, [], ◌∷◌, if◌then◌else◌, length, drop,
}
use iocp_engine.Base.Size.{add_size}
use iocp_engine.Base.Keyed.{find, same_list, number_key}
use iocp_engine.SessionHandle.{SessionHandle, handle_key}
use iocp_engine.Rooms.{Room, RoomRegistry, RoomResult, Authorizer}
use iocp_engine.Server.{MessageDisposition, accepted}
use iocp_engine.Base.Text.{ascii, starts_with}
use iocp_engine.Router.Schema.{
  Text, SubscriptionOperation, ErrorCode, Payload, subscription_ack, error_response, NetworkMessage,
}

abbrev pub protocol_version : ℕ
protocol_version = 1

-- What is passed to `Send`: a message that the router built, or the bytes that it received.
pub data Outgoing : Type 0 where
  built : NetworkMessage → Outgoing
  forwarded : List ℕ → Outgoing

pub record ProtocolRouter : Type 0 where
  pub rooms : RoomRegistry
  pub principals : List (SessionHandle × Text)
  pub server_sequence : ℕ

-- `none` is an empty `std::function`.
pub record Policy : Type 0 where
  pub authenticator : Option (Text → Option Text)
  pub room_authorizer : Option (Text → Room → Bool → Bool)

-- The router afterwards, the answer, and the calls of `Send` in their order.
pub record Handled : Type 0 where
  pub disposition : MessageDisposition
  pub router : ProtocolRouter
  pub sends : List (SessionHandle × Outgoing)

unfoldable pub room_result_reason : RoomResult → Text
room_result_reason RoomResult.ok = []
room_result_reason RoomResult.invalid_room = ascii "invalid room"
room_result_reason RoomResult.unauthorized = ascii "room authorization denied"
room_result_reason RoomResult.already_subscribed = ascii "already subscribed"
room_result_reason RoomResult.not_subscribed = ascii "not subscribed"

abbrev pub principal : ProtocolRouter → SessionHandle → Option Text
principal r session = find session r.principals

abbrev pub is_some {ℓ} : {A : Type ℓ} → Option A → Bool
is_some none = false
is_some (some a) = true

unfoldable pub is_authenticated : ProtocolRouter → SessionHandle → Bool
is_authenticated r session = is_some (principal r session)

-- "booking:user:"
abbrev pub booking_prefix : Text
booking_prefix =
    b'b' ∷ b'o' ∷ b'o' ∷ b'k' ∷ b'i' ∷ b'n' ∷ b'g' ∷ b':' ∷ b'u' ∷ b's' ∷ b'e' ∷ b'r' ∷ b':' ∷ []

unfoldable pub authorize_principal : Option (Text → Room → Bool → Bool) → Text → Room → Bool → Bool
authorize_principal (some f) who room publishing = f who room publishing
authorize_principal none who room publishing =
    if starts_with room booking_prefix
    then same_list (drop (length booking_prefix) room) who
    else true

unfoldable pub authorize_found : Policy → Option Text → Room → Bool → Bool
authorize_found p none room publishing = false
authorize_found p (some who) room publishing =
    authorize_principal p.room_authorizer who room publishing

unfoldable pub authorize_room : Policy → ProtocolRouter → SessionHandle → Room → Bool → Bool
authorize_room p r session room publishing = authorize_found p (principal r session) room publishing

-- The authorizer that the constructor gives to the registry.
abbrev pub room_policy : Policy → ProtocolRouter → Authorizer
room_policy p r = some (authorize_room p r)

-- A message in answer, with the next number.
unfoldable pub send :
    ℕ → ProtocolRouter → SessionHandle → MessageDisposition → ℕ → Payload → Handled
send now r session disposition request_id payload = record {
  disposition = disposition;
  router = record r { server_sequence = add_size r.server_sequence 1 };
  sends =
      (
        session,
        built (record {
          protocol_version = protocol_version;
          request_id = request_id;
          sequence_id = r.server_sequence;
          sent_at_ms = now;
          payload = payload;
        }),
      )
      ∷ [];
}

unfoldable pub send_error :
    ℕ → ProtocolRouter → SessionHandle → MessageDisposition → ℕ → ErrorCode → Text → Handled
send_error now r session disposition request_id code text = send now r session disposition 0 (
    error_response (some (record { code = code; message = text; related_request_id = request_id })))

abbrev pub is_ok : RoomResult → Bool
is_ok RoomResult.ok = true
is_ok _ = false

abbrev pub or_absent : Text → Option Text
or_absent [] = none
or_absent (c ∷ cs) = some (c ∷ cs)

unfoldable pub send_ack :
    ℕ → ProtocolRouter → SessionHandle → ℕ → Room → SubscriptionOperation → RoomResult → Handled
send_ack now r session request_id room operation result = send now r session accepted request_id (
    subscription_ack (
      some (record {
        room = room;
        operation = operation;
        accepted = is_ok result;
        reason = or_absent (room_result_reason result);
      })))
