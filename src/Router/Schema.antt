-- ===== src/Router/Schema.antt =====
-- src/schema/protocol.fbs: the tables, with the fields that the router reads or writes. A reference is
-- an `Option`, since an accessor may return null.
use iocp_engine.Base.{ℕ, Bool, Option, List}

-- The bytes of a string.
abbrev pub Text : Type 0
Text = List ℕ

pub record MatchInfo : Type 0 where
  pub match_id : Option Text
  pub sport_name : Option Text
  pub team1 : Option Text
  pub team2 : Option Text

pub record MatchScoreUpdate : Type 0 where
  pub match_id : Option Text
  pub timeline_event : Option Text

pub record CourtStatus : Type 0 where
  pub facility_id : Option Text
  pub court_id : Option Text
  pub sport_name : Option Text
  pub court_name : Option Text

pub record FacilityUpdate : Type 0 where
  pub facility_id : Option Text
  pub courts : Option (List (Option CourtStatus))

pub record EquipmentStatus : Type 0 where
  pub facility_id : Option Text
  pub equipment_id : Option Text
  pub item_name : Option Text
  pub total_inventory : ℕ
  pub available_count : ℕ

pub record EquipmentUpdate : Type 0 where
  pub facility_id : Option Text
  pub inventory : Option (List (Option EquipmentStatus))

pub record BookingNotification : Type 0 where
  pub booking_id : Option Text
  pub user_id : Option Text
  pub resource_id : Option Text
  pub user_display_name : Option Text
  pub start_time_ms : ℕ
  pub end_time_ms : ℕ

pub record SystemAlert : Type 0 where
  pub message : Option Text

-- The members of the union `DomainPayload`, which are members of `Payload` too.
pub data DomainTable : Type 0 where
  match_info : Option MatchInfo → DomainTable
  match_score_update : Option MatchScoreUpdate → DomainTable
  facility_update : Option FacilityUpdate → DomainTable
  equipment_update : Option EquipmentUpdate → DomainTable
  booking_notification : Option BookingNotification → DomainTable
  system_alert : Option SystemAlert → DomainTable

-- The verifier lets a type pass that the schema does not have: `unknown_message` with its number.
pub data DomainPayload : Type 0 where
  no_message : DomainPayload
  unknown_message : ℕ → DomainPayload
  known_message : DomainTable → DomainPayload

pub data SubscriptionOperation : Type 0 where
  join leave : SubscriptionOperation

pub data ErrorCode : Type 0 where
  malformed_message unsupported_version unauthorized forbidden invalid_room not_subscribed :
      ErrorCode

pub record Publish : Type 0 where
  pub room : Option Text
  pub message : DomainPayload

pub record AuthenticationResult : Type 0 where
  pub accepted : Bool
  pub principal_id : Option Text
  pub reason : Option Text

pub record SubscriptionAck : Type 0 where
  pub room : Text
  pub operation : SubscriptionOperation
  pub accepted : Bool
  pub reason : Option Text

pub record ErrorResponse : Type 0 where
  pub code : ErrorCode
  pub message : Text
  pub related_request_id : ℕ

-- `unknown_payload`: the number of a type that the schema does not have, and whether the reference is
-- there. `ping`, `pong`: the time stamp. `authenticate`: the token. `join_room`, `leave_room`: the room.
pub data Payload : Type 0 where
  no_payload : Payload
  unknown_payload : ℕ → Bool → Payload
  domain : DomainTable → Payload
  ping pong : Option ℕ → Payload
  authenticate join_room leave_room : Option (Option Text) → Payload
  publish : Option Publish → Payload
  authentication_result : Option AuthenticationResult → Payload
  subscription_ack : Option SubscriptionAck → Payload
  error_response : Option ErrorResponse → Payload

pub record NetworkMessage : Type 0 where
  pub protocol_version : ℕ
  pub request_id : ℕ
  pub sequence_id : ℕ
  pub sent_at_ms : ℕ
  pub payload : Payload
