-- ===== src/Router/Validation.antt =====
-- The tests of src/application/protocol_router.cpp on what is published.
use iocp_engine.Base.{
  ℕ, Bool, true, false, not, ◌&&◌, ◌||◌, Option, none, some, List, [], ◌∷◌, ◌==◌, ltb, leb, length,
}
use iocp_engine.Base.Keyed.{same_list, number_key}
use iocp_engine.Router.Schema.{
  Text, MatchInfo, MatchScoreUpdate, CourtStatus, FacilityUpdate, EquipmentStatus, EquipmentUpdate,
  BookingNotification, SystemAlert, DomainTable, DomainPayload, no_message, unknown_message,
  known_message, match_info, match_score_update, facility_update, equipment_update,
  booking_notification, system_alert, Publish,
}

abbrev pub max_identifier_length : ℕ
max_identifier_length = 160

abbrev pub max_display_length : ℕ
max_display_length = 256

abbrev pub max_text_length : ℕ
max_text_length = 4096

unfoldable pub valid_string : Option Text → ℕ → Bool → Bool
valid_string none max_length allow_empty = false
valid_string (some value) max_length allow_empty =
    leb (length value) max_length && (allow_empty || not (length value == 0))

-- `str()` of a string that is there.
abbrev pub str : Option Text → Text
str none = []
str (some value) = value

unfoldable pub validate_match_info : Option MatchInfo → Bool
validate_match_info none = false
validate_match_info (some value) =
    valid_string value.match_id max_identifier_length false
    && valid_string value.sport_name max_identifier_length false
    && valid_string value.team1 max_display_length false
    && valid_string value.team2 max_display_length false
    && not (same_list (str value.team1) (str value.team2))

-- A null reference passes.
unfoldable pub valid_or_absent : Option Text → ℕ → Bool
valid_or_absent none max_length = true
valid_or_absent (some value) max_length = valid_string (some value) max_length true

unfoldable pub validate_match_score : Option MatchScoreUpdate → Bool
validate_match_score none = false
validate_match_score (some value) =
    valid_string value.match_id max_identifier_length false
    && valid_or_absent value.timeline_event max_text_length

unfoldable pub validate_court : Text → Option CourtStatus → Bool
validate_court facility none = false
validate_court facility (some court) =
    valid_string court.facility_id max_identifier_length false
    && valid_string court.court_id max_identifier_length false
    && valid_string court.sport_name max_identifier_length false
    && valid_string court.court_name max_display_length false
    && same_list (str court.facility_id) facility

unfoldable pub all_courts : Text → List (Option CourtStatus) → Bool
all_courts facility [] = true
all_courts facility (court ∷ courts) = validate_court facility court && all_courts facility courts

unfoldable pub validate_courts : Text → Option (List (Option CourtStatus)) → Bool
validate_courts facility none = false
validate_courts facility (some courts) = leb (length courts) 1024 && all_courts facility courts

unfoldable pub validate_facility : Option FacilityUpdate → Bool
validate_facility none = false
validate_facility (some value) =
    valid_string value.facility_id max_identifier_length false
    && validate_courts (str value.facility_id) value.courts

unfoldable pub validate_item : Text → Option EquipmentStatus → Bool
validate_item facility none = false
validate_item facility (some item) =
    valid_string item.facility_id max_identifier_length false
    && valid_string item.equipment_id max_identifier_length false
    && valid_string item.item_name max_display_length false
    && same_list (str item.facility_id) facility
    && leb item.available_count item.total_inventory

unfoldable pub all_items : Text → List (Option EquipmentStatus) → Bool
all_items facility [] = true
all_items facility (item ∷ items) = validate_item facility item && all_items facility items

unfoldable pub validate_inventory : Text → Option (List (Option EquipmentStatus)) → Bool
validate_inventory facility none = false
validate_inventory facility (some items) = leb (length items) 4096 && all_items facility items

unfoldable pub validate_equipment : Option EquipmentUpdate → Bool
validate_equipment none = false
validate_equipment (some value) =
    valid_string value.facility_id max_identifier_length false
    && validate_inventory (str value.facility_id) value.inventory

unfoldable pub validate_booking : Option BookingNotification → Bool
validate_booking none = false
validate_booking (some value) =
    valid_string value.booking_id max_identifier_length false
    && valid_string value.user_id max_identifier_length false
    && valid_string value.resource_id max_identifier_length false
    && valid_or_absent value.user_display_name max_display_length
    && ltb value.start_time_ms value.end_time_ms

unfoldable pub validate_alert : Option SystemAlert → Bool
validate_alert none = false
validate_alert (some value) = valid_string value.message max_text_length false

-- `message()` is null where the table is.
unfoldable pub validate_table : DomainTable → Bool
validate_table (match_info value) = validate_match_info value
validate_table (match_score_update value) = validate_match_score value
validate_table (facility_update value) = validate_facility value
validate_table (equipment_update value) = validate_equipment value
validate_table (booking_notification value) = validate_booking value
validate_table (system_alert value) = validate_alert value

unfoldable pub validate_message : DomainPayload → Bool
validate_message no_message = false
validate_message (unknown_message type) = false
validate_message (known_message table) = validate_table table

unfoldable pub validate_domain : Option Publish → Bool
validate_domain none = false
validate_domain (some publish) =
    valid_string publish.room max_identifier_length false && validate_message publish.message
