-- ===== src/Router/Access.antt =====
-- Who is in which room, over any sequence of messages and disconnects.
use iocp_engine.Base.{
  ℕ, ◌≡◌, ◌⊎◌, inl, inr, true, false, Bool-cases, Option, none, some, List, [], ◌∷◌, ◌==◌, arith,
}
use iocp_engine.Base.Keyed.{count}
use iocp_engine.SessionHandle.{SessionHandle, handle_key}
use iocp_engine.Rooms.{Room, room_key, RoomResult, is_valid_room, snapshot}
use iocp_engine.Server.{MessageDisposition}
use iocp_engine.Router.Schema.{
  Text, Publish, Payload, no_payload, publish, ErrorCode, NetworkMessage,
}
use iocp_engine.Router.Validation.{
  str, valid_string, validate_domain, max_identifier_length, max_text_length,
}
use iocp_engine.Router.Replies.{
  ProtocolRouter, Policy, Handled, is_authenticated, send, send_error, send_ack, protocol_version,
}
use iocp_engine.Router.{
  table_string, handle_authenticate, handle_ping, handle_join, handle_leave, publish_as,
  handle_publish, dispatch, has_payload, handle_message, handle_verified, handle, on_disconnect,
}
use iocp_engine.Router.Soundness.{
  Sound, fresh, fresh-Sound, authenticated-Sound, joined-Sound, left-Sound, on_disconnect-Sound,
}

record IsSafe (h : Handled) : Type 0 where
  sound : Sound h.router

numbered-IsSafe :
    (now : ℕ) (r : ProtocolRouter) (s : SessionHandle) (d : MessageDisposition) (id : ℕ)
    (q : Payload)
    → Sound r
    → IsSafe (send now r s d id q)
unfolding send
numbered-IsSafe now r s d id q v = record {
  sound = record { mirrors = v.mirrors; members_known = v.members_known };
}

refused-IsSafe :
    (now : ℕ) (r : ProtocolRouter) (s : SessionHandle) (d : MessageDisposition) (id : ℕ)
    (code : ErrorCode) (text : Text)
    → Sound r
    → IsSafe (send_error now r s d id code text)
unfolding send_error
refused-IsSafe now r s d id code text v = numbered-IsSafe now r s d 0 _ v

handle_join-IsSafe :
    (p : Policy) (now : ℕ) (r : ProtocolRouter) (s : SessionHandle) (id : ℕ)
    (table : Option (Option Text))
    → Sound r
    → IsSafe (handle_join p now r s id table)
unfolding handle_join send_ack
handle_join-IsSafe p now r s id table v = elim (Bool-cases (is_authenticated r s)) [
  | inl e ↦ elim (Bool-cases (valid_string (table_string table) max_identifier_length false)) [
    | inl f ↦
        rw (e, f)
          (numbered-IsSafe now _ s _ id _
            (joined-Sound p r s (str (table_string table)) (unfold is_authenticated in e) v))
    | inr f ↦ rw (e, f) (refused-IsSafe now r s _ id _ _ v)
  ]
  | inr e ↦ rw e (refused-IsSafe now r s _ id _ _ v)
]

handle_leave-IsSafe :
    (now : ℕ) (r : ProtocolRouter) (s : SessionHandle) (id : ℕ) (table : Option (Option Text))
    → Sound r
    → IsSafe (handle_leave now r s id table)
unfolding handle_leave send_ack
handle_leave-IsSafe now r s id table v =
    elim (Bool-cases (valid_string (table_string table) max_identifier_length false)) [
      | inl f ↦ rw f (numbered-IsSafe now _ s _ id _ (left-Sound r s (str (table_string table)) v))
      | inr f ↦ rw f (refused-IsSafe now r s _ id _ _ v)
    ]

handle_authenticate-IsSafe :
    (p : Policy) (now : ℕ) (r : ProtocolRouter) (s : SessionHandle) (id : ℕ)
    (table : Option (Option Text))
    → Sound r
    → IsSafe (handle_authenticate p now r s id table)
unfolding handle_authenticate
handle_authenticate-IsSafe p now r s id table v =
    elim (Bool-cases (valid_string (table_string table) max_text_length false)) [
      | inl f ↦ rw f (record { sound = authenticated-Sound now r s id _ v })
      | inr f ↦ rw f (refused-IsSafe now r s _ id _ _ v)
    ]

publish_as-IsSafe :
    (now : ℕ) (r : ProtocolRouter) (s : SessionHandle) (id : ℕ) (payload : List ℕ) (q : Room)
    (result : RoomResult)
    → Sound r
    → IsSafe (publish_as now r s id payload q result)
unfolding publish_as
publish_as-IsSafe now r s id payload q RoomResult.ok v = record { sound = v }
publish_as-IsSafe now r s id payload q RoomResult.unauthorized v = refused-IsSafe now r s _ id _ _ v
publish_as-IsSafe now r s id payload q RoomResult.invalid_room v = refused-IsSafe now r s _ id _ _ v
publish_as-IsSafe now r s id payload q RoomResult.already_subscribed v =
    refused-IsSafe now r s _ id _ _ v
publish_as-IsSafe now r s id payload q RoomResult.not_subscribed v =
    refused-IsSafe now r s _ id _ _ v

handle_publish-IsSafe :
    (p : Policy) (now : ℕ) (r : ProtocolRouter) (s : SessionHandle) (id : ℕ) (payload : List ℕ)
    (table : Option Publish)
    → Sound r
    → IsSafe (handle_publish p now r s id payload table)
unfolding handle_publish
handle_publish-IsSafe p now r s id payload table v = elim (Bool-cases (is_authenticated r s)) [
  | inl e ↦ elim (Bool-cases (validate_domain table)) [
    | inl f ↦ rw (e, f) (publish_as-IsSafe now r s id payload _ _ v)
    | inr f ↦ rw (e, f) (refused-IsSafe now r s _ id _ _ v)
  ]
  | inr e ↦ rw e (refused-IsSafe now r s _ id _ _ v)
]

dispatch-IsSafe :
    (p : Policy) (now : ℕ) (r : ProtocolRouter) (s : SessionHandle) (id : ℕ) (payload : List ℕ)
    (q : Payload)
    → Sound r
    → IsSafe (dispatch p now r s id payload q)
unfolding dispatch handle_ping
dispatch-IsSafe p now r s id payload no_payload v = record { sound = v }
dispatch-IsSafe p now r s id payload (Payload.unknown_payload type present) v = record { sound = v }
dispatch-IsSafe p now r s id payload (Payload.domain d) v = refused-IsSafe now r s _ id _ _ v
dispatch-IsSafe p now r s id payload (Payload.ping none) v = record { sound = v }
dispatch-IsSafe p now r s id payload (Payload.ping (some time)) v = numbered-IsSafe now r s _ id _ v
dispatch-IsSafe p now r s id payload (Payload.pong o) v = record { sound = v }
dispatch-IsSafe p now r s id payload (Payload.authenticate o) v =
    handle_authenticate-IsSafe p now r s id o v
dispatch-IsSafe p now r s id payload (Payload.join_room o) v = handle_join-IsSafe p now r s id o v
dispatch-IsSafe p now r s id payload (Payload.leave_room o) v = handle_leave-IsSafe now r s id o v
dispatch-IsSafe p now r s id payload (publish o) v = handle_publish-IsSafe p now r s id payload o v
dispatch-IsSafe p now r s id payload (Payload.authentication_result o) v =
    refused-IsSafe now r s _ id _ _ v
dispatch-IsSafe p now r s id payload (Payload.subscription_ack o) v =
    refused-IsSafe now r s _ id _ _ v
dispatch-IsSafe p now r s id payload (Payload.error_response o) v =
    refused-IsSafe now r s _ id _ _ v

handle_verified-IsSafe :
    (p : Policy) (now : ℕ) (r : ProtocolRouter) (s : SessionHandle) (payload : List ℕ)
    (o : Option NetworkMessage)
    → Sound r
    → IsSafe (handle_verified p now r s payload o)
unfolding handle_verified handle_message
handle_verified-IsSafe p now r s payload none v = record { sound = v }
handle_verified-IsSafe p now r s payload (some m) v =
    elim (Bool-cases (m.protocol_version == protocol_version)) [
      | inl e ↦ elim (Bool-cases (has_payload m.payload)) [
        | inl f ↦ rw (e, f) (dispatch-IsSafe p now r s m.request_id payload m.payload v)
        | inr f ↦ rw (e, f) (refused-IsSafe now r s _ _ _ _ v)
      ]
      | inr e ↦ rw e (refused-IsSafe now r s _ _ _ _ v)
    ]

pub data Event : Type 0 where
  receives : ℕ → SessionHandle → List ℕ → Event
  loses : SessionHandle → Event

unfoldable pub react :
    (List ℕ → Option NetworkMessage) → Policy → ProtocolRouter → Event → ProtocolRouter
react verify p r (receives now s payload) = (handle verify p now r s payload).router
react verify p r (loses s) = on_disconnect r s

unfoldable pub react_all :
    (List ℕ → Option NetworkMessage) → Policy → ProtocolRouter → List Event → ProtocolRouter
react_all verify p r [] = r
react_all verify p r (e ∷ es) = react_all verify p (react verify p r e) es

react-Sound :
    (verify : List ℕ → Option NetworkMessage) (p : Policy) (r : ProtocolRouter) (e : Event)
    → Sound r
    → Sound (react verify p r e)
unfolding react handle
react-Sound verify p r (receives now s payload) v =
    (handle_verified-IsSafe p now r s payload (verify payload) v).sound
react-Sound verify p r (loses s) v = on_disconnect-Sound r s v

pub react_all-Sound :
    (verify : List ℕ → Option NetworkMessage) (p : Policy) (es : List Event) (r : ProtocolRouter)
    → Sound r
    → Sound (react_all verify p r es)
unfolding react_all
react_all-Sound verify p [] r v = v
react_all-Sound verify p (e ∷ es) r v =
    react_all-Sound verify p es (react verify p r e) (react-Sound verify p r e v)

-- Over any sequence of received messages and disconnects, with any verifier and policy, the snapshot of
-- a room holds no session twice, and every session that it holds is authenticated; a room that is not
-- valid is empty.
pub react_all-members :
    (verify : List ℕ → Option NetworkMessage) (p : Policy) (es : List Event) (s : SessionHandle)
    (q : Room)
    → let r = react_all verify p fresh es in
      (count s (snapshot r.rooms q) ≡ 0)
      ⊎ (count s (snapshot r.rooms q) ≡ 1)
        × (is_authenticated r s ≡ true)
        × (is_valid_room q ≡ true)
unfolding snapshot is_authenticated
react_all-members verify p es s q =
    let v = react_all-Sound verify p es fresh fresh-Sound in
    ground (arith, v.mirrors s q, v.members_known s q)
