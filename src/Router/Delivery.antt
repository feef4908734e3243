-- ===== src/Router/Delivery.antt =====
-- To whom a publication goes.
use iocp_engine.Base.{
  ℕ, ◌≡◌, inl, inr, refl, ap, Bool, true, false, Bool-cases, ◌&&◌, Option, none, some, List, [],
  ◌∷◌, ◌==◌, if◌then◌else◌, arith, All,
}
use iocp_engine.Base.Keyed.{count}
use iocp_engine.SessionHandle.{SessionHandle, handle_key}
use iocp_engine.Rooms.{room_key, is_valid_room, members, snapshot, authorize_publish}
use iocp_engine.Rooms.Indices.{Mirrors}
use iocp_engine.Rooms.Subscriptions.{subscriptions}
use iocp_engine.Server.{MessageDisposition, accepted, malformed}
use iocp_engine.Base.Text.{ascii}
use iocp_engine.Router.Schema.{
  Text, Publish, Payload, no_payload, publish, ErrorCode, NetworkMessage,
}
use iocp_engine.Router.Validation.{validate_domain, str}
use iocp_engine.Router.Replies.{
  Outgoing, built, forwarded, ProtocolRouter, Policy, is_authenticated, authorize_room, send,
  send_error, send_ack,
}
use iocp_engine.Router.{
  authenticated, handle_authenticate, handle_ping, handle_join, handle_leave, to_each, publish_as,
  handle_publish, dispatch, has_payload, handle_message,
}

-- The sessions that the received bytes are sent on to.
abbrev pub recipients : List (SessionHandle × Outgoing) → List SessionHandle
recipients [] = []
recipients ((t, forwarded payload) ∷ rest) = t ∷ recipients rest
recipients ((t, built message) ∷ rest) = recipients rest

-- Whether a session may publish this.
unfoldable pub may_publish : Policy → ProtocolRouter → SessionHandle → Publish → Bool
may_publish p r session value =
    is_authenticated r session
    && validate_domain (some value)
    && is_valid_room (str value.room)
    && authorize_room p r session (str value.room) true
    && subscriptions r.rooms session (str value.room)

-- Whether a message of `session` is to reach `t`.
unfoldable pub reaches : Policy → ProtocolRouter → SessionHandle → SessionHandle → Payload → Bool
reaches p r session t (publish (some value)) =
    may_publish p r session value && subscriptions r.rooms t (str value.room)
reaches p r session t _ = false

recipients-to_each :
    (payload : List ℕ) (ts : List SessionHandle) → recipients (to_each payload ts) ≡ ts
recipients-to_each payload [] = refl
recipients-to_each payload (t ∷ ts) = ap (λ us. t ∷ us) (recipients-to_each payload ts)

handle_publish-reaches :
    (p : Policy) (now : ℕ) (r : ProtocolRouter) (s t : SessionHandle) (id : ℕ) (payload : List ℕ)
    (value : Publish)
    → Mirrors r.rooms
    → count t (recipients (handle_publish p now r s id payload (some value)).sends)
      ≡ (if may_publish p r s value && subscriptions r.rooms t (str value.room) then 1 else 0)
unfolding handle_publish may_publish publish_as send_error send authorize_publish snapshot
handle_publish-reaches p now r s t id payload value v =
    ground
      (arith, v t (str value.room), recipients-to_each payload (members r.rooms (str value.room)))

-- A message that the router built, or the received bytes.
abbrev pub IsFrom : List ℕ → SessionHandle × Outgoing → Type 0
IsFrom payload (t, forwarded bytes) = bytes ≡ payload
IsFrom payload (t, built message) = Unit

to_each-IsFrom :
    (payload : List ℕ) (ts : List SessionHandle) → All (IsFrom payload) (to_each payload ts)
to_each-IsFrom payload [] = tt
to_each-IsFrom payload (t ∷ ts) = (refl, to_each-IsFrom payload ts)

-- Nothing is sent on.
abbrev Stays : List ℕ → List (SessionHandle × Outgoing) → Type 0
Stays payload sends = (recipients sends ≡ []) × All (IsFrom payload) sends

send-Stays :
    (now : ℕ) (r : ProtocolRouter) (s : SessionHandle) (d : MessageDisposition) (id : ℕ)
    (q : Payload) (payload : List ℕ)
    → Stays payload (send now r s d id q).sends
unfolding send
send-Stays now r s d id q payload = (refl, (tt, tt))

send_error-Stays :
    (now : ℕ) (r : ProtocolRouter) (s : SessionHandle) (d : MessageDisposition) (id : ℕ)
    (code : ErrorCode) (text : List ℕ) (payload : List ℕ)
    → Stays payload (send_error now r s d id code text).sends
unfolding send_error send
send_error-Stays now r s d id code text payload = (refl, (tt, tt))

handle_authenticate-Stays :
    (p : Policy) (now : ℕ) (r : ProtocolRouter) (s : SessionHandle) (id : ℕ) (payload : List ℕ)
    (table : Option (Option Text))
    → Stays payload (handle_authenticate p now r s id table).sends
unfolding handle_authenticate authenticated send_error send
handle_authenticate-Stays p now r s id payload table = ground arith

handle_join-Stays :
    (p : Policy) (now : ℕ) (r : ProtocolRouter) (s : SessionHandle) (id : ℕ) (payload : List ℕ)
    (table : Option (Option Text))
    → Stays payload (handle_join p now r s id table).sends
unfolding handle_join send_ack send_error send
handle_join-Stays p now r s id payload table = ground arith

handle_leave-Stays :
    (now : ℕ) (r : ProtocolRouter) (s : SessionHandle) (id : ℕ) (payload : List ℕ)
    (table : Option (Option Text))
    → Stays payload (handle_leave now r s id table).sends
unfolding handle_leave send_ack send_error send
handle_leave-Stays now r s id payload table = ground arith

handle_publish-IsFrom :
    (p : Policy) (now : ℕ) (r : ProtocolRouter) (s : SessionHandle) (id : ℕ) (payload : List ℕ)
    (value : Publish)
    → All (IsFrom payload) (handle_publish p now r s id payload (some value)).sends
unfolding handle_publish publish_as send_error send snapshot
handle_publish-IsFrom p now r s id payload value =
    ground (arith, to_each-IsFrom payload (members r.rooms (str value.room)))

-- What a message does towards `t`, as `reaches` says.
abbrev Delivers : Bool → List ℕ → SessionHandle → List (SessionHandle × Outgoing) → Type 0
Delivers b payload t sends =
    (count t (recipients sends) ≡ (if b then 1 else 0)) × All (IsFrom payload) sends

Stays-Delivers :
    (payload : List ℕ) (t : SessionHandle) (sends : List (SessionHandle × Outgoing))
    → Stays payload sends
    → Delivers false payload t sends
Stays-Delivers payload t sends (e, f) = (ap (count t) e, f)

dispatch-Delivers :
    (p : Policy) (now : ℕ) (r : ProtocolRouter) (s t : SessionHandle) (id : ℕ) (payload : List ℕ)
    (q : Payload)
    → Mirrors r.rooms
    → has_payload q ≡ true
    → Delivers (reaches p r s t q) payload t (dispatch p now r s id payload q).sends
unfolding dispatch handle_ping reaches
dispatch-Delivers p now r s t id payload no_payload v h = absurd (cc)
dispatch-Delivers p now r s t id payload (Payload.unknown_payload type present) v h = (refl, tt)
dispatch-Delivers p now r s t id payload (Payload.domain d) v h =
    Stays-Delivers payload t _ (send_error-Stays now r s _ id _ _ payload)
dispatch-Delivers p now r s t id payload (Payload.ping none) v h = absurd (cc)
dispatch-Delivers p now r s t id payload (Payload.ping (some time)) v h =
    Stays-Delivers payload t _ (send-Stays now r s _ id _ payload)
dispatch-Delivers p now r s t id payload (Payload.pong o) v h = (refl, tt)
dispatch-Delivers p now r s t id payload (Payload.authenticate o) v h =
    Stays-Delivers payload t _ (handle_authenticate-Stays p now r s id payload o)
dispatch-Delivers p now r s t id payload (Payload.join_room o) v h =
    Stays-Delivers payload t _ (handle_join-Stays p now r s id payload o)
dispatch-Delivers p now r s t id payload (Payload.leave_room o) v h =
    Stays-Delivers payload t _ (handle_leave-Stays now r s id payload o)
dispatch-Delivers p now r s t id payload (publish none) v h = absurd (cc)
dispatch-Delivers p now r s t id payload (publish (some value)) v h = (
  handle_publish-reaches p now r s t id payload value v,
  handle_publish-IsFrom p now r s id payload value,
)
dispatch-Delivers p now r s t id payload (Payload.authentication_result o) v h =
    Stays-Delivers payload t _ (send_error-Stays now r s _ id _ _ payload)
dispatch-Delivers p now r s t id payload (Payload.subscription_ack o) v h =
    Stays-Delivers payload t _ (send_error-Stays now r s _ id _ _ payload)
dispatch-Delivers p now r s t id payload (Payload.error_response o) v h =
    Stays-Delivers payload t _ (send_error-Stays now r s _ id _ _ payload)

-- A payload that is not there reaches nobody.
reaches_present :
    (p : Policy) (r : ProtocolRouter) (s t : SessionHandle) (q : Payload)
    → has_payload q ≡ false
    → reaches p r s t q ≡ false
unfolding reaches
reaches_present p r s t (publish none) h = refl
reaches_present p r s t (publish (some value)) h = absurd (cc)
reaches_present p r s t _ h = refl

-- Where the registry's indices agree, a message makes the router send the received bytes on to `t` once
-- or not at all, and no other bytes. It does exactly for a publication in version 1 by an authenticated
-- session, that passes the checks on its content, to a valid room, with the consent of the policy, when
-- both sessions are subscribed to the room.
pub handle_message-Delivers :
    (p : Policy) (now : ℕ) (r : ProtocolRouter) (s t : SessionHandle) (payload : List ℕ)
    (m : NetworkMessage)
    → Mirrors r.rooms
    → (count t (recipients (handle_message p now r s payload m).sends)
        ≡ (if m.protocol_version == 1 && reaches p r s t m.payload then 1 else 0))
      × All (IsFrom payload) (handle_message p now r s payload m).sends
unfolding handle_message
handle_message-Delivers p now r s t payload m v = elim (Bool-cases (m.protocol_version == 1)) [
  | inl e ↦ elim (Bool-cases (has_payload m.payload)) [
    | inl f ↦ ground (arith, e, f, dispatch-Delivers p now r s t m.request_id payload m.payload v f)
    | inr f ↦ ground (
      arith,
      e,
      f,
      reaches_present p r s t m.payload f,
      send_error-Stays now r s malformed m.request_id ErrorCode.malformed_message
          (ascii "payload is required") payload,
    )
  ]
  | inr e ↦ ground (
    arith,
    e,
    send_error-Stays now r s accepted m.request_id ErrorCode.unsupported_version
        (ascii "supported protocol_version is 1") payload,
  )
]
