-- ===== src/Router/Rejection.antt =====
-- What a message that is answered with `Malformed` does.
use iocp_engine.Base.{
  false, ==_iff, ℕ, ◌≡◌, ◌⊎◌, inl, inr, refl, true, Bool-cases, ◌==◌, Option, none, some, List, [],
  ◌∷◌, arith,
}
use iocp_engine.SessionHandle.{SessionHandle}
use iocp_engine.Rooms.{Room, RoomResult, authorize_publish}
use iocp_engine.Server.{accepted, malformed}
use iocp_engine.Router.Schema.{
  Text, Publish, Payload, no_payload, unknown_payload, publish, ErrorCode, error_response,
  NetworkMessage,
}
use iocp_engine.Router.Replies.{
  Outgoing, built, ProtocolRouter, Policy, Handled, send, send_error, send_ack, room_policy,
  protocol_version,
}
use iocp_engine.Router.{
  authenticated, handle_authenticate, handle_ping, handle_join, handle_leave, publish_room,
  publish_as, handle_publish, dispatch, has_payload, handle_message, handle_verified, handle,
}

-- An error about the request `id`.
abbrev pub IsErrorAbout : ℕ → Payload → Type 0
IsErrorAbout id (error_response (some e)) = e.related_request_id ≡ id
IsErrorAbout id _ = ⊥

-- One call of `Send`, to `s`, with such an error.
abbrev pub IsErrorTo : SessionHandle → ℕ → List (SessionHandle × Outgoing) → Type 0
IsErrorTo s id ((t, built m) ∷ []) = (t ≡ s) × IsErrorAbout id m.payload
IsErrorTo s id _ = ⊥

-- An answer other than `Malformed`, or an error to the sender that changes nothing but the numbering.
abbrev pub Answers : ProtocolRouter → SessionHandle → ℕ → Handled → Type 0
Answers r s id h =
    (h.disposition ≡ accepted)
    ⊎ (h.disposition ≡ malformed)
      × (h.router.rooms ≡ r.rooms)
      × (h.router.principals ≡ r.principals)
      × IsErrorTo s id h.sends

-- `Malformed`, and nothing else.
abbrev pub IsSilent : ProtocolRouter → Handled → Type 0
IsSilent r h = (h.disposition ≡ malformed) × (h.sends ≡ []) × (h.router ≡ r)

-- The type of the payload is none of the schema, and its reference is there.
abbrev pub IsUnknown : Payload → Type 0
IsUnknown (unknown_payload type true) = Unit
IsUnknown _ = ⊥

-- A message in version 1 with such a payload.
abbrev pub IsForeign : NetworkMessage → Type 0
IsForeign m = (m.protocol_version ≡ 1) × IsUnknown m.payload

abbrev pub Rejects : ProtocolRouter → SessionHandle → NetworkMessage → Handled → Type 0
Rejects r s m h = IsForeign m × IsSilent r h ⊎ ¬ IsForeign m × Answers r s m.request_id h

send_error-Answers :
    (now : ℕ) (r : ProtocolRouter) (s : SessionHandle) (id : ℕ) (code : ErrorCode) (text : Text)
    → Answers r s id (send_error now r s malformed id code text)
unfolding send_error send
send_error-Answers now r s id code text = inr (refl, refl, refl, (refl, refl))

handle_authenticate-Answers :
    (p : Policy) (now : ℕ) (r : ProtocolRouter) (s : SessionHandle) (id : ℕ)
    (table : Option (Option Text))
    → Answers r s id (handle_authenticate p now r s id table)
unfolding handle_authenticate authenticated send_error send
handle_authenticate-Answers p now r s id table = ground arith

handle_join-Answers :
    (p : Policy) (now : ℕ) (r : ProtocolRouter) (s : SessionHandle) (id : ℕ)
    (table : Option (Option Text))
    → Answers r s id (handle_join p now r s id table)
unfolding handle_join send_ack send_error send
handle_join-Answers p now r s id table = ground arith

handle_leave-Answers :
    (now : ℕ) (r : ProtocolRouter) (s : SessionHandle) (id : ℕ) (table : Option (Option Text))
    → Answers r s id (handle_leave now r s id table)
unfolding handle_leave send_ack send_error send
handle_leave-Answers now r s id table = ground arith

publish_as-Answers :
    (now : ℕ) (r : ProtocolRouter) (s : SessionHandle) (id : ℕ) (payload : List ℕ) (q : Room)
    (result : RoomResult)
    → (publish_as now r s id payload q result).disposition ≡ accepted
unfolding publish_as send_error send
publish_as-Answers now r s id payload q RoomResult.ok = refl
publish_as-Answers now r s id payload q _ = refl

handle_publish-Answers :
    (p : Policy) (now : ℕ) (r : ProtocolRouter) (s : SessionHandle) (id : ℕ) (payload : List ℕ)
    (table : Option Publish)
    → Answers r s id (handle_publish p now r s id payload table)
unfolding handle_publish send_error send
handle_publish-Answers p now r s id payload table = ground (
  arith,
  publish_as-Answers now r s id payload (publish_room table)
      (authorize_publish (room_policy p r) r.rooms s (publish_room table)),
)

dispatch-Answers :
    (p : Policy) (now : ℕ) (r : ProtocolRouter) (s : SessionHandle) (id : ℕ) (payload : List ℕ)
    (q : Payload)
    → has_payload q ≡ true
    → IsUnknown q × IsSilent r (dispatch p now r s id payload q)
      ⊎ ¬ IsUnknown q × Answers r s id (dispatch p now r s id payload q)
unfolding dispatch handle_ping send_error send
dispatch-Answers p now r s id payload no_payload h = absurd (cc)
dispatch-Answers p now r s id payload (unknown_payload type true) h = inl (tt, (refl, refl, refl))
dispatch-Answers p now r s id payload (unknown_payload type false) h = absurd (cc)
dispatch-Answers p now r s id payload (Payload.ping none) h = absurd (cc)
dispatch-Answers p now r s id payload (Payload.ping (some time)) h = inr ((λ u. u), inl refl)
dispatch-Answers p now r s id payload (Payload.authenticate o) h =
    inr ((λ u. u), handle_authenticate-Answers p now r s id o)
dispatch-Answers p now r s id payload (Payload.join_room o) h =
    inr ((λ u. u), handle_join-Answers p now r s id o)
dispatch-Answers p now r s id payload (Payload.leave_room o) h =
    inr ((λ u. u), handle_leave-Answers now r s id o)
dispatch-Answers p now r s id payload (publish o) h =
    inr ((λ u. u), handle_publish-Answers p now r s id payload o)
dispatch-Answers p now r s id payload _ h = inr ((λ u. u), inl refl)

-- Without a payload a message is not foreign.
IsUnknown-has_payload : (q : Payload) → IsUnknown q → has_payload q ≡ true
IsUnknown-has_payload (unknown_payload type true) u = refl
IsUnknown-has_payload (unknown_payload type false) u = absurd u
IsUnknown-has_payload _ u = absurd u

handle_message-Rejects :
    (p : Policy) (now : ℕ) (r : ProtocolRouter) (s : SessionHandle) (payload : List ℕ)
    (m : NetworkMessage)
    → Rejects r s m (handle_message p now r s payload m)
unfolding handle_message
handle_message-Rejects p now r s payload m =
    elim (Bool-cases (m.protocol_version == protocol_version)) [
      | inl e ↦ elim (Bool-cases (has_payload m.payload)) [
        | inl f ↦
            rw (e, f)
              (elim (dispatch-Answers p now r s m.request_id payload m.payload f) [
                | inl (u, silent) ↦ inl (((==_iff m.protocol_version 1).0 e, u), silent)
                | inr (u, answers) ↦ inr ((λ g. u g.1), answers)
              ])
        | inr f ↦
            rw (e, f)
              (inr (
                (λ g. absurd (ground (arith, f, IsUnknown-has_payload m.payload g.1))),
                send_error-Answers now r s m.request_id _ _,
              ))
      ]
      | inr e ↦ rw e (
          unfold send_error send in
          inr ((λ g. absurd (ground (arith, e, g.0, ==_iff m.protocol_version 1))), inl refl))
    ]

handle_verified-Rejects :
    (p : Policy) (now : ℕ) (r : ProtocolRouter) (s : SessionHandle) (payload : List ℕ)
    (o : Option NetworkMessage)
    → let h = handle_verified p now r s payload o in
      ((m : NetworkMessage) × (o ≡ some m) × Rejects r s m h) ⊎ (o ≡ none) × IsSilent r h
unfolding handle_verified
handle_verified-Rejects p now r s payload none = inr (refl, (refl, refl, refl))
handle_verified-Rejects p now r s payload (some m) =
    inl (m, refl, handle_message-Rejects p now r s payload m)

-- The answer is `Malformed` in three cases. The verifier rejects the bytes: then nothing is sent and the
-- router stays as it is. The verifier accepts a message in version 1 whose payload is there, of a type
-- that the schema does not have: then likewise. Or, for any other message, with exactly one error to its
-- sender, which names the request, and then neither the rooms nor the principals change.
pub handle-Rejects :
    (verify : List ℕ → Option NetworkMessage) (p : Policy) (now : ℕ) (r : ProtocolRouter)
    (s : SessionHandle) (payload : List ℕ)
    → let h = handle verify p now r s payload in
      ((m : NetworkMessage) × (verify payload ≡ some m) × Rejects r s m h)
      ⊎ (verify payload ≡ none) × IsSilent r h
unfolding handle
handle-Rejects verify p now r s payload = handle_verified-Rejects p now r s payload (verify payload)
