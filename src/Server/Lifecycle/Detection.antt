-- ===== src/Server/Lifecycle/Detection.antt =====
-- A completed read: its end, and the life cycle of the session.
use iocp_engine.Base.{
  ℕ, ◌-◌, ◌^◌, ◌<◌, ◌≡◌, ◌⊎◌, inl, inr, refl, subst, sym, Bool, true, false, Bool-cases, not, ◌&&◌,
  ◌||◌, Option, some, List, [], ◌++◌, if◌then◌else◌, length, length-append, drop, ltb, ◌==◌, arith,
  All, All-append, All-drop, IsByte,
}
use iocp_engine.WebSocket.Handshake.{
  HandshakeStatus, HandshakeResult, need_more_data, accepted, rejected,
}
use iocp_engine.WebSocket.Handshake.Total.{parse_handshake-some}
use iocp_engine.Server.{State, ServerConfig, TransportKind, opened, detecting, raw_tcp, web_socket}
use iocp_engine.Server.Outgoing.{Answers, disconnect}
use iocp_engine.Server.Control.{send_raw}
use iocp_engine.Server.Incoming.{MessageHandler, update_inbound_accounting}
use iocp_engine.Server.Detection.{
  with_detection_buffer, settle_transport, answer_handshake, after_parse, detect, is_possible_http,
  get_prefix, process_detection, process_on, process_incoming, after_read, handle_read,
}
use iocp_engine.Server.Lifecycle.{Dead, Lifecycle, Onward, Onward-self, disconnect-Onward}
use iocp_engine.Server.Lifecycle.Sending.{enqueue_or_disconnect-Onward}
use iocp_engine.Server.Lifecycle.Receiving.{update_inbound_accounting-Onward}
use iocp_engine.Server.Lifecycle.Ending.{Sound, Onward-Sound, Ends, Onward-Ends}
use iocp_engine.Server.Lifecycle.Raw.{process_raw-Ends}
use iocp_engine.Server.Lifecycle.WebSocket.{process_websocket-Ends}
use iocp_engine.Server.Lifecycle.Torn.{
  Torn, StaysTorn, disconnect-Torn, update_inbound_accounting-Torn, process_raw-StaysTorn,
  process_websocket-StaysTorn,
}

-- Valid, or torn down once.
abbrev pub Good : State → Type 0
Good s = Sound s ⊎ Torn s

-- The result is there and good, and a session that was torn down stays so.
abbrev pub Holds : State → Option State → Type 0
Holds s o =
    (t : State) × (o ≡ some t)
    × Good t
    × ((s.session.disconnect_started ≡ false) ⊎ (t.session.disconnect_started ≡ true))

pub Ends-Holds : (s : State) (o : Option State) → Ends s o → Holds s o
Ends-Holds s o (t, e, v, d) = (t, e, inl v, d)

if_Holds :
    (s : State) (b : Bool) (x y : Option State)
    → Holds s x
    → Holds s y
    → Holds s (if b then x else y)
if_Holds s true x y v w = v
if_Holds s false x y v w = w

Dead-Torn : (s : State) → Dead s → Torn s
Dead-Torn s v = (v.0, v.2, v.3, v.4, v.5)

-- How a session goes on after its transport is known.
abbrev Goes : State → State → Type 0
Goes s u = (s.session.disconnect_started ≡ false) × Sound u ⊎ Torn u

settle_transport-Goes :
    (c : ServerConfig) (s : State) (k : TransportKind) → Sound s → Goes s (settle_transport c s k)
unfolding settle_transport
settle_transport-Goes c s k (inl live, raw, web, bytes) =
    let t : State = record s {
      session = record s.session { transport = k; state = opened; detection_buffer = [] };
    } in
    let v : Lifecycle t = inl (live.0, refl, live.2, live.3, live.4) in
    inl (live.0, Onward-Sound t _ (v, raw, web, tt) (update_inbound_accounting-Onward c t 0 v))
settle_transport-Goes c s k (inr dead, raw, web, bytes) =
    inr (update_inbound_accounting-Torn c _ 0 (Dead-Torn s dead))

Goes-Holds :
    (s u : State) (o : Option State)
    → Goes s u
    → (Sound u → Ends u o)
    → (Torn u → StaysTorn o)
    → Holds s o
Goes-Holds s u o (inl (live, v)) f g = let (t, e, w, d) = f v in (t, e, inl w, inl live)
Goes-Holds s u o (inr v) f g = let (t, e, w) = g v in (t, e, inr w, inr w.0)

send_raw-Onward :
    (c : ServerConfig) (a : Answers) (s : State) (response : List ℕ) (close_after : Bool)
    → Lifecycle s
    → Onward s (send_raw c a s response close_after)
unfolding send_raw
send_raw-Onward c a s response close_after v = enqueue_or_disconnect-Onward c a s _ v

remaining-IsByte :
    (b : Bool) (n : ℕ) (buffer : List ℕ)
    → All IsByte buffer
    → All IsByte (if b then drop n buffer else [])
remaining-IsByte true n buffer h = All-drop IsByte n buffer h
remaining-IsByte false n buffer h = tt

Goes-self : (s u : State) → Goes s u → Holds s (some u)
Goes-self s u v =
    Goes-Holds s u (some u) v (λ w. Onward-Ends u u w (Onward-self u w.0)) (λ w. (u, refl, w))

Holds-after : (s t : State) (o : Option State) → Onward s t → Holds t o → Holds s o
Holds-after s t o w (u, e, g, d) = (u, e, g, ground (arith, w.stays_dead, d))

answer_handshake-Holds :
    (c : ServerConfig) (a : Answers) (now : ℕ) (h : MessageHandler) (s : State)
    (status : HandshakeStatus) (r : HandshakeResult)
    → c.max_message_bytes < 2 ^ 32
    → Sound s
    → Holds s (answer_handshake c a now h s status r)
unfolding answer_handshake
answer_handshake-Holds c a now h s need_more_data r k v =
    Ends-Holds s _ (Onward-Ends s s v (Onward-self s v.0))
answer_handshake-Holds c a now h s rejected r k v =
    Ends-Holds s _ (Onward-Ends s _ v (send_raw-Onward c a s r.response true v.0))
answer_handshake-Holds c a now h s accepted r k v =
    let t : State = send_raw c a s r.response false in
    let w : Onward s t = send_raw-Onward c a s r.response false v.0 in
    let x : Sound t = Onward-Sound s t v w in
    let u : State = settle_transport c t web_socket in
    let g : Goes t u = settle_transport-Goes c t web_socket x in
    let more : Bool = ltb r.consumed (length t.session.detection_buffer) in
    let bytes = remaining-IsByte more r.consumed t.session.detection_buffer x.3 in
    Holds-after s t _ w (
      if_Holds t _ _ _ (Goes-self t u g) (
        Goes-Holds t u _ g (λ y. process_websocket-Ends c a now h u _ k y bytes)
          (λ y. process_websocket-StaysTorn c a now h u _ y)))

detect-Holds :
    (c : ServerConfig) (a : Answers) (now : ℕ) (h : MessageHandler) (s : State)
    → c.max_message_bytes < 2 ^ 32
    → length s.session.detection_buffer < 2 ^ 63
    → Sound s
    → Holds s (detect c a now h s)
unfolding detect after_parse
detect-Holds c a now h s k n v =
    let buffer : List ℕ = s.session.detection_buffer in
    let u : State = settle_transport c s raw_tcp in
    let g : Goes s u = settle_transport-Goes c s raw_tcp v in
    let (r, e, sorted) = parse_handshake-some buffer c.max_handshake_bytes c.origin_validator n in
    if_Holds s (not (is_possible_http buffer)) _ _
      (Goes-Holds s u _ g (λ y. process_raw-Ends c a now h u buffer k y v.3)
        (λ y. process_raw-StaysTorn c a now h u buffer y))
      (if_Holds s (ltb (length buffer) (length get_prefix)) _ _
        (Ends-Holds s _ (Onward-Ends s s v (Onward-self s v.0)))
        (rw e (answer_handshake-Holds c a now h s r.status r k v)))

buffered-Sound :
    (s : State) (bytes : List ℕ)
    → Sound s
    → All IsByte bytes
    → Sound (with_detection_buffer s (s.session.detection_buffer ++ bytes))
buffered-Sound s bytes v b =
    (ground (arith, v.0), v.1, v.2, All-append IsByte s.session.detection_buffer bytes v.3 b)

process_detection-Holds :
    (c : ServerConfig) (a : Answers) (now : ℕ) (h : MessageHandler) (s : State) (bytes : List ℕ)
    → c.max_message_bytes < 2 ^ 32
    → c.max_session_inbound_bytes < 2 ^ 63
    → Sound s
    → All IsByte bytes
    → Holds s (process_detection c a now h s bytes)
unfolding process_detection
process_detection-Holds c a now h s bytes k n v b =
    let buffer : List ℕ = s.session.detection_buffer in
    let t : State = with_detection_buffer s (buffer ++ bytes) in
    let x : Sound t = buffered-Sound s bytes v b in
    let w : Onward t (update_inbound_accounting c t (length (buffer ++ bytes))) =
      update_inbound_accounting-Onward c t (length (buffer ++ bytes)) x.0 in
    elim (Bool-cases (
      ltb c.max_session_inbound_bytes (length buffer)
      || ltb (c.max_session_inbound_bytes - length buffer) (length bytes))) [
        | inl e ↦ rw e (Ends-Holds s _ (Onward-Ends s _ v (disconnect-Onward s v.0).1))
        | inr e ↦
            let small : length (buffer ++ bytes) < 2 ^ 63 =
              ground (arith, e, length-append buffer bytes) in
            rw e (
              Holds-after t _ _ w (
                detect-Holds c a now h _ k
                  (subst (λ q. length q < 2 ^ 63) (sym w.same_detection) small)
                  (Onward-Sound t _ x w)))
      ]

process_on-Holds :
    (c : ServerConfig) (a : Answers) (now : ℕ) (h : MessageHandler) (s : State) (bytes : List ℕ)
    (t : TransportKind)
    → c.max_message_bytes < 2 ^ 32
    → c.max_session_inbound_bytes < 2 ^ 63
    → Sound s
    → All IsByte bytes
    → Holds s (process_on c a now h s bytes t)
unfolding process_on
process_on-Holds c a now h s bytes detecting k n v b =
    process_detection-Holds c a now h s bytes k n v b
process_on-Holds c a now h s bytes raw_tcp k n v b =
    Ends-Holds s _ (process_raw-Ends c a now h s bytes k v b)
process_on-Holds c a now h s bytes web_socket k n v b =
    Ends-Holds s _ (process_websocket-Ends c a now h s bytes k v b)

disconnect-Good :
    (s : State) → Good s → Good (disconnect s) × ((disconnect s).session.disconnect_started ≡ true)
disconnect-Good s (inl v) =
    let (dead, w) = disconnect-Onward s v.0 in (inl (Onward-Sound s _ v w), dead.0)
disconnect-Good s (inr v) = rw (disconnect-Torn s v) (inr v, v.0)

after_read-Holds :
    (s : State) (goes_on : Bool) (o : Option State) → Holds s o → Holds s (after_read goes_on o)
unfolding after_read
after_read-Holds s goes_on o (t, e, g, d) = rw e (
    if_Holds s (not t.session.disconnect_started && goes_on) _ _ (t, refl, g, d)
      (let (good, ended) = disconnect-Good t g in (disconnect t, refl, good, inr ended)))

-- A completed read of a good session is handled to its end: whether it succeeded or not, on any bytes,
-- with any transport, handler and answers of the operating system, when `max_message_bytes` is below 2^32
-- and `max_session_inbound_bytes` below 2^63. The session is then live with valid decoders, or was torn
-- down exactly once, with its socket closed and its queue empty; and one that was torn down before stays
-- so. Only `state` of a session that was torn down may say otherwise.
pub handle_read-Holds :
    (c : ServerConfig) (a : Answers) (now : ℕ) (h : MessageHandler) (s : State) (succeeded : Bool)
    (bytes : List ℕ) (goes_on : Bool)
    → c.max_message_bytes < 2 ^ 32
    → c.max_session_inbound_bytes < 2 ^ 63
    → Good s
    → All IsByte bytes
    → Holds s (handle_read c a now h s succeeded bytes goes_on)
unfolding handle_read process_incoming
handle_read-Holds c a now h s succeeded bytes goes_on k n v b =
    elim (Bool-cases (not succeeded || length bytes == 0 || s.session.disconnect_started)) [
      | inl e ↦
          rw e (let (good, ended) = disconnect-Good s v in (disconnect s, refl, good, inr ended))
      | inr e ↦ rw e (after_read-Holds s goes_on _ (reads v (ground (arith, e))))
    ]
  where
    t : State
    t = record s { session = record s.session { last_activity_ms = now } }

    reads :
        Good s
        → s.session.disconnect_started ≡ false
        → Holds s (process_on c a now h t bytes s.session.transport)
    reads (inl w) live =
        process_on-Holds c a now h t bytes s.session.transport k n
          (ground (arith, w.0), w.1, w.2, w.3) b
    reads (inr w) live = absurd (cc)
