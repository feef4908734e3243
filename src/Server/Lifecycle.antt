-- ===== src/Server/Lifecycle.antt =====
-- The life cycle of a session: it is live, or it was torn down, once.
-- `Onward` compares the state before an operation with the one after it.
pub mod Sending
pub mod Receiving
pub mod Ending
pub mod Raw
pub mod WebSocket
pub mod Torn
pub mod Detection
pub mod Runs
use iocp_engine.Base.{
  ◌≡◌, ◌⊎◌, Bool, true, false, [], arith, ℕ, List, refl, ◌==◌, ltb, if◌then◌else◌,
}
use iocp_engine.Server.{SessionState, closed, State, OutboundItem}
use iocp_engine.Server.Outgoing.{tear_down, disconnect, update_inbound_counters}
use iocp_engine.Server.Outgoing.Sections.{clear_section}

abbrev pub is_closed : SessionState → Bool
is_closed closed = true
is_closed _ = false

abbrev pub Live : State → Type 0
Live s =
    (s.session.disconnect_started ≡ false)
    × (is_closed s.session.state ≡ false)
    × (s.session.has_socket ≡ true)
    × (s.registered ≡ true)
    × (s.disconnects ≡ 0)

abbrev pub Dead : State → Type 0
Dead s =
    (s.session.disconnect_started ≡ true)
    × (is_closed s.session.state ≡ true)
    × (s.session.has_socket ≡ false)
    × (s.registered ≡ false)
    × (s.disconnects ≡ 1)
    × (s.session.send_queue ≡ [])

abbrev pub Lifecycle : State → Type 0
Lifecycle s = Live s ⊎ Dead s

-- The decoders and the transport are not touched, a dead session stays dead.
pub record Onward (s t : State) : Type 0 where
  pub same_raw : t.session.raw_decoder ≡ s.session.raw_decoder
  pub same_websocket : t.session.websocket_decoder ≡ s.session.websocket_decoder
  pub same_detection : t.session.detection_buffer ≡ s.session.detection_buffer
  pub same_transport : t.session.transport ≡ s.session.transport
  pub lifecycle : Lifecycle t
  pub stays_dead : (s.session.disconnect_started ≡ false) ⊎ (t.session.disconnect_started ≡ true)

pub Onward-self : (s : State) → Lifecycle s → Onward s s
Onward-self s v = ground arith

pub Onward-trans : (s t u : State) → Onward s t → Onward t u → Onward s u
Onward-trans s t u v w = ground (
  arith, v.same_raw, v.same_websocket, v.same_detection, v.same_transport, v.stays_dead, w.same_raw,
  w.same_websocket, w.same_detection, w.same_transport, w.lifecycle, w.stays_dead,
)

pub update_inbound_counters-Onward :
    (s : State) (n : ℕ) → Lifecycle s → Onward s (update_inbound_counters s n)
unfolding update_inbound_counters
update_inbound_counters-Onward s n v = ground arith

tear_down-Dead : (s : State) → Live s → Dead (tear_down s) × Onward s (tear_down s)
unfolding tear_down clear_section update_inbound_counters
tear_down-Dead s v = ground arith

pub disconnect-Onward : (s : State) → Lifecycle s → Dead (disconnect s) × Onward s (disconnect s)
unfolding disconnect
disconnect-Onward s v = ground (arith, tear_down-Dead s)

pub then_disconnect : (s t : State) → Onward s t → Onward s (disconnect t)
then_disconnect s t v = Onward-trans s t (disconnect t) v (disconnect-Onward t v.lifecycle).1

-- A choice is onward where both branches are.
pub if_Onward :
    (s : State) (b : Bool) {x y : State} → Onward s x → Onward s y → Onward s (if b then x else y)
if_Onward s true v w = v
if_Onward s false v w = w

pub choice_Onward :
    (s : State) (b : Bool) {x y : State}
    → (b ≡ true → Onward s x)
    → (b ≡ false → Onward s y)
    → Onward s (if b then x else y)
choice_Onward s true v w = v refl
choice_Onward s false v w = w refl

pub pair_Onward :
    (s : State) (b : Bool) (x y : Bool × State)
    → (b ≡ true → Onward s x.1)
    → (b ≡ false → Onward s y.1)
    → Onward s (if b then x else y).1
pair_Onward s true x y v w = v refl
pair_Onward s false x y v w = w refl
