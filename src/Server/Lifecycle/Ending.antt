-- ===== src/Server/Lifecycle/Ending.antt =====
-- What is said of a function on the session that may give no result.
use iocp_engine.Base.{
  ◌≡◌, ◌⊎◌, subst, sym, Bool, true, false, arith, refl, Option, some, if◌then◌else◌, All, IsByte,
}
use iocp_engine.Framing.Invariant.{IsValid}
use iocp_engine.WebSocket.Decoder.Invariant as Decoder
use iocp_engine.Server.{State}
use iocp_engine.Server.Incoming.{after_delivery}
use iocp_engine.Server.Lifecycle.{Lifecycle, Onward}
use iocp_engine.Server.Lifecycle.Sending.{Gives}

-- A session with valid decoders, and bytes in the buffer of the detection.
abbrev pub Sound : State → Type 0
Sound s =
    Lifecycle s
    × IsValid s.session.raw_decoder
    × Decoder.IsValid s.session.websocket_decoder
    × All IsByte s.session.detection_buffer

-- The result is there and sound, and a session that was torn down stays so.
abbrev pub Ends : State → Option State → Type 0
Ends s o =
    (t : State) × (o ≡ some t)
    × Sound t
    × ((s.session.disconnect_started ≡ false) ⊎ (t.session.disconnect_started ≡ true))

pub Onward-Sound : (s t : State) → Sound s → Onward s t → Sound t
Onward-Sound s t v w = (
  w.lifecycle,
  subst IsValid (sym w.same_raw) v.1,
  subst Decoder.IsValid (sym w.same_websocket) v.2,
  subst (All IsByte) (sym w.same_detection) v.3,
)

pub Onward-Ends : (s t : State) → Sound s → Onward s t → Ends s (some t)
Onward-Ends s t v w = (t, refl, Onward-Sound s t v w, w.stays_dead)

pub Ends-trans :
    (s t : State) (o : Option State)
    → (s.session.disconnect_started ≡ false) ⊎ (t.session.disconnect_started ≡ true)
    → Ends t o
    → Ends s o
Ends-trans s t o d (u, e, v, w) = (u, e, v, ground (arith, d, w))

pub if_Ends :
    (s : State) (b : Bool) (x y : Option State) → Ends s x → Ends s y → Ends s (if b then x else y)
if_Ends s true x y v w = v
if_Ends s false x y v w = w

pub after_delivery-Ends :
    (next : State → Option State) (s : State) (o : Option (Bool × State))
    → Sound s
    → ((u : State) → Onward s u → Ends u (next u))
    → Gives s o
    → Ends s (after_delivery next o)
unfolding after_delivery
after_delivery-Ends next s o v k ((false, u), e, w) =
    subst (λ q. Ends s (after_delivery next q)) (sym e) (Onward-Ends s u v w)
after_delivery-Ends next s o v k ((true, u), e, w) =
    subst (λ q. Ends s (after_delivery next q)) (sym e)
      (Ends-trans s u (next u) w.stays_dead (k u w))
