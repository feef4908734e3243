-- ===== src/Server/Lifecycle/Sending.antt =====
-- The send path and the calls of the API: the life cycle of the session.
use iocp_engine.Base.{
  ◌≡◌, ◌<◌, ◌^◌, ap, Bool, true, false, not, ◌&&◌, ◌||◌, [], ◌∷◌, ◌++◌, arith, ℕ, List, refl,
  Option, none, some, ltb, ◌==◌, if◌then◌else◌, length,
}
use iocp_engine.Base.Size.{sub_size}
use iocp_engine.SendCursor.{SharedBuffer}
use iocp_engine.WebSocket.{WsOpcode}
use iocp_engine.Framing.{encode_length}
use iocp_engine.Framing.Stream.{prefix}
use iocp_engine.Framing.Encode.{encode_length-prefix}
use iocp_engine.Server.{
  TransportKind, detecting, raw_tcp, web_socket, closing, State, OutboundItem, item_bytes,
  ServerConfig,
}
use iocp_engine.Server.Outgoing.{
  Answers, send_state, with_send_state, count_failure, disconnect, finish_failed, launch,
  take_front, start_next_write, enqueue, sent, finish_sent,
}
use iocp_engine.Server.Outgoing.Sections.{SendState, enqueue_section, start_section, finish_section}
use iocp_engine.Server.Control.{
  is_open, send_framed, send_on, send, enqueue_or_disconnect, send_control, close, is_ending,
  plain_item, is_web_socket, close_payload,
}
use iocp_engine.Server.Lifecycle.{
  Lifecycle, Onward, Onward-self, if_Onward, choice_Onward, pair_Onward, Onward-trans,
  then_disconnect, disconnect-Onward,
}

pub finish_failed-Onward :
    (s : State) (item : OutboundItem) → Lifecycle s → Onward s (finish_failed s item)
unfolding finish_failed finish_section
finish_failed-Onward s item v =
    then_disconnect s
      (count_failure (with_send_state s (finish_section (send_state s) (item_bytes item))))
      (ground arith)

failed_launch-Onward :
    (s : State) (n m : ℕ)
    → Lifecycle s
    → Onward s (
        disconnect (
          count_failure (record s {
            session = record s.session { queued_bytes = n };
            metrics = record s.metrics { queued_bytes = m };
          })))
failed_launch-Onward s n m v =
    then_disconnect s
      (count_failure (record s {
        session = record s.session { queued_bytes = n };
        metrics = record s.metrics { queued_bytes = m };
      }))
      (ground arith)

posted-Onward :
    (s : State) (item : OutboundItem)
    → Lifecycle s
    → Onward s (record s { writing = s.writing ++ (item ∷ []) })
posted-Onward s item v = ground arith

launch-Onward :
    (a : Answers) (s : State) (item : OutboundItem) → Lifecycle s → Onward s (launch a s item)
unfolding launch
launch-Onward a s item v =
    if_Onward s (not a.allocates)
      (failed_launch-Onward s (sub_size s.session.queued_bytes (item_bytes item))
        (sub_size s.metrics.queued_bytes (item_bytes item)) v)
      (if_Onward s (a.posts && s.session.has_socket) (posted-Onward s item v)
        (finish_failed-Onward s item v))

take_front-Onward :
    (a : Answers) (s : State) (items : List OutboundItem)
    → Lifecycle s
    → Onward s (take_front a s items)
unfolding take_front
take_front-Onward a s [] v = Onward-self s v
take_front-Onward a s (item ∷ rest) v = launch-Onward a s item v

start_section_sends :
    (s : State) → Lifecycle s → Onward s (with_send_state s (start_section (send_state s)))
unfolding start_section
start_section_sends s v = ground arith

start_next_write-Onward : (a : Answers) (s : State) → Lifecycle s → Onward s (start_next_write a s)
unfolding start_next_write
start_next_write-Onward a s v =
    Onward-trans s _ _ (start_section_sends s v)
      (take_front-Onward a _ s.session.send_queue (start_section_sends s v).lifecycle)

live_sends :
    (s : State) (p : SendState)
    → Lifecycle s
    → s.session.disconnect_started ≡ false
    → Onward s (with_send_state s p)
live_sends s p v e = ground arith

failure-Onward : (s : State) → Lifecycle s → Onward s (count_failure s)
failure-Onward s v = ground arith

pub enqueue-Onward :
    (c : ServerConfig) (a : Answers) (s : State) (item : OutboundItem)
    → Lifecycle s
    → Onward s (enqueue c a s item).1
unfolding enqueue
enqueue-Onward c a s item v =
    pair_Onward s s.session.disconnect_started _ _ (λ e. Onward-self s v)
      (λ e.
        let p : SendState = (enqueue_section c (send_state s) item).1 in
        let w : Onward s (with_send_state s p) = live_sends s p v e in
        pair_Onward s (enqueue_section c (send_state s) item).0 _ _
          (λ f. if_Onward s s.session.write_active w (
            Onward-trans s (with_send_state s p) _ w
              (start_next_write-Onward a (with_send_state s p) w.lifecycle)))
          (λ f. failure-Onward s v))

sent-Onward : (s : State) (item : OutboundItem) → Lifecycle s → Onward s (sent s item)
unfolding sent finish_section
sent-Onward s item v = ground arith

pub finish_sent-Onward :
    (a : Answers) (s : State) (item : OutboundItem) → Lifecycle s → Onward s (finish_sent a s item)
unfolding finish_sent
finish_sent-Onward a s item v =
    let w : Onward s (sent s item) = sent-Onward s item v in
    if_Onward s item.close_after (then_disconnect s _ w)
      (Onward-trans s _ _ w (start_next_write-Onward a (sent s item) w.lifecycle))

pub enqueue_or_disconnect-Onward :
    (c : ServerConfig) (a : Answers) (s : State) (item : OutboundItem)
    → Lifecycle s
    → Onward s (enqueue_or_disconnect c a s item)
unfolding enqueue_or_disconnect
enqueue_or_disconnect-Onward c a s item v =
    let w : Onward s (enqueue c a s item).1 = enqueue-Onward c a s item v in
    if_Onward s (not (enqueue c a s item).0 && item.close_after) (then_disconnect s _ w) w

closing-Onward :
    (s : State) (now : ℕ)
    → Lifecycle s
    → is_ending s.session.state ≡ false
    → Onward s (record s { session = record s.session { state = closing; close_started_ms = now } })
closing-Onward s now v e = ground arith

pub send_control-Onward :
    (c : ServerConfig) (a : Answers) (now : ℕ) (s : State) (opcode : WsOpcode) (payload : List ℕ)
    (close_after : Bool)
    → Lifecycle s
    → Onward s (send_control c a now s opcode payload close_after)
unfolding send_control
send_control-Onward c a now s opcode payload false v = enqueue_or_disconnect-Onward c a s _ v
send_control-Onward c a now s opcode payload true v =
    choice_Onward s (is_ending s.session.state) (λ e. Onward-self s v)
      (λ e.
        let w : Onward s _ = closing-Onward s now v e in
        Onward-trans s _ _ w (enqueue_or_disconnect-Onward c a _ _ w.lifecycle))

pub close-Onward :
    (c : ServerConfig) (a : Answers) (now : ℕ) (s : State) (code : ℕ) (reason : List ℕ)
    → Lifecycle s
    → Onward s (close c a now s code reason)
unfolding close
close-Onward c a now s code reason v = if_Onward s (not s.registered) (Onward-self s v) (
    if_Onward s (not (is_web_socket s.session.transport)) (disconnect-Onward s v).1
      (send_control-Onward c a now s WsOpcode.close (close_payload code reason) true v))

-- `o` is a result, and it is onward.
abbrev pub Gives : State → Option (Bool × State) → Type 0
Gives s o = (r : Bool × State) × (o ≡ some r) × Onward s r.1

-- The header of a length that fits 32 bits is not an error.
send_on-Gives :
    (c : ServerConfig) (a : Answers) (s : State) (payload : List ℕ) (transport : TransportKind)
    → length payload < 2 ^ 32
    → Lifecycle s
    → Gives s (send_on c a s payload transport)
unfolding send_on send_framed
send_on-Gives c a s payload detecting k v = (_, refl, Onward-self s v)
send_on-Gives c a s payload web_socket k v = (_, refl, enqueue-Onward c a s _ v)
send_on-Gives c a s payload raw_tcp k v =
    let e : encode_length (length payload) ≡ some (prefix (length payload)) =
      ground (arith, encode_length-prefix (length payload)) in
    (
      enqueue c a s (plain_item (prefix (length payload)) payload),
      ap (send_framed c a s payload) e,
      enqueue-Onward c a s (plain_item (prefix (length payload)) payload) v,
    )

abbrev pub send_guard : ServerConfig → State → List ℕ → Bool
send_guard c s payload =
    not s.registered
    || length payload == 0
    || ltb c.max_message_bytes (length payload)
    || not (is_open s.session.state)

pub choice_Gives :
    (s : State) (b : Bool) (x y : Option (Bool × State))
    → Gives s x
    → (b ≡ false → Gives s y)
    → Gives s (if b then x else y)
choice_Gives s true x y v w = v
choice_Gives s false x y v w = w refl

pub send-Gives :
    (c : ServerConfig) (a : Answers) (s : State) (b : SharedBuffer)
    → c.max_message_bytes < 2 ^ 32
    → Lifecycle s
    → Gives s (send c a s b)
unfolding send
send-Gives c a s none k v = (_, refl, Onward-self s v)
send-Gives c a s (some payload) k v =
    choice_Gives s (send_guard c s payload) _ _ (_, refl, Onward-self s v)
      (λ e. send_on-Gives c a s payload s.session.transport (ground (arith, e, k)) v)
