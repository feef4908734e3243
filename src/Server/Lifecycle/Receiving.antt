-- ===== src/Server/Lifecycle/Receiving.antt =====
-- `DeliverMessage` and its parts: the exceptions and the life cycle of the session.
use iocp_engine.Base.Size.{add_size}
use iocp_engine.Base.{
  ◌≡◌, ◌<◌, ◌^◌, ap, ◌∙◌, Bool, true, false, [], ◌∷◌, arith, ℕ, List, refl, Option, none, some,
  if◌then◌else◌,
}
use iocp_engine.Server.{State, MessageDisposition, accepted, malformed, ServerConfig}
use iocp_engine.Server.Outgoing.{Answers, update_inbound_counters}
use iocp_engine.Server.Control.{close}
use iocp_engine.Server.Incoming.{
  Call, send_buffer, close_with, MessageHandler, run_calls, record_malformed,
  update_inbound_accounting, count_message, judge, hand_over, deliver_message,
}
use iocp_engine.Server.Lifecycle.{
  Lifecycle, Onward, Onward-self, if_Onward, pair_Onward, Onward-trans, then_disconnect,
  update_inbound_counters-Onward,
}
use iocp_engine.Server.Lifecycle.Sending.{send-Gives, close-Onward, Gives, choice_Gives}

abbrev pub GivesState : State → Option State → Type 0
GivesState s o = (t : State) × (o ≡ some t) × Onward s t

received-Onward :
    (s : State) (n : ℕ)
    → Lifecycle s
    → Onward s (record s { metrics = record s.metrics { received_messages = n } })
received-Onward s n v = ground arith

run_calls-Gives :
    (c : ServerConfig) (a : Answers) (now : ℕ) (s : State) (calls : List Call)
    → c.max_message_bytes < 2 ^ 32
    → Lifecycle s
    → GivesState s (run_calls c a now s calls)
unfolding run_calls
run_calls-Gives c a now s [] k v = (s, refl, Onward-self s v)
run_calls-Gives c a now s (send_buffer b ∷ rest) k v =
    let (r, e, w) = send-Gives c a s b k v in
    let (t, f, u) = run_calls-Gives c a now r.1 rest k w.lifecycle in
    (
      t,
      ap (λ o. elim o [ none ↦ none | some q ↦ run_calls c a now q.1 rest ]) e ∙ f,
      Onward-trans s r.1 t w u,
    )
run_calls-Gives c a now s (close_with code reason ∷ rest) k v =
    let w : Onward s (close c a now s code reason) = close-Onward c a now s code reason v in
    let (t, f, u) = run_calls-Gives c a now _ rest k w.lifecycle in (t, f, Onward-trans s _ t w u)

pub update_inbound_accounting-Onward :
    (c : ServerConfig) (s : State) (bytes : ℕ)
    → Lifecycle s
    → Onward s (update_inbound_accounting c s bytes)
unfolding update_inbound_accounting
update_inbound_accounting-Onward c s bytes v =
    let w : Onward s (update_inbound_counters s bytes) = update_inbound_counters-Onward s bytes v in
    if_Onward s _ (then_disconnect s _ w) w

pub record_malformed-Onward : (s : State) → Lifecycle s → Onward s (record_malformed s)
unfolding record_malformed
record_malformed-Onward s v = ground arith

count_message-Onward : (now : ℕ) (s : State) → Lifecycle s → Onward s (count_message now s)
unfolding count_message
count_message-Onward now s v = ground arith

reject-Onward :
    (c : ServerConfig) (a : Answers) (now : ℕ) (s : State) (b : Bool) (code : ℕ) (reason : List ℕ)
    → Lifecycle s
    → Onward s
        (if◌then◌else◌ {A = Bool × State} b
          (false, close c a now (record_malformed s) code reason)
          (true, record_malformed s)).1
reject-Onward c a now s b code reason v =
    let w : Onward s (record_malformed s) = record_malformed-Onward s v in
    pair_Onward s b _ _
      (λ e.
        Onward-trans s _ _ w (close-Onward c a now (record_malformed s) code reason w.lifecycle))
      (λ e. w)

judge-Onward :
    (c : ServerConfig) (a : Answers) (now : ℕ) (s : State) (d : MessageDisposition)
    → Lifecycle s
    → Onward s (judge c a now s d).1
unfolding judge
judge-Onward c a now s accepted v = Onward-self s v
judge-Onward c a now s malformed v = reject-Onward c a now s _ 1007 _ v
judge-Onward c a now s MessageDisposition.close v =
    let w : Onward s (record_malformed s) = record_malformed-Onward s v in
    Onward-trans s _ _ w (close-Onward c a now (record_malformed s) 1007 _ w.lifecycle)

hand_over-Gives :
    (c : ServerConfig) (a : Answers) (now : ℕ) (h : MessageHandler) (s : State) (message : List ℕ)
    → c.max_message_bytes < 2 ^ 32
    → Lifecycle s
    → Gives s (hand_over c a now h s message)
unfolding hand_over
hand_over-Gives c a now none s message k v = (_, refl, Onward-self s v)
hand_over-Gives c a now (some handler) s message k v =
    let n : ℕ = add_size s.metrics.received_messages 1 in
    let t : State = record s { metrics = record s.metrics { received_messages = n } } in
    let w : Onward s t = received-Onward s n v in
    let (u, e, x) = run_calls-Gives c a now t (handler t message).0 k w.lifecycle in
    (
      judge c a now u (handler t message).1,
      ap (λ o. elim o [ none ↦ none | some q ↦ some (judge c a now q (handler t message).1) ]) e,
      Onward-trans s t _ w
          (Onward-trans t u _ x (judge-Onward c a now u (handler t message).1 x.lifecycle)),
    )

then_Gives : (s t : State) (o : Option (Bool × State)) → Onward s t → Gives t o → Gives s o
then_Gives s t o w (r, e, u) = (r, e, Onward-trans s t r.1 w u)

pub deliver_message-Gives :
    (c : ServerConfig) (a : Answers) (now : ℕ) (h : MessageHandler) (s : State) (message : List ℕ)
    → c.max_message_bytes < 2 ^ 32
    → Lifecycle s
    → Gives s (deliver_message c a now h s message)
unfolding deliver_message
deliver_message-Gives c a now h s message k v =
    let w : Onward s (count_message now s) = count_message-Onward now s v in
    choice_Gives s _ _ _
      (
        _,
        refl,
        Onward-trans s _ _ w (close-Onward c a now (count_message now s) 1008 _ w.lifecycle),
      )
      (λ e.
        then_Gives s _ _ w (hand_over-Gives c a now h (count_message now s) message k w.lifecycle))
