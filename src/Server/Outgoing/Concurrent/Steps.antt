-- ===== src/Server/Outgoing/Concurrent/Steps.antt =====
-- `Inv` for each step of Server/Outgoing/Concurrent.antt.
use iocp_engine.Base.{
  ℕ, suc, ◌+◌, ◌-◌, ◌≤◌, ◌≡◌, refl, ap, sym, subst, ◌∙◌, true, false, List, [], ◌∷◌, ◌++◌,
  length-append, arith, append_assoc, append-nil, inr,
}
use iocp_engine.Server.{ServerConfig, OutboundItem, item_bytes}
use iocp_engine.Server.Outgoing.Sections.{
  enqueue_section, start_section, finish_section, clear_each, clear_section,
}
use iocp_engine.Server.Outgoing.Concurrent.{bytes_of, SendPath, wake, Inv}
use iocp_engine.Server.Outgoing.Concurrent.Effects.{
  bytes_of-append, clear_each_counts, clear_each_rest, enqueue_takes, start_takes, finish_returns,
}

order_enqueued :
    (f t q d : List OutboundItem) (item : OutboundItem)
    → d ≡ []
    → (f ++ (t ++ (q ++ d))) ++ (item ∷ []) ≡ f ++ (t ++ ((q ++ (item ∷ [])) ++ d))
order_enqueued f t q d item e =
    subst (λ k. (f ++ (t ++ (q ++ k))) ++ (item ∷ []) ≡ f ++ (t ++ ((q ++ (item ∷ [])) ++ k)))
      (sym e) (simp (append_assoc, append-nil) refl)

pub step_enqueues :
    (c : ServerConfig) (x : SendPath) (item : OutboundItem)
    → Inv c x
    → x.sends.disconnect_started ≡ false
    → (enqueue_section c x.sends item).0 ≡ true
    → Inv c (record x {
      sends = (enqueue_section c x.sends item).1;
      starters = x.starters + wake x.sends.write_active;
      accepted = x.accepted ++ (item ∷ []);
    })
step_enqueues c x item v f e =
    subst
      (λ p. Inv c (record x {
        sends = p;
        starters = x.starters + wake x.sends.write_active;
        accepted = x.accepted ++ (item ∷ []);
      }))
      (sym (enqueue_takes c x.sends item v.limits.0 v.limits.1 e).0)
      record {
        counted = ground (arith, bytes_of-append x.sends.send_queue (item ∷ []), v.counted);
        global = ground (arith, v.global);
        session_within = (enqueue_takes c x.sends item v.limits.0 v.limits.1 e).1;
        global_within = (enqueue_takes c x.sends item v.limits.0 v.limits.1 e).2;
        limits = v.limits;
        single = ground (arith, v.single, v.active);
        active = ground (arith, v.single, v.active);
        order =
            ap (λ k. k ++ (item ∷ [])) v.order
            ∙ order_enqueued x.finished x.taken x.sends.send_queue x.dropped item
                (ground (arith, v.open_queue, f));
        open_queue = v.open_queue;
        drains = ground (arith, f);
      }

pub step_starts_nothing :
    (c : ServerConfig) (x : SendPath) (n : ℕ)
    → Inv c x
    → x.starters ≡ suc n
    → x.sends.send_queue ≡ []
    → Inv c (record x { sends = start_section x.sends; starters = n })
unfolding start_section
step_starts_nothing c x n v e f = ground (
  arith, v.counted, v.global, v.session_within, v.global_within, v.limits, v.single, v.active,
  v.order, v.open_queue, v.drains,
)

pub step_starts :
    (c : ServerConfig) (x : SendPath) (n : ℕ) (item : OutboundItem) (rest : List OutboundItem)
    → Inv c x
    → x.starters ≡ suc n
    → x.sends.send_queue ≡ item ∷ rest
    → Inv c
        (record x { sends = start_section x.sends; starters = n; taken = x.taken ++ (item ∷ []) })
step_starts c x n item rest v e f =
    subst (λ p. Inv c (record x { sends = p; starters = n; taken = x.taken ++ (item ∷ []) }))
      (sym (start_takes x.sends item rest f))
      record {
        counted = ground (arith, bytes_of-append x.taken (item ∷ []), v.counted, f);
        global = v.global;
        session_within = v.session_within;
        global_within = v.global_within;
        limits = v.limits;
        single = ground (arith, length-append x.taken (item ∷ []), v.single, e);
        active = ground (arith, length-append x.taken (item ∷ []), v.active, e, f);
        order =
            v.order
            ∙ ap (λ q. x.finished ++ (x.taken ++ (q ++ x.dropped))) f
            ∙ ap (λ q. x.finished ++ q)
                (sym (append_assoc x.taken (item ∷ []) (rest ++ x.dropped)));
        open_queue = v.open_queue;
        drains = ground (arith, v.drains, f);
      }

pub step_finishes :
    (c : ServerConfig) (x : SendPath) (item : OutboundItem) (rest : List OutboundItem) (a b : ℕ)
    → a + b ≡ x.starters + x.failing + 1
    → a ≤ x.starters + 1
    → b ≤ x.failing + 1
    → Inv c x
    → x.taken ≡ item ∷ rest
    → Inv c (record x {
      sends = finish_section x.sends (item_bytes item);
      taken = rest;
      starters = a;
      failing = b;
      finished = x.finished ++ (item ∷ []);
    })
step_finishes c x item rest a b k l m v e =
    subst
      (λ p. Inv c (record x {
        sends = p;
        taken = rest;
        starters = a;
        failing = b;
        finished = x.finished ++ (item ∷ []);
      }))
      (sym (
        finish_returns x.sends item (ground (arith, v.counted, e))
          (ground (arith, v.counted, v.global, v.limits, v.global_within, e))))
      record {
        counted = ground (arith, v.counted, e);
        global = ground (arith, v.global, v.counted, e);
        session_within = omega (arith, v.session_within);
        global_within = omega (arith, v.global_within);
        limits = v.limits;
        single = ground (arith, v.single, e, k, l, m);
        active = ground (arith, v.active, v.single, e, k, l, m);
        order =
            v.order
            ∙ ap (λ t. x.finished ++ (t ++ (x.sends.send_queue ++ x.dropped))) e
            ∙ sym (append_assoc x.finished (item ∷ []) (rest ++ (x.sends.send_queue ++ x.dropped)));
        open_queue = v.open_queue;
        drains = v.drains;
      }

pub step_disconnects :
    (c : ServerConfig) (x : SendPath)
    → Inv c x
    → x.sends.disconnect_started ≡ false
    → Inv c (record x {
      sends = record x.sends { disconnect_started = true };
      failing = x.failing - 1;
      clearing = true;
    })
step_disconnects c x v e = ground (
  arith, v.counted, v.global, v.session_within, v.global_within, v.limits, v.single, v.active,
  v.order, v.open_queue, v.drains,
)

pub step_clears :
    (c : ServerConfig) (x : SendPath)
    → Inv c x
    → x.clearing ≡ true
    → Inv c (record x {
      sends = clear_section x.sends;
      clearing = false;
      dropped = x.sends.send_queue ++ x.dropped;
    })
unfolding clear_section
step_clears c x v e = record {
  counted = ground (arith, cleared.0, v.counted);
  global = ground (arith, cleared, v.counted, v.global);
  session_within = ground (arith, cleared, v.counted, v.session_within);
  global_within = ground (arith, cleared, v.counted, v.global_within);
  limits = v.limits;
  single = v.single;
  active = ground (arith, v.active, rest);
  order = v.order;
  open_queue = ground (arith, v.open_queue, v.active, rest, e);
  drains = inr (inr refl);
}
  where
    cleared :
        ((clear_each x.sends x.sends.send_queue).queued_bytes ≡ bytes_of x.taken)
        × ((clear_each x.sends x.sends.send_queue).global_bytes ≡ bytes_of x.taken + x.others)
    cleared =
        clear_each_counts x.sends x.sends.send_queue (bytes_of x.taken)
          (bytes_of x.taken + x.others) v.counted (omega (arith, v.global, v.counted))
          (omega (arith, v.limits.0, v.counted, v.session_within))
          (omega (arith, v.limits.1, v.counted, v.global, v.global_within))

    rest :
        ((clear_each x.sends x.sends.send_queue).disconnect_started ≡ x.sends.disconnect_started)
        × ((clear_each x.sends x.sends.send_queue).write_active ≡ x.sends.write_active)
    rest = clear_each_rest x.sends x.sends.send_queue

pub step_elsewhere :
    (c : ServerConfig) (x : SendPath) (n : ℕ)
    → Inv c x
    → x.sends.queued_bytes + n ≤ c.max_global_queued_bytes
    → Inv c (record x {
      sends = record x.sends { global_bytes = x.sends.queued_bytes + n };
      others = n;
    })
step_elsewhere c x n v e = record {
  counted = v.counted;
  global = refl;
  session_within = v.session_within;
  global_within = e;
  limits = v.limits;
  single = v.single;
  active = v.active;
  order = v.order;
  open_queue = v.open_queue;
  drains = v.drains;
}
