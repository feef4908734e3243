-- ===== src/Server/Outgoing/Concurrent/Effects.antt =====
-- The sections of Server/Outgoing/Sections.antt where no count wraps around.
use iocp_engine.Base.{
  ℕ, ◌+◌, ◌-◌, ◌^◌, ◌≤◌, ◌<◌, ◌≡◌, refl, sym, subst, true, List, [], ◌∷◌, ◌++◌, arith,
}
use iocp_engine.Base.Size.{sub_size, sub_size-le}
use iocp_engine.Server.{ServerConfig, OutboundItem, item_bytes}
use iocp_engine.Server.Outgoing.Sections.{
  SendState, reserve_global, enqueue_section, start_section, finish_section, clear_each,
}
use iocp_engine.Server.Outgoing.Concurrent.{bytes_of}

pub bytes_of-append : (is js : List OutboundItem) → bytes_of (is ++ js) ≡ bytes_of is + bytes_of js
bytes_of-append [] js = omega arith
bytes_of-append (i ∷ is) js = omega (arith, bytes_of-append is js)

pub clear_each_counts :
    (p : SendState) (items : List OutboundItem) (k g : ℕ)
    → p.queued_bytes ≡ bytes_of items + k
    → p.global_bytes ≡ bytes_of items + g
    → bytes_of items + k < 2 ^ 64
    → bytes_of items + g < 2 ^ 64
    → ((clear_each p items).queued_bytes ≡ k) × ((clear_each p items).global_bytes ≡ g)
unfolding clear_each
clear_each_counts p [] k g e f l m = (omega arith, omega arith)
clear_each_counts p (i ∷ is) k g e f l m =
    clear_each_counts
      (record p {
        global_bytes = sub_size p.global_bytes (item_bytes i);
        queued_bytes = sub_size p.queued_bytes (item_bytes i);
      })
      is k g (omega (arith, sub_size-le p.queued_bytes (item_bytes i)))
      (omega (arith, sub_size-le p.global_bytes (item_bytes i))) (omega arith) (omega arith)

pub clear_each_rest :
    (p : SendState) (items : List OutboundItem)
    → ((clear_each p items).disconnect_started ≡ p.disconnect_started)
      × ((clear_each p items).write_active ≡ p.write_active)
unfolding clear_each
clear_each_rest p [] = (refl, refl)
clear_each_rest p (i ∷ is) =
    clear_each_rest
      (record p {
        global_bytes = sub_size p.global_bytes (item_bytes i);
        queued_bytes = sub_size p.queued_bytes (item_bytes i);
      })
      is

pub enqueue_takes :
    (c : ServerConfig) (p : SendState) (item : OutboundItem)
    → c.max_session_queued_bytes < 2 ^ 63
    → c.max_global_queued_bytes < 2 ^ 63
    → (enqueue_section c p item).0 ≡ true
    → ((enqueue_section c p item).1 ≡ record p {
      queued_bytes = p.queued_bytes + item_bytes item;
      global_bytes = p.global_bytes + item_bytes item;
      send_queue = p.send_queue ++ (item ∷ []);
      write_active = true;
    })
      × (p.queued_bytes + item_bytes item ≤ c.max_session_queued_bytes)
      × (p.global_bytes + item_bytes item ≤ c.max_global_queued_bytes)
unfolding enqueue_section reserve_global
enqueue_takes c p item k l e = ground arith

pub start_takes :
    (p : SendState) (item : OutboundItem) (rest : List OutboundItem)
    → p.send_queue ≡ item ∷ rest
    → start_section p ≡ record p { send_queue = rest }
unfolding start_section
start_takes p item rest e =
    subst (λ q. start_section (record p { send_queue = q }) ≡ record p { send_queue = rest })
      (sym e) refl

pub finish_returns :
    (p : SendState) (item : OutboundItem)
    → item_bytes item ≤ p.queued_bytes
    → (item_bytes item ≤ p.global_bytes) × (p.global_bytes < 2 ^ 63)
    → finish_section p (item_bytes item) ≡ record p {
      queued_bytes = p.queued_bytes - item_bytes item;
      global_bytes = p.global_bytes - item_bytes item;
    }
unfolding finish_section
finish_returns p item k l = ground arith
