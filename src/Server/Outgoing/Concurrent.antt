-- ===== src/Server/Outgoing/Concurrent.antt =====
-- The send path of one session under all interleavings of its threads: any number of them call
-- `Enqueue`, while completions, `StartNextWrite` and `Disconnect` run. A step is one section under
-- `send_mutex`. `Disconnect` sets its flag outside the mutex; an `Enqueue` that read the flag before
-- is the same as one that ran before, since the clearing section waits for the mutex.
pub mod Effects
pub mod Steps
pub mod Accounting
use iocp_engine.Base.{
  ℕ, zero, suc, ◌+◌, ◌-◌, ◌^◌, ◌≤◌, ◌<◌, ◌≡◌, ◌⊎◌, inl, inr, refl, ap, sym, subst, ◌∙◌, Bool, true,
  false, List, [], ◌∷◌, ◌++◌, length, length-append, arith, append_assoc, append-nil, if◌then◌else◌,
}
use iocp_engine.Base.Size.{sub_size, sub_size-le}
use iocp_engine.Server.{ServerConfig, OutboundItem, item_bytes}
use iocp_engine.Server.Outgoing.Sections.{
  SendState, reserve_global, enqueue_section, start_section, finish_section, clear_each,
  clear_section,
}

abbrev pub bytes_of : List OutboundItem → ℕ
bytes_of [] = 0
bytes_of (i ∷ is) = item_bytes i + bytes_of is

-- `starters`: threads about to run the section of `StartNextWrite`. `taken`: items whose write is
-- under way. `failing`: threads about to call `Disconnect` after a last or failed write. `clearing`:
-- whether `Disconnect` has still to clear the queue. `others`: bytes of the other sessions.
-- The last three fields record the history.
pub record SendPath : Type 0 where
  pub sends : SendState
  pub starters : ℕ
  pub taken : List OutboundItem
  pub failing : ℕ
  pub clearing : Bool
  pub others : ℕ
  pub accepted : List OutboundItem
  pub finished : List OutboundItem
  pub dropped : List OutboundItem

abbrev pub wake : Bool → ℕ
wake active = if active then 0 else 1

pub data Step (c : ServerConfig) (x : SendPath) (y : SendPath) : Type 0 where
  enqueues :
      (item : OutboundItem)
      → x.sends.disconnect_started ≡ false
      → (enqueue_section c x.sends item).0 ≡ true
      → y ≡ record x {
        sends = (enqueue_section c x.sends item).1;
        starters = x.starters + wake x.sends.write_active;
        accepted = x.accepted ++ (item ∷ []);
      }
      → Step c x y
  starts_nothing :
      (n : ℕ)
      → x.starters ≡ suc n
      → x.sends.send_queue ≡ []
      → y ≡ record x { sends = start_section x.sends; starters = n }
      → Step c x y
  starts :
      (n : ℕ) (item : OutboundItem) (rest : List OutboundItem)
      → x.starters ≡ suc n
      → x.sends.send_queue ≡ item ∷ rest
      → y ≡ record x { sends = start_section x.sends; starters = n; taken = x.taken ++ (item ∷ []) }
      → Step c x y
  finishes :
      (item : OutboundItem) (rest : List OutboundItem)
      → x.taken ≡ item ∷ rest
      → y ≡ record x {
        sends = finish_section x.sends (item_bytes item);
        taken = rest;
        starters = x.starters + 1;
        finished = x.finished ++ (item ∷ []);
      }
      → Step c x y
  stops :
      (item : OutboundItem) (rest : List OutboundItem)
      → x.taken ≡ item ∷ rest
      → y ≡ record x {
        sends = finish_section x.sends (item_bytes item);
        taken = rest;
        failing = x.failing + 1;
        finished = x.finished ++ (item ∷ []);
      }
      → Step c x y
  disconnects :
      y ≡ record x {
        sends = record x.sends { disconnect_started = true };
        failing = x.failing - 1;
        clearing = true;
      }
      → x.sends.disconnect_started ≡ false
      → Step c x y
  clears :
      x.clearing ≡ true
      → y ≡ record x {
        sends = clear_section x.sends;
        clearing = false;
        dropped = x.sends.send_queue ++ x.dropped;
      }
      → Step c x y
  elsewhere :
      (n : ℕ)
      → x.sends.queued_bytes + n ≤ c.max_global_queued_bytes
      → y ≡ record x {
        sends = record x.sends { global_bytes = x.sends.queued_bytes + n };
        others = n;
      }
      → Step c x y

pub record Inv (c : ServerConfig) (x : SendPath) : Type 0 where
  pub counted : x.sends.queued_bytes ≡ bytes_of x.sends.send_queue + bytes_of x.taken
  pub global : x.sends.global_bytes ≡ x.sends.queued_bytes + x.others
  pub session_within : x.sends.queued_bytes ≤ c.max_session_queued_bytes
  pub global_within : x.sends.global_bytes ≤ c.max_global_queued_bytes
  pub limits : (c.max_session_queued_bytes < 2 ^ 63) × (c.max_global_queued_bytes < 2 ^ 63)
  pub single : x.starters + length x.taken ≤ 1
  pub active :
      (x.sends.write_active ≡ true)
        × ((0 < x.starters + length x.taken + x.failing) ⊎ (x.sends.disconnect_started ≡ true))
      ⊎ (x.sends.write_active ≡ false)
        × (x.starters + length x.taken ≡ 0)
        × (x.sends.send_queue ≡ [])
  pub order : x.accepted ≡ x.finished ++ (x.taken ++ (x.sends.send_queue ++ x.dropped))
  pub open_queue : (x.dropped ≡ []) × (x.clearing ≡ false) ⊎ (x.sends.disconnect_started ≡ true)
  pub drains :
      (x.sends.disconnect_started ≡ false) ⊎ ((x.clearing ≡ true) ⊎ (x.sends.send_queue ≡ []))

-- An accepted session before its first message.
abbrev pub fresh : ℕ → SendPath
fresh n = record {
  sends = record {
    disconnect_started = false;
    send_queue = [];
    queued_bytes = 0;
    write_active = false;
    global_bytes = n;
  };
  starters = 0;
  taken = [];
  failing = 0;
  clearing = false;
  others = n;
  accepted = [];
  finished = [];
  dropped = [];
}

pub data Reach (c : ServerConfig) (n : ℕ) : SendPath → Type 0 where
  begins : Reach c n (fresh n)
  goes : {x y : SendPath} → Reach c n x → Step c x y → Reach c n y
