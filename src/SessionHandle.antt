-- ===== src/SessionHandle.antt =====
-- src/core/session_handle.hpp: the name of a session. The hash is the container's business.
use iocp_engine.Base.{ℕ, ◌≡◌, ◌↔◌, Bool, true, not, ◌&&◌, ◌==◌, ==_iff, arith}
use iocp_engine.Base.Keyed.{Key}

pub record SessionHandle : Type 0 where
  pub id : ℕ
  pub generation : ℕ

abbrev pub same_handle : SessionHandle → SessionHandle → Bool
same_handle a b = a.id == b.id && a.generation == b.generation

pub same_handle_iff : (a b : SessionHandle) → (same_handle a b ≡ true) ↔ (a ≡ b)
same_handle_iff a b = ground (arith, ==_iff a.id b.id, ==_iff a.generation b.generation)

instance abbrev pub handle_key : Key SessionHandle
handle_key = record { same = same_handle; same_iff = same_handle_iff }

-- `operator bool`
abbrev pub is_set : SessionHandle → Bool
is_set h = not (h.id == 0)
