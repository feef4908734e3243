-- ===== src/Framing/Invariant.antt =====
-- What the accumulator keeps: the cursor inside the buffer, and the memory that it holds.
use iocp_engine.Base.{
  ℕ, ◌+◌, ◌-◌, ◌*◌, ◌^◌, ◌≤◌, ◌<◌, ◌≡◌, ap, ◌⊎◌, true, false, List, [], ◌++◌, arith, length,
  length-append, length-drop, drop, drop-append_le, append-nil, drop-all, All, All-append, All-drop,
  IsByte,
}
use iocp_engine.Framing.{
  Accumulator, new, compact_if_useful, buffered_bytes, append_compacted, append, reset,
}

-- The bytes that are not yet decoded.
abbrev pub pending : Accumulator → List ℕ
pending a = drop a.cursor a.buffer

-- The buffer may hold more than `max_buffered_bytes`: a decoded prefix stays until it is compacted.
pub record IsValid (a : Accumulator) : Type 0 where
  pub limits : a.max_buffered_bytes ≤ 2 ^ 61
  pub cursor_in : a.cursor ≤ length a.buffer
  pub pending_in : length a.buffer - a.cursor ≤ a.max_buffered_bytes
  pub memory : length a.buffer ≤ 4096 + 2 * a.max_buffered_bytes
  pub bytes : All IsByte a.buffer

pub new-IsValid : (m b : ℕ) → b ≤ 2 ^ 61 → IsValid (new m b)
unfolding new
new-IsValid m b h = record {
  limits = h;
  cursor_in = omega arith;
  pending_in = omega arith;
  memory = omega arith;
  bytes = tt;
}

pub reset-IsValid : (a : Accumulator) → IsValid a → IsValid (reset a)
unfolding reset
reset-IsValid a v = record {
  limits = v.limits;
  cursor_in = omega arith;
  pending_in = omega arith;
  memory = omega arith;
  bytes = tt;
}

pub buffered_bytes_lem : {a : Accumulator} → IsValid a → buffered_bytes a ≡ length (pending a)
unfolding buffered_bytes
buffered_bytes_lem {a} v = omega (arith, length-drop a.cursor a.buffer)

-- Compaction drops decoded bytes and no others, and leaves a short decoded prefix.
pub record Compacted (a b : Accumulator) : Type 0 where
  pub valid : IsValid b
  pub same_pending : pending b ≡ pending a
  pub same_limits :
      (b.max_message_bytes ≡ a.max_message_bytes)
      × (b.max_buffered_bytes ≡ a.max_buffered_bytes)
      × (b.limit_exceeded ≡ a.limit_exceeded)
  pub short_prefix :
      (b.cursor < 4096) × (b.cursor ≤ length b.buffer) ⊎ (b.cursor * 2 < length b.buffer)

pub compact-Compacted : (a : Accumulator) → IsValid a → Compacted a (compact_if_useful a)
unfolding compact_if_useful
compact-Compacted a v = ground (
  arith,
  drop-all a.cursor a.buffer,
  length-drop a.cursor a.buffer,
  All-drop IsByte a.cursor a.buffer v.bytes,
)

abbrev pub Fits : Accumulator → List ℕ → Type 0
Fits a bytes = length (pending a) + length bytes ≤ a.max_buffered_bytes

-- `b` is `a` with more bytes to decode, and the same limits.
pub record Extends (a : Accumulator) (bytes : List ℕ) (b : Accumulator) : Type 0 where
  pub valid : IsValid b
  pub grown : pending b ≡ pending a ++ bytes
  pub same_message_limit : b.max_message_bytes ≡ a.max_message_bytes
  pub same_buffer_limit : b.max_buffered_bytes ≡ a.max_buffered_bytes

append_compacted_lem :
    (a c : Accumulator) (bytes : List ℕ)
    → All IsByte bytes
    → Compacted a c
    → let (ok, b) = append_compacted c bytes in
      (Fits a bytes × (ok ≡ true) × Extends a bytes b × (b.limit_exceeded ≡ a.limit_exceeded))
      ⊎ (¬ Fits a bytes × (ok ≡ false) × Extends a [] b × (b.limit_exceeded ≡ true))
unfolding append_compacted
append_compacted_lem a c bytes h k = ground (
  arith,
  length-append c.buffer bytes,
  drop-append_le c.cursor c.buffer bytes k.valid.cursor_in,
  All-append IsByte c.buffer bytes k.valid.bytes h,
  length-drop c.cursor c.buffer,
  length-drop a.cursor a.buffer,
  append-nil (pending a),
  ap {B = ℕ} length k.same_pending,
)

-- For a valid accumulator `append` succeeds exactly when the undecoded bytes and the new ones fit
-- `max_buffered_bytes`. It then adds the new bytes behind the undecoded ones; otherwise it adds
-- nothing and marks the accumulator. On both branches the result is valid and keeps the limits.
pub append-Extends :
    (a : Accumulator) (bytes : List ℕ)
    → IsValid a
    → All IsByte bytes
    → let (ok, b) = append a bytes in
      (Fits a bytes × (ok ≡ true) × Extends a bytes b × (b.limit_exceeded ≡ a.limit_exceeded))
      ⊎ (¬ Fits a bytes × (ok ≡ false) × Extends a [] b × (b.limit_exceeded ≡ true))
unfolding append
append-Extends a bytes v h = append_compacted_lem a _ bytes h (compact-Compacted a v)
