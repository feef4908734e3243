-- ===== src/Base/Size.antt =====
-- `std::size_t` and `std::uint64_t`: 64 bits, with the wrap-around written out.
use iocp_engine.Base.{ℕ, ◌+◌, ◌-◌, ◌*◌, ◌%◌, ◌^◌, ◌≤◌, ◌<◌, ◌≡◌, arith}

abbrev pub size_mod : ℕ
size_mod = 2 ^ 64

abbrev pub add_size : ℕ → ℕ → ℕ
add_size a b = (a + b) % size_mod

-- `-` on ℕ stops at 0, so the modulus is added first.
abbrev pub sub_size : ℕ → ℕ → ℕ
sub_size a b = (a + size_mod - b) % size_mod

abbrev pub mul_size : ℕ → ℕ → ℕ
mul_size a b = (a * b) % size_mod

pub sub_size-le : (a b : ℕ) → b ≤ a → a < size_mod → sub_size a b ≡ a - b
sub_size-le a b h k = omega arith

pub add_size-fits : (a b : ℕ) → a + b < size_mod → add_size a b ≡ a + b
add_size-fits a b h = omega arith
