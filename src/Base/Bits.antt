-- ===== src/Base/Bits.antt =====
-- `|` of disjoint fields and `&` with a mask of low bits, as arithmetic at every width.
-- The native operations are `bitwise`, a recursion over binary digits with fuel.
use Prim.Native.Nat.{digits, bitwise, bit_and-bitwise, bit_or-bitwise, bit_xor-bitwise, differ}
use native.Mathlib.Nat.{pow-suc, one-le-pow}
use iocp_engine.Base.{
  Bool, true, ◌&&◌, ◌==◌, ℕ, zero, suc, ◌+◌, ◌-◌, ◌*◌, ◌/◌, ◌%◌, ◌^◌, ◌≤◌, ◌<◌, min, max, bit_and,
  bit_or, bit_xor, ◌≡◌, refl, ap, arith,
}

module _ (z : ℕ → ℕ) (f : ℕ → ℕ → ℕ) where
  -- Fuel beyond the first number is never used.
  enough_digits : (n m a b : ℕ) → a ≤ n → a ≤ m → digits z f n a b ≡ digits z f m a b
  enough_digits zero zero zero b p q = refl
  enough_digits zero (suc m) zero b p q = refl
  enough_digits (suc n) zero zero b p q = refl
  enough_digits (suc n) (suc m) zero b p q = refl
  enough_digits zero m (suc a) b p q = absurd (omega arith)
  enough_digits (suc n) zero (suc a) b p q = absurd (omega arith)
  enough_digits (suc n) (suc m) (suc a) b p q =
      rw (enough_digits n m (suc a / 2) (b / 2) (omega arith) (omega arith))

  bitwise_digit :
      (a b : ℕ)
      → bitwise z f (suc a) b ≡ bitwise z f (suc a / 2) (b / 2) * 2 + f (suc a % 2) (b % 2)
  bitwise_digit a b =
      omega (arith, enough_digits a (suc a / 2) (suc a / 2) (b / 2) (omega arith) (omega arith))

-- One equation for the lowest digit.
or_digit : (a b : ℕ) → bit_or a b ≡ bit_or (a / 2) (b / 2) * 2 + max (a % 2) (b % 2)
or_digit zero b = simp bit_or-bitwise (omega arith)
or_digit (suc a) b = simp bit_or-bitwise (bitwise_digit (λ y. y) max a b)

and_digit : (a b : ℕ) → bit_and a b ≡ bit_and (a / 2) (b / 2) * 2 + min (a % 2) (b % 2)
and_digit zero b = simp bit_and-bitwise (omega arith)
and_digit (suc a) b = simp bit_and-bitwise (bitwise_digit (λ y. 0) min a b)

xor_digit : (a b : ℕ) → bit_xor a b ≡ bit_xor (a / 2) (b / 2) * 2 + differ (a % 2) (b % 2)
xor_digit zero b = simp bit_xor-bitwise (digit_of b (b % 2) refl)
  where
    digit_of : (b d : ℕ) → b % 2 ≡ d → b ≡ b / 2 * 2 + differ 0 d
    digit_of b d e = omega arith
xor_digit (suc a) b = simp bit_xor-bitwise (bitwise_digit (λ y. y) differ a b)

-- On digits `differ` is the distance.
differ_digits : (x y : ℕ) → x < 2 → y < 2 → differ x y ≡ x - y + (y - x)
differ_digits zero y p q = omega arith
differ_digits (suc zero) zero p q = omega arith
differ_digits (suc zero) (suc zero) p q = omega arith
differ_digits (suc zero) (suc (suc y)) p q = absurd (omega arith)
differ_digits (suc (suc x)) y p q = absurd (omega arith)

-- The digits of an exclusive or.
xor_half : (a b : ℕ) → bit_xor a b / 2 ≡ bit_xor (a / 2) (b / 2)
xor_half a b =
    omega (arith, xor_digit a b, differ_digits (a % 2) (b % 2) (omega arith) (omega arith))

xor_low : (a b : ℕ) → bit_xor a b % 2 ≡ differ (a % 2) (b % 2)
xor_low a b =
    omega (arith, xor_digit a b, differ_digits (a % 2) (b % 2) (omega arith) (omega arith))

xor_twice_below : (n a m : ℕ) → a ≤ n → m ≤ n → bit_xor (bit_xor a m) m ≡ a
xor_twice_below zero zero zero h k = refl
xor_twice_below zero (suc a) m h k = absurd (omega arith)
xor_twice_below zero zero (suc m) h k = absurd (omega arith)
xor_twice_below (suc n) a m h k = omega (
  arith,
  xor_digit (bit_xor a m) m,
  ap (λ x. bit_xor x (m / 2)) (xor_half a m),
  xor_low a m,
  ap (λ x. differ x (m % 2)) (xor_low a m),
  differ_digits (a % 2) (m % 2) (omega arith) (omega arith),
  differ_digits (differ (a % 2) (m % 2)) (m % 2)
      (omega (arith, differ_digits (a % 2) (m % 2) (omega arith) (omega arith))) (omega arith),
  xor_twice_below n (a / 2) (m / 2) (omega arith) (omega arith),
)

-- A mask applied twice is undone.
pub bit_xor_twice : (a m : ℕ) → bit_xor (bit_xor a m) m ≡ a
bit_xor_twice a m = xor_twice_below (a + m) a m (omega arith) (omega arith)

xor_below : (k a b : ℕ) → a < 2 ^ k → b < 2 ^ k → bit_xor a b < 2 ^ k
xor_below zero zero zero h j = omega arith
xor_below zero (suc a) b h j = absurd (omega arith)
xor_below zero zero (suc b) h j = absurd (omega arith)
xor_below (suc k) a b h j = omega (
  arith,
  pow-suc 2 k,
  xor_digit a b,
  differ_digits (a % 2) (b % 2) (omega arith) (omega arith),
  xor_below k (a / 2) (b / 2) (omega (arith, pow-suc 2 k)) (omega (arith, pow-suc 2 k)),
)

-- An exclusive or of bytes is a byte.
pub bit_xor-byte : (a b : ℕ) → a < 256 → b < 256 → bit_xor a b < 256
bit_xor-byte a b = xor_below 8 a b

-- With a bound on the first number, which halves at each step.
or_zero_below : (n a : ℕ) → a ≤ n → bit_or a 0 ≡ a
or_zero_below n zero h = refl
or_zero_below zero (suc a) h = absurd (omega arith)
or_zero_below (suc n) (suc a) h =
    omega (arith, or_digit (suc a) 0, or_zero_below n (suc a / 2) (omega arith))

and_zero_below : (n a : ℕ) → a ≤ n → bit_and a 0 ≡ 0
and_zero_below n zero h = refl
and_zero_below zero (suc a) h = absurd (omega arith)
and_zero_below (suc n) (suc a) h =
    omega (arith, and_digit (suc a) 0, and_zero_below n (suc a / 2) (omega arith))

times_power : (q k : ℕ) → q * 2 ^ suc k ≡ 2 * (q * 2 ^ k)
times_power q k = omega (arith, ap (λ (t : ℕ). q * t) (pow-suc 2 k))

-- `(q << k) | r` is a sum when `r` fits in `k` bits.
pub bit_or-field : (k q r : ℕ) → r < 2 ^ k → bit_or (q * 2 ^ k) r ≡ q * 2 ^ k + r
bit_or-field zero q r h = ground (arith, or_zero_below (q * 1) (q * 1) (omega arith))
bit_or-field (suc k) q r h =
    ground
      (arith, or_digit (q * 2 ^ suc k) r, times_power q k, bit_or-field k q (r / 2) (omega arith))

and_field : (k q r : ℕ) → r < 2 ^ k → bit_and (q * 2 ^ k + r) (2 ^ k - 1) ≡ r
and_field zero q r h = rw (and_zero_below (q * 1 + r) (q * 1 + r) (omega arith)) (omega arith)
and_field (suc k) q r h = ground (
  arith,
  and_digit (q * 2 ^ suc k + r) (2 ^ suc k - 1),
  times_power q k,
  pow-suc 2 k,
  and_field k q (r / 2) (omega arith),
)

-- A mask of `k` low bits is the remainder by `2 ^ k`.
pub bit_and-mask : (k a : ℕ) → bit_and a (2 ^ k - 1) ≡ a % 2 ^ k
bit_and-mask k a = ground (arith, one-le-pow k 2, and_field k (a / 2 ^ k) (a % 2 ^ k))

-- Over a small range a law of bit operations is checked by evaluation.
module _ (f g : ℕ → ℕ) where
  unfoldable pub same_below : ℕ → Bool
  same_below zero = true
  same_below (suc n) = f n == g n && same_below n

  pub same_below_sound : (n : ℕ) → same_below n ≡ true → (i : ℕ) → i < n → f i ≡ g i
  unfolding same_below
  same_below_sound zero e i h = absurd (omega arith)
  same_below_sound (suc n) e i h = ground (arith, same_below_sound n (ground arith) i)

-- `x & 0x80` of a byte, and the byte masks that the frames use.
pub byte_top : (b : ℕ) → b < 256 → bit_and b 0x80 ≡ b / 128 * 128
unfolding same_below
byte_top = same_below_sound _ _ 256 refl

pub byte_top_set : (b : ℕ) → b < 128 → bit_or 0x80 b ≡ 128 + b
unfolding same_below
byte_top_set = same_below_sound _ _ 128 refl

pub byte_reserved : (b : ℕ) → b < 256 → bit_and b 0x70 ≡ b / 16 % 8 * 16
unfolding same_below
byte_reserved = same_below_sound _ _ 256 refl

-- The masks of the UTF-8 patterns.
pub byte_top_two : (b : ℕ) → b < 256 → bit_and b 0xc0 ≡ b / 64 * 64
unfolding same_below
byte_top_two = same_below_sound _ _ 256 refl

pub byte_top_three : (b : ℕ) → b < 256 → bit_and b 0xe0 ≡ b / 32 * 32
unfolding same_below
byte_top_three = same_below_sound _ _ 256 refl

pub byte_top_four : (b : ℕ) → b < 256 → bit_and b 0xf0 ≡ b / 16 * 16
unfolding same_below
byte_top_four = same_below_sound _ _ 256 refl

pub byte_top_five : (b : ℕ) → b < 256 → bit_and b 0xf8 ≡ b / 8 * 8
unfolding same_below
byte_top_five = same_below_sound _ _ 256 refl
