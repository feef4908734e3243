-- ===== src/WebSocket/Sha1.antt =====
-- `Sha1`, on 32-bit words with their wrap-around written out.
pub mod Padding
pub mod Schedule
use iocp_engine.Base.{
  ℕ, zero, suc, ◌+◌, ◌-◌, ◌*◌, ◌/◌, ◌%◌, ◌^◌, bit_and, bit_or, bit_xor, Bool, List, [], ◌∷◌, ◌++◌,
  ltb, ◌==◌, if◌then◌else◌, length, get_or, take, drop, replicate,
}
use iocp_engine.Base.Size.{mul_size, add_size}

abbrev pub word_mod : ℕ
word_mod = 2 ^ 32

-- `(value << count) | (value >> (32U - count))`
unfoldable pub rotate_left : ℕ → ℕ → ℕ
rotate_left value count = bit_or (value * 2 ^ count % word_mod) (value / 2 ^ (32 - count))

-- `~value`
abbrev pub complement : ℕ → ℕ
complement value = bit_xor value (word_mod - 1)

-- The bytes of `value`, the most significant first, each cast to a byte.
unfoldable pub be_bytes : ℕ → ℕ → List ℕ
be_bytes zero value = []
be_bytes (suc n) value = value / 2 ^ (8 * n) % 256 ∷ be_bytes n value

-- The loop `while (padded_size % 64 != 56) ++padded_size`: each round adds a zero byte.
unfoldable pub pad_zeros : ℕ → ℕ → ℕ
pad_zeros zero padded_size = padded_size
pad_zeros (suc fuel) padded_size =
    let rest = pad_zeros fuel (padded_size + 1) in
    if padded_size % 64 == 56 then padded_size else rest

-- The vector `padded`.
unfoldable pub pad : List ℕ → List ℕ
pad bytes =
    bytes
    ++ (0x80
        ∷ (replicate (pad_zeros 64 (length bytes + 1) - (length bytes + 1)) 0
            ++ be_bytes 8 (mul_size (length bytes) 8)))

unfoldable pub word_at : List ℕ → ℕ → ℕ
word_at block base =
    bit_or
      (bit_or
        (bit_or (get_or block base 0 * 2 ^ 24 % word_mod)
          (get_or block (base + 1) 0 * 2 ^ 16 % word_mod))
        (get_or block (base + 2) 0 * 2 ^ 8 % word_mod))
      (get_or block (base + 3) 0)

-- The words of a block, the newest first: so `words[index - 3]` stands at 2.
unfoldable pub first_words : ℕ → List ℕ → List ℕ
first_words zero block = []
first_words (suc n) block = word_at block (4 * n) ∷ first_words n block

unfoldable pub more_words : ℕ → List ℕ → List ℕ
more_words zero words = words
more_words (suc n) words = more_words n (
    rotate_left
      (bit_xor (bit_xor (bit_xor (get_or words 2 0) (get_or words 7 0)) (get_or words 13 0))
        (get_or words 15 0))
      1
    ∷ words)

unfoldable pub words_of : List ℕ → List ℕ
words_of block = more_words 64 (first_words 16 block)

pub record Registers : Type 0 where
  pub a : ℕ
  pub b : ℕ
  pub c : ℕ
  pub d : ℕ
  pub e : ℕ

unfoldable pub function : ℕ → Registers → ℕ
function index r =
    if ltb index 20
    then bit_or (bit_and r.b r.c) (bit_and (complement r.b) r.d)
    else if ltb index 40
    then bit_xor (bit_xor r.b r.c) r.d
    else if ltb index 60
    then bit_or (bit_or (bit_and r.b r.c) (bit_and r.b r.d)) (bit_and r.c r.d)
    else bit_xor (bit_xor r.b r.c) r.d

unfoldable pub constant : ℕ → ℕ
constant index =
    if ltb index 20
    then 0x5a827999
    else if ltb index 40
    then 0x6ed9eba1
    else if ltb index 60
    then 0x8f1bbcdc
    else 0xca62c1d6

unfoldable pub round : ℕ → List ℕ → Registers → Registers
round index words r = record {
  a =
      (rotate_left r.a 5 + function index r + r.e + constant index + get_or words (79 - index) 0)
      % word_mod;
  b = r.a;
  c = rotate_left r.b 30;
  d = r.c;
  e = r.d;
}

-- The rounds from `index` on.
unfoldable pub rounds : ℕ → ℕ → List ℕ → Registers → Registers
rounds zero index words r = r
rounds (suc n) index words r = rounds n (index + 1) words (round index words r)

unfoldable pub add_registers : Registers → Registers → Registers
add_registers h r = record {
  a = (h.a + r.a) % word_mod;
  b = (h.b + r.b) % word_mod;
  c = (h.c + r.c) % word_mod;
  d = (h.d + r.d) % word_mod;
  e = (h.e + r.e) % word_mod;
}

unfoldable pub process_block : List ℕ → Registers → Registers
process_block block h = add_registers h (rounds 80 0 (words_of block) h)

-- One round for each 64 bytes of `padded`.
unfoldable pub process_blocks : ℕ → List ℕ → Registers → Registers
process_blocks zero padded h = h
process_blocks (suc n) padded h =
    process_blocks n (drop 64 padded) (process_block (take 64 padded) h)

abbrev pub start : Registers
start = record { a = 0x67452301; b = 0xefcdab89; c = 0x98badcfe; d = 0x10325476; e = 0xc3d2e1f0 }

unfoldable pub digest_of : Registers → List ℕ
digest_of h =
    be_bytes 4 h.a ++ (be_bytes 4 h.b ++ (be_bytes 4 h.c ++ (be_bytes 4 h.d ++ be_bytes 4 h.e)))

unfoldable pub sha1 : List ℕ → List ℕ
sha1 bytes = digest_of (process_blocks (length (pad bytes) / 64) (pad bytes) start)
