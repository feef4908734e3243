-- ===== src/WebSocket/Sha1/Padding.antt =====
-- What `Sha1` appends to the data.
use iocp_engine.Base.{
  ℕ, zero, suc, ◌+◌, ◌-◌, ◌*◌, ◌%◌, ◌^◌, ◌<◌, ◌≤◌, ◌≡◌, refl, ap, ap₂, ◌∙◌, Bool-cases, inl, inr,
  ◌==◌, ==_iff, List, ◌∷◌, ◌++◌, length, replicate, length-append, length-replicate, arith, All,
  IsByte,
}
use iocp_engine.Base.Size.{mul_size}
use iocp_engine.WebSocket.Sha1.{pad_zeros, be_bytes, pad}

-- The loop ends within as many rounds as the next size of the right remainder is away.
pad_zeros_lem :
    (fuel padded_size : ℕ)
    → (120 - padded_size % 64) % 64 < fuel
    → (pad_zeros fuel padded_size % 64 ≡ 56)
      × (padded_size ≤ pad_zeros fuel padded_size)
      × (pad_zeros fuel padded_size < padded_size + fuel)
unfolding pad_zeros
pad_zeros_lem zero s h = absurd (omega arith)
pad_zeros_lem (suc fuel) s h = elim (Bool-cases (s % 64 == 56)) [
  | inl e ↦ rw e (ground (arith, e, ==_iff (s % 64) 56))
  | inr e ↦
      let far : (120 - (s + 1) % 64) % 64 < fuel = ground (arith, e, ==_iff (s % 64) 56) in
      rw e (omega (arith, pad_zeros_lem fuel (s + 1) far))
]

pub length-be_bytes : (n value : ℕ) → length (be_bytes n value) ≡ n
unfolding be_bytes
length-be_bytes zero value = refl
length-be_bytes (suc n) value = ap suc (length-be_bytes n value)

pub be_bytes-IsByte : (n value : ℕ) → All IsByte (be_bytes n value)
unfolding be_bytes
be_bytes-IsByte zero value = tt
be_bytes-IsByte (suc n) value = (omega arith, be_bytes-IsByte n value)

-- The data, one byte 0x80, zeros and the number of bits in 8 bytes.
abbrev pub padded_with : ℕ → List ℕ → List ℕ
padded_with gap bytes = bytes ++ (0x80 ∷ (replicate gap 0 ++ be_bytes 8 (8 * length bytes)))

length-padded_with :
    (gap : ℕ) (bytes : List ℕ) → length (padded_with gap bytes) ≡ length bytes + gap + 9
length-padded_with gap bytes =
    let inner : length (replicate gap 0 ++ be_bytes 8 (8 * length bytes)) ≡ gap + 8 =
      length-append (replicate gap 0) (be_bytes 8 (8 * length bytes))
      ∙ ap₂ (λ (a b : ℕ). a + b) (length-replicate gap 0) (length-be_bytes 8 (8 * length bytes)) in
    omega (
      arith,
      length-append bytes (0x80 ∷ (replicate gap 0 ++ be_bytes 8 (8 * length bytes))),
      inner,
    )

-- Data below 2^61 bytes are padded as SHA-1 says: with a byte 0x80, the least number of zeros that fills
-- up a block of 64 bytes, and the number of bits, the most significant byte first.
pub pad-blocks :
    (bytes : List ℕ)
    → length bytes < 2 ^ 61
    → (gap : ℕ) × (pad bytes ≡ padded_with gap bytes) × (length (pad bytes) % 64 ≡ 0) × (gap < 64)
unfolding pad
pad-blocks bytes h =
    let gap : ℕ = pad_zeros 64 (length bytes + 1) - (length bytes + 1) in
    let bounds = pad_zeros_lem 64 (length bytes + 1) (omega arith) in
    let bits : mul_size (length bytes) 8 ≡ 8 * length bytes = omega arith in
    let shape : pad bytes ≡ padded_with gap bytes = rw bits refl in
    (
      gap,
      shape,
      rw shape (omega (arith, length-padded_with gap bytes, bounds)),
      omega (arith, bounds),
    )
