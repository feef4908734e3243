-- ===== src/WebSocket/Sha1/Schedule.antt =====
-- The 80 words that `Sha1` makes of a block.
use iocp_engine.Base.{
  ℕ, zero, suc, ◌+◌, ◌-◌, ◌*◌, ◌%◌, ◌^◌, ◌<◌, ◌≤◌, ◌≡◌, ltb, ◌⊎◌, inl, inr, Bool-cases, ◌==◌,
  ==_iff, refl, ap, ◌∙◌, bit_or, bit_xor, List, ◌∷◌, get_or, arith, All, All-get_or, IsByte,
}
use iocp_engine.Base.Bits.{bit_or-field}
use iocp_engine.WebSocket.Sha1.{word_mod, rotate_left, word_at, first_words, more_words, words_of}

-- The word at `t` of the array.
abbrev pub word : List ℕ → ℕ → ℕ
word block t = get_or (words_of block) (79 - t) 0

-- Four bytes, the most significant first.
abbrev pub big_endian : List ℕ → ℕ → ℕ
big_endian block base =
    get_or block base 0 * 2 ^ 24
    + get_or block (base + 1) 0 * 2 ^ 16
    + get_or block (base + 2) 0 * 2 ^ 8
    + get_or block (base + 3) 0

abbrev next_word : List ℕ → ℕ → ℕ
next_word words j =
    rotate_left
      (bit_xor
        (bit_xor (bit_xor (get_or words (j + 2) 0) (get_or words (j + 7) 0))
          (get_or words (j + 13) 0))
        (get_or words (j + 15) 0))
      1

older : (n i : ℕ) (words : List ℕ) → get_or (more_words n words) (n + i) 0 ≡ get_or words i 0
unfolding more_words
older zero i words = ap (λ k. get_or words k 0) (omega arith)
older (suc n) i words =
    let e : suc n + i ≡ n + suc i = omega arith in
    rw e (older n (suc i) (next_word words 0 ∷ words))

older_at :
    (n i k : ℕ) (words : List ℕ) → k ≡ n + i → get_or (more_words n words) k 0 ≡ get_or words i 0
older_at n i k words e = rw e (older n i words)

newer :
    (n j : ℕ) (words : List ℕ)
    → j < n
    → get_or (more_words n words) j 0 ≡ next_word (more_words n words) (j + 1)
unfolding more_words
newer zero j words h = absurd (omega arith)
newer (suc n) j words h = elim (Bool-cases (j == n)) [
  | inr e ↦ newer n j (next_word words 0 ∷ words) (ground (arith, ==_iff j n))
  | inl e ↦
      let ws : List ℕ = next_word words 0 ∷ words in
      let same_place : j ≡ n = (==_iff j n).0 e in
      rw
        (
          older_at n 0 j ws (omega arith),
          older_at n 3 (j + 1 + 2) ws (omega arith),
          older_at n 8 (j + 1 + 7) ws (omega arith),
          older_at n 14 (j + 1 + 13) ws (omega arith),
          older_at n 16 (j + 1 + 15) ws (omega arith),
        )
        refl
]

first :
    (n i : ℕ) (block : List ℕ)
    → i < n
    → get_or (first_words n block) i 0 ≡ word_at block (4 * (n - 1 - i))
unfolding first_words
first zero i block h = absurd (omega arith)
first (suc n) zero block h = ap (λ k. word_at block (4 * k)) (omega arith)
first (suc n) (suc i) block h =
    first n i block (omega arith) ∙ ap (λ k. word_at block (4 * k)) (omega arith)

word_at-big_endian :
    (block : List ℕ) (base : ℕ) → All IsByte block → word_at block base ≡ big_endian block base
unfolding word_at
word_at-big_endian block base h =
    let byte = λ (i : ℕ). All-get_or IsByte block i 0 (omega arith) h in
    four (get_or block base 0) (get_or block (base + 1) 0) (get_or block (base + 2) 0)
      (get_or block (base + 3) 0) (byte base) (byte (base + 1)) (byte (base + 2)) (byte (base + 3))
  where
    four :
        (a b c d : ℕ)
        → IsByte a
        → IsByte b
        → IsByte c
        → IsByte d
        → bit_or
            (bit_or (bit_or (a * 2 ^ 24 % word_mod) (b * 2 ^ 16 % word_mod)) (c * 2 ^ 8 % word_mod))
            d
          ≡ a * 2 ^ 24 + b * 2 ^ 16 + c * 2 ^ 8 + d
    four a b c d p q r t =
        let ea : a * 2 ^ 24 % word_mod ≡ a * 2 ^ 24 = omega arith in
        let eb : b * 2 ^ 16 % word_mod ≡ b * 2 ^ 16 = omega arith in
        let ec : c * 2 ^ 8 % word_mod ≡ c * 2 ^ 8 = omega arith in
        let ab : bit_or (a * 2 ^ 24) (b * 2 ^ 16) ≡ (a * 2 ^ 8 + b) * 2 ^ 16 =
          bit_or-field 24 a (b * 2 ^ 16) (omega arith) ∙ omega arith in
        let abc : bit_or ((a * 2 ^ 8 + b) * 2 ^ 16) (c * 2 ^ 8)
            ≡ (a * 2 ^ 16 + b * 2 ^ 8 + c) * 2 ^ 8 =
          bit_or-field 16 (a * 2 ^ 8 + b) (c * 2 ^ 8) (omega arith) ∙ omega arith in
        rw (ea, eb, ec, ab, abc) (bit_or-field 8 (a * 2 ^ 16 + b * 2 ^ 8 + c) d t ∙ omega arith)

later :
    (words : List ℕ) (t : ℕ)
    → 16 ≤ t
    → t < 80
    → let at_place : ℕ → ℕ = λ i. get_or (more_words 64 words) (79 - i) 0 in
      at_place t
      ≡ rotate_left
          (bit_xor
            (bit_xor (bit_xor (at_place (t - 3)) (at_place (t - 8))) (at_place (t - 14)))
            (at_place (t - 16)))
          1
later words t h k =
    let a : 79 - (t - 3) ≡ 79 - t + 1 + 2 = omega arith in
    let b : 79 - (t - 8) ≡ 79 - t + 1 + 7 = omega arith in
    let c : 79 - (t - 14) ≡ 79 - t + 1 + 13 = omega arith in
    let d : 79 - (t - 16) ≡ 79 - t + 1 + 15 = omega arith in
    rw (a, b, c, d) (newer 64 (79 - t) words (omega arith))

-- The array of words is the message schedule of SHA-1: of a block of bytes, the first 16 words are the
-- block's, the most significant byte first, and each later one is the exclusive or of the words 3, 8, 14
-- and 16 places before it, rotated by one.
pub words_of_lem :
    (block : List ℕ) (t : ℕ)
    → All IsByte block
    → t < 80
    → ((t < 16) × (word block t ≡ big_endian block (4 * t)))
      ⊎ ((16 ≤ t)
          × (word block t
              ≡ rotate_left
                  (bit_xor
                    (bit_xor
                      (bit_xor (word block (t - 3)) (word block (t - 8)))
                      (word block (t - 14)))
                    (word block (t - 16)))
                  1))
unfolding words_of
words_of_lem block t h k = elim (Bool-cases (ltb t 16)) [
  | inl e ↦ inl (
    ground (arith, e),
    older_at 64 (15 - t) (79 - t) (first_words 16 block) (ground (arith, e))
        ∙ first 16 (15 - t) block (omega arith)
        ∙ word_at-big_endian block _ h
        ∙ ap (big_endian block) (ground (arith, e)),
  )
  | inr e ↦ inr (ground (arith, e), later (first_words 16 block) t (ground (arith, e)) k)
]
