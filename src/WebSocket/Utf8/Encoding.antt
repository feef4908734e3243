-- ===== src/WebSocket/Utf8/Encoding.antt =====
-- The UTF-8 encodings of Unicode scalar values, against `is_valid_utf8`.
use iocp_engine.Base.{
  ℕ, zero, suc, ◌+◌, ◌-◌, ◌*◌, ◌/◌, ◌%◌, ◌^◌, ◌≤◌, ◌<◌, ◌≡◌, ◌↔◌, ◌⊎◌, inl, inr, refl, subst, ap,
  ◌∙◌, true, ◌&&◌, List, [], ◌∷◌, ◌++◌, ltb, leb, if◌then◌else◌, none, some, length, length-append,
  arith, All, All-append_right, IsByte, map, concat, dec_lt, Option-cases,
}
use iocp_engine.Base.Bits.{
  bit_and-mask, bit_or-field, byte_top_two, byte_top_three, byte_top_four, byte_top_five,
}
use iocp_engine.WebSocket.Utf8.{
  trail, lead, is_bad_codepoint, skip_codepoint, valid_on, is_true, is_valid_utf8,
}

-- RFC 3629, section 3.
abbrev pub Scalar : ℕ → Type 0
Scalar c = (c < 0xd800) ⊎ (0xe000 ≤ c) × (c ≤ 0x10ffff)

unfoldable pub encode : ℕ → List ℕ
encode c =
    if ltb c 0x80
    then c ∷ []
    else if ltb c 0x800
    then (192 + c / 64) ∷ (128 + c % 64) ∷ []
    else if ltb c 0x10000
    then (224 + c / 4096) ∷ (128 + c / 64 % 64) ∷ (128 + c % 64) ∷ []
    else (240 + c / 262144) ∷ (128 + c / 4096 % 64) ∷ (128 + c / 64 % 64) ∷ (128 + c % 64) ∷ []

lead_lem :
    (f : ℕ)
    → f < 256
    → lead f ≡ (
        if leb 192 f && ltb f 224
        then some (1, f - 192)
        else if leb 224 f && ltb f 240
        then some (2, f - 224)
        else if leb 240 f && ltb f 248
        then some (3, f - 240)
        else none)
unfolding lead
lead_lem f h = ground (
  arith,
  byte_top_three f,
  byte_top_four f,
  byte_top_five f,
  bit_and-mask 5 f,
  bit_and-mask 4 f,
  bit_and-mask 3 f,
)

trail_lem :
    (n cp b : ℕ) (rest : List ℕ)
    → b < 256
    → cp < 2 ^ 26
    → trail (suc n) cp (b ∷ rest)
      ≡ (if leb 128 b && ltb b 192 then trail n (cp * 64 + (b - 128)) rest else none)
unfolding trail
trail_lem n cp b rest h k =
    ground (arith, byte_top_two b, bit_and-mask 6 b, bit_or-field 6 cp (b % 64) (omega arith))

-- One encoded value in front of `behind`.
abbrev Encoded : List ℕ → List ℕ → Type 0
Encoded bytes behind = (c : ℕ) × Scalar c × (bytes ≡ encode c ++ behind)

sound_two :
    (a : ℕ) (rest behind : List ℕ)
    → All IsByte (a ∷ rest)
    → 192 ≤ a
    → a < 224
    → skip_codepoint (a ∷ rest) ≡ some behind
    → Encoded (a ∷ rest) behind
unfolding skip_codepoint is_bad_codepoint encode
sound_two a [] behind h p q e = absurd (ground (arith, lead_lem a h.0))
sound_two a (b ∷ r) behind h p q e = (
  (a - 192) * 64 + (b - 128),
  ground (arith, lead_lem a h.0, trail_lem 0 (a - 192) b r h.1.0),
  ground (arith, lead_lem a h.0, trail_lem 0 (a - 192) b r h.1.0),
)

sound_three :
    (a : ℕ) (rest behind : List ℕ)
    → All IsByte (a ∷ rest)
    → 224 ≤ a
    → a < 240
    → skip_codepoint (a ∷ rest) ≡ some behind
    → Encoded (a ∷ rest) behind
unfolding skip_codepoint is_bad_codepoint encode
sound_three a [] behind h p q e = absurd (ground (arith, lead_lem a h.0))
sound_three a (b ∷ []) behind h p q e = absurd (ground (arith, lead_lem a h.0))
sound_three a (b ∷ c ∷ r) behind h p q e = (
  (a - 224) * 4096 + (b - 128) * 64 + (c - 128),
  ground (
    arith,
    lead_lem a h.0,
    trail_lem 1 (a - 224) b (c ∷ r) h.1.0,
    trail_lem 0 ((a - 224) * 64 + (b - 128)) c r h.1.1.0,
  ),
  ground (
    arith,
    lead_lem a h.0,
    trail_lem 1 (a - 224) b (c ∷ r) h.1.0,
    trail_lem 0 ((a - 224) * 64 + (b - 128)) c r h.1.1.0,
  ),
)

sound_four :
    (a : ℕ) (rest behind : List ℕ)
    → All IsByte (a ∷ rest)
    → 240 ≤ a
    → a < 248
    → skip_codepoint (a ∷ rest) ≡ some behind
    → Encoded (a ∷ rest) behind
unfolding skip_codepoint is_bad_codepoint encode
sound_four a [] behind h p q e = absurd (ground (arith, lead_lem a h.0))
sound_four a (b ∷ []) behind h p q e = absurd (ground (arith, lead_lem a h.0))
sound_four a (b ∷ c ∷ []) behind h p q e = absurd (ground (arith, lead_lem a h.0))
sound_four a (b ∷ c ∷ d ∷ r) behind h p q e =
    let one = trail_lem 2 (a - 240) b (c ∷ d ∷ r) h.1.0 in
    let two = trail_lem 1 ((a - 240) * 64 + (b - 128)) c (d ∷ r) h.1.1.0 in
    let three = trail_lem 0 (((a - 240) * 64 + (b - 128)) * 64 + (c - 128)) d r h.1.1.1.0 in
    (
      (a - 240) * 262144 + (b - 128) * 4096 + (c - 128) * 64 + (d - 128),
      ground (arith, lead_lem a h.0, one, two, three),
      ground (arith, lead_lem a h.0, one, two, three),
    )

-- What is skipped is one encoded scalar value.
skip_sound :
    (bytes behind : List ℕ)
    → All IsByte bytes
    → skip_codepoint bytes ≡ some behind
    → Encoded bytes behind
skip_sound [] behind h e = unfold skip_codepoint in cc
skip_sound (a ∷ rest) behind h e = elim (dec_lt a 128) [
  | yes p ↦ (a, inl (omega arith), unfold skip_codepoint encode in ground arith)
  | no p ↦ elim (dec_lt a 192) [
    | yes q ↦ absurd (unfold skip_codepoint in ground (arith, lead_lem a h.0))
    | no q ↦ elim (dec_lt a 224) [
      | yes r ↦ sound_two a rest behind h (omega arith) r e
      | no r ↦ elim (dec_lt a 240) [
        | yes s ↦ sound_three a rest behind h (omega arith) s e
        | no s ↦ elim (dec_lt a 248) [
          | yes t ↦ sound_four a rest behind h (omega arith) t e
          | no t ↦ absurd (unfold skip_codepoint in ground (arith, lead_lem a h.0))
        ]
      ]
    ]
  ]
]

-- An encoded scalar value is skipped.
skip_encode : (c : ℕ) (rest : List ℕ) → Scalar c → skip_codepoint (encode c ++ rest) ≡ some rest
skip_encode c rest s = elim (dec_lt c 0x80) [
  | yes p ↦ unfold skip_codepoint encode in ground arith
  | no p ↦ elim (dec_lt c 0x800) [
    | yes q ↦
        unfold skip_codepoint encode is_bad_codepoint in
        ground (arith, lead_lem (192 + c / 64), trail_lem 0 (c / 64) (128 + c % 64) rest)
    | no q ↦ elim (dec_lt c 0x10000) [
      | yes r ↦
          unfold skip_codepoint encode is_bad_codepoint in
          ground (
            arith,
            lead_lem (224 + c / 4096),
            trail_lem 1 (c / 4096) (128 + c / 64 % 64) ((128 + c % 64) ∷ rest),
            trail_lem 0 (c / 64) (128 + c % 64) rest,
          )
      | no r ↦
          unfold skip_codepoint encode is_bad_codepoint in
          ground (
            arith,
            lead_lem (240 + c / 262144),
            trail_lem 2 (c / 262144) (128 + c / 4096 % 64)
                ((128 + c / 64 % 64) ∷ (128 + c % 64) ∷ rest),
            trail_lem 1 (c / 4096) (128 + c / 64 % 64) ((128 + c % 64) ∷ rest),
            trail_lem 0 (c / 64) (128 + c % 64) rest,
          )
    ]
  ]
]

encode-cons : (c : ℕ) → (b : ℕ) × (bs : List ℕ) × (encode c ≡ b ∷ bs)
encode-cons c = elim (dec_lt c 0x80) [
  | yes p ↦ (c, [], unfold encode in ground arith)
  | no p ↦ elim (dec_lt c 0x800) [
    | yes q ↦ (192 + c / 64, (128 + c % 64) ∷ [], unfold encode in ground arith)
    | no q ↦ elim (dec_lt c 0x10000) [
      | yes r ↦
          (224 + c / 4096, (128 + c / 64 % 64) ∷ (128 + c % 64) ∷ [], unfold encode in ground arith)
      | no r ↦ (
        240 + c / 262144,
        (128 + c / 4096 % 64) ∷ (128 + c / 64 % 64) ∷ (128 + c % 64) ∷ [],
        unfold encode in ground arith,
      )
    ]
  ]
]

-- A text: the encodings of some scalar values, one after the other.
abbrev pub Text : List ℕ → Type 0
Text bytes = (cs : List ℕ) × All Scalar cs × (bytes ≡ concat (map encode cs))

skip_shorter : (bytes behind : List ℕ) → Encoded bytes behind → length behind < length bytes
skip_shorter bytes behind (c, s, e) =
    let (b, bs, k) = encode-cons c in
    omega (arith, ap {B = ℕ} length e, ap {B = ℕ} length k, length-append (encode c) behind)

valid_on-Text :
    (fuel : ℕ) (bytes : List ℕ)
    → All IsByte bytes
    → length bytes ≤ fuel
    → is_true (valid_on fuel bytes) ≡ true
    → Text bytes
unfolding valid_on
valid_on-Text fuel [] h k e = ([], tt, refl)
valid_on-Text zero (a ∷ rest) h k e = absurd (omega arith)
valid_on-Text (suc fuel) (a ∷ rest) h k e = elim (Option-cases (skip_codepoint (a ∷ rest))) [
  | inl stop ↦ absurd (ground arith)
  | inr (behind, go) ↦
      let (c, s, q) = skip_sound (a ∷ rest) behind h go in
      let ih =
        valid_on-Text fuel behind
          (All-append_right IsByte (encode c) behind (subst (All IsByte) q h))
          (omega (arith, skip_shorter (a ∷ rest) behind (c, s, q))) (ground arith) in
      (c ∷ ih.0, (s, ih.1), q ∙ ap (◌++◌ (encode c)) ih.2)
]

Text-valid_on :
    (fuel : ℕ) (cs bytes : List ℕ)
    → All Scalar cs
    → bytes ≡ concat (map encode cs)
    → length bytes ≤ fuel
    → valid_on fuel bytes ≡ some true
unfolding valid_on
Text-valid_on fuel cs [] s e k = refl
Text-valid_on fuel [] (a ∷ rest) s e k = absurd (ground arith)
Text-valid_on zero (c ∷ cs) (a ∷ rest) s e k = absurd (omega arith)
Text-valid_on (suc fuel) (c ∷ cs) (a ∷ rest) s e k =
    let skipped : skip_codepoint (a ∷ rest) ≡ some (concat (map encode cs)) =
      ap skip_codepoint e ∙ skip_encode c (concat (map encode cs)) s.0 in
    rw (skipped, valid_on)
      (Text-valid_on fuel cs (concat (map encode cs)) s.1 refl
        (omega (arith, skip_shorter (a ∷ rest) (concat (map encode cs)) (c, s.0, e))))

-- `IsValidUtf8` accepts a byte string exactly when it is the UTF-8 encoding of a sequence of Unicode
-- scalar values: no overlong form, no surrogate, nothing past U+10FFFF and no cut sequence passes.
pub is_valid_utf8_iff :
    (bytes : List ℕ) → All IsByte bytes → (is_valid_utf8 bytes ≡ true) ↔ Text bytes
unfolding is_valid_utf8
is_valid_utf8_iff bytes h = (
  valid_on-Text (length bytes) bytes h (omega arith),
  λ t. ap is_true (Text-valid_on (length bytes) t.0 bytes t.1 t.2 (omega arith)),
)
