-- ===== src/WebSocket/Utf8.antt =====
-- `IsValidUtf8`
pub mod Encoding
use iocp_engine.Base.{
  ℕ, zero, suc, ◌+◌, ◌*◌, ◌%◌, ◌^◌, bit_and, bit_or, Bool, true, false, not, ◌&&◌, ◌||◌, List, [],
  ◌∷◌, ltb, leb, ◌==◌, if◌then◌else◌, Option, none, some, length,
}

-- The loop over the trailing bytes: `none` for a byte that does not continue the sequence, else the
-- code point and the rest.
unfoldable pub trail : ℕ → ℕ → List ℕ → Option (ℕ × List ℕ)
trail zero codepoint bytes = some (codepoint, bytes)
trail (suc n) codepoint [] = none
trail (suc n) codepoint (next ∷ rest) =
    if not (bit_and next 0xc0 == 0x80)
    then none
    else trail n (bit_or (codepoint * 2 ^ 6 % 2 ^ 32) (bit_and next 0x3f)) rest

-- How many bytes follow the first one, and its share of the code point.
unfoldable pub lead : ℕ → Option (ℕ × ℕ)
lead first =
    if bit_and first 0xe0 == 0xc0
    then some (1, bit_and first 0x1f)
    else if bit_and first 0xf0 == 0xe0
    then some (2, bit_and first 0x0f)
    else if bit_and first 0xf8 == 0xf0
    then some (3, bit_and first 0x07)
    else none

-- Overlong forms, numbers past the last code point, and surrogates.
unfoldable pub is_bad_codepoint : ℕ → ℕ → Bool
is_bad_codepoint trailing codepoint =
    trailing == 1 && ltb codepoint 0x80
    || trailing == 2 && ltb codepoint 0x800
    || trailing == 3 && ltb codepoint 0x10000
    || ltb 0x10ffff codepoint
    || leb 0xd800 codepoint && leb codepoint 0xdfff

-- One round of the outer loop: the bytes behind one encoded code point.
unfoldable pub skip_codepoint : List ℕ → Option (List ℕ)
unfolding lead trail is_bad_codepoint
skip_codepoint [] = none
skip_codepoint (first ∷ rest) = if leb first 0x7f then some rest else elim (lead first) [
  | none ↦ none
  | some (trailing, bits) ↦
      if ltb (length rest) trailing then none else elim (trail trailing bits rest) [
        | none ↦ none
        | some (codepoint, behind) ↦
            if is_bad_codepoint trailing codepoint then none else some behind
      ]
]

-- `none` means that the fuel ran out.
unfoldable pub valid_on : ℕ → List ℕ → Option Bool
valid_on fuel [] = some true
valid_on zero (first ∷ rest) = none
valid_on (suc fuel) (first ∷ rest) = elim (skip_codepoint (first ∷ rest)) [
  | none ↦ some false
  | some behind ↦ valid_on fuel behind
]

abbrev pub is_true : Option Bool → Bool
is_true none = false
is_true (some b) = b

-- Each round takes a byte at least.
unfoldable pub is_valid_utf8 : List ℕ → Bool
unfolding valid_on
is_valid_utf8 bytes = is_true (valid_on (length bytes) bytes)
