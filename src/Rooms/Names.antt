-- ===== src/Rooms/Names.antt =====
-- The names that rooms may have.
use iocp_engine.Base.{
  ℕ, ◌≤◌, ◌<◌, ◌≡◌, ◌↔◌, ◌⊎◌, inl, inr, refl, true, Bool-cases, List, [], ◌∷◌, ◌++◌, arith, ==_iff,
  length, All,
}
use iocp_engine.Base.Text.{starts_with}
use iocp_engine.Rooms.{Room, any_prefix, prefixes, is_room_byte, all_room_bytes, is_valid_room}

-- A letter, a digit, or one of `:`, `-`, `_`, `.`.
abbrev pub IsRoomByte : ℕ → Type 0
IsRoomByte c =
    (b'a' ≤ c) × (c ≤ b'z')
    ⊎ ((b'A' ≤ c) × (c ≤ b'Z')
        ⊎ ((b'0' ≤ c) × (c ≤ b'9') ⊎ ((c ≡ b':') ⊎ ((c ≡ b'-') ⊎ ((c ≡ b'_') ⊎ (c ≡ b'.'))))))

-- The text goes on from one of the prefixes.
abbrev pub HasPrefix : List ℕ → List (List ℕ) → Type 0
HasPrefix text [] = ⊥
HasPrefix text (p ∷ ps) = ((rest : List ℕ) × (text ≡ p ++ rest)) ⊎ HasPrefix text ps

pub starts_with_iff :
    (text p : List ℕ) → (starts_with text p ≡ true) ↔ ((rest : List ℕ) × (text ≡ p ++ rest))
unfolding starts_with
starts_with_iff text [] = (λ h. (text, refl), λ h. refl)
starts_with_iff [] (c ∷ p) = (λ h. absurd (cc), λ h. absurd (cc (h.1)))
starts_with_iff (t ∷ text) (c ∷ p) = (
  λ h.
      let (rest, e) = (starts_with_iff text p).0 (ground (arith, ==_iff t c)) in
      (rest, ground (arith, ==_iff t c, e)),
  λ (rest, e).
      let same_head : t ≡ c = cc e in
      let same_rest : text ≡ p ++ rest = cc e in
      ground (arith, ==_iff t c, same_head, (starts_with_iff text p).1 (rest, same_rest)),
)

any_prefix_iff :
    (text : List ℕ) (ps : List (List ℕ)) → (any_prefix text ps ≡ true) ↔ HasPrefix text ps
unfolding any_prefix
any_prefix_iff text [] = (λ h. cc, λ h. absurd h)
any_prefix_iff text (p ∷ ps) = (
  λ h. elim (Bool-cases (starts_with text p)) [
    | inl e ↦ inl ((starts_with_iff text p).0 e)
    | inr e ↦ inr ((any_prefix_iff text ps).0 (ground (arith, e, h)))
  ],
  λ h. elim h [
    | inl e ↦ ground (arith, (starts_with_iff text p).1 e)
    | inr e ↦ ground (arith, (any_prefix_iff text ps).1 e)
  ],
)

is_room_byte_iff : (c : ℕ) → (is_room_byte c ≡ true) ↔ IsRoomByte c
unfolding is_room_byte
is_room_byte_iff c = ground arith

all_room_bytes_iff : (cs : List ℕ) → (all_room_bytes cs ≡ true) ↔ All IsRoomByte cs
unfolding all_room_bytes
all_room_bytes_iff [] = ground arith
all_room_bytes_iff (c ∷ cs) = ground (arith, all_room_bytes_iff cs, is_room_byte_iff c)

nonempty : (room : Room) → any_prefix room prefixes ≡ true → 0 < length room
unfolding any_prefix starts_with
nonempty [] h = absurd (cc)
nonempty (c ∷ cs) h = omega arith

-- A room is valid exactly when its name goes on from one of the five prefixes, has at most 160 bytes,
-- and consists of letters, digits, and `:`, `-`, `_`, `.`.
pub is_valid_room_iff :
    (room : Room)
    → (is_valid_room room ≡ true)
      ↔ HasPrefix room prefixes × (length room ≤ 160) × All IsRoomByte room
unfolding is_valid_room
is_valid_room_iff room = (
  λ h. (
    (any_prefix_iff room prefixes).0 (ground (arith, h)),
    ground (arith, h),
    (all_room_bytes_iff room).0 (ground (arith, h)),
  ),
  λ (p, n, b).
      ground (
        arith,
        nonempty room,
        (any_prefix_iff room prefixes).1 p,
        n,
        (all_room_bytes_iff room).1 b,
      ),
)
