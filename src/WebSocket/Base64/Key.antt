-- ===== src/WebSocket/Base64/Key.antt =====
-- Which keys a client may send.
use iocp_engine.Base.{
  ℕ, ◌+◌, ◌-◌, ◌*◌, ◌<◌, ◌≤◌, ◌≡◌, ◌↔◌, ◌⊎◌, inl, inr, refl, ap, sym, ◌∙◌, true, false, Bool-cases,
  Option-cases, Option, none, some, List, [], ◌∷◌, ◌++◌, ◌==◌, ==_iff, leb, length, get_or, All,
  arith, length-append, get_or-drop, drop, drop-append,
}
use iocp_engine.WebSocket.Base64.{base64_value, count_decoded, is_sixteen, is_valid_web_socket_key}

-- A letter, a digit, `+` or `/`.
abbrev pub IsDigit : ℕ → Type 0
IsDigit c =
    (b'A' ≤ c) × (c ≤ b'Z')
    ⊎ ((b'a' ≤ c) × (c ≤ b'z') ⊎ ((b'0' ≤ c) × (c ≤ b'9') ⊎ ((c ≡ b'+') ⊎ (c ≡ b'/'))))

base64_value-IsDigit : (c d : ℕ) → base64_value c ≡ some d → IsDigit c
unfolding base64_value
base64_value-IsDigit c d e = ground arith

IsDigit-base64_value :
    (c : ℕ) → IsDigit c → ((c == b'=') ≡ false) × ((d : ℕ) × (base64_value c ≡ some d))
unfolding base64_value
IsDigit-base64_value c h = (
  ground arith,
  elim (Option-cases (base64_value c)) [ inl e ↦ absurd (ground (arith, e)) | inr (d, e) ↦ (d, e) ],
)

-- The digits that the loop reads, and how many bytes they give.
abbrev Counted : List ℕ → ℕ → ℕ → ℕ → Type 0
Counted key bits decoded n =
    (ds : List ℕ) × (rest : List ℕ) × (key ≡ ds ++ rest)
    × All IsDigit ds
    × (8 * n ≤ 8 * decoded + bits + 6 * length ds)
    × (8 * decoded + bits + 6 * length ds < 8 * n + 8)

read_on :
    (c : ℕ) (key : List ℕ) (bits decoded bits_on decoded_on n : ℕ)
    → IsDigit c
    → 8 * decoded_on + bits_on ≡ 8 * decoded + bits + 6
    → Counted key bits_on decoded_on n
    → Counted (c ∷ key) bits decoded n
read_on c key bits decoded bits_on decoded_on n d e (ds, rest, split, digits, low, high) =
    (c ∷ ds, rest, ap (λ ks. c ∷ ks) split, (d, digits), omega arith, omega arith)

count_decoded-Counted :
    (key : List ℕ) (bits decoded n : ℕ)
    → bits < 8
    → count_decoded key bits decoded ≡ some n
    → Counted key bits decoded n
unfolding count_decoded
count_decoded-Counted [] bits decoded n h e =
    let same_count : decoded ≡ n = cc e in ([], [], refl, tt, omega arith, omega arith)
count_decoded-Counted (c ∷ key) bits decoded n h e = elim (Bool-cases (c == b'=')) [
  | inl f ↦
      let same_count : decoded ≡ n = ground (arith, e, f) in
      ([], c ∷ key, refl, tt, omega arith, omega arith)
  | inr f ↦ elim (Option-cases (base64_value c)) [
    | inr (d, g) ↦ elim (Bool-cases (leb 8 (bits + 6))) [
      | inl b ↦
          read_on c key bits decoded (bits + 6 - 8) (decoded + 1) n (base64_value-IsDigit c d g)
            (ground (arith, b))
            (count_decoded-Counted key (bits + 6 - 8) (decoded + 1) n (omega arith)
              (ground (arith, e, f, g, b)))
      | inr b ↦
          read_on c key bits decoded (bits + 6) decoded n (base64_value-IsDigit c d g) (omega arith)
            (count_decoded-Counted key (bits + 6) decoded n (ground (arith, b))
              (ground (arith, e, f, g, b)))
    ]
    | inl g ↦ absurd (ground (arith, e, f, g))
  ]
]

count_digits :
    (ds rest : List ℕ) (bits decoded n : ℕ)
    → All IsDigit ds
    → bits < 8
    → 8 * n ≤ 8 * decoded + bits + 6 * length ds
    → 8 * decoded + bits + 6 * length ds < 8 * n + 8
    → count_decoded (ds ++ (b'=' ∷ rest)) bits decoded ≡ some n
unfolding count_decoded
count_digits [] rest bits decoded n a h low high = ap some (omega arith)
count_digits (c ∷ ds) rest bits decoded n a h low high =
    let (plain, (d, g)) = IsDigit-base64_value c a.0 in
    elim (Bool-cases (leb 8 (bits + 6))) [
      | inl b ↦
          rw (plain, g, b)
            (count_digits ds rest (bits + 6 - 8) (decoded + 1) n a.1 (omega arith)
              (ground (arith, b)) (ground (arith, b)))
      | inr b ↦
          rw (plain, g, b)
            (count_digits ds rest (bits + 6) decoded n a.1 (ground (arith, b)) (omega arith)
              (omega arith))
    ]

-- The key that 22 digits make.
abbrev pub IsKey : List ℕ → Type 0
IsKey key = (ds : List ℕ) × (length ds ≡ 22) × All IsDigit ds × (key ≡ ds ++ (b'=' ∷ b'=' ∷ []))

two_more :
    (rest : List ℕ)
    → length rest ≡ 2
    → get_or rest 0 0 ≡ b'='
    → get_or rest 1 0 ≡ b'='
    → rest ≡ b'=' ∷ b'=' ∷ []
two_more (a ∷ b ∷ []) n e f = rw (e, f) refl
two_more [] n e f = absurd (cc)
two_more (a ∷ []) n e f = absurd (cc)
two_more (a ∷ b ∷ c ∷ rest) n e f = absurd (cc)

is_sixteen-some : (o : Option ℕ) → is_sixteen o ≡ true → o ≡ some 16
is_sixteen-some none h = absurd (cc h)
is_sixteen-some (some n) h = ap some (ground (arith, ==_iff n 16))

read_sixteen :
    (key : List ℕ)
    → length key ≡ 24
    → get_or key 22 0 ≡ b'='
    → get_or key 23 0 ≡ b'='
    → Counted key 0 0 16
    → IsKey key
read_sixteen key n e f (ds, rest, split, digits, low, high) =
    let enough : length ds ≡ 22 = omega arith in
    let tail : drop 22 key ≡ rest = rw split (drop-append ds rest 22 (sym enough)) in
    let size : length rest ≡ 2 = omega (arith, n, ap length split, length-append ds rest) in
    let a : get_or rest 0 0 ≡ b'=' =
      sym (ap (λ ks. get_or ks 0 0) tail) ∙ get_or-drop 22 0 key 0 ∙ e in
    let b : get_or rest 1 0 ≡ b'=' =
      sym (ap (λ ks. get_or ks 1 0) tail) ∙ get_or-drop 22 1 key 0 ∙ f in
    (ds, enough, digits, split ∙ ap (λ ks. ds ++ ks) (two_more rest size a b))

key-tail :
    (key : List ℕ)
    → IsKey key
    → (length key ≡ 24) × (get_or key 22 0 ≡ b'=') × (get_or key 23 0 ≡ b'=')
key-tail key (ds, n, digits, split) =
    let tail : drop 22 key ≡ b'=' ∷ b'=' ∷ [] =
      rw split (drop-append ds (b'=' ∷ b'=' ∷ []) 22 (sym n)) in
    (
      omega (arith, n, ap length split, length-append ds (b'=' ∷ b'=' ∷ [])),
      sym (get_or-drop 22 0 key 0) ∙ ap (λ ks. get_or ks 0 0) tail,
      sym (get_or-drop 22 1 key 0) ∙ ap (λ ks. get_or ks 1 0) tail,
    )

count_key : (key : List ℕ) → IsKey key → count_decoded key 0 0 ≡ some 16
count_key key (ds, n, digits, split) =
    rw split (count_digits ds (b'=' ∷ []) 0 0 16 digits (omega arith) (omega arith) (omega arith))

-- A key is accepted exactly when it is 22 letters of the Base64 alphabet with `==` after them.
pub is_valid_web_socket_key_iff : (key : List ℕ) → (is_valid_web_socket_key key ≡ true) ↔ IsKey key
unfolding is_valid_web_socket_key
is_valid_web_socket_key_iff key = (
  λ h.
      read_sixteen key (ground (arith, ==_iff (length key) 24, h))
        (ground (arith, ==_iff (get_or key 22 0) b'=', h))
        (ground (arith, ==_iff (get_or key 23 0) b'=', h))
        (count_decoded-Counted key 0 0 16 (omega arith)
          (is_sixteen-some (count_decoded key 0 0) (ground (arith, h)))),
  λ k. ground (arith, key-tail key k, count_key key k),
)
