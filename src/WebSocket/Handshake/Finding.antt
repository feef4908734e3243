-- ===== src/WebSocket/Handshake/Finding.antt =====
-- Where `find` finds a pattern, and the loop over the tokens of a value.
use iocp_engine.Base.{
  ℕ, zero, suc, ◌+◌, ◌<◌, ◌≤◌, ◌≡◌, ◌≢◌, refl, ◌∙◌, true, false, Bool-cases, inl, inr, ==_iff, List,
  [], ◌∷◌, ◌++◌, length, length-drop, drop, All, arith,
}
use iocp_engine.Base.Text.{starts_with}
use iocp_engine.Base.Keyed.{contains, number_key}
use iocp_engine.WebSocket.Handshake.Strings.{npos, find, contains_token}

-- An occurrence bounds what is found.
pub find_le :
    (p text : List ℕ) (o i : ℕ)
    → i < length text
    → starts_with (drop i text) p ≡ true
    → (o ≤ find p text o) × (find p text o ≤ o + i)
unfolding find
find_le p [] o i h e = absurd (omega arith)
find_le p (c ∷ text) o zero h e = rw e (omega arith, omega arith)
find_le p (c ∷ text) o (suc i) h e =
    let (low, high) = find_le p text (o + 1) i (omega arith) e in
    elim (Bool-cases (starts_with (c ∷ text) p)) [
      | inl f ↦ rw f (omega arith, omega arith)
      | inr f ↦ rw f (omega arith, omega arith)
    ]

-- What is found is an occurrence.
pub find_found :
    (p text : List ℕ) (o : ℕ)
    → find p text o ≢ npos
    → (i : ℕ) × (find p text o ≡ o + i) × (i < length text) × (starts_with (drop i text) p ≡ true)
unfolding find
find_found p [] o h = absurd (h refl)
find_found p (c ∷ text) o h = elim (Bool-cases (starts_with (c ∷ text) p)) [
  | inl f ↦ (0, rw f (omega arith), omega arith, f)
  | inr f ↦
      let on : find p (c ∷ text) o ≡ find p text (o + 1) = ground (arith, f) in
      let (i, e, k, g) = find_found p text (o + 1) (λ z. h (on ∙ z)) in
      (suc i, on ∙ e ∙ omega arith, omega arith, g)
]

pub starts_with-append : (p rest : List ℕ) → starts_with (p ++ rest) p ≡ true
unfolding starts_with
starts_with-append [] rest = refl
starts_with-append (c ∷ p) rest = ground (arith, starts_with-append p rest, ==_iff c c)

abbrev pub Without : ℕ → List ℕ → Type 0
Without c text = All (λ x. x ≢ c) text

-- The first occurrence, after a text that does not contain the pattern's first byte.
pub find-append :
    (c : ℕ) (p text rest : List ℕ) (o : ℕ)
    → Without c text
    → find (c ∷ p) (text ++ ((c ∷ p) ++ rest)) o ≡ o + length text
unfolding find
find-append c p [] rest o h = rw (starts_with-append (c ∷ p) rest) (omega arith)
find-append c p (x ∷ text) rest o h =
    let plain : starts_with (x ∷ (text ++ ((c ∷ p) ++ rest))) (c ∷ p) ≡ false =
      unfold starts_with in ground (arith, h.0, ==_iff x c) in
    rw plain (find-append c p text rest (o + 1) h.1 ∙ omega arith)

pub find-absent : (c : ℕ) (p text : List ℕ) (o : ℕ) → Without c text → find (c ∷ p) text o ≡ npos
unfolding find
find-absent c p [] o h = refl
find-absent c p (x ∷ text) o h =
    let plain : starts_with (x ∷ text) (c ∷ p) ≡ false =
      unfold starts_with in ground (arith, h.0, ==_iff x c) in
    rw plain (find-absent c p text (o + 1) h.1)

-- By a test.
pub Without-contains : (c : ℕ) (text : List ℕ) → contains c text ≡ false → Without c text
Without-contains c [] h = tt
Without-contains c (x ∷ text) h =
    (λ e. ground (arith, e, h, ==_iff x c), Without-contains c text (ground (arith, h)))

-- More fuel than the value has bytes makes no difference to the loop over the tokens.
contains_token-fuel :
    (n m : ℕ) (value expected : List ℕ)
    → length value < n
    → length value < m
    → contains_token n value expected ≡ contains_token m value expected
unfolding contains_token
contains_token-fuel zero m value expected h k = absurd (omega arith)
contains_token-fuel (suc n) zero value expected h k = absurd (omega arith)
contains_token-fuel (suc n) (suc m) [] expected h k = refl
contains_token-fuel (suc n) (suc m) (c ∷ value) expected h k =
    let rest : List ℕ = drop (find (b',' ∷ []) (c ∷ value) 0 + 1) (c ∷ value) in
    let shorter : length rest < length (c ∷ value) =
      omega (arith, length-drop (find (b',' ∷ []) (c ∷ value) 0 + 1) (c ∷ value)) in
    rw (contains_token-fuel n m rest expected (omega (arith, shorter)) (omega (arith, shorter)))
      refl
