-- ===== src/Base/Keyed.antt =====
-- Keys with an equality test; maps as association lists and sets as lists of them, for the
-- `unordered_map` and `unordered_set` of the source. Their order stands for no order.
use mathlib.Core.Option.{Option, none, some}
use iocp_engine.Base.Tests.{◌==◌, ==_iff, if◌then◌else◌}
use Prim.Native.Nat.{ℕ, ◌+◌}
use mathlib.Core.Path.{◌≡◌, refl}
use mathlib.Core.Logic.{◌↔◌}
use mathlib.Core.Bool.{Bool, true, false, not, ◌&&◌, ◌||◌}
use mathlib.Core.List.{List, [], ◌∷◌}
use native.Mathlib.Omega.{arith}

pub record Key {ℓ} (K : Type ℓ) : Type ℓ where
  pub same : K → K → Bool
  pub same_iff : (a b : K) → (same a b ≡ true) ↔ (a ≡ b)

abbrev pub same {ℓ} : {K : Type ℓ} ⦃k : Key K⦄ → K → K → Bool
same ⦃k⦄ = k.same

pub same_iff {ℓ} : {K : Type ℓ} ⦃k : Key K⦄ → (a b : K) → (same a b ≡ true) ↔ (a ≡ b)
same_iff ⦃k⦄ = k.same_iff

instance abbrev pub number_key : Key ℕ
number_key = record { same = λ a b. a == b; same_iff = ==_iff }

abbrev pub same_list {ℓ} : {K : Type ℓ} ⦃k : Key K⦄ → List K → List K → Bool
same_list [] [] = true
same_list [] (b ∷ bs) = false
same_list (a ∷ as') [] = false
same_list (a ∷ as') (b ∷ bs) = same a b && same_list as' bs

pub same_list_iff {ℓ} :
    {K : Type ℓ} ⦃k : Key K⦄ → (as' bs : List K) → (same_list as' bs ≡ true) ↔ (as' ≡ bs)
same_list_iff [] [] = ground arith
same_list_iff [] (b ∷ bs) = ground arith
same_list_iff (a ∷ as') [] = ground arith
same_list_iff (a ∷ as') (b ∷ bs) = ground (arith, same_iff a b, same_list_iff as' bs)

-- A text as the list of its bytes.
instance abbrev pub text_key : Key (List ℕ)
text_key = record { same = same_list; same_iff = same_list_iff }

module _ {ℓ} {K : Type ℓ} ⦃k : Key K⦄ where
  abbrev pub contains : K → List K → Bool
  contains a [] = false
  contains a (x ∷ xs) = same x a || contains a xs

  abbrev pub count : K → List K → ℕ
  count a [] = 0
  count a (x ∷ xs) = (if same x a then 1 else 0) + count a xs

  -- `insert` of a set.
  abbrev pub add : K → List K → List K
  add a xs = if contains a xs then xs else a ∷ xs

  -- `erase` of a set.
  abbrev pub remove : K → List K → List K
  remove a [] = []
  remove a (x ∷ xs) = if same x a then remove a xs else x ∷ remove a xs

  pub contains-remove :
      (a b : K) (xs : List K) → contains b (remove a xs) ≡ (not (same a b) && contains b xs)
  contains-remove a b [] = ground arith
  contains-remove a b (x ∷ xs) =
      ground (arith, contains-remove a b xs, same_iff x a, same_iff x b, same_iff a b)

  pub contains-add : (a b : K) (xs : List K) → contains b (add a xs) ≡ (same a b || contains b xs)
  contains-add a b xs = ground (arith, same_iff a b)

  pub count-remove :
      (a b : K) (xs : List K) → count b (remove a xs) ≡ (if same a b then 0 else count b xs)
  count-remove a b [] = ground arith
  count-remove a b (x ∷ xs) =
      ground (arith, count-remove a b xs, same_iff x a, same_iff x b, same_iff a b)

  pub contains-count : (a : K) (xs : List K) → (contains a xs ≡ false) ↔ (count a xs ≡ 0)
  contains-count a [] = ground arith
  contains-count a (x ∷ xs) = ground (arith, contains-count a xs)

module _ {ℓ κ} {K : Type ℓ} {V : Type κ} ⦃k : Key K⦄ where
  abbrev pub find : K → List (K × V) → Option V
  find a [] = none
  find a ((b, v) ∷ m) = if same b a then some v else find a m

  -- `m[a] = v`
  abbrev pub assign : K → V → List (K × V) → List (K × V)
  assign a v [] = (a, v) ∷ []
  assign a v ((b, w) ∷ m) = if same b a then (a, v) ∷ m else (b, w) ∷ assign a v m

  abbrev pub erase : K → List (K × V) → List (K × V)
  erase a [] = []
  erase a ((b, w) ∷ m) = if same b a then erase a m else (b, w) ∷ erase a m

  pub find-assign :
      (a b : K) (v : V) (m : List (K × V))
      → find b (assign a v m) ≡ (if same a b then some v else find b m)
  find-assign a b v [] = refl
  find-assign a b v ((c, w) ∷ m) =
      ground (arith, find-assign a b v m, same_iff c a, same_iff c b, same_iff a b)

  pub find-erase :
      (a b : K) (m : List (K × V)) → find b (erase a m) ≡ (if same a b then none else find b m)
  find-erase a b [] = ground arith
  find-erase a b ((c, w) ∷ m) =
      ground (arith, find-erase a b m, same_iff c a, same_iff c b, same_iff a b)
