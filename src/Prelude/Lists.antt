-- ===== src/Prelude/Lists.antt =====
-- Lists measured by native numbers, and the ends of a list.
use Prim.Native.Nat.{ℕ, zero, suc, ◌+◌, ◌≤◌}
use mathlib.Core.Path.{◌≡◌, refl, ap}
use mathlib.Core.List.{List, [], ◌∷◌, ◌++◌, map}
use mathlib.Core.Option.{Option, none, some}
use native.Mathlib.Omega.{arith}

module _ {ℓ} {A : Type ℓ} where
  abbrev pub length : List A → ℕ
  length [] = 0
  length (x ∷ xs) = suc (length xs)

  abbrev pub take : ℕ → List A → List A
  take zero xs = []
  take (suc n) [] = []
  take (suc n) (x ∷ xs) = x ∷ take n xs

  -- The last element, which `RPOP` returns.
  abbrev pub get_last? : List A → Option A
  get_last? [] = none
  get_last? (x ∷ []) = some x
  get_last? (x ∷ y ∷ xs) = get_last? (y ∷ xs)

  -- All elements but the last.
  abbrev pub drop_last : List A → List A
  drop_last [] = []
  drop_last (x ∷ []) = []
  drop_last (x ∷ y ∷ xs) = x ∷ drop_last (y ∷ xs)

  pub length-append : (xs ys : List A) → length (xs ++ ys) ≡ length xs + length ys
  length-append [] ys = omega arith
  length-append (x ∷ xs) ys = omega (arith, length-append xs ys)

  pub length-take-le : (n : ℕ) (xs : List A) → length (take n xs) ≤ n
  length-take-le zero xs = omega arith
  length-take-le (suc n) [] = omega arith
  length-take-le (suc n) (x ∷ xs) = omega (arith, length-take-le n xs)

  pub drop_last-none : (xs : List A) → get_last? xs ≡ none → drop_last xs ≡ xs
  drop_last-none [] h = refl
  drop_last-none (x ∷ []) h = cc
  drop_last-none (x ∷ y ∷ xs) h = cc (drop_last-none (y ∷ xs) h)

  pub drop_last-some : (xs : List A) (x : A) → get_last? xs ≡ some x → xs ≡ drop_last xs ++ x ∷ []
  drop_last-some [] x h = cc
  drop_last-some (y ∷ []) x h = cc
  drop_last-some (y ∷ z ∷ xs) x h = ap (◌∷◌ y) (drop_last-some (z ∷ xs) x h)

  pub nil_of_get_last? : (xs : List A) → get_last? xs ≡ none → xs ≡ []
  nil_of_get_last? [] h = refl
  nil_of_get_last? (x ∷ []) h = cc
  nil_of_get_last? (x ∷ y ∷ xs) h = cc (nil_of_get_last? (y ∷ xs) h)

pub length-map {ℓ κ} :
    {A : Type ℓ} {B : Type κ} (f : A → B) (l : List A) → length (map f l) ≡ length l
length-map f [] = refl
length-map f (x ∷ l) = omega (arith, length-map f l)
