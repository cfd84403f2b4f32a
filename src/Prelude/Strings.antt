-- ===== src/Prelude/Strings.antt =====
-- Go strings and Lua strings: sequences of bytes, with a Boolean equality and a count in a list.
use Prim.Native.Nat.{ℕ, ◌+◌}
use Prim.Native.Char.{code}
use Prim.Native.String.{String}
use mathlib.Core.Path.{◌≡◌, refl}
use mathlib.Core.Logic.{◌↔◌, ◌≢◌}
use mathlib.Core.Bool.{Bool, true, false, ◌&&◌}
use mathlib.Core.List.{List, [], ◌∷◌, ◌++◌}
use mathlib.Core.Option.{some}
use native.Mathlib.Omega.{arith}
use cogs_crash_refresh_job_q.Prelude.Tests.{◌==◌, if◌then◌else◌}
use cogs_crash_refresh_job_q.Prelude.Lists.{get_last?, drop_last}

abbrev pub Bytes : Type 0
Bytes = List ℕ

-- The bytes of an ASCII literal.
abbrev pub codes : String → Bytes
codes String.[] = []
codes (String.◌∷◌ c s) = code c ∷ codes s

unfoldable pub bytes_eq : Bytes → Bytes → Bool
bytes_eq [] [] = true
bytes_eq [] (y ∷ ys) = false
bytes_eq (x ∷ xs) [] = false
bytes_eq (x ∷ xs) (y ∷ ys) = (x == y) && bytes_eq xs ys

pub bytes_eq_refl : (x : Bytes) → bytes_eq x x ≡ true
unfolding bytes_eq
bytes_eq_refl [] = refl
bytes_eq_refl (x ∷ xs) = ground (arith, bytes_eq_refl xs)

pub bytes_eq_sound : (x y : Bytes) → bytes_eq x y ≡ true → x ≡ y
unfolding bytes_eq
bytes_eq_sound [] [] h = refl
bytes_eq_sound [] (y ∷ ys) h = cc
bytes_eq_sound (x ∷ xs) [] h = cc
bytes_eq_sound (x ∷ xs) (y ∷ ys) h = ground (arith, bytes_eq_sound xs ys)

pub bytes_eq_iff : (x y : Bytes) → (bytes_eq x y ≡ true) ↔ (x ≡ y)
bytes_eq_iff x y = (bytes_eq_sound x y, λ e. rw e (bytes_eq_refl y))

pub bytes_eq_ne : (x y : Bytes) → x ≢ y → bytes_eq x y ≡ false
bytes_eq_ne x y h = ground (arith, bytes_eq_sound x y)

pub bytes_eq_sym : (x y : Bytes) → bytes_eq x y ≡ bytes_eq y x
bytes_eq_sym x y = ground (arith, bytes_eq_iff x y, bytes_eq_iff y x)

-- How often a member stands in a list.
unfoldable pub count : Bytes → List Bytes → ℕ
count a [] = 0
count a (x ∷ xs) = (if bytes_eq x a then 1 else 0) + count a xs

pub count-append : (a : Bytes) (xs ys : List Bytes) → count a (xs ++ ys) ≡ count a xs + count a ys
unfolding count
count-append a [] ys = omega arith
count-append a (x ∷ xs) ys = omega (arith, count-append a xs ys)

-- A list with its last element taken off has one occurrence of that element less.
pub count-drop_last :
    (a x : Bytes) (xs : List Bytes)
    → get_last? xs ≡ some x
    → count a xs ≡ (if bytes_eq x a then 1 else 0) + count a (drop_last xs)
unfolding count
count-drop_last a x [] h = cc
count-drop_last a x (y ∷ []) h = ground arith
count-drop_last a x (y ∷ z ∷ xs) h = omega (arith, count-drop_last a x (z ∷ xs) h)
