-- ===== src/Redis/Memory/Lists.antt =====
-- The members that are due, and the first of them.
use cogs_crash_refresh_job_q.Prelude.{
  ℕ, zero, suc, ◌≤◌, ◌<◌, List, [], ◌∷◌, Bytes, some, ℤ, ◌≤ℤ◌, leb_ℤ, ◌≡◌, refl, ap, if◌then◌else◌,
  length, take, bytes_eq, count, arith, Bool-cases, inl, inr,
}
use cogs_crash_refresh_job_q.Redis.{score_of}
use cogs_crash_refresh_job_q.Redis.Memory.{names}

unfoldable pub due_of : ℤ → List (Bytes × ℤ) → List Bytes
due_of now [] = []
due_of now ((x, s) ∷ l) = if leb_ℤ s now then x ∷ due_of now l else due_of now l

due_le : (now : ℤ) (m : Bytes) (l : List (Bytes × ℤ)) → count m (due_of now l) ≤ count m (names l)
unfolding due_of count
due_le now m [] = omega arith
due_le now m ((x, s) ∷ l) = ground (arith, due_le now m l)

pub due_once :
    (now : ℤ) (m : Bytes) (l : List (Bytes × ℤ))
    → count m (names l) ≤ 1
    → count m (due_of now l) ≤ 1
due_once now m l once = omega (arith, due_le now m l)

pub due_in :
    (now : ℤ) (m : Bytes) (l : List (Bytes × ℤ))
    → count m (names l) ≤ 1
    → 1 ≤ count m (due_of now l)
    → (s : ℤ) × (score_of m l ≡ some s) × (s ≤ℤ now)
unfolding due_of count
due_in now m [] once h = absurd (omega arith)
due_in now m ((x, s) ∷ l) once h = elim (Bool-cases (bytes_eq x m)) [
  | inl same ↦ (s, ground (arith, same), ground (arith, same, due_le now m l))
  | inr other ↦
      let (t, e, le) = due_in now m l (ground (arith, other)) (ground (arith, other)) in
      (t, ground (arith, other, e), le)
]

pub due_all :
    (now : ℤ) (m : Bytes) (l : List (Bytes × ℤ)) (s : ℤ)
    → score_of m l ≡ some s
    → s ≤ℤ now
    → 1 ≤ count m (due_of now l)
unfolding due_of count
due_all now m [] s h le = cc
due_all now m ((x, t) ∷ l) s h le = ground (arith, due_all now m l s)

pub count-take-le : (m : Bytes) (n : ℕ) (l : List Bytes) → count m (take n l) ≤ count m l
unfolding count
count-take-le m zero l = omega arith
count-take-le m (suc n) [] = omega arith
count-take-le m (suc n) (x ∷ l) = omega (arith, count-take-le m n l)

pub take_all : (n : ℕ) (l : List Bytes) → length (take n l) < n → take n l ≡ l
take_all zero l h = absurd (omega arith)
take_all (suc n) [] h = refl
take_all (suc n) (x ∷ l) h = ap (◌∷◌ x) (take_all n l (omega arith))
