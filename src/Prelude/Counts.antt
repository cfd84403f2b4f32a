-- ===== src/Prelude/Counts.antt =====
-- Lists of texts compared by how often they hold each.
use Prim.Native.Nat.{suc, ◌+◌, ◌≤◌}
use mathlib.Core.Path.{◌≡◌}
use mathlib.Core.List.{List, [], ◌∷◌}
use native.Mathlib.Omega.{arith}
use cogs_crash_refresh_job_q.Prelude.Tests.{if◌then◌else◌}
use cogs_crash_refresh_job_q.Prelude.Lists.{length}
use cogs_crash_refresh_job_q.Prelude.Strings.{Bytes, bytes_eq, bytes_eq_refl, bytes_eq_sound, count}

-- The list without one occurrence of the member.
abbrev erase_one : Bytes → List Bytes → List Bytes
erase_one x [] = []
erase_one x (y ∷ ys) = if bytes_eq y x then ys else y ∷ erase_one x ys

length-erase_one :
    (x : Bytes) (ys : List Bytes) → 1 ≤ count x ys → length ys ≡ suc (length (erase_one x ys))
unfolding count
length-erase_one x [] h = absurd (omega arith)
length-erase_one x (y ∷ ys) h = ground (arith, length-erase_one x ys)

count-erase_one :
    (x m : Bytes) (ys : List Bytes)
    → count m ys ≤ (if bytes_eq x m then 1 else 0) + count m (erase_one x ys)
unfolding count
count-erase_one x m [] = omega arith
count-erase_one x m (y ∷ ys) = ground (arith, count-erase_one x m ys, bytes_eq_sound y x)

-- A list that holds no more of each member than another is not longer.
pub length-count-le :
    (xs ys : List Bytes) → ((m : Bytes) → count m xs ≤ count m ys) → length xs ≤ length ys
unfolding count
length-count-le [] ys h = omega arith
length-count-le (x ∷ xs) ys h =
    let there : 1 ≤ count x ys = ground (arith, h x, bytes_eq_refl x) in
    let rest =
      length-count-le xs (erase_one x ys) (λ m. ground (arith, h m, count-erase_one x m ys)) in
    omega (arith, rest, length-erase_one x ys there)
