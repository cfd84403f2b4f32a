-- ===== src/Jobs/Relocate.antt =====
-- One job moves from a sorted set of its queue to another structure of the same queue: what the
-- fail script and both uses of the drain script do with an ID.
use cogs_crash_refresh_job_q.Prelude.{
  ℕ, ◌≤◌, Bytes, List, ◌∷◌, some, none, Option, ℤ, ◌≡◌, refl, present, count, arith, bytes_eq_sound,
  fun_ext, bytes_eq, Bool-cases, inl, inr,
}
use cogs_crash_refresh_job_q.Keys.{job_key, pending_key, leased_key, retry_key, dead_key}
use cogs_crash_refresh_job_q.Keys.Layout.{key_laws}
use cogs_crash_refresh_job_q.Redis.{
  View, Field, Value, queue, attempts, int, as_int, at, at_member, at_field,
}
use cogs_crash_refresh_job_q.Jobs.{places, Inv, Keeps}

pub data Source : Type 0 where
  leased retry : Source

pub data Target : Type 0 where
  pending dead : Target
  later : ℤ → Target

abbrev pub source_key : Source → Bytes → Bytes
source_key leased q = leased_key q
source_key retry q = retry_key q

abbrev pub take_from : Source → Bytes → Bytes → View → View
take_from s q id v = record v { zsets = at_member v.zsets (source_key s q) id none }

abbrev pub pushed : Target → Bytes → Bytes → (Bytes → List Bytes) → Bytes → List Bytes
pushed pending q id l = at l (pending_key q) (id ∷ l (pending_key q))
pushed dead q id l = at l (dead_key q) (id ∷ l (dead_key q))
pushed (later s) q id l = l

abbrev pub scored : Target → Bytes → Bytes → (Bytes → Bytes → Option ℤ) → Bytes → Bytes → Option ℤ
scored pending q id z = z
scored dead q id z = z
scored (later s) q id z = at_member z (retry_key q) id (some s)

abbrev pub put_into : Target → Bytes → Bytes → View → View
put_into t q id v = record v { lists = pushed t q id v.lists; zsets = scored t q id v.zsets }

-- The attempts of the job are set, or left alone.
abbrev pub counted :
    Option ℕ → Bytes → (Bytes → Field → Option Value) → Bytes → Field → Option Value
counted none id h = h
counted (some n) id h = at_field h (job_key id) attempts (some (int n))

abbrev pub set_attempts : Option ℕ → Bytes → View → View
set_attempts n id v = record v { hashes = counted n id v.hashes }

abbrev pub relocated : Source → Target → Option ℕ → Bytes → Bytes → View → View
relocated s t n q id v = put_into t q id (set_attempts n id (take_from s q id v))

module _ (q id : Bytes) (v : View) (inv : Inv v) where
  relocated-places :
      (s : Source) (t : Target) (n : Option ℕ)
      → present (v.zsets (source_key s q) id) ≡ 1
      → (q' id' : Bytes) → places (relocated s t n q id v) q' id' ≡ places v q' id'
  unfolding count
  relocated-places leased pending n held q' id' =
      simp key_laws (ground (arith, bytes_eq_sound q q', bytes_eq_sound id id', inv.once q id))
  relocated-places retry pending n held q' id' =
      simp key_laws (ground (arith, bytes_eq_sound q q', bytes_eq_sound id id', inv.once q id))
  relocated-places s t n held q' id' =
      simp key_laws (ground (arith, bytes_eq_sound q q', bytes_eq_sound id id', inv.once q id))

  counted-queue :
      (n : Option ℕ) (h : Bytes → Field → Option Value) (id' : Bytes)
      → counted n id h (job_key id') queue ≡ h (job_key id') queue
  counted-queue none h id' = refl
  counted-queue (some n) h id' = ground arith

  counted-attempts :
      (n : Option ℕ) (h : Bytes → Field → Option Value) (id' : Bytes) (m : ℕ)
      → as_int (h (job_key id') attempts) ≡ some m
      → (k : ℕ) × (as_int (counted n id h (job_key id') attempts) ≡ some k)
  counted-attempts none h id' m e = (m, e)
  counted-attempts (some n) h id' m e = elim (Bool-cases (bytes_eq (job_key id) (job_key id'))) [
    | inl same ↦ (n, rw same refl)
    | inr other ↦ (m, rw other e)
  ]

  -- A move within a queue keeps the job, and whatever its attempts are set to.
  pub relocated-Keeps :
      (s : Source) (t : Target) (n : Option ℕ)
      → present (v.zsets (source_key s q) id) ≡ 1
      → Keeps v (relocated s t n q id v)
  relocated-Keeps s t n held = record {
    same_places = relocated-places s t n held;
    same_queue = λ id'. counted-queue n v.hashes id';
    still_numbered = λ id' m e. counted-attempts n v.hashes id' m e;
  }

-- To remove a member that is not there changes nothing.
pub at_member_absent :
    (z : Bytes → Bytes → Option ℤ) (k m : Bytes) → z k m ≡ none → at_member z k m none ≡ z
at_member_absent z k m h =
    fun_ext λ j. fun_ext λ x. ground (arith, bytes_eq_sound k j, bytes_eq_sound m x)

-- What stands in a sorted set of a queue stands in the queue.
pub source_places :
    (s : Source) (q id : Bytes) (v : View)
    → present (v.zsets (source_key s q) id) ≡ 1
    → 1 ≤ places v q id
source_places leased q id v h = omega arith
source_places retry q id v h = omega arith
