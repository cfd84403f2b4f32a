-- ===== src/Jobs/Pass/Round.antt =====
-- What one round of a drain pass does to the sorted sets of its queue.
use cogs_crash_refresh_job_q.Prelude.{
  ℕ, Bool, true, false, Bytes, Option, none, ◌≡◌, refl, present, arith, if◌then◌else◌, bytes_eq,
  bytes_eq_refl, bytes_eq_sound,
}
use cogs_crash_refresh_job_q.Keys.{leased_key, retry_key}
use cogs_crash_refresh_job_q.Keys.Layout.{key_laws}
use cogs_crash_refresh_job_q.Redis.{View}
use cogs_crash_refresh_job_q.Scripts.{Moved, skipped, requeued, buried}
use cogs_crash_refresh_job_q.Jobs.Relocate.{
  Source, leased, retry, source_key, Target, pending, dead, later, relocated,
}
use cogs_crash_refresh_job_q.Jobs.Drain.{DrainOutcome, next_attempts}

-- Whether the ID was moved.
abbrev pub is_moved : Moved → Bool
is_moved skipped = false
is_moved requeued = true
is_moved buried = true

-- The set after one round, and whether the ID was moved.
pub one_zset :
    (s : Source) (bump : Bool) (max_retries : ℕ) (q id : Bytes) (v w : View) (m : Moved)
    → DrainOutcome s bump max_retries q id v w m
    → (id' : Bytes)
    → w.zsets (source_key s q) id'
      ≡ (if bytes_eq id id' then none else v.zsets (source_key s q) id')
one_zset s bump max_retries q id v w skipped o id' =
    rw o.1 (ground (arith, o.0, bytes_eq_sound id id'))
one_zset s bump max_retries q id v w requeued o id' = rw o.4 (simp bytes_eq_refl)
one_zset s bump max_retries q id v w buried o id' = rw o.4 (simp bytes_eq_refl)

abbrev pub put_back : Target → Bool
put_back pending = false
put_back dead = false
put_back (later t) = true

-- The other sorted set of the queue is not touched.
abbrev pub other_key : Source → Bytes → Bytes
other_key leased q = retry_key q
other_key retry q = leased_key q

pub relocated-other :
    (s : Source) (t : Target) (n : Option ℕ) (q id : Bytes) (v : View)
    → put_back t ≡ false
    → (id' : Bytes)
    → (relocated s t n q id v).zsets (other_key s q) id' ≡ v.zsets (other_key s q) id'
relocated-other leased pending n q id v h id' = simp key_laws
relocated-other leased dead n q id v h id' = simp key_laws
relocated-other retry pending n q id v h id' = simp key_laws
relocated-other retry dead n q id v h id' = simp key_laws
relocated-other s (later t) n q id v h id' = cc

pub one_other :
    (s : Source) (bump : Bool) (max_retries : ℕ) (q id : Bytes) (v w : View) (m : Moved)
    → DrainOutcome s bump max_retries q id v w m
    → (id' : Bytes) → w.zsets (other_key s q) id' ≡ v.zsets (other_key s q) id'
one_other s bump max_retries q id v w skipped o id' = rw o.1 refl
one_other s bump max_retries q id v w requeued o id' =
    rw o.4 (relocated-other s pending (next_attempts bump o.1) q id v refl id')
one_other s bump max_retries q id v w buried o id' =
    rw o.4 (relocated-other s dead (next_attempts bump o.1) q id v refl id')

pub one_moved :
    (s : Source) (bump : Bool) (max_retries : ℕ) (q id : Bytes) (v w : View) (m : Moved)
    → DrainOutcome s bump max_retries q id v w m
    → (if is_moved m then 1 else 0) ≡ present (v.zsets (source_key s q) id)
one_moved s bump max_retries q id v w skipped o = ground (arith, o.0)
one_moved s bump max_retries q id v w requeued o = ground (arith, o.0)
one_moved s bump max_retries q id v w buried o = ground (arith, o.0)
