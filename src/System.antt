-- ===== src/System.antt =====
-- The whole server as Redis sees it: handlers, background loops, schedulers and elections of any
-- number of processes are a sequence of atomic steps on one keyspace. A crash between two steps
-- leaves the keyspace as the last step left it.
pub mod Survival
pub mod Runs
pub mod Leases
pub mod Firing
pub mod Markers
pub mod Poison
use cogs_crash_refresh_job_q.Prelude.{
  ℕ, ◌<◌, Bool, true, false, List, [], ◌∷◌, Bytes, ℤ, pos, count, bytes_eq, ◌≡◌, ◌⊎◌,
}
use cogs_crash_refresh_job_q.Keys.{
  job_key, pending_key, leased_key, retry_key, dead_key, idem_key, schedules_key, leader_key,
}
use cogs_crash_refresh_job_q.Redis.{Redis, View}
use cogs_crash_refresh_job_q.Scripts.{
  enqueue_script, claim_script, renew_script, ack_script, fail_script, drain_script,
}
use cogs_crash_refresh_job_q.Schedules.{Quad, schedule_script, put_schedule, delete_schedule}
use cogs_crash_refresh_job_q.Results.{Link}
use cogs_crash_refresh_job_q.Leader.{Leader, LockCall, lock_step}
use cogs_crash_refresh_job_q.Jobs.Enqueue.{IsFresh, IsKnown}
use cogs_crash_refresh_job_q.Schedules.Fire.{AllFresh, AllIdle}

-- A step, with the arguments that the process computed for it.
pub data Step : Type 0 where
  enqueues : (q id body idem : Bytes) → (created ttl : ℕ) → Step
  claims : (q : Bytes) → (n : ℕ) → (deadline : ℤ) → Step
  renews : (q id : Bytes) → (deadline : ℤ) → Step
  acks : (q : Bytes) → (ids : List Bytes) → Step
  fails : (q id : Bytes) → (next_at : ℤ) → (max_retries : ℕ) → Step
  -- the reaper, and the retry drainer
  reaps : (q : Bytes) → (now : ℤ) → (limit max_retries : ℕ) → Step
  drains : (q : Bytes) → (now : ℤ) → (limit max_retries : ℕ) → Step
  schedules : (now : ℕ) → (quads : List Quad) → Step
  creates : (id q spec body : Bytes) → (now : ℕ) → (next : ℤ) → Step
  deletes : (id : Bytes) → Step
  -- ZREM of a schedule that cannot be read
  drops : (id : Bytes) → Step
  elects : LockCall → Link → (ttl : ℕ) → Leader → Step
  -- the marker of an idempotency key, or the lock, runs out
  forgets : (key : Bytes) → Step
  unlocks : Step

-- What a process sees to: IDs from the random source that no job has, and a positive lock time. A
-- call that is sent a second time, as the client library of Redis does when a reply is lost, has
-- an ID that is no longer new: it is permitted if it has an idempotency key with a marker, or
-- offers no schedule that can fire.
abbrev pub Permits : View → Step → Type 0
Permits v (enqueues q id body idem created ttl) = IsFresh v id ⊎ IsKnown v idem
Permits v (schedules now quads) = AllFresh v quads ⊎ AllIdle v now quads
Permits v (elects call link ttl l) = 0 < ttl
Permits v (claims q n deadline) = Unit
Permits v (renews q id deadline) = Unit
Permits v (acks q ids) = Unit
Permits v (fails q id next_at max_retries) = Unit
Permits v (reaps q now limit max_retries) = Unit
Permits v (drains q now limit max_retries) = Unit
Permits v (creates id q spec body now next) = Unit
Permits v (deletes id) = Unit
Permits v (drops id) = Unit
Permits v (forgets key) = Unit
Permits v unlocks = Unit

module _ (R : Redis) where
  open R use {Db, view, expire, zrem}

  unfoldable pub apply : Step → Db → Db
  apply (enqueues q id body idem created ttl) d =
      (enqueue_script R (job_key id) (pending_key q) (idem_key idem) id body q created idem ttl d).1
  apply (claims q n deadline) d = (claim_script R (pending_key q) (leased_key q) n deadline d).1
  apply (renews q id deadline) d = (renew_script R (leased_key q) id deadline d).1
  apply (acks q ids) d = (ack_script R (leased_key q) ids d).1
  apply (fails q id next_at max_retries) d =
      (fail_script R (leased_key q) (retry_key q) (dead_key q) id next_at max_retries d).1
  apply (reaps q now limit max_retries) d =
      (drain_script R (leased_key q) (pending_key q) (dead_key q) now limit true max_retries d).1
  apply (drains q now limit max_retries) d =
      (drain_script R (retry_key q) (pending_key q) (dead_key q) now limit false max_retries d).1
  apply (schedules now quads) d = (schedule_script R schedules_key now quads d).1
  apply (creates id q spec body now next) d = put_schedule R id q spec body now next d
  apply (deletes id) d = delete_schedule R id d
  apply (drops id) d = (zrem schedules_key id d).1
  apply (elects call link ttl l) d = (lock_step R call link ttl l d).1
  apply (forgets key) d = expire (idem_key key) d
  apply unlocks d = expire leader_key d

  unfoldable pub run : List Step → Db → Db
  run [] d = d
  run (s ∷ steps) d = run steps (apply s d)

  -- Every step is permitted where it is taken.
  abbrev pub AllPermitted : List Step → Db → Type 0
  AllPermitted [] d = Unit
  AllPermitted (s ∷ steps) d = Permits (view d) s × AllPermitted steps (apply s d)

-- The call does not acknowledge the job.
abbrev pub Spares : Bytes → Bytes → Step → Type 0
Spares q id (acks q' ids) = (bytes_eq q' q ≡ false) ⊎ (count id ids ≡ 0)
Spares q id s = Unit

abbrev pub AllSpare : Bytes → Bytes → List Step → Type 0
AllSpare q id [] = Unit
AllSpare q id (s ∷ steps) = Spares q id s × AllSpare q id steps
