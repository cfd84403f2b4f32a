-- ===== src/Schedules.antt =====
-- `scheduleDrainScript` of internal/cogs/scheduler.go: each due schedule enqueues one job and is
-- given its next time, in one step.
pub mod Fire
pub mod Again
pub mod Manager
pub mod Passes
use cogs_crash_refresh_job_q.Prelude.{
  ℕ, Bool, List, [], ◌∷◌, Bytes, codes, Option, some, none, ℤ, pos, leb_ℤ, if◌then◌else◌,
}
use cogs_crash_refresh_job_q.Keys.{job_key, pending_key, schedule_key, schedules_key}
use cogs_crash_refresh_job_q.Redis.{
  Redis, queue, payload, cron, created_at, last_run, int, text, value_bytes,
}
use cogs_crash_refresh_job_q.Scripts.{put_job}

-- One of the "repeating quads" of ARGV.
pub record Quad : Type 0 where
  pub sched_id : Bytes
  pub job_id : Bytes
  pub body : Bytes
  pub next_run : ℤ

-- A schedule that fired, with its queue: two entries of the reply.
pub record Fired : Type 0 where
  pub sched_id : Bytes
  pub into : Bytes

abbrev pub add_fired : Bytes → Option Bytes → List Fired → List Fired
add_fired id none l = l
add_fired id (some q) l = record { sched_id = id; into = q } ∷ l

module _ (R : Redis) where
  open R use {Db, zscore, hget, hset, zadd, zrem, del}

  -- The transaction of `Scheduler.Create`: the hash of the schedule and its next time.
  unfoldable pub put_schedule : Bytes → Bytes → Bytes → Bytes → ℕ → ℤ → Db → Db
  put_schedule id q spec body now next d = zadd schedules_key next id (
      hset (schedule_key id) created_at (int now) (
        hset (schedule_key id) payload (text body)
          (hset (schedule_key id) cron (text spec) (hset (schedule_key id) queue (text q) d))))

  -- The transaction of `Scheduler.Delete`.
  unfoldable pub delete_schedule : Bytes → Db → Db
  delete_schedule id d = del (schedule_key id) (zrem schedules_key id d).1

  -- The writes for a schedule that fires.
  unfoldable pub fire : Bytes → ℕ → Quad → Bytes → Db → Db
  fire schedules_k now s q d = zadd schedules_k s.next_run s.sched_id (
      hset (schedule_key s.sched_id) last_run (int now)
        (put_job R (job_key s.job_id) (pending_key q) s.job_id s.body q [] now d))

  -- One round of the loop; the queue that it enqueued to, if it fired.
  unfoldable pub schedule_one : Bytes → ℕ → Quad → Db → Option Bytes × Db
  schedule_one schedules_k now s d = elim (zscore schedules_k s.sched_id d) [
    | none ↦ (none, d)
    | some score ↦
        if leb_ℤ score (pos now)
        then elim (hget (schedule_key s.sched_id) queue d) [
          | none ↦ (none, d)
          | some v ↦ (some (value_bytes v), fire schedules_k now s (value_bytes v) d)
        ]
        else (none, d)
  ]

  unfoldable pub schedule_script : Bytes → ℕ → List Quad → Db → List Fired × Db
  schedule_script schedules_k now [] d = ([], d)
  schedule_script schedules_k now (s ∷ quads) d =
      let (q, d') = schedule_one schedules_k now s d in
      let (rest, d'') = schedule_script schedules_k now quads d' in
      (add_fired s.sched_id q rest, d'')
