-- ===== src/Server.antt =====
-- Everything that any number of server processes do to one Redis: requests, the three background
-- passes, and elections, each with the fate of its calls; and keys that run out. The client
-- library of Redis sends a call again if its reply is lost, up to three times: an activity runs
-- each of its calls once, and each repetition is an activity of its own behind it. The calls of
-- one activity follow each other; how the calls of several interleave is a sequence of steps of
-- System.
pub mod Survival
use cogs_crash_refresh_job_q.Prelude.{
  ℕ, ◌<◌, Bool, true, false, List, [], ◌∷◌, Bytes, Option, none, some, ◌≡◌,
}
use cogs_crash_refresh_job_q.Results.{Link}
use cogs_crash_refresh_job_q.Keys.{idem_key, leader_key}
use cogs_crash_refresh_job_q.Redis.{Redis, Pattern}
use cogs_crash_refresh_job_q.Leader.{Leader, LockCall, lock_step}
use cogs_crash_refresh_job_q.Store.{Config}
use cogs_crash_refresh_job_q.Schedules.Manager.{Parser, Fate, schedule_pass}
use cogs_crash_refresh_job_q.Schedules.Passes.{DrawsNew}
use cogs_crash_refresh_job_q.Loops.{Passes, reap_pass, retry_pass}
use cogs_crash_refresh_job_q.Api.{Request, World}
use cogs_crash_refresh_job_q.Api.Handlers.{wrap}
use cogs_crash_refresh_job_q.Api.Steps.{MayEnqueue, SparesJob}
use cogs_crash_refresh_job_q.System.{Step, Permits, Spares, apply}

pub data Activity : Type 0 where
  serves : (header : Bytes) → World → Request → Activity
  reaps retries :
      (scans : Pattern → Link) → (fuel : ℕ) → (fate : Bytes → Link) → (now : Bytes → ℕ) → Activity
  fires : (reads : Link) → (fate : Bytes → Fate) → (fires : Link) → (now : ℕ) → Activity
  elects : LockCall → Link → (ttl : ℕ) → Leader → Activity
  -- a call whose reply was lost, sent again by the client library of Redis
  resends : Step → Activity
  -- an idempotency marker, or the lock, runs out
  forgets : (key : Bytes) → Activity
  unlocks : Activity

-- The keyspace after a pass; a SCAN loop that has not ended has written nothing.
abbrev pub after_pass : {Db : Type 0} → Option (Passes Db) → Db → Db
after_pass none d = d
after_pass (some p) d = p.after

module _ (R : Redis) (cfg : Config) (parse : Parser) where
  open R use {Db, view, expire}

  unfoldable pub perform : Activity → Db → Db
  perform (serves header w req) d = (wrap R cfg parse header w req d).1
  perform (reaps scans fuel fate now) d = after_pass (reap_pass R cfg scans fuel fate now d) d
  perform (retries scans fuel fate now) d = after_pass (retry_pass R cfg scans fuel fate now d) d
  perform (fires reads fate script now) d = (schedule_pass R cfg parse reads fate script now d).1
  perform (elects call link ttl l) d = (lock_step R call link ttl l d).1
  perform (resends s) d = apply R s d
  perform (forgets key) d = expire (idem_key key) d
  perform unlocks d = expire leader_key d

  unfoldable pub perform_all : List Activity → Db → Db
  perform_all [] d = d
  perform_all (a ∷ activities) d = perform_all activities (perform a d)

  -- The IDs that the activity draws are new, or the key of its enqueue call has a marker, its lock
  -- time is positive, and it does not acknowledge the job.
  abbrev pub Careful : Bytes → Bytes → Activity → Db → Type 0
  Careful q id (serves header w req) d = MayEnqueue R w req d × SparesJob q id req
  Careful q id (fires reads fate script now) d = DrawsNew R cfg parse q id fate d
  Careful q id (elects call link ttl l) d = 0 < ttl
  Careful q id (resends s) d = Permits (view d) s × Spares q id s
  Careful q id (reaps scans fuel fate now) d = Unit
  Careful q id (retries scans fuel fate now) d = Unit
  Careful q id (forgets key) d = Unit
  Careful q id unlocks d = Unit

  abbrev pub AllCareful : Bytes → Bytes → List Activity → Db → Type 0
  AllCareful q id [] d = Unit
  AllCareful q id (a ∷ activities) d = Careful q id a d × AllCareful q id activities (perform a d)
