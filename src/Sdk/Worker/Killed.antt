-- ===== src/Sdk/Worker/Killed.antt =====
-- A worker that dies while it holds a job.
use cogs_crash_refresh_job_q.Prelude.{
  ℕ, ◌*◌, ◌<◌, Bool, true, List, [], Bytes, ℤ, none, ◌≡◌, ◌≢◌, subst,
}
use cogs_crash_refresh_job_q.Keys.{leased_key, valid_queue_name}
use cogs_crash_refresh_job_q.Redis.{Redis}
use cogs_crash_refresh_job_q.Jobs.{places, Inv}
use cogs_crash_refresh_job_q.Jobs.Leases.{HasLease}
use cogs_crash_refresh_job_q.Jobs.Relocate.{leased}
use cogs_crash_refresh_job_q.Store.{Config}
use cogs_crash_refresh_job_q.Schedules.Manager.{Parser}
use cogs_crash_refresh_job_q.Loops.{PassFate, Event as Tick}
use cogs_crash_refresh_job_q.Loops.Entries.{entries}
use cogs_crash_refresh_job_q.Loops.Ticks.{leading, loop_run, AllAnswered, drain_due_recovers}
use cogs_crash_refresh_job_q.Sdk.Worker.{Event, start, process}
use cogs_crash_refresh_job_q.Sdk.Worker.Renewals.{start-Alive}
use cogs_crash_refresh_job_q.Sdk.Worker.OnTime.{AllTimely, last_at, NeverHanded, all-Holds}

not_empty : (q : Bytes) → valid_queue_name q ≡ true → q ≢ []
unfolding valid_queue_name
not_empty q valid e =
    let bad : valid_queue_name [] ≡ true = subst (λ x. valid_queue_name x ≡ true) e valid in cc

module _ (R : Redis) (cfg : Config) (parse : Parser) (q id : Bytes)
    (valid : valid_queue_name q ≡ true) (attempts : ℕ) where
  open R use {Db, view}

  module _ (has_handler : Bool) (events : List Event) (t : ℤ) (d : Db) where
    -- The keyspace at the death of the worker, and the deadline of its lease.
    abbrev pub at_death : Db
    at_death = (process R cfg parse cfg.auth_token q id attempts events (start has_handler) d).1

    abbrev pub deadline : ℤ
    deadline = last_at R cfg parse q id valid attempts events t (start has_handler) d

    -- A crash loses no job. Take a keyspace that keeps the invariant and holds the lease that a
    -- claim has given, and a worker that dies anywhere before its report, after any order of what
    -- its handler, its heartbeat and everybody else have done, with any renewal or its answer
    -- lost. If until then nobody else finishes the job and each reap pass over the queue has a
    -- clock before the deadline that the last renewal to take effect has set, then no claim has
    -- handed the job to another. If after it the reaper's loop ticks with its calls answered,
    -- its SCAN loops ending and its clocks at or past that deadline, often enough for its limit and
    -- the leases of the queue, then the lease is gone, and the job is still in the queue, once.
    pub killed_worker_recovers :
        (ticks : List (Tick PassFate))
        → Inv (view d)
        → HasLease q id t (view d)
        → AllTimely R cfg parse q id valid attempts events t (start has_handler) d
        → AllAnswered R cfg leased q deadline ticks at_death
        → entries R cfg leased q at_death < leading R cfg leased q ticks * cfg.drain_limit
        → let recovered = loop_run R cfg leased q ticks at_death in
          NeverHanded R cfg parse q id valid attempts events (start has_handler) d
          × ((view recovered).zsets (leased_key q) id ≡ none)
          × (places (view recovered) q id ≡ 1)
    killed_worker_recovers ticks inv held timely up few =
        let (withheld, h) =
          all-Holds R cfg parse q id valid attempts events t (start has_handler) d
            (record { alive = start-Alive has_handler; inv = inv; held = held }) timely in
        let (gone, once) =
          drain_due_recovers R cfg leased q deadline id ticks at_death h.inv (not_empty q valid) up
            few h.held in
        (withheld, gone, once)
