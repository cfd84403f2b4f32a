-- ===== src/Sdk/Worker/Settles.antt =====
-- The report of a worker that has renewed in time: it finds the lease, and settles the job.
use cogs_crash_refresh_job_q.Prelude.{
  ℕ, Bool, true, false, List, [], ◌∷◌, Bytes, ℤ, pos, none, ◌≡◌, ◌≢◌, refl, arith, inl, inr,
  bytes_eq_refl, count,
}
use cogs_crash_refresh_job_q.Results.{answered}
use cogs_crash_refresh_job_q.Keys.{job_key, valid_queue_name}
use cogs_crash_refresh_job_q.Redis.{Redis, Field}
use cogs_crash_refresh_job_q.Scripts.{FailReply, gone, retried, dead_lettered}
use cogs_crash_refresh_job_q.Jobs.Fail.{FailOutcome}
use cogs_crash_refresh_job_q.Jobs.{places, Inv}
use cogs_crash_refresh_job_q.Jobs.Leases.{HasLease}
use cogs_crash_refresh_job_q.Store.{Config}
use cogs_crash_refresh_job_q.Schedules.Manager.{Parser}
use cogs_crash_refresh_job_q.Api.{World}
use cogs_crash_refresh_job_q.Sdk.Calls.{ack_tells, fail_tells, retry_at}
use cogs_crash_refresh_job_q.Sdk.Worker.{
  passed, fail_call, Process, Event, reports_to, start, report, advance, process,
}
use cogs_crash_refresh_job_q.Sdk.Worker.Renewals.{start-Alive}
use cogs_crash_refresh_job_q.Sdk.Worker.OnTime.{AllTimely, last_at, NeverHanded, Holds, all-Holds}

module _ (R : Redis) (cfg : Config) (parse : Parser) (q id : Bytes)
    (valid : valid_queue_name q ≡ true) (attempts : ℕ) where
  open R use {Db, view}

  abbrev step : Event → Process → Db → Process × Db
  step = advance R cfg parse cfg.auth_token q id attempts

  abbrev after : List Event → Process → Db → Process × Db
  after = process R cfg parse cfg.auth_token q id attempts

  not_gone :
      (w : World) (t n : ℤ) (d d' : Db) (r : FailReply)
      → HasLease q id t (view d)
      → FailOutcome (view d) (view d') q id n cfg.max_retries r
      → r ≢ gone
  not_gone w t n d d' gone held o = absurd (ground (arith, o.0, held))
  not_gone w t n d d' retried held o = λ e. cc
  not_gone w t n d d' dead_lettered held o = λ e. cc

  -- The job has been moved, with one attempt more, to where its attempts say.
  abbrev pub Moved : World → Db → Db → Type 0
  Moved w d d' =
      (r : FailReply) × (r ≢ gone)
      × FailOutcome (view d) (view d') q id (retry_at cfg w (pos attempts)) cfg.max_retries r

  -- The acknowledgement of a leased job, with its calls answered.
  ack_finishes :
      (w : World) (t : ℤ) (p : Process) (d : Db)
      → Holds R cfg parse q id valid attempts t p d
      → w.link ≡ answered
      → p.phase ≡ passed false
      → let end = step (reports_to answered w) p d in
        (end.0.acked ≡ true)
        × (places (view end.1) q id ≡ 0)
        × ((f : Field) → (view end.1).hashes (job_key id) f ≡ none)
  unfolding advance report count
  ack_finishes w t p d h up at_report =
      elim (ack_tells R cfg parse w q valid (id ∷ []) d h.inv answered) [
        | inl (r, a) ↦ (
          rw (at_report, r) refl,
          rw at_report
              (ground (arith, a.places_after q id, h.held, bytes_eq_refl q, bytes_eq_refl id)),
          λ f. rw at_report (ground (arith, a.hashes_after id f, h.held, bytes_eq_refl id)),
        )
        | inr (e, r, inl down) ↦ absurd (down refl)
        | inr (e, r, inr down) ↦ absurd (down up)
      ]

  fail_settles :
      (w : World) (t : ℤ) (p : Process) (d : Db)
      → Holds R cfg parse q id valid attempts t p d
      → w.link ≡ answered
      → p.phase ≡ passed true
      → Moved w d (step (reports_to answered w) p d).1
  unfolding advance report
  fail_settles w t p d h up at_report =
      elim (fail_tells R cfg parse w q valid id (pos attempts) d h.inv answered) [
        | inl (ok, r, o) ↦ rw at_report (r, not_gone w t _ d _ r h.held o, o)
        | inr (e, r, inl down) ↦ absurd (down refl)
        | inr (e, r, inr down) ↦ absurd (down up)
      ]

  fail_reports :
      (w : World) (p : Process) (d : Db)
      → p.reports ≡ []
      → p.phase ≡ passed true
      → (step (reports_to answered w) p d).0.reports ≡ fail_call ∷ []
  unfolding advance report
  fail_reports w p d silent at_report = rw (at_report, silent) refl

  -- What the report has done with the job.
  abbrev pub Settled : Bool → World → Db → Process × Db → Type 0
  Settled false w d end =
      (end.0.acked ≡ true)
      × (places (view end.1) q id ≡ 0)
      × ((f : Field) → (view end.1).hashes (job_key id) f ≡ none)
  Settled true w d end = (end.0.reports ≡ fail_call ∷ []) × Moved w d end.1

  settles :
      (failed : Bool) (w : World) (t : ℤ) (p : Process) (d : Db)
      → Holds R cfg parse q id valid attempts t p d
      → w.link ≡ answered
      → p.phase ≡ passed failed
      → Settled failed w d (step (reports_to answered w) p d)
  settles false w t p d h up at_report = ack_finishes w t p d h up at_report
  settles true w t p d h up at_report =
      (fail_reports w p d h.alive.silent at_report, fail_settles w t p d h up at_report)

  module _ (has_handler : Bool) (events : List Event) (t : ℤ) (d : Db) where
    abbrev pub now : Process × Db
    now = after events (start has_handler) d

    abbrev pub reported : World → Process × Db
    reported w = step (reports_to answered w) now.0 now.1

    -- A worker that renews in time has the job to itself until it has reported. Take a keyspace
    -- that keeps the invariant and holds the lease that a claim has given, and any order of what
    -- the handler, the heartbeat and everybody else do up to the report, with any renewal or
    -- its answer lost. If nobody else finishes the job, each reap pass over the queue has a clock
    -- before the deadline that the last renewal to take effect has set, and the flag is read,
    -- then no claim has handed the job to another, the lease is still there with that deadline,
    -- and the worker has no word of its loss. If the handler has succeeded, an acknowledgement
    -- whose calls are answered succeeds and leaves nothing of the job; if it has failed, such
    -- a failure report moves the job, with one attempt more, to the retry set or the dead list.
    pub on_time_settles :
        (failed : Bool) (w : World)
        → Inv (view d)
        → HasLease q id t (view d)
        → AllTimely R cfg parse q id valid attempts events t (start has_handler) d
        → now.0.phase ≡ passed failed
        → w.link ≡ answered
        → NeverHanded R cfg parse q id valid attempts events (start has_handler) d
          × (now.0.lost ≡ false)
          × HasLease q id
              (last_at R cfg parse q id valid attempts events t (start has_handler) d)
              (view now.1)
          × Settled failed w now.1 (reported w)
    on_time_settles failed w inv held timely at_report up =
        let last = last_at R cfg parse q id valid attempts events t (start has_handler) d in
        let (withheld, h) =
          all-Holds R cfg parse q id valid attempts events t (start has_handler) d
            (record { alive = start-Alive has_handler; inv = inv; held = held }) timely in
        (withheld, h.alive.unaware, h.held, settles failed w last now.0 now.1 h up at_report)
