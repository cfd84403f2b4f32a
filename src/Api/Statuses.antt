-- ===== src/Api/Statuses.antt =====
-- What the statuses of the handlers tell the client.
use cogs_crash_refresh_job_q.Prelude.{
  ℕ, ◌+◌, ◌≤◌, ◌<◌, true, [], ◌∷◌, Bytes, none, some, ℤ, pos, ◌+ℤ◌, ◌≡◌, refl, ap, ◌⊎◌,
  Option-cases, inl, inr, present, bytes_eq_refl, arith, count,
}
use cogs_crash_refresh_job_q.Results.{Result, ok, answered, lost_reply}
use cogs_crash_refresh_job_q.Keys.{
  schedules_key, job_key, leased_key, retry_key, dead_key, valid_queue_name,
}
use cogs_crash_refresh_job_q.Redis.{Redis, Field, as_int, attempts}
use cogs_crash_refresh_job_q.Scripts.{FailReply, fail_script, gone, retried, dead_lettered}
use cogs_crash_refresh_job_q.Jobs.{places, Inv}
use cogs_crash_refresh_job_q.Jobs.Relocate.{Target, leased, dead, later, relocated}
use cogs_crash_refresh_job_q.Jobs.Ack.{ack_script-Acks}
use cogs_crash_refresh_job_q.Jobs.Fail.{FailOutcome, fail_script_outcome}
use cogs_crash_refresh_job_q.Store as Store
use cogs_crash_refresh_job_q.Store.{Config, milliseconds_of, ack, fail}
use cogs_crash_refresh_job_q.Store.Backoff.{backoff}
use cogs_crash_refresh_job_q.Schedules.{put_schedule}
use cogs_crash_refresh_job_q.Schedules.Manager.{Parser, create}
use cogs_crash_refresh_job_q.Api.{
  Response, answer, failed, lost_lease, invalid_cron, acked, failed_to, World,
}
use cogs_crash_refresh_job_q.Api.Handlers.{handle_ack, handle_fail, handle_create_schedule}

module _ (R : Redis) (cfg : Config) (parse : Parser) (w : World) (q : Bytes)
    (valid : valid_queue_name q ≡ true) where
  open R use {Db, view, view-zadd}

  module _ (id : Bytes) (d : Db) where
    abbrev pub acks_one : Response × Db
    acks_one = handle_ack R cfg parse w id q d

    -- For a valid queue name, on a keyspace that keeps the invariant and with its call
    -- answered, acknowledging one job is answered 409 exactly when the queue holds no lease for
    -- it; otherwise it is answered 200 with a count of 1, and the job is gone: its hash is
    -- deleted and it stands in no structure of the queue.
    pub handle_ack_outcome :
        w.link ≡ answered
        → Inv (view d)
        → (((view d).zsets (leased_key q) id ≡ none)
            × (acks_one.0 ≡ answer 409 (failed lost_lease)))
          ⊎ ((present ((view d).zsets (leased_key q) id) ≡ 1)
              × (acks_one.0 ≡ answer 200 (acked 1))
              × (places (view acks_one.1) q id ≡ 0)
              × ((f : Field) → (view acks_one.1).hashes (job_key id) f ≡ none))
    unfolding handle_ack ack count
    handle_ack_outcome up inv =
        let (a, n) = ack_script-Acks R q (id ∷ []) d inv in
        elim (Option-cases ((view d).zsets (leased_key q) id)) [
          | inl absent ↦ inl (absent, rw (valid, up, n, absent) refl)
          | inr (t, held) ↦ inr (
            ap present held,
            rw (valid, up, n, held) refl,
            rw (valid, up)
                (ground (arith, a.places_after q id, held, bytes_eq_refl q, bytes_eq_refl id)),
            λ f. rw (valid, up) (ground (arith, a.hashes_after id f, held, bytes_eq_refl id)),
          )
        ]

  module _ (spec body new_id : Bytes) (next : ℕ → ℤ) (d : Db) where
    abbrev pub creates : Response × Db
    creates = handle_create_schedule R cfg parse w (some (q, spec, body)) d

    -- For a valid queue name, if only the reply of Redis is lost, the creation of a schedule
    -- with an expression that parses is answered 422 with `invalid_cron`, while the schedule is
    -- registered at its next time.
    pub create_schedule_unreplied :
        parse spec ≡ some next
        → w.new_id ≡ some new_id
        → w.link ≡ lost_reply
        → (creates.0 ≡ answer 422 (failed invalid_cron))
          × ((view creates.1).zsets schedules_key new_id ≡ some (next w.time))
    unfolding handle_create_schedule create put_schedule
    create_schedule_unreplied parses drawn down = (
      rw (valid, parses, create, drawn, down) refl,
      rw (valid, parses, create, drawn, down) (simp (view-zadd, bytes_eq_refl)),
    )

  module _ (id : Bytes) (attempt : ℤ) (d : Db) where
    abbrev pub fails_one : Response × Db
    fails_one = handle_fail R cfg parse w id (some (q, attempt)) d

    -- The time of the next attempt.
    abbrev pub next_at : ℤ
    next_at = pos w.now +ℤ milliseconds_of (backoff cfg.backoff_base attempt w.draw)

    -- The job is moved from the leased set with one attempt more.
    abbrev pub MovedTo : Target → ℕ → Type 0
    MovedTo t n =
        (present ((view d).zsets (leased_key q) id) ≡ 1)
        × (as_int ((view d).hashes (job_key id) attempts) ≡ some n)
        × (view fails_one.1 ≡ relocated leased t (some (n + 1)) q id (view d))

    -- What the report is answered, and what it does, on each reply of the script.
    abbrev pub FailAnswer : Type 0
    FailAnswer =
        (((view d).zsets (leased_key q) id ≡ none)
          × (fails_one.0 ≡ answer 409 (failed lost_lease))
          × (view fails_one.1 ≡ view d))
        ⊎ ((n : ℕ) × (cfg.max_retries < n + 1)
            × (fails_one.0 ≡ answer 200 (failed_to id Store.dead))
            × MovedTo dead n)
        ⊎ ((n : ℕ) × (n + 1 ≤ cfg.max_retries)
            × (fails_one.0 ≡ answer 200 (failed_to id Store.retry))
            × MovedTo (later next_at) n)

    abbrev script : Result FailReply × Db
    script = fail_script R (leased_key q) (retry_key q) (dead_key q) id next_at cfg.max_retries d

    fail_answers :
        w.link ≡ answered
        → (r : FailReply) → script.0 ≡ ok r
        → FailOutcome (view d) (view script.1) q id next_at cfg.max_retries r
        → FailAnswer
    unfolding handle_fail fail
    fail_answers up gone reply o = inl (o.0, rw (valid, up, reply) refl, rw (valid, up) o.1)
    fail_answers up dead_lettered reply (held, n, counted, over, moved) =
        inr (inl (n, over, rw (valid, up, reply) refl, (held, counted, rw (valid, up) moved)))
    fail_answers up retried reply (held, n, counted, under, moved) =
        inr (inr (n, under, rw (valid, up, reply) refl, (held, counted, rw (valid, up) moved)))

    -- For a valid queue name, on a keyspace that keeps the invariant and with its call
    -- answered, a failure report is answered 409 if the queue holds no lease for the job, and
    -- then changes nothing. Otherwise it is answered 200: with `dead`, and the job in the dead
    -- list, if its attempts are now past the retries, and with `retry`, and the job in the
    -- retry set until its backoff has passed, if not.
    pub handle_fail_outcome : w.link ≡ answered → Inv (view d) → FailAnswer
    handle_fail_outcome up inv =
        let (r, reply, o) = fail_script_outcome R q id next_at cfg.max_retries d inv in
        fail_answers up r reply o
