-- ===== src/Store/ReadBack.antt =====
-- A job that was enqueued is read back with what was enqueued.
use cogs_crash_refresh_job_q.Prelude.{
  ℕ, true, Bytes, Option, some, ◌≡◌, refl, ap, ◌∙◌, inl, inr, bytes_eq_refl, arith, Bool,
}
use cogs_crash_refresh_job_q.Results.{Result, ok, answered}
use cogs_crash_refresh_job_q.Keys.{job_key}
use cogs_crash_refresh_job_q.Redis.{
  Redis, View, Field, payload, queue, attempts, idempotency_key, created_at, Value, value_bytes,
  value_int,
}
use cogs_crash_refresh_job_q.Jobs.Enqueue.{job_fields}
use cogs_crash_refresh_job_q.Jobs.Idempotency.{enqueue_outcome}
use cogs_crash_refresh_job_q.Store.{Config, enqueue, payload_or_null, seconds}
use cogs_crash_refresh_job_q.Store.Reads.{StoredJob, job, no_fields}

module _ (R : Redis) (cfg : Config) (id q body idem : Bytes) (now : ℕ) (d : R.Db) where
  open R use {Db, view, hgetall, hgetall_reply}

  abbrev call : Result (Bytes × Bool) × Db
  call = enqueue R cfg answered (some id) now q body idem d

  -- The job as it was enqueued.
  abbrev pub expected : StoredJob
  expected = record {
    id = id;
    queue = q;
    payload = payload_or_null body;
    attempts = 0;
    idempotency_key = idem;
    created_at = now;
  }

  read_fields :
      (e : Db) (h : Field → Option Value)
      → ((f : Field)
          → (view e).hashes (job_key id) f ≡ job_fields q (payload_or_null body) idem now h f)
      → job R answered id e ≡ ok expected
  unfolding job no_fields value_bytes value_int
  read_fields e h there = simp (
    hgetall_reply,
    there payload,
    there queue,
    there attempts,
    there idempotency_key,
    there created_at,
  )

  -- If an enqueue call says that it has created a job, then reading the job gives the queue, the
  -- payload (or `null` for an empty one), no attempts, the idempotency key and the time of the
  -- call.
  pub enqueue_reads_back : call.0 ≡ ok (id, true) → job R answered id call.1 ≡ ok expected
  unfolding enqueue
  enqueue_reads_back created =
      elim (enqueue_outcome R q id (payload_or_null body) idem now (seconds cfg.idempotency_window)
        d) [
          | inl (r, w) ↦
              read_fields call.1 ((view d).hashes (job_key id))
                (λ f. ap (λ (v : View). v.hashes (job_key id) f) w ∙ rw bytes_eq_refl refl)
          | inr (inl (old, e, r, w)) ↦ absurd (ground (arith, r, created))
          | inr (inr (z, r, w)) ↦ absurd (ground (arith, r, created))
        ]
