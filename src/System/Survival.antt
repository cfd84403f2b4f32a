-- ===== src/System/Survival.antt =====
-- No sequence of steps loses a job that is not acknowledged.
use cogs_crash_refresh_job_q.Prelude.{
  ℕ, true, false, List, [], ◌∷◌, Bytes, some, bytes_eq, bytes_eq_iff, bytes_eq_ne, Bool-cases,
  Option-cases, present, ap, Option, ◌≡◌, ◌∙◌, inl, inr, arith,
}
use cogs_crash_refresh_job_q.Keys.{job_key, leased_key}
use cogs_crash_refresh_job_q.Redis.{Redis, View, Field, Value, queue, text}
use cogs_crash_refresh_job_q.Jobs.{places, Inv, Keeps, Keeps-Inv}
use cogs_crash_refresh_job_q.Jobs.Claim.{claim_script-Keeps}
use cogs_crash_refresh_job_q.Jobs.Relocate.{leased, retry, source_places}
use cogs_crash_refresh_job_q.Jobs.Fail.{fail_script-Keeps}
use cogs_crash_refresh_job_q.Jobs.Pass.{drain_script-Keeps}
use cogs_crash_refresh_job_q.Jobs.Ack.{was_leased, ack, ack_script-Acks}
use cogs_crash_refresh_job_q.Jobs.Enqueue.{added, marked, added-hashes, IsFresh, enqueue}
use cogs_crash_refresh_job_q.Jobs.Idempotency.{enqueue_outcome, known_unchanged, enqueue-Inv}
use cogs_crash_refresh_job_q.Jobs.Renew.{renew_script-Keeps}
use cogs_crash_refresh_job_q.Jobs.Other.{
  expire-SameJobs, put_schedule-SameJobs, delete_schedule-SameJobs, drop_schedule-SameJobs,
  lock_step-SameJobs,
}
use cogs_crash_refresh_job_q.Schedules.Fire.{
  script_idle, schedule_script-Inv, schedule_script-queue,
}
use cogs_crash_refresh_job_q.System.{
  Step, enqueues, claims, renews, acks, fails, reaps, drains, schedules, creates, deletes, drops,
  elects, forgets, unlocks, Permits, apply, run, AllPermitted, Spares, AllSpare,
}

module _ (R : Redis) where
  open R use {Db, view}

  -- Every permitted step keeps the invariant: each job stands in exactly one structure of its
  -- queue, and nothing else stands there.
  pub apply-Inv : (s : Step) (d : Db) → Inv (view d) → Permits (view d) s → Inv (view (apply R s d))
  unfolding apply
  apply-Inv (enqueues q id body idem created ttl) d inv (inl fresh) =
      enqueue-Inv R q id body idem created ttl d inv fresh
  apply-Inv (enqueues q id body idem created ttl) d inv (inr known) =
      rw (known_unchanged R q id body idem created ttl d known) inv
  apply-Inv (claims q n deadline) d inv p = Keeps-Inv (claim_script-Keeps R q n deadline d inv) inv
  apply-Inv (renews q id deadline) d inv p = Keeps-Inv (renew_script-Keeps R q id deadline d) inv
  apply-Inv (acks q ids) d inv p = (ack_script-Acks R q ids d inv).0.inv
  apply-Inv (fails q id next_at max_retries) d inv p =
      Keeps-Inv (fail_script-Keeps R q id next_at max_retries d inv) inv
  apply-Inv (reaps q now limit max_retries) d inv p =
      Keeps-Inv (drain_script-Keeps R leased true max_retries q now limit d inv) inv
  apply-Inv (drains q now limit max_retries) d inv p =
      Keeps-Inv (drain_script-Keeps R retry false max_retries q now limit d inv) inv
  apply-Inv (schedules now quads) d inv (inl fresh) = schedule_script-Inv R now quads d inv fresh
  apply-Inv (schedules now quads) d inv (inr idle) = rw (script_idle R now quads d idle) inv
  apply-Inv (creates id q spec body now next) d inv p =
      Keeps-Inv (put_schedule-SameJobs R id q spec body now next d).keeps inv
  apply-Inv (deletes id) d inv p = Keeps-Inv (delete_schedule-SameJobs R id d).keeps inv
  apply-Inv (drops id) d inv p = Keeps-Inv (drop_schedule-SameJobs R id d).keeps inv
  apply-Inv (elects call link ttl l) d inv window =
      Keeps-Inv (lock_step-SameJobs R call link ttl l d window).keeps inv
  apply-Inv (forgets key) d inv p = Keeps-Inv (expire-SameJobs R _ d).keeps inv
  apply-Inv unlocks d inv p = Keeps-Inv (expire-SameJobs R _ d).keeps inv

  -- Any sequence of permitted steps keeps the invariant: each job stands in exactly one
  -- structure of its queue, nothing else stands there, and its attempts are a number.
  pub run-Inv :
      (steps : List Step) (d : Db)
      → Inv (view d)
      → AllPermitted R steps d
      → Inv (view (run R steps d))
  unfolding run
  run-Inv [] d inv p = inv
  run-Inv (s ∷ steps) d inv p = run-Inv steps (apply R s d) (apply-Inv s d inv p.0) p.1

module _ (R : Redis) (q id : Bytes) where
  open R use {Db, view}

  -- The ID is that of a job of the queue.
  abbrev pub IsJob : Db → Type 0
  IsJob d = (view d).hashes (job_key id) queue ≡ some (text q)

  kept :
      {v w : View}
      → Keeps v w
      → v.hashes (job_key id) queue ≡ some (text q)
      → w.hashes (job_key id) queue ≡ some (text q)
  kept k h = k.same_queue id ∙ h

  added_survives :
      (q' id' : Bytes) (fields : Field → Option Value) (v : View)
      → IsFresh v id'
      → v.hashes (job_key id) queue ≡ some (text q)
      → (added q' id' fields v).hashes (job_key id) queue ≡ some (text q)
  added_survives q' id' fields v fresh h =
      added-hashes q' id' fields v id queue
      ∙ rw (bytes_eq_ne id' id (λ e. cc (ap (λ x. v.hashes (job_key x) queue) e, fresh))) h

  enqueue_survives :
      (q' id' body idem : Bytes) (created ttl : ℕ) (d : Db)
      → IsFresh (view d) id'
      → IsJob d
      → IsJob (enqueue R q' id' body idem created ttl d).1
  enqueue_survives q' id' body idem created ttl d fresh h =
      elim (enqueue_outcome R q' id' body idem created ttl d) [
        | inl made ↦ rw made.1 (elim (Bool-cases (bytes_eq idem [])) [
          | inl plain ↦ rw plain (added_survives q' id' _ (view d) fresh h)
          | inr keyed ↦ rw keyed (added_survives q' id' _ (marked idem id' (view d)) fresh h)
        ])
        | inr (inl again) ↦ rw again.3 h
        | inr (inr refused) ↦ rw refused.2 h
      ]

  -- A call that spares the job finds no lease of it.
  not_leased :
      (q' : Bytes) (ids : List Bytes) (v : View)
      → Inv v
      → Spares q id (acks q' ids)
      → v.hashes (job_key id) queue ≡ some (text q)
      → was_leased v q' ids id ≡ false
  not_leased q' ids v inv spared h = elim (Option-cases (v.zsets (leased_key q') id)) [
    | inl absent ↦ ground (arith, absent)
    | inr (t, held) ↦ elim spared [
      | inl other ↦ ground (
        arith,
        held,
        h,
        other,
        bytes_eq_iff q' q,
        inv.backed q' id (source_places leased q' id v (ap present held)),
      )
      | inr unnamed ↦ ground (arith, unnamed)
    ]
  ]

  ack_survives :
      (q' : Bytes) (ids : List Bytes) (d : Db)
      → Inv (view d)
      → Spares q id (acks q' ids)
      → IsJob d
      → IsJob (ack R q' ids d).1
  ack_survives q' ids d inv spared h =
      (ack_script-Acks R q' ids d inv).0.hashes_after id queue
      ∙ rw (not_leased q' ids (view d) inv spared h) h

  -- A permitted step that does not acknowledge the job leaves it a job of its queue.
  step_survives :
      (s : Step) (d : Db)
      → Inv (view d)
      → Permits (view d) s
      → Spares q id s
      → IsJob d
      → IsJob (apply R s d)
  unfolding apply
  step_survives (enqueues q' id' body idem created ttl) d inv (inl fresh) spared h =
      enqueue_survives q' id' body idem created ttl d fresh h
  step_survives (enqueues q' id' body idem created ttl) d inv (inr known) spared h =
      rw (known_unchanged R q' id' body idem created ttl d known) h
  step_survives (claims q' n deadline) d inv p spared h =
      kept (claim_script-Keeps R q' n deadline d inv) h
  step_survives (renews q' id' deadline) d inv p spared h =
      kept (renew_script-Keeps R q' id' deadline d) h
  step_survives (acks q' ids) d inv p spared h = ack_survives q' ids d inv spared h
  step_survives (fails q' id' next_at max_retries) d inv p spared h =
      kept (fail_script-Keeps R q' id' next_at max_retries d inv) h
  step_survives (reaps q' now limit max_retries) d inv p spared h =
      kept (drain_script-Keeps R leased true max_retries q' now limit d inv) h
  step_survives (drains q' now limit max_retries) d inv p spared h =
      kept (drain_script-Keeps R retry false max_retries q' now limit d inv) h
  step_survives (schedules now quads) d inv (inl fresh) spared h =
      schedule_script-queue R now quads d id fresh h
  step_survives (schedules now quads) d inv (inr idle) spared h =
      rw (script_idle R now quads d idle) h
  step_survives (creates id' q' spec body now next) d inv p spared h =
      kept (put_schedule-SameJobs R id' q' spec body now next d).keeps h
  step_survives (deletes id') d inv p spared h = kept (delete_schedule-SameJobs R id' d).keeps h
  step_survives (drops id') d inv p spared h = kept (drop_schedule-SameJobs R id' d).keeps h
  step_survives (elects call link ttl l) d inv window spared h =
      kept (lock_step-SameJobs R call link ttl l d window).keeps h
  step_survives (forgets key) d inv p spared h = kept (expire-SameJobs R _ d).keeps h
  step_survives unlocks d inv p spared h = kept (expire-SameJobs R _ d).keeps h

  run_survives :
      (steps : List Step) (d : Db)
      → Inv (view d)
      → AllPermitted R steps d
      → AllSpare q id steps
      → IsJob d
      → IsJob (run R steps d)
  unfolding run
  run_survives [] d inv p spared h = h
  run_survives (s ∷ steps) d inv p spared h =
      run_survives steps (apply R s d) (apply-Inv R s d inv p.0) p.1 spared.1
        (step_survives s d inv p.0 spared.0 h)

  -- No job is lost: after any sequence of permitted steps of any number of processes, none of
  -- which acknowledges the job, it stands in exactly one structure of its queue, and is still a
  -- job of that queue.
  pub IsJob-survives :
      (steps : List Step) (d : Db)
      → Inv (view d)
      → AllPermitted R steps d
      → AllSpare q id steps
      → IsJob d
      → (places (view (run R steps d)) q id ≡ 1) × IsJob (run R steps d)
  IsJob-survives steps d inv p spared h =
      let inv' = run-Inv R steps d inv p in
      let h' = run_survives steps d inv p spared h in
      (omega (arith, inv'.once q id, inv'.located q id h'), h')
