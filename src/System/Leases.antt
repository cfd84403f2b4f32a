-- ===== src/System/Leases.antt =====
-- A lease excludes: while it lasts, no worker is handed the job.
use cogs_crash_refresh_job_q.Prelude.{
  false, true, List, [], ◌∷◌, Bytes, ℤ, ltb_ℤ, ◌≡◌, ◌⊎◌, ◌∙◌, ◌&&◌, if◌then◌else◌, count, bytes_eq,
}
use cogs_crash_refresh_job_q.Redis.{Redis}
use cogs_crash_refresh_job_q.Jobs.{Inv}
use cogs_crash_refresh_job_q.Jobs.Order.{ids, claim}
use cogs_crash_refresh_job_q.Jobs.Leases.{HasLease, claim_leaves}
use cogs_crash_refresh_job_q.Jobs.Leases.Others.{
  renew_leaves, fail_leaves, ack_leaves, reap_leaves, retry_leaves, enqueue_leaves, schedule_leaves,
}
use cogs_crash_refresh_job_q.Jobs.Other.{
  expire-SameJobs, put_schedule-SameJobs, delete_schedule-SameJobs, drop_schedule-SameJobs,
  lock_step-SameJobs,
}
use cogs_crash_refresh_job_q.System.{
  Step, enqueues, claims, renews, acks, fails, reaps, drains, schedules, creates, deletes, drops,
  elects, forgets, unlocks, Permits, apply, run, AllPermitted, Spares,
}
use cogs_crash_refresh_job_q.System.Survival.{apply-Inv}

-- The deadline of the lease after a step: a renewal of it sets a new one.
abbrev pub deadline_after : Bytes → Bytes → ℤ → Step → ℤ
deadline_after q id t (renews q' id' deadline) =
    if bytes_eq q' q && bytes_eq id' id then deadline else t
deadline_after q id t s = t

abbrev pub last_deadline : Bytes → Bytes → ℤ → List Step → ℤ
last_deadline q id t [] = t
last_deadline q id t (s ∷ steps) = last_deadline q id (deadline_after q id t s) steps

-- The step does not finish the job, by an acknowledgement or a failure report, and if it is a
-- reap pass over the queue then its clock is before the deadline.
abbrev pub Respects : Bytes → Bytes → ℤ → Step → Type 0
Respects q id t (acks q' names) = Spares q id (acks q' names)
Respects q id t (fails q' id' next_at max_retries) = (bytes_eq q' q && bytes_eq id' id) ≡ false
Respects q id t (reaps q' now limit max_retries) = (bytes_eq q' q ≡ false) ⊎ (ltb_ℤ now t ≡ true)
Respects q id t s = Unit

abbrev pub AllRespect : Bytes → Bytes → ℤ → List Step → Type 0
AllRespect q id t [] = Unit
AllRespect q id t (s ∷ steps) = Respects q id t s × AllRespect q id (deadline_after q id t s) steps

module _ (R : Redis) (q id : Bytes) where
  open R use {Db, view}

  -- The step is no claim that hands out the ID.
  abbrev pub Withholds : Step → Db → Type 0
  Withholds (claims q' n deadline) d = count id (ids (claim R q' deadline n d).0) ≡ 0
  Withholds s d = Unit

  abbrev pub AllWithhold : List Step → Db → Type 0
  AllWithhold [] d = Unit
  AllWithhold (s ∷ steps) d = Withholds s d × AllWithhold steps (apply R s d)

  step_leaves :
      (s : Step) (t : ℤ) (d : Db)
      → Inv (view d)
      → Permits (view d) s
      → Respects q id t s
      → HasLease q id t (view d)
      → Withholds s d × HasLease q id (deadline_after q id t s) (view (apply R s d))
  unfolding apply
  step_leaves (enqueues q' id' body idem created ttl) t d inv p r held =
      (tt, enqueue_leaves R q id t q' id' body idem created ttl d held)
  step_leaves (claims q' n deadline) t d inv p r held =
      claim_leaves R q id t q' deadline n d inv held
  step_leaves (renews q' id' deadline) t d inv p r held =
      (tt, renew_leaves R q id t q' id' deadline d held)
  step_leaves (acks q' names) t d inv p r held = (tt, ack_leaves R q id t q' names d inv r held)
  step_leaves (fails q' id' next_at max_retries) t d inv p r held =
      (tt, fail_leaves R q id t q' id' next_at max_retries d inv r held)
  step_leaves (reaps q' now limit max_retries) t d inv p r held =
      (tt, reap_leaves R q id t q' now limit max_retries d inv r held)
  step_leaves (drains q' now limit max_retries) t d inv p r held =
      (tt, retry_leaves R q id t q' now limit max_retries d inv held)
  step_leaves (schedules now quads) t d inv p r held =
      (tt, schedule_leaves R q id t now quads d held)
  step_leaves (creates id' q' spec body now next) t d inv p r held =
      (tt, (put_schedule-SameJobs R id' q' spec body now next d).leases q id ∙ held)
  step_leaves (deletes id') t d inv p r held =
      (tt, (delete_schedule-SameJobs R id' d).leases q id ∙ held)
  step_leaves (drops id') t d inv p r held =
      (tt, (drop_schedule-SameJobs R id' d).leases q id ∙ held)
  step_leaves (elects call link ttl l) t d inv window r held =
      (tt, (lock_step-SameJobs R call link ttl l d window).leases q id ∙ held)
  step_leaves (forgets key) t d inv p r held = (tt, (expire-SameJobs R _ d).leases q id ∙ held)
  step_leaves unlocks t d inv p r held = (tt, (expire-SameJobs R _ d).leases q id ∙ held)

  -- While a lease lasts, nobody else is handed the job: on a keyspace that keeps the invariant
  -- and holds a lease, after any permitted steps of any number of processes, none of which
  -- finishes the job and no reap pass of which has a clock at or past the deadline of the lease at
  -- that moment, the lease is still there, with the deadline of its last renewal, and no claim
  -- of the steps has handed out the job.
  pub lease_excludes :
      (steps : List Step) (t : ℤ) (d : Db)
      → Inv (view d)
      → AllPermitted R steps d
      → AllRespect q id t steps
      → HasLease q id t (view d)
      → AllWithhold steps d × HasLease q id (last_deadline q id t steps) (view (run R steps d))
  unfolding run
  lease_excludes [] t d inv p r held = (tt, held)
  lease_excludes (s ∷ steps) t d inv p r held =
      let (withheld, held') = step_leaves s t d inv p.0 r.0 held in
      let (rest, last) =
        lease_excludes steps (deadline_after q id t s) (apply R s d) (apply-Inv R s d inv p.0) p.1
          r.1 held' in
      ((withheld, rest), last)
