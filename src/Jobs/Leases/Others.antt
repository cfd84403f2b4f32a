-- ===== src/Jobs/Leases/Others.antt =====
-- What the other scripts do to a lease that is not theirs.

use cogs_crash_refresh_job_q.Prelude.{
  ℕ, true, false, List, [], ◌∷◌, Bytes, ℤ, ltb_ℤ, ◌≡◌, ◌⊎◌, ◌&&◌, refl, ◌∙◌, inl, inr, arith, ◌==◌,
  if◌then◌else◌, count, bytes_eq, bytes_eq_sound, Bool-cases,
}
use cogs_crash_refresh_job_q.Keys.{leased_key, schedules_key}
use cogs_crash_refresh_job_q.Keys.Layout.{key_laws, retry-leased}
use cogs_crash_refresh_job_q.Keys.Families.{del_laws}
use cogs_crash_refresh_job_q.Redis.{Redis, View}
use cogs_crash_refresh_job_q.Scripts.{ack_script, FailReply, gone, retried, dead_lettered}
use cogs_crash_refresh_job_q.Schedules.{Quad, schedule_script}
use cogs_crash_refresh_job_q.Schedules.Fire.{one, schedule_one_outcome}
use cogs_crash_refresh_job_q.Jobs.Relocate.{leased, retry}
use cogs_crash_refresh_job_q.Jobs.Fail.{FailOutcome, after, fail_script_outcome}
use cogs_crash_refresh_job_q.Jobs.Ack.{ack, ack_script-Acks}
use cogs_crash_refresh_job_q.Jobs.Pass.{pass, drain_script_early}
use cogs_crash_refresh_job_q.Jobs.Elsewhere.{pass_elsewhere, pass_other_sets}
use cogs_crash_refresh_job_q.Jobs.Enqueue.{enqueue}
use cogs_crash_refresh_job_q.Jobs.Idempotency.{enqueue_outcome}
use cogs_crash_refresh_job_q.Jobs.{Inv}
use cogs_crash_refresh_job_q.Jobs.Renew.{renew, renew_script_outcome}
use cogs_crash_refresh_job_q.Jobs.Leases.{HasLease}

-- Whatever the fail script does with one job, it leaves the leases of others.
failed_leaves :
    (q id : Bytes) (t : ℤ) (q' id' : Bytes) (next_at : ℤ) (max_retries : ℕ) (v w : View)
    (r : FailReply)
    → (bytes_eq q' q && bytes_eq id' id) ≡ false
    → HasLease q id t v
    → FailOutcome v w q' id' next_at max_retries r
    → HasLease q id t w
failed_leaves q id t q' id' next_at max_retries v w gone other held o = rw o.1 held
failed_leaves q id t q' id' next_at max_retries v w dead_lettered other held o =
    rw (o.4) (simp key_laws (rw other held))
failed_leaves q id t q' id' next_at max_retries v w retried other held o =
    rw (o.4) (simp key_laws (rw other held))

module _ (R : Redis) (q id : Bytes) (t : ℤ) where
  open R use {Db, view, rpop, zrem, rpop_reply, view-rpop, view-zadd, view-zrem, view-del}

  -- A renewal of the lease sets its deadline, and one of another lease leaves it.
  pub renew_leaves :
      (q' id' : Bytes) (deadline : ℤ) (d : Db)
      → HasLease q id t (view d)
      → HasLease q id
          (if bytes_eq q' q && bytes_eq id' id then deadline else t)
          (view (renew R q' id' deadline d).1)
  renew_leaves q' id' deadline d held = elim (renew_script_outcome R q' id' deadline d) [
    | inl (there, r, w) ↦ rw w (simp key_laws (ground (arith, held)))
    | inr (absent, r, w) ↦
        rw w (ground (arith, held, absent, bytes_eq_sound q' q, bytes_eq_sound id' id))
  ]

  -- A failure report on another job leaves the lease.
  pub fail_leaves :
      (q' id' : Bytes) (next_at : ℤ) (max_retries : ℕ) (d : Db)
      → Inv (view d)
      → (bytes_eq q' q && bytes_eq id' id) ≡ false
      → HasLease q id t (view d)
      → HasLease q id t (view (after R q' id' next_at max_retries d).1)
  fail_leaves q' id' next_at max_retries d inv other held =
      let (r, reply, o) = fail_script_outcome R q' id' next_at max_retries d inv in
      failed_leaves q id t q' id' next_at max_retries (view d) _ r other held o

  ack_elsewhere :
      (q' : Bytes)
      → bytes_eq q' q ≡ false
      → (names : List Bytes) (d : Db)
      → (view (ack R q' names d).1).zsets (leased_key q) id ≡ (view d).zsets (leased_key q) id
  unfolding ack_script
  ack_elsewhere q' other [] d = refl
  ack_elsewhere q' other (x ∷ names) d = elim (Bool-cases ((zrem (leased_key q') x d).0 == 1)) [
    | inl removed ↦
        rw (removed, ack_script)
          (ack_elsewhere q' other names _
            ∙ simp (view-del, view-zrem, key_laws, del_laws) (rw other refl))
    | inr absent ↦
        rw (absent, ack_script)
          (ack_elsewhere q' other names _ ∙ simp (view-zrem, key_laws) (rw other refl))
  ]

  -- An acknowledgement on another queue, or of other jobs, leaves the lease.
  pub ack_leaves :
      (q' : Bytes) (names : List Bytes) (d : Db)
      → Inv (view d)
      → (bytes_eq q' q ≡ false) ⊎ (count id names ≡ 0)
      → HasLease q id t (view d)
      → HasLease q id t (view (ack R q' names d).1)
  ack_leaves q' names d inv spared held = elim (Bool-cases (bytes_eq q' q)) [
    | inr other ↦ ack_elsewhere q' other names d ∙ held
    | inl same ↦
        let e = bytes_eq_sound q' q same in
        let unnamed : count id names ≡ 0 = ground (arith, spared) in
        rw (← e)
          ((ack_script-Acks R q' names d inv).0.leased_after id ∙ rw e (ground (arith, unnamed)))
  ]

  -- A reap pass over another queue, or before the deadline, leaves the lease.
  pub reap_leaves :
      (q' : Bytes) (now : ℤ) (limit max_retries : ℕ) (d : Db)
      → Inv (view d)
      → (bytes_eq q' q ≡ false) ⊎ (ltb_ℤ now t ≡ true)
      → HasLease q id t (view d)
      → HasLease q id t (view (pass R leased true max_retries q' now limit d).1)
  reap_leaves q' now limit max_retries d inv early held = elim (Bool-cases (bytes_eq q' q)) [
    | inr other ↦ pass_elsewhere R leased true max_retries q' now limit d q id inv other ∙ held
    | inl same ↦
        let e = bytes_eq_sound q' q same in
        let before : ltb_ℤ now t ≡ true = ground (arith, early) in
        rw (← e)
          (drain_script_early R leased true max_retries q' now limit d id t inv (rw e held) before)
  ]

  -- A pass of the retry drainer leaves every lease.
  pub retry_leaves :
      (q' : Bytes) (now : ℤ) (limit max_retries : ℕ) (d : Db)
      → Inv (view d)
      → HasLease q id t (view d)
      → HasLease q id t (view (pass R retry false max_retries q' now limit d).1)
  retry_leaves q' now limit max_retries d inv held =
      pass_other_sets R retry false max_retries q' now limit d (leased_key q) id inv
        (retry-leased q' q)
      ∙ held

  -- An enqueue call leaves every lease.
  pub enqueue_leaves :
      (q' id' body idem : Bytes) (created ttl : ℕ) (d : Db)
      → HasLease q id t (view d)
      → HasLease q id t (view (enqueue R q' id' body idem created ttl d).1)
  enqueue_leaves q' id' body idem created ttl d held =
      elim (enqueue_outcome R q' id' body idem created ttl d) [
        | inl made ↦ rw made.1 (elim (Bool-cases (bytes_eq idem [])) [
          | inl plain ↦ rw plain held
          | inr keyed ↦ rw keyed held
        ])
        | inr (inl again) ↦ rw again.3 held
        | inr (inr refused) ↦ rw refused.2 held
      ]

  -- The scheduler leaves every lease.
  pub schedule_leaves :
      (now : ℕ) (quads : List Quad) (d : Db)
      → HasLease q id t (view d)
      → HasLease q id t (view (schedule_script R schedules_key now quads d).1)
  unfolding schedule_script
  schedule_leaves now [] d held = held
  schedule_leaves now (s ∷ quads) d held =
      schedule_leaves now quads (one R now s d).1 (elim (schedule_one_outcome R now s d) [
        | inl (v, due, reply, w) ↦ rw w (simp key_laws held)
        | inr (reply, w) ↦ rw w held
      ])
