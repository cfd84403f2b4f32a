-- ===== src/System/Markers.antt =====
-- The marker of an idempotency key stands until it runs out, whatever others do.
use cogs_crash_refresh_job_q.Prelude.{
  ℕ, ◌<◌, false, true, List, [], ◌∷◌, Bytes, Option, some, ◌≡◌, ◌≢◌, ◌∙◌, ◌==◌, bytes_eq,
  bytes_eq_refl, bytes_eq_sound, bytes_eq_ne, Bool-cases, Option-cases, inl, inr, arith,
}
use cogs_crash_refresh_job_q.Results.{Result, ok}
use cogs_crash_refresh_job_q.Keys.{idem_key, schedules_key}
use cogs_crash_refresh_job_q.Keys.Layout.{key_laws}
use cogs_crash_refresh_job_q.Keys.Families.{del_laws}
use cogs_crash_refresh_job_q.Redis.{Redis, View}
use cogs_crash_refresh_job_q.Jobs.{Inv}
use cogs_crash_refresh_job_q.Jobs.Relocate.{leased, retry}
use cogs_crash_refresh_job_q.Jobs.Enqueue.{
  enqueue, IsFresh, enqueue_plain, enqueue_refused, enqueue_hit, enqueue_marks,
}
use cogs_crash_refresh_job_q.Jobs.Idempotency.{enqueue_outcome, enqueue-Inv}
use cogs_crash_refresh_job_q.Jobs.Apart.{
  claim-Apart, renew-Apart, ack-Apart, fail-Apart, pass-Apart, lock_step-Apart,
}
use cogs_crash_refresh_job_q.Schedules.{Quad, schedule_script, put_schedule, delete_schedule}
use cogs_crash_refresh_job_q.Schedules.Fire.{one, schedule_one_outcome}
use cogs_crash_refresh_job_q.System.{
  Step, enqueues, claims, renews, acks, fails, reaps, drains, schedules, creates, deletes, drops,
  elects, forgets, unlocks, Permits, apply, run, AllPermitted,
}
use cogs_crash_refresh_job_q.System.Survival.{apply-Inv}

-- The marker of the key names the job.
abbrev pub IsMarked : Bytes → Bytes → View → Type 0
IsMarked idem owner v = v.strings (idem_key idem) ≡ some owner

-- The step is not the end of the marker's time.
abbrev pub Remembers : Bytes → Step → Type 0
Remembers idem (forgets key) = bytes_eq key idem ≡ false
Remembers idem s = Unit

abbrev pub AllRemember : Bytes → List Step → Type 0
AllRemember idem [] = Unit
AllRemember idem (s ∷ steps) = Remembers idem s × AllRemember idem steps

module _ (R : Redis) (idem owner : Bytes) where
  open R use {Db, view, view-hset, view-zadd, view-zrem, view-del, view-expire}

  keyed_leaves :
      (q id body key : Bytes) (created ttl : ℕ) (d : Db)
      → bytes_eq key [] ≡ false
      → (ttl == 0) ≡ false
      → IsMarked idem owner (view d)
      → IsMarked idem owner (view (enqueue R q id body key created ttl d).1)
  keyed_leaves q id body key created ttl d keyed window there =
      elim (Option-cases ((view d).strings (idem_key key))) [
        | inr (old, e) ↦ rw (enqueue_hit R q id body key created ttl d old keyed window e).1 there
        | inl absent ↦ elim (Bool-cases (bytes_eq key idem)) [
          | inl same ↦ absurd (cc (bytes_eq_sound key idem same, absent, there))
          | inr other ↦
              rw (enqueue_marks R q id body key created ttl d keyed window absent).1
                (simp key_laws (rw other there))
        ]
      ]

  -- An enqueue call leaves the marker of every key that has one.
  enqueue_leaves :
      (q id body key : Bytes) (created ttl : ℕ) (d : Db)
      → IsMarked idem owner (view d)
      → IsMarked idem owner (view (enqueue R q id body key created ttl d).1)
  enqueue_leaves q id body key created ttl d there = elim (Bool-cases (bytes_eq key [])) [
    | inl plain ↦ rw (enqueue_plain R q id body key created ttl d plain).1 there
    | inr keyed ↦ elim (Bool-cases (ttl == 0)) [
      | inl zero ↦
          let z : ttl ≡ 0 = ground arith in
          rw (enqueue_refused R q id body key created ttl d keyed z).1 there
      | inr window ↦ keyed_leaves q id body key created ttl d keyed window there
    ]
  ]

  schedule_leaves :
      (now : ℕ) (quads : List Quad) (d : Db)
      → IsMarked idem owner (view d)
      → IsMarked idem owner (view (schedule_script R schedules_key now quads d).1)
  unfolding schedule_script
  schedule_leaves now [] d there = there
  schedule_leaves now (s ∷ quads) d there =
      schedule_leaves now quads (one R now s d).1 (elim (schedule_one_outcome R now s d) [
        | inl (v, due, reply, w) ↦ rw w there
        | inr (reply, w) ↦ rw w there
      ])

  step_leaves :
      (s : Step) (d : Db)
      → Inv (view d)
      → Permits (view d) s
      → Remembers idem s
      → IsMarked idem owner (view d)
      → IsMarked idem owner (view (apply R s d))
  unfolding apply put_schedule delete_schedule
  step_leaves (enqueues q id body key created ttl) d inv p r there =
      enqueue_leaves q id body key created ttl d there
  step_leaves (claims q n deadline) d inv p r there =
      (claim-Apart R q deadline n d).markers idem ∙ there
  step_leaves (renews q id deadline) d inv p r there =
      (renew-Apart R q id deadline d).markers idem ∙ there
  step_leaves (acks q names) d inv p r there = (ack-Apart R q names d).markers idem ∙ there
  step_leaves (fails q id next_at max_retries) d inv p r there =
      (fail-Apart R q id next_at max_retries d inv).markers idem ∙ there
  step_leaves (reaps q now limit max_retries) d inv p r there =
      (pass-Apart R leased true max_retries q now limit d inv).markers idem ∙ there
  step_leaves (drains q now limit max_retries) d inv p r there =
      (pass-Apart R retry false max_retries q now limit d inv).markers idem ∙ there
  step_leaves (schedules now quads) d inv p r there = schedule_leaves now quads d there
  step_leaves (creates id q spec body now next) d inv p r there = simp (view-zadd, view-hset) there
  step_leaves (deletes id) d inv p r there = simp (view-del, view-zrem, del_laws) there
  step_leaves (drops id) d inv p r there = simp view-zrem there
  step_leaves (elects call link ttl l) d inv p r there =
      (lock_step-Apart R call link ttl l d p).markers idem ∙ there
  step_leaves (forgets key) d inv p r there = simp (view-expire, key_laws) (rw r there)
  step_leaves unlocks d inv p r there = simp (view-expire, key_laws) there

  marker_stays :
      (steps : List Step) (d : Db)
      → Inv (view d)
      → AllPermitted R steps d
      → AllRemember idem steps
      → IsMarked idem owner (view d)
      → IsMarked idem owner (view (run R steps d))
  unfolding run
  marker_stays [] d inv p r there = there
  marker_stays (s ∷ steps) d inv p r there =
      marker_stays steps (apply R s d) (apply-Inv R s d inv p.0) p.1 r.1
        (step_leaves s d inv p.0 r.0 there)

module _ (R : Redis) (q id body idem : Bytes) (created ttl : ℕ) (d : R.Db) where
  open R use {Db, view}

  abbrev pub first : Result (ℕ × Option Bytes) × Db
  first = enqueue R q id body idem created ttl d

  first-IsMarked :
      (c : ℕ) (owner : Bytes)
      → idem ≢ []
      → first.0 ≡ ok (c, some owner)
      → IsMarked idem owner (view first.1)
  first-IsMarked c owner keyed reply = elim (enqueue_outcome R q id body idem created ttl d) [
    | inl (r, w) ↦ rw (w, bytes_eq_ne idem [] keyed, bytes_eq_refl) (cc)
    | inr (inl (old, e, r, w)) ↦ rw w (cc)
    | inr (inr (z, r, w)) ↦ cc
  ]

  -- Once a call with a non-empty idempotency key has replied with a job, then after any permitted
  -- steps of any number of processes during which the marker of that key does not run out, the
  -- job's own end included, a second call with the key, whatever its queue, its payload and its
  -- positive window, replies with the same job and changes nothing.
  pub enqueue_again :
      (c : ℕ) (owner : Bytes) (steps : List Step) (q' id' body' : Bytes) (created' ttl' : ℕ)
      → Inv (view d)
      → IsFresh (view d) id
      → idem ≢ []
      → 0 < ttl'
      → first.0 ≡ ok (c, some owner)
      → AllPermitted R steps first.1
      → AllRemember idem steps
      → let second = enqueue R q' id' body' idem created' ttl' (run R steps first.1) in
        (second.0 ≡ ok (0, some owner)) × (view second.1 ≡ view (run R steps first.1))
  enqueue_again c owner steps q' id' body' created' ttl' inv fresh keyed window reply p r =
      enqueue_hit R q' id' body' idem created' ttl' (run R steps first.1) owner
        (bytes_eq_ne idem [] keyed) (ground arith)
        (marker_stays R idem owner steps first.1
          (enqueue-Inv R q id body idem created ttl d inv fresh) p r
          (first-IsMarked c owner keyed reply))
