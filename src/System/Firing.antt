-- ===== src/System/Firing.antt =====
-- A schedule that has fired stays quiet until its next time.
use cogs_crash_refresh_job_q.Prelude.{
  ℕ, false, true, List, [], ◌∷◌, map, Bytes, ℤ, some, pos, ltb_ℤ, ◌≡◌, ◌∙◌, refl, count, bytes_eq,
  bytes_eq_sound, Bool-cases, inl, inr, arith,
}
use cogs_crash_refresh_job_q.Keys.{schedules_key}
use cogs_crash_refresh_job_q.Keys.Layout.{key_laws}
use cogs_crash_refresh_job_q.Keys.Families.{del_laws}
use cogs_crash_refresh_job_q.Redis.{Redis, View}
use cogs_crash_refresh_job_q.Jobs.{Inv}
use cogs_crash_refresh_job_q.Jobs.Relocate.{leased, retry}
use cogs_crash_refresh_job_q.Jobs.Enqueue.{enqueue, IsFresh}
use cogs_crash_refresh_job_q.Jobs.Idempotency.{enqueue_outcome}
use cogs_crash_refresh_job_q.Jobs.Apart.{
  claim-Apart, renew-Apart, ack-Apart, fail-Apart, pass-Apart, lock_step-Apart,
}
use cogs_crash_refresh_job_q.Schedules.{
  Quad, Fired, schedule_script, put_schedule, delete_schedule, add_fired,
}
use cogs_crash_refresh_job_q.Schedules.Fire.{
  one, schedule_one_outcome, not_due_unchanged, fired_score, schedule_one-Inv,
}
use cogs_crash_refresh_job_q.System.{
  Step, enqueues, claims, renews, acks, fails, reaps, drains, schedules, creates, deletes, drops,
  elects, forgets, unlocks, Permits, apply, run, AllPermitted,
}
use cogs_crash_refresh_job_q.System.Survival.{apply-Inv}

abbrev pub fired_names : List Fired → List Bytes
fired_names l = map (λ (f : Fired). f.sched_id) l

-- The step does not write the schedule anew or take it away, and if it is a pass of a scheduler
-- then its clock is before the time.
abbrev pub Waits : Bytes → ℤ → Step → Type 0
Waits id next (schedules now quads) = ltb_ℤ (pos now) next ≡ true
Waits id next (creates id' q spec body now t) = bytes_eq id' id ≡ false
Waits id next (deletes id') = bytes_eq id' id ≡ false
Waits id next (drops id') = bytes_eq id' id ≡ false
Waits id next s = Unit

abbrev pub AllWait : Bytes → ℤ → List Step → Type 0
AllWait id next [] = Unit
AllWait id next (s ∷ steps) = Waits id next s × AllWait id next steps

-- The next time of the schedule.
abbrev pub IsNext : Bytes → ℤ → View → Type 0
IsNext id next v = v.zsets schedules_key id ≡ some next

module _ (R : Redis) (id : Bytes) where
  open R use {Db, view, view-hset, view-zadd, view-zrem, view-del, view-expire}

  -- The step is no call of the schedule script that fires the schedule.
  abbrev pub Quiet : Step → Db → Type 0
  Quiet (schedules now quads) d =
      count id (fired_names (schedule_script R schedules_key now quads d).0) ≡ 0
  Quiet s d = Unit

  abbrev pub AllQuiet : List Step → Db → Type 0
  AllQuiet [] d = Unit
  AllQuiet (s ∷ steps) d = Quiet s d × AllQuiet steps (apply R s d)

  enqueue_times :
      (q id' body idem : Bytes) (created ttl : ℕ) (next : ℤ) (d : Db)
      → IsNext id next (view d)
      → IsNext id next (view (enqueue R q id' body idem created ttl d).1)
  enqueue_times q id' body idem created ttl next d at =
      elim (enqueue_outcome R q id' body idem created ttl d) [
        | inl made ↦ rw made.1 (elim (Bool-cases (bytes_eq idem [])) [
          | inl plain ↦ rw plain at
          | inr keyed ↦ rw keyed at
        ])
        | inr (inl again) ↦ rw again.3 at
        | inr (inr refused) ↦ rw refused.2 at
      ]

  -- One round of a script call before the time: the schedule does not fire, and keeps its time.
  one_waits :
      (now : ℕ) (s : Quad) (next : ℤ) (d : Db)
      → ltb_ℤ (pos now) next ≡ true
      → IsNext id next (view d)
      → (l : List Fired)
      → (count id (fired_names (add_fired s.sched_id (one R now s d).0 l))
          ≡ count id (fired_names l))
        × IsNext id next (view (one R now s d).1)
  unfolding count
  one_waits now s next d early at l = elim (Bool-cases (bytes_eq s.sched_id id)) [
    | inl same ↦
        let e = bytes_eq_sound s.sched_id id same in
        let (r, w) = not_due_unchanged R now s d next (rw e at) (ground (arith, early)) in
        (rw r refl, rw w at)
    | inr other ↦ elim (schedule_one_outcome R now s d) [
      | inl (v, due, r, w) ↦ (rw (r, other) (omega arith), rw w (simp key_laws (rw other at)))
      | inr (r, w) ↦ (rw r refl, rw w at)
    ]
  ]

  script_waits :
      (now : ℕ) (next : ℤ)
      → ltb_ℤ (pos now) next ≡ true
      → (quads : List Quad) (d : Db) → IsNext id next (view d)
      → (count id (fired_names (schedule_script R schedules_key now quads d).0) ≡ 0)
        × IsNext id next (view (schedule_script R schedules_key now quads d).1)
  unfolding schedule_script count
  script_waits now next early [] d at = (refl, at)
  script_waits now next early (s ∷ quads) d at =
      let d' = (one R now s d).1 in
      let (quiet, at') =
        one_waits now s next d early at (schedule_script R schedules_key now quads d').0 in
      let (rest, at'') = script_waits now next early quads d' at' in (quiet ∙ rest, at'')

  step-Waits :
      (s : Step) (next : ℤ) (d : Db)
      → Inv (view d)
      → Permits (view d) s
      → Waits id next s
      → IsNext id next (view d)
      → Quiet s d × IsNext id next (view (apply R s d))
  unfolding apply put_schedule delete_schedule
  step-Waits (enqueues q id' body idem created ttl) next d inv p w at =
      (tt, enqueue_times q id' body idem created ttl next d at)
  step-Waits (claims q n deadline) next d inv p w at =
      (tt, (claim-Apart R q deadline n d).times id ∙ at)
  step-Waits (renews q id' deadline) next d inv p w at =
      (tt, (renew-Apart R q id' deadline d).times id ∙ at)
  step-Waits (acks q names) next d inv p w at = (tt, (ack-Apart R q names d).times id ∙ at)
  step-Waits (fails q id' next_at max_retries) next d inv p w at =
      (tt, (fail-Apart R q id' next_at max_retries d inv).times id ∙ at)
  step-Waits (reaps q now limit max_retries) next d inv p w at =
      (tt, (pass-Apart R leased true max_retries q now limit d inv).times id ∙ at)
  step-Waits (drains q now limit max_retries) next d inv p w at =
      (tt, (pass-Apart R retry false max_retries q now limit d inv).times id ∙ at)
  step-Waits (schedules now quads) next d inv p w at = script_waits now next w quads d at
  step-Waits (creates id' q spec body now t) next d inv p w at =
      (tt, simp (view-zadd, view-hset, key_laws) (rw w at))
  step-Waits (deletes id') next d inv p w at =
      (tt, simp (view-del, view-zrem, key_laws, del_laws) (rw w at))
  step-Waits (drops id') next d inv p w at = (tt, simp (view-zrem, key_laws) (rw w at))
  step-Waits (elects call link ttl l) next d inv p w at =
      (tt, (lock_step-Apart R call link ttl l d p).times id ∙ at)
  step-Waits (forgets key) next d inv p w at = (tt, simp view-expire at)
  step-Waits unlocks next d inv p w at = (tt, simp view-expire at)

  waits_on :
      (next : ℤ) (steps : List Step) (d : Db)
      → Inv (view d)
      → AllPermitted R steps d
      → AllWait id next steps
      → IsNext id next (view d)
      → AllQuiet steps d × IsNext id next (view (run R steps d))
  unfolding run
  waits_on next [] d inv p w at = (tt, at)
  waits_on next (s ∷ steps) d inv p w at =
      let (quiet, at') = step-Waits s next d inv p.0 w.0 at in
      let (rest, last) = waits_on next steps (apply R s d) (apply-Inv R s d inv p.0) p.1 w.1 at' in
      ((quiet, rest), last)

-- A schedule that has fired fires nothing again before its next time: after the round of a
-- script call that has fired it, whatever permitted steps follow, of any number of processes,
-- the rest of that pass and later passes over all schedules included, none of which registers,
-- deletes or drops that schedule and no pass of which has a clock at or past the time that the
-- round has set, no script call reports that it fires, and that time still stands.
pub schedule_fires_once :
    (R : Redis) (now : ℕ) (s : Quad) (d : R.Db) (q : Bytes) (steps : List Step)
    → (one R now s d).0 ≡ some q
    → Inv (R.view d)
    → IsFresh (R.view d) s.job_id
    → AllPermitted R steps (one R now s d).1
    → AllWait s.sched_id s.next_run steps
    → AllQuiet R s.sched_id steps (one R now s d).1
      × IsNext s.sched_id s.next_run (R.view (run R steps (one R now s d).1))
schedule_fires_once R now s d q steps fired inv fresh p w =
    waits_on R s.sched_id s.next_run steps (one R now s d).1 (schedule_one-Inv R now s d inv fresh)
      p w (fired_score R now s d q fired)
