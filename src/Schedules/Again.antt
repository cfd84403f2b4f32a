-- ===== src/Schedules/Again.antt =====
-- A call of the schedule script that is sent again, with the same arguments.
use cogs_crash_refresh_job_q.Prelude.{
  ℕ, true, false, List, [], ◌∷◌, pos, leb_ℤ, ltb_ℤ, ◌≡◌, sym, subst, ◌⊎◌, inl, inr, arith, bytes_eq,
  bytes_eq_sound, Bool-cases, Option-cases,
}
use cogs_crash_refresh_job_q.Keys.{schedule_key, schedules_key}
use cogs_crash_refresh_job_q.Keys.Layout.{key_laws}
use cogs_crash_refresh_job_q.Redis.{Redis, Value, queue}
use cogs_crash_refresh_job_q.Schedules.{Quad, schedule_script}
use cogs_crash_refresh_job_q.Schedules.Fire.{
  one, IsDue, IsIdle, AllIdle, fire_due, fired_score, one_idle, script_idle, schedule_one_outcome,
}

-- The new times are after the clock, as a cron parser gives them.
abbrev pub AllAhead : ℕ → List Quad → Type 0
AllAhead now [] = Unit
AllAhead now (s ∷ quads) = (ltb_ℤ (pos now) s.next_run ≡ true) × AllAhead now quads

module _ (R : Redis) (now : ℕ) where
  open R use {Db, view}

  IsDue-or-IsIdle : (s : Quad) (d : Db) → ((v : Value) × IsDue R now s d v) ⊎ IsIdle (view d) now s
  IsDue-or-IsIdle s d = elim (Option-cases ((view d).zsets schedules_key s.sched_id)) [
    | inl absent ↦ inr (inl absent)
    | inr (t, at) ↦ elim (Bool-cases (leb_ℤ t (pos now))) [
      | inr early ↦ inr (inr (inl (t, at, early)))
      | inl due ↦ elim (Option-cases ((view d).hashes (schedule_key s.sched_id) queue)) [
        | inl missing ↦ inr (inr (inr missing))
        | inr (v, into) ↦ inl (v, (t, at, due, into))
      ]
    ]
  ]

  one_after-IsIdle :
      (s : Quad) (d : Db)
      → ltb_ℤ (pos now) s.next_run ≡ true
      → IsIdle (view (one R now s d).1) now s
  one_after-IsIdle s d ahead = elim (IsDue-or-IsIdle s d) [
    | inr idle ↦ subst (λ v. IsIdle v now s) (sym (one_idle R now s d idle)) idle
    | inl (v, due) ↦ inr (
        inl
          (s.next_run, fired_score R now s d _ (fire_due R now s d v due).0, ground (arith, ahead)))
  ]

  -- A round for another schedule touches neither the time nor the queue of this one.
  other-IsIdle :
      (s s' : Quad) (d : Db)
      → bytes_eq s'.sched_id s.sched_id ≡ false
      → IsIdle (view d) now s
      → IsIdle (view (one R now s' d).1) now s
  other-IsIdle s s' d other idle = elim (schedule_one_outcome R now s' d) [
    | inr (r, w) ↦ subst (λ v. IsIdle v now s) (sym w) idle
    | inl (v, due, r, w) ↦ elim idle [
      | inl absent ↦ inl (rw w (simp key_laws (rw other absent)))
      | inr (inl (t, at, early)) ↦ inr (inl (t, rw w (simp key_laws (rw other at)), early))
      | inr (inr missing) ↦ inr (inr (rw w (simp key_laws (rw other missing))))
    ]
  ]

  still-IsIdle :
      (s s' : Quad) (d : Db) → IsIdle (view d) now s → IsIdle (view (one R now s' d).1) now s
  still-IsIdle s s' d idle = elim (Bool-cases (bytes_eq s'.sched_id s.sched_id)) [
    | inr other ↦ other-IsIdle s s' d other idle
    | inl same ↦
        let e = bytes_eq_sound s'.sched_id s.sched_id same in
        let idle' : IsIdle (view d) now s' = rw e idle in
        subst (λ v. IsIdle v now s) (sym (one_idle R now s' d idle')) idle
  ]

  script_keeps-IsIdle :
      (s : Quad) (quads : List Quad) (d : Db)
      → IsIdle (view d) now s
      → IsIdle (view (schedule_script R schedules_key now quads d).1) now s
  unfolding schedule_script
  script_keeps-IsIdle s [] d idle = idle
  script_keeps-IsIdle s (s' ∷ quads) d idle =
      script_keeps-IsIdle s quads (one R now s' d).1 (still-IsIdle s s' d idle)

  -- After a call whose new times are after its clock, none of its schedules can fire at it again.
  pub script_after-AllIdle :
      (quads : List Quad) (d : Db)
      → AllAhead now quads
      → AllIdle (view (schedule_script R schedules_key now quads d).1) now quads
  unfolding schedule_script
  script_after-AllIdle [] d ahead = tt
  script_after-AllIdle (s ∷ quads) d ahead = (
    script_keeps-IsIdle s quads (one R now s d).1 (one_after-IsIdle s d ahead.0),
    script_after-AllIdle quads (one R now s d).1 ahead.1,
  )

  -- A call of the schedule script that is sent again changes nothing, if its new times are after
  -- its clock.
  pub script_again :
      (quads : List Quad) (d : Db)
      → AllAhead now quads
      → let d' = (schedule_script R schedules_key now quads d).1 in
        view (schedule_script R schedules_key now quads d').1 ≡ view d'
  script_again quads d ahead =
      script_idle R now quads (schedule_script R schedules_key now quads d).1
        (script_after-AllIdle quads d ahead)
