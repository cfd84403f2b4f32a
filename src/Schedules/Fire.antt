-- ===== src/Schedules/Fire.antt =====
-- A due schedule fires: its job is enqueued and its next time written in one step.
use cogs_crash_refresh_job_q.Prelude.{
  ℕ, true, false, List, [], ◌∷◌, Bytes, Option, some, none, ℤ, pos, leb_ℤ, ◌≡◌, refl, sym, ap,
  subst, ◌∙◌, ◌⊎◌, inl, inr, arith, bytes_eq, bytes_eq_refl, bytes_eq_ne, Bool-cases, Option-cases,
}
use cogs_crash_refresh_job_q.Keys.{job_key, schedule_key, schedules_key}
use cogs_crash_refresh_job_q.Keys.Layout.{key_laws}
use cogs_crash_refresh_job_q.Redis.{
  Redis, View, Value, queue, last_run, int, value_bytes, at_member, at_field,
}
use cogs_crash_refresh_job_q.Jobs.{Inv, Keeps, Keeps-Inv}
use cogs_crash_refresh_job_q.Jobs.Enqueue.{added, added-Inv, new_fields, view-put_job, IsFresh}
use cogs_crash_refresh_job_q.Schedules.{Quad, fire, schedule_one, schedule_script}

-- The schedule has a new time, and has last run now.
abbrev pub rescheduled : Bytes → ℤ → ℕ → View → View
rescheduled id next now v = record v {
  zsets = at_member v.zsets schedules_key id (some next);
  hashes = at_field v.hashes (schedule_key id) last_run (some (int now));
}

rescheduled-Keeps :
    (id : Bytes) (next : ℤ) (now : ℕ) (v : View) → Keeps v (rescheduled id next now v)
rescheduled-Keeps id next now v = record {
  same_places = λ q' id'. simp key_laws;
  same_queue = λ id'. simp key_laws;
  still_numbered = λ id' n e. (n, simp key_laws e);
}

module _ (R : Redis) (now : ℕ) (s : Quad) (d : R.Db) where
  open R use {Db, view, zscore, hget, hset, zadd, zscore_reply, hget_reply, view-hset, view-zadd}

  abbrev pub one : Option Bytes × Db
  one = schedule_one R schedules_key now s d

  -- The keyspace after the schedule has fired into a queue.
  abbrev pub fired : Bytes → View → View
  fired q v =
      rescheduled s.sched_id s.next_run now
        (added q s.job_id (new_fields R q s.job_id s.body [] now v) v)

  -- The schedule is due and its hash names a queue.
  abbrev pub IsDue : Value → Type 0
  IsDue v =
      (t : ℤ) × ((view d).zsets schedules_key s.sched_id ≡ some t)
      × (leb_ℤ t (pos now) ≡ true)
      × ((view d).hashes (schedule_key s.sched_id) queue ≡ some v)

  pub fire_due :
      (v : Value)
      → IsDue v
      → (one.0 ≡ some (value_bytes v)) × (view one.1 ≡ fired (value_bytes v) (view d))
  unfolding schedule_one fire
  fire_due v (t, at, due, into) =
      let e : zscore schedules_key s.sched_id d ≡ some t = zscore_reply _ _ _ ∙ at in
      let f : hget (schedule_key s.sched_id) queue d ≡ some v = hget_reply _ _ _ ∙ into in
      (
        rw (e, schedule_one, due, f) refl,
        rw (e, schedule_one, due, f) (simp (view-zadd, view-hset, view-put_job)),
      )

  pub not_due_unchanged :
      (t : ℤ)
      → (view d).zsets schedules_key s.sched_id ≡ some t
      → leb_ℤ t (pos now) ≡ false
      → (one.0 ≡ none) × (view one.1 ≡ view d)
  unfolding schedule_one
  not_due_unchanged t at early =
      let e : zscore schedules_key s.sched_id d ≡ some t = zscore_reply _ _ _ ∙ at in
      (rw (e, schedule_one, early) refl, rw (e, schedule_one, early) refl)

  pub unknown_unchanged :
      (view d).zsets schedules_key s.sched_id ≡ none → (one.0 ≡ none) × (view one.1 ≡ view d)
  unfolding schedule_one
  unknown_unchanged absent =
      let e : zscore schedules_key s.sched_id d ≡ none = zscore_reply _ _ _ ∙ absent in
      (rw (e, schedule_one) refl, rw (e, schedule_one) refl)

  no_queue_unchanged :
      (t : ℤ)
      → (view d).zsets schedules_key s.sched_id ≡ some t
      → leb_ℤ t (pos now) ≡ true
      → (view d).hashes (schedule_key s.sched_id) queue ≡ none
      → (one.0 ≡ none) × (view one.1 ≡ view d)
  unfolding schedule_one
  no_queue_unchanged t at due missing =
      let e : zscore schedules_key s.sched_id d ≡ some t = zscore_reply _ _ _ ∙ at in
      let f : hget (schedule_key s.sched_id) queue d ≡ none = hget_reply _ _ _ ∙ missing in
      (rw (e, schedule_one, due, f) refl, rw (e, schedule_one, due, f) refl)

  -- A schedule that is due and names a queue enqueues exactly one job there and is given its next
  -- time; any other leaves the keyspace as it was.
  pub schedule_one_outcome :
      ((v : Value) × IsDue v
        × (one.0 ≡ some (value_bytes v))
        × (view one.1 ≡ fired (value_bytes v) (view d)))
      ⊎ ((one.0 ≡ none) × (view one.1 ≡ view d))
  schedule_one_outcome = elim (Option-cases ((view d).zsets schedules_key s.sched_id)) [
    | inl absent ↦ inr (unknown_unchanged absent)
    | inr (t, at) ↦ elim (Bool-cases (leb_ℤ t (pos now))) [
      | inr early ↦ inr (not_due_unchanged t at early)
      | inl due ↦ elim (Option-cases ((view d).hashes (schedule_key s.sched_id) queue)) [
        | inl missing ↦ inr (no_queue_unchanged t at due missing)
        | inr (v, into) ↦
            let (reply, w) = fire_due v (t, at, due, into) in inl (v, (t, at, due, into), reply, w)
      ]
    ]
  ]

  -- One round keeps the invariant, if the job's ID is new.
  pub schedule_one-Inv : Inv (view d) → IsFresh (view d) s.job_id → Inv (view one.1)
  schedule_one-Inv inv fresh = elim schedule_one_outcome [
    | inl (v, due, reply, w) ↦ subst Inv (sym w) (
        Keeps-Inv (rescheduled-Keeps s.sched_id s.next_run now _)
          (added-Inv (value_bytes v) s.job_id _ (view d) inv fresh refl refl))
    | inr (reply, w) ↦ subst Inv (sym w) inv
  ]

  pub fired_score :
      (q : Bytes) → one.0 ≡ some q → (view one.1).zsets schedules_key s.sched_id ≡ some s.next_run
  fired_score q reply = elim schedule_one_outcome [
    | inl (v, due, r, w) ↦ rw w (simp bytes_eq_refl)
    | inr (r, w) ↦ absurd (ground (arith, r, reply))
  ]

-- The schedule is not there, not due, or names no queue.
abbrev pub IsIdle : View → ℕ → Quad → Type 0
IsIdle v now s =
    (v.zsets schedules_key s.sched_id ≡ none)
    ⊎ ((t : ℤ) × (v.zsets schedules_key s.sched_id ≡ some t) × (leb_ℤ t (pos now) ≡ false))
    ⊎ (v.hashes (schedule_key s.sched_id) queue ≡ none)

abbrev pub AllIdle : View → ℕ → List Quad → Type 0
AllIdle v now [] = Unit
AllIdle v now (s ∷ quads) = IsIdle v now s × AllIdle v now quads

module _ (R : Redis) (now : ℕ) where
  open R use {Db, view}

  pub one_idle : (s : Quad) (d : Db) → IsIdle (view d) now s → view (one R now s d).1 ≡ view d
  one_idle s d (inl absent) = (unknown_unchanged R now s d absent).1
  one_idle s d (inr (inl (t, at, early))) = (not_due_unchanged R now s d t at early).1
  one_idle s d (inr (inr missing)) = elim (schedule_one_outcome R now s d) [
    | inl (v, due, r, w) ↦ cc (due.3, missing)
    | inr (r, w) ↦ w
  ]

  -- A call of the script with schedules that cannot fire changes nothing: so a call that is sent
  -- again, once the first one has moved their times past its clock.
  pub script_idle :
      (quads : List Quad) (d : Db)
      → AllIdle (view d) now quads
      → view (schedule_script R schedules_key now quads d).1 ≡ view d
  unfolding schedule_script
  script_idle [] d idle = refl
  script_idle (s ∷ quads) d idle =
      let same = one_idle s d idle.0 in
      script_idle quads (one R now s d).1 (subst (λ v. AllIdle v now quads) (sym same) idle.1)
      ∙ same

-- The job IDs of the quads are new and distinct.
abbrev pub NotAmong : Bytes → List Quad → Type 0
NotAmong id [] = Unit
NotAmong id (s ∷ quads) = (bytes_eq id s.job_id ≡ false) × NotAmong id quads

abbrev pub AllFresh : View → List Quad → Type 0
AllFresh v [] = Unit
AllFresh v (s ∷ quads) = IsFresh v s.job_id × NotAmong s.job_id quads × AllFresh v quads

module _ (R : Redis) (now : ℕ) where
  open R use {Db, view}

  -- The hash of another job is not touched.
  one_other_job :
      (s : Quad) (d : Db) (id : Bytes)
      → bytes_eq s.job_id id ≡ false
      → (view (one R now s d).1).hashes (job_key id) queue ≡ (view d).hashes (job_key id) queue
  one_other_job s d id other = elim (schedule_one_outcome R now s d) [
    | inl (v, due, reply, w) ↦ rw w (simp key_laws (rw other refl))
    | inr (reply, w) ↦ rw w refl
  ]

  still-IsFresh :
      (s : Quad) (d : Db) (id : Bytes)
      → bytes_eq s.job_id id ≡ false
      → IsFresh (view d) id
      → IsFresh (view (one R now s d).1) id
  still-IsFresh s d id other fresh = one_other_job s d id other ∙ fresh

  still_AllFresh :
      (s : Quad) (d : Db) (quads : List Quad)
      → NotAmong s.job_id quads
      → AllFresh (view d) quads
      → AllFresh (view (one R now s d).1) quads
  still_AllFresh s d [] apart fresh = tt
  still_AllFresh s d (t ∷ quads) apart fresh = (
    still-IsFresh s d t.job_id apart.0 fresh.0,
    fresh.1,
    still_AllFresh s d quads apart.1 fresh.2,
  )

  -- A whole pass of the scheduler keeps the invariant, if the job IDs that it prepared are new
  -- and distinct.
  pub schedule_script-Inv :
      (quads : List Quad) (d : Db)
      → Inv (view d)
      → AllFresh (view d) quads
      → Inv (view (schedule_script R schedules_key now quads d).1)
  unfolding schedule_script
  schedule_script-Inv [] d inv fresh = inv
  schedule_script-Inv (s ∷ quads) d inv fresh =
      schedule_script-Inv quads (one R now s d).1 (schedule_one-Inv R now s d inv fresh.0)
        (still_AllFresh s d quads fresh.1 fresh.2)

  -- A pass changes the queue of no job that is there.
  pub schedule_script-queue :
      (quads : List Quad) (d : Db) (id : Bytes) {v : Value}
      → AllFresh (view d) quads
      → (view d).hashes (job_key id) queue ≡ some v
      → (view (schedule_script R schedules_key now quads d).1).hashes (job_key id) queue ≡ some v
  unfolding schedule_script
  schedule_script-queue [] d id fresh there = there
  schedule_script-queue (s ∷ quads) d id fresh there =
      schedule_script-queue quads (one R now s d).1 id (still_AllFresh s d quads fresh.1 fresh.2) (
        one_other_job s d id (
          bytes_eq_ne s.job_id id
            (λ e. cc (ap (λ x. (view d).hashes (job_key x) queue) e, fresh.0)))
        ∙ there)
