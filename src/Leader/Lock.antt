-- ===== src/Leader/Lock.antt =====
-- At most one process is told that it leads, and no process takes the lock from another.
use cogs_crash_refresh_job_q.Prelude.{
  ℕ, ◌<◌, true, false, List, [], ◌∷◌, Bytes, Option, some, none, ◌≡◌, refl, ap, subst, sym, ◌∙◌,
  inl, inr, arith, ◌==◌, bytes_eq, bytes_eq_refl, bytes_eq_sound, Bool-cases, Option-cases,
}
use cogs_crash_refresh_job_q.Keys.{leader_key}
use cogs_crash_refresh_job_q.Redis.{Redis, View}
use cogs_crash_refresh_job_q.Results.{Link, answered, lost_call, lost_reply}
use cogs_crash_refresh_job_q.Leader.{
  Leader, LockCall, tries, releases, release_lock_script, renew_lock_script, renew_held, acquire,
  try_acquire, release, lock_step, lock_run,
}

module _ (R : Redis) where
  open R use {
    Db, view, get, del, set_nx, pexpire, get_reply, view-del, set_nx_reply, view-set_nx,
    pexpire_reply, view-pexpire,
  }

  -- The ID in the lock, if there is one.
  abbrev pub holder : Db → Option Bytes
  holder d = (view d).strings leader_key

  renew_foreign :
      (id owner : Bytes) (ttl : ℕ) (d : Db)
      → holder d ≡ some owner
      → bytes_eq owner id ≡ false
      → renew_lock_script R leader_key id ttl d ≡ (0, d)
  unfolding renew_lock_script
  renew_foreign id owner ttl d h other = rw (get_reply, h, other) refl

  release_foreign :
      (id owner : Bytes) (d : Db)
      → holder d ≡ some owner
      → bytes_eq owner id ≡ false
      → release_lock_script R leader_key id d ≡ (0, d)
  unfolding release_lock_script
  release_foreign id owner d h other = rw (get_reply, h, other) refl

  module _ (ttl : ℕ) (window : 0 < ttl) where
    pub acquire_foreign :
        (link : Link) (l : Leader) (d : Db) (owner : Bytes)
        → l.held ≡ false
        → holder d ≡ some owner
        → ((acquire R link ttl l d).0.held ≡ false) × (view (acquire R link ttl l d).1 ≡ view d)
    unfolding acquire
    acquire_foreign answered l d owner idle h =
        let positive : (ttl == 0) ≡ false = ground arith in
        (rw (set_nx_reply, positive, h) idle, rw (view-set_nx, positive, h) refl)
    acquire_foreign lost_call l d owner idle h = (idle, refl)
    acquire_foreign lost_reply l d owner idle h =
        let positive : (ttl == 0) ≡ false = ground arith in
        (idle, rw (view-set_nx, positive, h) refl)

    -- A free lock is taken.
    pub takes :
        (l : Leader) (d : Db) → holder d ≡ none → holder (acquire R answered ttl l d).1 ≡ some l.id
    unfolding acquire
    takes l d free =
        let positive : (ttl == 0) ≡ false = ground arith in
        ap (λ (w : View). w.strings leader_key) (view-set_nx leader_key l.id ttl d)
        ∙ rw (positive, free, bytes_eq_refl) refl

    -- A process whose call was answered has learnt that it does not lead.
    abbrev pub StandsDown : Link → Leader → Type 0
    StandsDown answered l = l.held ≡ false
    StandsDown lost_call l = Unit
    StandsDown lost_reply l = Unit

    renew-StandsDown :
        (link : Link) (l : Leader) (d : Db) (owner : Bytes)
        → holder d ≡ some owner
        → bytes_eq owner l.id ≡ false
        → StandsDown link (renew_held R link ttl l d).0
          × (view (renew_held R link ttl l d).1 ≡ view d)
    unfolding renew_held
    renew-StandsDown answered l d owner h other =
        rw (renew_foreign l.id owner ttl d h other) (refl, refl)
    renew-StandsDown lost_call l d owner h other = (tt, refl)
    renew-StandsDown lost_reply l d owner h other =
        rw (renew_foreign l.id owner ttl d h other) (tt, refl)

    pub acquire-StandsDown :
        (link : Link) (l : Leader) (d : Db) (owner : Bytes)
        → l.held ≡ false
        → holder d ≡ some owner
        → StandsDown link (acquire R link ttl l d).0 × (view (acquire R link ttl l d).1 ≡ view d)
    acquire-StandsDown answered l d owner idle h = acquire_foreign answered l d owner idle h
    acquire-StandsDown lost_call l d owner idle h =
        (tt, (acquire_foreign lost_call l d owner idle h).1)
    acquire-StandsDown lost_reply l d owner idle h =
        (tt, (acquire_foreign lost_reply l d owner idle h).1)

    try-StandsDown :
        (link : Link) (l : Leader) (d : Db) (owner : Bytes)
        → holder d ≡ some owner
        → bytes_eq owner l.id ≡ false
        → StandsDown link (try_acquire R link ttl l d).0
          × (view (try_acquire R link ttl l d).1 ≡ view d)
    unfolding try_acquire
    try-StandsDown link l d owner h other = elim (Bool-cases l.held) [
      | inl leads ↦ simp leads (renew-StandsDown link l d owner h other)
      | inr idle ↦ simp idle (acquire-StandsDown link l d owner idle h)
    ]

    release_stands_down :
        (link : Link) (l : Leader) (d : Db) (owner : Bytes)
        → holder d ≡ some owner
        → bytes_eq owner l.id ≡ false
        → ((release R link l d).0.held ≡ false) × (view (release R link l d).1 ≡ view d)
    unfolding release
    release_stands_down answered l d owner h other =
        ground (arith, release_foreign l.id owner d h other)
    release_stands_down lost_call l d owner h other = ground arith
    release_stands_down lost_reply l d owner h other =
        ground (arith, release_foreign l.id owner d h other)

    pub step-StandsDown :
        (call : LockCall) (link : Link) (l : Leader) (d : Db) (owner : Bytes)
        → holder d ≡ some owner
        → bytes_eq owner l.id ≡ false
        → StandsDown link (lock_step R call link ttl l d).0
          × (view (lock_step R call link ttl l d).1 ≡ view d)
    unfolding lock_step
    step-StandsDown tries link l d owner h other = try-StandsDown link l d owner h other
    step-StandsDown releases answered l d owner h other =
        release_stands_down answered l d owner h other
    step-StandsDown releases lost_call l d owner h other =
        (tt, (release_stands_down lost_call l d owner h other).1)
    step-StandsDown releases lost_reply l d owner h other =
        (tt, (release_stands_down lost_reply l d owner h other).1)

    -- None of the calling processes is the one in the lock.
    abbrev pub AllOther : Bytes → List (LockCall × Link × Leader) → Type 0
    AllOther owner [] = Unit
    AllOther owner ((call, link, l) ∷ rest) = (bytes_eq owner l.id ≡ false) × AllOther owner rest

    abbrev pub AllDown : List (LockCall × Link × Leader) → List Leader → Type 0
    AllDown [] ls = Unit
    AllDown (c ∷ rest) [] = ⊥
    AllDown ((call, link, l) ∷ rest) (l' ∷ ls) = StandsDown link l' × AllDown rest ls

    -- While a process is in the lock, whatever the others call, in any order and with any of the
    -- calls or replies lost, the keyspace stays as it is, so the process stays in the lock; and
    -- every other that gets an answer has learnt that it does not lead.
    pub lock_run_excludes :
        (calls : List (LockCall × Link × Leader)) (d : Db) (owner : Bytes)
        → holder d ≡ some owner
        → AllOther owner calls
        → AllDown calls (lock_run R ttl calls d).0 × (view (lock_run R ttl calls d).1 ≡ view d)
    unfolding lock_run
    lock_run_excludes [] d owner h others = (tt, refl)
    lock_run_excludes ((call, link, l) ∷ rest) d owner h others =
        let (down, same) = step-StandsDown call link l d owner h others.0 in
        let (all, w) =
          lock_run_excludes rest (lock_step R call link ttl l d).1 owner
            (subst (λ v. v.strings leader_key ≡ some owner) (sym same) h) others.1 in
        ((down, all), w ∙ same)

    renew_holds :
        (l : Leader) (d : Db)
        → (renew_held R answered ttl l d).0.held ≡ true
        → holder (renew_held R answered ttl l d).1 ≡ some l.id
    unfolding renew_held renew_lock_script
    renew_holds l d leads = elim (Option-cases (holder d)) [
      | inl free ↦ absurd (ground (arith, get_reply leader_key d))
      | inr (v, h) ↦ ground (
        arith,
        get_reply leader_key d,
        bytes_eq_sound v l.id,
        pexpire_reply leader_key ttl d window,
        ap (λ (w : View). w.strings leader_key) (view-pexpire leader_key ttl d window),
      )
    ]

    acquire_holds :
        (l : Leader) (d : Db)
        → l.held ≡ false
        → (acquire R answered ttl l d).0.held ≡ true
        → holder (acquire R answered ttl l d).1 ≡ some l.id
    acquire_holds l d idle leads = elim (Option-cases (holder d)) [
      | inl free ↦ takes l d free
      | inr (v, h) ↦ let (down, same) = acquire_foreign answered l d v idle h in cc
    ]

    -- A process whose answered try says that it leads is the one in the lock.
    pub try_acquire_holds :
        (l : Leader) (d : Db)
        → (try_acquire R answered ttl l d).0.held ≡ true
        → holder (try_acquire R answered ttl l d).1 ≡ some l.id
    unfolding try_acquire
    try_acquire_holds l d leads = elim (Bool-cases l.held) [
      | inl held ↦ simp held (renew_holds l d (simp held at leads))
      | inr idle ↦ simp idle (acquire_holds l d idle (simp idle at leads))
    ]

    -- At most one process leads: once an answered try tells a process that it leads, it is the one
    -- in the lock, and until its key runs out it stays there, whatever the others call, in any
    -- order and with any of the calls or replies lost; they change nothing, and each of them that
    -- gets an answer has learnt that it does not lead.
    pub leader_excludes :
        (l : Leader) (calls : List (LockCall × Link × Leader)) (d : Db)
        → (try_acquire R answered ttl l d).0.held ≡ true
        → AllOther l.id calls
        → let d' = (try_acquire R answered ttl l d).1 in
          (holder (lock_run R ttl calls d').1 ≡ some l.id)
          × AllDown calls (lock_run R ttl calls d').0
          × (view (lock_run R ttl calls d').1 ≡ view d')
    leader_excludes l calls d leads others =
        let d' = (try_acquire R answered ttl l d).1 in
        let held = try_acquire_holds l d leads in
        let (down, same) = lock_run_excludes calls d' l.id held others in
        (ap (λ (w : View). w.strings leader_key) same ∙ held, down, same)
