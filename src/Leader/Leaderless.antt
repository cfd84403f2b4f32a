-- ===== src/Leader/Leaderless.antt =====
-- A process that takes the lock and never hears of it.
use cogs_crash_refresh_job_q.Prelude.{
  ℕ, ◌<◌, false, List, [], ◌∷◌, Bytes, some, none, ◌≡◌, ◌⊎◌, refl, ap, subst, sym, ◌∙◌, inl, inr,
  arith, ◌==◌, bytes_eq, bytes_eq_refl,
}
use cogs_crash_refresh_job_q.Keys.{leader_key}
use cogs_crash_refresh_job_q.Redis.{Redis, View}
use cogs_crash_refresh_job_q.Results.{Link, answered, lost_call, lost_reply}
use cogs_crash_refresh_job_q.Leader.{
  Leader, LockCall, tries, releases, acquire, try_acquire, release, lock_step, lock_run,
}
use cogs_crash_refresh_job_q.Leader.Lock.{
  holder, StandsDown, AllDown, acquire-StandsDown, step-StandsDown,
}

module _ (R : Redis) (ttl : ℕ) (window : 0 < ttl) where
  open R use {Db, view, view-set_nx}

  -- Each caller believes not to lead, or has another ID than the one in the lock.
  abbrev pub NoneKnows : Bytes → List (LockCall × Link × Leader) → Type 0
  NoneKnows owner [] = Unit
  NoneKnows owner ((call, link, l) ∷ rest) =
      ((l.held ≡ false) ⊎ (bytes_eq owner l.id ≡ false)) × NoneKnows owner rest

  idle-StandsDown :
      (call : LockCall) (link : Link) (l : Leader) (d : Db) (owner : Bytes)
      → holder R d ≡ some owner
      → l.held ≡ false
      → StandsDown R ttl window link (lock_step R call link ttl l d).0
        × (view (lock_step R call link ttl l d).1 ≡ view d)
  unfolding lock_step try_acquire release
  idle-StandsDown tries link l d owner h idle =
      simp idle (acquire-StandsDown R ttl window link l d owner idle h)
  idle-StandsDown releases answered l d owner h idle = rw idle (refl, refl)
  idle-StandsDown releases lost_call l d owner h idle = rw idle (tt, refl)
  idle-StandsDown releases lost_reply l d owner h idle = rw idle (tt, refl)

  none_learns :
      (calls : List (LockCall × Link × Leader)) (d : Db) (owner : Bytes)
      → holder R d ≡ some owner
      → NoneKnows owner calls
      → AllDown R ttl window calls (lock_run R ttl calls d).0
        × (view (lock_run R ttl calls d).1 ≡ view d)
  unfolding lock_run
  none_learns [] d owner h unknown = (tt, refl)
  none_learns ((call, link, l) ∷ rest) d owner h (unknown, others) =
      let first : StandsDown R ttl window link (lock_step R call link ttl l d).0
          × (view (lock_step R call link ttl l d).1 ≡ view d) =
        elim unknown [
          | inl idle ↦ idle-StandsDown call link l d owner h idle
          | inr other ↦ step-StandsDown R ttl window call link l d owner h other
        ] in
      let (down, same) = first in
      let (all, w) =
        none_learns rest (lock_step R call link ttl l d).1 owner
          (subst (λ v. v.strings leader_key ≡ some owner) (sym same) h) others in
      ((down, all), w ∙ same)

  -- If the reply to the SET that takes a free lock is lost, then no process leads until the lock
  -- runs out: the one in the lock believes not to lead, and whatever it and the others call from
  -- then on, in any order and with any of the calls or replies lost, none that gets an answer
  -- is told that it leads, and the lock stays, since a release by the one in it does nothing.
  pub lost_acquire_leaderless :
      (l : Leader) (calls : List (LockCall × Link × Leader)) (d : Db)
      → l.held ≡ false
      → holder R d ≡ none
      → NoneKnows l.id calls
      → let (l', d') = try_acquire R lost_reply ttl l d in
        (l'.held ≡ false)
        × (holder R d' ≡ some l.id)
        × AllDown R ttl window calls (lock_run R ttl calls d').0
        × (view (lock_run R ttl calls d').1 ≡ view d')
  unfolding try_acquire acquire
  lost_acquire_leaderless l calls d idle free unknown =
      let d' = (try_acquire R lost_reply ttl l d).1 in
      let positive : (ttl == 0) ≡ false = ground arith in
      let taken : holder R d' ≡ some l.id = rw idle (
        ap (λ (w : View). w.strings leader_key) (view-set_nx leader_key l.id ttl d)
        ∙ rw (positive, free, bytes_eq_refl) refl) in
      let (down, same) = none_learns calls d' l.id taken unknown in
      (rw idle refl, taken, down, same)
