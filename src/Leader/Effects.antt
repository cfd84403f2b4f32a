-- ===== src/Leader/Effects.antt =====
-- What a call for the lock does to the keyspace: it sets the lock's key, deletes it, or nothing.
use cogs_crash_refresh_job_q.Prelude.{ℕ, ◌<◌, Bytes, inl, inr, Bool-cases}
use cogs_crash_refresh_job_q.Keys.{leader_key}
use cogs_crash_refresh_job_q.Redis.{Redis, View, SetReply, stored}
use cogs_crash_refresh_job_q.Results.{Link, answered, lost_call, lost_reply}
use cogs_crash_refresh_job_q.Leader.{
  Leader, LockCall, tries, releases, is_value, release_lock_script, renew_lock_script, renew_held,
  acquire, try_acquire, release, lock_step,
}

-- A relation that holds between any keyspace and itself, the one with the lock's key set, and the
-- one with it deleted.
module _ (R : Redis) (P : View → View → Type 0) (same : (v : View) → P v v)
    (stores : (r : SetReply) (x : Bytes) (v : View) → P v (stored r leader_key x v))
    (deletes : (d : R.Db) → P (R.view d) (R.view (R.del leader_key d))) where
  open R use {Db, view, get, set_nx, pexpire, view-set_nx, view-pexpire}

  set_nx-relates : (x : Bytes) (ttl : ℕ) (d : Db) → P (view d) (view (set_nx leader_key x ttl d).1)
  set_nx-relates x ttl d = rw view-set_nx (stores _ x (view d))

  release_script-relates :
      (id : Bytes) (d : Db) → P (view d) (view (release_lock_script R leader_key id d).1)
  unfolding release_lock_script
  release_script-relates id d = elim (Bool-cases (is_value (get leader_key d) id)) [
    | inl mine ↦ rw mine (deletes d)
    | inr other ↦ rw other (same (view d))
  ]

  renew_script-relates :
      (id : Bytes) (ttl : ℕ) (d : Db)
      → 0 < ttl
      → P (view d) (view (renew_lock_script R leader_key id ttl d).1)
  unfolding renew_lock_script
  renew_script-relates id ttl d window = elim (Bool-cases (is_value (get leader_key d) id)) [
    | inl mine ↦ rw mine (rw (view-pexpire leader_key ttl d window) (same (view d)))
    | inr other ↦ rw other (same (view d))
  ]

  renew_held-relates :
      (link : Link) (ttl : ℕ) (l : Leader) (d : Db)
      → 0 < ttl
      → P (view d) (view (renew_held R link ttl l d).1)
  unfolding renew_held
  renew_held-relates answered ttl l d window = renew_script-relates l.id ttl d window
  renew_held-relates lost_call ttl l d window = same (view d)
  renew_held-relates lost_reply ttl l d window = renew_script-relates l.id ttl d window

  acquire-relates :
      (link : Link) (ttl : ℕ) (l : Leader) (d : Db) → P (view d) (view (acquire R link ttl l d).1)
  unfolding acquire
  acquire-relates answered ttl l d = set_nx-relates l.id ttl d
  acquire-relates lost_call ttl l d = same (view d)
  acquire-relates lost_reply ttl l d = set_nx-relates l.id ttl d

  release-relates : (link : Link) (l : Leader) (d : Db) → P (view d) (view (release R link l d).1)
  unfolding release
  release-relates answered l d = elim (Bool-cases l.held) [
    | inl held ↦ simp held (release_script-relates l.id d)
    | inr idle ↦ simp idle (same (view d))
  ]
  release-relates lost_call l d = elim (Bool-cases l.held) [
    | inl held ↦ simp held (same (view d))
    | inr idle ↦ simp idle (same (view d))
  ]
  release-relates lost_reply l d = elim (Bool-cases l.held) [
    | inl held ↦ simp held (release_script-relates l.id d)
    | inr idle ↦ simp idle (same (view d))
  ]

  pub lock_step-relates :
      (call : LockCall) (link : Link) (ttl : ℕ) (l : Leader) (d : Db)
      → 0 < ttl
      → P (view d) (view (lock_step R call link ttl l d).1)
  unfolding lock_step try_acquire
  lock_step-relates tries link ttl l d window = elim (Bool-cases l.held) [
    | inl held ↦ simp held (renew_held-relates link ttl l d window)
    | inr idle ↦ simp idle (acquire-relates link ttl l d)
  ]
  lock_step-relates releases link ttl l d window = release-relates link l d
