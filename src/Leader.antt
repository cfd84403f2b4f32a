-- ===== src/Leader.antt =====
-- internal/cogs/leader.go: the lock of the background loops, with the two lock scripts of
-- internal/cogs/store.go.
pub mod Effects
pub mod Lock
pub mod Leaderless
use cogs_crash_refresh_job_q.Prelude.{
  ℕ, Bool, true, false, List, [], ◌∷◌, Bytes, Option, some, none, ◌==◌, if◌then◌else◌, bytes_eq,
}
use cogs_crash_refresh_job_q.Results.{Link, answered, lost_call, lost_reply}
use cogs_crash_refresh_job_q.Keys.{leader_key}
use cogs_crash_refresh_job_q.Redis.{Redis, SetReply, invalid_expire, nil, done}

-- The part of `Leader` that changes: its random ID and whether it believes to hold the lock.
pub record Leader : Type 0 where
  pub id : Bytes
  pub held : Bool

-- `Run` calls `tryAcquire` on every tick, and `release` when the process stops.
pub data LockCall : Type 0 where
  tries releases : LockCall

-- `redis.call('GET', KEYS[1]) == ARGV[1]`
abbrev pub is_value : Option Bytes → Bytes → Bool
is_value none id = false
is_value (some v) id = bytes_eq v id

module _ (R : Redis) where
  open R use {Db, get, del, set_nx, pexpire}

  unfoldable pub release_lock_script : Bytes → Bytes → Db → ℕ × Db
  release_lock_script k id d = if is_value (get k d) id then (1, del k d) else (0, d)

  unfoldable pub renew_lock_script : Bytes → Bytes → ℕ → Db → ℕ × Db
  renew_lock_script k id ttl d = if is_value (get k d) id then pexpire k ttl d else (0, d)

  -- The branch of `tryAcquire` for a process that holds the lock.
  unfoldable pub renew_held : Link → ℕ → Leader → Db → Leader × Db
  renew_held answered ttl l d =
      let (reply, d') = renew_lock_script leader_key l.id ttl d in
      (if reply == 0 then record l { held = false } else l, d')
  renew_held lost_call ttl l d = (l, d)
  renew_held lost_reply ttl l d = (l, (renew_lock_script leader_key l.id ttl d).1)

  abbrev became : SetReply → Leader → Leader
  became done l = record l { held = true }
  became nil l = l
  became invalid_expire l = l

  -- The branch for a process that does not.
  unfoldable pub acquire : Link → ℕ → Leader → Db → Leader × Db
  acquire answered ttl l d = let (reply, d') = set_nx leader_key l.id ttl d in (became reply l, d')
  acquire lost_call ttl l d = (l, d)
  acquire lost_reply ttl l d = (l, (set_nx leader_key l.id ttl d).1)

  unfoldable pub try_acquire : Link → ℕ → Leader → Db → Leader × Db
  unfolding renew_held acquire
  try_acquire link ttl l d = if l.held then renew_held link ttl l d else acquire link ttl l d

  -- The release script's effect, unless the call is lost; the flag is cleared in any case.
  abbrev released : Link → Leader → Db → Db
  released lost_call l d = d
  released answered l d = (release_lock_script leader_key l.id d).1
  released lost_reply l d = (release_lock_script leader_key l.id d).1

  unfoldable pub release : Link → Leader → Db → Leader × Db
  release link l d = if l.held then (record l { held = false }, released link l d) else (l, d)

  unfoldable pub lock_step : LockCall → Link → ℕ → Leader → Db → Leader × Db
  lock_step tries link ttl l d = try_acquire link ttl l d
  lock_step releases link ttl l d = release link l d

  -- Processes call in any order, each with the fate of its call; their states after it.
  unfoldable pub lock_run : ℕ → List (LockCall × Link × Leader) → Db → List Leader × Db
  unfolding lock_step
  lock_run ttl [] d = ([], d)
  lock_run ttl ((call, link, l) ∷ rest) d =
      let (l', d') = lock_step call link ttl l d in
      let (ls, d'') = lock_run ttl rest d' in (l' ∷ ls, d'')
