-- ===== src/Jobs/Drain.antt =====
-- The drain script, for the reaper (the leased set, counting attempts) and for the retry drainer
-- (the retry set, not counting): one round, and a whole pass.
use cogs_crash_refresh_job_q.Prelude.{
  ℕ, ◌+◌, Bool, true, false, Bytes, Option, some, none, ℤ, ◌≡◌, refl, ap, inl, inr, present, ltb,
  Bool-cases, Option-cases,
}
use cogs_crash_refresh_job_q.Results.{Result, ok}
use cogs_crash_refresh_job_q.Keys.{job_key, pending_key, dead_key}
use cogs_crash_refresh_job_q.Redis.{Redis, View, attempts, as_int}
use cogs_crash_refresh_job_q.Scripts.{drain_one, Moved, skipped, requeued, buried}
use cogs_crash_refresh_job_q.Jobs.{Inv, Keeps, Keeps-refl}
use cogs_crash_refresh_job_q.Jobs.Relocate.{
  Source, source_key, pending, dead, relocated, relocated-Keeps, source_places, at_member_absent,
}

-- How many attempts a drained job has: one more than before where they count.
abbrev pub next_attempts : Bool → ℕ → Option ℕ
next_attempts true n = some (n + 1)
next_attempts false n = none

-- The job is past its retries, which only a counting pass looks at.
abbrev pub exhausted : Bool → ℕ → ℕ → Bool
exhausted true max_retries n = ltb max_retries (n + 1)
exhausted false max_retries n = false

abbrev pub DrainOutcome : Source → Bool → ℕ → Bytes → Bytes → View → View → Moved → Type 0
DrainOutcome s bump max_retries q id v w skipped = (v.zsets (source_key s q) id ≡ none) × (w ≡ v)
DrainOutcome s bump max_retries q id v w requeued =
    (present (v.zsets (source_key s q) id) ≡ 1)
    × (n : ℕ) × (as_int (v.hashes (job_key id) attempts) ≡ some n)
    × (exhausted bump max_retries n ≡ false)
    × (w ≡ relocated s pending (next_attempts bump n) q id v)
DrainOutcome s bump max_retries q id v w buried =
    (present (v.zsets (source_key s q) id) ≡ 1)
    × (n : ℕ) × (as_int (v.hashes (job_key id) attempts) ≡ some n)
    × (exhausted bump max_retries n ≡ true)
    × (w ≡ relocated s dead (next_attempts bump n) q id v)

outcome-Keeps :
    (s : Source) (bump : Bool) (max_retries : ℕ) (q id : Bytes) (v w : View)
    → Inv v
    → (m : Moved) → DrainOutcome s bump max_retries q id v w m
    → Keeps v w
outcome-Keeps s bump max_retries q id v w inv skipped o = rw o.1 (Keeps-refl v)
outcome-Keeps s bump max_retries q id v w inv requeued o =
    rw o.4 (relocated-Keeps q id v inv s pending (next_attempts bump o.1) o.0)
outcome-Keeps s bump max_retries q id v w inv buried o =
    rw o.4 (relocated-Keeps q id v inv s dead (next_attempts bump o.1) o.0)

module _ (R : Redis) where
  open R use {
    Db, view, zrem, hincrby, lpush, zrem_reply, view-zrem, view-hincrby, hincrby_reply, view-lpush,
  }

  module _ (s : Source) (bump : Bool) (max_retries : ℕ) (q : Bytes) where
    abbrev pub one : Bytes → Db → Result Moved × Db
    one = drain_one R (source_key s q) (pending_key q) (dead_key q) bump max_retries

    one_skipped :
        (id : Bytes) (d : Db)
        → (view d).zsets (source_key s q) id ≡ none
        → ((one id d).0 ≡ ok skipped) × (view (one id d).1 ≡ view d)
    unfolding drain_one
    one_skipped id d absent =
        rw (zrem_reply, absent)
          (refl, rw (view-zrem, at_member_absent (view d).zsets (source_key s q) id absent) refl)

  -- The reply and the effect of one round.
  abbrev pub Moves : Source → ℕ → Bytes → Bytes → Db → Bool → Moved → Type 0
  Moves s max_retries q id d bump m =
      ((one s bump max_retries q id d).0 ≡ ok m)
      × DrainOutcome s bump max_retries q id (view d) (view (one s bump max_retries q id d).1) m

  module _ (s : Source) (max_retries : ℕ) (q id : Bytes) (d : Db) {t : ℤ}
      (held : (view d).zsets (source_key s q) id ≡ some t) (n : ℕ)
      (attempted : as_int ((view d).hashes (job_key id) attempts) ≡ some n) where
    removed_attempts :
        as_int ((view (zrem (source_key s q) id d).1).hashes (job_key id) attempts) ≡ some n
    removed_attempts = rw view-zrem attempted

    one_uncounted : Moves s max_retries q id d false requeued
    unfolding drain_one
    one_uncounted = (
      rw (zrem_reply, held) refl,
      (ap present held, n, attempted, refl, rw (zrem_reply, held) (simp (view-lpush, view-zrem))),
    )

    one_buried : ltb max_retries (n + 1) ≡ true → Moves s max_retries q id d true buried
    unfolding drain_one
    one_buried over =
        rw (zrem_reply, held, hincrby_reply _ _ 1 _ removed_attempts, over)
          (
            refl,
            (
              refl,
              n,
              attempted,
              over,
              simp (view-lpush, view-hincrby _ _ 1 _ removed_attempts, view-zrem),
            ),
          )

    one_counted : ltb max_retries (n + 1) ≡ false → Moves s max_retries q id d true requeued
    unfolding drain_one
    one_counted under =
        rw (zrem_reply, held, hincrby_reply _ _ 1 _ removed_attempts, under)
          (
            refl,
            (
              refl,
              n,
              attempted,
              under,
              simp (view-lpush, view-hincrby _ _ 1 _ removed_attempts, view-zrem),
            ),
          )

  module _ (s : Source) (max_retries : ℕ) (q : Bytes) where
    held_outcome :
        (bump : Bool) (id : Bytes) (d : Db) {t : ℤ}
        → (view d).zsets (source_key s q) id ≡ some t
        → (n : ℕ) → as_int ((view d).hashes (job_key id) attempts) ≡ some n
        → (m : Moved) × Moves s max_retries q id d bump m
    held_outcome false id d held n attempted =
        (requeued, one_uncounted s max_retries q id d held n attempted)
    held_outcome true id d held n attempted = elim (Bool-cases (ltb max_retries (n + 1))) [
      | inl over ↦ (buried, one_buried s max_retries q id d held n attempted over)
      | inr under ↦ (requeued, one_counted s max_retries q id d held n attempted under)
    ]

    -- One round never errs on a keyspace that keeps the invariant, and moves the ID if it is
    -- still in the set: to the dead list if the pass counts attempts and the count is past the
    -- retries, and to the pending list if not.
    pub drain_one_outcome :
        (bump : Bool) (id : Bytes) (d : Db)
        → Inv (view d)
        → (m : Moved) × Moves s max_retries q id d bump m
    drain_one_outcome bump id d inv = elim (Option-cases ((view d).zsets (source_key s q) id)) [
      | inl absent ↦
          let (r, w) = one_skipped s bump max_retries q id d absent in (skipped, (r, (absent, w)))
      | inr (t, held) ↦
          let (n, attempted) =
            inv.numbered q id (source_places s q id (view d) (ap present held)) in
          held_outcome bump id d held n attempted
    ]

    pub drain_one-Keeps :
        (bump : Bool) (id : Bytes) (d : Db)
        → Inv (view d)
        → Keeps (view d) (view (one s bump max_retries q id d).1)
    drain_one-Keeps bump id d inv =
        let (m, moves) = drain_one_outcome bump id d inv in
        outcome-Keeps s bump max_retries q id _ _ inv m moves.1
