-- ===== src/Jobs/Fail.antt =====
-- The fail script: a leased job goes to the retry set or, past its retries, to the dead list.
use cogs_crash_refresh_job_q.Prelude.{
  ℕ, ◌+◌, ◌≤◌, ◌<◌, Bytes, some, none, ℤ, ◌≡◌, refl, ap, inl, inr, present, arith, true, false, ltb,
  ltb→lt, Bool-cases, Option-cases,
}
use cogs_crash_refresh_job_q.Results.{Result, ok}
use cogs_crash_refresh_job_q.Keys.{job_key, leased_key, retry_key, dead_key}
use cogs_crash_refresh_job_q.Redis.{Redis, View, attempts, as_int}
use cogs_crash_refresh_job_q.Scripts.{fail_script, FailReply, gone, retried, dead_lettered}
use cogs_crash_refresh_job_q.Jobs.{Inv, Keeps, Keeps-refl}
use cogs_crash_refresh_job_q.Jobs.Relocate.{
  leased, dead, later, relocated, relocated-Keeps, at_member_absent,
}

-- The lease is gone, or the attempts are counted and decide where the job goes.
abbrev pub FailOutcome : View → View → Bytes → Bytes → ℤ → ℕ → FailReply → Type 0
FailOutcome v w q id next_at max_retries gone = (v.zsets (leased_key q) id ≡ none) × (w ≡ v)
FailOutcome v w q id next_at max_retries dead_lettered =
    (present (v.zsets (leased_key q) id) ≡ 1)
    × (n : ℕ) × (as_int (v.hashes (job_key id) attempts) ≡ some n)
    × (max_retries < n + 1)
    × (w ≡ relocated leased dead (some (n + 1)) q id v)
FailOutcome v w q id next_at max_retries retried =
    (present (v.zsets (leased_key q) id) ≡ 1)
    × (n : ℕ) × (as_int (v.hashes (job_key id) attempts) ≡ some n)
    × (n + 1 ≤ max_retries)
    × (w ≡ relocated leased (later next_at) (some (n + 1)) q id v)

outcome-Keeps :
    (v w : View) (q id : Bytes) (next_at : ℤ) (max_retries : ℕ)
    → Inv v
    → (r : FailReply) → FailOutcome v w q id next_at max_retries r
    → Keeps v w
outcome-Keeps v w q id next_at max_retries inv gone o = rw o.1 (Keeps-refl v)
outcome-Keeps v w q id next_at max_retries inv dead_lettered o =
    rw (o.4) (relocated-Keeps q id v inv leased dead (some (o.1 + 1)) o.0)
outcome-Keeps v w q id next_at max_retries inv retried o =
    rw (o.4) (relocated-Keeps q id v inv leased (later next_at) (some (o.1 + 1)) o.0)

module _ (R : Redis) where
  open R use {
    Db, view, zrem, hincrby, lpush, zadd, zrem_reply, view-zrem, view-hincrby, hincrby_reply,
    view-lpush, view-zadd,
  }

  module _ (q id : Bytes) (next_at : ℤ) (max_retries : ℕ) (d : Db) where
    abbrev pub after : Result FailReply × Db
    after = fail_script R (leased_key q) (retry_key q) (dead_key q) id next_at max_retries d

    fail_gone :
        (view d).zsets (leased_key q) id ≡ none → (after.0 ≡ ok gone) × (view after.1 ≡ view d)
    unfolding fail_script
    fail_gone absent =
        rw (zrem_reply, absent)
          (refl, rw (view-zrem, at_member_absent (view d).zsets (leased_key q) id absent) refl)

    module _ {s : ℤ} (held : (view d).zsets (leased_key q) id ≡ some s) (n : ℕ)
        (attempted : as_int ((view d).hashes (job_key id) attempts) ≡ some n) where
      removed_attempts :
          as_int ((view (zrem (leased_key q) id d).1).hashes (job_key id) attempts) ≡ some n
      removed_attempts = rw view-zrem attempted

      fail_dead :
          ltb max_retries (n + 1) ≡ true
          → (after.0 ≡ ok dead_lettered)
            × (view after.1 ≡ relocated leased dead (some (n + 1)) q id (view d))
      unfolding fail_script
      fail_dead over =
          rw (zrem_reply, held, hincrby_reply _ _ 1 _ removed_attempts, over)
            (refl, simp (view-lpush, view-hincrby _ _ 1 _ removed_attempts, view-zrem))

      fail_retry :
          ltb max_retries (n + 1) ≡ false
          → (after.0 ≡ ok retried)
            × (view after.1 ≡ relocated leased (later next_at) (some (n + 1)) q id (view d))
      unfolding fail_script
      fail_retry under =
          rw (zrem_reply, held, hincrby_reply _ _ 1 _ removed_attempts, under)
            (refl, simp (view-zadd, view-hincrby _ _ 1 _ removed_attempts, view-zrem))

    -- On a keyspace that keeps the invariant, the fail script never errs. Without a lease it
    -- replies so and changes nothing; with one it counts the attempt, and moves the job to the
    -- dead list if the count is past the retries, and to the retry set if not.
    pub fail_script_outcome :
        Inv (view d)
        → (r : FailReply) × (after.0 ≡ ok r)
          × FailOutcome (view d) (view after.1) q id next_at max_retries r
    fail_script_outcome inv = elim (Option-cases ((view d).zsets (leased_key q) id)) [
      | inl absent ↦ (gone, (fail_gone absent).0, (absent, (fail_gone absent).1))
      | inr (s, held) ↦
          let (n, attempted) = inv.numbered q id (rw held (omega arith)) in
          elim (Bool-cases (ltb max_retries (n + 1))) [
            | inl over ↦
                let (r, w) = fail_dead held n attempted over in
                (dead_lettered, r, (ap present held, n, attempted, ltb→lt _ _ over, w))
            | inr under ↦
                let (r, w) = fail_retry held n attempted under in
                (retried, r, (ap present held, n, attempted, ground arith, w))
          ]
    ]

    pub fail_script-Keeps : Inv (view d) → Keeps (view d) (view after.1)
    fail_script-Keeps inv =
        let (r, reply, o) = fail_script_outcome inv in
        outcome-Keeps _ _ q id next_at max_retries inv r o
