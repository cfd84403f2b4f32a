-- ===== src/Loops.antt =====
-- internal/cogs/loops.go: the passes of the reaper and the retry drainer over all queues, and the
-- loop that runs a pass on each tick while the process leads.
pub mod Sources
pub mod OnePass
pub mod Entries
pub mod Backlog
pub mod Ticks
pub mod Runtime
use cogs_crash_refresh_job_q.Prelude.{
  ℕ, suc, Bool, true, false, List, [], ◌∷◌, Bytes, Option, none, some, if◌then◌else◌, ltb, length,
  take,
}
use cogs_crash_refresh_job_q.Results.{Error, Result, ok, err, Link}
use cogs_crash_refresh_job_q.Keys.{leased_key, retry_key}
use cogs_crash_refresh_job_q.Redis.{Redis, Pattern}
use cogs_crash_refresh_job_q.Scripts.{Drained}
use cogs_crash_refresh_job_q.Store.{Config, drain}
use cogs_crash_refresh_job_q.Store.Reads.{known_queues}

-- What the drain of one queue gave: the callback, the counters and the log read it.
pub record Report : Type 0 where
  pub into : Bytes
  pub moved : Drained

-- The reports of the queues before the first failure, the failure if there is one, and the
-- keyspace.
pub record Passes (Db : Type 0) : Type 0 where
  pub reports : List Report
  pub failure : Option Error
  pub after : Db

abbrev pub add_report : {Db : Type 0} → Report → Passes Db → Passes Db
add_report r p = record { reports = r ∷ p.reports; failure = p.failure; after = p.after }

-- `truncate`: what the log shows of the IDs.
unfoldable pub truncate : List Bytes → List Bytes
truncate ids = if ltb 5 (length ids) then take 5 ids else ids

-- What happens to the loop: a tick, on which the process leads or not, with what the pass meets,
-- or the end of its context.
pub data Event (Met : Type 0) : Type 0 where
  tick : (leads : Bool) → Met → Event Met
  cancelled : Event Met

-- An error of the pass is logged, and the loop goes on.
module _ {Met Db : Type 0} (one_pass : Met → Db → Option Error × Db) where
  unfoldable pub drain_due : List (Event Met) → Db → Db
  drain_due [] d = d
  drain_due (cancelled ∷ events) d = d
  drain_due (tick leads m ∷ events) d = drain_due events (if leads then (one_pass m d).1 else d)

-- What a pass of the reaper or the retry drainer meets: the fates of its calls, the rounds of its
-- SCAN loops, and the clock at each queue.
pub record PassFate : Type 0 where
  pub scans : Pattern → Link
  pub fuel : ℕ
  pub fate : Bytes → Link
  pub now : Bytes → ℕ

module _ (R : Redis) (cfg : Config) where
  open R use {Db}

  -- The loop of both passes over the queues, each with the fate of its call and the clock.
  unfoldable pub drain_queues :
      (Bytes → Bytes) → Bool → (Bytes → Link) → (Bytes → ℕ) → List Bytes → Db → Passes Db
  drain_queues due_key bump fate now [] d = record { reports = []; failure = none; after = d }
  drain_queues due_key bump fate now (q ∷ queues) d =
      let (res, d') = drain R cfg (fate q) (now q) (due_key q) q bump d in
      elim res [
        | err e ↦ record { reports = []; failure = some e; after = d' }
        | ok moved ↦
            add_report (record { into = q; moved = moved })
              (drain_queues due_key bump fate now queues d')
      ]

  unfoldable pub all_queues :
      (Bytes → Bytes)
      → Bool
      → (Pattern → Link)
      → ℕ
      → (Bytes → Link)
      → (Bytes → ℕ)
      → Db
      → Option (Passes Db)
  unfolding drain_queues
  all_queues due_key bump scans fuel fate now d = elim (known_queues R scans fuel d) [
    | none ↦ none
    | some (err e) ↦ some (record { reports = []; failure = some e; after = d })
    | some (ok queues) ↦ some (drain_queues due_key bump fate now queues d)
  ]

  -- `none` if a SCAN loop has not ended on the fuel.
  unfoldable pub reap_pass :
      (Pattern → Link) → ℕ → (Bytes → Link) → (Bytes → ℕ) → Db → Option (Passes Db)
  unfolding all_queues
  reap_pass = all_queues leased_key true

  unfoldable pub retry_pass :
      (Pattern → Link) → ℕ → (Bytes → Link) → (Bytes → ℕ) → Db → Option (Passes Db)
  unfolding all_queues
  retry_pass = all_queues retry_key false

  -- The error of a pass with the keyspace; a SCAN loop that has not ended has written nothing.
  abbrev pub outcome : Option (Passes Db) → Db → Option Error × Db
  outcome none d = (none, d)
  outcome (some p) d = (p.failure, p.after)

  -- The bodies of the two loops.
  unfoldable pub reap_tick : PassFate → Db → Option Error × Db
  unfolding reap_pass
  reap_tick m d = outcome (reap_pass m.scans m.fuel m.fate m.now d) d

  unfoldable pub retry_tick : PassFate → Db → Option Error × Db
  unfolding retry_pass
  retry_tick m d = outcome (retry_pass m.scans m.fuel m.fate m.now d) d
