-- ===== src/Store/Reads.antt =====
-- The reads of internal/cogs/store.go: one job, the depths of a queue, the dead jobs, and the
-- queues that a SCAN finds.
use cogs_crash_refresh_job_q.Prelude.{
  ℕ, Bool, ◌&&◌, not, List, [], ◌∷◌, Bytes, Option, none, some, sub_ℕ, if◌then◌else◌, ◌==◌, is_some,
  count,
}
use cogs_crash_refresh_job_q.Results.{not_found, Result, ok, err, ◌>>=◌, Link, reading}
use cogs_crash_refresh_job_q.Keys.{
  job_key, pending_key, leased_key, retry_key, dead_key, queue_from_key,
}
use cogs_crash_refresh_job_q.Redis.{
  Redis, Field, payload, queue, attempts, idempotency_key, created_at, cron, last_run, Value,
  value_bytes, value_int, Pattern, pending_keys, leased_keys, retry_keys, scan_rounds,
}

-- A job as `Store.Job` reads it.
pub record StoredJob : Type 0 where
  pub id : Bytes
  pub queue : Bytes
  pub payload : Bytes
  pub attempts : ℕ
  pub idempotency_key : Bytes
  pub created_at : ℕ

-- `m[field]` on the reply of HGETALL: the empty string if it is missing.
abbrev pub field_text : Option Value → Bytes
field_text none = []
field_text (some v) = value_bytes v

abbrev pub field_number : Option Value → ℕ
field_number none = 0
field_number (some v) = value_int v

-- `len(m) == 0`
unfoldable pub no_fields : (Field → Option Value) → Bool
no_fields m =
    not (is_some (m payload))
    && not (is_some (m queue))
    && not (is_some (m attempts))
    && not (is_some (m idempotency_key))
    && not (is_some (m created_at))
    && not (is_some (m cron))
    && not (is_some (m last_run))

pub record QueueStats : Type 0 where
  pub queue : Bytes
  pub pending : ℕ
  pub leased : ℕ
  pub retry : ℕ
  pub dead : ℕ

-- Adding to a set of strings.
abbrev pub add_seen : Bytes → List Bytes → List Bytes
add_seen [] seen = seen
add_seen (x ∷ q) seen = if count (x ∷ q) seen == 0 then (x ∷ q) ∷ seen else seen

-- The queues of one loop's keys, added to those seen before.
unfoldable pub add_queues : List Bytes → List Bytes → List Bytes
unfolding queue_from_key
add_queues [] seen = seen
add_queues (k ∷ keys) seen = add_queues keys (add_seen (queue_from_key k) seen)

module _ (R : Redis) where
  open R use {Db, hgetall, llen, zcard, lrange, scan}

  unfoldable pub job : Link → Bytes → Db → Result StoredJob
  unfolding no_fields
  job link id d = reading link (hgetall (job_key id) d) >>= λ m.
      if no_fields m
      then err not_found
      else ok (record {
        id = id;
        queue = field_text (m queue);
        payload = field_text (m payload);
        attempts = field_number (m attempts);
        idempotency_key = field_text (m idempotency_key);
        created_at = field_number (m created_at);
      })

  -- The four commands are one pipeline and no transaction: others run between them, so that each
  -- reads a keyspace of its own.
  unfoldable pub stats : Link → Bytes → Db → Db → Db → Db → Result QueueStats
  stats link q d1 d2 d3 d4 = reading link (record {
    queue = q;
    pending = llen (pending_key q) d1;
    leased = zcard (leased_key q) d2;
    retry = zcard (retry_key q) d3;
    dead = llen (dead_key q) d4;
  })

  -- LRANGE to `limit-1`.
  unfoldable pub dead_jobs : Link → Bytes → ℕ → Db → Result (List Bytes)
  dead_jobs link q limit d = reading link (lrange (dead_key q) (sub_ℕ limit 1) d)

  -- The loop over the patterns; `none` if a SCAN loop has not ended on the fuel. A loop fails if
  -- one of its calls does.
  unfoldable pub scan_patterns :
      (Pattern → Link) → ℕ → List Pattern → List Bytes → Db → Option (Result (List Bytes))
  unfolding add_queues
  scan_patterns fate fuel [] seen d = some (ok seen)
  scan_patterns fate fuel (p ∷ patterns) seen d =
      elim (reading (fate p) (scan_rounds (λ c. scan c p d) fuel 0)) [
        | err e ↦ some (err e)
        | ok none ↦ none
        | ok (some keys) ↦ scan_patterns fate fuel patterns (add_queues keys seen) d
      ]

  unfoldable pub known_queues : (Pattern → Link) → ℕ → Db → Option (Result (List Bytes))
  unfolding scan_patterns
  known_queues fate fuel d =
      scan_patterns fate fuel (pending_keys ∷ leased_keys ∷ retry_keys ∷ []) [] d
