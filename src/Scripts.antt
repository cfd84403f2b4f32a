-- ===== src/Scripts.antt =====
-- The Lua scripts of internal/cogs/store.go. A script runs as one step of Redis: it takes the
-- keyspace and returns its reply with the new keyspace. KEYS and ARGV are its arguments.
use cogs_crash_refresh_job_q.Prelude.{
  ℕ, zero, suc, ◌+◌, Bool, true, false, List, [], ◌∷◌, Bytes, Option, none, some, ℤ, ltb, ◌==◌,
  if◌then◌else◌, bytes_eq,
}
use cogs_crash_refresh_job_q.Results.{Result, ok, err, redis_failed, ◌>>=◌}
use cogs_crash_refresh_job_q.Keys.{job_key}
use cogs_crash_refresh_job_q.Redis.{
  Redis, payload, queue, attempts, idempotency_key, created_at, Value, text, int, invalid_expire,
  nil, done,
}

-- One entry of the claim reply: `id`, `f[1] or ''` and `f[2] or '0'`.
pub record Claimed : Type 0 where
  pub id : Bytes
  pub payload : Value
  pub attempts : Value

-- `v or default` on a field that may be missing.
abbrev pub field_or : Option Value → Value → Value
field_or none v = v
field_or (some w) v = w

-- The replies -1, 1 and 2 of `failScript`.
pub data FailReply : Type 0 where
  gone retried dead_lettered : FailReply

-- What one round of the drain loop does with its ID.
pub data Moved : Type 0 where
  skipped requeued buried : Moved

-- The two lists of the drain reply.
pub record Drained : Type 0 where
  pub requeued_ids : List Bytes
  pub dead_ids : List Bytes

abbrev pub add_moved : Moved → Bytes → Drained → Drained
add_moved skipped id r = r
add_moved requeued id r = record r { requeued_ids = id ∷ r.requeued_ids }
add_moved buried id r = record r { dead_ids = id ∷ r.dead_ids }

module _ (R : Redis) where
  open R use {
    Db, lpush, rpop, zadd, zrem, hset, hincrby, del, set_nx, zscore, hget, get, zrange_by_score,
  }

  -- The HSET of a new job, and the LPUSH of its ID.
  unfoldable pub put_job : Bytes → Bytes → Bytes → Bytes → Bytes → Bytes → ℕ → Db → Db
  put_job job_k pending_k id body q idem created d = lpush pending_k id (
      hset job_k created_at (int created) (
        hset job_k idempotency_key (text idem) (
          hset job_k attempts (int 0)
            (hset job_k queue (text q) (hset job_k payload (text body) d)))))

  -- The reply `{created, id}`; a missing value in it is `none`.
  unfoldable pub enqueue_script :
      Bytes
      → Bytes
      → Bytes
      → Bytes
      → Bytes
      → Bytes
      → ℕ
      → Bytes
      → ℕ
      → Db
      → Result (ℕ × Option Bytes) × Db
  unfolding put_job bytes_eq
  enqueue_script job_k pending_k idem_k id body q created idem idem_ttl d =
      let fresh = λ (d' : Db). put_job job_k pending_k id body q idem created d' in
      if bytes_eq idem []
      then (ok (1, some id), fresh d)
      else let (reply, d') = set_nx idem_k id idem_ttl d in
        elim reply [
          | invalid_expire ↦ (err redis_failed, d')
          | nil ↦ (ok (0, get idem_k d'), d')
          | done ↦ (ok (1, some id), fresh d')
        ]

  -- One round of the claim loop after a successful RPOP.
  unfoldable pub lease_one : Bytes → ℤ → Bytes → Db → Claimed × Db
  lease_one leased_k deadline job_id d =
      let d' = zadd leased_k deadline job_id d in
      (
        record {
          id = job_id;
          payload = field_or (hget (job_key job_id) payload d') (text []);
          attempts = field_or (hget (job_key job_id) attempts d') (int 0);
        },
        d',
      )

  -- `for i = 1, n`, with its `break` on an empty pending list.
  unfoldable pub claim_script : Bytes → Bytes → ℕ → ℤ → Db → List Claimed × Db
  unfolding lease_one
  claim_script pending_k leased_k zero deadline d = ([], d)
  claim_script pending_k leased_k (suc n) deadline d =
      let (popped, d') = rpop pending_k d in
      elim popped [
        | none ↦ ([], d')
        | some job_id ↦
            let (entry, d'') = lease_one leased_k deadline job_id d' in
            let (rest, d''') = claim_script pending_k leased_k n deadline d'' in
            (entry ∷ rest, d''')
      ]

  unfoldable pub renew_script : Bytes → Bytes → ℤ → Db → ℕ × Db
  renew_script leased_k id deadline d = elim (zscore leased_k id d) [
    | none ↦ (0, d)
    | some s ↦ (1, zadd leased_k deadline id d)
  ]

  -- `for i = 1, #ARGV`, with the count `n` so far.
  unfoldable pub ack_script : Bytes → List Bytes → Db → ℕ × Db
  ack_script leased_k [] d = (0, d)
  ack_script leased_k (id ∷ ids) d =
      let (removed, d') = zrem leased_k id d in
      let d'' = if removed == 1 then del (job_key id) d' else d' in
      let (n, d''') = ack_script leased_k ids d'' in ((if removed == 1 then 1 else 0) + n, d''')

  unfoldable pub fail_script : Bytes → Bytes → Bytes → Bytes → ℤ → ℕ → Db → Result FailReply × Db
  fail_script leased_k retry_k dead_k id next_at max_retries d =
      let (removed, d') = zrem leased_k id d in
      if removed == 0
      then (ok gone, d')
      else let (counted, d'') = hincrby (job_key id) attempts 1 d' in
        elim counted [
          | err e ↦ (err e, d'')
          | ok n ↦
              if ltb max_retries n
              then (ok dead_lettered, lpush dead_k id d'')
              else (ok retried, zadd retry_k next_at id d'')
        ]

  -- The loop body for one due ID.
  unfoldable pub drain_one : Bytes → Bytes → Bytes → Bool → ℕ → Bytes → Db → Result Moved × Db
  drain_one due_k pending_k dead_k bump max_retries id d =
      let (removed, d') = zrem due_k id d in
      if removed == 1
      then elim bump [
        | false ↦ (ok requeued, lpush pending_k id d')
        | true ↦
            let (counted, d'') = hincrby (job_key id) attempts 1 d' in
            elim counted [
              | err e ↦ (err e, d'')
              | ok n ↦
                  if ltb max_retries n
                  then (ok buried, lpush dead_k id d'')
                  else (ok requeued, lpush pending_k id d'')
            ]
      ]
      else (ok skipped, d')

  -- `for _, id in ipairs(due)`; an error ends the script, and leaves what was done.
  unfoldable pub drain_loop :
      Bytes → Bytes → Bytes → Bool → ℕ → List Bytes → Db → Result Drained × Db
  unfolding drain_one
  drain_loop due_k pending_k dead_k bump max_retries [] d =
      (ok (record { requeued_ids = []; dead_ids = [] }), d)
  drain_loop due_k pending_k dead_k bump max_retries (id ∷ ids) d =
      let (moved, d') = drain_one due_k pending_k dead_k bump max_retries id d in
      elim moved [
        | err e ↦ (err e, d')
        | ok m ↦
            let (rest, d'') = drain_loop due_k pending_k dead_k bump max_retries ids d' in
            (rest >>= λ r. ok (add_moved m id r), d'')
      ]

  unfoldable pub drain_script : Bytes → Bytes → Bytes → ℤ → ℕ → Bool → ℕ → Db → Result Drained × Db
  unfolding drain_loop
  drain_script due_k pending_k dead_k now limit bump max_retries d =
      drain_loop due_k pending_k dead_k bump max_retries (zrange_by_score due_k now limit d) d
