-- ===== src/Store.antt =====
-- The operations of internal/cogs/store.go on jobs: each calls one script, over a link on which
-- the call or its reply may be lost. The clock, the random ID and the jitter are arguments.
pub mod Backoff
pub mod Reads
pub mod Steps
pub mod Counts
pub mod ReadBack
pub mod Renewals
pub mod Queues
pub mod Claims
pub mod Priority
use cogs_crash_refresh_job_q.Prelude.{
  ℕ, zero, suc, ◌+◌, ◌-◌, ◌/◌, Bool, true, false, List, [], ◌∷◌, ◌++◌, map, Bytes, codes, Option,
  none, some, ℤ, pos, negsuc, neg, ◌+ℤ◌, ltb, ltb_ℤ, ◌==◌, if◌then◌else◌, length, bytes_eq,
}
use cogs_crash_refresh_job_q.Results.{
  Error, lease_gone, redis_failed, no_id, Result, ok, err, ◌>>=◌, Link, over, replied,
}
use cogs_crash_refresh_job_q.Keys.{job_key, pending_key, leased_key, retry_key, dead_key, idem_key}
use cogs_crash_refresh_job_q.Redis.{Redis, Value, value_bytes, value_int}
use cogs_crash_refresh_job_q.Scripts.{
  Claimed, FailReply, gone, retried, dead_lettered, Drained, enqueue_script, claim_script,
  renew_script, ack_script, fail_script, drain_script,
}
use cogs_crash_refresh_job_q.Store.Backoff.{backoff}

-- The configuration; durations are in nanoseconds, as Go keeps them.
pub record Config : Type 0 where
  pub auth_token : Bytes
  pub lease_ttl : ℕ
  pub max_claim_batch : ℕ
  pub max_claim_wait : ℕ
  pub heartbeat_divisor : ℕ
  pub max_retries : ℕ
  pub backoff_base : ℕ
  pub idempotency_window : ℕ
  pub drain_limit : ℕ

-- `Duration.Milliseconds`, and `int(d.Seconds())`.
abbrev pub milliseconds : ℕ → ℕ
milliseconds d = d / 1000000

-- `Milliseconds` of a duration that may be negative: it is cut off towards 0.
abbrev pub milliseconds_of : ℤ → ℤ
milliseconds_of (pos d) = pos (milliseconds d)
milliseconds_of (negsuc d) = neg (milliseconds (d + 1))

abbrev pub seconds : ℕ → ℕ
seconds d = d / 1000000000

pub data State : Type 0 where
  pending leased retry dead : State

pub record Job : Type 0 where
  pub id : Bytes
  pub queue : Bytes
  pub payload : Bytes
  pub attempts : ℕ
  pub idempotency_key : Bytes
  pub created_at : ℕ
  pub lease_deadline : ℕ

-- An empty payload is sent as `null`.
abbrev pub payload_or_null : Bytes → Bytes
payload_or_null [] = codes "null"
payload_or_null (x ∷ xs) = x ∷ xs

-- `existingID, _ := res[1].(string)`
abbrev pub string_of : Option Bytes → Bytes
string_of none = []
string_of (some s) = s

-- The batch that is asked for, at least 1 and at most the configured one.
unfoldable pub clamp_batch : ℕ → ℤ → ℕ
clamp_batch most batch =
    let wanted = if ltb_ℤ batch (pos 1) then 1 else elim batch [ pos n ↦ n | negsuc n ↦ 1 ] in
    if ltb most wanted then most else wanted

-- One entry of the claim reply, as a job.
abbrev pub claimed_job : Bytes → ℕ → Claimed → Job
claimed_job q deadline c = record {
  id = c.id;
  queue = q;
  payload = value_bytes c.payload;
  attempts = value_int c.attempts;
  idempotency_key = [];
  created_at = 0;
  lease_deadline = deadline;
}

-- The reply of the fail script.
abbrev pub fail_state : FailReply → Result State
fail_state gone = err lease_gone
fail_state dead_lettered = ok dead
fail_state retried = ok retry

module _ (R : Redis) (cfg : Config) where
  open R use {Db}

  -- `NewID` has failed, or has given an ID.
  unfoldable pub enqueue :
      Link → Option Bytes → ℕ → Bytes → Bytes → Bytes → Db → Result (Bytes × Bool) × Db
  enqueue link none now q payload idem d = (err no_id, d)
  enqueue link (some new_id) now q payload idem d =
      let (res, d') =
        over link
          (enqueue_script R (job_key new_id) (pending_key q) (idem_key idem) new_id
            (payload_or_null payload) q now idem (seconds cfg.idempotency_window))
          d in
      (res >>= λ r. ok (string_of r.1, r.0 == 1), d')

  -- The loop over the queues, with room for `batch-len(jobs)` more jobs; a failed call loses what
  -- the calls before it gave.
  unfoldable pub claim_queues : ℕ → ℕ → List (Bytes × Link) → Db → Result (List Job) × Db
  claim_queues room deadline [] d = (ok [], d)
  claim_queues room deadline ((q, link) ∷ queues) d =
      let (res, d') =
        over link
          (λ e. replied (claim_script R (pending_key q) (leased_key q) room (pos deadline) e)) d in
      elim (room == 0) [
        | true ↦ (ok [], d)
        | false ↦ elim res [
          | err e ↦ (err e, d')
          | ok vals ↦
              let (rest, d'') = claim_queues (room - length vals) deadline queues d' in
              (rest >>= λ jobs. ok (map (claimed_job q deadline) vals ++ jobs), d'')
        ]
      ]

  unfoldable pub claim : ℕ → List (Bytes × Link) → ℤ → Db → Result (List Job) × Db
  unfolding claim_queues clamp_batch
  claim now queues batch d =
      claim_queues (clamp_batch cfg.max_claim_batch batch) (now + milliseconds cfg.lease_ttl) queues
        d

  unfoldable pub renew : Link → ℕ → Bytes → Bytes → Db → Result ℕ × Db
  renew link now q id d =
      let deadline = now + milliseconds cfg.lease_ttl in
      let (res, d') =
        over link (λ e. replied (renew_script R (leased_key q) id (pos deadline) e)) d in
      (res >>= λ n. if n == 0 then err lease_gone else ok deadline, d')

  unfoldable pub ack : Link → Bytes → List Bytes → Db → Result ℕ × Db
  ack link q [] d = (ok 0, d)
  ack link q (id ∷ ids) d = over link (λ e. replied (ack_script R (leased_key q) (id ∷ ids) e)) d

  -- `scale` is the product with the jitter.
  unfoldable pub fail : Link → ℕ → (ℤ → ℤ) → Bytes → Bytes → ℤ → Db → Result State × Db
  unfolding backoff
  fail link now scale q id attempt d =
      let next_at = pos now +ℤ milliseconds_of (backoff cfg.backoff_base attempt scale) in
      let (res, d') =
        over link
          (fail_script R (leased_key q) (retry_key q) (dead_key q) id next_at cfg.max_retries) d in
      (res >>= fail_state, d')

  unfoldable pub drain : Link → ℕ → Bytes → Bytes → Bool → Db → Result Drained × Db
  drain link now due_k q bump d =
      over link
        (drain_script R due_k (pending_key q) (dead_key q) (pos now) cfg.drain_limit bump
          cfg.max_retries)
        d

  unfoldable pub run_drain_for_test : Link → ℕ → Bytes → Bool → Db → Result Drained × Db
  unfolding drain
  run_drain_for_test link now q bump d =
      drain link now (if bump then leased_key q else retry_key q) q bump d
