-- ===== src/Api.antt =====
-- internal/cogs/api.go and the handlers of internal/cogs/scheduler.go: what each request does to
-- the keyspace, and its response. A request body stands as the decoder gave it, `none` if it is
-- no JSON of the expected shape.
pub mod Parse
pub mod Handlers
pub mod Steps
pub mod Statuses
pub mod Refusals
pub mod Polling
use cogs_crash_refresh_job_q.Prelude.{
  ℕ, ◌/◌, ◌*◌, Bool, true, false, not, List, [], ◌∷◌, map, Bytes, Option, none, some, ℤ, pos, ◌+ℤ◌,
  ltb_ℤ, if◌then◌else◌, ◌==◌, bytes_eq,
}
use cogs_crash_refresh_job_q.Results.{
  Error, lease_gone, not_found, redis_failed, no_id, bad_cron, Result, ok, err, Link, reading,
}
use cogs_crash_refresh_job_q.Keys.{valid_queue_name}
use cogs_crash_refresh_job_q.Redis.{Redis}
use cogs_crash_refresh_job_q.Store.{
  Config, Job, State, milliseconds, enqueue, claim, renew, ack, fail,
}
use cogs_crash_refresh_job_q.Store.Reads.{StoredJob, QueueStats, job, stats, dead_jobs}
use cogs_crash_refresh_job_q.Schedules.Manager.{Schedule, Parser, create, delete, list}
use cogs_crash_refresh_job_q.Api.Parse.{authorized, dead_limit, claim_wait}

-- The machine-readable codes of the error envelope.
pub data Code : Type 0 where
  unauthorized invalid_json invalid_queue no_queues lost_lease no_such_job internal invalid_cron :
      Code

pub data Body : Type 0 where
  failed : Code → Body
  enqueued : (id queue : Bytes) → (created : Bool) → Body
  claimed : (jobs : List Job) → (ttl_ms heartbeat_ms : ℕ) → Body
  renewed : (id : Bytes) → (deadline : ℕ) → Body
  acked : ℕ → Body
  failed_to : (id : Bytes) → State → Body
  found : StoredJob → Body
  depths : QueueStats → Body
  dead_ids : (queue : Bytes) → List Bytes → Body
  scheduled : Schedule → Body
  schedule_list : List Schedule → Body
  no_content : Body

-- A status with its body; nothing, to a client that has gone; or a run-time panic.
pub data Response : Type 0 where
  answer : ℕ → Body → Response
  client_gone : Response
  panicked : Response

pub data Request : Type 0 where
  post_job : Option (Bytes × Bytes × Bytes) → Request
  post_claim : Option (List Bytes × ℤ × ℤ) → Request
  post_ack_batch : Option (Bytes × List Bytes) → Request
  -- the queue of the query, and the one that the body holds
  post_renew post_ack : (id query_queue body_queue : Bytes) → Request
  post_fail : (id : Bytes) → Option (Bytes × ℤ) → Request
  get_job : (id : Bytes) → Request
  get_stats : (queue : Bytes) → Request
  get_dead : (queue limit : Bytes) → Request
  post_schedule : Option (Bytes × Bytes × Bytes) → Request
  get_schedules : Request
  delete_schedule : (id : Bytes) → Request

-- One round of a claim's long poll: the fates of the calls by queue, the clock in milliseconds
-- for the lease and in nanoseconds for the wait, and whether the client has gone.
pub record Round : Type 0 where
  pub fates : Bytes → Link
  pub now : ℕ
  pub clock : ℕ
  pub gone : Bool

-- What a request meets: the fates of its calls, the random source, the
-- product with the jitter, the clocks, and the rounds.
pub record World : Type 0 where
  pub link : Link
  pub reads : Bytes → Link
  pub new_id : Option Bytes
  pub now : ℕ
  pub time : ℕ
  pub start : ℕ
  pub draw : ℤ → ℤ
  pub rounds : List Round

-- `serverError`
abbrev pub server_error : Response
server_error = answer 500 (failed internal)

abbrev pub bad_queue : Response
bad_queue = answer 422 (failed invalid_queue)

abbrev pub bad_json : Response
bad_json = answer 400 (failed invalid_json)

unfoldable pub all_valid : List Bytes → Bool
unfolding valid_queue_name
all_valid [] = true
all_valid (q ∷ queues) = if valid_queue_name q then all_valid queues else false

-- The queue of the query, or else that of the body.
abbrev pub queue_of : Bytes → Bytes → Bytes
queue_of [] body_queue = body_queue
queue_of (c ∷ q) body_queue = c ∷ q

abbrev pub is_empty : List Job → Bool
is_empty [] = true
is_empty (j ∷ jobs) = false

-- The response with the claimed jobs; the division panics for a divisor of 0.
unfoldable pub claim_response : Config → List Job → Response
claim_response cfg jobs =
    if cfg.heartbeat_divisor == 0
    then panicked
    else answer 200 (
        claimed jobs (milliseconds cfg.lease_ttl)
          (milliseconds cfg.lease_ttl / cfg.heartbeat_divisor))

abbrev pub enqueue_response : Bytes → Result (Bytes × Bool) → Response
enqueue_response q (err e) = server_error
enqueue_response q (ok (id, created)) =
    answer (if created then 201 else 200) (enqueued id q created)

abbrev pub renew_response : Bytes → Result ℕ → Response
renew_response id (ok deadline) = answer 200 (renewed id deadline)
renew_response id (err lease_gone) = answer 409 (failed lost_lease)
renew_response id (err e) = server_error

abbrev pub ack_batch_response : Result ℕ → Response
ack_batch_response (ok n) = answer 200 (acked n)
ack_batch_response (err e) = server_error

abbrev pub ack_response : Result ℕ → Response
ack_response (err e) = server_error
ack_response (ok n) = if n == 0 then answer 409 (failed lost_lease) else answer 200 (acked n)

abbrev pub fail_response : Bytes → Result State → Response
fail_response id (ok s) = answer 200 (failed_to id s)
fail_response id (err lease_gone) = answer 409 (failed lost_lease)
fail_response id (err e) = server_error

abbrev pub job_response : Result StoredJob → Response
job_response (ok j) = answer 200 (found j)
job_response (err not_found) = answer 404 (failed no_such_job)
job_response (err e) = server_error

abbrev pub stats_response : Result QueueStats → Response
stats_response (ok s) = answer 200 (depths s)
stats_response (err e) = server_error

abbrev pub dead_response : Bytes → Result (List Bytes) → Response
dead_response q (ok ids) = answer 200 (dead_ids q ids)
dead_response q (err e) = server_error

-- Any error of `Create` is answered with `invalid_cron`.
abbrev pub create_response : Result Schedule → Response
create_response (ok s) = answer 201 (scheduled s)
create_response (err e) = answer 422 (failed invalid_cron)

abbrev pub list_response : Result (List Schedule) → Response
list_response (ok l) = answer 200 (schedule_list l)
list_response (err e) = server_error

abbrev pub delete_response : Result {0} Unit → Response
delete_response (ok u) = answer 204 no_content
delete_response (err e) = server_error
