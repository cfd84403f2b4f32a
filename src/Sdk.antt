-- ===== src/Sdk.antt =====
-- sdk/go/cogsclient/client.go: the Go client. A call goes over HTTP to a server process, which
-- handles the request or is never reached; its response arrives or is lost. The arguments of a
-- call are marshalled and the body of a response is decoded by the JSON library.
pub mod Calls
pub mod Retries
pub mod Worker
pub mod Pool
use cogs_crash_refresh_job_q.Prelude.{
  ℕ, Bool, true, false, not, ◌&&◌, List, [], ◌∷◌, ◌++◌, Bytes, codes, Option, none, some, ℤ, ltb,
  leb, ◌==◌, if◌then◌else◌,
}
use cogs_crash_refresh_job_q.Results.{Link, answered, lost_call, lost_reply}
use cogs_crash_refresh_job_q.Redis.{Redis}
use cogs_crash_refresh_job_q.Store.{Config, Job}
use cogs_crash_refresh_job_q.Schedules.Manager.{Parser}
use cogs_crash_refresh_job_q.Api.{
  Body, enqueued, claimed, Response, answer, client_gone, panicked, Request, post_job, post_claim,
  post_ack_batch, post_renew, post_fail, World,
}
use cogs_crash_refresh_job_q.Api.Handlers.{wrap}

-- The errors that the methods return: the arguments cannot be marshalled, there is no response,
-- its body is not what it should be, `ErrLeaseLost`, and "cogs: ... returned %d".
pub data ClientError : Type 0 where
  unmarshalled unreached undecodable lease_lost : ClientError
  returned : ℕ → ClientError

pub data Outcome {ℓ} (A : Type ℓ) : Type ℓ where
  ok : A → Outcome A
  err : ClientError → Outcome A

infixl 5 ◌>>=◌
abbrev pub ◌>>=◌ {ℓ κ} : {A : Type ℓ} {B : Type κ} → Outcome A → (A → Outcome B) → Outcome B
ok a >>= f = f a
err e >>= f = err e

-- What `http.Client.Do` gives: an error, or a status with a body.
pub data Reply : Type 0 where
  no_response : Reply
  responded : ℕ → Body → Reply

pub record EnqueueResult : Type 0 where
  pub id : Bytes
  pub queue : Bytes
  pub created : Bool

pub record ClaimResult : Type 0 where
  pub jobs : List Job
  pub lease_ttl_ms : ℕ
  pub heartbeat_every_ms : ℕ

abbrev pub no_enqueue : EnqueueResult
no_enqueue = record { id = []; queue = []; created = false }

abbrev no_claim : ClaimResult
no_claim = record { jobs = []; lease_ttl_ms = 0; heartbeat_every_ms = 0 }

-- The JSON decoder, on the bodies that the two endpoints give.
abbrev pub as_enqueued : Body → Option EnqueueResult
as_enqueued (enqueued id queue created) =
    some (record { id = id; queue = queue; created = created })
as_enqueued b = none

abbrev as_claimed : Body → Option ClaimResult
as_claimed (claimed jobs ttl_ms heartbeat_ms) =
    some (record { jobs = jobs; lease_ttl_ms = ttl_ms; heartbeat_every_ms = heartbeat_ms })
as_claimed b = none

-- `do` without a place for the body: the status.
abbrev pub do_status : Reply → Outcome ℕ
do_status no_response = err unreached
do_status (responded n b) = ok n

-- `do` with one: the body is decoded if the status is under 300.
abbrev pub do_into {ℓ} : {A : Type ℓ} → (Body → Option A) → A → Reply → Outcome (ℕ × A)
do_into decode zero no_response = err unreached
do_into decode zero (responded n b) =
    if ltb n 300
    then elim (decode b) [ none ↦ err undecodable | some a ↦ ok (n, a) ]
    else ok (n, zero)

-- The ends of `Enqueue` and `Claim`, of `Renew`, and of `Ack` and `Fail`.
abbrev pub checked {ℓ} : {A : Type ℓ} → ℕ × A → Outcome A
checked (n, a) = if leb 300 n then err (returned n) else ok a

abbrev pub renew_status : ℕ → Outcome {0} Unit
renew_status n = if n == 409 then err lease_lost else if leb 300 n then err (returned n) else ok tt

abbrev pub report_status : ℕ → Outcome {0} Unit
report_status n = if leb 300 n && not (n == 409) then err (returned n) else ok tt

-- The Authorization header for the client's token.
unfoldable pub auth_header : Bytes → Bytes
auth_header [] = []
auth_header (c ∷ token) = codes "Bearer " ++ c ∷ token

abbrev pub reply_of : Option Response → Reply
reply_of none = no_response
reply_of (some (answer n b)) = responded n b
reply_of (some client_gone) = no_response
reply_of (some panicked) = no_response

module _ (R : Redis) (cfg : Config) (parse : Parser) (token : Bytes) where
  open R use {Db}

  -- One request to a server.
  unfoldable pub exchange : Link → World → Request → Db → Reply × Db
  unfolding auth_header
  exchange answered w req d =
      let (res, d') = wrap R cfg parse (auth_header token) w req d in (reply_of res, d')
  exchange lost_call w req d = (no_response, d)
  exchange lost_reply w req d =
      let (res, d') = wrap R cfg parse (auth_header token) w req d in (no_response, d')

  -- The payload is `none` if it cannot be marshalled.
  unfoldable pub enqueue :
      Link → World → Bytes → Option Bytes → Bytes → Db → Outcome EnqueueResult × Db
  unfolding exchange
  enqueue link w q none key d = (err unmarshalled, d)
  enqueue link w q (some raw) key d =
      let (r, d') = exchange link w (post_job (some (q, raw, key))) d in
      (do_into as_enqueued no_enqueue r >>= checked, d')

  unfoldable pub claim : Link → World → List Bytes → ℤ → ℤ → Db → Outcome ClaimResult × Db
  unfolding exchange
  claim link w queues batch wait_ms d =
      let (r, d') = exchange link w (post_claim (some (queues, batch, wait_ms))) d in
      (do_into as_claimed no_claim r >>= checked, d')

  unfoldable pub renew : Link → World → Bytes → Bytes → Db → Outcome {0} Unit × Db
  unfolding exchange
  renew link w q id d =
      let (r, d') = exchange link w (post_renew id [] q) d in (do_status r >>= renew_status, d')

  unfoldable pub ack : Link → World → Bytes → List Bytes → Db → Outcome {0} Unit × Db
  unfolding exchange
  ack link w q ids d =
      let (r, d') = exchange link w (post_ack_batch (some (q, ids))) d in
      (do_status r >>= report_status, d')

  unfoldable pub fail : Link → World → Bytes → Bytes → ℤ → Db → Outcome {0} Unit × Db
  unfolding exchange
  fail link w q id attempt d =
      let (r, d') = exchange link w (post_fail id (some (q, attempt))) d in
      (do_status r >>= report_status, d')
