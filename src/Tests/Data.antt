-- ===== src/Tests/Data.antt =====
-- Keyspaces with one job, waiting and leased, and the arguments of the examples.
use cogs_crash_refresh_job_q.Prelude.{
  ◌+◌, true, false, Option, [], ◌∷◌, Bytes, codes, some, pos, ◌≡◌, refl, arith, bytes_eq, count,
  inl,
}
use cogs_crash_refresh_job_q.Keys.{
  job_key, pending_key, leased_key, valid_queue_name, contains_any, contains_byte,
}
use cogs_crash_refresh_job_q.Redis.{queue, text}
use cogs_crash_refresh_job_q.Redis.Memory.{Log, view_of}
use cogs_crash_refresh_job_q.Redis.Memory.Server.{memory}
use cogs_crash_refresh_job_q.Scripts.{put_job, enqueue_script, claim_script, lease_one}
use cogs_crash_refresh_job_q.Jobs.{Inv}
use cogs_crash_refresh_job_q.System.{enqueues, claims, run, apply}
use cogs_crash_refresh_job_q.System.Survival.{run-Inv}
use cogs_crash_refresh_job_q.Store.{Config}
use cogs_crash_refresh_job_q.Results.{Link, answered}
use cogs_crash_refresh_job_q.Schedules.Manager.{Parser}
use cogs_crash_refresh_job_q.Api.{World}

abbrev pub mail : Bytes
mail = codes "mail"

abbrev pub job_a : Bytes
job_a = codes "a1"

abbrev pub job_b : Bytes
job_b = codes "b2"

abbrev pub body : Bytes
body = codes "{}"

abbrev pub config : Config
config = record {
  auth_token = [];
  lease_ttl = 3000000000;
  max_claim_batch = 64;
  max_claim_wait = 5000000000;
  heartbeat_divisor = 3;
  max_retries = 5;
  backoff_base = 1000000000;
  idempotency_window = 3600000000000;
  drain_limit = 500;
}

abbrev pub empty : Log
empty = []

pub empty-Inv : Inv (view_of empty)
unfolding count
empty-Inv = record {
  once = λ q id. omega arith;
  backed = λ q id h. absurd (omega arith);
  located = λ q id h. cc;
  numbered = λ q id h. absurd (omega arith);
}

-- One job waits.
abbrev pub waiting : Log
waiting = run memory (enqueues mail job_a body [] 5 3600 ∷ []) empty

pub waiting-Inv : Inv (view_of waiting)
waiting-Inv =
    run-Inv memory (enqueues mail job_a body [] 5 3600 ∷ []) empty empty-Inv (inl refl, tt)

-- One job is leased until 10.
abbrev pub working : Log
working = run memory (enqueues mail job_a body [] 5 3600 ∷ claims mail 1 (pos 10) ∷ []) empty

pub working-Inv : Inv (view_of working)
unfolding run
working-Inv =
    run-Inv memory (enqueues mail job_a body [] 5 3600 ∷ claims mail 1 (pos 10) ∷ []) empty
      empty-Inv (inl refl, (tt, tt))

pub working-leased : (view_of working).zsets (leased_key mail) job_a ≡ some (pos 10)
unfolding run apply enqueue_script put_job claim_script lease_one job_key pending_key leased_key
    bytes_eq
working-leased = refl

pub working-job : (view_of working).hashes (job_key job_a) queue ≡ some (text mail)
unfolding run apply enqueue_script put_job claim_script lease_one job_key pending_key leased_key
    bytes_eq
working-job = refl

pub waiting-job : (view_of waiting).hashes (job_key job_a) queue ≡ some (text mail)
unfolding run apply enqueue_script put_job job_key pending_key bytes_eq
waiting-job = refl

-- Every expression fires ten milliseconds later.
abbrev pub parser : Parser
parser = λ spec. some (λ now. pos (now + 10))

abbrev pub world : Link → Option Bytes → World
world link new_id = record {
  link = link;
  reads = λ q. answered;
  new_id = new_id;
  now = 7;
  time = 7;
  start = 7000000;
  draw = λ n. n;
  rounds = record { fates = λ q. answered; now = 7; clock = 8000000; gone = false } ∷ [];
}

pub mail_valid : valid_queue_name mail ≡ true
unfolding valid_queue_name contains_any contains_byte bytes_eq
mail_valid = refl
