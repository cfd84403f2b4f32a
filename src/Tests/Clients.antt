-- ===== src/Tests/Clients.antt =====
-- Retried enqueues, the loop of a worker, its heartbeat, the backoff, and the configuration, at
-- concrete inputs.
use cogs_crash_refresh_job_q.Prelude.{
  ℕ, ◌+◌, ◌*◌, ◌/◌, ◌^◌, ◌≤◌, ◌<◌, true, false, Bool, List, [], ◌∷◌, ◌++◌, Bytes, codes, none, some,
  pos, ◌≡◌, ◌⊎◌, refl, inl, inr, arith, bytes_eq, count, length, if◌then◌else◌,
}
use cogs_crash_refresh_job_q.Results.{Link, answered, lost_reply}
use cogs_crash_refresh_job_q.Keys.{job_key, pending_key, leased_key, dead_key}
use cogs_crash_refresh_job_q.Redis.Memory.{Log, view_of, members}
use cogs_crash_refresh_job_q.Redis.Memory.Lists.{due_of}
use cogs_crash_refresh_job_q.Redis.Memory.Server.{memory}
use cogs_crash_refresh_job_q.Scripts.{put_job, enqueue_script, claim_script, lease_one}
use cogs_crash_refresh_job_q.Jobs.{Inv}
use cogs_crash_refresh_job_q.Jobs.Leases.{HasLease}
use cogs_crash_refresh_job_q.Jobs.Relocate.{leased}
use cogs_crash_refresh_job_q.Jobs.Pass.{due}
use cogs_crash_refresh_job_q.System.{run, apply}
use cogs_crash_refresh_job_q.Store.{Config, milliseconds}
use cogs_crash_refresh_job_q.Store.Backoff.{clamp_attempt, backoff}
use cogs_crash_refresh_job_q.Store.Backoff.Jitter.{jittered, backoff_bounds}
use cogs_crash_refresh_job_q.Api.{World, claim_response, answer, claimed}
use cogs_crash_refresh_job_q.Api.Parse.{parse_int}
use cogs_crash_refresh_job_q.Settings.{
  Environment, load_config, Gives, IsWithin, IsReady, HasIntervals, load_config-IsReady,
}
use cogs_crash_refresh_job_q.Sdk.{Outcome, EnqueueResult}
use cogs_crash_refresh_job_q.Sdk.Retries.{tries, Made, AllName, tries_make_one}
use cogs_crash_refresh_job_q.Sdk.Pool as Pool
use cogs_crash_refresh_job_q.Sdk.Pool.{Worker, Task, Turn, no_tasks, heartbeat_of}
use cogs_crash_refresh_job_q.Sdk.Pool.Slots.{after, all_claimed, run_starts_all}
use cogs_crash_refresh_job_q.Sdk.Pool.Blocked as Blocked
use cogs_crash_refresh_job_q.Sdk.Pool.Heartbeat.{heartbeat_fits}
use cogs_crash_refresh_job_q.Tests.Data.{
  parser, world, mail_valid, mail, job_a, job_b, body, config, empty, waiting, working, working-Inv,
  working-leased,
}

abbrev order : Bytes
order = codes "order-7"

-- The first answer is lost; the second attempt finds the job of the first.
abbrev attempts : List (Link × World)
attempts = (lost_reply, world answered (some job_a)) ∷ (answered, world answered (some job_b)) ∷ []

abbrev tried : List (Outcome EnqueueResult) × Log
tried = tries memory config parser mail body order attempts empty

tries_make_one_example :
    ((view_of tried.1 ≡ view_of empty)
      × (owner : Bytes) × AllName memory config parser mail body order owner tried.0)
    ⊎ ((id : Bytes) × Made memory config parser mail body order id (view_of empty) (view_of tried.1)
        × AllName memory config parser mail body order id tried.0)
tries_make_one_example =
    tries_make_one memory config parser mail body order mail_valid (λ e. cc) (omega arith) attempts
      empty

abbrev worker : Worker
worker = Pool.handle mail Pool.new_worker

abbrev turns : List Turn
turns =
    Pool.rounds false false answered (world answered none)
    ∷ Pool.starts
    ∷ Pool.ends
    ∷ Pool.rounds true true answered (world answered none)
    ∷ []

run_starts_all_example :
    ((after memory config parser [] worker turns no_tasks waiting).0.started
        ++ (after memory config parser [] worker turns no_tasks waiting).0.waiting
      ≡ all_claimed memory config parser [] worker turns no_tasks waiting)
    × ((after memory config parser [] worker turns no_tasks waiting).0.running ≤ worker.concurrent)
    × (((after memory config parser [] worker turns no_tasks waiting).0.left ≡ false)
        ⊎ ((after memory config parser [] worker turns no_tasks waiting).0.started
            ≡ all_claimed memory config parser [] worker turns no_tasks waiting))
run_starts_all_example = run_starts_all memory config parser [] worker turns waiting

-- The leased job waits, and the one slot is in use.
abbrev task : Task
task = record {
  job = record {
    id = job_a;
    queue = mail;
    payload = body;
    attempts = 0;
    idempotency_key = [];
    created_at = 0;
    lease_deadline = 10;
  };
  heartbeat = pos 1000000000;
  has_handler = true;
}

abbrev idle_turns : List Turn
idle_turns = Pool.rounds false false answered (world answered none) ∷ Pool.starts ∷ []

abbrev one_slot : worker.concurrent ≤ 1
one_slot = omega arith

abbrev later : Log
later = Blocked.later memory config parser [] worker task [] [] 1 false one_slot idle_turns working

later-Inv : Inv (view_of later)
unfolding Pool.work Pool.take_turn Pool.round
later-Inv = working-Inv

later-leased : HasLease mail job_a (pos 10) (view_of later)
unfolding Pool.work Pool.take_turn Pool.round
later-leased = working-leased

later-due : length (due memory leased true 5 mail (pos 12) 500 later) < 500
unfolding Pool.work Pool.take_turn Pool.round run apply enqueue_script put_job claim_script
    lease_one job_key pending_key leased_key bytes_eq members due_of
later-due = omega arith

abbrev reaped : Log
reaped =
    Blocked.reaped memory config parser [] worker task [] [] 1 false one_slot idle_turns working
      (pos 12) 500 5

waiting_job_reaped_example :
    ((Blocked.after memory config parser [] worker idle_turns
        (Blocked.pool memory config parser [] worker task [] [] 1 false one_slot)
        working).0
      ≡ Blocked.pool memory config parser [] worker task [] [] 1 false one_slot)
    × (later ≡ run memory (Blocked.others_steps idle_turns) working)
    × ((view_of reaped).zsets (leased_key mail) job_a ≡ none)
    × (count job_a ((view_of reaped).lists (pending_key mail))
          + count job_a ((view_of reaped).lists (dead_key mail))
        ≡ 1)
waiting_job_reaped_example =
    Blocked.waiting_job_reaped memory config parser [] worker task [] [] 1 false one_slot idle_turns
      working (pos 10) (pos 12) 500 5 tt later-Inv later-leased (omega arith) later-due

heartbeat_fits_example :
    (ms h : ℕ) × (claim_response config [] ≡ answer 200 (claimed [] (milliseconds 3000000000) ms))
    × (heartbeat_of ms ≡ pos h)
    × (1 ≤ h)
    × (h * 3 ≤ 3000000000)
heartbeat_fits_example = heartbeat_fits config [] (omega arith) (omega arith) (omega arith)

backoff_bounds_example :
    (n m : ℕ) × (n ≡ 1000000000 * 2 ^ clamp_attempt (pos 3))
    × (backoff 1000000000 (pos 3) (jittered 12345) ≡ pos m)
    × (n / 2 ≤ m)
    × (m ≤ n)
backoff_bounds_example = backoff_bounds 1000000000 12345 (pos 3) (omega arith) (omega arith)

-- No variable is set but the limit of a drain pass.
abbrev value : Bool → Bytes
value is_limit = if is_limit then codes "20" else []

abbrev environment : Environment
environment = λ key. value (bytes_eq key (codes "DRAIN_LIMIT"))

value-IsWithin :
    (most : ℕ) (is_limit : Bool) (key : Bytes) → 20 ≤ most → IsWithin most (λ k. value is_limit) key
unfolding parse_int
value-IsWithin most true key fits = inr (20, refl, omega arith, fits)
value-IsWithin most false key fits = inl refl

environment-IsWithin : (most : ℕ) (key : Bytes) → 20 ≤ most → IsWithin most environment key
environment-IsWithin most key fits =
    value-IsWithin most (bytes_eq key (codes "DRAIN_LIMIT")) key fits

load_config-IsReady_example :
    (cfg : Config) × Gives (load_config environment) cfg
    × IsReady cfg
    × HasIntervals (load_config environment)
load_config-IsReady_example =
    load_config-IsReady environment (λ key. environment-IsWithin 1000000 key (omega arith))
      (environment-IsWithin 8000 (codes "BACKOFF_BASE_MS") (omega arith))
      (environment-IsWithin 1000 (codes "HEARTBEAT_DIVISOR") (omega arith))
