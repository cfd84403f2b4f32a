-- ===== src/Sdk/Pool.antt =====
-- `Worker` of sdk/go/cogsclient/client.go with `Handle` and `Run`: the loop that claims jobs and
-- starts `process` for each as a slot of the semaphore is free. What the running processes do to
-- the keyspace is among what others do. An event that cannot happen where it stands changes
-- nothing.
pub mod Slots
pub mod Blocked
pub mod Heartbeat
use cogs_crash_refresh_job_q.Prelude.{
  ℕ, ◌+◌, ◌-◌, Bool, true, false, List, [], ◌∷◌, ◌++◌, map, Bytes, Option, none, some, ℤ, pos, ltb,
  ltb_ℤ, if◌then◌else◌, bytes_eq,
}
use cogs_crash_refresh_job_q.Results.{Link}
use cogs_crash_refresh_job_q.Redis.{Redis}
use cogs_crash_refresh_job_q.Store.{Config, Job}
use cogs_crash_refresh_job_q.Schedules.Manager.{Parser}
use cogs_crash_refresh_job_q.Api.{World}
use cogs_crash_refresh_job_q.Api.Parse.{duration_ms}
use cogs_crash_refresh_job_q.System.{Step, run}
use cogs_crash_refresh_job_q.Sdk.{ClientError, Outcome, ok, err, ClaimResult, claim}

-- The map of handlers by its keys.
pub record Worker : Type 0 where
  pub queues : List Bytes
  pub handled : Bytes → Bool
  pub batch : ℤ
  pub wait_ms : ℤ
  pub concurrent : ℕ

abbrev pub new_worker : Worker
new_worker = record {
  queues = [];
  handled = λ q. false;
  batch = pos 1;
  wait_ms = pos 1000;
  concurrent = 1;
}

abbrev pub handle : Bytes → Worker → Worker
handle q w = record w {
  queues = w.queues ++ q ∷ [];
  handled = λ q'. if bytes_eq q q' then true else w.handled q';
}

-- A job with what `process` is started with: its heartbeat in nanoseconds, and whether its queue
-- has a handler.
pub record Task : Type 0 where
  pub job : Job
  pub heartbeat : ℤ
  pub has_handler : Bool

-- A second, if the server's number is not positive.
unfoldable pub heartbeat_of : ℕ → ℤ
unfolding duration_ms
heartbeat_of ms =
    if ltb_ℤ (pos 0) (duration_ms (pos ms)) then duration_ms (pos ms) else pos 1000000000

abbrev pub task_of : Worker → ClaimResult → Job → Task
task_of w res job = record {
  job = job;
  heartbeat = heartbeat_of res.heartbeat_every_ms;
  has_handler = w.handled job.queue;
}

abbrev pub tasks_of : Worker → ClaimResult → List Task
tasks_of w res = map (task_of w res) res.jobs

-- The jobs of the last claim that wait for a slot, the slots in use, the jobs started so far, and
-- whether the loop has been left.
pub record Pool : Type 0 where
  pub waiting : List Task
  pub running : ℕ
  pub started : List Task
  pub left : Bool

abbrev pub no_tasks : Pool
no_tasks = record { waiting = []; running = 0; started = []; left = false }

-- `Run` refuses a worker with no handlers.
abbrev pub opened : Worker → Option Pool
opened w = elim w.queues [ [] ↦ none | q ∷ queues ↦ some no_tasks ]

pub data Turn : Type 0 where
  -- the next round of the loop: whether the context is cancelled before and after the claim
  rounds : (gone gone_after : Bool) → Link → World → Turn
  -- a slot is taken for the next job; a running job ends and frees its slot
  starts ends : Turn
  others : List Step → Turn

-- `sem <- struct{}{}`, which waits for a free slot, and `go`.
abbrev pub start_next : ℕ → List Task → Pool → Pool
start_next concurrent [] p = p
start_next concurrent (task ∷ tasks) p =
    if ltb p.running concurrent
    then record p { waiting = tasks; running = p.running + 1; started = p.started ++ task ∷ [] }
    else p

-- After a claim: an error leaves the loop only if the context is cancelled.
abbrev pub after_claim : Worker → Bool → Outcome ClaimResult → Pool → Pool
after_claim w gone_after (ok res) p = record p { waiting = tasks_of w res }
after_claim w gone_after (err e) p = record p { left = gone_after }

module _ (R : Redis) (cfg : Config) (parse : Parser) (token : Bytes) (w : Worker) where
  open R use {Db}

  -- A round starts when no job of the last one waits.
  unfoldable pub round : List Task → Bool → Bool → Bool → Link → World → Pool → Db → Pool × Db
  round [] false false gone_after link world p d =
      let (r, d') = claim R cfg parse token link world w.queues w.batch w.wait_ms d in
      (after_claim w gone_after r p, d')
  round [] false true gone_after link world p d = (record p { left = true }, d)
  round [] true gone gone_after link world p d = (p, d)
  round (task ∷ tasks) left gone gone_after link world p d = (p, d)

  unfoldable pub take_turn : Turn → Pool → Db → Pool × Db
  unfolding round
  take_turn (rounds gone gone_after link world) p d =
      round p.waiting p.left gone gone_after link world p d
  take_turn starts p d = (start_next w.concurrent p.waiting p, d)
  take_turn ends p d = (record p { running = p.running - 1 }, d)
  take_turn (others steps) p d = (p, run R steps d)

  unfoldable pub work : List Turn → Pool → Db → Pool × Db
  work [] p d = (p, d)
  work (t ∷ turns) p d = let (p', d') = take_turn t p d in work turns p' d'
