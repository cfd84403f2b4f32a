-- ===== src/Loops/Runtime.antt =====
-- `Start` of internal/cogs/loops.go: `Run` of internal/cogs/leader.go and the three loops, each in
-- a goroutine of its own, of one process. The goroutines share the leader's flag. Any order
-- of their ticks and of what others do is a list of events; a pass is one event, as its process
-- looks at the flag only before it. An event of a goroutine that has returned changes nothing.
pub mod Bystander
pub mod Takeover
use cogs_crash_refresh_job_q.Prelude.{ℕ, Bool, true, false, List, [], ◌∷◌, Bytes, if◌then◌else◌}
use cogs_crash_refresh_job_q.Results.{Link}
use cogs_crash_refresh_job_q.Redis.{Redis}
use cogs_crash_refresh_job_q.Leader.{Leader, try_acquire, release}
use cogs_crash_refresh_job_q.Store.{Config}
use cogs_crash_refresh_job_q.Schedules.Manager.{Parser, Fate, schedule_pass}
use cogs_crash_refresh_job_q.Loops.{PassFate, reap_tick, retry_tick}
use cogs_crash_refresh_job_q.System.{Step, run}

-- The leader with its flag, and which goroutines run.
pub record Runtime : Type 0 where
  pub leader : Leader
  pub campaigning : Bool
  pub reaping : Bool
  pub retrying : Bool
  pub scheduling : Bool

-- `NewRuntime` and the four `go` statements.
abbrev pub start : Bytes → Runtime
start id = record {
  leader = record { id = id; held = false };
  campaigning = true;
  reaping = true;
  retrying = true;
  scheduling = true;
}

pub data Event : Type 0 where
  -- a call of `tryAcquire`, the first or one on a tick
  campaigns : Link → Event
  -- the ticks of the loops
  reaps retries : PassFate → Event
  fires : (reads : Link) → (Bytes → Fate) → (script : Link) → (now : ℕ) → Event
  -- the goroutines see that the context is cancelled, that of `Run` with its release
  resigns : Link → Event
  reaper_ends retry_ends scheduler_ends : Event
  others : List Step → Event

module _ (R : Redis) (cfg : Config) (parse : Parser) (ttl : ℕ) where
  open R use {Db}

  -- `ttl` is `LeaderLockTTL` in milliseconds.
  abbrev pub campaign : Bool → Link → Runtime → Db → Runtime × Db
  campaign false link r d = (r, d)
  campaign true link r d =
      let (l, d') = try_acquire R link ttl r.leader d in (record r { leader = l }, d')

  abbrev pub resign : Bool → Link → Runtime → Db → Runtime × Db
  resign false link r d = (r, d)
  resign true link r d =
      let (l, d') = release R link r.leader d in (record r { leader = l; campaigning = false }, d')

  -- A tick of a loop that runs: the pass, if the process leads.
  abbrev pub ticked : Bool → Bool → Db → Db → Db
  ticked running leads passed d = if running then (if leads then passed else d) else d

  unfoldable pub advance : Event → Runtime → Db → Runtime × Db
  advance (campaigns link) r d = campaign r.campaigning link r d
  advance (reaps m) r d = (r, ticked r.reaping r.leader.held (reap_tick R cfg m d).1 d)
  advance (retries m) r d = (r, ticked r.retrying r.leader.held (retry_tick R cfg m d).1 d)
  advance (fires reads fate script now) r d =
      (r, ticked r.scheduling r.leader.held (schedule_pass R cfg parse reads fate script now d).1 d)
  advance (resigns link) r d = resign r.campaigning link r d
  advance reaper_ends r d = (record r { reaping = false }, d)
  advance retry_ends r d = (record r { retrying = false }, d)
  advance scheduler_ends r d = (record r { scheduling = false }, d)
  advance (others steps) r d = (r, run R steps d)

  unfoldable pub proceed : List Event → Runtime → Db → Runtime × Db
  proceed [] r d = (r, d)
  proceed (e ∷ events) r d = let (r', d') = advance e r d in proceed events r' d'
