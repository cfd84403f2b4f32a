-- ===== src/Loops/Sources.antt =====
-- The two background passes over the queues, by the sorted sets that they drain.
use cogs_crash_refresh_job_q.Prelude.{
  ℕ, true, false, Bool, Option, Bytes, some, ℤ, ◌≡◌, refl, arith,
}
use cogs_crash_refresh_job_q.Results.{Error, Link}
use cogs_crash_refresh_job_q.Redis.{Redis, Pattern}
use cogs_crash_refresh_job_q.Jobs.Relocate.{Source, leased, retry, source_key}
use cogs_crash_refresh_job_q.Store.{Config}
use cogs_crash_refresh_job_q.Store.Queues.{IsAlive}
use cogs_crash_refresh_job_q.Loops.{
  Passes, all_queues, reap_pass, retry_pass, reap_tick, retry_tick, outcome, PassFate,
}

-- The reaper drains the leased sets and counts an attempt, the retry drainer the retry sets, and
-- it does not.
abbrev pub counts : Source → Bool
counts leased = true
counts retry = false

abbrev pub loop_pass :
    (R : Redis) (cfg : Config)
    → Source
    → (Pattern → Link)
    → ℕ
    → (Bytes → Link)
    → (Bytes → ℕ)
    → R.Db
    → Option (Passes R.Db)
loop_pass R cfg leased = reap_pass R cfg
loop_pass R cfg retry = retry_pass R cfg

abbrev pub loop_tick : (R : Redis) (cfg : Config) → Source → PassFate → R.Db → Option Error × R.Db
loop_tick R cfg leased = reap_tick R cfg
loop_tick R cfg retry = retry_tick R cfg

pub loop_pass-all :
    (R : Redis) (cfg : Config) (s : Source)
    → loop_pass R cfg s ≡ all_queues R cfg (source_key s) (counts s)
unfolding reap_pass retry_pass
loop_pass-all R cfg leased = refl
loop_pass-all R cfg retry = refl

pub loop_tick-outcome :
    (R : Redis) (cfg : Config) (s : Source) (m : PassFate) (d : R.Db)
    → loop_tick R cfg s m d ≡ outcome R cfg (loop_pass R cfg s m.scans m.fuel m.fate m.now d) d
unfolding reap_tick retry_tick
loop_tick-outcome R cfg leased m d = refl
loop_tick-outcome R cfg retry m d = refl

-- A queue with such an entry is one that `KnownQueues` finds.
pub entry-IsAlive :
    (R : Redis) (s : Source) (q id : Bytes) (t : ℤ) (d : R.Db)
    → (R.view d).zsets (source_key s q) id ≡ some t
    → IsAlive R q id d
entry-IsAlive R leased q id t d held = ground (arith, held)
entry-IsAlive R retry q id t d held = ground (arith, held)
