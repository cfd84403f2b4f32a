-- ===== src/Tests/Crashes.antt =====
-- A worker that dies in its handler, at a concrete keyspace.
use cogs_crash_refresh_job_q.Prelude.{
  ◌+◌, ◌*◌, ◌<◌, true, false, List, [], ◌∷◌, none, some, pos, ◌≡◌, refl, arith, bytes_eq, count,
}
use cogs_crash_refresh_job_q.Results.{ok, answered, lost_call}
use cogs_crash_refresh_job_q.Keys.{
  job_key, pending_key, leased_key, retry_key, queue_from_key, dead_key,
}
use cogs_crash_refresh_job_q.Redis.{scan_rounds, attempts, as_int}
use cogs_crash_refresh_job_q.Redis.Memory.Lists.{due_of}
use cogs_crash_refresh_job_q.Jobs.Poison.{Counted}
use cogs_crash_refresh_job_q.System.Poison.{
  Visit, claiming, renewing, visits, Killed, poison_pill_buried,
}
use cogs_crash_refresh_job_q.Redis.Memory.{Log, view_of, members}
use cogs_crash_refresh_job_q.Redis.Memory.Server.{memory, keys_of}
use cogs_crash_refresh_job_q.Scripts.{
  put_job, enqueue_script, claim_script, lease_one, renew_script, drain_script, drain_loop,
  drain_one,
}
use cogs_crash_refresh_job_q.Jobs.{places}
use cogs_crash_refresh_job_q.Jobs.Relocate.{leased}
use cogs_crash_refresh_job_q.System.{run, apply}
use cogs_crash_refresh_job_q.Store.Reads.{known_queues, scan_patterns, add_queues}
use cogs_crash_refresh_job_q.Loops.{PassFate, Event, tick}
use cogs_crash_refresh_job_q.Loops.Entries.{entries}
use cogs_crash_refresh_job_q.Loops.Ticks.{loop_run}
use cogs_crash_refresh_job_q.Sdk.Worker as Worker
use cogs_crash_refresh_job_q.Sdk.{renew, exchange}
use cogs_crash_refresh_job_q.Sdk.Worker.OnTime.{NeverHanded}
use cogs_crash_refresh_job_q.Sdk.Worker.Killed as Killed
use cogs_crash_refresh_job_q.Tests.Data.{
  parser, world, mail_valid, mail, job_a, config, waiting, waiting-Inv, working, working-Inv,
  working-leased,
}

-- Its one renewal does not reach the server.
abbrev events : List Worker.Event
events = Worker.beats lost_call (world answered none) ∷ Worker.hears ∷ []

abbrev at_death : Log
at_death = Killed.at_death memory config parser mail job_a mail_valid 0 true events (pos 10) working

at_death-working : at_death ≡ working
unfolding Worker.process Worker.advance Worker.beat_once renew exchange
at_death-working = refl

abbrev met : PassFate
met = record { scans = λ p. answered; fuel = 1; fate = λ q. answered; now = λ q. 12 }

-- The process does not lead at the first tick.
abbrev ticks : List (Event PassFate)
ticks = tick false met ∷ tick true met ∷ []

mail_known : known_queues memory (λ p. answered) 1 at_death ≡ some (ok (mail ∷ []))
unfolding known_queues scan_patterns scan_rounds keys_of add_queues queue_from_key run apply
    enqueue_script put_job claim_script lease_one job_key pending_key leased_key retry_key bytes_eq
    count Worker.process Worker.advance Worker.beat_once renew exchange
mail_known = refl

few_leases : entries memory config leased mail at_death < 1 * 500
unfolding members run apply enqueue_script put_job claim_script lease_one job_key pending_key
    leased_key bytes_eq Worker.process Worker.advance Worker.beat_once renew exchange
few_leases = omega arith

killed_worker_recovers_example :
    NeverHanded memory config parser mail job_a mail_valid 0 events (Worker.start true) working
    × ((view_of (loop_run memory config leased mail ticks at_death)).zsets (leased_key mail) job_a
        ≡ none)
    × (places (view_of (loop_run memory config leased mail ticks at_death)) mail job_a ≡ 1)
killed_worker_recovers_example =
    Killed.killed_worker_recovers memory config parser mail job_a mail_valid 0 true events (pos 10)
      working ticks working-Inv working-leased (tt, (tt, tt))
      (refl, (mail ∷ [], mail_known), omega arith, tt) few_leases

-- With one retry, a job is claimed twice and its lease runs out each time.
abbrev first_round : Visit
first_round = record { work = claiming mail 1 (pos 10) ∷ []; now = pos 12; limit = 500 }

abbrev second_round : Visit
second_round = record {
  work = claiming mail 1 (pos 20) ∷ renewing mail job_a (pos 30) ∷ [];
  now = pos 32;
  limit = 500;
}

fresh : as_int ((view_of waiting).hashes (job_key job_a) attempts) ≡ some 0
unfolding run apply enqueue_script put_job job_key pending_key bytes_eq
fresh = refl

Killed-twice : Killed memory 1 mail job_a (first_round ∷ second_round ∷ []) waiting
unfolding run apply enqueue_script put_job claim_script lease_one renew_script drain_script
    drain_loop drain_one job_key pending_key leased_key dead_key bytes_eq members due_of
Killed-twice =
    ((pos 10, refl, omega arith), omega arith, ((pos 30, refl, omega arith), omega arith, tt))

poison_pill_buried_example :
    Counted 1 mail job_a
      (0 + 1)
      (view_of (visits memory 1 mail job_a (first_round ∷ second_round ∷ []) waiting))
poison_pill_buried_example =
    poison_pill_buried memory 1 mail job_a first_round (second_round ∷ []) 0 waiting waiting-Inv
      fresh Killed-twice
