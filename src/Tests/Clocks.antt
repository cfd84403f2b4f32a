-- ===== src/Tests/Clocks.antt =====
-- The schedules, the lock and the reaper, at concrete keyspaces.
use cogs_crash_refresh_job_q.Prelude.{
  ℕ, true, false, List, [], ◌∷◌, Bytes, codes, none, some, pos, ◌≡◌, refl, inl, arith, bytes_eq,
  count, ◌<◌, ◌*◌,
}
use cogs_crash_refresh_job_q.Results.{Link, ok, answered, lost_call, lost_reply}
use cogs_crash_refresh_job_q.Keys.{
  job_key, pending_key, leased_key, retry_key, schedule_key, schedules_key, queue_from_key,
}
use cogs_crash_refresh_job_q.Redis.{scan_rounds, value_bytes}
use cogs_crash_refresh_job_q.Redis.Memory.{Log, view_of, members}
use cogs_crash_refresh_job_q.Redis.Memory.Server.{memory, keys_of}
use cogs_crash_refresh_job_q.Redis.Memory.Lists.{due_of}
use cogs_crash_refresh_job_q.Scripts.{
  drain_script, put_job, enqueue_script, claim_script, lease_one,
}
use cogs_crash_refresh_job_q.Jobs.{places, Inv}
use cogs_crash_refresh_job_q.Leader.{
  Leader, LockCall, tries, releases, try_acquire, acquire, lock_run,
}
use cogs_crash_refresh_job_q.Leader.Leaderless.{lost_acquire_leaderless}
use cogs_crash_refresh_job_q.Leader.Lock.{holder, AllDown, leader_excludes}
use cogs_crash_refresh_job_q.Store.{Config, drain}
use cogs_crash_refresh_job_q.Schedules.{Quad, fire, schedule_one, put_schedule}
use cogs_crash_refresh_job_q.Schedules.Fire.{one}
use cogs_crash_refresh_job_q.System.{
  Step, creates, enqueues, schedules, deletes, run, apply, AllPermitted,
}
use cogs_crash_refresh_job_q.System.Survival.{run-Inv}
use cogs_crash_refresh_job_q.Jobs.Enqueue.{IsFresh}
use cogs_crash_refresh_job_q.System.Firing.{AllQuiet, IsNext, schedule_fires_once}
use cogs_crash_refresh_job_q.Schedules.Manager.{Fate}
use cogs_crash_refresh_job_q.Schedules.Passes.{prep, lost_read_unschedules}
use cogs_crash_refresh_job_q.Store.Reads.{known_queues, scan_patterns, add_queues}
use cogs_crash_refresh_job_q.Loops.{PassFate, Event, tick, reap_tick}
use cogs_crash_refresh_job_q.Loops.Ticks.{loop_run, drain_due_recovers}
use cogs_crash_refresh_job_q.Loops.Entries.{entries}
use cogs_crash_refresh_job_q.Jobs.Relocate.{leased}
use cogs_crash_refresh_job_q.Tests.Data.{
  parser, mail, job_a, job_b, body, config, empty, empty-Inv, working, working-Inv, working-leased,
}

abbrev nightly : Bytes
nightly = codes "n1"

abbrev at_three : Bytes
at_three = codes "0 3 * * *"

-- A schedule is due at 5.
abbrev planned : Log
planned = run memory (creates nightly mail at_three body 1 (pos 5) ∷ []) empty

abbrev quad : Quad
quad = record { sched_id = nightly; job_id = job_b; body = body; next_run = pos 100 }

planned-fires : (one memory 6 quad planned).0 ≡ some mail
unfolding run apply put_schedule schedule_one job_key schedule_key schedules_key bytes_eq
    value_bytes
planned-fires = refl

-- The same schedule and another one are offered again at 99, after an enqueue call.
abbrev other_quad : Quad
other_quad = record {
  sched_id = codes "n2";
  job_id = codes "job-d";
  body = body;
  next_run = pos 500;
}

abbrev again_quad : Quad
again_quad = record { sched_id = nightly; job_id = codes "job-c"; body = body; next_run = pos 500 }

abbrev quiet_steps : List Step
quiet_steps =
    enqueues mail (codes "job-e") body [] 7 60
    ∷ schedules 99 (again_quad ∷ other_quad ∷ [])
    ∷ deletes (codes "n2")
    ∷ []

planned-Inv : Inv (view_of planned)
planned-Inv =
    run-Inv memory (creates nightly mail at_three body 1 (pos 5) ∷ []) empty empty-Inv (tt, tt)

planned-IsFresh : IsFresh (view_of planned) job_b
unfolding run apply put_schedule job_key schedule_key schedules_key bytes_eq
planned-IsFresh = refl

quiet-AllPermitted : AllPermitted memory quiet_steps (one memory 6 quad planned).1
unfolding run apply put_schedule schedule_one job_key schedule_key schedules_key bytes_eq
    value_bytes enqueue_script put_job fire
quiet-AllPermitted = (inl refl, (inl (refl, (refl, tt), (refl, tt, tt)), (tt, tt)))

other_name : bytes_eq (codes "n2") nightly ≡ false
unfolding bytes_eq
other_name = refl

schedule_fires_once_example :
    AllQuiet memory nightly quiet_steps (one memory 6 quad planned).1
    × IsNext nightly (pos 100) (view_of (run memory quiet_steps (one memory 6 quad planned).1))
schedule_fires_once_example =
    schedule_fires_once memory 6 quad planned mail quiet_steps planned-fires planned-Inv
      planned-IsFresh quiet-AllPermitted (tt, (refl, (other_name, tt)))

abbrev fate : Link → Fate
fate link = record { reads = link; drops = answered; new_id = some job_b; time = 6 }

lost_read_unschedules_example :
    ((prep memory config parser (fate lost_call) nightly planned).0 ≡ ok none)
    × ((view_of (prep memory config parser (fate lost_call) nightly planned).1).hashes
        ≡ (view_of planned).hashes)
    × ((one memory 1000 quad (prep memory config parser (fate lost_call) nightly planned).1).0
        ≡ none)
lost_read_unschedules_example =
    lost_read_unschedules memory config parser (fate lost_call) nightly planned 1000 quad (λ e. cc)
      (λ e. cc) refl

abbrev process : Bytes → Leader
process id = record { id = id; held = false }

-- The first process is in the lock.
abbrev locked : Log
locked = (try_acquire memory answered 10000 (process job_a) empty).1

a_leads : (try_acquire memory answered 10000 (process job_a) empty).0.held ≡ true
unfolding try_acquire acquire
a_leads = refl

abbrev calls : List (LockCall × Link × Leader)
calls = (tries, answered, process job_b) ∷ (releases, lost_reply, process job_b) ∷ []

b_other : bytes_eq job_a job_b ≡ false
unfolding bytes_eq
b_other = refl

leader_excludes_example :
    (holder memory (lock_run memory 10000 calls locked).1 ≡ some job_a)
    × AllDown memory 10000 (omega arith) calls (lock_run memory 10000 calls locked).0
    × (view_of (lock_run memory 10000 calls locked).1 ≡ view_of locked)
leader_excludes_example =
    leader_excludes memory 10000 (omega arith) (process job_a) calls empty a_leads
      (b_other, (b_other, tt))

-- The reply to the first process is lost; then it tries again, and releases.
abbrev unheard : Leader × Log
unheard = try_acquire memory lost_reply 10000 (process job_a) empty

abbrev later_calls : List (LockCall × Link × Leader)
later_calls =
    (tries, answered, process job_b)
    ∷ (tries, answered, process job_a)
    ∷ (releases, answered, process job_a)
    ∷ (tries, answered, process job_b)
    ∷ []

lost_acquire_leaderless_example :
    (unheard.0.held ≡ false)
    × (holder memory unheard.1 ≡ some job_a)
    × AllDown memory 10000 (omega arith) later_calls (lock_run memory 10000 later_calls unheard.1).0
    × (view_of (lock_run memory 10000 later_calls unheard.1).1 ≡ view_of unheard.1)
lost_acquire_leaderless_example =
    lost_acquire_leaderless memory 10000 (omega arith) (process job_a) later_calls empty refl refl
      (inl refl, (inl refl, (inl refl, (inl refl, tt))))

-- The clock of the reap passes.
abbrev clock : Bytes → ℕ
clock q = 12

mail_known : known_queues memory (λ p. answered) 1 working ≡ some (ok (mail ∷ []))
unfolding known_queues scan_patterns scan_rounds keys_of add_queues queue_from_key run apply
    enqueue_script put_job claim_script lease_one job_key pending_key leased_key retry_key bytes_eq
    count
mail_known = refl

-- Two passes of one job each.
abbrev one_each : Config
one_each = record config { drain_limit = 1 }

abbrev met : PassFate
met = record { scans = λ p. answered; fuel = 1; fate = λ q. answered; now = clock }

abbrev ticks : List (Event PassFate)
ticks = tick true met ∷ tick false met ∷ tick true met ∷ []

known_still :
    known_queues memory (λ p. answered) 1 (reap_tick memory one_each met working).1
    ≡ some (ok (mail ∷ []))
unfolding known_queues scan_patterns scan_rounds keys_of add_queues queue_from_key run apply
    enqueue_script put_job claim_script lease_one job_key pending_key leased_key retry_key bytes_eq
    count reap_tick drain drain_script due_of members
known_still = refl

one_lease : entries memory one_each leased mail working < 2 * 1
unfolding members run apply enqueue_script put_job claim_script lease_one job_key pending_key
    leased_key bytes_eq
one_lease = omega arith

drain_due_recovers_example :
    ((view_of (loop_run memory one_each leased mail ticks working)).zsets (leased_key mail) job_a
      ≡ none)
    × (places (view_of (loop_run memory one_each leased mail ticks working)) mail job_a ≡ 1)
drain_due_recovers_example =
    drain_due_recovers memory one_each leased mail (pos 10) job_a ticks working working-Inv
      (λ e. cc)
      (
        refl,
        (mail ∷ [], mail_known),
        omega arith,
        (refl, (mail ∷ [], known_still), omega arith, tt),
      )
      one_lease working-leased
