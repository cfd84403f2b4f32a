-- ===== src/Tests/Failovers.antt =====
-- A bystander and a takeover, at concrete keyspaces.
use cogs_crash_refresh_job_q.Prelude.{
  ◌*◌, ◌<◌, true, false, List, [], ◌∷◌, map, none, some, pos, ◌≡◌, refl, arith, bytes_eq, count,
  length,
}
use cogs_crash_refresh_job_q.Results.{ok, answered, lost_reply}
use cogs_crash_refresh_job_q.Keys.{
  job_key, pending_key, leased_key, retry_key, leader_key, queue_from_key,
}
use cogs_crash_refresh_job_q.Redis.{scan_rounds}
use cogs_crash_refresh_job_q.Redis.Memory.{Log, view_of, members}
use cogs_crash_refresh_job_q.Redis.Memory.Server.{memory, keys_of}
use cogs_crash_refresh_job_q.Scripts.{put_job, enqueue_script, claim_script, lease_one}
use cogs_crash_refresh_job_q.Leader.{try_acquire, acquire, release}
use cogs_crash_refresh_job_q.Leader.Lock.{holder}
use cogs_crash_refresh_job_q.Jobs.{places}
use cogs_crash_refresh_job_q.Jobs.Relocate.{leased}
use cogs_crash_refresh_job_q.System.{claims, run, apply}
use cogs_crash_refresh_job_q.Store.Reads.{known_queues, scan_patterns, add_queues}
use cogs_crash_refresh_job_q.Loops.{PassFate}
use cogs_crash_refresh_job_q.Loops.Entries.{entries}
use cogs_crash_refresh_job_q.Loops.Runtime as Runtime
use cogs_crash_refresh_job_q.Loops.Runtime.Bystander.{AllIdle, StaysIn, bystander_idles}
use cogs_crash_refresh_job_q.Loops.Runtime.Takeover.{taken, takeover_recovers}
use cogs_crash_refresh_job_q.Tests.Data.{
  parser, mail, job_a, job_b, config, working, working-Inv, working-leased,
}

abbrev met : PassFate
met = record { scans = λ p. answered; fuel = 1; fate = λ q. answered; now = λ q. 12 }

-- The first process leads while a job is leased; the second ticks, tries and resigns.
abbrev led : Log
led = (try_acquire memory answered 10000 (record { id = job_a; held = false }) working).1

abbrev events : List Runtime.Event
events =
    Runtime.campaigns answered
    ∷ Runtime.reaps met
    ∷ Runtime.others (claims mail 1 (pos 30) ∷ [])
    ∷ Runtime.campaigns lost_reply
    ∷ Runtime.retries met
    ∷ Runtime.resigns answered
    ∷ []

stays_in : StaysIn memory config parser 10000 (omega arith) job_a events (Runtime.start job_b) led
unfolding try_acquire acquire release leader_key bytes_eq Runtime.advance run apply enqueue_script
    put_job claim_script lease_one job_key pending_key leased_key
stays_in = (refl, (refl, (refl, (refl, (refl, (refl, tt))))))

bystander_idles_example :
    AllIdle memory config parser 10000 (omega arith) events (Runtime.start job_b) led
    × ((Runtime.proceed memory config parser 10000 events (Runtime.start job_b) led).0.leader.held
        ≡ false)
bystander_idles_example =
    bystander_idles memory config parser 10000 (omega arith) job_a events (Runtime.start job_b) led
      refl stays_in

no_lock : holder memory working ≡ none
unfolding run apply enqueue_script put_job claim_script lease_one job_key pending_key leased_key
    leader_key bytes_eq
no_lock = refl

-- The lock is free, and the lease is past its deadline.
abbrev next : Log
next = (taken memory config parser 10000 (omega arith) job_b working).1

mail_known : known_queues memory (λ p. answered) 1 next ≡ some (ok (mail ∷ []))
unfolding known_queues scan_patterns scan_rounds keys_of add_queues queue_from_key run apply
    enqueue_script put_job claim_script lease_one job_key pending_key leased_key retry_key bytes_eq
    count Runtime.advance try_acquire acquire leader_key
mail_known = refl

one_lease : entries memory config leased mail next < length (met ∷ []) * 500
unfolding members run apply enqueue_script put_job claim_script lease_one job_key pending_key
    leased_key bytes_eq Runtime.advance try_acquire acquire leader_key
one_lease = omega arith

abbrev taken_over : Log
taken_over =
    (Runtime.proceed memory config parser 10000
      (Runtime.campaigns answered ∷ map Runtime.reaps (met ∷ [])) (Runtime.start job_b) working).1

takeover_recovers_example :
    ((taken memory config parser 10000 (omega arith) job_b working).0.leader.held ≡ true)
    × (holder memory next ≡ some job_b)
    × ((view_of taken_over).zsets (leased_key mail) job_a ≡ none)
    × (places (view_of taken_over) mail job_a ≡ 1)
takeover_recovers_example =
    takeover_recovers memory config parser 10000 (omega arith) job_b working (met ∷ []) mail job_a
      (pos 10) working-Inv no_lock (λ e. cc) working-leased
      (refl, (mail ∷ [], mail_known), omega arith, tt) one_lease
