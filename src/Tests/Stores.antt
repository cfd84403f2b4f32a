-- ===== src/Tests/Stores.antt =====
-- The keys and the operations of the store, at concrete keyspaces.
use cogs_crash_refresh_job_q.Prelude.{
  ◌+◌, ◌≤◌, true, List, [], ◌∷◌, ◌++◌, ◌⊎◌, Bytes, codes, some, pos, ◌≡◌, refl, arith, bytes_eq,
  count, length, present,
}
use cogs_crash_refresh_job_q.Results.{Link, ok, answered}
use cogs_crash_refresh_job_q.Keys.{
  job_key, pending_key, leased_key, retry_key, dead_key, queue_from_key,
}
use cogs_crash_refresh_job_q.Keys.Layout.{pending, key_bytes_inj}
use cogs_crash_refresh_job_q.Redis.{scan_rounds, value_bytes, value_int}
use cogs_crash_refresh_job_q.Redis.Memory.{Log, view_of, members}
use cogs_crash_refresh_job_q.Redis.Memory.Server.{memory, keys_of}
use cogs_crash_refresh_job_q.Scripts.{put_job, enqueue_script, claim_script, lease_one}
use cogs_crash_refresh_job_q.Jobs.{places}
use cogs_crash_refresh_job_q.System.{run, apply, enqueues}
use cogs_crash_refresh_job_q.Store.{Job, enqueue, claim, claim_queues, clamp_batch}
use cogs_crash_refresh_job_q.Store.Reads.{
  QueueStats, stats, known_queues, scan_patterns, add_queues, job,
}
use cogs_crash_refresh_job_q.Store.Claims.{AllEmpty}
use cogs_crash_refresh_job_q.Store.Priority.{AllFrom, claim_priority}
use cogs_crash_refresh_job_q.Store.Queues.{known_queues_complete}
use cogs_crash_refresh_job_q.Store.Counts.{CountsSet, Stays, all_ids, stats_counts}
use cogs_crash_refresh_job_q.Store.ReadBack.{expected, enqueue_reads_back}
use cogs_crash_refresh_job_q.Tests.Data.{
  mail, job_a, body, config, empty, waiting, working, working-Inv, working-leased,
}

key_bytes_inj_example : pending mail ≡ pending (codes "mail")
key_bytes_inj_example = key_bytes_inj (pending mail) (pending (codes "mail")) refl

abbrev got : List Job
got =
    record {
      id = job_a;
      queue = mail;
      payload = body;
      attempts = 0;
      idempotency_key = [];
      created_at = 0;
      lease_deadline = 3007;
    }
    ∷ []

-- The first queue has nothing, so that the second is served.
abbrev none_before : List (Bytes × Link)
none_before = (codes "fast", answered) ∷ []

claims_behind :
    (claim memory config 7 (none_before ++ (mail, answered) ∷ []) (pos 5) waiting).0 ≡ ok got
unfolding claim claim_queues clamp_batch run apply enqueue_script put_job claim_script lease_one
    job_key pending_key leased_key bytes_eq value_bytes value_int
claims_behind = refl

abbrev behind_claimed : Log
behind_claimed = (claim memory config 7 (none_before ++ (mail, answered) ∷ []) (pos 5) waiting).1

claim_priority_example :
    (first later : List Job) × (got ≡ first ++ later)
    × AllFrom none_before first
    × AllFrom ((mail, answered) ∷ []) later
    × ((later ≡ []) ⊎ AllEmpty none_before (view_of behind_claimed))
    × ((length got ≡ clamp_batch config.max_claim_batch (pos 5))
        ⊎ AllEmpty (none_before ++ (mail, answered) ∷ []) (view_of behind_claimed))
claim_priority_example =
    claim_priority memory config 7 none_before ((mail, answered) ∷ []) (pos 5) waiting got
      claims_behind

mail_known : known_queues memory (λ p. answered) 1 working ≡ some (ok (mail ∷ []))
unfolding known_queues scan_patterns scan_rounds keys_of add_queues queue_from_key run apply
    enqueue_script put_job claim_script lease_one job_key pending_key leased_key retry_key bytes_eq
    count
mail_known = refl

known_queues_complete_example : count mail (mail ∷ []) ≡ 1
known_queues_complete_example =
    known_queues_complete memory (λ p. answered) 1 working (mail ∷ []) mail job_a mail_known
      (λ e. cc) alive
  where
    alive :
        1
        ≤ count job_a ((view_of working).lists (pending_key mail))
          + present ((view_of working).zsets (leased_key mail) job_a)
          + present ((view_of working).zsets (retry_key mail) job_a)
    alive = rw working-leased (omega arith)

abbrev depths : QueueStats
depths = record { queue = mail; pending = 0; leased = 1; retry = 0; dead = 0 }

-- A job is enqueued between the third and the fourth read.
abbrev more_waiting : Log
more_waiting = run memory (enqueues mail (codes "job-b") body [] 5 60 ∷ []) working

stats-working : stats memory answered mail working working working more_waiting ≡ ok depths
unfolding stats members run apply enqueue_script put_job claim_script lease_one job_key pending_key
    leased_key retry_key dead_key bytes_eq
stats-working = refl

Stays-now : Stays memory mail job_a working working
Stays-now = record { pending = refl; leased = refl; retry = refl; dead = refl }

Stays-later : Stays memory mail job_a working more_waiting
unfolding members run apply enqueue_script put_job claim_script lease_one job_key pending_key
    leased_key retry_key dead_key bytes_eq count
Stays-later = record { pending = refl; leased = refl; retry = refl; dead = refl }

stats_counts_example :
    (depths.queue ≡ mail)
    × (depths.pending ≡ length ((view_of working).lists (pending_key mail)))
    × CountsSet memory mail depths.leased (leased_key mail) working
    × CountsSet memory mail depths.retry (retry_key mail) working
    × (depths.dead ≡ length ((view_of more_waiting).lists (dead_key mail)))
    × (length (all_ids memory mail working working working more_waiting)
        ≡ depths.pending + depths.leased + depths.retry + depths.dead)
    × (count job_a (all_ids memory mail working working working more_waiting)
        ≡ places (view_of working) mail job_a)
    × (count job_a (all_ids memory mail working working working more_waiting) ≤ 1)
stats_counts_example =
    stats_counts memory mail depths working working working more_waiting job_a stats-working
      working-Inv Stays-now Stays-now Stays-later

a_created : (enqueue memory config answered (some job_a) 5 mail body [] empty).0 ≡ ok (job_a, true)
unfolding enqueue enqueue_script put_job bytes_eq
a_created = refl

enqueue_reads_back_example :
    job memory answered job_a (enqueue memory config answered (some job_a) 5 mail body [] empty).1
    ≡ ok (expected memory config job_a mail body [] 5 empty)
enqueue_reads_back_example = enqueue_reads_back memory config job_a mail body [] 5 empty a_created
