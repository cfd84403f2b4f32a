-- ===== src/Tests/Jobs.antt =====
-- The scripts on jobs, at concrete keyspaces.
use cogs_crash_refresh_job_q.Prelude.{
  Option, ℕ, List, false, ◌≤◌, true, [], ◌∷◌, Bytes, codes, some, pos, ◌≡◌, refl, arith, bytes_eq,
  count, length,
}
use cogs_crash_refresh_job_q.Results.{Result, ok}
use cogs_crash_refresh_job_q.Redis.Memory.{Log, view_of}
use cogs_crash_refresh_job_q.Redis.Memory.Server.{memory}
use cogs_crash_refresh_job_q.Scripts.{FailReply, Drained, put_job, enqueue_script}
use cogs_crash_refresh_job_q.Jobs.Relocate.{leased}
use cogs_crash_refresh_job_q.Jobs.Ack.{Acks, ack, ack_script-Acks}
use cogs_crash_refresh_job_q.Jobs.Order.{ids, Handed, claim, claim_script_hands}
use cogs_crash_refresh_job_q.Jobs.Fail.{FailOutcome, after, fail_script_outcome}
use cogs_crash_refresh_job_q.Jobs.Pass.{reports, due, pass, drain_script_reports}
use cogs_crash_refresh_job_q.Jobs.Enqueue.{enqueue}
use cogs_crash_refresh_job_q.System.{Step, claims, acks, reaps, forgets, run}
use cogs_crash_refresh_job_q.Keys.{pending_key}
use cogs_crash_refresh_job_q.Jobs.{Inv}
use cogs_crash_refresh_job_q.Jobs.Resent.{once, twice, resent_enqueue_doubles}
use cogs_crash_refresh_job_q.System.Markers.{first, enqueue_again}
use cogs_crash_refresh_job_q.Tests.Data.{
  mail, job_a, job_b, body, empty, empty-Inv, waiting, working, working-Inv,
}

ack_script-Acks_example :
    Acks mail
      (job_a ∷ job_a ∷ job_b ∷ [])
      (view_of working)
      (view_of (ack memory mail (job_a ∷ job_a ∷ job_b ∷ []) working).1)
      (ack memory mail (job_a ∷ job_a ∷ job_b ∷ []) working).0
ack_script-Acks_example =
    ack_script-Acks memory mail (job_a ∷ job_a ∷ job_b ∷ []) working working-Inv

claim_script_hands_example :
    Handed mail 2
      (pos 10)
      (view_of waiting)
      (view_of (claim memory mail (pos 10) 2 waiting).1)
      (claim memory mail (pos 10) 2 waiting).0
claim_script_hands_example = claim_script_hands memory mail (pos 10) 2 waiting

fail_script_outcome_example :
    (r : FailReply) × ((after memory mail job_a (pos 20) 5 working).0 ≡ ok r)
    × FailOutcome
        (view_of working)
        (view_of (after memory mail job_a (pos 20) 5 working).1)
        mail
        job_a
        (pos 20)
        5
        r
fail_script_outcome_example = fail_script_outcome memory mail job_a (pos 20) 5 working working-Inv

drain_script_reports_example :
    (r : Drained) × ((pass memory leased true 5 mail (pos 12) 500 working).0 ≡ ok r)
    × ((id : Bytes) → reports r id ≡ count id (due memory leased true 5 mail (pos 12) 500 working))
    × (length (due memory leased true 5 mail (pos 12) 500 working) ≤ 500)
drain_script_reports_example =
    drain_script_reports memory leased true 5 mail (pos 12) 500 working working-Inv

abbrev order : Bytes
order = codes "order-7"

-- The job is claimed and acknowledged, and its queue reaped, before the key comes again.
abbrev order_steps : List Step
order_steps =
    claims mail 5 (pos 3007)
    ∷ acks mail (job_a ∷ [])
    ∷ reaps mail (pos 9000) 500 5
    ∷ forgets (codes "order-8")
    ∷ []

abbrev order_first : Result (ℕ × Option Bytes) × Log
order_first = first memory mail job_a body order 5 3600 empty

order_created : order_first.0 ≡ ok (1, some job_a)
unfolding enqueue_script put_job bytes_eq
order_created = refl

orders_differ : bytes_eq (codes "order-8") order ≡ false
unfolding bytes_eq
orders_differ = refl

enqueue_again_example :
    ((enqueue memory mail job_b body order 6 3600 (run memory order_steps order_first.1)).0
      ≡ ok (0, some job_a))
    × (view_of
          (enqueue memory mail job_b body order 6 3600 (run memory order_steps order_first.1)).1
        ≡ view_of (run memory order_steps order_first.1))
enqueue_again_example =
    enqueue_again memory mail job_a body order 5 3600 empty 1 job_a order_steps mail job_b body 6
      3600 empty-Inv refl (λ e. cc) (omega arith) order_created (tt, (tt, (tt, (tt, tt))))
      (tt, (tt, (tt, (orders_differ, tt))))

resent-fits :
    length ((view_of (twice memory mail job_a body 5 60 empty).1).lists (pending_key mail)) ≤ 2
unfolding enqueue_script put_job bytes_eq pending_key
resent-fits = omega arith

resent_enqueue_doubles_example :
    ((once memory mail job_a body 5 60 empty).0 ≡ ok (1, some job_a))
    × ((twice memory mail job_a body 5 60 empty).0 ≡ ok (1, some job_a))
    × (count job_a ((view_of (twice memory mail job_a body 5 60 empty).1).lists (pending_key mail))
        ≡ 2)
    × (¬ Inv (view_of (twice memory mail job_a body 5 60 empty).1))
    × (count job_a
          (ids (claim memory mail (pos 3000) 2 (twice memory mail job_a body 5 60 empty).1).0)
        ≡ 2)
resent_enqueue_doubles_example =
    resent_enqueue_doubles memory mail job_a body 5 60 empty (pos 3000) 2 empty-Inv refl resent-fits
