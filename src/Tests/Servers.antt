-- ===== src/Tests/Servers.antt =====
-- The handlers, the passes, the elections and the whole server, at concrete keyspaces.
use cogs_crash_refresh_job_q.Prelude.{
  ◌+◌, true, List, [], ◌∷◌, Bytes, codes, none, some, pos, ◌≡◌, ◌⊎◌, refl, inl, bytes_eq, present,
}
use cogs_crash_refresh_job_q.Results.{answered, lost_call, lost_reply}
use cogs_crash_refresh_job_q.Keys.{
  job_key, leased_key, schedules_key, valid_queue_name, contains_any, contains_byte,
}
use cogs_crash_refresh_job_q.Redis.{Field}
use cogs_crash_refresh_job_q.Redis.Memory.{view_of}
use cogs_crash_refresh_job_q.Redis.Memory.Server.{memory}
use cogs_crash_refresh_job_q.Jobs.{Inv, places}
use cogs_crash_refresh_job_q.System.{Step, enqueues, claims, reaps, forgets, run}
use cogs_crash_refresh_job_q.System.Survival.{IsJob, IsJob-survives, run-Inv}
use cogs_crash_refresh_job_q.System.Runs.{Runs}
use cogs_crash_refresh_job_q.Api.{
  post_claim, get_job, post_job, Response, answer, failed, lost_lease, acked, invalid_cron,
}
use cogs_crash_refresh_job_q.Api.Handlers.{wrap, handle, handle_enqueue, claim_loop}
use cogs_crash_refresh_job_q.Api.Parse.{authorized}
use cogs_crash_refresh_job_q.Api.Steps.{wrap-Runs}
use cogs_crash_refresh_job_q.Api.Statuses.{
  acks_one, handle_ack_outcome, FailAnswer, handle_fail_outcome, creates, create_schedule_unreplied,
}
use cogs_crash_refresh_job_q.Api.Refusals.{refuses, refused_unchanged}
use cogs_crash_refresh_job_q.Api.Polling.{claim_loop_ends}
use cogs_crash_refresh_job_q.Server.{Activity, serves}
use cogs_crash_refresh_job_q.Server as Server
use cogs_crash_refresh_job_q.Tests.Data.{
  parser, world, mail_valid, mail, job_a, job_b, body, config, empty, waiting, working, waiting-Inv,
  working-Inv, waiting-job,
}

-- An enqueue call with a key, which is sent twice, a claim, a reap pass after its lease has
-- expired, a read, and a lost enqueue.
abbrev key : Bytes
key = codes "k"

abbrev activities : List Activity
activities =
    serves [] (world lost_reply (some job_b)) (post_job (some (mail, body, key)))
    ∷ Server.resends (enqueues mail job_b body key 7 3600)
    ∷ serves [] (world lost_reply none) (post_claim (some (mail ∷ [], pos 1, pos 0)))
    ∷ Server.reaps (λ p. answered) 1 (λ q. answered) (λ q. 9000)
    ∷ serves [] (world answered none) (get_job job_a)
    ∷ serves [] (world lost_call none) (post_job (some (mail, body, [])))
    ∷ []

abbrev steps : List Step
steps = claims mail 1 (pos 10) ∷ reaps mail (pos 12) 500 5 ∷ forgets (codes "k") ∷ []

run-Inv_example : Inv (view_of (run memory steps waiting))
unfolding run
run-Inv_example = run-Inv memory steps waiting waiting-Inv (tt, (tt, (tt, tt)))

wrap-Runs_example :
    Runs memory mail job_a waiting
      (wrap memory config parser []
        (world lost_reply none)
        (post_claim (some (mail ∷ [], pos 1, pos 0)))
        waiting).1
wrap-Runs_example =
    wrap-Runs memory config parser mail job_a [] (world lost_reply none)
      (post_claim (some (mail ∷ [], pos 1, pos 0))) waiting tt tt

handle_ack_outcome_example :
    (((view_of working).zsets (leased_key mail) job_a ≡ none)
      × ((acks_one memory config parser (world answered none) mail mail_valid job_a working).0
          ≡ answer 409 (failed lost_lease)))
    ⊎ ((present ((view_of working).zsets (leased_key mail) job_a) ≡ 1)
        × ((acks_one memory config parser (world answered none) mail mail_valid job_a working).0
            ≡ answer 200 (acked 1))
        × (places
              (view_of
                (acks_one memory config parser
                  (world answered none)
                  mail
                  mail_valid
                  job_a
                  working).1)
              mail
              job_a
            ≡ 0)
        × ((f : Field)
            → (view_of
                  (acks_one memory config parser
                    (world answered none)
                    mail
                    mail_valid
                    job_a
                    working).1).hashes
                (job_key job_a)
                f
              ≡ none))
handle_ack_outcome_example =
    handle_ack_outcome memory config parser (world answered none) mail mail_valid job_a working refl
      working-Inv

handle_fail_outcome_example :
    FailAnswer memory config parser (world answered none) mail mail_valid job_a (pos 0) working
handle_fail_outcome_example =
    handle_fail_outcome memory config parser (world answered none) mail mail_valid job_a (pos 0)
      working refl working-Inv

abbrev hourly : Bytes
hourly = codes "@hourly"

create_schedule_unreplied_example :
    ((creates memory config parser
        (world lost_reply (some job_b))
        mail
        mail_valid
        hourly
        body
        job_b
        (λ now. pos (now + 10))
        empty).0
      ≡ answer 422 (failed invalid_cron))
    × ((view_of
            (creates memory config parser
              (world lost_reply (some job_b))
              mail
              mail_valid
              hourly
              body
              job_b
              (λ now. pos (now + 10))
              empty).1).zsets
          schedules_key job_b
        ≡ some (pos 17))
create_schedule_unreplied_example =
    create_schedule_unreplied memory config parser (world lost_reply (some job_b)) mail mail_valid
      hourly body job_b (λ now. pos (now + 10)) empty refl refl refl

colon_refused :
    refuses
      (wrap memory config parser []
        (world answered none)
        (post_job (some (codes "a:b", body, [])))
        waiting).0
    ≡ true
unfolding wrap authorized handle handle_enqueue valid_queue_name contains_any contains_byte bytes_eq
colon_refused = refl

refused_unchanged_example :
    (wrap memory config parser []
      (world answered none)
      (post_job (some (codes "a:b", body, [])))
      waiting).1
    ≡ waiting
refused_unchanged_example =
    refused_unchanged memory config parser [] (world answered none)
      (post_job (some (codes "a:b", body, []))) waiting colon_refused

claim_loop_ends_example :
    (a : Response) × ((claim_loop memory config parser
        (mail ∷ [])
        (pos 1)
        (pos 7000000)
        (world answered none).rounds
        empty).0
      ≡ some a)
claim_loop_ends_example =
    claim_loop_ends memory config parser (mail ∷ []) (pos 1) (pos 7000000)
      (world answered none).rounds empty (inl refl)

IsJob-survives_example :
    (places (view_of (run memory steps waiting)) mail job_a ≡ 1)
    × IsJob memory mail job_a (run memory steps waiting)
unfolding run
IsJob-survives_example =
    IsJob-survives memory mail job_a steps waiting waiting-Inv (tt, (tt, (tt, tt)))
      (tt, (tt, (tt, tt))) waiting-job
