-- ===== src/Tests/Workers.antt =====
-- The client, its workers and the leases, at concrete keyspaces.
use cogs_crash_refresh_job_q.Prelude.{
  ◌+◌, true, false, List, [], ◌∷◌, none, pos, ◌≡◌, ◌≢◌, ◌⊎◌, refl, inr, bytes_eq, present,
}
use cogs_crash_refresh_job_q.Results.{answered}
use cogs_crash_refresh_job_q.Keys.{job_key, pending_key, leased_key}
use cogs_crash_refresh_job_q.Redis.Memory.{view_of, members}
use cogs_crash_refresh_job_q.Redis.Memory.Lists.{due_of}
use cogs_crash_refresh_job_q.Redis.Memory.Server.{memory}
use cogs_crash_refresh_job_q.Scripts.{
  put_job, enqueue_script, claim_script, lease_one, renew_script, drain_script, drain_loop,
  drain_one,
}
use cogs_crash_refresh_job_q.Jobs.Leases.{HasLease}
use cogs_crash_refresh_job_q.System.{Step, claims, renews, reaps, run, apply}
use cogs_crash_refresh_job_q.System.Leases.{last_deadline, AllRespect, AllWithhold, lease_excludes}
use cogs_crash_refresh_job_q.Store as Store
use cogs_crash_refresh_job_q.Sdk.Worker as Worker
use cogs_crash_refresh_job_q.Keys.{valid_queue_name, contains_any, contains_byte}
use cogs_crash_refresh_job_q.Api.Parse.{authorized}
use cogs_crash_refresh_job_q.Api.Handlers.{wrap, handle, handle_renew}
use cogs_crash_refresh_job_q.Sdk.{ClientError, lease_lost, ok, err, renew}
use cogs_crash_refresh_job_q.Sdk.Calls.{renews as renews_to, IsCut, renew_tells}
use cogs_crash_refresh_job_q.Sdk.Worker.Settles.{now, Settled, reported, on_time_settles}
use cogs_crash_refresh_job_q.Sdk.Worker.OnTime.{AllTimely, NeverHanded, last_at}
use cogs_crash_refresh_job_q.Sdk.Worker.Reports as Reports
use cogs_crash_refresh_job_q.Tests.Data.{
  parser, world, mail_valid, mail, job_a, config, working, working-Inv, working-leased,
}

-- Another worker claims, the lease is renewed until 30, and a reap pass comes at 12.
abbrev steps : List Step
steps = claims mail 1 (pos 20) ∷ renews mail job_a (pos 30) ∷ reaps mail (pos 12) 500 5 ∷ []

steps-respect : AllRespect mail job_a (pos 10) steps
unfolding bytes_eq
steps-respect = (tt, (tt, (inr refl, tt)))

lease_excludes_example :
    AllWithhold memory mail job_a steps working
    × HasLease mail job_a
        (last_deadline mail job_a (pos 10) steps)
        (view_of (run memory steps working))
lease_excludes_example =
    lease_excludes memory mail job_a steps (pos 10) working working-Inv (tt, (tt, (tt, tt)))
      steps-respect working-leased

-- A heartbeat, a reap pass at 12, and the end of the handler.
abbrev events : List Worker.Event
events =
    Worker.beats answered (world answered none)
    ∷ Worker.hears
    ∷ Worker.others (reaps mail (pos 12) 500 5 ∷ [])
    ∷ Worker.returns false
    ∷ Worker.checks
    ∷ []

at_report :
    (now memory config parser mail job_a mail_valid 0 true events (pos 10) working).0.phase
    ≡ Worker.passed false
unfolding Worker.process Worker.advance Worker.beat_once renew wrap authorized handle handle_renew
    valid_queue_name contains_any contains_byte Store.renew renew_script run apply enqueue_script
    put_job claim_script lease_one job_key pending_key leased_key bytes_eq
at_report = refl

on_time_settles_example :
    NeverHanded memory config parser mail job_a mail_valid 0 events (Worker.start true) working
    × ((now memory config parser mail job_a mail_valid 0 true events (pos 10) working).0.lost
        ≡ false)
    × HasLease mail job_a
        (last_at memory config parser mail job_a mail_valid 0 events
          (pos 10)
          (Worker.start true)
          working)
        (view_of (now memory config parser mail job_a mail_valid 0 true events (pos 10) working).1)
    × Settled memory config parser mail job_a mail_valid 0 false
        (world answered none)
        (now memory config parser mail job_a mail_valid 0 true events (pos 10) working).1
        (reported memory config parser mail job_a mail_valid 0 true events
          (pos 10)
          working
          (world answered none))
on_time_settles_example =
    on_time_settles memory config parser mail job_a mail_valid 0 true events (pos 10) working false
      (world answered none) working-Inv working-leased timely at_report refl
  where
    timely :
        AllTimely memory config parser mail job_a mail_valid 0 events
          (pos 10)
          (Worker.start true)
          working
    timely = (tt, (tt, (((tt, tt), (inr refl, tt)), (tt, (tt, tt)))))

process_reports_once_example :
    Reports.Sound (Reports.now memory config parser [] mail job_a 0 true events working).0
process_reports_once_example =
    Reports.process_reports_once memory config parser [] mail job_a 0 true events working

-- The reaper takes the lease before the first heartbeat.
abbrev late_events : List Worker.Event
late_events =
    Worker.others (reaps mail (pos 12) 500 5 ∷ [])
    ∷ Worker.beats answered (world answered none)
    ∷ Worker.hears
    ∷ []

learns : (Reports.now memory config parser [] mail job_a 0 true late_events working).0.lost ≡ true
unfolding Worker.process Worker.advance Worker.beat_once renew wrap authorized handle handle_renew
    valid_queue_name contains_any contains_byte Store.renew renew_script run apply drain_script
    drain_loop drain_one enqueue_script put_job claim_script lease_one job_key pending_key
    leased_key bytes_eq members due_of
learns = refl

still_working :
    Reports.is_unread
      (Reports.now memory config parser [] mail job_a 0 true late_events working).0.phase
    ≡ true
unfolding Worker.process Worker.advance Worker.beat_once renew wrap authorized handle handle_renew
    valid_queue_name contains_any contains_byte Store.renew renew_script run apply drain_script
    drain_loop drain_one enqueue_script put_job claim_script lease_one job_key pending_key
    leased_key bytes_eq members due_of
still_working = refl

abbrev reporting : List Worker.Event
reporting =
    Worker.returns false ∷ Worker.checks ∷ Worker.reports_to answered (world answered none) ∷ []

lost_reports_nothing_example :
    (Reports.after memory config parser [] mail job_a 0 reporting
      (Reports.now memory config parser [] mail job_a 0 true late_events working).0
      (Reports.now memory config parser [] mail job_a 0 true late_events working).1).0.reports
    ≡ []
lost_reports_nothing_example =
    Reports.lost_reports_nothing memory config parser [] mail job_a 0 true late_events working
      learns still_working reporting

renew_tells_example :
    (((renews_to memory config parser
          (world answered none)
          mail
          mail_valid
          job_a
          working
          answered).0
        ≡ ok tt)
      × (present ((view_of working).zsets (leased_key mail) job_a) ≡ 1)
      × HasLease mail job_a (pos (7 + Store.milliseconds config.lease_ttl)) (
          view_of
            (renews_to memory config parser
              (world answered none)
              mail
              mail_valid
              job_a
              working
              answered).1))
    ⊎ (((renews_to memory config parser
            (world answered none)
            mail
            mail_valid
            job_a
            working
            answered).0
          ≡ err lease_lost)
        × ((view_of working).zsets (leased_key mail) job_a ≡ none)
        × (view_of
              (renews_to memory config parser
                (world answered none)
                mail
                mail_valid
                job_a
                working
                answered).1
            ≡ view_of working))
    ⊎ ((e : ClientError) × ((renews_to memory config parser
            (world answered none)
            mail
            mail_valid
            job_a
            working
            answered).0
          ≡ err e)
        × (e ≢ lease_lost)
        × IsCut memory config parser answered (world answered none))
renew_tells_example =
    renew_tells memory config parser (world answered none) mail mail_valid job_a working answered
