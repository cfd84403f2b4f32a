-- ===== src/Sdk/Worker/OnTime.antt =====
-- A worker whose renewals come in time keeps its job to itself until it reports.
use cogs_crash_refresh_job_q.Prelude.{
  ℕ, true, ◌&&◌, List, [], ◌∷◌, Bytes, ℤ, ◌≡◌, refl, if◌then◌else◌,
}
use cogs_crash_refresh_job_q.Results.{Link}
use cogs_crash_refresh_job_q.Keys.{valid_queue_name}
use cogs_crash_refresh_job_q.Redis.{Redis}
use cogs_crash_refresh_job_q.Jobs.{Inv}
use cogs_crash_refresh_job_q.Jobs.Leases.{HasLease}
use cogs_crash_refresh_job_q.Store.{Config}
use cogs_crash_refresh_job_q.Schedules.Manager.{Parser}
use cogs_crash_refresh_job_q.System.{AllPermitted}
use cogs_crash_refresh_job_q.System.Survival.{run-Inv}
use cogs_crash_refresh_job_q.System.Leases.{last_deadline, AllRespect, AllWithhold, lease_excludes}
use cogs_crash_refresh_job_q.Api.{World}
use cogs_crash_refresh_job_q.Sdk.Worker.{
  Beat, selecting, heard, stopped, Process, Event, beats, hears, quits, returns, checks, reports_to,
  others, beat_once, advance, process,
}
use cogs_crash_refresh_job_q.Sdk.Worker.Renewals.{
  reaches, renewed_at, Alive, hear-Alive, quit-Alive, return-Alive, check-Alive, client_renews,
}

module _ (R : Redis) (cfg : Config) (parse : Parser) (q id : Bytes)
    (valid : valid_queue_name q ≡ true) where
  open R use {Db, view}

  -- The deadline of the lease after an event, from where the heartbeat stands.
  abbrev beat_deadline : ℤ → Beat → Link → World → ℤ
  beat_deadline t selecting link w = if reaches link && reaches w.link then renewed_at cfg w else t
  beat_deadline t b link w = t

  abbrev pub deadline_at : ℤ → Beat → Event → ℤ
  deadline_at t b (beats link w) = beat_deadline t b link w
  deadline_at t b (others steps) = last_deadline q id t steps
  deadline_at t b e = t

  -- What others do is permitted, does not finish the job, and no reap pass of it has a clock at or
  -- past the deadline; and the report is not made yet.
  abbrev pub IsTimely : ℤ → Event → Db → Type 0
  IsTimely t (others steps) d = AllPermitted R steps d × AllRespect q id t steps
  IsTimely t (reports_to link w) d = ⊥
  IsTimely t e d = Unit

  module _ (attempts : ℕ) where
    abbrev step : Event → Process → Db → Process × Db
    step = advance R cfg parse cfg.auth_token q id attempts

    abbrev pub after : List Event → Process → Db → Process × Db
    after = process R cfg parse cfg.auth_token q id attempts

    abbrev pub AllTimely : List Event → ℤ → Process → Db → Type 0
    AllTimely [] t p d = Unit
    AllTimely (e ∷ events) t p d =
        IsTimely t e d × AllTimely events (deadline_at t p.beat e) (step e p d).0 (step e p d).1

    -- The deadline after the events.
    abbrev pub last_at : List Event → ℤ → Process → Db → ℤ
    last_at [] t p d = t
    last_at (e ∷ events) t p d =
        last_at events (deadline_at t p.beat e) (step e p d).0 (step e p d).1

    abbrev pub EventWithholds : Event → Db → Type 0
    EventWithholds (others steps) d = AllWithhold R q id steps d
    EventWithholds e d = Unit

    -- No claim of the others has handed out the job.
    abbrev pub NeverHanded : List Event → Process → Db → Type 0
    NeverHanded [] p d = Unit
    NeverHanded (e ∷ events) p d =
        EventWithholds e d × NeverHanded events (step e p d).0 (step e p d).1

    -- The process is alive, the invariant holds, and so does the lease.
    pub record Holds (t : ℤ) (p : Process) (d : Db) : Type 0 where
      pub alive : Alive p
      pub inv : Inv (view d)
      pub held : HasLease q id t (view d)

    beat-Holds :
        (b : Beat) (link : Link) (w : World) (t : ℤ) (p : Process) (d : Db)
        → b ≡ p.beat
        → Holds t p d
        → let r = beat_once R cfg parse cfg.auth_token q id attempts b link w p d in
          Holds (deadline_at t b (beats link w)) r.0 r.1
    unfolding beat_once
    beat-Holds selecting link w t p d e h =
        let (inv', held', told) = client_renews R cfg parse q id valid link w t d h.inv h.held in
        rw (h.alive.running) (record {
          alive = record {
            unaware = h.alive.unaware;
            running = refl;
            unfinished = h.alive.unfinished;
            no_loss = told;
            silent = h.alive.silent;
          };
          inv = inv';
          held = held';
        })
    beat-Holds (heard r) link w t p d e h = h
    beat-Holds stopped link w t p d e h = h

    step-Holds :
        (e : Event) (t : ℤ) (p : Process) (d : Db)
        → Holds t p d
        → IsTimely t e d
        → EventWithholds e d × Holds (deadline_at t p.beat e) (step e p d).0 (step e p d).1
    unfolding advance
    step-Holds (beats link w) t p d h timely = (tt, beat-Holds p.beat link w t p d refl h)
    step-Holds hears t p d h timely =
        (tt, record { alive = hear-Alive p.beat p refl h.alive; inv = h.inv; held = h.held })
    step-Holds quits t p d h timely =
        (tt, record { alive = quit-Alive p.phase p.beat p h.alive; inv = h.inv; held = h.held })
    step-Holds (returns failed) t p d h timely =
        (tt, record { alive = return-Alive p.phase failed p h.alive; inv = h.inv; held = h.held })
    step-Holds checks t p d h timely =
        (tt, record { alive = check-Alive p.phase p h.alive; inv = h.inv; held = h.held })
    step-Holds (reports_to link w) t p d h timely = absurd timely
    step-Holds (others steps) t p d h (permitted, respected) =
        let (withheld, held') = lease_excludes R q id steps t d h.inv permitted respected h.held in
        (
          withheld,
          record { alive = h.alive; inv = run-Inv R steps d h.inv permitted; held = held' },
        )

    pub all-Holds :
        (events : List Event) (t : ℤ) (p : Process) (d : Db)
        → Holds t p d
        → AllTimely events t p d
        → NeverHanded events p d
          × Holds (last_at events t p d) (after events p d).0 (after events p d).1
    unfolding process
    all-Holds [] t p d h timely = (tt, h)
    all-Holds (e ∷ events) t p d h timely =
        let (withheld, h') = step-Holds e t p d h timely.0 in
        let (rest, last) =
          all-Holds events (deadline_at t p.beat e) (step e p d).0 (step e p d).1 h' timely.1 in
        ((withheld, rest), last)
