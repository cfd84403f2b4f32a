-- ===== src/Loops/Runtime/Bystander.antt =====
-- A process does no pass while another one is in the lock.
use cogs_crash_refresh_job_q.Prelude.{
  ℕ, ◌<◌, Bool, true, false, List, [], ◌∷◌, Bytes, some, ◌≡◌, refl,
}
use cogs_crash_refresh_job_q.Redis.{Redis}
use cogs_crash_refresh_job_q.Results.{Link}
use cogs_crash_refresh_job_q.Leader.{try_acquire, release}
use cogs_crash_refresh_job_q.Leader.Lock.{holder, acquire_foreign}
use cogs_crash_refresh_job_q.Store.{Config}
use cogs_crash_refresh_job_q.Schedules.Manager.{Parser}
use cogs_crash_refresh_job_q.Loops.Runtime.{
  Runtime, Event, campaigns, reaps, retries, fires, resigns, reaper_ends, retry_ends,
  scheduler_ends, others, campaign, resign, ticked, advance, proceed,
}

module _ (R : Redis) (cfg : Config) (parse : Parser) (ttl : ℕ) (window : 0 < ttl) where
  open R use {Db, view}

  abbrev step : Event → Runtime → Db → Runtime × Db
  step = advance R cfg parse ttl

  -- Before each event the process is in the lock.
  abbrev pub StaysIn : Bytes → List Event → Runtime → Db → Type 0
  StaysIn owner [] r d = Unit
  StaysIn owner (e ∷ events) r d =
      (holder R d ≡ some owner) × StaysIn owner events (step e r d).0 (step e r d).1

  -- The event changes nothing, unless others do.
  abbrev pub Idles : Event → Runtime → Db → Type 0
  Idles (others steps) r d = Unit
  Idles e r d = view (step e r d).1 ≡ view d

  abbrev pub AllIdle : List Event → Runtime → Db → Type 0
  AllIdle [] r d = Unit
  AllIdle (e ∷ events) r d = Idles e r d × AllIdle events (step e r d).0 (step e r d).1

  campaign_idles :
      (running : Bool) (link : Link) (r : Runtime) (d : Db) (owner : Bytes)
      → holder R d ≡ some owner
      → r.leader.held ≡ false
      → (view (campaign R cfg parse ttl running link r d).1 ≡ view d)
        × ((campaign R cfg parse ttl running link r d).0.leader.held ≡ false)
  unfolding try_acquire
  campaign_idles false link r d owner h idle = (refl, idle)
  campaign_idles true link r d owner h idle =
      let (down, same) = acquire_foreign R ttl window link r.leader d owner idle h in
      simp idle (same, down)

  resign_idles :
      (running : Bool) (link : Link) (r : Runtime) (d : Db)
      → r.leader.held ≡ false
      → (view (resign R cfg parse ttl running link r d).1 ≡ view d)
        × ((resign R cfg parse ttl running link r d).0.leader.held ≡ false)
  unfolding release
  resign_idles false link r d idle = (refl, idle)
  resign_idles true link r d idle = simp idle (refl, refl)

  no_pass :
      (running leads : Bool) (passed d : Db)
      → leads ≡ false
      → view (ticked R cfg parse ttl running leads passed d) ≡ view d
  no_pass false leads passed d idle = refl
  no_pass true leads passed d idle = rw idle refl

  step-Idles :
      (e : Event) (r : Runtime) (d : Db) (owner : Bytes)
      → holder R d ≡ some owner
      → r.leader.held ≡ false
      → Idles e r d × ((step e r d).0.leader.held ≡ false)
  unfolding advance
  step-Idles (campaigns link) r d owner h idle = campaign_idles r.campaigning link r d owner h idle
  step-Idles (reaps m) r d owner h idle = (no_pass r.reaping r.leader.held _ d idle, idle)
  step-Idles (retries m) r d owner h idle = (no_pass r.retrying r.leader.held _ d idle, idle)
  step-Idles (fires reads fate script now) r d owner h idle =
      (no_pass r.scheduling r.leader.held _ d idle, idle)
  step-Idles (resigns link) r d owner h idle = resign_idles r.campaigning link r d idle
  step-Idles reaper_ends r d owner h idle = (refl, idle)
  step-Idles retry_ends r d owner h idle = (refl, idle)
  step-Idles scheduler_ends r d owner h idle = (refl, idle)
  step-Idles (others steps) r d owner h idle = (tt, idle)

  -- While another process is in the lock, this one does no pass: if it does not believe to lead,
  -- then in every order of its ticks, its calls for the lock, the ends of its goroutines and
  -- what others do, with any calls or replies lost, none of its events changes anything, and
  -- it does not come to lead, as long as whatever the others do leaves that process in the lock.
  pub bystander_idles :
      (owner : Bytes) (events : List Event) (r : Runtime) (d : Db)
      → r.leader.held ≡ false
      → StaysIn owner events r d
      → AllIdle events r d × ((proceed R cfg parse ttl events r d).0.leader.held ≡ false)
  unfolding proceed
  bystander_idles owner [] r d idle stays = (tt, idle)
  bystander_idles owner (e ∷ events) r d idle (h, stays) =
      let (same, idle') = step-Idles e r d owner h idle in
      let (rest, last) = bystander_idles owner events (step e r d).0 (step e r d).1 idle' stays in
      ((same, rest), last)
