-- ===== src/Loops/Runtime/Takeover.antt =====
-- A process that takes over from a leader that has crashed.
use cogs_crash_refresh_job_q.Prelude.{
  ℕ, ◌*◌, ◌<◌, Bool, true, false, List, [], ◌∷◌, map, Bytes, none, some, ℤ, ◌≡◌, ◌≢◌, refl, ap,
  subst, sym, ◌∙◌, arith, ◌==◌, length, bytes_eq_refl,
}
use cogs_crash_refresh_job_q.Keys.{leader_key, leased_key}
use cogs_crash_refresh_job_q.Redis.{Redis, View}
use cogs_crash_refresh_job_q.Results.{answered}
use cogs_crash_refresh_job_q.Leader.{tries, acquire, try_acquire, lock_step}
use cogs_crash_refresh_job_q.Leader.Lock.{holder}
use cogs_crash_refresh_job_q.Jobs.{places, Inv}
use cogs_crash_refresh_job_q.Jobs.Relocate.{leased}
use cogs_crash_refresh_job_q.Store.{Config}
use cogs_crash_refresh_job_q.Schedules.Manager.{Parser}
use cogs_crash_refresh_job_q.System.{elects, apply}
use cogs_crash_refresh_job_q.System.Survival.{apply-Inv}
use cogs_crash_refresh_job_q.Loops.{PassFate, tick, drain_due}
use cogs_crash_refresh_job_q.Loops as Loops
use cogs_crash_refresh_job_q.Loops.Entries.{entries}
use cogs_crash_refresh_job_q.Loops.Ticks.{leading, loop_run, AllAnswered, drain_due_recovers}
use cogs_crash_refresh_job_q.Loops.Runtime.{
  Runtime, start, campaigns, reaps, ticked, advance, proceed,
}

-- Ticks of the reaper's loop on which the process leads.
abbrev pub led : List PassFate → List (Loops.Event PassFate)
led ms = map (tick true) ms

module _ (R : Redis) (cfg : Config) (parse : Parser) (ttl : ℕ) (window : 0 < ttl) where
  open R use {Db, view, set_nx_reply, view-set_nx}

  leading-led : (q : Bytes) (ms : List PassFate) → leading R cfg leased q (led ms) ≡ length ms
  leading-led q [] = refl
  leading-led q (m ∷ ms) = omega (arith, leading-led q ms)

  led_pass :
      (running leads : Bool) (passed d : Db)
      → running ≡ true
      → leads ≡ true
      → ticked R cfg parse ttl running leads passed d ≡ passed
  led_pass running leads passed d runs leads_now = rw (runs, leads_now) refl

  -- The ticks of the reaper in a process that leads.
  proceed-reaps :
      (q : Bytes) (ms : List PassFate) (r : Runtime) (d : Db)
      → r.leader.held ≡ true
      → r.reaping ≡ true
      → (proceed R cfg parse ttl (map reaps ms) r d).1 ≡ loop_run R cfg leased q (led ms) d
  unfolding proceed advance drain_due
  proceed-reaps q [] r d leads running = refl
  proceed-reaps q (m ∷ ms) r d leads running =
      let passed = led_pass r.reaping r.leader.held (Loops.reap_tick R cfg m d).1 d running leads in
      ap (λ e. (proceed R cfg parse ttl (map reaps ms) r e).1) passed
      ∙ proceed-reaps q ms r (Loops.reap_tick R cfg m d).1 leads running

  module _ (id : Bytes) (d : Db) where
    -- The first call for the lock, answered.
    abbrev pub taken : Runtime × Db
    taken = advance R cfg parse ttl (campaigns answered) (start id) d

    takes_over :
        holder R d ≡ none
        → (taken.0.leader.held ≡ true)
          × (taken.0.reaping ≡ true)
          × (holder R taken.1 ≡ some id)
          × ((k m : Bytes) → (view taken.1).zsets k m ≡ (view d).zsets k m)
    unfolding advance try_acquire acquire
    takes_over free =
        let positive : (ttl == 0) ≡ false = ground arith in
        let stored = view-set_nx leader_key id ttl d in
        (
          rw (set_nx_reply, positive, free) refl,
          refl,
          ap (λ (w : View). w.strings leader_key) stored ∙ rw (positive, free, bytes_eq_refl) refl,
          λ k m. ap (λ (w : View). w.zsets k m) stored ∙ rw (positive, free) refl,
        )

    taken-Inv : Inv (view d) → Inv (view taken.1)
    unfolding advance apply lock_step
    taken-Inv inv = apply-Inv R (elects tries answered ttl (start id).leader) d inv window

    -- After a leader has crashed and its lock has run out, the next process that tries takes over:
    -- on a keyspace that keeps the invariant, with the lock free, a process whose first call for
    -- the lock is answered leads and is in the lock; and if its reaper's ticks then have their
    -- calls answered, their SCAN loops end, and their clocks are at or past the deadline of a
    -- lease, and its limit times the ticks is more than the leases of the lease's queue, whose
    -- name is not empty, then the lease is gone after them and its job is still in the queue, once.
    pub takeover_recovers :
        (ms : List PassFate) (q job : Bytes) (t : ℤ)
        → Inv (view d)
        → holder R d ≡ none
        → q ≢ []
        → (view d).zsets (leased_key q) job ≡ some t
        → AllAnswered R cfg leased q t (led ms) taken.1
        → entries R cfg leased q taken.1 < length ms * cfg.drain_limit
        → let after = proceed R cfg parse ttl (campaigns answered ∷ map reaps ms) (start id) d in
          (taken.0.leader.held ≡ true)
          × (holder R taken.1 ≡ some id)
          × ((view after.1).zsets (leased_key q) job ≡ none)
          × (places (view after.1) q job ≡ 1)
    unfolding proceed
    takeover_recovers ms q job t inv free named held up few =
        let (leads, running, inside, same) = takes_over free in
        let n = leading-led q ms in
        let (gone, once) =
          drain_due_recovers R cfg leased q t job (led ms) taken.1 (taken-Inv inv) named up
            (rw n few) (same (leased_key q) job ∙ held) in
        let e = proceed-reaps q ms taken.0 taken.1 leads running in
        (
          leads,
          inside,
          subst (λ k. (view k).zsets (leased_key q) job ≡ none) (sym e) gone,
          subst (λ k. places (view k) q job ≡ 1) (sym e) once,
        )
