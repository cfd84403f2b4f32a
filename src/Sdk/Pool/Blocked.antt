-- ===== src/Sdk/Pool/Blocked.antt =====
-- A claimed job that waits for a slot: its lease is not renewed.
use cogs_crash_refresh_job_q.Prelude.{
  ℕ, ◌+◌, ◌≤◌, ◌<◌, Bool, true, false, List, [], ◌∷◌, ◌++◌, Bytes, ℤ, ◌≤ℤ◌, none, ◌≡◌, refl, ap,
  sym, ◌∙◌, arith, length, count, ltb,
}
use cogs_crash_refresh_job_q.Keys.{pending_key, leased_key, dead_key}
use cogs_crash_refresh_job_q.Redis.{Redis}
use cogs_crash_refresh_job_q.Jobs.{Inv}
use cogs_crash_refresh_job_q.Jobs.Leases.{HasLease}
use cogs_crash_refresh_job_q.Jobs.Relocate.{leased}
use cogs_crash_refresh_job_q.Jobs.Pass.{due, drain_script_clears}
use cogs_crash_refresh_job_q.Store.{Config}
use cogs_crash_refresh_job_q.Schedules.Manager.{Parser}
use cogs_crash_refresh_job_q.System.{Step, reaps, run, apply}
use cogs_crash_refresh_job_q.Sdk.Pool.{
  Worker, Task, Pool, Turn, rounds, starts, ends, others, round, take_turn, work,
}

-- No running job ends.
abbrev pub NoneEnds : List Turn → Type 0
NoneEnds [] = Unit
NoneEnds (ends ∷ turns) = ⊥
NoneEnds (t ∷ turns) = NoneEnds turns

-- What the others do in the turns.
abbrev pub others_steps : List Turn → List Step
others_steps [] = []
others_steps (others steps ∷ turns) = steps ++ others_steps turns
others_steps (t ∷ turns) = others_steps turns

module _ (R : Redis) (cfg : Config) (parse : Parser) (token : Bytes) (w : Worker) where
  open R use {Db, view}

  abbrev pub after : List Turn → Pool → Db → Pool × Db
  after = work R cfg parse token w

  run-append :
      (steps more : List Step) (d : Db) → run R (steps ++ more) d ≡ run R more (run R steps d)
  unfolding run
  run-append [] more d = refl
  run-append (s ∷ steps) more d = run-append steps more (apply R s d)

  module _ (task : Task) (tasks started : List Task) (running : ℕ) (left : Bool)
      (full : w.concurrent ≤ running) where
    -- A job waits and all slots are in use.
    abbrev pub pool : Pool
    pool = record { waiting = task ∷ tasks; running = running; started = started; left = left }

    -- Until a running job ends, the loop neither starts a job nor sends a request.
    blocked :
        (turns : List Turn) (d : Db)
        → NoneEnds turns
        → after turns pool d ≡ (pool, run R (others_steps turns) d)
    unfolding work take_turn round run
    blocked [] d quiet = refl
    blocked (rounds gone gone_after link world ∷ turns) d quiet = blocked turns d quiet
    blocked (starts ∷ turns) d quiet =
        let busy : ltb running w.concurrent ≡ false = ground arith in
        rw (busy, work) (blocked turns d quiet)
    blocked (ends ∷ turns) d quiet = absurd quiet
    blocked (others steps ∷ turns) d quiet =
        blocked turns (run R steps d) quiet
        ∙ ap (λ e. (pool, e)) (sym (run-append steps (others_steps turns) d))

    module _ (turns : List Turn) (d : Db) where
      -- The keyspace after the turns, and after a reap pass over the job's queue behind them.
      abbrev pub later : Db
      later = (after turns pool d).1

      abbrev pub reaped : ℤ → ℕ → ℕ → Db
      reaped now limit max_retries = apply R (reaps task.job.queue now limit max_retries) later

      -- While all slots are in use, `Run` sends nothing for a job that it has claimed and not
      -- started: until a running job ends, whatever turns follow, the keyspace is changed by
      -- others alone. If the invariant holds there and the job's lease has expired, then a reap
      -- pass that is not filled to its limit takes the lease away and puts the job in the
      -- pending or the dead list of its queue, while it still waits here to be started.
      pub waiting_job_reaped :
          (t now : ℤ) (limit max_retries : ℕ)
          → NoneEnds turns
          → Inv (view later)
          → HasLease task.job.queue task.job.id t (view later)
          → t ≤ℤ now
          → length (due R leased true max_retries task.job.queue now limit later) < limit
          → ((after turns pool d).0 ≡ pool)
            × (later ≡ run R (others_steps turns) d)
            × ((view (reaped now limit max_retries)).zsets (leased_key task.job.queue) task.job.id
                ≡ none)
            × (count task.job.id
                    ((view (reaped now limit max_retries)).lists (pending_key task.job.queue))
                  + count task.job.id
                      ((view (reaped now limit max_retries)).lists (dead_key task.job.queue))
                ≡ 1)
      unfolding apply
      waiting_job_reaped t now limit max_retries quiet inv held over room =
          let idle = blocked turns d quiet in
          let (gone, moved) =
            drain_script_clears R leased true max_retries task.job.queue now limit later task.job.id
              t inv room held over in
          (ap (λ x. x.0) idle, ap (λ x. x.1) idle, gone, moved)
