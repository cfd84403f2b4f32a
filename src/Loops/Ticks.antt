-- ===== src/Loops/Ticks.antt =====
-- The loops of the reaper and the retry drainer over many ticks: a queue in which more has run
-- out than a pass may take.
use cogs_crash_refresh_job_q.Prelude.{
  ℕ, suc, ◌*◌, ◌<◌, true, false, List, [], ◌∷◌, Bytes, none, some, ℤ, pos, ◌≤ℤ◌, ◌≡◌, ◌≢◌, refl,
  subst, sym, ap, ◌∙◌, inl, inr, arith,
}
use cogs_crash_refresh_job_q.Results.{ok, answered}
use cogs_crash_refresh_job_q.Redis.{Redis, View}
use cogs_crash_refresh_job_q.Jobs.{places, Inv, Keeps, Keeps-refl, Keeps-trans, Keeps-Inv}
use cogs_crash_refresh_job_q.Jobs.Relocate.{Source, source_key, source_places}
use cogs_crash_refresh_job_q.Store.{Config}
use cogs_crash_refresh_job_q.Store.Reads.{known_queues}
use cogs_crash_refresh_job_q.Store.Queues.{known_queues_complete}
use cogs_crash_refresh_job_q.Loops.{PassFate, Event, tick, cancelled, drain_due}
use cogs_crash_refresh_job_q.Loops.OnePass as OnePass
use cogs_crash_refresh_job_q.Loops.Sources.{loop_tick, loop_tick-outcome, entry-IsAlive}
use cogs_crash_refresh_job_q.Loops.Entries.{entries}
use cogs_crash_refresh_job_q.Loops.Backlog.{drains, drains-Clears, drains_leave}

module _ (R : Redis) (cfg : Config) (s : Source) (q : Bytes) where
  open R use {Db, view}

  -- The ticks on which the process leads, before its context ends.
  abbrev pub leading : List (Event PassFate) → ℕ
  leading [] = 0
  leading (cancelled ∷ events) = 0
  leading (tick false m ∷ events) = leading events
  leading (tick true m ∷ events) = suc (leading events)

  abbrev pub loop_run : List (Event PassFate) → Db → Db
  loop_run = drain_due (loop_tick R cfg s)

  module _ (t : ℤ) where
    -- On each tick on which the process leads, the calls are answered, the SCAN loops end, and the
    -- clock is at or past the time of the entry.
    abbrev pub AllAnswered : List (Event PassFate) → Db → Type 0
    AllAnswered [] d = Unit
    AllAnswered (cancelled ∷ events) d = Unit
    AllAnswered (tick false m ∷ events) d = AllAnswered events d
    AllAnswered (tick true m ∷ events) d =
        (m.fate ≡ (λ x. answered))
        × ((queues : List Bytes) × (known_queues R m.scans m.fuel d ≡ some (ok queues)))
        × (t ≤ℤ pos (m.now q))
        × AllAnswered events (loop_tick R cfg s m d).1

    ticked :
        (m : PassFate) (queues : List Bytes) (d : Db)
        → m.fate ≡ (λ x. answered)
        → known_queues R m.scans m.fuel d ≡ some (ok queues)
        → (loop_tick R cfg s m d).1 ≡ drains R cfg s q m.now queues d
    ticked m queues d up found =
        let e = OnePass.pass_found R cfg s m.now m.scans m.fuel d queues found in
        ap (λ r. r.1) (loop_tick-outcome R cfg s m d) ∙ rw up (rw e refl)

    loop-Keeps :
        (events : List (Event PassFate)) (d : Db)
        → Inv (view d)
        → AllAnswered events d
        → Keeps (view d) (view (loop_run events d))
    unfolding drain_due
    loop-Keeps [] d inv all = Keeps-refl (view d)
    loop-Keeps (cancelled ∷ events) d inv all = Keeps-refl (view d)
    loop-Keeps (tick false m ∷ events) d inv all = loop-Keeps events d inv all
    loop-Keeps (tick true m ∷ events) d inv (up, (queues, found), over, all) =
        let (ends, keeps) = OnePass.drains_end R cfg s m.now queues d inv in
        let e = ap view (ticked m queues d up found) in
        let first = subst (λ v. Keeps (view d) v) (sym e) keeps in
        Keeps-trans first (loop-Keeps events (loop_tick R cfg s m d).1 (Keeps-Inv first inv) all)

    module _ (id : Bytes) where
      stays_gone :
          (events : List (Event PassFate)) (d : Db)
          → Inv (view d)
          → AllAnswered events d
          → (view d).zsets (source_key s q) id ≡ none
          → (view (loop_run events d)).zsets (source_key s q) id ≡ none
      unfolding drain_due
      stays_gone [] d inv all gone = gone
      stays_gone (cancelled ∷ events) d inv all gone = gone
      stays_gone (tick false m ∷ events) d inv all gone = stays_gone events d inv all gone
      stays_gone (tick true m ∷ events) d inv (up, (queues, found), over, all) gone =
          let (ends, keeps) = OnePass.drains_end R cfg s m.now queues d inv in
          let e = ap view (ticked m queues d up found) in
          stays_gone events (loop_tick R cfg s m d).1 (subst Inv (sym e) (Keeps-Inv keeps inv)) all
            (ap (λ (v : View). v.zsets (source_key s q) id) e
              ∙ OnePass.drains_absent R cfg s m.now queues d q id inv gone)

      loop_clears :
          (events : List (Event PassFate)) (d : Db)
          → Inv (view d)
          → q ≢ []
          → AllAnswered events d
          → entries R cfg s q d < leading events * cfg.drain_limit
          → (view d).zsets (source_key s q) id ≡ some t
          → (view (loop_run events d)).zsets (source_key s q) id ≡ none
      unfolding drain_due
      loop_clears [] d inv named all few held = absurd (omega arith)
      loop_clears (cancelled ∷ events) d inv named all few held = absurd (omega arith)
      loop_clears (tick false m ∷ events) d inv named all few held =
          loop_clears events d inv named all few held
      loop_clears (tick true m ∷ events) d inv named (up, (queues, found), over, all) few held =
          let d' = drains R cfg s q m.now queues d in
          let same = ticked m queues d up found in
          let inv' = Keeps-Inv (OnePass.drains_end R cfg s m.now queues d inv).1 inv in
          let listed =
            known_queues_complete R m.scans m.fuel d queues q id found named
              (entry-IsAlive R s q id t d held) in
          subst (λ e. (view (loop_run events e)).zsets (source_key s q) id ≡ none) (sym same)
            (let all' = subst (AllAnswered events) same all in
              let gone_before = λ (gone : (view d').zsets (source_key s q) id ≡ none).
                stays_gone events d' inv' all' gone in
              elim (drains-Clears R cfg s q m.now id t queues d inv (omega (arith, listed)) held
                over) [
                  | inl gone ↦ gone_before gone
                  | inr fewer ↦ elim (drains_leave R cfg s q m.now id queues d inv) [
                    | inl gone ↦ gone_before gone
                    | inr left ↦
                        loop_clears events d' inv' named all' (omega (arith, few, fewer))
                          (left ∙ held)
                  ]
                ])

      -- The loop of the reaper or of the retry drainer clears a backlog. On a keyspace that keeps
      -- the invariant, if a queue with a non-empty name has fewer leases, or backoffs, than the
      -- limit of a pass times the ticks on which the process leads, and on each such tick the
      -- calls are answered, the SCAN loops end, and the clock is at or past the time of the job's
      -- entry, then after the ticks the entry is gone and its job is still in the queue, once.
      pub drain_due_recovers :
          (events : List (Event PassFate)) (d : Db)
          → Inv (view d)
          → q ≢ []
          → AllAnswered events d
          → entries R cfg s q d < leading events * cfg.drain_limit
          → (view d).zsets (source_key s q) id ≡ some t
          → ((view (loop_run events d)).zsets (source_key s q) id ≡ none)
            × (places (view (loop_run events d)) q id ≡ 1)
      drain_due_recovers events d inv named all few held =
          let keeps = loop-Keeps events d inv all in
          let stood = source_places s q id (view d) (rw held refl) in
          (
            loop_clears events d inv named all few held,
            omega (arith, keeps.same_places q id, stood, inv.once q id),
          )
