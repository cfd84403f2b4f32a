-- ===== src/Loops/OnePass.antt =====
-- One pass of the reaper clears every lease that has expired, one of the retry drainer every
-- backoff that has passed.
use cogs_crash_refresh_job_q.Prelude.{
  ℕ, ◌≤◌, ◌<◌, List, [], ◌∷◌, Bytes, none, some, ℤ, pos, ◌≤ℤ◌, ◌≡◌, ◌≢◌, refl, subst, sym, ◌∙◌, inl,
  inr, count, bytes_eq, bytes_eq_sound, Bool-cases, ◌==◌, arith, length, length-count-le,
}
use cogs_crash_refresh_job_q.Results.{Result, ok, Link, answered}
use cogs_crash_refresh_job_q.Redis.{Redis, Pattern}
use cogs_crash_refresh_job_q.Scripts.{Drained}
use cogs_crash_refresh_job_q.Jobs.{places, Inv, Keeps, Keeps-refl, Keeps-trans, Keeps-Inv}
use cogs_crash_refresh_job_q.Jobs.Relocate.{Source, source_key, source_places}
use cogs_crash_refresh_job_q.Jobs.Pass.{
  pass, due, drain_script_passes, drain_script_clears, drain_script-Keeps,
}
use cogs_crash_refresh_job_q.Jobs.Elsewhere.{pass_elsewhere, pass_absent}
use cogs_crash_refresh_job_q.Store.{Config, drain}
use cogs_crash_refresh_job_q.Store.Reads.{known_queues}
use cogs_crash_refresh_job_q.Store.Queues.{known_queues_complete}
use cogs_crash_refresh_job_q.Loops.{Passes, add_report, drain_queues, all_queues}
use cogs_crash_refresh_job_q.Loops.Sources.{counts, loop_pass, loop_pass-all, entry-IsAlive}

module _ (R : Redis) (cfg : Config) (s : Source) (now : Bytes → ℕ) where
  open R use {Db, view, zrange_once, zrange_due}

  abbrev pub drains : List Bytes → Db → Passes Db
  drains = drain_queues R cfg (source_key s) (counts s) (λ q. answered) now

  abbrev pub one_drain : Bytes → Db → Result Drained × Db
  one_drain q = pass R s (counts s) cfg.max_retries q (pos (now q)) cfg.drain_limit

  pub drains_cons :
      (q : Bytes) (queues : List Bytes) (d : Db)
      → Inv (view d)
      → (r : Drained) × (drains (q ∷ queues) d
          ≡ add_report (record { into = q; moved = r }) (drains queues (one_drain q d).1))
  unfolding drain_queues drain
  drains_cons q queues d inv =
      let (r, reply, p) =
        drain_script_passes R s (counts s) cfg.max_retries q (pos (now q)) cfg.drain_limit d inv in
      (r, rw (reply, drain_queues) refl)

  pub one_drain-Keeps :
      (q : Bytes) (d : Db) → Inv (view d) → Keeps (view d) (view (one_drain q d).1)
  one_drain-Keeps q d inv =
      drain_script-Keeps R s (counts s) cfg.max_retries q (pos (now q)) cfg.drain_limit d inv

  -- The loop over the queues fails nowhere, and loses no job.
  pub drains_end :
      (queues : List Bytes) (d : Db)
      → Inv (view d)
      → ((drains queues d).failure ≡ none) × Keeps (view d) (view (drains queues d).after)
  unfolding drain_queues
  drains_end [] d inv = (refl, Keeps-refl (view d))
  drains_end (q ∷ queues) d inv =
      let first = one_drain-Keeps q d inv in
      let (ends, keeps) = drains_end queues (one_drain q d).1 (Keeps-Inv first inv) in
      rw (drains_cons q queues d inv).1 (ends, Keeps-trans first keeps)

  pub drains_absent :
      (queues : List Bytes) (d : Db) (q id : Bytes)
      → Inv (view d)
      → (view d).zsets (source_key s q) id ≡ none
      → (view (drains queues d).after).zsets (source_key s q) id ≡ none
  unfolding drain_queues
  drains_absent [] d q id inv absent = absent
  drains_absent (x ∷ queues) d q id inv absent = rw (drains_cons x queues d inv).1 (
      drains_absent queues (one_drain x d).1 q id (Keeps-Inv (one_drain-Keeps x d inv) inv) (
        pass_absent R s (counts s) cfg.max_retries x (pos (now x)) cfg.drain_limit d q id inv
          absent))

  -- The names are fewer than the limit of a pass, and all that has expired in the queue is among
  -- them.
  abbrev pub FewExpired : Bytes → List Bytes → Db → Type 0
  FewExpired q names d =
      (length names < cfg.drain_limit)
      × ((m : Bytes) (t : ℤ)
          → (view d).zsets (source_key s q) m ≡ some t
          → t ≤ℤ pos (now q)
          → 1 ≤ count m names)

  due_few :
      (q : Bytes) (names : List Bytes) (d : Db)
      → FewExpired q names d
      → length (due R s (counts s) cfg.max_retries q (pos (now q)) cfg.drain_limit d)
        < cfg.drain_limit
  due_few q names d (few, covers) =
      let expired = due R s (counts s) cfg.max_retries q (pos (now q)) cfg.drain_limit d in
      omega (
        arith,
        few,
        length-count-le expired names (λ m. elim (Bool-cases (count m expired == 0)) [
          | inl nothing ↦ ground arith
          | inr something ↦
              let (t, held, over) =
                zrange_due (source_key s q) m (pos (now q)) cfg.drain_limit d (ground arith) in
              omega (
                arith,
                covers m t held over,
                zrange_once (source_key s q) m (pos (now q)) cfg.drain_limit d,
              )
        ]),
      )

  module _ (q id : Bytes) (names : List Bytes) (t : ℤ) where
    drains_clear :
        (queues : List Bytes) (d : Db)
        → Inv (view d)
        → 1 ≤ count q queues
        → FewExpired q names d
        → (view d).zsets (source_key s q) id ≡ some t
        → t ≤ℤ pos (now q)
        → (view (drains queues d).after).zsets (source_key s q) id ≡ none
    unfolding count
    drains_clear [] d inv there few held over = absurd (omega arith)
    drains_clear (x ∷ queues) d inv there few held over =
        let inv' = Keeps-Inv (one_drain-Keeps x d inv) inv in
        elim (Bool-cases (bytes_eq x q)) [
          | inl same ↦
              let cleared =
                drain_script_clears R s (counts s) cfg.max_retries q (pos (now q)) cfg.drain_limit d
                  id t inv (due_few q names d few) held over in
              rw (drains_cons x queues d inv).1 (
                drains_absent queues (one_drain x d).1 q id inv' (
                  subst (λ k. (view (one_drain k d).1).zsets (source_key s q) id ≡ none)
                    (sym (bytes_eq_sound x q same)) cleared.0))
          | inr other ↦
              let stays = λ (m : Bytes).
                pass_elsewhere R s (counts s) cfg.max_retries x (pos (now x)) cfg.drain_limit d q m
                  inv other in
              rw (drains_cons x queues d inv).1 (
                drains_clear queues (one_drain x d).1 inv' (ground arith)
                  (few.0, λ m u e late. few.1 m u (sym (stays m) ∙ e) late) (stays id ∙ held) over)
        ]

  some_inj {ℓ} : {A : Type ℓ} {a b : A} → some a ≡ some b → a ≡ b
  some_inj h = cc

  pub pass_found :
      (scans : Pattern → Link) (fuel : ℕ) (d : Db) (queues : List Bytes)
      → known_queues R scans fuel d ≡ some (ok queues)
      → loop_pass R cfg s scans fuel (λ q. answered) now d ≡ some (drains queues d)
  unfolding all_queues
  pass_found scans fuel d queues found = rw (loop_pass-all R cfg s) (rw (found, all_queues) refl)

  -- A pass of the reaper or the retry drainer: on a keyspace that keeps the invariant, if its
  -- calls are answered and it returns, it has met no failure and has taken away every lease, or
  -- every backoff, of a queue with a non-empty name, that had run out by the time its queue was
  -- drained, unless as many as the limit of a pass had; and the job of each is still in its
  -- queue, once.
  pub pass_recovers :
      (scans : Pattern → Link) (fuel : ℕ) (d : Db) (p : Passes Db) (q id : Bytes)
      (names queues : List Bytes) (t : ℤ)
      → Inv (view d)
      → known_queues R scans fuel d ≡ some (ok queues)
      → loop_pass R cfg s scans fuel (λ q. answered) now d ≡ some p
      → q ≢ []
      → FewExpired q names d
      → (view d).zsets (source_key s q) id ≡ some t
      → t ≤ℤ pos (now q)
      → (p.failure ≡ none)
        × ((view p.after).zsets (source_key s q) id ≡ none)
        × (places (view p.after) q id ≡ 1)
  pass_recovers scans fuel d p q id names queues t inv found returned named few held over =
      let same : drains queues d ≡ p =
        some_inj (sym (pass_found scans fuel d queues found) ∙ returned) in
      let (ends, keeps) = drains_end queues d inv in
      let listed =
        known_queues_complete R scans fuel d queues q id found named
          (entry-IsAlive R s q id t d held) in
      let stood = source_places s q id (view d) (rw held refl) in
      rw (sym same) (
        ends,
        drains_clear q id names t queues d inv (omega (arith, listed)) few held over,
        omega (arith, keeps.same_places q id, stood, inv.once q id),
      )
