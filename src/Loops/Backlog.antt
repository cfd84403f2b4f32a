-- ===== src/Loops/Backlog.antt =====
-- What a pass over the queues does to the leases, or the backoffs, of one queue, however many have
-- run out.
use cogs_crash_refresh_job_q.Prelude.{
  ℕ, ◌≤◌, List, [], ◌∷◌, Bytes, none, some, ℤ, pos, ◌≤ℤ◌, ◌≡◌, ◌⊎◌, refl, subst, sym, ap, ◌∙◌, inl,
  inr, count, bytes_eq, bytes_eq_sound, Bool-cases, arith,
}
use cogs_crash_refresh_job_q.Redis.{Redis}
use cogs_crash_refresh_job_q.Jobs.{Inv}
use cogs_crash_refresh_job_q.Jobs.Relocate.{Source, source_key}
use cogs_crash_refresh_job_q.Jobs.Elsewhere.{pass_elsewhere}
use cogs_crash_refresh_job_q.Store.{Config}
use cogs_crash_refresh_job_q.Loops.{drain_queues}
use cogs_crash_refresh_job_q.Loops.OnePass as OnePass
use cogs_crash_refresh_job_q.Loops.Sources.{counts}
use cogs_crash_refresh_job_q.Loops.Entries as Entries
use cogs_crash_refresh_job_q.Loops.Entries.{entries, Clears}

module _ (R : Redis) (cfg : Config) (s : Source) (q : Bytes) (now : Bytes → ℕ) where
  open R use {Db, view}

  abbrev pub drains : List Bytes → Db → Db
  drains queues d = (OnePass.drains R cfg s now queues d).after

  abbrev one_drain : Bytes → Db → Db
  one_drain = Entries.one_drain R cfg s q now

  drains_next :
      (x : Bytes) (queues : List Bytes) (d : Db)
      → Inv (view d)
      → drains (x ∷ queues) d ≡ drains queues (one_drain x d)
  drains_next x queues d inv =
      let (r, e) = OnePass.drains_cons R cfg s now x queues d inv in ap (λ p. p.after) e

  pub drains_fewer :
      (queues : List Bytes) (d : Db)
      → Inv (view d)
      → entries R cfg s q (drains queues d) ≤ entries R cfg s q d
  unfolding drain_queues
  drains_fewer [] d inv = omega arith
  drains_fewer (x ∷ queues) d inv = omega (
    arith,
    ap (entries R cfg s q) (drains_next x queues d inv),
    drains_fewer queues (one_drain x d) (Entries.one_drain-Inv R cfg s q now x d inv),
    Entries.one_drain_fewer R cfg s q now x d inv,
  )

  -- An entry is taken away or left as it was.
  pub drains_leave :
      (id : Bytes) (queues : List Bytes) (d : Db)
      → Inv (view d)
      → ((view (drains queues d)).zsets (source_key s q) id ≡ none)
        ⊎ ((view (drains queues d)).zsets (source_key s q) id ≡ (view d).zsets (source_key s q) id)
  unfolding drain_queues
  drains_leave id [] d inv = inr refl
  drains_leave id (x ∷ queues) d inv =
      let d' = one_drain x d in
      let inv' = Entries.one_drain-Inv R cfg s q now x d inv in
      let e = ap (λ k. (view k).zsets (source_key s q) id) (drains_next x queues d inv) in
      elim (Entries.one_drain_leaves R cfg s q now x id d inv) [
        | inl gone ↦ inl (e ∙ OnePass.drains_absent R cfg s now queues d' q id inv' gone)
        | inr stays ↦ elim (drains_leave id queues d' inv') [
          | inl gone ↦ inl (e ∙ gone)
          | inr left ↦ inr (e ∙ (left ∙ stays))
        ]
      ]

  pub drains-Clears :
      (id : Bytes) (t : ℤ) (queues : List Bytes) (d : Db)
      → Inv (view d)
      → 1 ≤ count q queues
      → (view d).zsets (source_key s q) id ≡ some t
      → t ≤ℤ pos (now q)
      → Clears R cfg s q id d (drains queues d)
  unfolding drain_queues count
  drains-Clears id t [] d inv there held over = absurd (omega arith)
  drains-Clears id t (x ∷ queues) d inv there held over =
      let inv' = Entries.one_drain-Inv R cfg s q now x d inv in
      subst (λ e. Clears R cfg s q id d e) (sym (drains_next x queues d inv))
        (elim (Bool-cases (bytes_eq x q)) [
          | inl same ↦
              subst (λ k. Clears R cfg s q id d (drains queues (one_drain k d)))
                (sym (bytes_eq_sound x q same))
                (elim (Entries.own_drain-Clears R cfg s q now id t d inv held over) [
                  | inl gone ↦ inl (
                      OnePass.drains_absent R cfg s now queues (one_drain q d) q id
                        (Entries.one_drain-Inv R cfg s q now q d inv) gone)
                  | inr fewer ↦ inr (
                      omega (
                        arith,
                        fewer,
                        drains_fewer queues (one_drain q d)
                            (Entries.one_drain-Inv R cfg s q now q d inv),
                      ))
                ])
          | inr other ↦
              let stays =
                pass_elsewhere R s (counts s) cfg.max_retries x (pos (now x)) cfg.drain_limit d q id
                  inv other in
              let rest =
                drains-Clears id t queues (one_drain x d) inv' (ground (arith, there, other))
                  (stays ∙ held) over in
              elim rest [
                | inl gone ↦ inl gone
                | inr fewer ↦
                    inr (omega (arith, fewer, Entries.one_drain_fewer R cfg s q now x d inv))
              ]
        ])
