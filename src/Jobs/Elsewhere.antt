-- ===== src/Jobs/Elsewhere.antt =====
-- A drain pass over one queue leaves the sorted sets of the others alone.
use cogs_crash_refresh_job_q.Prelude.{
  ℕ, Bool, false, List, [], ◌∷◌, Bytes, none, ℤ, ◌≡◌, refl, subst, sym, ◌∙◌, inl, inr, bytes_eq,
  bytes_eq_sound, Bool-cases, arith,
}
use cogs_crash_refresh_job_q.Keys.Layout.{key_laws}
use cogs_crash_refresh_job_q.Redis.{Redis, View}
use cogs_crash_refresh_job_q.Scripts.{Moved, skipped, requeued, buried, drain_loop, drain_script}
use cogs_crash_refresh_job_q.Jobs.{Inv, Keeps-Inv}
use cogs_crash_refresh_job_q.Jobs.Relocate.{Source, leased, retry, source_key}
use cogs_crash_refresh_job_q.Jobs.Drain.{one, DrainOutcome, drain_one_outcome, drain_one-Keeps}
use cogs_crash_refresh_job_q.Jobs.Pass.{loop, pass, due, drain_script_passes}

one_elsewhere :
    (s : Source) (bump : Bool) (max_retries : ℕ) (q id : Bytes) (v w : View) (m : Moved)
    → DrainOutcome s bump max_retries q id v w m
    → (j x : Bytes) → bytes_eq (source_key s q) j ≡ false
    → w.zsets j x ≡ v.zsets j x
one_elsewhere s bump max_retries q id v w skipped o j x other = rw o.1 refl
one_elsewhere s bump max_retries q id v w requeued o j x other = rw (o.4, other) refl
one_elsewhere s bump max_retries q id v w buried o j x other = rw (o.4, other) refl

module _ (R : Redis) (s : Source) (bump : Bool) (max_retries : ℕ) (q : Bytes) where
  open R use {Db, view, zrange_by_score}

  loop_elsewhere :
      (ids : List Bytes) (d : Db)
      → Inv (view d)
      → (j x : Bytes) → bytes_eq (source_key s q) j ≡ false
      → (view (loop R s bump max_retries q ids d).1).zsets j x ≡ (view d).zsets j x
  unfolding drain_loop
  loop_elsewhere [] d inv j x other = refl
  loop_elsewhere (id ∷ ids) d inv j x other =
      let (m, moves) = drain_one_outcome R s max_retries q bump id d inv in
      let first = drain_one-Keeps R s max_retries q bump id d inv in
      let d' = (one R s bump max_retries q id d).1 in
      rw (moves.0, drain_loop)
        (loop_elsewhere ids d' (Keeps-Inv first inv) j x other
          ∙ one_elsewhere s bump max_retries q id (view d) (view d') m moves.1 j x other)

  -- A pass changes no sorted set but its own.
  pub pass_other_sets :
      (now : ℤ) (limit : ℕ) (d : Db) (j x : Bytes)
      → Inv (view d)
      → bytes_eq (source_key s q) j ≡ false
      → (view (pass R s bump max_retries q now limit d).1).zsets j x ≡ (view d).zsets j x
  unfolding drain_script
  pass_other_sets now limit d j x inv other =
      loop_elsewhere (due R s bump max_retries q now limit d) d inv j x other

  source_key-eq : (q' : Bytes) → bytes_eq (source_key s q) (source_key s q') ≡ bytes_eq q q'
  source_key-eq q' = elim s as (λ s. bytes_eq (source_key s q) (source_key s q') ≡ bytes_eq q q') [
    | leased ↦ simp key_laws
    | retry ↦ simp key_laws
  ]

  -- A pass over one queue changes nothing in the set of another.
  pub pass_elsewhere :
      (now : ℤ) (limit : ℕ) (d : Db) (q' x : Bytes)
      → Inv (view d)
      → bytes_eq q q' ≡ false
      → (view (pass R s bump max_retries q now limit d).1).zsets (source_key s q') x
        ≡ (view d).zsets (source_key s q') x
  pass_elsewhere now limit d q' x inv other =
      pass_other_sets now limit d (source_key s q') x inv (source_key-eq q' ∙ other)

  -- A member that is not in the set of some queue is not there after the pass.
  pub pass_absent :
      (now : ℤ) (limit : ℕ) (d : Db) (q' x : Bytes)
      → Inv (view d)
      → (view d).zsets (source_key s q') x ≡ none
      → (view (pass R s bump max_retries q now limit d).1).zsets (source_key s q') x ≡ none
  pass_absent now limit d q' x inv absent = elim (Bool-cases (bytes_eq q q')) [
    | inl same ↦
        let (r, reply, p) = drain_script_passes R s bump max_retries q now limit d inv in
        let e = bytes_eq_sound q q' same in
        subst
          (λ k. (view (pass R s bump max_retries q now limit d).1).zsets (source_key s k) x ≡ none)
          e
          (ground (
            arith,
            p.cleared x,
            p.others x,
            subst (λ k. (view d).zsets (source_key s k) x ≡ none) (sym e) absent,
          ))
    | inr other ↦ pass_elsewhere now limit d q' x inv other ∙ absent
  ]
