-- ===== src/System/Runs.antt =====
-- What a piece of Go code does to the keyspace, as a sequence of permitted steps that does not
-- acknowledge a given job.
use cogs_crash_refresh_job_q.Prelude.{
  List, [], ◌∷◌, Bytes, ◌≡◌, refl, ap, subst, sym, ◌∙◌, ◌⊎◌, inl, inr,
}
use cogs_crash_refresh_job_q.Results.{Result, Link, answered, lost_call, lost_reply, over}
use cogs_crash_refresh_job_q.Redis.{Redis}
use cogs_crash_refresh_job_q.System.{Step, Permits, apply, run, AllPermitted, Spares, AllSpare}

-- A call over a link has its effect or none.
pub over-cases {ℓ} :
    {A : Type ℓ} {Db : Type 0} (link : Link) (f : Db → Result A × Db) (d : Db)
    → ((over link f d).1 ≡ d) ⊎ ((over link f d).1 ≡ (f d).1)
over-cases answered f d = inr refl
over-cases lost_call f d = inl refl
over-cases lost_reply f d = inr refl

module _ (R : Redis) (q id : Bytes) where
  open R use {Db, view}

  abbrev pub Runs : Db → Db → Type 0
  Runs d d' =
      (steps : List Step) × AllPermitted R steps d × AllSpare q id steps × (run R steps d ≡ d')

  pub Runs-refl : (d : Db) → Runs d d
  unfolding run
  Runs-refl d = ([], tt, tt, refl)

  pub Runs-step : (s : Step) (d : Db) → Permits (view d) s → Spares q id s → Runs d (apply R s d)
  unfolding run
  Runs-step s d p spared = (s ∷ [], (p, tt), (spared, tt), refl)

  run_join :
      (steps more : List Step) (d d'' : Db)
      → AllPermitted R steps d
      → AllSpare q id steps
      → AllPermitted R more (run R steps d)
      → AllSpare q id more
      → run R more (run R steps d) ≡ d''
      → Runs d d''
  unfolding run
  run_join [] more d d'' p spared p' spared' e = (more, p', spared', e)
  run_join (s ∷ steps) more d d'' p spared p' spared' e =
      let (all, ps, ss, e') = run_join steps more (apply R s d) d'' p.1 spared.1 p' spared' e in
      (s ∷ all, (p.0, ps), (spared.0, ss), e')

  pub Runs-trans : {d d' d'' : Db} → Runs d d' → Runs d' d'' → Runs d d''
  Runs-trans {d} {d'} {d''} (steps, p, s, e) (more, p', s', e') =
      run_join steps more d d'' p s (subst (AllPermitted R more) (sym e) p') s'
        (ap (run R more) e ∙ e')

  -- A call over a link whose script is a step.
  pub Runs-over {ℓ} :
      {A : Type ℓ} (link : Link) (f : Db → Result A × Db) (s : Step) (d : Db)
      → Permits (view d) s
      → Spares q id s
      → (f d).1 ≡ apply R s d
      → Runs d (over link f d).1
  Runs-over link f s d p spared e = elim (over-cases link f d) [
    | inl same ↦ subst (Runs d) (sym same) (Runs-refl d)
    | inr full ↦ subst (Runs d) (sym (full ∙ e)) (Runs-step s d p spared)
  ]
