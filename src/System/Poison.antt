-- ===== src/System/Poison.antt =====
-- A job that kills each worker that takes it: the reaper gives it back until its attempts are past
-- the retries, and then buries it.
use cogs_crash_refresh_job_q.Prelude.{
  ℕ, ◌+◌, ◌<◌, true, List, [], ◌∷◌, map, Bytes, some, ℤ, ◌≤ℤ◌, ◌≡◌, refl, ap, subst, ◌∙◌, inl, inr,
  arith, length,
}
use cogs_crash_refresh_job_q.Keys.{job_key}
use cogs_crash_refresh_job_q.Redis.{Redis, View, attempts, as_int}
use cogs_crash_refresh_job_q.Jobs.{Inv}
use cogs_crash_refresh_job_q.Jobs.Leases.{HasLease}
use cogs_crash_refresh_job_q.Jobs.Order.{claim_script_hands}
use cogs_crash_refresh_job_q.Jobs.Pass.{due}
use cogs_crash_refresh_job_q.Jobs.Poison.{Counted, pass-Counted}
use cogs_crash_refresh_job_q.Jobs.Relocate.{leased}
use cogs_crash_refresh_job_q.Jobs.Renew.{renew_script_outcome}
use cogs_crash_refresh_job_q.System.{Step, claims, renews, reaps, apply, run}
use cogs_crash_refresh_job_q.System.Survival.{apply-Inv}

-- What workers do that report nothing: they claim, of any queue, and renew.
pub data Work : Type 0 where
  claiming : (q : Bytes) → (n : ℕ) → (deadline : ℤ) → Work
  renewing : (q id : Bytes) → (deadline : ℤ) → Work

abbrev pub as_step : Work → Step
as_step (claiming q n deadline) = claims q n deadline
as_step (renewing q id deadline) = renews q id deadline

-- The work until a reap pass, and the clock and the limit of the pass.
pub record Visit : Type 0 where
  pub work : List Work
  pub now : ℤ
  pub limit : ℕ

module _ (R : Redis) where
  open R use {Db, view}

  abbrev pub worked : List Work → Db → Db
  worked work = run R (map as_step work)

  renew-hashes :
      (q id : Bytes) (deadline : ℤ) (d : Db)
      → (view (apply R (renews q id deadline) d)).hashes ≡ (view d).hashes
  unfolding apply
  renew-hashes q id deadline d = elim (renew_script_outcome R q id deadline d) [
    | inl (held, r, v) ↦ ap (λ (w : View). w.hashes) v
    | inr (absent, r, v) ↦ ap (λ (w : View). w.hashes) v
  ]

  worked-hashes : (work : List Work) (d : Db) → (view (worked work d)).hashes ≡ (view d).hashes
  unfolding run apply
  worked-hashes [] d = refl
  worked-hashes (claiming q n deadline ∷ work) d =
      worked-hashes work (apply R (claims q n deadline) d)
      ∙ (claim_script_hands R q deadline n d).same_hashes
  worked-hashes (renewing q id deadline ∷ work) d =
      worked-hashes work (apply R (renews q id deadline) d) ∙ renew-hashes q id deadline d

  worked-Inv : (work : List Work) (d : Db) → Inv (view d) → Inv (view (worked work d))
  unfolding run
  worked-Inv [] d inv = inv
  worked-Inv (claiming q n deadline ∷ work) d inv =
      worked-Inv work _ (apply-Inv R (claims q n deadline) d inv tt)
  worked-Inv (renewing q id deadline ∷ work) d inv =
      worked-Inv work _ (apply-Inv R (renews q id deadline) d inv tt)

  module _ (max_retries : ℕ) (q id : Bytes) where
    abbrev visit : Visit → Db → Db
    visit v d = apply R (reaps q v.now v.limit max_retries) (worked v.work d)

    abbrev pub visits : List Visit → Db → Db
    visits [] d = d
    visits (v ∷ vs) d = visits vs (visit v d)

    -- At each reap pass a lease of the job has run out, and the pass is not filled to its limit.
    abbrev pub Killed : List Visit → Db → Type 0
    Killed [] d = Unit
    Killed (v ∷ vs) d =
        ((t : ℤ) × HasLease q id t (view (worked v.work d)) × (t ≤ℤ v.now))
        × (length (due R leased true max_retries q v.now v.limit (worked v.work d)) < v.limit)
        × Killed vs (visit v d)

    visit-Counted :
        (v : Visit) (n : ℕ) (d : Db)
        → Inv (view d)
        → as_int ((view d).hashes (job_key id) attempts) ≡ some n
        → ((t : ℤ) × HasLease q id t (view (worked v.work d)) × (t ≤ℤ v.now))
        → length (due R leased true max_retries q v.now v.limit (worked v.work d)) < v.limit
        → Counted max_retries q id n (view (visit v d))
    unfolding apply
    visit-Counted v n d inv attempted (t, held, over) room =
        pass-Counted R max_retries q id v.now v.limit (worked v.work d) t n
          (worked-Inv v.work d inv) room held over
          (ap (λ h. as_int (h (job_key id) attempts)) (worked-hashes v.work d) ∙ attempted)

    -- A job that kills its workers does not go round for ever. On a keyspace that keeps the
    -- invariant, take a job with some attempts, and a number of rounds, at least one, in each of
    -- which workers claim and renew whatever they like, and then a reap pass, not filled to its
    -- limit, finds that a lease of the job has run out. After them the job has an attempt more
    -- for each round; it stands in the dead list of its queue, once, if they are past the
    -- retries, and in the pending list, once, if not.
    pub poison_pill_buried :
        (v : Visit) (vs : List Visit) (n : ℕ) (d : Db)
        → Inv (view d)
        → as_int ((view d).hashes (job_key id) attempts) ≡ some n
        → Killed (v ∷ vs) d
        → Counted max_retries q id (n + length vs) (view (visits (v ∷ vs) d))
    poison_pill_buried v [] n d inv attempted (out, room, rest) =
        subst (λ k. Counted max_retries q id k (view (visit v d))) (omega arith)
          (visit-Counted v n d inv attempted out room)
    poison_pill_buried v (v' ∷ vs) n d inv attempted (out, room, rest) =
        let counted = visit-Counted v n d inv attempted out room in
        let inv' =
          apply-Inv R (reaps q v.now v.limit max_retries) (worked v.work d)
            (worked-Inv v.work d inv) tt in
        subst (λ k. Counted max_retries q id k (view (visits (v ∷ v' ∷ vs) d))) (omega arith)
          (poison_pill_buried v' vs (n + 1) (visit v d) inv' counted.0 rest)
