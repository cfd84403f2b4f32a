-- ===== src/Store/Renewals.antt =====
-- A lease that was renewed is not taken away before its new deadline.
use cogs_crash_refresh_job_q.Prelude.{
  ℕ, ◌+◌, ◌<◌, true, Bytes, some, pos, ◌≡◌, ap, ◌∙◌, inl, inr, arith, bytes_eq_refl,
}
use cogs_crash_refresh_job_q.Results.{Result, ok, Link, answered}
use cogs_crash_refresh_job_q.Keys.{leased_key}
use cogs_crash_refresh_job_q.Redis.{Redis}
use cogs_crash_refresh_job_q.Jobs.{Inv, Keeps-Inv}
use cogs_crash_refresh_job_q.Jobs.Relocate.{leased}
use cogs_crash_refresh_job_q.Jobs.Renew.{renew_script_outcome, renew_script-Keeps}
use cogs_crash_refresh_job_q.Jobs.Pass.{drain_script_early}
use cogs_crash_refresh_job_q.System.Runs.{over-cases}
use cogs_crash_refresh_job_q.Store.{Config, milliseconds, renew, drain}

module _ (R : Redis) (cfg : Config) (q id : Bytes) (now : ℕ) (d : R.Db) where
  open R use {Db, view}

  abbrev pub renews : Result ℕ × Db
  renews = renew R cfg answered now q id d

  -- A renewal that succeeds has set the deadline that it gives back.
  renewed_lease :
      (deadline : ℕ)
      → renews.0 ≡ ok deadline
      → (deadline ≡ now + milliseconds cfg.lease_ttl)
        × ((view renews.1).zsets (leased_key q) id ≡ some (pos deadline))
  unfolding renew
  renewed_lease deadline done =
      let until = now + milliseconds cfg.lease_ttl in
      elim (renew_script_outcome R q id (pos until) d) [
        | inl (held, r, w) ↦
            let same : deadline ≡ until = ground (arith, r, done) in
            (same, rw (w, same) (simp bytes_eq_refl))
        | inr (absent, r, w) ↦ absurd (ground (arith, r, done))
      ]

  renewed-Inv : Inv (view d) → Inv (view renews.1)
  unfolding renew
  renewed-Inv inv =
      Keeps-Inv (renew_script-Keeps R q id (pos (now + milliseconds cfg.lease_ttl)) d) inv

  -- On a keyspace that keeps the invariant, a renewal that succeeds sets the deadline one lease
  -- time ahead, and no reap pass over the queue before that deadline takes the lease away.
  pub renew_protects :
      (deadline now' : ℕ) (link : Link)
      → Inv (view d)
      → renews.0 ≡ ok deadline
      → now' < deadline
      → (deadline ≡ now + milliseconds cfg.lease_ttl)
        × ((view (drain R cfg link now' (leased_key q) q true renews.1).1).zsets (leased_key q) id
            ≡ some (pos deadline))
  unfolding drain
  renew_protects deadline now' link inv done early =
      let (ahead, held) = renewed_lease deadline done in
      let kept =
        drain_script_early R leased true cfg.max_retries q (pos now') cfg.drain_limit renews.1 id
          (pos deadline) (renewed-Inv inv) held (ground (arith, early)) in
      (
        ahead,
        elim (over-cases link _ renews.1) [
          | inl same ↦ ap (λ e. (view e).zsets (leased_key q) id) same ∙ held
          | inr full ↦ ap (λ e. (view e).zsets (leased_key q) id) full ∙ kept
        ],
      )
