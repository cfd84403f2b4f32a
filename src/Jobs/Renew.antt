-- ===== src/Jobs/Renew.antt =====
-- The renew script extends a lease that is there, and makes none.
use cogs_crash_refresh_job_q.Prelude.{
  ℕ, Bytes, some, none, ℤ, ◌≡◌, refl, ap, ◌∙◌, ◌⊎◌, inl, inr, present, arith, bytes_eq_sound,
  Option-cases,
}
use cogs_crash_refresh_job_q.Keys.{leased_key}
use cogs_crash_refresh_job_q.Keys.Layout.{key_laws}
use cogs_crash_refresh_job_q.Redis.{Redis, View, at_member}
use cogs_crash_refresh_job_q.Scripts.{renew_script}
use cogs_crash_refresh_job_q.Jobs.{Keeps, Keeps-refl}

-- The lease of an ID has a new deadline.
abbrev pub extended : Bytes → Bytes → ℤ → View → View
extended q id deadline v = record v { zsets = at_member v.zsets (leased_key q) id (some deadline) }

extended-Keeps :
    (q id : Bytes) (deadline : ℤ) (v : View)
    → present (v.zsets (leased_key q) id) ≡ 1
    → Keeps v (extended q id deadline v)
extended-Keeps q id deadline v held = record {
  same_places =
      λ q' id'. simp key_laws (ground (arith, bytes_eq_sound q q', bytes_eq_sound id id'));
  same_queue = λ id'. refl;
  still_numbered = λ id' n e. (n, e);
}

module _ (R : Redis) (q id : Bytes) (deadline : ℤ) (d : R.Db) where
  open R use {Db, view, zscore, zadd, zscore_reply, view-zadd}

  abbrev pub renew : ℕ × Db
  renew = renew_script R (leased_key q) id deadline d

  -- The reply is 1 exactly when the queue holds a lease for the ID, and then its deadline is the
  -- new one; otherwise the reply is 0 and nothing has changed.
  pub renew_script_outcome :
      ((present ((view d).zsets (leased_key q) id) ≡ 1)
        × (renew.0 ≡ 1)
        × (view renew.1 ≡ extended q id deadline (view d)))
      ⊎ (((view d).zsets (leased_key q) id ≡ none) × (renew.0 ≡ 0) × (view renew.1 ≡ view d))
  unfolding renew_script
  renew_script_outcome = elim (Option-cases ((view d).zsets (leased_key q) id)) [
    | inl absent ↦
        let e : zscore (leased_key q) id d ≡ none = zscore_reply _ _ _ ∙ absent in
        inr (absent, rw (e, renew_script) refl, rw (e, renew_script) refl)
    | inr (s, held) ↦
        let e : zscore (leased_key q) id d ≡ some s = zscore_reply _ _ _ ∙ held in
        inl (ap present held, rw (e, renew_script) refl, rw (e, renew_script) (rw view-zadd refl))
  ]

  pub renew_script-Keeps : Keeps (view d) (view renew.1)
  renew_script-Keeps = elim renew_script_outcome [
    | inl (held, r, w) ↦ rw w (extended-Keeps q id deadline (view d) held)
    | inr (absent, r, w) ↦ rw w (Keeps-refl (view d))
  ]
