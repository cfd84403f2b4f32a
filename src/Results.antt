-- ===== src/Results.antt =====
-- The errors of internal/cogs: those that the store names, and a failed call of Redis; and what
-- can happen to a call.
use cogs_crash_refresh_job_q.Prelude.{◌≡◌, refl, ◌⊎◌, inl, inr}

pub data Error : Type 0 where
  lease_gone not_found redis_failed no_id bad_cron : Error

pub data Result {ℓ} (A : Type ℓ) : Type ℓ where
  ok : A → Result A
  err : Error → Result A

infixl 5 ◌>>=◌
abbrev pub ◌>>=◌ {ℓ κ} : {A : Type ℓ} {B : Type κ} → Result A → (A → Result B) → Result B
ok a >>= f = f a
err e >>= f = err e

-- What happens to one transmission of a call of Redis: it is answered, it never arrives, or its
-- reply is lost. The client library sends a call again after a failure: an earlier transmission
-- that had no effect is none, and one that had is a step of its own (Server, Jobs/Resent).
pub data Link : Type 0 where
  answered lost_call lost_reply : Link

-- A call over a link: the caller sees an error unless it is answered.
abbrev pub over {ℓ κ} :
    {A : Type ℓ} {Db : Type κ} → Link → (Db → Result A × Db) → Db → Result A × Db
over answered f d = f d
over lost_call f d = (err redis_failed, d)
over lost_reply f d = (err redis_failed, (f d).1)

-- A command whose reply is no error of its own.
abbrev pub replied {ℓ κ} : {A : Type ℓ} {Db : Type κ} → A × Db → Result A × Db
replied r = (ok r.0, r.1)

-- A command that only reads.
abbrev pub reading {ℓ} : {A : Type ℓ} → Link → A → Result A
reading answered a = ok a
reading lost_call a = err redis_failed
reading lost_reply a = err redis_failed

pub Result-cases {ℓ} :
    {A : Type ℓ} (r : Result A) → ((e : Error) × (r ≡ err e)) ⊎ ((a : A) × (r ≡ ok a))
Result-cases (ok a) = inr (a, refl)
Result-cases (err e) = inl (e, refl)
