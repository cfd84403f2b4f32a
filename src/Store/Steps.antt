-- ===== src/Store/Steps.antt =====
-- Each operation of the store is a sequence of permitted steps, whatever becomes of its calls.
use cogs_crash_refresh_job_q.Prelude.{
  ℕ, ◌-◌, true, false, List, [], ◌∷◌, Bytes, Option, none, some, pos, ℤ, refl, Bool-cases, inl, inr,
  ◌⊎◌, ◌==◌, length,
}
use cogs_crash_refresh_job_q.Results.{Link, answered, lost_call, lost_reply}
use cogs_crash_refresh_job_q.Keys.{pending_key, leased_key, retry_key}
use cogs_crash_refresh_job_q.Redis.{Redis}
use cogs_crash_refresh_job_q.Scripts.{claim_script}
use cogs_crash_refresh_job_q.Jobs.Enqueue.{IsFresh, IsKnown}
use cogs_crash_refresh_job_q.System.{
  apply, enqueues, claims, renews, acks, fails, reaps, drains, Spares,
}
use cogs_crash_refresh_job_q.System.Runs.{Runs, Runs-refl, Runs-trans, Runs-step, Runs-over}
use cogs_crash_refresh_job_q.Store.{Config, enqueue, claim_queues, claim, renew, ack, fail, drain}

-- The ID from the random source, if it gave one, is new.
abbrev pub IsNew : (R : Redis) → Option Bytes → R.Db → Type 0
IsNew R none d = Unit
IsNew R (some new_id) d = IsFresh (R.view d) new_id

module _ (R : Redis) (cfg : Config) (q id : Bytes) where
  open R use {Db, view}

  pub enqueue-Runs :
      (link : Link) (new_id : Option Bytes) (now : ℕ) (q' payload idem : Bytes) (d : Db)
      → IsNew R new_id d ⊎ IsKnown (view d) idem
      → Runs R q id d (enqueue R cfg link new_id now q' payload idem d).1
  unfolding enqueue apply
  enqueue-Runs link none now q' payload idem d new = Runs-refl R q id d
  enqueue-Runs link (some new_id) now q' payload idem d new =
      Runs-over R q id link _ (enqueues q' new_id _ idem now _) d new tt refl

  pub renew-Runs :
      (link : Link) (now : ℕ) (q' id' : Bytes) (d : Db)
      → Runs R q id d (renew R cfg link now q' id' d).1
  unfolding renew apply
  renew-Runs link now q' id' d = Runs-over R q id link _ (renews q' id' _) d tt tt refl

  pub ack-Runs :
      (link : Link) (q' : Bytes) (ids : List Bytes) (d : Db)
      → Spares q id (acks q' ids)
      → Runs R q id d (ack R cfg link q' ids d).1
  unfolding ack apply
  ack-Runs link q' [] d spared = Runs-refl R q id d
  ack-Runs link q' (x ∷ ids) d spared = Runs-over R q id link _ (acks q' (x ∷ ids)) d tt spared refl

  pub fail-Runs :
      (link : Link) (now : ℕ) (scale : ℤ → ℤ) (q' id' : Bytes) (attempt : ℤ) (d : Db)
      → Runs R q id d (fail R cfg link now scale q' id' attempt d).1
  unfolding fail apply
  fail-Runs link now scale q' id' attempt d =
      Runs-over R q id link _ (fails q' id' _ _) d tt tt refl

  pub reap-Runs :
      (link : Link) (now : ℕ) (q' : Bytes) (d : Db)
      → Runs R q id d (drain R cfg link now (leased_key q') q' true d).1
  unfolding drain apply
  reap-Runs link now q' d = Runs-over R q id link _ (reaps q' (pos now) _ _) d tt tt refl

  pub retry-Runs :
      (link : Link) (now : ℕ) (q' : Bytes) (d : Db)
      → Runs R q id d (drain R cfg link now (retry_key q') q' false d).1
  unfolding drain apply
  retry-Runs link now q' d = Runs-over R q id link _ (drains q' (pos now) _ _) d tt tt refl

  claim_queues-Runs :
      (room deadline : ℕ) (queues : List (Bytes × Link)) (d : Db)
      → Runs R q id d (claim_queues R cfg room deadline queues d).1
  unfolding claim_queues apply
  claim_queues-Runs room deadline [] d = Runs-refl R q id d
  claim_queues-Runs room deadline ((q', answered) ∷ queues) d = elim (Bool-cases (room == 0)) [
    | inl full ↦ rw (full, claim_queues) (Runs-refl R q id d)
    | inr more ↦
        rw (more, claim_queues)
          (Runs-trans R q id (Runs-step R q id (claims q' room (pos deadline)) d tt tt) (
            claim_queues-Runs
              (room
                - length (claim_script R (pending_key q') (leased_key q') room (pos deadline) d).0)
              deadline queues (apply R (claims q' room (pos deadline)) d)))
  ]
  claim_queues-Runs room deadline ((q', lost_call) ∷ queues) d = elim (Bool-cases (room == 0)) [
    | inl full ↦ rw (full, claim_queues) (Runs-refl R q id d)
    | inr more ↦ rw (more, claim_queues) (Runs-refl R q id d)
  ]
  claim_queues-Runs room deadline ((q', lost_reply) ∷ queues) d = elim (Bool-cases (room == 0)) [
    | inl full ↦ rw (full, claim_queues) (Runs-refl R q id d)
    | inr more ↦ rw (more, claim_queues) (Runs-step R q id (claims q' room (pos deadline)) d tt tt)
  ]

  pub claim-Runs :
      (now : ℕ) (queues : List (Bytes × Link)) (batch : ℤ) (d : Db)
      → Runs R q id d (claim R cfg now queues batch d).1
  unfolding claim
  claim-Runs now queues batch d = claim_queues-Runs _ _ queues d
