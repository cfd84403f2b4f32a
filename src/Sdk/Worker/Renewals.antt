-- ===== src/Sdk/Worker/Renewals.antt =====
-- What the heartbeat's renewals do to a lease that is there, and what the worker learns of it.
use cogs_crash_refresh_job_q.Prelude.{
  ℕ, ◌+◌, Bool, true, false, ◌&&◌, [], Bytes, ℤ, pos, ◌≡◌, ◌≢◌, refl, if◌then◌else◌, arith, inl,
  inr, bytes_eq_refl,
}
use cogs_crash_refresh_job_q.Results.{Link, answered, lost_call, lost_reply}
use cogs_crash_refresh_job_q.Keys.{leased_key, valid_queue_name}
use cogs_crash_refresh_job_q.Redis.{Redis}
use cogs_crash_refresh_job_q.Scripts.{renew_script}
use cogs_crash_refresh_job_q.Jobs.{Inv, Keeps-Inv}
use cogs_crash_refresh_job_q.Jobs.Leases.{HasLease}
use cogs_crash_refresh_job_q.Jobs.Leases.Others.{renew_leaves}
use cogs_crash_refresh_job_q.Jobs.Renew.{renew_script-Keeps}
use cogs_crash_refresh_job_q.Store as Store
use cogs_crash_refresh_job_q.Store.{Config, milliseconds}
use cogs_crash_refresh_job_q.Schedules.Manager.{Parser}
use cogs_crash_refresh_job_q.Api.{World, post_renew}
use cogs_crash_refresh_job_q.Api.Handlers.{handle, handle_renew}
use cogs_crash_refresh_job_q.Sdk.{ClientError, lease_lost, Outcome, err, renew}
use cogs_crash_refresh_job_q.Sdk.Calls.{wrap-handle, renew_tells}
use cogs_crash_refresh_job_q.Sdk.Worker.{
  Phase, Beat, heard, Process, start, hear, quit, return, check,
}
use cogs_crash_refresh_job_q.Sdk.Worker.Reports.{is_finished}

-- The deadline that a renewal at the server's clock sets.
abbrev pub renewed_at : Config → World → ℤ
renewed_at cfg w = pos (w.now + milliseconds cfg.lease_ttl)

-- The request or the command takes effect.
abbrev pub reaches : Link → Bool
reaches answered = true
reaches lost_call = false
reaches lost_reply = true

abbrev pub is_loss : Beat → Bool
is_loss (heard (err lease_lost)) = true
is_loss b = false

no_loss_of : (e : ClientError) → e ≢ lease_lost → is_loss (heard (err e)) ≡ false
no_loss_of lease_lost other = absurd (other refl)
no_loss_of e other = refl

-- The process has no word of a lost lease, has made no call, and has not ended.
pub record Alive (p : Process) : Type 0 where
  pub unaware : p.lost ≡ false
  pub running : p.cancelled ≡ false
  pub unfinished : is_finished p.phase ≡ false
  pub no_loss : is_loss p.beat ≡ false
  pub silent : p.reports ≡ []

pub start-Alive : (has_handler : Bool) → Alive (start has_handler)
start-Alive has_handler = ground arith

pub hear-Alive : (b : Beat) (p : Process) → b ≡ p.beat → Alive p → Alive (hear b p)
hear-Alive b p e s = ground arith

pub quit-Alive : (phase : Phase) (b : Beat) (p : Process) → Alive p → Alive (quit phase b p)
quit-Alive phase b p s = ground arith

pub return-Alive :
    (phase : Phase) (failed : Bool) (p : Process) → Alive p → Alive (return phase failed p)
return-Alive phase failed p s = ground arith

pub check-Alive : (phase : Phase) (p : Process) → Alive p → Alive (check phase p)
check-Alive phase p s = ground arith

module _ (R : Redis) (cfg : Config) (parse : Parser) (q id : Bytes)
    (valid : valid_queue_name q ≡ true) where
  open R use {Db, view}

  abbrev pub renews : Link → World → Db → Outcome {0} Unit × Db
  renews link w d = renew R cfg parse cfg.auth_token link w q id d

  script_renews :
      (now : ℕ) (t : ℤ) (d : Db)
      → Inv (view d)
      → HasLease q id t (view d)
      → let until = pos (now + milliseconds cfg.lease_ttl) in
        let d' = (renew_script R (leased_key q) id until d).1 in
        Inv (view d') × HasLease q id until (view d')
  script_renews now t d inv held =
      let until = pos (now + milliseconds cfg.lease_ttl) in
      (
        Keeps-Inv (renew_script-Keeps R q id until d) inv,
        rw (bytes_eq_refl q, bytes_eq_refl id) at (renew_leaves R q id t q id until d held),
      )

  store_renews :
      (l : Link) (now : ℕ) (t : ℤ) (d : Db)
      → Inv (view d)
      → HasLease q id t (view d)
      → Inv (view (Store.renew R cfg l now q id d).1)
        × HasLease q id
            (if reaches l then pos (now + milliseconds cfg.lease_ttl) else t)
            (view (Store.renew R cfg l now q id d).1)
  unfolding Store.renew
  store_renews lost_call now t d inv held = (inv, held)
  store_renews answered now t d inv held = script_renews now t d inv held
  store_renews lost_reply now t d inv held = script_renews now t d inv held

  not_lost :
      (link : Link) (w : World) (t : ℤ) (d : Db)
      → HasLease q id t (view d)
      → is_loss (heard (renews link w d).0) ≡ false
  not_lost link w t d held = elim (renew_tells R cfg parse w q valid id d link) [
    | inl (r, there, until) ↦ rw r refl
    | inr (inl (r, absent, same)) ↦ absurd (ground (arith, held, absent))
    | inr (inr (e, r, other, cut)) ↦ rw r (no_loss_of e other)
  ]

  pub client_renews :
      (link : Link) (w : World) (t : ℤ) (d : Db)
      → Inv (view d)
      → HasLease q id t (view d)
      → Inv (view (renews link w d).1)
        × HasLease q id
            (if reaches link && reaches w.link then renewed_at cfg w else t)
            (view (renews link w d).1)
        × (is_loss (heard (renews link w d).0) ≡ false)
  unfolding renew handle handle_renew
  client_renews lost_call w t d inv held = (inv, held, refl)
  client_renews lost_reply w t d inv held = rw (wrap-handle R cfg parse w (post_renew id [] q) d) (
      let (inv', held') = store_renews w.link w.now t d inv held in
      (rw valid inv', rw valid held', refl))
  client_renews answered w t d inv held =
      let (inv', held') = store_renews w.link w.now t d inv held in
      (
        rw (wrap-handle R cfg parse w (post_renew id [] q) d) (rw valid inv'),
        rw (wrap-handle R cfg parse w (post_renew id [] q) d) (rw valid held'),
        not_lost answered w t d held,
      )
