-- ===== src/Sdk/Calls.antt =====
-- What the answers of the client's methods tell a worker, whatever became of the calls.
use cogs_crash_refresh_job_q.Prelude.{
  ℕ, ◌+◌, true, List, [], ◌∷◌, Bytes, none, some, ℤ, pos, ◌+ℤ◌, ◌≡◌, ◌≢◌, refl, ◌⊎◌, inl, inr,
  present, arith, bytes_eq_refl,
}
use cogs_crash_refresh_job_q.Results as Results
use cogs_crash_refresh_job_q.Results.{
  Result, Link, answered, lost_call, lost_reply, over, replied, redis_failed,
}
use cogs_crash_refresh_job_q.Keys.{leased_key, valid_queue_name}
use cogs_crash_refresh_job_q.Redis.{Redis}
use cogs_crash_refresh_job_q.Scripts.{ack_script, FailReply, gone, retried, dead_lettered}
use cogs_crash_refresh_job_q.Jobs.{Inv}
use cogs_crash_refresh_job_q.Jobs.Ack.{Acked, ack_script-Acks}
use cogs_crash_refresh_job_q.Jobs.Fail.{FailOutcome, fail_script_outcome}
use cogs_crash_refresh_job_q.Jobs.Leases.{HasLease}
use cogs_crash_refresh_job_q.Jobs.Renew.{renew_script_outcome}
use cogs_crash_refresh_job_q.Store as Store
use cogs_crash_refresh_job_q.Store.{Config, milliseconds, milliseconds_of}
use cogs_crash_refresh_job_q.Store.Backoff.{backoff}
use cogs_crash_refresh_job_q.Schedules.Manager.{Parser}
use cogs_crash_refresh_job_q.Api.{
  Request, post_renew, post_ack_batch, post_fail, World, fail_response,
}
use cogs_crash_refresh_job_q.Api.Parse.{authorized}
use cogs_crash_refresh_job_q.Api.Handlers.{
  handle, wrap, handle_renew, handle_ack_batch, handle_fail,
}
use cogs_crash_refresh_job_q.Sdk.{
  ClientError, lease_lost, unreached, returned, Outcome, ok, err, reply_of, auth_header, renew, ack,
  fail, do_status, report_status, ◌>>=◌,
}

-- A server lets a client through that has its token.
pub auth_header-authorized : (token : Bytes) → authorized token (auth_header token) ≡ true
unfolding auth_header authorized
auth_header-authorized [] = refl
auth_header-authorized (c ∷ token) = ground (arith, bytes_eq_refl (c ∷ token))

Link-cases : (l : Link) → (l ≡ answered) ⊎ (l ≢ answered)
Link-cases answered = inl refl
Link-cases lost_call = inr (λ e. cc)
Link-cases lost_reply = inr (λ e. cc)

over-failed {ℓ} :
    {A : Type ℓ} {Db : Type 0} (l : Link) (f : Db → Result A × Db) (d : Db)
    → l ≢ answered
    → (over l f d).0 ≡ Results.err redis_failed
over-failed answered f d down = absurd (down refl)
over-failed lost_call f d down = refl
over-failed lost_reply f d down = refl

-- When a failed job is tried again: the server's clock and the backoff.
abbrev pub retry_at : Config → World → ℤ → ℤ
retry_at cfg w attempt = pos w.now +ℤ milliseconds_of (backoff cfg.backoff_base attempt w.draw)

module _ (R : Redis) (cfg : Config) (parse : Parser) where
  open R use {Db, view}

  pub wrap-handle :
      (w : World) (req : Request) (d : Db)
      → wrap R cfg parse (auth_header cfg.auth_token) w req d ≡ handle R cfg parse w req d
  unfolding wrap
  wrap-handle w req d = rw (auth_header-authorized cfg.auth_token) refl

  -- A call failed on its way to the server, or from there to Redis.
  abbrev pub IsCut : Link → World → Type 0
  IsCut link w = (link ≢ answered) ⊎ (w.link ≢ answered)

  module _ (w : World) (q : Bytes) (valid : valid_queue_name q ≡ true) where
    module _ (id : Bytes) (d : Db) where
      abbrev pub renews : Link → Outcome {0} Unit × Db
      renews link = renew R cfg parse cfg.auth_token link w q id d

      -- What `Renew` says of a valid queue: `nil` if there was a lease, which now lasts for one
      -- lease time from the server's clock; `ErrLeaseLost` if there was none, and then nothing has
      -- changed; another error only if a call on the way failed.
      pub renew_tells :
          (link : Link)
          → (((renews link).0 ≡ ok tt)
              × (present ((view d).zsets (leased_key q) id) ≡ 1)
              × HasLease q id (pos (w.now + milliseconds cfg.lease_ttl)) (view (renews link).1))
            ⊎ (((renews link).0 ≡ err lease_lost)
                × ((view d).zsets (leased_key q) id ≡ none)
                × (view (renews link).1 ≡ view d))
            ⊎ ((e : ClientError) × ((renews link).0 ≡ err e) × (e ≢ lease_lost) × IsCut link w)
      unfolding renew handle handle_renew Store.renew
      renew_tells lost_call = inr (inr (unreached, refl, λ e. cc, inl (λ e. cc)))
      renew_tells lost_reply = inr (inr (unreached, refl, λ e. cc, inl (λ e. cc)))
      renew_tells answered = rw (wrap-handle w (post_renew id [] q) d) (elim (Link-cases w.link) [
        | inr down ↦
            rw (valid, over-failed w.link _ d down)
              (inr (inr (returned 500, refl, λ e. cc, inr down)))
        | inl up ↦ elim (renew_script_outcome R q id (pos (w.now + milliseconds cfg.lease_ttl)) d) [
          | inl (held, r, v) ↦
              inl (rw (valid, up, r) refl, held, rw (valid, up, v) (simp bytes_eq_refl))
          | inr (absent, r, v) ↦ inr (inl (rw (valid, up, r) refl, absent, rw (valid, up) v))
        ]
      ])

    store_acks :
        (d : Db)
        → Inv (view d)
        → (l : Link) (ids : List Bytes)
        → ((n : ℕ) × ((Store.ack R cfg l q ids d).0 ≡ Results.ok n)
            × Acked q ids (view d) (view (Store.ack R cfg l q ids d).1))
          ⊎ (((Store.ack R cfg l q ids d).0 ≡ Results.err redis_failed) × (l ≢ answered))
    unfolding Store.ack ack_script
    store_acks d inv l [] = inl (0, refl, (ack_script-Acks R q [] d inv).0)
    store_acks d inv answered (x ∷ ids) = inl (_, refl, (ack_script-Acks R q (x ∷ ids) d inv).0)
    store_acks d inv lost_call (x ∷ ids) = inr (refl, λ e. cc)
    store_acks d inv lost_reply (x ∷ ids) = inr (refl, λ e. cc)

    module _ (ids : List Bytes) (d : Db) (inv : Inv (view d)) where
      abbrev pub acks : Link → Outcome {0} Unit × Db
      acks link = ack R cfg parse cfg.auth_token link w q ids d

      -- What `Ack` says of a valid queue: `nil` if the named jobs that were leased are finished, or
      -- an error, and then a call on the way has failed.
      pub ack_tells :
          (link : Link)
          → (((acks link).0 ≡ ok tt) × Acked q ids (view d) (view (acks link).1))
            ⊎ ((e : ClientError) × ((acks link).0 ≡ err e) × IsCut link w)
      unfolding ack handle handle_ack_batch
      ack_tells lost_call = inr (unreached, refl, inl (λ e. cc))
      ack_tells lost_reply = inr (unreached, refl, inl (λ e. cc))
      ack_tells answered = rw (wrap-handle w (post_ack_batch (some (q, ids))) d) (
          rw valid (elim (store_acks d inv w.link ids) [
            | inl (n, r, acked) ↦ inl (rw r refl, acked)
            | inr (r, down) ↦ inr (returned 500, rw r refl, inr down)
          ]))

    module _ (id : Bytes) (attempt : ℤ) (d : Db) (inv : Inv (view d)) where
      abbrev pub fails : Link → Outcome {0} Unit × Db
      fails link = fail R cfg parse cfg.auth_token link w q id attempt d

      reported :
          (r : FailReply)
          → (do_status (reply_of (some (fail_response id (Store.fail_state r)))) >>= report_status)
            ≡ ok tt
      reported gone = refl
      reported retried = refl
      reported dead_lettered = refl

      -- What `Fail` says of a valid queue: `nil` if the script was run, so if there was no lease
      -- and nothing has changed, or the job was moved to the retry set or the dead list as its
      -- attempts say; or an error, and then a call on the way has failed.
      pub fail_tells :
          (link : Link)
          → (((fails link).0 ≡ ok tt)
              × (r : FailReply) × FailOutcome
                  (view d)
                  (view (fails link).1)
                  q
                  id
                  (retry_at cfg w attempt)
                  cfg.max_retries
                  r)
            ⊎ ((e : ClientError) × ((fails link).0 ≡ err e) × IsCut link w)
      unfolding fail handle handle_fail Store.fail
      fail_tells lost_call = inr (unreached, refl, inl (λ e. cc))
      fail_tells lost_reply = inr (unreached, refl, inl (λ e. cc))
      fail_tells answered = rw (wrap-handle w (post_fail id (some (q, attempt))) d) (
          rw valid (elim (Link-cases w.link) [
            | inr down ↦ inr (returned 500, rw (over-failed w.link _ d down) refl, inr down)
            | inl up ↦
                let (r, reply, o) =
                  fail_script_outcome R q id (retry_at cfg w attempt) cfg.max_retries d inv in
                inl (rw (up, reply) (reported r), r, rw up o)
          ]))
