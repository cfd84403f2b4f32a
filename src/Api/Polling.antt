-- ===== src/Api/Polling.antt =====
-- The long poll of a claim ends.
use cogs_crash_refresh_job_q.Prelude.{
  Bool, true, false, List, [], ◌∷◌, map, Bytes, Option, some, ℤ, pos, ◌≡◌, ◌⊎◌, refl, inl, inr,
  ltb_ℤ, not, ◌||◌, if◌then◌else◌,
}
use cogs_crash_refresh_job_q.Results.{Result-cases}
use cogs_crash_refresh_job_q.Redis.{Redis}
use cogs_crash_refresh_job_q.Store.{Config, Job, claim}
use cogs_crash_refresh_job_q.Schedules.Manager.{Parser}
use cogs_crash_refresh_job_q.Api.{
  Response, Round, is_empty, claim_response, client_gone, server_error,
}
use cogs_crash_refresh_job_q.Api.Handlers.{claim_loop}

-- In one of the rounds the deadline has passed or the client has gone.
abbrev pub AnyOver : ℤ → List Round → Type 0
AnyOver deadline [] = ⊥
AnyOver deadline (r ∷ rounds) =
    (ltb_ℤ (pos r.clock) deadline ≡ false) ⊎ (r.gone ≡ true) ⊎ AnyOver deadline rounds

module _ (R : Redis) (cfg : Config) (parse : Parser) (queues : List Bytes)
    (batch deadline : ℤ) where
  open R use {Db}

  branch_answers :
      (empty early gone : Bool) (jobs : List Job) (d : Db) (later : Option Response × Db)
      → (early ≡ false) ⊎ (gone ≡ true) ⊎ ((a : Response) × (later.0 ≡ some a))
      → (a : Response) × ((if not empty || not early
            then (some (claim_response cfg jobs), d)
            else if gone
            then (some client_gone, d)
            else later).0
          ≡ some a)
  branch_answers false early gone jobs d later over = (claim_response cfg jobs, refl)
  branch_answers true false gone jobs d later over = (claim_response cfg jobs, refl)
  branch_answers true true true jobs d later over = (client_gone, refl)
  branch_answers true true false jobs d later (inl h) = cc
  branch_answers true true false jobs d later (inr (inl h)) = cc
  branch_answers true true false jobs d later (inr (inr answered)) = answered

  -- A claim gives a response at the latest in the round in which the deadline has passed or the
  -- client has gone, whatever its calls of Redis give.
  pub claim_loop_ends :
      (rounds : List Round) (d : Db)
      → AnyOver deadline rounds
      → (a : Response) × ((claim_loop R cfg parse queues batch deadline rounds d).0 ≡ some a)
  unfolding claim_loop
  claim_loop_ends [] d over = absurd over
  claim_loop_ends (r ∷ rounds) d over =
      let calls = map (λ x. (x, r.fates x)) queues in
      let d' = (claim R cfg r.now calls batch d).1 in
      elim (Result-cases (claim R cfg r.now calls batch d).0) [
        | inl (e, h) ↦ (server_error, rw (h, claim_loop) refl)
        | inr (jobs, h) ↦
            rw (h, claim_loop)
              (branch_answers (is_empty jobs) (ltb_ℤ (pos r.clock) deadline) r.gone jobs d' _
                (elim over [
                  | inl late ↦ inl late
                  | inr (inl left) ↦ inr (inl left)
                  | inr (inr later) ↦ inr (inr (claim_loop_ends rounds d' later))
                ]))
      ]
