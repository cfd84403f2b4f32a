-- ===== src/Api/Steps.antt =====
-- Each request, with its calls sent once, is a sequence of permitted steps.
use cogs_crash_refresh_job_q.Prelude.{
  Bool, true, false, List, [], ◌∷◌, map, Bytes, Option, none, some, ℤ, pos, inl, inr, ◌⊎◌, ltb_ℤ,
  if◌then◌else◌, not, ◌||◌,
}
use cogs_crash_refresh_job_q.Results.{Result-cases}
use cogs_crash_refresh_job_q.Keys.{valid_queue_name}
use cogs_crash_refresh_job_q.Redis.{Redis}
use cogs_crash_refresh_job_q.Jobs.Enqueue.{IsKnown}
use cogs_crash_refresh_job_q.System.{Spares, acks}
use cogs_crash_refresh_job_q.System.Runs.{Runs, Runs-refl, Runs-trans}
use cogs_crash_refresh_job_q.Store.{Config, claim}
use cogs_crash_refresh_job_q.Store.Steps.{
  IsNew, enqueue-Runs, claim-Runs, renew-Runs, ack-Runs, fail-Runs,
}
use cogs_crash_refresh_job_q.Schedules.Manager.{Parser}
use cogs_crash_refresh_job_q.Schedules.Passes.{create-Runs, delete-Runs}
use cogs_crash_refresh_job_q.Api.Parse.{authorized}
use cogs_crash_refresh_job_q.Api.{
  Request, post_job, post_claim, post_ack_batch, post_renew, post_ack, post_fail, get_job,
  get_stats, get_dead, post_schedule, get_schedules, delete_schedule, Round, World, all_valid,
  queue_of, is_empty,
}
use cogs_crash_refresh_job_q.Api.Handlers.{
  handle_enqueue, claim_loop, handle_claim, handle_renew, handle_ack_batch, handle_ack, handle_fail,
  handle_create_schedule, handle_delete_schedule, handle, wrap,
}

-- The request does not acknowledge the job.
abbrev pub SparesJob : Bytes → Bytes → Request → Type 0
SparesJob q id (post_ack_batch (some (q', ids))) = Spares q id (acks q' ids)
SparesJob q id (post_ack id' query body) = Spares q id (acks (queue_of query body) (id' ∷ []))
SparesJob q id req = Unit

-- An enqueue request draws an ID that is new, or its idempotency key has a marker.
abbrev pub MayEnqueue : (R : Redis) → World → Request → R.Db → Type 0
MayEnqueue R w (post_job (some (q, body, idem))) d = IsNew R w.new_id d ⊎ IsKnown (R.view d) idem
MayEnqueue R w req d = Unit

-- A branch on a test has the effect of one of its sides.
if_Runs :
    (R : Redis) (q id : Bytes) (A : Type 0) (b : Bool) (x y : A × R.Db) (d : R.Db)
    → Runs R q id d x.1
    → Runs R q id d y.1
    → Runs R q id d (if b then x else y).1
if_Runs R q id A true x y d p r = p
if_Runs R q id A false x y d p r = r

module _ (R : Redis) (cfg : Config) (parse : Parser) (q id : Bytes) where
  open R use {Db, view}

  claim_loop-Runs :
      (queues : List Bytes) (batch deadline : ℤ) (rounds : List Round) (d : Db)
      → Runs R q id d (claim_loop R cfg parse queues batch deadline rounds d).1
  unfolding claim_loop
  claim_loop-Runs queues batch deadline [] d = Runs-refl R q id d
  claim_loop-Runs queues batch deadline (r ∷ rounds) d =
      let calls = map (λ x. (x, r.fates x)) queues in
      let first = claim-Runs R cfg q id r.now calls batch d in
      let d' = (claim R cfg r.now calls batch d).1 in
      let later = Runs-trans R q id first (claim_loop-Runs queues batch deadline rounds d') in
      elim (Result-cases (claim R cfg r.now calls batch d).0) [
        | inl (e, h) ↦ rw (h, claim_loop) first
        | inr (jobs, h) ↦
            rw (h, claim_loop)
              (if_Runs R q id _ (not (is_empty jobs) || not (ltb_ℤ (pos r.clock) deadline)) _ _ d
                first (if_Runs R q id _ r.gone _ _ d first later))
      ]

  claim-Runs_all :
      (w : World) (req : Option (List Bytes × ℤ × ℤ)) (d : Db)
      → Runs R q id d (handle_claim R cfg parse w req d).1
  unfolding handle_claim
  claim-Runs_all w none d = Runs-refl R q id d
  claim-Runs_all w (some ([], batch, wait)) d = Runs-refl R q id d
  claim-Runs_all w (some (x ∷ queues, batch, wait)) d =
      if_Runs R q id _ (all_valid (x ∷ queues)) _ _ d
        (claim_loop-Runs (x ∷ queues) batch _ w.rounds d) (Runs-refl R q id d)

  handle-Runs :
      (w : World) (req : Request) (d : Db)
      → MayEnqueue R w req d
      → SparesJob q id req
      → Runs R q id d (handle R cfg parse w req d).1
  unfolding handle handle_enqueue handle_renew handle_ack_batch handle_ack handle_fail
      handle_create_schedule handle_delete_schedule
  handle-Runs w (post_job none) d new spared = Runs-refl R q id d
  handle-Runs w (post_job (some (q', body, idem))) d new spared =
      if_Runs R q id _ (valid_queue_name q') _ _ d
        (enqueue-Runs R cfg q id w.link w.new_id w.now q' body idem d new) (Runs-refl R q id d)
  handle-Runs w (post_claim req) d new spared = claim-Runs_all w req d
  handle-Runs w (post_ack_batch none) d new spared = Runs-refl R q id d
  handle-Runs w (post_ack_batch (some (q', ids))) d new spared =
      if_Runs R q id _ (valid_queue_name q') _ _ d (ack-Runs R cfg q id w.link q' ids d spared)
        (Runs-refl R q id d)
  handle-Runs w (post_renew id' query body) d new spared =
      if_Runs R q id _ (valid_queue_name (queue_of query body)) _ _ d
        (renew-Runs R cfg q id w.link w.now (queue_of query body) id' d) (Runs-refl R q id d)
  handle-Runs w (post_ack id' query body) d new spared =
      if_Runs R q id _ (valid_queue_name (queue_of query body)) _ _ d
        (ack-Runs R cfg q id w.link (queue_of query body) (id' ∷ []) d spared) (Runs-refl R q id d)
  handle-Runs w (post_fail id' none) d new spared = Runs-refl R q id d
  handle-Runs w (post_fail id' (some (q', attempt))) d new spared =
      if_Runs R q id _ (valid_queue_name q') _ _ d
        (fail-Runs R cfg q id w.link w.now w.draw q' id' attempt d) (Runs-refl R q id d)
  handle-Runs w (get_job id') d new spared = Runs-refl R q id d
  handle-Runs w (get_stats q') d new spared = Runs-refl R q id d
  handle-Runs w (get_dead q' limit) d new spared = Runs-refl R q id d
  handle-Runs w (post_schedule none) d new spared = Runs-refl R q id d
  handle-Runs w (post_schedule (some (q', spec, body))) d new spared =
      if_Runs R q id _ (valid_queue_name q') _ _ d
        (create-Runs R cfg parse q id w.link w.new_id w.time w.now q' spec body d)
        (Runs-refl R q id d)
  handle-Runs w get_schedules d new spared = Runs-refl R q id d
  handle-Runs w (delete_schedule id') d new spared = delete-Runs R cfg parse q id w.link id' d

  -- A request is a sequence of permitted steps that spares the job, unless it acknowledges the
  -- job, whatever its token and its clocks, each of its calls of Redis being sent once and
  -- answered, lost, or run with its reply lost. The ID that an enqueue request draws is taken to
  -- be unused, unless its idempotency key has a marker. A call that is sent again is a step of its
  -- own, and not part of this.
  pub wrap-Runs :
      (header : Bytes) (w : World) (req : Request) (d : Db)
      → MayEnqueue R w req d
      → SparesJob q id req
      → Runs R q id d (wrap R cfg parse header w req d).1
  unfolding wrap
  wrap-Runs header w req d new spared =
      if_Runs R q id _ (authorized cfg.auth_token header) _ _ d (handle-Runs w req d new spared)
        (Runs-refl R q id d)
