-- ===== src/Api/Handlers.antt =====
-- The handlers, and `wrap`, which lets a request through to its handler.
use cogs_crash_refresh_job_q.Prelude.{
  not, ◌||◌, List, [], ◌∷◌, map, Bytes, Option, none, some, ℤ, pos, ◌+ℤ◌, ltb_ℤ, if◌then◌else◌,
}
use cogs_crash_refresh_job_q.Results.{ok, err}
use cogs_crash_refresh_job_q.Keys.{valid_queue_name}
use cogs_crash_refresh_job_q.Redis.{Redis}
use cogs_crash_refresh_job_q.Store.{Config, enqueue, claim, renew, ack, fail}
use cogs_crash_refresh_job_q.Store.Reads.{job, stats, dead_jobs}
use cogs_crash_refresh_job_q.Schedules.Manager.{Parser, create, delete, list}
use cogs_crash_refresh_job_q.Api.Parse.{authorized, dead_limit, claim_wait}
use cogs_crash_refresh_job_q.Api.{
  unauthorized, no_queues, failed, Response, answer, client_gone, server_error, bad_queue, bad_json,
  Request, post_job, post_claim, post_ack_batch, post_renew, post_ack, post_fail, get_job,
  get_stats, get_dead, post_schedule, get_schedules, delete_schedule, Round, World, all_valid,
  queue_of, is_empty, claim_response, enqueue_response, renew_response, ack_batch_response,
  ack_response, fail_response, job_response, stats_response, dead_response, create_response,
  list_response, delete_response,
}

module _ (R : Redis) (cfg : Config) (parse : Parser) where
  open R use {Db}

  unfoldable pub handle_enqueue : World → Option (Bytes × Bytes × Bytes) → Db → Response × Db
  handle_enqueue w none d = (bad_json, d)
  handle_enqueue w (some (q, payload, idem)) d =
      if valid_queue_name q
      then (let (res, d') = enqueue R cfg w.link w.new_id w.now q payload idem d in
          (enqueue_response q res, d'))
      else (bad_queue, d)

  -- The long poll, round by round; `none` while it still polls.
  unfoldable pub claim_loop : List Bytes → ℤ → ℤ → List Round → Db → Option Response × Db
  claim_loop queues batch deadline [] d = (none, d)
  claim_loop queues batch deadline (r ∷ rounds) d =
      let (res, d') = claim R cfg r.now (map (λ q. (q, r.fates q)) queues) batch d in
      let later = claim_loop queues batch deadline rounds d' in
      elim res [
        | err e ↦ (some server_error, d')
        | ok jobs ↦
            if not (is_empty jobs) || not (ltb_ℤ (pos r.clock) deadline)
            then (some (claim_response cfg jobs), d')
            else if r.gone
            then (some client_gone, d')
            else later
      ]

  unfoldable pub handle_claim : World → Option (List Bytes × ℤ × ℤ) → Db → Option Response × Db
  unfolding claim_loop
  handle_claim w none d = (some bad_json, d)
  handle_claim w (some ([], batch, wait)) d = (some (answer 422 (failed no_queues)), d)
  handle_claim w (some (q ∷ queues, batch, wait)) d =
      if all_valid (q ∷ queues)
      then claim_loop (q ∷ queues) batch (pos w.start +ℤ claim_wait cfg.max_claim_wait wait)
          w.rounds d
      else (some bad_queue, d)

  unfoldable pub handle_renew : World → Bytes → Bytes → Db → Response × Db
  handle_renew w id q d =
      if valid_queue_name q
      then (let (res, d') = renew R cfg w.link w.now q id d in (renew_response id res, d'))
      else (bad_queue, d)

  unfoldable pub handle_ack_batch : World → Option (Bytes × List Bytes) → Db → Response × Db
  handle_ack_batch w none d = (bad_json, d)
  handle_ack_batch w (some (q, ids)) d =
      if valid_queue_name q
      then (let (res, d') = ack R cfg w.link q ids d in (ack_batch_response res, d'))
      else (bad_queue, d)

  unfoldable pub handle_ack : World → Bytes → Bytes → Db → Response × Db
  handle_ack w id q d =
      if valid_queue_name q
      then (let (res, d') = ack R cfg w.link q (id ∷ []) d in (ack_response res, d'))
      else (bad_queue, d)

  unfoldable pub handle_fail : World → Bytes → Option (Bytes × ℤ) → Db → Response × Db
  handle_fail w id none d = (bad_json, d)
  handle_fail w id (some (q, attempt)) d =
      if valid_queue_name q
      then (let (res, d') = fail R cfg w.link w.now w.draw q id attempt d in
          (fail_response id res, d'))
      else (bad_queue, d)

  unfoldable pub handle_get_job : World → Bytes → Db → Response
  handle_get_job w id d = job_response (job R w.link id d)

  -- A request that nothing interrupts: the four reads of the pipeline are of the same keyspace.
  unfoldable pub handle_stats : World → Bytes → Db → Response
  handle_stats w q d =
      if valid_queue_name q then stats_response (stats R w.link q d d d d) else bad_queue

  unfoldable pub handle_dead : World → Bytes → Bytes → Db → Response
  unfolding dead_limit
  handle_dead w q limit d =
      if valid_queue_name q
      then dead_response q (dead_jobs R w.link q (dead_limit limit) d)
      else bad_queue

  unfoldable pub handle_create_schedule :
      World → Option (Bytes × Bytes × Bytes) → Db → Response × Db
  handle_create_schedule w none d = (bad_json, d)
  handle_create_schedule w (some (q, spec, body)) d =
      if valid_queue_name q
      then (let (res, d') = create R cfg parse w.link w.new_id w.time w.now q spec body d in
          (create_response res, d'))
      else (bad_queue, d)

  unfoldable pub handle_list_schedules : World → Db → Response
  handle_list_schedules w d = list_response (list R cfg parse w.link w.reads d)

  unfoldable pub handle_delete_schedule : World → Bytes → Db → Response × Db
  handle_delete_schedule w id d =
      let (res, d') = delete R cfg parse w.link id d in (delete_response res, d')

  abbrev at_once : Response × Db → Option Response × Db
  at_once r = (some r.0, r.1)

  -- The routes; `none` while a claim still polls.
  unfoldable pub handle : World → Request → Db → Option Response × Db
  unfolding handle_claim
  handle w (post_job req) d = at_once (handle_enqueue w req d)
  handle w (post_claim req) d = handle_claim w req d
  handle w (post_ack_batch req) d = at_once (handle_ack_batch w req d)
  handle w (post_renew id q body_q) d = at_once (handle_renew w id (queue_of q body_q) d)
  handle w (post_ack id q body_q) d = at_once (handle_ack w id (queue_of q body_q) d)
  handle w (post_fail id req) d = at_once (handle_fail w id req d)
  handle w (get_job id) d = (some (handle_get_job w id d), d)
  handle w (get_stats q) d = (some (handle_stats w q d), d)
  handle w (get_dead q limit) d = (some (handle_dead w q limit d), d)
  handle w (post_schedule req) d = at_once (handle_create_schedule w req d)
  handle w get_schedules d = (some (handle_list_schedules w d), d)
  handle w (delete_schedule id) d = at_once (handle_delete_schedule w id d)

  -- The check of the token in front of every handler.
  unfoldable pub wrap : Bytes → World → Request → Db → Option Response × Db
  unfolding handle authorized
  wrap header w req d =
      if authorized cfg.auth_token header
      then handle w req d
      else (some (answer 401 (failed unauthorized)), d)
