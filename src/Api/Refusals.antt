-- ===== src/Api/Refusals.antt =====
-- A refused request has done nothing.
use cogs_crash_refresh_job_q.Prelude.{
  ℕ, Bool, true, false, List, [], ◌∷◌, Bytes, Option, none, some, ℤ, pos, ◌≡◌, refl, inl, inr,
  if◌then◌else◌, not, ◌||◌, ltb_ℤ, map, arith,
}
use cogs_crash_refresh_job_q.Results.{Result, Result-cases, ok, err, lease_gone}
use cogs_crash_refresh_job_q.Keys.{valid_queue_name}
use cogs_crash_refresh_job_q.Redis.{Redis}
use cogs_crash_refresh_job_q.Store.{Config, Job, State, claim, ack}
use cogs_crash_refresh_job_q.Schedules.Manager.{Parser, Schedule, delete}
use cogs_crash_refresh_job_q.Api.Parse.{authorized}
use cogs_crash_refresh_job_q.Api.{
  Code, unauthorized, invalid_json, invalid_queue, no_queues, lost_lease, no_such_job, internal,
  invalid_cron, Body, failed, Response, answer, Request, post_job, post_claim, post_ack_batch,
  post_renew, post_ack, post_fail, get_job, get_stats, get_dead, post_schedule, get_schedules,
  delete_schedule, Round, World, is_empty, all_valid, queue_of, claim_response, enqueue_response,
  renew_response, ack_batch_response, ack_response, fail_response, create_response, delete_response,
}
use cogs_crash_refresh_job_q.Api.Handlers.{
  handle_enqueue, claim_loop, handle_claim, handle_renew, handle_ack_batch, handle_ack, handle_fail,
  handle_create_schedule, handle_delete_schedule, handle, wrap,
}

-- The codes of a request that is not let through to the store.
abbrev pub is_refusal : Code → Bool
is_refusal unauthorized = true
is_refusal invalid_json = true
is_refusal invalid_queue = true
is_refusal no_queues = true
is_refusal lost_lease = false
is_refusal no_such_job = false
is_refusal internal = false
is_refusal invalid_cron = false

abbrev refuses_with : Body → Bool
refuses_with (failed c) = is_refusal c
refuses_with b = false

abbrev pub refuses : Option Response → Bool
refuses (some (answer n b)) = refuses_with b
refuses r = false

-- No response to what the store said is a refusal.
enqueue_accepted :
    (q : Bytes) (r : Result (Bytes × Bool)) → refuses (some (enqueue_response q r)) ≡ false
enqueue_accepted q (ok (id, created)) = refl
enqueue_accepted q (err e) = refl

renew_accepted : (id : Bytes) (r : Result ℕ) → refuses (some (renew_response id r)) ≡ false
renew_accepted id (ok n) = refl
renew_accepted id (err lease_gone) = refl
renew_accepted id (err e) = refl

ack_batch_accepted : (r : Result ℕ) → refuses (some (ack_batch_response r)) ≡ false
ack_batch_accepted (ok n) = refl
ack_batch_accepted (err e) = refl

ack_accepted : (r : Result ℕ) → refuses (some (ack_response r)) ≡ false
ack_accepted (ok n) = ground arith
ack_accepted (err e) = refl

fail_accepted : (id : Bytes) (r : Result State) → refuses (some (fail_response id r)) ≡ false
fail_accepted id (ok s) = refl
fail_accepted id (err lease_gone) = refl
fail_accepted id (err e) = refl

create_accepted : (r : Result Schedule) → refuses (some (create_response r)) ≡ false
create_accepted (ok s) = refl
create_accepted (err e) = refl

delete_accepted : (r : Result {0} Unit) → refuses (some (delete_response r)) ≡ false
delete_accepted (ok u) = refl
delete_accepted (err e) = refl

claim_accepted : (cfg : Config) (jobs : List Job) → refuses (some (claim_response cfg jobs)) ≡ false
unfolding claim_response
claim_accepted cfg jobs = ground arith

-- If the response refuses, the keyspace is as before.
abbrev pub Harmless : {Db : Type 0} → Option Response × Db → Db → Type 0
Harmless r d = refuses r.0 ≡ true → r.1 ≡ d

Harmless-accepted :
    {Db : Type 0} (r : Option Response × Db) (d : Db) → refuses r.0 ≡ false → Harmless r d
Harmless-accepted r d accepted h = absurd (ground (arith, h, accepted))

Harmless-if :
    {Db : Type 0} (b : Bool) (x y : Option Response × Db) (d : Db)
    → Harmless x d
    → Harmless y d
    → Harmless (if b then x else y) d
Harmless-if true x y d p r = p
Harmless-if false x y d p r = r

-- A guarded call of the store: its response is accepted, or the name of the queue is not.
Harmless-guarded :
    {Db : Type 0} (b : Bool) (x y : Response × Db) (d : Db)
    → refuses (some x.0) ≡ false
    → y.1 ≡ d
    → Harmless (some (if b then x else y).0, (if b then x else y).1) d
Harmless-guarded true x y d accepted same = Harmless-accepted (some x.0, x.1) d accepted
Harmless-guarded false x y d accepted same = λ h. same

module _ (R : Redis) (cfg : Config) (parse : Parser) where
  open R use {Db}

  loop_accepted :
      (queues : List Bytes) (batch deadline : ℤ) (rounds : List Round) (d : Db)
      → refuses (claim_loop R cfg parse queues batch deadline rounds d).0 ≡ false
  unfolding claim_loop
  loop_accepted queues batch deadline [] d = refl
  loop_accepted queues batch deadline (r ∷ rounds) d =
      let calls = map (λ x. (x, r.fates x)) queues in
      let later = loop_accepted queues batch deadline rounds (claim R cfg r.now calls batch d).1 in
      elim (Result-cases (claim R cfg r.now calls batch d).0) [
        | inl (e, h) ↦ rw (h, claim_loop) refl
        | inr (jobs, h) ↦
            rw (h, claim_loop)
              (branch_accepted (not (is_empty jobs) || not (ltb_ℤ (pos r.clock) deadline)) _ _
                (claim_accepted cfg jobs) (branch_accepted r.gone _ _ refl later))
      ]
    where
      branch_accepted :
          (b : Bool) (x y : Option Response × Db)
          → refuses x.0 ≡ false
          → refuses y.0 ≡ false
          → refuses (if b then x else y).0 ≡ false
      branch_accepted true x y p q = p
      branch_accepted false x y p q = q

  claim-Harmless :
      (w : World) (req : Option (List Bytes × ℤ × ℤ)) (d : Db)
      → Harmless (handle_claim R cfg parse w req d) d
  unfolding handle_claim
  claim-Harmless w none d = λ h. refl
  claim-Harmless w (some ([], batch, wait)) d = λ h. refl
  claim-Harmless w (some (x ∷ queues, batch, wait)) d =
      Harmless-if (all_valid (x ∷ queues)) _ _ d
        (Harmless-accepted _ d (loop_accepted (x ∷ queues) batch _ w.rounds d)) (λ h. refl)

  handle-Harmless : (w : World) (req : Request) (d : Db) → Harmless (handle R cfg parse w req d) d
  unfolding handle handle_enqueue handle_renew handle_ack_batch handle_ack handle_fail
      handle_create_schedule handle_delete_schedule
  handle-Harmless w (post_job none) d = λ h. refl
  handle-Harmless w (post_job (some (q, body, idem))) d =
      Harmless-guarded (valid_queue_name q) _ _ d (enqueue_accepted q _) refl
  handle-Harmless w (post_claim req) d = claim-Harmless w req d
  handle-Harmless w (post_ack_batch none) d = λ h. refl
  handle-Harmless w (post_ack_batch (some (q, ids))) d =
      Harmless-guarded (valid_queue_name q) _ _ d (ack_batch_accepted _) refl
  handle-Harmless w (post_renew id query body) d =
      Harmless-guarded (valid_queue_name (queue_of query body)) _ _ d (renew_accepted id _) refl
  handle-Harmless w (post_ack id query body) d =
      Harmless-guarded (valid_queue_name (queue_of query body)) _ _ d
        (ack_accepted (ack R cfg w.link (queue_of query body) (id ∷ []) d).0) refl
  handle-Harmless w (post_fail id none) d = λ h. refl
  handle-Harmless w (post_fail id (some (q, attempt))) d =
      Harmless-guarded (valid_queue_name q) _ _ d (fail_accepted id _) refl
  handle-Harmless w (get_job id) d = λ h. refl
  handle-Harmless w (get_stats q) d = λ h. refl
  handle-Harmless w (get_dead q limit) d = λ h. refl
  handle-Harmless w (post_schedule none) d = λ h. refl
  handle-Harmless w (post_schedule (some (q, spec, body))) d =
      Harmless-guarded (valid_queue_name q) _ _ d (create_accepted _) refl
  handle-Harmless w get_schedules d = λ h. refl
  handle-Harmless w (delete_schedule id) d =
      Harmless-accepted (handle R cfg parse w (delete_schedule id) d) d
        (delete_accepted (delete R cfg parse w.link id d).0)

  -- A request that is refused, for its token, its JSON or a queue's name, has changed nothing.
  pub refused_unchanged :
      (header : Bytes) (w : World) (req : Request) (d : Db)
      → refuses (wrap R cfg parse header w req d).0 ≡ true
      → (wrap R cfg parse header w req d).1 ≡ d
  unfolding wrap
  refused_unchanged header w req d =
      Harmless-if (authorized cfg.auth_token header) _ _ d (handle-Harmless w req d) (λ h. refl)
