-- ===== src/Jobs/Apart.antt =====
-- What the scripts on jobs leave alone: the markers of idempotency keys, and the next times of
-- schedules.
use cogs_crash_refresh_job_q.Prelude.{
  ℕ, zero, suc, Bool, false, List, [], ◌∷◌, Bytes, ℤ, ◌≡◌, refl, ◌∙◌, inl, inr, bytes_eq,
  Bool-cases, Option-cases, ◌==◌, ◌<◌,
}
use cogs_crash_refresh_job_q.Keys.{
  job_key, idem_key, schedules_key, leased_key, pending_key, leader_key,
}
use cogs_crash_refresh_job_q.Keys.Layout.{key_laws}
use cogs_crash_refresh_job_q.Keys.Families.{del_laws}
use cogs_crash_refresh_job_q.Redis.{Redis, View, SetReply, stored, invalid_expire, nil, done}
use cogs_crash_refresh_job_q.Scripts.{
  FailReply, gone, retried, dead_lettered, Moved, skipped, requeued, buried, claim_script,
  lease_one, ack_script, drain_loop, drain_script,
}
use cogs_crash_refresh_job_q.Results.{Link}
use cogs_crash_refresh_job_q.Leader.{Leader, LockCall, lock_step}
use cogs_crash_refresh_job_q.Leader.Effects.{lock_step-relates}
use cogs_crash_refresh_job_q.Jobs.{Inv, Keeps-Inv}
use cogs_crash_refresh_job_q.Jobs.Order.{claim}
use cogs_crash_refresh_job_q.Jobs.Ack.{ack}
use cogs_crash_refresh_job_q.Jobs.Renew.{renew, renew_script_outcome}
use cogs_crash_refresh_job_q.Jobs.Fail.{FailOutcome, after, fail_script_outcome}
use cogs_crash_refresh_job_q.Jobs.Relocate.{Source, leased, retry, source_key}
use cogs_crash_refresh_job_q.Jobs.Drain.{one, DrainOutcome, drain_one_outcome, drain_one-Keeps}
use cogs_crash_refresh_job_q.Jobs.Pass.{loop, pass, due}

pub record Apart (v w : View) : Type 0 where
  pub markers : (key : Bytes) → w.strings (idem_key key) ≡ v.strings (idem_key key)
  pub times : (id : Bytes) → w.zsets schedules_key id ≡ v.zsets schedules_key id

pub Apart-refl : (v : View) → Apart v v
Apart-refl v = record { markers = λ key. refl; times = λ id. refl }

Apart-trans : {u v w : View} → Apart u v → Apart v w → Apart u w
Apart-trans first second = record {
  markers = λ key. second.markers key ∙ first.markers key;
  times = λ id. second.times id ∙ first.times id;
}

failed-Apart :
    (q id : Bytes) (next_at : ℤ) (max_retries : ℕ) (v w : View) (r : FailReply)
    → FailOutcome v w q id next_at max_retries r
    → Apart v w
failed-Apart q id next_at max_retries v w gone o = rw o.1 (Apart-refl v)
failed-Apart q id next_at max_retries v w dead_lettered o =
    rw o.4 (record { markers = λ key. refl; times = λ x. simp key_laws })
failed-Apart q id next_at max_retries v w retried o =
    rw o.4 (record { markers = λ key. refl; times = λ x. simp key_laws })

source-schedules : (s : Source) (q : Bytes) → bytes_eq (source_key s q) schedules_key ≡ false
source-schedules leased q = simp key_laws
source-schedules retry q = simp key_laws

drained-Apart :
    (s : Source) (bump : Bool) (max_retries : ℕ) (q id : Bytes) (v w : View) (m : Moved)
    → DrainOutcome s bump max_retries q id v w m
    → Apart v w
drained-Apart s bump max_retries q id v w skipped o = rw o.1 (Apart-refl v)
drained-Apart s bump max_retries q id v w requeued o =
    rw o.4 (record { markers = λ key. refl; times = λ x. rw (source-schedules s q) refl })
drained-Apart s bump max_retries q id v w buried o =
    rw o.4 (record { markers = λ key. refl; times = λ x. rw (source-schedules s q) refl })

module _ (R : Redis) where
  open R use {
    Db, view, rpop, zrem, zadd, del, rpop_reply, view-rpop, view-zadd, view-zrem, view-del,
  }

  rpop-Apart : (q : Bytes) (d : Db) → Apart (view d) (view (rpop (pending_key q) d).1)
  rpop-Apart q d = rw view-rpop (record { markers = λ key. refl; times = λ x. refl })

  zadd-Apart : (q x : Bytes) (t : ℤ) (d : Db) → Apart (view d) (view (zadd (leased_key q) t x d))
  zadd-Apart q x t d = rw view-zadd (record { markers = λ key. refl; times = λ x. simp key_laws })

  zrem-Apart : (q x : Bytes) (d : Db) → Apart (view d) (view (zrem (leased_key q) x d).1)
  zrem-Apart q x d = rw view-zrem (record { markers = λ key. refl; times = λ x. simp key_laws })

  finish-Apart :
      (q x : Bytes) (d : Db) → Apart (view d) (view (del (job_key x) (zrem (leased_key q) x d).1))
  finish-Apart q x d = record {
    markers = λ key. simp (view-del, view-zrem, del_laws);
    times = λ id. simp (view-del, view-zrem, key_laws, del_laws);
  }

  pub claim-Apart :
      (q : Bytes) (deadline : ℤ) (n : ℕ) (d : Db) → Apart (view d) (view (claim R q deadline n d).1)
  unfolding claim_script lease_one
  claim-Apart q deadline zero d = Apart-refl (view d)
  claim-Apart q deadline (suc n) d = elim (Option-cases (rpop (pending_key q) d).0) [
    | inl e ↦ rw (e, claim_script) (rpop-Apart q d)
    | inr (x, e) ↦
        let leased = zadd (leased_key q) deadline x (rpop (pending_key q) d).1 in
        rw (e, claim_script)
          (Apart-trans (rpop-Apart q d) (
            Apart-trans (zadd-Apart q x deadline (rpop (pending_key q) d).1)
              (claim-Apart q deadline n leased)))
  ]

  pub renew-Apart :
      (q id : Bytes) (deadline : ℤ) (d : Db) → Apart (view d) (view (renew R q id deadline d).1)
  renew-Apart q id deadline d = elim (renew_script_outcome R q id deadline d) [
    | inl (there, r, w) ↦ rw w (record { markers = λ key. refl; times = λ x. simp key_laws })
    | inr (absent, r, w) ↦ rw w (Apart-refl (view d))
  ]

  pub ack-Apart :
      (q : Bytes) (names : List Bytes) (d : Db) → Apart (view d) (view (ack R q names d).1)
  unfolding ack_script
  ack-Apart q [] d = Apart-refl (view d)
  ack-Apart q (x ∷ names) d = elim (Bool-cases ((zrem (leased_key q) x d).0 == 1)) [
    | inl removed ↦
        rw (removed, ack_script) (Apart-trans (finish-Apart q x d) (ack-Apart q names _))
    | inr absent ↦ rw (absent, ack_script) (Apart-trans (zrem-Apart q x d) (ack-Apart q names _))
  ]

  pub fail-Apart :
      (q id : Bytes) (next_at : ℤ) (max_retries : ℕ) (d : Db)
      → Inv (view d)
      → Apart (view d) (view (after R q id next_at max_retries d).1)
  fail-Apart q id next_at max_retries d inv =
      let (r, reply, o) = fail_script_outcome R q id next_at max_retries d inv in
      failed-Apart q id next_at max_retries (view d) _ r o

  loop-Apart :
      (s : Source) (bump : Bool) (max_retries : ℕ) (q : Bytes) (ids : List Bytes) (d : Db)
      → Inv (view d)
      → Apart (view d) (view (loop R s bump max_retries q ids d).1)
  unfolding drain_loop
  loop-Apart s bump max_retries q [] d inv = Apart-refl (view d)
  loop-Apart s bump max_retries q (id ∷ ids) d inv =
      let (m, moves) = drain_one_outcome R s max_retries q bump id d inv in
      let d' = (one R s bump max_retries q id d).1 in
      rw (moves.0, drain_loop)
        (Apart-trans (drained-Apart s bump max_retries q id (view d) (view d') m moves.1) (
          loop-Apart s bump max_retries q ids d'
            (Keeps-Inv (drain_one-Keeps R s max_retries q bump id d inv) inv)))

  pub pass-Apart :
      (s : Source) (bump : Bool) (max_retries : ℕ) (q : Bytes) (now : ℤ) (limit : ℕ) (d : Db)
      → Inv (view d)
      → Apart (view d) (view (pass R s bump max_retries q now limit d).1)
  unfolding drain_script
  pass-Apart s bump max_retries q now limit d inv =
      loop-Apart s bump max_retries q (due R s bump max_retries q now limit d) d inv

  stored-Apart : (r : SetReply) (x : Bytes) (v : View) → Apart v (stored r leader_key x v)
  stored-Apart invalid_expire x v = Apart-refl v
  stored-Apart nil x v = Apart-refl v
  stored-Apart done x v = record { markers = λ key. simp key_laws; times = λ id. refl }

  del_leader-Apart : (d : Db) → Apart (view d) (view (del leader_key d))
  del_leader-Apart d = record {
    markers = λ key. simp (view-del, key_laws);
    times = λ id. simp (view-del, del_laws);
  }

  pub lock_step-Apart :
      (call : LockCall) (link : Link) (ttl : ℕ) (l : Leader) (d : Db)
      → 0 < ttl
      → Apart (view d) (view (lock_step R call link ttl l d).1)
  lock_step-Apart = lock_step-relates R Apart Apart-refl stored-Apart del_leader-Apart
