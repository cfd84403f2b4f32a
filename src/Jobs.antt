-- ===== src/Jobs.antt =====
-- Where a job is. Its state is implied by which structures hold its ID (internal/cogs/job.go):
-- `places` counts them, and the invariant says that every job stands in exactly one.
pub mod Claim
pub mod Relocate
pub mod Fail
pub mod Drain
pub mod Pass
pub mod Ack
pub mod Enqueue
pub mod Idempotency
pub mod Renew
pub mod Order
pub mod Other
pub mod Apart
pub mod Resent
pub mod Elsewhere
pub mod Leases
pub mod Poison
use cogs_crash_refresh_job_q.Prelude.{
  ℕ, ◌+◌, ◌≤◌, Bytes, some, ◌≡◌, refl, sym, ◌∙◌, present, count, arith,
}
use cogs_crash_refresh_job_q.Keys.{job_key, pending_key, leased_key, retry_key, dead_key}
use cogs_crash_refresh_job_q.Redis.{View, queue, attempts, text, as_int}

-- How often an ID stands in the four structures of a queue.
abbrev pub places : View → Bytes → Bytes → ℕ
places v q id =
    count id (v.lists (pending_key q))
    + present (v.zsets (leased_key q) id)
    + present (v.zsets (retry_key q) id)
    + count id (v.lists (dead_key q))

pub record Inv (v : View) : Type 0 where
  -- No ID stands twice in one queue.
  pub once : (q id : Bytes) → places v q id ≤ 1
  -- What stands in a queue is a job of that queue.
  pub backed : (q id : Bytes) → 1 ≤ places v q id → v.hashes (job_key id) queue ≡ some (text q)
  -- A job stands in its queue.
  pub located : (q id : Bytes) → v.hashes (job_key id) queue ≡ some (text q) → 1 ≤ places v q id
  -- The attempts of a job are a number.
  pub numbered :
      (q id : Bytes)
      → 1 ≤ places v q id
      → (n : ℕ) × (as_int (v.hashes (job_key id) attempts) ≡ some n)

-- From `v` to `w` no job has come or gone: each stands where it stood or has moved on.
pub record Keeps (v w : View) : Type 0 where
  pub same_places : (q id : Bytes) → places w q id ≡ places v q id
  pub same_queue : (id : Bytes) → w.hashes (job_key id) queue ≡ v.hashes (job_key id) queue
  pub still_numbered :
      (id : Bytes) (n : ℕ)
      → as_int (v.hashes (job_key id) attempts) ≡ some n
      → (m : ℕ) × (as_int (w.hashes (job_key id) attempts) ≡ some m)

pub Keeps-refl : (v : View) → Keeps v v
Keeps-refl v = record {
  same_places = λ q id. refl;
  same_queue = λ id. refl;
  still_numbered = λ id n e. (n, e);
}

pub Keeps-trans : {u v w : View} → Keeps u v → Keeps v w → Keeps u w
Keeps-trans a b = record {
  same_places = λ q id. b.same_places q id ∙ a.same_places q id;
  same_queue = λ id. b.same_queue id ∙ a.same_queue id;
  still_numbered = λ id n e. let (m, e') = a.still_numbered id n e in b.still_numbered id m e';
}

pub Keeps-Inv : {v w : View} → Keeps v w → Inv v → Inv w
Keeps-Inv k i = record {
  once = λ q id. omega (arith, k.same_places q id, i.once q id);
  backed = λ q id h. k.same_queue id ∙ i.backed q id (omega (arith, k.same_places q id));
  located = λ q id h. omega (arith, k.same_places q id, i.located q id (sym (k.same_queue id) ∙ h));
  numbered = λ q id h.
      let (n, e) = i.numbered q id (omega (arith, k.same_places q id)) in k.still_numbered id n e;
}
