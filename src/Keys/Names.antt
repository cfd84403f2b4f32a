-- ===== src/Keys/Names.antt =====
-- Reading a queue's name back from its keys.
use cogs_crash_refresh_job_q.Prelude.{
  ◌≤◌, [], ◌∷◌, ◌++◌, Bytes, codes, ◌≡◌, refl, some, arith, length, length-append,
}
use cogs_crash_refresh_job_q.Keys.{
  pending_key, leased_key, retry_key, before_last_colon, queue_from_key,
}

-- A suffix whose only colon is its first byte is cut off.
before_last_colon-append :
    (q s : Bytes) → before_last_colon s ≡ some [] → before_last_colon (q ++ s) ≡ some q
unfolding before_last_colon
before_last_colon-append [] s h = h
before_last_colon-append (x ∷ q) s h = rw (before_last_colon-append q s h) refl

queue_from_key-queue :
    (q s : Bytes)
    → before_last_colon s ≡ some []
    → 1 ≤ length s
    → queue_from_key (codes "queue:" ++ q ++ s) ≡ q
unfolding queue_from_key
queue_from_key-queue q s h l = ground (arith, before_last_colon-append q s, length-append q s)

-- The queue of a pending, a leased or a retry key, the three patterns that `KnownQueues` scans
-- for, is read back as it was, whatever bytes it holds.
pub queue_from_key_keys :
    (q : Bytes)
    → (queue_from_key (pending_key q) ≡ q)
      × (queue_from_key (leased_key q) ≡ q)
      × (queue_from_key (retry_key q) ≡ q)
unfolding pending_key leased_key retry_key before_last_colon
queue_from_key_keys q = (
  queue_from_key-queue q (codes ":pending") refl (omega arith),
  queue_from_key-queue q (codes ":leased") refl (omega arith),
  queue_from_key-queue q (codes ":retry") refl (omega arith),
)
