-- ===== src/Jobs/Resent.antt =====
-- An enqueue call without an idempotency key that the client library of Redis sends again.
use cogs_crash_refresh_job_q.Prelude.{
  ℕ, ◌≤◌, [], Bytes, Option, ℤ, some, ◌≡◌, refl, ap, arith, bytes_eq_refl, count, count-append,
  length, length-append, length-map, bytes_eq, ◌∙◌,
}
use cogs_crash_refresh_job_q.Results.{Result, ok}
use cogs_crash_refresh_job_q.Keys.{pending_key}
use cogs_crash_refresh_job_q.Keys.Layout.{key_laws}
use cogs_crash_refresh_job_q.Redis.{Redis}
use cogs_crash_refresh_job_q.Jobs.{Inv}
use cogs_crash_refresh_job_q.Jobs.Enqueue.{
  IsFresh, new_fields, enqueue, enqueue_plain, fresh-places,
}
use cogs_crash_refresh_job_q.Jobs.Order.{ids, claim, claim_script_hands}
use cogs_crash_refresh_job_q.Jobs.Leases.{count-reverse}
use mathlib.Core.List.{reverse}
use cogs_crash_refresh_job_q.Scripts.{Claimed}
use cogs_crash_refresh_job_q.Store.Claims.Emptied.{nil_of_length, length-reverse}

module _ (R : Redis) (q id body : Bytes) (created ttl : ℕ) (d : R.Db) where
  open R use {Db, view}

  abbrev pub once : Result (ℕ × Option Bytes) × Db
  once = enqueue R q id body [] created ttl d

  -- The same script with the same arguments, the new ID among them.
  abbrev pub twice : Result (ℕ × Option Bytes) × Db
  twice = enqueue R q id body [] created ttl once.1

  doubled : Inv (view d) → IsFresh (view d) id → count id ((view twice.1).lists (pending_key q)) ≡ 2
  unfolding count bytes_eq
  doubled inv fresh =
      let new =
        fresh-places q id (new_fields R q id body [] created (view d)) (view d) inv fresh q in
      rw
        (
          (enqueue_plain R q id body [] created ttl once.1 refl).1,
          (enqueue_plain R q id body [] created ttl d refl).1,
        )
        (simp key_laws (ground (arith, new, bytes_eq_refl id)))

  -- A claim that takes the whole pending list hands out what stands there.
  whole_list :
      (deadline : ℤ) (n : ℕ) (e : Db)
      → length ((view e).lists (pending_key q)) ≤ n
      → count id (ids (claim R q deadline n e).0) ≡ count id ((view e).lists (pending_key q))
  unfolding count
  whole_list deadline n e room =
      let h = claim_script_hands R q deadline n e in
      let out = ids (claim R q deadline n e).0 in
      let left = (view (claim R q deadline n e).1).lists (pending_key q) in
      let none_left : left ≡ [] = nil_of_length left (
        ground (
          arith,
          h.as_many,
          room,
          ap length h.oldest_first,
          length-append left (reverse out),
          length-reverse out,
          length-map (λ (c : Claimed). c.id) (claim R q deadline n e).0,
        )) in
      omega (
        arith,
        ap (count id) h.oldest_first,
        count-append id left (reverse out),
        ap (count id) none_left,
        count-reverse id out,
      )

  -- If the reply to an enqueue call without an idempotency key is lost, and the client library
  -- sends the call again, then the job is doubled: both calls of the script, with the ID that was
  -- new before them, reply that they created it, the ID stands twice in the pending list, so that
  -- the invariant is broken, and a claim with room for the list hands the job out twice.
  pub resent_enqueue_doubles :
      (deadline : ℤ) (n : ℕ)
      → Inv (view d)
      → IsFresh (view d) id
      → length ((view twice.1).lists (pending_key q)) ≤ n
      → (once.0 ≡ ok (1, some id))
        × (twice.0 ≡ ok (1, some id))
        × (count id ((view twice.1).lists (pending_key q)) ≡ 2)
        × (¬ Inv (view twice.1))
        × (count id (ids (claim R q deadline n twice.1).0) ≡ 2)
  unfolding bytes_eq
  resent_enqueue_doubles deadline n inv fresh room =
      let two = doubled inv fresh in
      (
        (enqueue_plain R q id body [] created ttl d refl).0,
        (enqueue_plain R q id body [] created ttl once.1 refl).0,
        two,
        λ broken. absurd (omega (arith, two, broken.once q id)),
        whole_list deadline n twice.1 room ∙ two,
      )
