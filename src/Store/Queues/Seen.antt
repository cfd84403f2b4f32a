-- ===== src/Store/Queues/Seen.antt =====
-- The set of queues that the loop over the keys builds.
use cogs_crash_refresh_job_q.Prelude.{
  ℕ, zero, suc, ◌≤◌, List, [], ◌∷◌, Bytes, some, ◌≡◌, ◌≢◌, refl, ap, ◌∙◌, inl, inr, count, bytes_eq,
  bytes_eq_refl, bytes_eq_sound, arith, Bool-cases, Option-cases,
}
use cogs_crash_refresh_job_q.Keys.{queue_from_key}
use cogs_crash_refresh_job_q.Keys.Names.{queue_from_key_keys}
use cogs_crash_refresh_job_q.Redis.{
  Pattern, pending_keys, leased_keys, retry_keys, pattern_key, scan_rounds,
}
use cogs_crash_refresh_job_q.Store.Reads.{add_seen, add_queues}

pub add_seen-keeps : (q x : Bytes) (seen : List Bytes) → count x seen ≤ count x (add_seen q seen)
unfolding count
add_seen-keeps [] x seen = omega arith
add_seen-keeps (c ∷ q) x seen = ground arith

pub add_seen-in : (q : Bytes) (seen : List Bytes) → q ≢ [] → 1 ≤ count q (add_seen q seen)
unfolding count
add_seen-in [] seen h = absurd (h refl)
add_seen-in (c ∷ q) seen h = ground (arith, bytes_eq_refl (c ∷ q))

pub add_seen-once :
    (q x : Bytes) (seen : List Bytes) → count x seen ≤ 1 → count x (add_seen q seen) ≤ 1
unfolding count
add_seen-once [] x seen h = h
add_seen-once (c ∷ q) x seen h = ground (arith, bytes_eq_sound (c ∷ q) x)

pub add_queues-keeps :
    (keys : List Bytes) (x : Bytes) (seen : List Bytes)
    → count x seen ≤ count x (add_queues keys seen)
unfolding add_queues
add_queues-keeps [] x seen = omega arith
add_queues-keeps (k ∷ keys) x seen = omega (
  arith,
  add_seen-keeps (queue_from_key k) x seen,
  add_queues-keeps keys x (add_seen (queue_from_key k) seen),
)

pub add_queues-once :
    (keys : List Bytes) (x : Bytes) (seen : List Bytes)
    → count x seen ≤ 1
    → count x (add_queues keys seen) ≤ 1
unfolding add_queues
add_queues-once [] x seen h = h
add_queues-once (k ∷ keys) x seen h =
    add_queues-once keys x (add_seen (queue_from_key k) seen)
      (add_seen-once (queue_from_key k) x seen h)

pub add_queues-in :
    (keys : List Bytes) (k q : Bytes) (seen : List Bytes)
    → 1 ≤ count k keys
    → queue_from_key k ≡ q
    → q ≢ []
    → 1 ≤ count q (add_queues keys seen)
unfolding add_queues count
add_queues-in [] k q seen h e named = absurd (omega arith)
add_queues-in (x ∷ keys) k q seen h e named = elim (Bool-cases (bytes_eq x k)) [
  | inl same ↦
      let at_x : queue_from_key x ≡ q = ap queue_from_key (bytes_eq_sound x k same) ∙ e in
      let seen_here : 1 ≤ count q (add_seen (queue_from_key x) seen) =
        rw at_x (add_seen-in q seen named) in
      omega (arith, add_queues-keeps keys q (add_seen (queue_from_key x) seen), seen_here)
  | inr other ↦ add_queues-in keys k q (add_seen (queue_from_key x) seen) (ground arith) e named
]

pub pattern_key-queue : (p : Pattern) (q : Bytes) → queue_from_key (pattern_key p q) ≡ q
pattern_key-queue pending_keys q = (queue_from_key_keys q).0
pattern_key-queue leased_keys q = (queue_from_key_keys q).1
pattern_key-queue retry_keys q = (queue_from_key_keys q).2

-- More fuel does not change what a SCAN loop gives.
pub scan_more :
    (page : ℕ → List Bytes × ℕ) (fuel fuel' cursor : ℕ) (keys : List Bytes)
    → fuel ≤ fuel'
    → scan_rounds page fuel cursor ≡ some keys
    → scan_rounds page fuel' cursor ≡ some keys
unfolding scan_rounds
scan_more page zero fuel' cursor keys le h = cc
scan_more page (suc fuel) zero cursor keys le h = absurd (omega arith)
scan_more page (suc fuel) (suc fuel') cursor keys le h =
    elim (Option-cases (scan_rounds page fuel (page cursor).1)) [
      | inl ended ↦ ground (arith, h, ended)
      | inr (l, e) ↦
          ground (arith, h, e, scan_more page fuel fuel' (page cursor).1 l (omega arith) e)
    ]
