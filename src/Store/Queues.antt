-- ===== src/Store/Queues.antt =====
-- `KnownQueues` finds every queue that holds a job which waits, is leased or is to be retried.
mod Seen
use cogs_crash_refresh_job_q.Store.Queues.Seen.{
  add_seen-keeps, add_seen-in, add_seen-once, add_queues-keeps, add_queues-once, add_queues-in,
  pattern_key-queue, scan_more,
}
use cogs_crash_refresh_job_q.Prelude.{
  ℕ, zero, suc, ◌+◌, ◌≤◌, List, [], ◌∷◌, Bytes, some, ◌≡◌, ◌≢◌, refl, ap, subst, ◌∙◌, ◌⊎◌, inl, inr,
  ◌==◌, present, count, bytes_eq, bytes_eq_refl, bytes_eq_sound, arith, Bool-cases, Option-cases,
}
use cogs_crash_refresh_job_q.Results.{ok, Link, answered}
use cogs_crash_refresh_job_q.Keys.{queue_from_key, pending_key, leased_key, retry_key}
use cogs_crash_refresh_job_q.Keys.Names.{queue_from_key_keys}
use cogs_crash_refresh_job_q.Redis.{
  Redis, Pattern, pending_keys, leased_keys, retry_keys, pattern_key, scan_rounds,
}
use cogs_crash_refresh_job_q.Store.Reads.{add_seen, add_queues, scan_patterns, known_queues}

module _ (R : Redis) where
  open R use {Db, view, scan, scan_ends, scan_lists, scan_zsets}

  -- The key of the pattern holds the ID, in a list or a sorted set.
  abbrev pub Holds : Pattern → Bytes → Bytes → Db → Type 0
  Holds p q id d =
      1
      ≤ count id ((view d).lists (pattern_key p q)) + present ((view d).zsets (pattern_key p q) id)

  scan_finds :
      (p : Pattern) (q id : Bytes) (d : Db) (fuel : ℕ) (keys : List Bytes)
      → scan_rounds (λ c. scan c p d) fuel 0 ≡ some keys
      → Holds p q id d
      → 1 ≤ count (pattern_key p q) keys
  scan_finds p q id d fuel keys h there =
      ground (arith, scan_lists p q id d fuel keys h, scan_zsets p q id d fuel keys h)

  -- One of the patterns' keys of the queue holds the ID.
  abbrev AnyHolds : List Pattern → Bytes → Bytes → Db → Type 0
  AnyHolds [] q id d = ⊥
  AnyHolds (p ∷ patterns) q id d = Holds p q id d ⊎ AnyHolds patterns q id d

  -- What the loop over the patterns gives, round by round.
  patterns_step :
      (fate : Pattern → Link) (fuel : ℕ) (p : Pattern) (patterns : List Pattern)
      (seen queues : List Bytes) (d : Db)
      → scan_patterns R fate fuel (p ∷ patterns) seen d ≡ some (ok queues)
      → (keys : List Bytes) × (scan_rounds (λ c. scan c p d) fuel 0 ≡ some keys)
        × (scan_patterns R fate fuel patterns (add_queues keys seen) d ≡ some (ok queues))
  unfolding scan_patterns
  patterns_step fate fuel p patterns seen queues d h =
      elim (Option-cases (scan_rounds (λ c. scan c p d) fuel 0)) [
        | inl endless ↦ absurd (ground (arith, h, endless))
        | inr (keys, e) ↦ (keys, e, ground (arith, h, e))
      ]

  patterns_complete :
      (fate : Pattern → Link) (fuel : ℕ) (patterns : List Pattern) (seen queues : List Bytes)
      (d : Db)
      → scan_patterns R fate fuel patterns seen d ≡ some (ok queues)
      → (q : Bytes)
      → (count q seen ≤ count q queues)
        × ((id : Bytes) → q ≢ [] → AnyHolds patterns q id d → 1 ≤ count q queues)
        × (count q seen ≤ 1 → count q queues ≤ 1)
  unfolding scan_patterns
  patterns_complete fate fuel [] seen queues d h q =
      let same : seen ≡ queues = cc in
      (
        rw same (omega arith),
        λ id named none_holds. absurd none_holds,
        λ once. subst (λ l. count q l ≤ 1) same once,
      )
  patterns_complete fate fuel (p ∷ patterns) seen queues d h q =
      let (keys, got, rest) = patterns_step fate fuel p patterns seen queues d h in
      let (kept, found, once) =
        patterns_complete fate fuel patterns (add_queues keys seen) queues d rest q in
      (
        omega (arith, add_queues-keeps keys q seen, kept),
        λ id named holds. elim holds [
          | inl here ↦
              let in_keys = scan_finds p q id d fuel keys got here in
              omega (
                arith,
                kept,
                add_queues-in keys (pattern_key p q) q seen in_keys (pattern_key-queue p q) named,
              )
          | inr later ↦ found id named later
        ],
        λ o. once (add_queues-once keys q seen o),
      )

  -- The loop over the patterns ends.
  patterns_end :
      (patterns : List Pattern) (seen : List Bytes) (d : Db)
      → (fuel : ℕ) × ((n : ℕ)
          → fuel ≤ n
          → (queues : List Bytes) × (scan_patterns R (λ p. answered) n patterns seen d
              ≡ some (ok queues)))
  unfolding scan_patterns
  patterns_end [] seen d = (0, λ n le. (seen, refl))
  patterns_end (p ∷ patterns) seen d =
      let (fuel, keys, got) = scan_ends p d in
      let (fuel', rest) = patterns_end patterns (add_queues keys seen) d in
      (
        fuel + fuel',
        λ n le.
            let (queues, e) = rest n (omega arith) in
            (queues, rw (scan_more _ fuel n 0 keys (omega arith) got, scan_patterns) e),
      )

  -- The ID stands in the pending list, the leased set or the retry set of the queue.
  abbrev pub IsAlive : Bytes → Bytes → Db → Type 0
  IsAlive q id d =
      1
      ≤ count id ((view d).lists (pending_key q))
        + present ((view d).zsets (leased_key q) id)
        + present ((view d).zsets (retry_key q) id)

  alive-holds :
      (q id : Bytes) (d : Db)
      → IsAlive q id d
      → AnyHolds (pending_keys ∷ leased_keys ∷ retry_keys ∷ []) q id d
  alive-holds q id d h = elim (Bool-cases (count id ((view d).lists (pending_key q)) == 0)) [
    | inl idle ↦ elim (Option-cases ((view d).zsets (leased_key q) id)) [
      | inl free ↦ inr (inr (inl (ground (arith, h, idle, free))))
      | inr (t, held) ↦ inr (inl (ground (arith, held)))
    ]
    | inr waiting ↦ inl (ground (arith, waiting))
  ]

  -- With its calls answered, `KnownQueues` returns.
  pub known_queues_ends :
      (d : Db)
      → (fuel : ℕ) × (queues : List Bytes) × (known_queues R (λ p. answered) fuel d
          ≡ some (ok queues))
  unfolding known_queues
  known_queues_ends d =
      let (fuel, enough) = patterns_end (pending_keys ∷ leased_keys ∷ retry_keys ∷ []) [] d in
      let (queues, e) = enough fuel (omega arith) in (fuel, queues, e)

  -- What `KnownQueues` returns names each queue that has a non-empty name and a pending, leased
  -- or retried job exactly once.
  pub known_queues_complete :
      (fate : Pattern → Link) (fuel : ℕ) (d : Db) (queues : List Bytes) (q id : Bytes)
      → known_queues R fate fuel d ≡ some (ok queues)
      → q ≢ []
      → IsAlive q id d
      → count q queues ≡ 1
  unfolding known_queues count
  known_queues_complete fate fuel d queues q id h named alive =
      let (kept, found, once) =
        patterns_complete fate fuel (pending_keys ∷ leased_keys ∷ retry_keys ∷ []) [] queues d h
          q in
      omega (arith, found id named (alive-holds q id d alive), once (omega arith))
