-- ===== src/Store/Counts.antt =====
-- `Store.Stats`: each depth counts its structure, and together they count each job once.
use cogs_crash_refresh_job_q.Prelude.{
  ℤ, ℕ, ◌+◌, ◌≤◌, present, sym, ◌∙◌, List, [], ◌∷◌, ◌++◌, map, Bytes, ◌≡◌, refl, ap, length,
  length-append, count, count-append, arith,
}
use cogs_crash_refresh_job_q.Results.{ok, answered}
use cogs_crash_refresh_job_q.Keys.{pending_key, leased_key, retry_key, dead_key}
use cogs_crash_refresh_job_q.Redis.{Redis}
use cogs_crash_refresh_job_q.Jobs.{places, Inv}
use cogs_crash_refresh_job_q.Store.Reads.{QueueStats, stats}

length-names : (l : List (Bytes × ℤ)) → length (map (λ e. e.0) l) ≡ length l
length-names [] = refl
length-names (e ∷ l) = omega (arith, length-names l)

ok_inj {ℓ} : {A : Type ℓ} {a b : A} → ok a ≡ ok b → a ≡ b
ok_inj h = cc

four_parts :
    (a b c e : List Bytes) → length (a ++ b ++ c ++ e) ≡ length a + length b + length c + length e
four_parts a b c e =
    omega (arith, length-append (a ++ b ++ c) e, length-append (a ++ b) c, length-append a b)

count_parts :
    (id : Bytes) (a b c e : List Bytes)
    → count id (a ++ b ++ c ++ e) ≡ count id a + count id b + count id c + count id e
count_parts id a b c e =
    omega (arith, count-append id (a ++ b ++ c) e, count-append id (a ++ b) c, count-append id a b)

-- The members of a sorted set.
abbrev pub names : List (Bytes × ℤ) → List Bytes
names l = map (λ e. e.0) l

module _ (R : Redis) (q : Bytes) where
  open R use {Db, view, llen, zcard, zrange, llen_reply, zcard_reply, zrange_members}

  -- The IDs of the queue, structure by structure, each in the keyspace that its command reads.
  abbrev pub all_ids : Db → Db → Db → Db → List Bytes
  all_ids d1 d2 d3 d4 =
      (view d1).lists (pending_key q)
      ++ names (zrange (leased_key q) d2)
      ++ names (zrange (retry_key q) d3)
      ++ (view d4).lists (dead_key q)

  -- The number is that of the members of a sorted set, each once.
  abbrev pub CountsSet : ℕ → Bytes → Db → Type 0
  CountsSet n key d =
      (ids : List Bytes) × (length ids ≡ n)
      × ((id : Bytes) → count id ids ≡ present ((view d).zsets key id))

  -- The ID stands in the same structures of the queue in both keyspaces.
  pub record Stays (id : Bytes) (d d' : Db) : Type 0 where
    pub pending :
        count id ((view d').lists (pending_key q)) ≡ count id ((view d).lists (pending_key q))
    pub leased :
        present ((view d').zsets (leased_key q) id) ≡ present ((view d).zsets (leased_key q) id)
    pub retry :
        present ((view d').zsets (retry_key q) id) ≡ present ((view d).zsets (retry_key q) id)
    pub dead : count id ((view d').lists (dead_key q)) ≡ count id ((view d).lists (dead_key q))

  zcard-CountsSet : (key : Bytes) (d : Db) → CountsSet (zcard key d) key d
  zcard-CountsSet key d = (
    names (zrange key d),
    length-names (zrange key d) ∙ sym (zcard_reply key d),
    λ id. zrange_members key id d,
  )

  length-all_ids :
      (d1 d2 d3 d4 : Db)
      → length (all_ids d1 d2 d3 d4)
        ≡ llen (pending_key q) d1
          + zcard (leased_key q) d2
          + zcard (retry_key q) d3
          + llen (dead_key q) d4
  length-all_ids d1 d2 d3 d4 = omega (
    arith,
    four_parts ((view d1).lists (pending_key q)) (names (zrange (leased_key q) d2))
        (names (zrange (retry_key q) d3)) ((view d4).lists (dead_key q)),
    llen_reply (pending_key q) d1,
    llen_reply (dead_key q) d4,
    zcard_reply (leased_key q) d2,
    zcard_reply (retry_key q) d3,
    length-names (zrange (leased_key q) d2),
    length-names (zrange (retry_key q) d3),
  )

  count-all_ids :
      (d1 d2 d3 d4 : Db) (id : Bytes)
      → Stays id d1 d2
      → Stays id d1 d3
      → Stays id d1 d4
      → count id (all_ids d1 d2 d3 d4) ≡ places (view d1) q id
  count-all_ids d1 d2 d3 d4 id at2 at3 at4 = omega (
    arith,
    count_parts id ((view d1).lists (pending_key q)) (names (zrange (leased_key q) d2))
        (names (zrange (retry_key q) d3)) ((view d4).lists (dead_key q)),
    zrange_members (leased_key q) id d2,
    zrange_members (retry_key q) id d3,
    at2.leased,
    at3.retry,
    at4.dead,
  )

  -- Each depth that `Stats` returns is that of its own structure in the keyspace that its
  -- command reads: the length of the pending and of the dead list, and the number of members of
  -- the leased and of the retry set. And the four add up to the length of a list of all these
  -- IDs, which holds an ID that stays where it is while the commands run, whatever becomes of
  -- others, as often as the queue does, which under the invariant is at most once.
  pub stats_counts :
      (s : QueueStats) (d1 d2 d3 d4 : Db) (id : Bytes)
      → stats R answered q d1 d2 d3 d4 ≡ ok s
      → Inv (view d1)
      → Stays id d1 d2
      → Stays id d1 d3
      → Stays id d1 d4
      → (s.queue ≡ q)
        × (s.pending ≡ length ((view d1).lists (pending_key q)))
        × CountsSet s.leased (leased_key q) d2
        × CountsSet s.retry (retry_key q) d3
        × (s.dead ≡ length ((view d4).lists (dead_key q)))
        × (length (all_ids d1 d2 d3 d4) ≡ s.pending + s.leased + s.retry + s.dead)
        × (count id (all_ids d1 d2 d3 d4) ≡ places (view d1) q id)
        × (count id (all_ids d1 d2 d3 d4) ≤ 1)
  unfolding stats
  stats_counts s d1 d2 d3 d4 id reply inv at2 at3 at4 =
      let same = sym (ok_inj reply) in
      let found = count-all_ids d1 d2 d3 d4 id at2 at3 at4 in
      (
        ap (λ (t : QueueStats). t.queue) same,
        ap (λ (t : QueueStats). t.pending) same ∙ llen_reply (pending_key q) d1,
        rw (ap (λ (t : QueueStats). t.leased) same) (zcard-CountsSet (leased_key q) d2),
        rw (ap (λ (t : QueueStats). t.retry) same) (zcard-CountsSet (retry_key q) d3),
        ap (λ (t : QueueStats). t.dead) same ∙ llen_reply (dead_key q) d4,
        length-all_ids d1 d2 d3 d4
            ∙ ap (λ (t : QueueStats). t.pending + t.leased + t.retry + t.dead) (ok_inj reply),
        found,
        omega (arith, found, inv.once q id),
      )
