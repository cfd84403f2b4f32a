-- ===== src/Redis.antt =====
-- Redis as the program uses it. The server is not part of the repository: its commands are the
-- fields of a record, which every script takes as a parameter, with their documented effect as
-- laws. A law says what a command does to the four families of keys, in the absence of a type
-- error; no two keys of the program meet (Keys/Layout), so each key has one type.
mod Values
pub mod Memory
pub use Values.{
  Field, payload, queue, attempts, idempotency_key, created_at, cron, last_run, field_id, field_eq,
  Value, text, int,
}
unfoldable pub use Values.{decimal, value_bytes, value_int}
use cogs_crash_refresh_job_q.Results.{Result, ok}
use cogs_crash_refresh_job_q.Prelude.{
  ℕ, zero, suc, ◌+◌, ◌/◌, ◌%◌, ltb, ◌≤◌, ◌<◌, Bool, true, false, not, ◌&&◌, List, [], ◌∷◌, Bytes,
  Option, none, some, ℤ, pos, ◌≤ℤ◌, ◌≡◌, is_some, present, if◌then◌else◌, ◌==◌, length, get_last?,
  drop_last, bytes_eq, count, take, ◌-◌, ◌++◌, map, negsuc,
}
use cogs_crash_refresh_job_q.Keys.{pending_key, leased_key, retry_key}

-- The keyspace, family by family: an absent list is empty, any other absent entry is `none`.
pub record View : Type 0 where
  pub lists : Bytes → List Bytes
  pub zsets : Bytes → Bytes → Option ℤ
  pub hashes : Bytes → Field → Option Value
  pub strings : Bytes → Option Bytes

abbrev pub at {ℓ} : {A : Type ℓ} → (Bytes → A) → Bytes → A → Bytes → A
at f k a j = if bytes_eq k j then a else f j

abbrev pub at_member {ℓ} :
    {A : Type ℓ} → (Bytes → Bytes → A) → Bytes → Bytes → A → Bytes → Bytes → A
at_member f k m a j x = if bytes_eq k j && bytes_eq m x then a else f j x

abbrev pub at_field {ℓ} : {A : Type ℓ} → (Bytes → Field → A) → Bytes → Field → A → Bytes → Field → A
at_field f k m a j x = if bytes_eq k j && field_eq m x then a else f j x

-- The integer that HINCRBY starts from; `none` for a text.
abbrev pub as_int : Option Value → Option ℕ
as_int none = some 0
as_int (some (int n)) = some n
as_int (some (text t)) = none

-- The reply to SET with NX: refused for an expiry of 0, nil if the key exists.
pub data SetReply : Type 0 where
  invalid_expire nil done : SetReply

abbrev pub set_reply : ℕ → Option Bytes → SetReply
set_reply ttl old = if ttl == 0 then invalid_expire else if is_some old then nil else done

abbrev pub stored : SetReply → Bytes → Bytes → View → View
stored done k v s = record s { strings = at s.strings k (some v) }
stored nil k v s = s
stored invalid_expire k v s = s

-- The part of a list from its start to a stop that counts from the end if it is negative.
abbrev pub upto : ℤ → List Bytes → List Bytes
upto (pos n) l = take (n + 1) l
upto (negsuc n) l = take (length l - n) l

abbrev pub score_of : Bytes → List (Bytes × ℤ) → Option ℤ
score_of m [] = none
score_of m ((x, s) ∷ l) = if bytes_eq x m then some s else score_of m l

-- The rounds of a SCAN loop: each gives keys and the next cursor, and 0 ends it.
unfoldable pub scan_rounds : (ℕ → List Bytes × ℕ) → ℕ → ℕ → Option (List Bytes)
scan_rounds page zero cursor = none
scan_rounds page (suc fuel) cursor =
    let (keys, next) = page cursor in
    let rest = scan_rounds page fuel next in
    if next == 0 then some keys else elim rest [ none ↦ none | some l ↦ some (keys ++ l) ]

-- The patterns of the program's SCANs: `queue:*` and then one of three ends.
pub data Pattern : Type 0 where
  pending_keys leased_keys retry_keys : Pattern

-- A key that the pattern matches.
abbrev pub pattern_key : Pattern → Bytes → Bytes
pattern_key pending_keys q = pending_key q
pattern_key leased_keys q = leased_key q
pattern_key retry_keys q = retry_key q

pub record Redis : Type 1 where
  pub Db : Type 0
  pub view : Db → View
  pub lpush : Bytes → Bytes → Db → Db
  pub rpop : Bytes → Db → Option Bytes × Db
  pub zadd : Bytes → ℤ → Bytes → Db → Db
  pub zrem : Bytes → Bytes → Db → ℕ × Db
  pub hset : Bytes → Field → Value → Db → Db
  pub hincrby : Bytes → Field → ℕ → Db → Result ℕ × Db
  pub del : Bytes → Db → Db
  pub set_nx : Bytes → Bytes → ℕ → Db → SetReply × Db
  pub pexpire : Bytes → ℕ → Db → ℕ × Db
  pub expire : Bytes → Db → Db
  pub lrange : Bytes → ℤ → Db → List Bytes
  pub llen : Bytes → Db → ℕ
  pub zcard : Bytes → Db → ℕ
  pub zrange : Bytes → Db → List (Bytes × ℤ)
  pub hgetall : Bytes → Db → Field → Option Value
  pub scan : ℕ → Pattern → Db → List Bytes × ℕ
  pub zscore : Bytes → Bytes → Db → Option ℤ
  pub hget : Bytes → Field → Db → Option Value
  pub get : Bytes → Db → Option Bytes
  pub zrange_by_score : Bytes → ℤ → ℕ → Db → List Bytes
  pub view-lpush :
      (k v : Bytes) (d : Db)
      → view (lpush k v d) ≡ record (view d) { lists = at (view d).lists k (v ∷ (view d).lists k) }
  pub rpop_reply : (k : Bytes) (d : Db) → (rpop k d).0 ≡ get_last? ((view d).lists k)
  pub view-rpop :
      (k : Bytes) (d : Db)
      → view (rpop k d).1
        ≡ record (view d) { lists = at (view d).lists k (drop_last ((view d).lists k)) }
  pub view-zadd :
      (k : Bytes) (s : ℤ) (m : Bytes) (d : Db)
      → view (zadd k s m d) ≡ record (view d) { zsets = at_member (view d).zsets k m (some s) }
  pub zrem_reply : (k m : Bytes) (d : Db) → (zrem k m d).0 ≡ present ((view d).zsets k m)
  pub view-zrem :
      (k m : Bytes) (d : Db)
      → view (zrem k m d).1 ≡ record (view d) { zsets = at_member (view d).zsets k m none }
  pub view-hset :
      (k : Bytes) (f : Field) (v : Value) (d : Db)
      → view (hset k f v d) ≡ record (view d) { hashes = at_field (view d).hashes k f (some v) }
  -- Of a field that holds no integer the program relies on nothing.
  pub hincrby_reply :
      (k : Bytes) (f : Field) (n : ℕ) (d : Db) {m : ℕ}
      → as_int ((view d).hashes k f) ≡ some m
      → (hincrby k f n d).0 ≡ ok (m + n)
  pub view-hincrby :
      (k : Bytes) (f : Field) (n : ℕ) (d : Db) {m : ℕ}
      → as_int ((view d).hashes k f) ≡ some m
      → view (hincrby k f n d).1
        ≡ record (view d) { hashes = at_field (view d).hashes k f (some (int (m + n))) }
  pub view-del :
      (k : Bytes) (d : Db)
      → view (del k d) ≡ record {
        lists = at (view d).lists k [];
        zsets = at (view d).zsets k (λ m. none);
        hashes = at (view d).hashes k (λ f. none);
        strings = at (view d).strings k none;
      }
  pub set_nx_reply :
      (k v : Bytes) (ttl : ℕ) (d : Db) → (set_nx k v ttl d).0 ≡ set_reply ttl ((view d).strings k)
  pub view-set_nx :
      (k v : Bytes) (ttl : ℕ) (d : Db)
      → view (set_nx k v ttl d).1 ≡ stored (set_reply ttl ((view d).strings k)) k v (view d)
  -- PEXPIRE with a positive time, on a string.
  pub pexpire_reply :
      (k : Bytes) (ttl : ℕ) (d : Db) → 0 < ttl → (pexpire k ttl d).0 ≡ present ((view d).strings k)
  pub view-pexpire : (k : Bytes) (ttl : ℕ) (d : Db) → 0 < ttl → view (pexpire k ttl d).1 ≡ view d
  -- What the passing of time does to a string with an expiry.
  pub view-expire :
      (k : Bytes) (d : Db)
      → view (expire k d) ≡ record (view d) { strings = at (view d).strings k none }
  pub lrange_reply :
      (k : Bytes) (stop : ℤ) (d : Db) → lrange k stop d ≡ upto stop ((view d).lists k)
  pub llen_reply : (k : Bytes) (d : Db) → llen k d ≡ length ((view d).lists k)
  -- ZCARD is the number of members, and ZRANGE 0 -1 WITHSCORES lists them.
  pub zcard_reply : (k : Bytes) (d : Db) → zcard k d ≡ length (zrange k d)
  pub zrange_reply : (k m : Bytes) (d : Db) → score_of m (zrange k d) ≡ (view d).zsets k m
  pub zrange_members :
      (k m : Bytes) (d : Db) → count m (map (λ e. e.0) (zrange k d)) ≡ present ((view d).zsets k m)
  pub hgetall_reply : (k : Bytes) (f : Field) (d : Db) → hgetall k d f ≡ (view d).hashes k f
  -- A SCAN loop ends, and has given every key of the pattern that holds a list or sorted set.
  pub scan_ends :
      (p : Pattern) (d : Db)
      → (fuel : ℕ) × (keys : List Bytes) × (scan_rounds (λ c. scan c p d) fuel 0 ≡ some keys)
  pub scan_lists :
      (p : Pattern) (q id : Bytes) (d : Db) (fuel : ℕ) (keys : List Bytes)
      → scan_rounds (λ c. scan c p d) fuel 0 ≡ some keys
      → 1 ≤ count id ((view d).lists (pattern_key p q))
      → 1 ≤ count (pattern_key p q) keys
  pub scan_zsets :
      (p : Pattern) (q id : Bytes) (d : Db) (fuel : ℕ) (keys : List Bytes)
      → scan_rounds (λ c. scan c p d) fuel 0 ≡ some keys
      → 1 ≤ present ((view d).zsets (pattern_key p q) id)
      → 1 ≤ count (pattern_key p q) keys
  pub zscore_reply : (k m : Bytes) (d : Db) → zscore k m d ≡ (view d).zsets k m
  pub hget_reply : (k : Bytes) (f : Field) (d : Db) → hget k f d ≡ (view d).hashes k f
  pub get_reply : (k : Bytes) (d : Db) → get k d ≡ (view d).strings k
  -- ZRANGEBYSCORE -inf now LIMIT 0 limit: distinct members that are due, at most `limit` of them,
  -- and all of them if there are fewer.
  pub zrange_once :
      (k m : Bytes) (now : ℤ) (limit : ℕ) (d : Db) → count m (zrange_by_score k now limit d) ≤ 1
  pub zrange_due :
      (k m : Bytes) (now : ℤ) (limit : ℕ) (d : Db)
      → 1 ≤ count m (zrange_by_score k now limit d)
      → (s : ℤ) × ((view d).zsets k m ≡ some s) × (s ≤ℤ now)
  pub zrange_limit :
      (k : Bytes) (now : ℤ) (limit : ℕ) (d : Db) → length (zrange_by_score k now limit d) ≤ limit
  pub zrange_all :
      (k m : Bytes) (now : ℤ) (limit : ℕ) (d : Db) (s : ℤ)
      → length (zrange_by_score k now limit d) < limit
      → (view d).zsets k m ≡ some s
      → s ≤ℤ now
      → 1 ≤ count m (zrange_by_score k now limit d)
