-- ===== src/Redis/Memory/Server.antt =====
-- The instance: every command on the log, and the laws.
use cogs_crash_refresh_job_q.Prelude.{
  ℕ, zero, suc, ◌+◌, ◌≤◌, ◌<◌, true, List, [], ◌∷◌, Bytes, Option, none, some, ℤ, ◌≡◌, refl, subst,
  sym, ◌∙◌, present, if◌then◌else◌, length, length-take-le, take, get_last?, drop_last, bytes_eq,
  bytes_eq_refl, bytes_eq_sound, count, arith, ◌≤ℤ◌,
}
use cogs_crash_refresh_job_q.Results.{Result, ok, err, redis_failed}
use cogs_crash_refresh_job_q.Keys.{queue_from_key, pending_key, leased_key, retry_key}
use cogs_crash_refresh_job_q.Keys.Names.{queue_from_key_keys}
use cogs_crash_refresh_job_q.Redis.{
  Redis, Field, int, as_int, SetReply, nil, done, invalid_expire, set_reply, stored, upto, Pattern,
  pending_keys, leased_keys, retry_keys, pattern_key, scan_rounds,
}
use cogs_crash_refresh_job_q.Redis.Memory.{
  Log, set_list, set_member, set_field, set_string, deleted, view_of, members, names,
  score_of-members, count-members,
}
use cogs_crash_refresh_job_q.Redis.Memory.Lists.{
  due_of, due_once, due_in, due_all, count-take-le, take_all,
}

-- The keys of the pattern among the written ones.
unfoldable pub keys_of : Pattern → Log → List Bytes
unfolding bytes_eq queue_from_key pending_key leased_key retry_key
keys_of p [] = []
keys_of p (set_list k l ∷ log) =
    let rest = keys_of p log in
    if bytes_eq (pattern_key p (queue_from_key k)) k then k ∷ rest else rest
keys_of p (set_member k m s ∷ log) =
    let rest = keys_of p log in
    if bytes_eq (pattern_key p (queue_from_key k)) k then k ∷ rest else rest
keys_of p (w ∷ log) = keys_of p log

pattern_key_test :
    (p : Pattern) (q : Bytes)
    → bytes_eq (pattern_key p (queue_from_key (pattern_key p q))) (pattern_key p q) ≡ true
pattern_key_test pending_keys q = rw (queue_from_key_keys q).0 (bytes_eq_refl _)
pattern_key_test leased_keys q = rw (queue_from_key_keys q).1 (bytes_eq_refl _)
pattern_key_test retry_keys q = rw (queue_from_key_keys q).2 (bytes_eq_refl _)

key_test :
    (p : Pattern) (q k : Bytes)
    → bytes_eq k (pattern_key p q) ≡ true
    → bytes_eq (pattern_key p (queue_from_key k)) k ≡ true
key_test p q k same =
    subst (λ x. bytes_eq (pattern_key p (queue_from_key x)) x ≡ true)
      (sym (bytes_eq_sound k (pattern_key p q) same)) (pattern_key_test p q)

pub keys_of-lists :
    (p : Pattern) (q id : Bytes) (log : Log)
    → 1 ≤ count id ((view_of log).lists (pattern_key p q))
    → 1 ≤ count (pattern_key p q) (keys_of p log)
unfolding keys_of count
keys_of-lists p q id [] h = absurd (omega arith)
keys_of-lists p q id (set_list k l ∷ log) h =
    ground (arith, key_test p q k, keys_of-lists p q id log)
keys_of-lists p q id (set_member k m s ∷ log) h = ground (arith, keys_of-lists p q id log)
keys_of-lists p q id (deleted k ∷ log) h = ground (arith, keys_of-lists p q id log)
keys_of-lists p q id (set_field j f x ∷ log) h = keys_of-lists p q id log h
keys_of-lists p q id (set_string j s ∷ log) h = keys_of-lists p q id log h

pub keys_of-zsets :
    (p : Pattern) (q id : Bytes) (log : Log)
    → 1 ≤ present ((view_of log).zsets (pattern_key p q) id)
    → 1 ≤ count (pattern_key p q) (keys_of p log)
unfolding keys_of count
keys_of-zsets p q id [] h = absurd (omega arith)
keys_of-zsets p q id (set_list k l ∷ log) h = ground (arith, keys_of-zsets p q id log)
keys_of-zsets p q id (set_member k m s ∷ log) h =
    ground (arith, key_test p q k, keys_of-zsets p q id log)
keys_of-zsets p q id (deleted k ∷ log) h = ground (arith, keys_of-zsets p q id log)
keys_of-zsets p q id (set_field j f x ∷ log) h = keys_of-zsets p q id log h
keys_of-zsets p q id (set_string j s ∷ log) h = keys_of-zsets p q id log h

-- The last element of the list, and the rest.
abbrev pub pop : Bytes → Log → Option Bytes × Log
pop k log =
    (get_last? ((view_of log).lists k), set_list k (drop_last ((view_of log).lists k)) ∷ log)

abbrev pub increment : Option ℕ → Bytes → Field → ℕ → Log → Result ℕ × Log
increment none k f n log = (err redis_failed, log)
increment (some m) k f n log = (ok (m + n), set_field k f (int (m + n)) ∷ log)

abbrev pub store : SetReply → Bytes → Bytes → Log → Log
store done k v log = set_string k (some v) ∷ log
store nil k v log = log
store invalid_expire k v log = log

pub view_of-store :
    (r : SetReply) (k v : Bytes) (log : Log)
    → view_of (store r k v log) ≡ stored r k v (view_of log)
view_of-store done k v log = refl
view_of-store nil k v log = refl
view_of-store invalid_expire k v log = refl

-- The names of the members that are due, at most `limit` of them.
abbrev pub due_names : Bytes → ℤ → ℕ → Log → List Bytes
due_names k now limit log = take limit (due_of now (members k log))

pub members_once : (k m : Bytes) (log : Log) → count m (names (members k log)) ≤ 1
members_once k m log = ground (arith, count-members k m log)

pub due_names-all :
    (k m : Bytes) (now : ℤ) (limit : ℕ) (log : Log) (s : ℤ)
    → length (due_names k now limit log) < limit
    → (view_of log).zsets k m ≡ some s
    → s ≤ℤ now
    → 1 ≤ count m (due_names k now limit log)
due_names-all k m now limit log s few e le =
    rw (take_all limit _ few) (due_all now m (members k log) s (score_of-members k m log ∙ e) le)

pub due_names-due :
    (k m : Bytes) (now : ℤ) (limit : ℕ) (log : Log)
    → 1 ≤ count m (due_names k now limit log)
    → (s : ℤ) × ((view_of log).zsets k m ≡ some s) × (s ≤ℤ now)
due_names-due k m now limit log h =
    let (s, e, le) =
      due_in now m (members k log) (members_once k m log)
        (omega (arith, count-take-le m limit (due_of now (members k log)))) in
    (s, sym (score_of-members k m log) ∙ e, le)

-- The whole list of keys is one round of a SCAN loop.
pub one_round :
    (p : Pattern) (log : Log) (fuel : ℕ) (keys : List Bytes)
    → scan_rounds (λ c. (keys_of p log, 0)) fuel 0 ≡ some keys
    → keys ≡ keys_of p log
unfolding scan_rounds
one_round p log zero keys h = cc
one_round p log (suc fuel) keys h = cc

pub scans_once :
    (p : Pattern) (log : Log) → scan_rounds (λ c. (keys_of p log, 0)) 1 0 ≡ some (keys_of p log)
unfolding scan_rounds
scans_once p log = refl

-- A Redis in memory.
abbrev pub memory : Redis
memory = record {
  Db = Log;
  view = view_of;
  lpush = λ k v log. set_list k (v ∷ (view_of log).lists k) ∷ log;
  rpop = pop;
  zadd = λ k s m log. set_member k m (some s) ∷ log;
  zrem = λ k m log. (present ((view_of log).zsets k m), set_member k m none ∷ log);
  hset = λ k f v log. set_field k f v ∷ log;
  hincrby = λ k f n log. increment (as_int ((view_of log).hashes k f)) k f n log;
  del = λ k log. deleted k ∷ log;
  set_nx = λ k v ttl log. (
    set_reply ttl ((view_of log).strings k),
    store (set_reply ttl ((view_of log).strings k)) k v log,
  );
  pexpire = λ k ttl log. (present ((view_of log).strings k), log);
  expire = λ k log. set_string k none ∷ log;
  lrange = λ k stop log. upto stop ((view_of log).lists k);
  llen = λ k log. length ((view_of log).lists k);
  zcard = λ k log. length (members k log);
  zrange = members;
  hgetall = λ k log. (view_of log).hashes k;
  scan = λ cursor p log. (keys_of p log, 0);
  zscore = λ k m log. (view_of log).zsets k m;
  hget = λ k f log. (view_of log).hashes k f;
  get = λ k log. (view_of log).strings k;
  zrange_by_score = due_names;
  view-lpush = λ k v log. refl;
  rpop_reply = λ k log. refl;
  view-rpop = λ k log. refl;
  view-zadd = λ k s m log. refl;
  zrem_reply = λ k m log. refl;
  view-zrem = λ k m log. refl;
  view-hset = λ k f v log. refl;
  hincrby_reply = λ k f n log e. rw e refl;
  view-hincrby = λ k f n log e. rw e refl;
  view-del = λ k log. refl;
  set_nx_reply = λ k v ttl log. refl;
  view-set_nx = λ k v ttl log. view_of-store _ k v log;
  pexpire_reply = λ k ttl log positive. refl;
  view-pexpire = λ k ttl log positive. refl;
  view-expire = λ k log. refl;
  lrange_reply = λ k stop log. refl;
  llen_reply = λ k log. refl;
  zcard_reply = λ k log. refl;
  zrange_reply = score_of-members;
  zrange_members = count-members;
  hgetall_reply = λ k f log. refl;
  scan_ends = λ p log. (1, keys_of p log, scans_once p log);
  scan_lists = λ p q id log fuel keys h there.
      rw (one_round p log fuel keys h) (keys_of-lists p q id log there);
  scan_zsets = λ p q id log fuel keys h there.
      rw (one_round p log fuel keys h) (keys_of-zsets p q id log there);
  zscore_reply = λ k m log. refl;
  hget_reply = λ k f log. refl;
  get_reply = λ k log. refl;
  zrange_once = λ k m now limit log. omega (
    arith,
    count-take-le m limit (due_of now (members k log)),
    due_once now m (members k log) (members_once k m log),
  );
  zrange_due = due_names-due;
  zrange_limit = λ k now limit log. length-take-le limit _;
  zrange_all = λ k m now limit log s few e le. due_names-all k m now limit log s few e le;
}
