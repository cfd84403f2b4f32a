-- ===== src/Redis/Memory.antt =====
-- A Redis that keeps its writes in a log: the commands read what the log amounts to. It shows that
-- the laws of a `Redis` can hold, and runs the scripts on concrete data.
pub mod Lists
pub mod Server
use cogs_crash_refresh_job_q.Prelude.{
  ℕ, zero, suc, ◌+◌, ◌-◌, ◌≤◌, ◌<◌, Bool, true, false, ◌&&◌, List, [], ◌∷◌, ◌++◌, map, Bytes,
  Option, none, some, ℤ, pos, ◌≤ℤ◌, leb_ℤ, ◌≡◌, refl, ap, sym, ◌∙◌, present, is_some, if◌then◌else◌,
  ◌==◌, length, take, get_last?, drop_last, bytes_eq, bytes_eq_sound, bytes_eq_refl, count, arith,
}
use cogs_crash_refresh_job_q.Results.{Result, ok, err, redis_failed}
use cogs_crash_refresh_job_q.Redis.{
  Redis, View, Field, Value, int, at, at_member, at_field, as_int, SetReply, nil, done,
  invalid_expire, set_reply, stored, upto, score_of, scan_rounds, Pattern, pattern_key,
}

pub data Write : Type 0 where
  set_list : Bytes → List Bytes → Write
  set_member : Bytes → Bytes → Option ℤ → Write
  set_field : Bytes → Field → Value → Write
  set_string : Bytes → Option Bytes → Write
  deleted : Bytes → Write

abbrev pub Log : Type 0
Log = List Write

abbrev written : Write → View → View
written (set_list k l) v = record v { lists = at v.lists k l }
written (set_member k m s) v = record v { zsets = at_member v.zsets k m s }
written (set_field k f x) v = record v { hashes = at_field v.hashes k f (some x) }
written (set_string k s) v = record v { strings = at v.strings k s }
written (deleted k) v = record {
  lists = at v.lists k [];
  zsets = at v.zsets k (λ m. none);
  hashes = at v.hashes k (λ f. none);
  strings = at v.strings k none;
}

abbrev pub view_of : Log → View
view_of [] = record {
  lists = λ k. [];
  zsets = λ k m. none;
  hashes = λ k f. none;
  strings = λ k. none;
}
view_of (w ∷ log) = written w (view_of log)

-- Without a member.
unfoldable without : Bytes → List (Bytes × ℤ) → List (Bytes × ℤ)
without m [] = []
without m ((x, s) ∷ l) = if bytes_eq m x then without m l else (x, s) ∷ without m l

-- The members of a sorted set.
unfoldable pub members : Bytes → Log → List (Bytes × ℤ)
unfolding without
members k [] = []
members k (set_member j m none ∷ log) =
    if bytes_eq j k then without m (members k log) else members k log
members k (set_member j m (some s) ∷ log) =
    if bytes_eq j k then (m, s) ∷ without m (members k log) else members k log
members k (deleted j ∷ log) = if bytes_eq j k then [] else members k log
members k (w ∷ log) = members k log

abbrev pub names : List (Bytes × ℤ) → List Bytes
names l = map (λ e. e.0) l

score_of-without :
    (m x : Bytes) (l : List (Bytes × ℤ))
    → score_of x (without m l) ≡ (if bytes_eq m x then none else score_of x l)
unfolding without
score_of-without m x [] = ground arith
score_of-without m x ((y, s) ∷ l) =
    ground (arith, score_of-without m x l, bytes_eq_sound m y, bytes_eq_sound y x, bytes_eq_refl m)

count-without :
    (m x : Bytes) (l : List (Bytes × ℤ))
    → count x (names (without m l)) ≡ (if bytes_eq m x then 0 else count x (names l))
unfolding without count
count-without m x [] = ground arith
count-without m x ((y, s) ∷ l) =
    ground (arith, count-without m x l, bytes_eq_sound m y, bytes_eq_sound y x, bytes_eq_refl m)

pub score_of-members :
    (k m : Bytes) (log : Log) → score_of m (members k log) ≡ (view_of log).zsets k m
unfolding members
score_of-members k m [] = refl
score_of-members k m (set_member j x none ∷ log) =
    ground (arith, score_of-members k m log, score_of-without x m (members k log))
score_of-members k m (set_member j x (some s) ∷ log) =
    ground (arith, score_of-members k m log, score_of-without x m (members k log))
score_of-members k m (deleted j ∷ log) = ground (arith, score_of-members k m log)
score_of-members k m (set_list j l ∷ log) = score_of-members k m log
score_of-members k m (set_field j f x ∷ log) = score_of-members k m log
score_of-members k m (set_string j s ∷ log) = score_of-members k m log

pub count-members :
    (k m : Bytes) (log : Log) → count m (names (members k log)) ≡ present ((view_of log).zsets k m)
unfolding members count
count-members k m [] = refl
count-members k m (set_member j x none ∷ log) = ground (
  arith,
  count-members k m log,
  count-without x m (members k log),
  bytes_eq_refl k,
  bytes_eq_sound j k,
)
count-members k m (set_member j x (some s) ∷ log) = ground (
  arith,
  count-members k m log,
  count-without x m (members k log),
  bytes_eq_refl k,
  bytes_eq_sound j k,
)
count-members k m (deleted j ∷ log) = ground (arith, count-members k m log)
count-members k m (set_list j l ∷ log) = count-members k m log
count-members k m (set_field j f x ∷ log) = count-members k m log
count-members k m (set_string j s ∷ log) = count-members k m log
