-- ===== src/Keys.antt =====
-- internal/cogs/job.go: the Redis key layout and the names that may stand in it; and
-- `queueFromKey` of internal/cogs/store.go, which reads a queue's name back from a key.
pub mod Layout
pub mod Families
pub mod Names
use cogs_crash_refresh_job_q.Prelude.{
  ℕ, zero, suc, ◌-◌, Bool, true, false, not, ◌&&◌, ◌||◌, List, [], ◌∷◌, ◌++◌, Bytes, codes, Option,
  none, some, ltb, ◌==◌, if◌then◌else◌, length, take, bytes_eq,
}

unfoldable pub job_key : Bytes → Bytes
job_key id = codes "job:" ++ id

unfoldable pub pending_key : Bytes → Bytes
pending_key queue = codes "queue:" ++ queue ++ codes ":pending"

unfoldable pub leased_key : Bytes → Bytes
leased_key queue = codes "queue:" ++ queue ++ codes ":leased"

unfoldable pub retry_key : Bytes → Bytes
retry_key queue = codes "queue:" ++ queue ++ codes ":retry"

unfoldable pub dead_key : Bytes → Bytes
dead_key queue = codes "queue:" ++ queue ++ codes ":dead"

unfoldable pub idem_key : Bytes → Bytes
idem_key key = codes "idem:" ++ key

unfoldable pub leader_key : Bytes
leader_key = codes "cogs:leader"

-- scheduler.go: `scheduleKey` and `schedulesKey`.
unfoldable pub schedule_key : Bytes → Bytes
schedule_key id = codes "schedule:" ++ id

unfoldable pub schedules_key : Bytes
schedules_key = codes "schedules"

-- One byte is among the given ones.
unfoldable pub contains_byte : ℕ → Bytes → Bool
contains_byte c [] = false
contains_byte c (x ∷ xs) = (x == c) || contains_byte c xs

-- `strings.ContainsAny(q, chars)`, for ASCII `chars`.
unfoldable pub contains_any : Bytes → Bytes → Bool
unfolding contains_byte
contains_any [] chars = false
contains_any (x ∷ xs) chars = contains_byte x chars || contains_any xs chars

-- ": \t\r\n{}"
abbrev pub forbidden : Bytes
forbidden = b':' ∷ b' ' ∷ 9 ∷ 13 ∷ 10 ∷ b'{' ∷ b'}' ∷ []

unfoldable pub valid_queue_name : Bytes → Bool
unfolding contains_any bytes_eq
valid_queue_name q =
    if bytes_eq q [] || ltb 128 (length q) then false else not (contains_any q forbidden)

-- The part of `rest` before its last ':', or `none` if it has no ':' (the loop of
-- `queueFromKey`, which runs from the end).
unfoldable pub before_last_colon : Bytes → Option Bytes
before_last_colon [] = none
before_last_colon (x ∷ xs) = elim (before_last_colon xs) [
  | some r ↦ some (x ∷ r)
  | none ↦ if x == b':' then some [] else none
]

-- `k[:6] != "queue:"` and the slice `k[6:]`.
abbrev pub strip_prefix : Bytes → Bytes → Option Bytes
strip_prefix [] k = some k
strip_prefix (p ∷ ps) [] = none
strip_prefix (p ∷ ps) (x ∷ xs) = if x == p then strip_prefix ps xs else none

unfoldable pub queue_from_key : Bytes → Bytes
unfolding before_last_colon
queue_from_key k =
    if ltb (length k) (length (codes "queue::"))
    then []
    else elim (strip_prefix (codes "queue:") k) [
      | none ↦ []
      | some rest ↦ elim (before_last_colon rest) [ none ↦ [] | some q ↦ q ]
    ]
