-- ===== src/Keys/Layout.antt =====
-- The keys of internal/cogs/job.go and scheduler.go never meet: two different names of a list, a
-- sorted set, a hash or a marker are two different keys, whatever bytes a queue name holds.
use mathlib.Core.List.{
  reverse, reverse-append, append_assoc, append_cancel_left, append_cancel_right,
}
use mathlib.Core.Bool.{false≢true}
use cogs_crash_refresh_job_q.Prelude.{
  ℕ, zero, suc, ◌+◌, ◌==◌, if◌then◌else◌, true, false, [], ◌∷◌, ◌++◌, Bytes, codes, ◌≡◌, refl, ◌≢◌,
  sym, ap, ◌∙◌, inl, inr, arith, Bool-cases, bytes_eq, bytes_eq_refl, bytes_eq_ne, bytes_eq_iff,
}
use cogs_crash_refresh_job_q.Keys.{
  job_key, pending_key, leased_key, retry_key, dead_key, idem_key, leader_key, schedule_key,
  schedules_key,
}

-- What a key of the layout is the name of.
pub data KeyName : Type 0 where
  job schedule idem pending leased retry dead : Bytes → KeyName
  leader schedules : KeyName

unfoldable pub key_bytes : KeyName → Bytes
key_bytes (job id) = job_key id
key_bytes (schedule id) = schedule_key id
key_bytes (idem key) = idem_key key
key_bytes (pending q) = pending_key q
key_bytes (leased q) = leased_key q
key_bytes (retry q) = retry_key q
key_bytes (dead q) = dead_key q
key_bytes leader = leader_key
key_bytes schedules = schedules_key

-- The byte at a position, 0 past the end.
abbrev byte_at : Bytes → ℕ → ℕ
byte_at [] i = 0
byte_at (x ∷ xs) zero = x
byte_at (x ∷ xs) (suc i) = byte_at xs i

-- The bytes that tell the names apart: the first, for "schedule" and "schedules" the ninth, and
-- for the keys of a queue the last but one.
tag : Bytes → ℕ
tag k =
    if byte_at k 0 == b'q'
    then 1000 + byte_at (reverse k) 1
    else if byte_at k 0 == b's'
    then byte_at k 8
    else byte_at k 0

-- The end of a queue's key.
reverse_queue :
    (q s : Bytes) → reverse (codes "queue:" ++ q ++ s) ≡ reverse s ++ reverse (codes "queue:" ++ q)
reverse_queue q s =
    ap reverse (sym (append_assoc (codes "queue:") q s)) ∙ reverse-append (codes "queue:" ++ q) s

abbrev name_tag : KeyName → ℕ
name_tag (job id) = b'j'
name_tag (schedule id) = b':'
name_tag (idem key) = b'i'
name_tag (pending q) = 1000 + b'n'
name_tag (leased q) = 1000 + b'e'
name_tag (retry q) = 1000 + b'r'
name_tag (dead q) = 1000 + b'a'
name_tag leader = b'c'
name_tag schedules = b's'

tag-key_bytes : (k : KeyName) → tag (key_bytes k) ≡ name_tag k
unfolding tag key_bytes job_key pending_key leased_key retry_key dead_key idem_key leader_key
    schedule_key schedules_key
tag-key_bytes (job id) = refl
tag-key_bytes (schedule id) = refl
tag-key_bytes (idem key) = refl
tag-key_bytes (pending q) = rw (reverse_queue q (codes ":pending")) refl
tag-key_bytes (leased q) = rw (reverse_queue q (codes ":leased")) refl
tag-key_bytes (retry q) = rw (reverse_queue q (codes ":retry")) refl
tag-key_bytes (dead q) = rw (reverse_queue q (codes ":dead")) refl
tag-key_bytes leader = refl
tag-key_bytes schedules = refl

same_queue : (p q s : Bytes) → codes "queue:" ++ p ++ s ≡ codes "queue:" ++ q ++ s → p ≡ q
same_queue p q s e = append_cancel_right p q s (append_cancel_left (codes "queue:") _ _ e)

same_tag : (a b : KeyName) → key_bytes a ≡ key_bytes b → name_tag a ≡ name_tag b
same_tag a b e = sym (tag-key_bytes a) ∙ ap tag e ∙ tag-key_bytes b

-- Two names with the same key are the same name.
pub key_bytes_inj : (a b : KeyName) → key_bytes a ≡ key_bytes b → a ≡ b
unfolding key_bytes job_key pending_key leased_key retry_key dead_key idem_key schedule_key
key_bytes_inj (job x) (job y) e = ap job (append_cancel_left (codes "job:") x y e)
key_bytes_inj (schedule x) (schedule y) e =
    ap schedule (append_cancel_left (codes "schedule:") x y e)
key_bytes_inj (idem x) (idem y) e = ap idem (append_cancel_left (codes "idem:") x y e)
key_bytes_inj (pending p) (pending q) e = ap pending (same_queue p q (codes ":pending") e)
key_bytes_inj (leased p) (leased q) e = ap leased (same_queue p q (codes ":leased") e)
key_bytes_inj (retry p) (retry q) e = ap retry (same_queue p q (codes ":retry") e)
key_bytes_inj (dead p) (dead q) e = ap dead (same_queue p q (codes ":dead") e)
key_bytes_inj leader leader e = refl
key_bytes_inj schedules schedules e = refl
key_bytes_inj a b e = absurd (let t = same_tag a b e in omega arith)

-- The equality test on keys, name by name: what the proofs about the scripts compute with.
same_test : (x y u v : Bytes) → (x ≡ y → u ≡ v) → (u ≡ v → x ≡ y) → bytes_eq x y ≡ bytes_eq u v
same_test x y u v f g = elim (Bool-cases (bytes_eq u v)) [
  | inl h ↦ (bytes_eq_iff x y).1 (g ((bytes_eq_iff u v).0 h)) ∙ sym h
  | inr h ↦ bytes_eq_ne x y (λ e. false≢true (sym h ∙ (bytes_eq_iff u v).1 (f e))) ∙ sym h
]

pub distinct : (a b : KeyName) → a ≢ b → bytes_eq (key_bytes a) (key_bytes b) ≡ false
distinct a b h = bytes_eq_ne _ _ (λ e. h (key_bytes_inj a b e))

pub pending_key_same : (p q : Bytes) → bytes_eq (pending_key p) (pending_key q) ≡ bytes_eq p q
unfolding key_bytes
pending_key_same p q =
    same_test _ _ p q (λ e. cc (key_bytes_inj (pending p) (pending q) e)) (λ e. ap pending_key e)

pub leased_key_same : (p q : Bytes) → bytes_eq (leased_key p) (leased_key q) ≡ bytes_eq p q
unfolding key_bytes
leased_key_same p q =
    same_test _ _ p q (λ e. cc (key_bytes_inj (leased p) (leased q) e)) (λ e. ap leased_key e)

pub retry_key_same : (p q : Bytes) → bytes_eq (retry_key p) (retry_key q) ≡ bytes_eq p q
unfolding key_bytes
retry_key_same p q =
    same_test _ _ p q (λ e. cc (key_bytes_inj (retry p) (retry q) e)) (λ e. ap retry_key e)

pub dead_key_same : (p q : Bytes) → bytes_eq (dead_key p) (dead_key q) ≡ bytes_eq p q
unfolding key_bytes
dead_key_same p q =
    same_test _ _ p q (λ e. cc (key_bytes_inj (dead p) (dead q) e)) (λ e. ap dead_key e)

pub job_key_same : (p q : Bytes) → bytes_eq (job_key p) (job_key q) ≡ bytes_eq p q
unfolding key_bytes
job_key_same p q = same_test _ _ p q (λ e. cc (key_bytes_inj (job p) (job q) e)) (λ e. ap job_key e)

pub schedule_key_same : (p q : Bytes) → bytes_eq (schedule_key p) (schedule_key q) ≡ bytes_eq p q
unfolding key_bytes
schedule_key_same p q =
    same_test _ _ p q (λ e. cc (key_bytes_inj (schedule p) (schedule q) e)) (λ e. ap schedule_key e)

pub idem_key_same : (p q : Bytes) → bytes_eq (idem_key p) (idem_key q) ≡ bytes_eq p q
unfolding key_bytes
idem_key_same p q =
    same_test _ _ p q (λ e. cc (key_bytes_inj (idem p) (idem q) e)) (λ e. ap idem_key e)

pub pending-dead : (p q : Bytes) → bytes_eq (pending_key p) (dead_key q) ≡ false
unfolding key_bytes
pending-dead p q = distinct (pending p) (dead q) (λ e. cc)

pub dead-pending : (p q : Bytes) → bytes_eq (dead_key p) (pending_key q) ≡ false
unfolding key_bytes
dead-pending p q = distinct (dead p) (pending q) (λ e. cc)

pub leased-retry : (p q : Bytes) → bytes_eq (leased_key p) (retry_key q) ≡ false
unfolding key_bytes
leased-retry p q = distinct (leased p) (retry q) (λ e. cc)

pub retry-leased : (p q : Bytes) → bytes_eq (retry_key p) (leased_key q) ≡ false
unfolding key_bytes
retry-leased p q = distinct (retry p) (leased q) (λ e. cc)

pub leased-schedules : (p : Bytes) → bytes_eq (leased_key p) schedules_key ≡ false
unfolding key_bytes
leased-schedules p = distinct (leased p) schedules (λ e. cc)

pub schedules-leased : (q : Bytes) → bytes_eq schedules_key (leased_key q) ≡ false
unfolding key_bytes
schedules-leased q = distinct schedules (leased q) (λ e. cc)

pub retry-schedules : (p : Bytes) → bytes_eq (retry_key p) schedules_key ≡ false
unfolding key_bytes
retry-schedules p = distinct (retry p) schedules (λ e. cc)

pub schedules-retry : (q : Bytes) → bytes_eq schedules_key (retry_key q) ≡ false
unfolding key_bytes
schedules-retry q = distinct schedules (retry q) (λ e. cc)

pub job-schedule : (p q : Bytes) → bytes_eq (job_key p) (schedule_key q) ≡ false
unfolding key_bytes
job-schedule p q = distinct (job p) (schedule q) (λ e. cc)

pub schedule-job : (p q : Bytes) → bytes_eq (schedule_key p) (job_key q) ≡ false
unfolding key_bytes
schedule-job p q = distinct (schedule p) (job q) (λ e. cc)

pub idem-leader : (p : Bytes) → bytes_eq (idem_key p) leader_key ≡ false
unfolding key_bytes
idem-leader p = distinct (idem p) leader (λ e. cc)

pub leader_idem : (q : Bytes) → bytes_eq leader_key (idem_key q) ≡ false
unfolding key_bytes
leader_idem q = distinct leader (idem q) (λ e. cc)

pub ruleset key_laws = (
  bytes_eq_refl, pending_key_same, leased_key_same, retry_key_same, dead_key_same, job_key_same,
  schedule_key_same, idem_key_same, pending-dead, dead-pending, leased-retry, retry-leased,
  leased-schedules, schedules-leased, retry-schedules, schedules-retry, job-schedule, schedule-job,
  idem-leader, leader_idem,
)
