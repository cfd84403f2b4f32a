-- ===== src/Keys/Families.antt =====
-- The keys that the scripts delete, against all others: DEL takes a key of any type.
use cogs_crash_refresh_job_q.Prelude.{false, Bytes, ◌≡◌, bytes_eq}
use cogs_crash_refresh_job_q.Keys.{
  job_key, pending_key, leased_key, retry_key, dead_key, idem_key, leader_key, schedule_key,
  schedules_key,
}
use cogs_crash_refresh_job_q.Keys.Layout.{
  job, schedule, idem, pending, leased, retry, dead, leader, schedules, key_bytes, distinct,
}

pub job_idem : (p q : Bytes) → bytes_eq (job_key p) (idem_key q) ≡ false
unfolding key_bytes
job_idem p q = distinct (job p) (idem q) (λ e. cc)

pub job-pending : (p q : Bytes) → bytes_eq (job_key p) (pending_key q) ≡ false
unfolding key_bytes
job-pending p q = distinct (job p) (pending q) (λ e. cc)

pub job-leased : (p q : Bytes) → bytes_eq (job_key p) (leased_key q) ≡ false
unfolding key_bytes
job-leased p q = distinct (job p) (leased q) (λ e. cc)

pub job-retry : (p q : Bytes) → bytes_eq (job_key p) (retry_key q) ≡ false
unfolding key_bytes
job-retry p q = distinct (job p) (retry q) (λ e. cc)

pub job-dead : (p q : Bytes) → bytes_eq (job_key p) (dead_key q) ≡ false
unfolding key_bytes
job-dead p q = distinct (job p) (dead q) (λ e. cc)

pub job-leader : (p : Bytes) → bytes_eq (job_key p) leader_key ≡ false
unfolding key_bytes
job-leader p = distinct (job p) leader (λ e. cc)

pub job-schedules : (p : Bytes) → bytes_eq (job_key p) schedules_key ≡ false
unfolding key_bytes
job-schedules p = distinct (job p) schedules (λ e. cc)

pub schedule_idem : (p q : Bytes) → bytes_eq (schedule_key p) (idem_key q) ≡ false
unfolding key_bytes
schedule_idem p q = distinct (schedule p) (idem q) (λ e. cc)

pub schedule-pending : (p q : Bytes) → bytes_eq (schedule_key p) (pending_key q) ≡ false
unfolding key_bytes
schedule-pending p q = distinct (schedule p) (pending q) (λ e. cc)

pub schedule-leased : (p q : Bytes) → bytes_eq (schedule_key p) (leased_key q) ≡ false
unfolding key_bytes
schedule-leased p q = distinct (schedule p) (leased q) (λ e. cc)

pub schedule-retry : (p q : Bytes) → bytes_eq (schedule_key p) (retry_key q) ≡ false
unfolding key_bytes
schedule-retry p q = distinct (schedule p) (retry q) (λ e. cc)

pub schedule-dead : (p q : Bytes) → bytes_eq (schedule_key p) (dead_key q) ≡ false
unfolding key_bytes
schedule-dead p q = distinct (schedule p) (dead q) (λ e. cc)

pub schedule-leader : (p : Bytes) → bytes_eq (schedule_key p) leader_key ≡ false
unfolding key_bytes
schedule-leader p = distinct (schedule p) leader (λ e. cc)

pub schedule-schedules : (p : Bytes) → bytes_eq (schedule_key p) schedules_key ≡ false
unfolding key_bytes
schedule-schedules p = distinct (schedule p) schedules (λ e. cc)

pub leader-job : (q : Bytes) → bytes_eq leader_key (job_key q) ≡ false
unfolding key_bytes
leader-job q = distinct leader (job q) (λ e. cc)

pub leader-schedule : (q : Bytes) → bytes_eq leader_key (schedule_key q) ≡ false
unfolding key_bytes
leader-schedule q = distinct leader (schedule q) (λ e. cc)

pub leader-pending : (q : Bytes) → bytes_eq leader_key (pending_key q) ≡ false
unfolding key_bytes
leader-pending q = distinct leader (pending q) (λ e. cc)

pub leader-leased : (q : Bytes) → bytes_eq leader_key (leased_key q) ≡ false
unfolding key_bytes
leader-leased q = distinct leader (leased q) (λ e. cc)

pub leader-retry : (q : Bytes) → bytes_eq leader_key (retry_key q) ≡ false
unfolding key_bytes
leader-retry q = distinct leader (retry q) (λ e. cc)

pub leader-dead : (q : Bytes) → bytes_eq leader_key (dead_key q) ≡ false
unfolding key_bytes
leader-dead q = distinct leader (dead q) (λ e. cc)

pub leader-schedules : bytes_eq leader_key schedules_key ≡ false
unfolding key_bytes
leader-schedules = distinct leader schedules (λ e. cc)

pub ruleset del_laws = (
  job_idem, job-pending, job-leased, job-retry, job-dead, job-leader, job-schedules, schedule_idem,
  schedule-pending, schedule-leased, schedule-retry, schedule-dead, schedule-leader,
  schedule-schedules, leader-job, leader-schedule, leader-pending, leader-leased, leader-retry,
  leader-dead, leader-schedules,
)
