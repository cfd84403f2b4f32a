-- ===== src/Sdk/Pool/Heartbeat.antt =====
-- The heartbeat that `Run` takes from a claim's response.
use native.Mathlib.Nat.{div-mul-le_self, le-div_iff_mul-le, le-mul_of_pos_right}
use cogs_crash_refresh_job_q.Prelude.{
  ℕ, ◌*◌, ◌/◌, ◌%◌, ◌^◌, ◌≤◌, ◌<◌, List, pos, ◌≡◌, refl, arith, ◌==◌, false,
}
use cogs_crash_refresh_job_q.Store.{Config, Job, milliseconds}
use cogs_crash_refresh_job_q.Api.{claimed, answer, claim_response}
use cogs_crash_refresh_job_q.Api.Parse.{duration_ms}
use cogs_crash_refresh_job_q.Sdk.Pool.{heartbeat_of}

-- A positive number of milliseconds that does not overflow.
heartbeat_of-small :
    (ms : ℕ) → 1 ≤ ms → ms * 1000000 < 2 ^ 63 → heartbeat_of ms ≡ pos (ms * 1000000)
unfolding heartbeat_of duration_ms
heartbeat_of-small ms some_time small =
    let same : ms * 1000000 % 2 ^ 64 ≡ ms * 1000000 = omega arith in rw same (ground arith)

-- If the lease has as many milliseconds as the divisor, and is less than 292 years, then the
-- heartbeat that a client takes from the response to a claim is positive, and as many of them as
-- the divisor says fit into the lease.
pub heartbeat_fits :
    (cfg : Config) (jobs : List Job)
    → 1 ≤ cfg.heartbeat_divisor
    → cfg.heartbeat_divisor ≤ milliseconds cfg.lease_ttl
    → cfg.lease_ttl < 2 ^ 63
    → (ms h : ℕ) × (claim_response cfg jobs
        ≡ answer 200 (claimed jobs (milliseconds cfg.lease_ttl) ms))
      × (heartbeat_of ms ≡ pos h)
      × (1 ≤ h)
      × (h * cfg.heartbeat_divisor ≤ cfg.lease_ttl)
unfolding claim_response
heartbeat_fits cfg jobs some_divisor long small =
    let ttl = milliseconds cfg.lease_ttl in
    let k = cfg.heartbeat_divisor in
    let ms = ttl / k in
    let fits : ms * k ≤ ttl = div-mul-le_self ttl k in
    let one : 1 ≤ ms = (le-div_iff_mul-le some_divisor).1 (omega arith) in
    let grows : ms ≤ ms * k = le-mul_of_pos_right ms some_divisor in
    let regroup : ms * 1000000 * k ≡ ms * k * 1000000 = grind arith in
    let no_zero : (k == 0) ≡ false = ground arith in
    (
      ms,
      ms * 1000000,
      rw no_zero refl,
      heartbeat_of-small ms one (omega (arith, fits, grows)),
      omega (arith, one),
      omega (arith, fits, regroup),
    )
