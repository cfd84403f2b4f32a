-- ===== src/Store/Backoff.antt =====
-- `Backoff` of internal/cogs/loops.go. Its last step, the product of the delay with a random
-- factor in double precision, is an argument here; Backoff/Jitter has the one that the code takes.
pub mod Jitter
use cogs_crash_refresh_job_q.Prelude.{
  ℕ, ◌*◌, ◌%◌, ◌^◌, ◌≤◌, ◌<◌, ltb, if◌then◌else◌, ℤ, pos, negsuc, from_bits, arith, ◌≡◌, refl,
}
use native.Mathlib.Nat.{pow-le-pow_right, mul-le-mul_left, mod-eq_of_lt}

-- The attempt, kept between 0 and 20.
abbrev pub clamp_attempt : ℤ → ℕ
clamp_attempt (negsuc n) = 0
clamp_attempt (pos n) = if ltb 20 n then 20 else n

-- `base * (1 << uint(attempt))`, on 64 bits.
unfoldable pub nominal : ℕ → ℤ → ℤ
nominal base attempt = from_bits (base * 2 ^ clamp_attempt attempt % 2 ^ 64)

unfoldable pub backoff : ℕ → ℤ → (ℤ → ℤ) → ℤ
unfolding nominal
backoff base attempt scale = scale (nominal base attempt)

clamp_attempt-le : (attempt : ℤ) → clamp_attempt attempt ≤ 20
clamp_attempt-le (negsuc n) = omega arith
clamp_attempt-le (pos n) = ground arith

power_bounds : (a : ℕ) → a ≤ 20 → (1 ≤ 2 ^ a) × (2 ^ a ≤ 2 ^ 20)
power_bounds a h =
    let nonneg : 0 ≤ a = omega arith in
    (pow-le-pow_right {n = 2} (omega arith) nonneg, pow-le-pow_right {n = 2} (omega arith) h)

-- With a base under 2^43 nanoseconds, about two and a half hours, the delay before the jitter does
-- not overflow: it is the base doubled once per attempt, at most 20 times.
pub nominal_bounds :
    (base : ℕ) (attempt : ℤ)
    → base < 2 ^ 43
    → (n : ℕ) × (nominal base attempt ≡ pos n)
      × (n ≡ base * 2 ^ clamp_attempt attempt)
      × (base ≤ n)
      × (n ≤ base * 2 ^ 20)
unfolding nominal
nominal_bounds base attempt h =
    let a = clamp_attempt attempt in
    let (least, most) = power_bounds a (clamp_attempt-le attempt) in
    let low : base * 1 ≤ base * 2 ^ a = mul-le-mul_left base least in
    let high : base * 2 ^ a ≤ base * 2 ^ 20 = mul-le-mul_left base most in
    let small : base * 2 ^ a % 2 ^ 64 ≡ base * 2 ^ a = mod-eq_of_lt (omega (arith, high)) in
    (base * 2 ^ a, rw small (ground (arith, high)), refl, omega (arith, low), high)
