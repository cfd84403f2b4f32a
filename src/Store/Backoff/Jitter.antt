-- ===== src/Store/Backoff/Jitter.antt =====
-- The random factor of `Backoff` in internal/cogs/loops.go, and its product with the delay, as
-- 64-bit floats: numbers of 53 significant bits, rounded to the nearest and, halfway, to an even
-- last bit. A float stands as a whole number of units of 2^-53.
use native.Mathlib.Nat.{
  pow-suc, le_trans, div-add-mod, mod-lt, mul-le-mul_left, add-zero, mul_comm, mul_assoc,
  mul-le-mul_right, le-div_iff_mul-le, div-mul-le_self, div-div-eq-div-mul, mul-div-mul_right,
  pow-le-pow_right, add-suc, div-one, mod-one, mul-one, le_of_mul-le-mul_left,
}
use cogs_crash_refresh_job_q.Store.Backoff.{clamp_attempt, backoff, nominal_bounds}
use cogs_crash_refresh_job_q.Prelude.{
  ℕ, zero, suc, ◌+◌, ◌-◌, ◌*◌, ◌/◌, ◌%◌, ◌^◌, ◌≤◌, ◌<◌, ltb, if◌then◌else◌, ℤ, pos, negsuc, neg,
  arith, ◌≡◌, refl, ap, sym, subst, ◌∙◌, lt→ltb, Bool-cases, inl, inr,
}

-- x / d to the nearest whole number, and to the even one of two.
half_even : ℕ → ℕ → ℕ
half_even x d =
    if ltb (2 * (x % d)) d
    then x / d
    else if ltb d (2 * (x % d))
    then x / d + 1
    else x / d + x / d % 2

-- Rounded to 53 bits, once the last of them, which stands for 2^k, is found.
round_from : ℕ → ℕ → ℕ → ℕ
unfolding half_even
round_from zero k x = x
round_from (suc fuel) k x =
    let rest = round_from fuel (suc k) x in
    if ltb x (2 ^ 53 * 2 ^ k) then half_even x (2 ^ k) * 2 ^ k else rest

-- Enough for all numbers under 2^117, so for the product of a 64-bit integer and 2^53.
round53 : ℕ → ℕ
unfolding round_from
round53 x = round_from 65 0 x

-- `0.5 + rand.Float64()*0.5`, where the generator gives k / 2^53.
jitter : ℕ → ℕ
unfolding half_even
jitter k = half_even (2 ^ 53 + k) 2

-- `float64(nominal) * jitter`, cut off to a whole number.
scaled : ℕ → ℕ → ℕ
unfolding round53 jitter
scaled k n = round53 (round53 n * jitter k) / 2 ^ 53

unfoldable pub jittered : ℕ → ℤ → ℤ
unfolding scaled
jittered k (pos n) = pos (scaled k n)
jittered k (negsuc n) = neg (scaled k (n + 1))

half_even-ge : (x d : ℕ) → x / d ≤ half_even x d
unfolding half_even
half_even-ge x d = ground arith

half_even-le : (x d c : ℕ) → 0 < d → x ≤ c * d → half_even x d ≤ c
unfolding half_even
half_even-le x d c h le =
    let split = div-add-mod x d in
    let small : x % d < d = mod-lt x h in
    let q = x / d in
    elim (Bool-cases (ltb q c)) [
      | inl below ↦ ground arith
      | inr above ↦
          let same : d * q ≤ d * c = omega (arith, mul_comm c d) in
          let most : q ≤ c = le_of_mul-le-mul_left same h in
          let one : q ≡ c = ground arith in
          let exact : d * q ≡ c * d = ap (λ (t : ℕ). d * t) one ∙ mul_comm d c in ground arith
    ]

pow-split : (k m : ℕ) → 2 ^ m * 2 ^ k ≡ 2 ^ (m + k)
pow-split zero m = rw add-zero (omega arith)
pow-split (suc k) m =
    ap (◌*◌ (2 ^ m)) (pow-suc 2 k)
    ∙ sym (mul_assoc (2 ^ m) (2 ^ k) 2)
    ∙ ap (λ (t : ℕ). t * 2) (pow-split k m)
    ∙ sym (pow-suc 2 (m + k))
    ∙ ap (λ (t : ℕ). 2 ^ t) (sym (add-suc m k))

pow_pos : (i : ℕ) → 0 < 2 ^ i
pow_pos i = let nonneg : 0 ≤ i = omega arith in pow-le-pow_right {n = 2} (omega arith) nonneg

-- Under 2^106 the last bit stands for 2^53 at most.
round_found :
    (fuel k x : ℕ)
    → k ≤ 53
    → 54 ≤ k + fuel
    → x < 2 ^ 106
    → (i : ℕ) × (i ≤ 53) × (round_from fuel k x ≡ half_even x (2 ^ i) * 2 ^ i)
unfolding round_from
round_found zero k x le enough small = absurd (omega arith)
round_found (suc fuel) k x le enough small = elim (Bool-cases (ltb x (2 ^ 53 * 2 ^ k))) [
  | inl found ↦ (k, le, rw found refl)
  | inr larger ↦ elim (Bool-cases (ltb k 53)) [
    | inl more ↦
        let (i, most, e) = round_found fuel (suc k) x (ground arith) (omega arith) small in
        (i, most, rw larger e)
    | inr last ↦
        let at : k ≡ 53 = ground arith in absurd (ground (arith, ap (λ (t : ℕ). 2 ^ 53 * 2 ^ t) at))
  ]
]

half_even-one : (n : ℕ) → half_even n 1 ≡ n
unfolding half_even
half_even-one n = ground (arith, div-one n, mod-one n)

round53-exact : (n : ℕ) → n < 2 ^ 53 → round53 n ≡ n
unfolding round53
round53-exact n h = rw (lt→ltb n (2 ^ 53) h) (rw half_even-one (mul-one n))

jitter_bounds : (k : ℕ) → k < 2 ^ 53 → (2 ^ 52 ≤ jitter k) × (jitter k ≤ 2 ^ 53)
unfolding jitter
jitter_bounds k h = ground arith

-- Rounded to a multiple of a power of 2 and cut off, a number between n * 2^52 and n * 2^53 lies
-- between n / 2 and n.
cut_bounds :
    (n x c d : ℕ)
    → c * d ≡ 2 ^ 53
    → 0 < c
    → 0 < d
    → n * 2 ^ 52 ≤ x
    → x ≤ n * 2 ^ 53
    → (n / 2 ≤ half_even x d * d / 2 ^ 53) × (half_even x d * d / 2 ^ 53 ≤ n)
cut_bounds n x c d whole c_pos d_pos low high =
    let h = half_even x d in
    let over : h ≤ n * c = half_even-le x d (n * c) d_pos (rw (mul_assoc n c d, whole) high) in
    let most : h * d ≤ n * 2 ^ 53 =
      subst (λ (t : ℕ). h * d ≤ t) (mul_assoc n c d ∙ ap (◌*◌ n) whole) (mul-le-mul_right d over) in
    let cut : h * d / 2 ^ 53 ≡ h / c =
      ap (λ (t : ℕ). h * d / t) (sym whole) ∙ mul-div-mul_right h c d_pos in
    let whole_cut : x / d / c ≡ x / 2 ^ 53 =
      div-div-eq-div-mul x d c ∙ ap (λ (t : ℕ). x / t) (mul_comm d c ∙ whole) in
    let kept : x / d / c ≤ h / c =
      (le-div_iff_mul-le c_pos).1 (le_trans (div-mul-le_self (x / d) c) (half_even-ge x d)) in
    (omega (arith, cut, whole_cut, kept), omega (arith, most))

-- Under 2^53 the product of the delay and its random factor lies between a half and the whole.
scaled_bounds : (k n : ℕ) → k < 2 ^ 53 → n < 2 ^ 53 → (n / 2 ≤ scaled k n) × (scaled k n ≤ n)
unfolding scaled
scaled_bounds k n random small =
    let (least, most) = jitter_bounds k random in
    let low : n * 2 ^ 52 ≤ n * jitter k = mul-le-mul_left n least in
    let high : n * jitter k ≤ n * 2 ^ 53 = mul-le-mul_left n most in
    let (i, le, e) =
      round_found 65 0 (n * jitter k) (omega arith) (omega arith) (omega (arith, high)) in
    let all : 53 - i + i ≡ 53 = omega arith in
    let whole : 2 ^ (53 - i) * 2 ^ i ≡ 2 ^ 53 = pow-split i (53 - i) ∙ ap (λ (t : ℕ). 2 ^ t) all in
    rw (round53-exact n small) (
      rw e (
        cut_bounds n (n * jitter k) (2 ^ (53 - i)) (2 ^ i) whole (pow_pos (53 - i)) (pow_pos i) low
          high))

-- With a base under 2^33 nanoseconds, about eight and a half seconds, a retry is delayed by a
-- half to the whole of the base doubled once per attempt, at most 20 times, whatever the random
-- generator gives, the factor and the product being rounded to doubles.
pub backoff_bounds :
    (base k : ℕ) (attempt : ℤ)
    → base < 2 ^ 33
    → k < 2 ^ 53
    → (n m : ℕ) × (n ≡ base * 2 ^ clamp_attempt attempt)
      × (backoff base attempt (jittered k) ≡ pos m)
      × (n / 2 ≤ m)
      × (m ≤ n)
unfolding backoff jittered
backoff_bounds base k attempt small random =
    let (n, same, doubled, least, most) = nominal_bounds base attempt (omega arith) in
    let (low, high) = scaled_bounds k n random (omega (arith, most)) in
    (n, scaled k n, doubled, rw same refl, low, high)
