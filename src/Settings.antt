-- ===== src/Settings.antt =====
-- internal/cogs/config.go: the configuration that a server process reads from its environment.
use cogs_crash_refresh_job_q.Prelude.{
  ℕ, ◌+◌, ◌-◌, ◌*◌, ◌%◌, ◌^◌, ◌≤◌, Bytes, [], ◌∷◌, codes, Option, none, some, ℤ, pos, negsuc,
  from_bits, ◌≡◌, ◌⊎◌, refl, ap, ◌∙◌, ◌<◌, inl, inr, arith,
}
use native.Mathlib.Nat.{mul-le-mul, mod-eq_of_lt}
use cogs_crash_refresh_job_q.Store.{Config, seconds, milliseconds}
use cogs_crash_refresh_job_q.Api.Parse.{parse_int}

-- `os.Getenv`, which gives "" for a variable that is not set.
abbrev pub Environment : Type 0
Environment = Bytes → Bytes

abbrev text_or : Bytes → Bytes → Bytes
text_or [] def = def
text_or (c ∷ v) def = c ∷ v

unfoldable pub env : Environment → Bytes → Bytes → Bytes
env e key def = text_or (e key) def

abbrev number_or : Option ℤ → ℤ → ℤ
number_or none def = def
number_or (some n) def = n

-- `strconv.Atoi` reads what `ParseInt` reads in base 10 with 64 bits.
unfoldable pub env_int : Environment → Bytes → ℕ → ℤ
unfolding parse_int
env_int e key def = number_or (parse_int (e key)) (pos def)

-- `time.Duration(n) * unit`, on 64 bits.
unfoldable pub duration : ℕ → ℤ → ℤ
duration unit (pos n) = from_bits (n * unit % 2 ^ 64)
duration unit (negsuc n) = from_bits ((2 ^ 64 - (n + 1) * unit % 2 ^ 64) % 2 ^ 64)

abbrev second : ℕ
second = 1000000000

abbrev millisecond : ℕ
millisecond = 1000000

pub record Settings : Type 0 where
  pub port : Bytes
  pub redis_addr : Bytes
  pub redis_password : Bytes
  pub auth_token : Bytes
  pub lease_ttl : ℤ
  pub reaper_interval : ℤ
  pub retry_interval : ℤ
  pub scheduler_interval : ℤ
  pub leader_lock_ttl : ℤ
  pub max_claim_batch : ℤ
  pub max_claim_wait : ℤ
  pub heartbeat_divisor : ℤ
  pub max_retries : ℤ
  pub backoff_base : ℤ
  pub idempotency_window : ℤ
  pub max_body_bytes : ℤ
  pub drain_limit : ℤ

unfoldable pub load_config : Environment → Settings
unfolding env env_int duration
load_config e = record {
  port = env e (codes "PORT") (codes "8080");
  redis_addr = env e (codes "REDIS_ADDR") (codes "localhost:6379");
  redis_password = env e (codes "REDIS_PASSWORD") [];
  auth_token = env e (codes "AUTH_TOKEN") [];
  lease_ttl = duration second (env_int e (codes "DEFAULT_LEASE_SECONDS") 3);
  reaper_interval = duration millisecond (env_int e (codes "REAPER_INTERVAL_MS") 500);
  retry_interval = duration millisecond (env_int e (codes "RETRY_INTERVAL_MS") 500);
  scheduler_interval = duration millisecond (env_int e (codes "SCHEDULER_INTERVAL_MS") 1000);
  leader_lock_ttl = duration millisecond (env_int e (codes "LEADER_LOCK_TTL_MS") 10000);
  max_claim_batch = env_int e (codes "MAX_CLAIM_BATCH") 64;
  max_claim_wait = duration millisecond (env_int e (codes "CLAIM_WAIT_MS") 5000);
  heartbeat_divisor = env_int e (codes "HEARTBEAT_DIVISOR") 3;
  max_retries = env_int e (codes "MAX_RETRIES") 5;
  backoff_base = duration millisecond (env_int e (codes "BACKOFF_BASE_MS") 1000);
  idempotency_window = duration second (env_int e (codes "IDEMPOTENCY_WINDOW_SECONDS") 3600);
  max_body_bytes = env_int e (codes "MAX_BODY_BYTES") 1048576;
  drain_limit = env_int e (codes "DRAIN_LIMIT") 500;
}

-- The settings are those of a configuration of the other modules, none of them negative.
pub record Gives (s : Settings) (cfg : Config) : Type 0 where
  pub token : s.auth_token ≡ cfg.auth_token
  pub lease : s.lease_ttl ≡ pos cfg.lease_ttl
  pub batch : s.max_claim_batch ≡ pos cfg.max_claim_batch
  pub wait : s.max_claim_wait ≡ pos cfg.max_claim_wait
  pub divisor : s.heartbeat_divisor ≡ pos cfg.heartbeat_divisor
  pub retries : s.max_retries ≡ pos cfg.max_retries
  pub base : s.backoff_base ≡ pos cfg.backoff_base
  pub window : s.idempotency_window ≡ pos cfg.idempotency_window
  pub limit : s.drain_limit ≡ pos cfg.drain_limit

abbrev pub IsPositive : ℤ → Type 0
IsPositive z = (n : ℕ) × (z ≡ pos n) × (1 ≤ n)

-- The intervals of the tickers and the lifetime of the lock, in nanoseconds. `time.NewTicker`
-- panics on an interval that is not positive, and the lock's lifetime is sent in milliseconds.
pub record HasIntervals (s : Settings) : Type 0 where
  pub reaper : IsPositive s.reaper_interval
  pub retry : IsPositive s.retry_interval
  pub scheduler : IsPositive s.scheduler_interval
  pub lock : (n : ℕ) × (s.leader_lock_ttl ≡ pos n) × (1 ≤ milliseconds n)
  pub body : IsPositive s.max_body_bytes

-- A value that is not a number, or a number from 1 to `most`.
abbrev pub IsWithin : ℕ → Environment → Bytes → Type 0
IsWithin most e key =
    (parse_int (e key) ≡ none)
    ⊎ ((n : ℕ) × (parse_int (e key) ≡ some (pos n)) × (1 ≤ n) × (n ≤ most))

env_int_bounds :
    (most : ℕ) (e : Environment) (key : Bytes) (def : ℕ)
    → IsWithin most e key
    → 1 ≤ def
    → def ≤ most
    → (n : ℕ) × (env_int e key def ≡ pos n) × (1 ≤ n) × (n ≤ most)
unfolding env_int
env_int_bounds most e key def (inl absent) least fits = (def, rw absent refl, least, fits)
env_int_bounds most e key def (inr (n, given, low, high)) least fits = (n, rw given refl, low, high)

widen :
    (few most : ℕ) (e : Environment) (key : Bytes)
    → few ≤ most
    → IsWithin few e key
    → IsWithin most e key
widen few most e key wider (inl absent) = inl absent
widen few most e key wider (inr (n, given, low, high)) =
    inr (n, given, low, omega (arith, high, wider))

-- The product does not overflow.
duration_bounds :
    (unit n : ℕ) → unit ≤ second → n ≤ 1000000 → duration unit (pos n) ≡ pos (n * unit)
unfolding duration
duration_bounds unit n small most =
    let product : n * unit ≤ 1000000 * second = mul-le-mul most small in
    let same : n * unit % 2 ^ 64 ≡ n * unit = mod-eq_of_lt (omega (arith, product)) in
    rw same (ground (arith, product))

-- A duration of the environment, in its unit.
duration_within :
    (unit most : ℕ) (e : Environment) (key : Bytes) (def : ℕ)
    → unit ≤ second
    → most ≤ 1000000
    → IsWithin most e key
    → 1 ≤ def
    → def ≤ most
    → (n : ℕ) × (duration unit (env_int e key def) ≡ pos (n * unit)) × (1 ≤ n) × (n ≤ most)
duration_within unit most e key def small few within least fits =
    let (n, read, low, high) = env_int_bounds most e key def within least fits in
    (
      n,
      ap (duration unit) read ∙ duration_bounds unit n small (omega (arith, high, few)),
      low,
      high,
    )

in_ms :
    (e : Environment) (def : ℕ) (key : Bytes)
    → ((key : Bytes) → IsWithin 1000000 e key)
    → 1 ≤ def
    → def ≤ 1000000
    → (n : ℕ) × (duration millisecond (env_int e key def) ≡ pos (n * millisecond))
      × (1 ≤ n)
      × (n ≤ 1000000)
in_ms e def key modest least fits =
    duration_within millisecond 1000000 e key def (omega arith) (omega arith) (modest key) least
      fits

tick_of :
    (e : Environment) (def : ℕ) (key : Bytes)
    → ((key : Bytes) → IsWithin 1000000 e key)
    → 1 ≤ def
    → def ≤ 1000000
    → IsPositive (duration millisecond (env_int e key def))
tick_of e def key modest least fits =
    let (n, same, low, high) = in_ms e def key modest least fits in
    (n * millisecond, same, omega (arith, low))

load_config-HasIntervals :
    (e : Environment) → ((key : Bytes) → IsWithin 1000000 e key) → HasIntervals (load_config e)
unfolding load_config
load_config-HasIntervals e modest =
    let (lock, l, l1, l2) =
      in_ms e 10000 (codes "LEADER_LOCK_TTL_MS") modest (omega arith) (omega arith) in
    let (body, b, b1, b2) =
      env_int_bounds 1048576 e (codes "MAX_BODY_BYTES") 1048576
        (widen 1000000 1048576 e _ (omega arith) (modest (codes "MAX_BODY_BYTES"))) (omega arith)
        (omega arith) in
    record {
      reaper = tick_of e 500 (codes "REAPER_INTERVAL_MS") modest (omega arith) (omega arith);
      retry = tick_of e 500 (codes "RETRY_INTERVAL_MS") modest (omega arith) (omega arith);
      scheduler = tick_of e 1000 (codes "SCHEDULER_INTERVAL_MS") modest (omega arith) (omega arith);
      lock = (lock * millisecond, l, omega (arith, l1));
      body = (body, b, b1);
    }

-- What the other modules ask of a configuration: a heartbeat's divisor that is not 0 and is
-- within the lease, passes and claims that take something, times of a second or a millisecond at
-- least, a lease within 63 bits, and a backoff that does not overflow even when it is doubled.
pub record IsReady (cfg : Config) : Type 0 where
  pub divisor : 1 ≤ cfg.heartbeat_divisor
  pub beats : cfg.heartbeat_divisor ≤ milliseconds cfg.lease_ttl
  pub limit : 1 ≤ cfg.drain_limit
  pub batch : 1 ≤ cfg.max_claim_batch
  pub window : 1 ≤ seconds cfg.idempotency_window
  pub lease : 1 ≤ milliseconds cfg.lease_ttl
  pub fits : cfg.lease_ttl < 2 ^ 63
  pub base : cfg.backoff_base < 2 ^ 33

-- If each numeric variable is missing, is not a number, or is a number from 1 to a million, the
-- base of the backoff is at most 8000 ms and the heartbeat's divisor at most 1000, then a server
-- process is configured without overflow: no setting is negative; the intervals of the three
-- tickers, the limit of a request's body and the lifetime of the leader's lock are positive, the
-- last in whole milliseconds; the heartbeat's divisor is from 1 to the lease's milliseconds;
-- passes and claims have room; the idempotency window is a second or more; the lease is below
-- 2^63 ns, and the base of the backoff below 2^33 ns.
pub load_config-IsReady :
    (e : Environment)
    → ((key : Bytes) → IsWithin 1000000 e key)
    → IsWithin 8000 e (codes "BACKOFF_BASE_MS")
    → IsWithin 1000 e (codes "HEARTBEAT_DIVISOR")
    → (cfg : Config) × Gives (load_config e) cfg × IsReady cfg × HasIntervals (load_config e)
unfolding load_config
load_config-IsReady e modest low_base low_divisor =
    let within = modest (codes "DEFAULT_LEASE_SECONDS") in
    let (lease, l, l1, l2) =
      duration_within second 1000000 e _ 3 (omega arith) (omega arith) within (omega arith)
        (omega arith) in
    let (batch, b, b1, b2) =
      env_int_bounds 1000000 e _ 64 (modest (codes "MAX_CLAIM_BATCH")) (omega arith)
        (omega arith) in
    let (wait, w, w1, w2) =
      in_ms e 5000 (codes "CLAIM_WAIT_MS") modest (omega arith) (omega arith) in
    let (divisor, d, d1, d2) = env_int_bounds 1000 e _ 3 low_divisor (omega arith) (omega arith) in
    let (retries, r, r1, r2) =
      env_int_bounds 1000000 e _ 5 (modest (codes "MAX_RETRIES")) (omega arith) (omega arith) in
    let (base, o, o1, o2) =
      duration_within millisecond 8000 e _ 1000 (omega arith) (omega arith) low_base (omega arith)
        (omega arith) in
    let (window, i, i1, i2) =
      duration_within second 1000000 e _ 3600 (omega arith) (omega arith)
        (modest (codes "IDEMPOTENCY_WINDOW_SECONDS")) (omega arith) (omega arith) in
    let (limit, m, m1, m2) =
      env_int_bounds 1000000 e _ 500 (modest (codes "DRAIN_LIMIT")) (omega arith) (omega arith) in
    (
      record {
        auth_token = (load_config e).auth_token;
        lease_ttl = lease * second;
        max_claim_batch = batch;
        max_claim_wait = wait * millisecond;
        heartbeat_divisor = divisor;
        max_retries = retries;
        backoff_base = base * millisecond;
        idempotency_window = window * second;
        drain_limit = limit;
      },
      record {
        token = refl;
        lease = l;
        batch = b;
        wait = w;
        divisor = d;
        retries = r;
        base = o;
        window = i;
        limit = m;
      },
      record {
        divisor = d1;
        beats = omega arith;
        limit = m1;
        batch = b1;
        window = omega arith;
        lease = omega arith;
        fits = omega arith;
        base = omega arith;
      },
      load_config-HasIntervals e modest,
    )
