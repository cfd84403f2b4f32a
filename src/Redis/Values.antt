-- ===== src/Redis/Values.antt =====
-- The values that the program stores: the fields of its hashes and what stands in them.
use cogs_crash_refresh_job_q.Prelude.{
  ℕ, zero, suc, ◌+◌, ◌/◌, ◌%◌, ltb, Bool, [], ◌∷◌, Bytes, if◌then◌else◌, ◌==◌,
}

-- The fields of the job and the schedule hashes.
pub data Field : Type 0 where
  payload queue attempts idempotency_key created_at cron last_run : Field

abbrev pub field_id : Field → ℕ
field_id payload = 0
field_id queue = 1
field_id attempts = 2
field_id idempotency_key = 3
field_id created_at = 4
field_id cron = 5
field_id last_run = 6

abbrev pub field_eq : Field → Field → Bool
field_eq f g = field_id f == field_id g

-- A hash value: an integer, which Redis and Go write in decimal digits, or any other text.
pub data Value : Type 0 where
  text : Bytes → Value
  int : ℕ → Value

digits : ℕ → ℕ → Bytes → Bytes
digits zero n acc = acc
digits (suc fuel) n acc =
    let rest = digits fuel (n / 10) ((48 + n % 10) ∷ acc) in
    if ltb n 10 then (48 + n) ∷ acc else rest

-- A number in decimal digits; it has fewer of them than `n + 1`.
unfoldable pub decimal : ℕ → Bytes
unfolding digits
decimal n = digits (n + 1) n []

-- A value as Redis replies with it.
unfoldable pub value_bytes : Value → Bytes
unfolding decimal
value_bytes (text t) = t
value_bytes (int n) = decimal n

-- `strconv.Atoi` on a reply, its error ignored: 0 for what is no integer.
unfoldable pub value_int : Value → ℕ
value_int (text t) = 0
value_int (int n) = n
