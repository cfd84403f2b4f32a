-- ===== src/Api/Parse.antt =====
-- What the handlers of internal/cogs/api.go read from a request: the token, the limit of a list,
-- and the time to wait.
use cogs_crash_refresh_job_q.Prelude.{
  ℕ, ◌+◌, ◌-◌, ◌*◌, ◌%◌, ◌^◌, ◌≤◌, from_bits, Bool, true, false, ◌&&◌, ◌||◌, [], ◌∷◌, Bytes, codes,
  Option, none, some, ℤ, pos, negsuc, ltb, leb, ltb_ℤ, if◌then◌else◌, length, bytes_eq, arith,
}
use cogs_crash_refresh_job_q.Keys.{strip_prefix}

-- `authorized`, on the configured token and the Authorization header.
unfoldable pub authorized : Bytes → Bytes → Bool
unfolding bytes_eq
authorized [] header = true
authorized (t ∷ token) header =
    if leb (length header) (length (codes "Bearer "))
    then false
    else elim (strip_prefix (codes "Bearer ") header) [
      | none ↦ false
      | some rest ↦ bytes_eq rest (t ∷ token)
    ]

-- Decimal digits after the value so far.
abbrev pub digits_from : ℕ → Bytes → Option ℕ
digits_from n [] = some n
digits_from n (c ∷ s) =
    let rest = digits_from (10 * n + (c - 48)) s in if leb 48 c && leb c 57 then rest else none

abbrev pub number : Bytes → Option ℕ
number [] = none
number (c ∷ s) = digits_from 0 (c ∷ s)

abbrev pub signed : Bool → Option ℕ → Option ℤ
signed neg none = none
signed false (some n) = if ltb n (2 ^ 63) then some (pos n) else none
signed true (some n) =
    if leb n (2 ^ 63) then some (if ltb 0 n then negsuc (n - 1) else pos 0) else none

abbrev after_sign : Bool → ℕ → Bytes → Option ℤ
after_sign true c s = signed (leb 45 c && leb c 45) (number s)
after_sign false c s = signed false (number (c ∷ s))

-- `strconv.ParseInt(v, 10, 64)`; `none` is its error.
unfoldable pub parse_int : Bytes → Option ℤ
parse_int [] = none
parse_int (c ∷ s) = after_sign ((leb 43 c && leb c 43) || (leb 45 c && leb c 45)) c s

-- A number from 1 to 1000 is taken, anything else is 100.
abbrev pub limit_of : Option ℤ → ℕ
limit_of none = 100
limit_of (some (negsuc n)) = 100
limit_of (some (pos n)) = if ltb 0 n && leb n 1000 then n else 100

-- The `limit` parameter of GET /v1/dead.
unfoldable pub dead_limit : Bytes → ℕ
unfolding parse_int
dead_limit [] = 100
dead_limit (c ∷ v) = limit_of (parse_int (c ∷ v))

-- `time.Duration(ms) * time.Millisecond` on 64 bits.
unfoldable pub duration_ms : ℤ → ℤ
duration_ms (pos n) = from_bits (n * 1000000 % 2 ^ 64)
duration_ms (negsuc n) = from_bits ((2 ^ 64 - (n + 1) * 1000000 % 2 ^ 64) % 2 ^ 64)

-- The wait of a claim, at most the configured one.
unfoldable pub claim_wait : ℕ → ℤ → ℤ
unfolding duration_ms
claim_wait most ms = if ltb_ℤ (pos most) (duration_ms ms) then pos most else duration_ms ms

limit_of-bounds : (o : Option ℤ) → (1 ≤ limit_of o) × (limit_of o ≤ 1000)
limit_of-bounds none = (omega arith, omega arith)
limit_of-bounds (some (negsuc n)) = (omega arith, omega arith)
limit_of-bounds (some (pos n)) = (ground arith, ground arith)

-- Whatever the parameter says, the list of dead jobs is asked for at least one and at most 1000.
pub dead_limit_bounds : (v : Bytes) → (1 ≤ dead_limit v) × (dead_limit v ≤ 1000)
unfolding dead_limit
dead_limit_bounds [] = (omega arith, omega arith)
dead_limit_bounds (c ∷ v) = limit_of-bounds (parse_int (c ∷ v))
