-- ===== src/Throttle.antt =====
-- The token bucket of src/migration/throttle.c.
pub mod Bucket
pub mod Wait
pub mod Bandwidth
pub mod Liveness
mod Tests
use buckets.Prelude.{
  ℕ, ◌+◌, ◌-◌, ◌*◌, ◌/◌, ◌^◌, Bool, not, ◌||◌, List, [], ◌∷◌, Option, none, some, ltb, leb, ◌==◌,
  if◌then◌else◌,
}
use buckets.Prelude.Int.{ℤ, pos, negsuc}
use buckets.Prelude.Maybe.{◌>>=◌}
use buckets.Status.{Result, ok, err, invalid_arg}

-- `buckets_throttle_t`. The guard of `init` and the test before each subtraction keep every
-- number at 0 or above.
pub record Throttle : Type 0 where
  pub rate_bytes_per_sec : ℕ
  pub burst_bytes : ℕ
  pub tokens : ℕ
  pub last_refill_us : ℕ
  pub enabled : Bool

abbrev pub i64_bound : ℕ
i64_bound = 2 ^ 63

abbrev pub us_per_sec : ℕ
us_per_sec = 1_000_000

abbrev pub max_sleep_us : ℕ
max_sleep_us = 100_000

-- A signed product or sum of i64 values at 0 or above; `none` is the overflow that C leaves undefined.
abbrev pub in_i64 : ℕ → Option ℕ
in_i64 n = if ltb n i64_bound then some n else none

abbrev pub fresh : ℕ → ℕ → ℕ → Throttle
fresh rate burst now = record {
  rate_bytes_per_sec = rate;
  burst_bytes = burst;
  tokens = burst;
  last_refill_us = now;
  enabled = ltb 0 rate;
}

unfoldable pub init : ℤ → ℤ → ℕ → Result Throttle
init (pos rate) (pos burst) now = ok (fresh rate burst now)
init (pos rate) (negsuc burst) now = err invalid_arg
init (negsuc rate) burst now = err invalid_arg

-- `refill_tokens`, from the tokens that the elapsed time is worth: nothing is worth no refill, and
-- the sum is capped at the burst.
unfoldable pub credit : Throttle → ℕ → ℕ → Option Throttle
credit t now add = if ltb 0 add then filled else some t
  where
    capped : ℕ → Throttle
    capped sum = record t {
      tokens = if ltb t.burst_bytes sum then t.burst_bytes else sum;
      last_refill_us = now;
    }

    filled : Option Throttle
    filled = do sum ← in_i64 (t.tokens + add); some (capped sum)

-- `refill_tokens`; `none` is a signed overflow.
unfoldable pub refill : Throttle → ℕ → Option Throttle
unfolding credit
refill t now = if leb now t.last_refill_us then some t else accrued
  where
    accrued : Option Throttle
    accrued = do
      earned ← in_i64 ((now - t.last_refill_us) * t.rate_bytes_per_sec)
      credit t now (earned / us_per_sec)

-- One round of the loop in `buckets_throttle_wait`.
pub data Round : Type 0 where
  granted : Throttle → Round
  sleeping : Throttle → ℕ → Round
  overflow : Round
  division_by_zero : Round

-- The sleep for the tokens that are missing, capped at 100 ms.
unfoldable pub sleep_us : ℕ → ℕ → ℕ
sleep_us scaled rate = if ltb max_sleep_us (scaled / rate) then max_sleep_us else scaled / rate

unfoldable pub settle : Throttle → ℕ → Round
unfolding sleep_us
settle t bytes =
    if leb bytes t.tokens
    then granted (record t { tokens = t.tokens - bytes })
    else if not (ltb ((bytes - t.tokens) * us_per_sec) i64_bound)
    then overflow
    else if t.rate_bytes_per_sec == 0
    then division_by_zero
    else sleeping t (sleep_us ((bytes - t.tokens) * us_per_sec) t.rate_bytes_per_sec)

unfoldable pub round : Throttle → ℕ → ℕ → Round
unfolding refill settle
round t bytes now = elim (refill t now) [ none ↦ overflow | some t' ↦ settle t' bytes ]

-- What the caller of `buckets_throttle_wait` meets: the bytes granted, the clock readings used up
-- with the thread still in the loop, or a fault.
pub data Outcome : Type 0 where
  returned : Throttle → Outcome
  waiting : Throttle → Outcome
  overflowed : Outcome
  divided_by_zero : Outcome

-- One turn of the environment: the clock reading of a round, and what the other threads make of the
-- throttle while this one sleeps with the lock released.
abbrev pub Turn : Type 0
Turn = ℕ × (Throttle → Throttle)

unfoldable pub loop : Throttle → ℕ → List Turn → Outcome
loop t bytes [] = waiting t
loop t bytes ((now, others) ∷ turns) = elim (round t bytes now) [
  | granted t' ↦ returned t'
  | sleeping t' us ↦ loop (others t') bytes turns
  | overflow ↦ overflowed
  | division_by_zero ↦ divided_by_zero
]

-- `buckets_throttle_wait`: disabled, or nothing to transfer, and it returns at once.
unfoldable pub wait : Throttle → ℤ → List Turn → Outcome
unfolding loop
wait t (negsuc bytes) turns = returned t
wait t (pos bytes) turns =
    if not t.enabled || t.rate_bytes_per_sec == 0
    then returned t
    else if bytes == 0
    then returned t
    else loop t bytes turns

unfoldable pub set_rate : Throttle → ℤ → Result Throttle
set_rate t (negsuc rate) = err invalid_arg
set_rate t (pos rate) = ok (record t { rate_bytes_per_sec = rate; enabled = ltb 0 rate })

unfoldable pub set_enabled : Throttle → Bool → Throttle
set_enabled t on = record t { enabled = on }

-- `buckets_throttle_get_stats` refills before it reads: (tokens, rate, enabled).
unfoldable pub get_stats : Throttle → ℕ → Option ((ℕ × ℕ × Bool) × Throttle)
unfolding refill
get_stats t now = do t' ← refill t now; some ((t'.tokens, t'.rate_bytes_per_sec, t'.enabled), t')

abbrev made : Result Throttle → Option Throttle
made (ok t) = some t
made (err e) = none

-- 100 MB/s with a burst of 10 MB.
unfoldable pub create_default : ℕ → Option Throttle
unfolding init
create_default now = made (init (pos (100 * 1024 * 1024)) (pos (10 * 1024 * 1024)) now)

-- `buckets_throttle_create`. The outer `none` is a signed overflow of the products, the inner one
-- the NULL of a negative argument.
unfoldable pub create : ℤ → ℤ → ℕ → Option (Option Throttle)
unfolding init
create (negsuc rate) burst now = some none
create (pos rate) (negsuc burst) now = some none
create (pos rate) (pos burst) now = do
  rate_bytes ← in_i64 (rate * 1024 * 1024)
  burst_bytes ← in_i64 (burst * 1024 * 1024)
  some (made (init (pos rate_bytes) (pos burst_bytes) now))
