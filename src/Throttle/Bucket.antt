-- ===== src/Throttle/Bucket.antt =====
-- The bucket of src/migration/throttle.c: its invariant, and what a refill and a round may add.
use buckets.Prelude.{ℕ, ◌+◌, ◌-◌, ◌*◌, ◌≤◌, ◌≡◌, some, arith}
use buckets.Prelude.Int.{ℤ, pos, negsuc}
use buckets.Status.{ok}
use buckets.Throttle.{Throttle, us_per_sec, init, refill}

-- The bucket never holds more than its burst.
pub record IsValid (t : Throttle) : Type 0 where
  pub capped : t.tokens ≤ t.burst_bytes

pub init-IsValid :
    (rate burst : ℤ) (now : ℕ) {t : Throttle} → init rate burst now ≡ ok t → IsValid t
unfolding init
init-IsValid (pos rate) (pos burst) now e = ground arith
init-IsValid (pos rate) (negsuc burst) now e = cc
init-IsValid (negsuc rate) burst now e = cc

pub sub-mul : (a b r : ℕ) → b ≤ a → (a - b) * r + b * r ≡ a * r
sub-mul a b r h = grind arith

-- What a refill leaves alone, and how much it may add.
pub record Refilled (t : Throttle) (now : ℕ) (t' : Throttle) : Type 0 where
  pub valid : IsValid t'
  pub rate : t'.rate_bytes_per_sec ≡ t.rate_bytes_per_sec
  pub burst : t'.burst_bytes ≡ t.burst_bytes
  pub grown : t.tokens ≤ t'.tokens
  pub forward : t.last_refill_us ≤ t'.last_refill_us
  pub earned :
      t'.tokens * us_per_sec + t.last_refill_us * t.rate_bytes_per_sec
      ≤ t.tokens * us_per_sec + t'.last_refill_us * t.rate_bytes_per_sec

refill-earned :
    (t : Throttle) (now : ℕ) {t' : Throttle}
    → refill t now ≡ some t'
    → t'.tokens * us_per_sec + t.last_refill_us * t.rate_bytes_per_sec
      ≤ t.tokens * us_per_sec + t'.last_refill_us * t.rate_bytes_per_sec
unfolding refill
refill-earned t now e = ground (arith, sub-mul now t.last_refill_us t.rate_bytes_per_sec)

pub refill-Refilled :
    (t : Throttle) (now : ℕ) {t' : Throttle}
    → IsValid t
    → refill t now ≡ some t'
    → Refilled t now t'
unfolding refill
refill-Refilled t now v e = record {
  valid = ground arith;
  rate = ground arith;
  burst = ground arith;
  grown = ground arith;
  forward = ground arith;
  earned = refill-earned t now e;
}
