-- ===== src/Throttle/Wait.antt =====
-- `buckets_throttle_wait` of src/migration/throttle.c: what it grants, when it returns, and when it
-- cannot.
use buckets.Prelude.{ℕ, ◌+◌, ◌-◌, ◌*◌, ◌<◌, ◌≡◌, ◌≢◌, inl, inr, arith, Option-cases}
use buckets.Throttle.{Throttle, granted, sleeping, us_per_sec, i64_bound, refill, settle, round}
use buckets.Throttle.Bucket.{IsValid, Refilled, refill-Refilled}

-- What a granted round has done: a refill, then the subtraction.
pub record Granted (t : Throttle) (bytes now : ℕ) (t' : Throttle) : Type 0 where
  pub full : Throttle
  pub refilled : Refilled t now full
  pub paid : t'.tokens + bytes ≡ full.tokens
  pub rate : t'.rate_bytes_per_sec ≡ full.rate_bytes_per_sec
  pub burst : t'.burst_bytes ≡ full.burst_bytes
  pub last : t'.last_refill_us ≡ full.last_refill_us

settle-granted :
    (t : Throttle) (bytes : ℕ) {t' : Throttle}
    → settle t bytes ≡ granted t'
    → (t'.tokens + bytes ≡ t.tokens)
      × (t'.rate_bytes_per_sec ≡ t.rate_bytes_per_sec)
      × (t'.burst_bytes ≡ t.burst_bytes)
      × (t'.last_refill_us ≡ t.last_refill_us)
unfolding settle
settle-granted t bytes e = ground arith

pub settle-sleeping :
    (t : Throttle) (bytes : ℕ) {t' : Throttle} {us : ℕ}
    → settle t bytes ≡ sleeping t' us
    → (t' ≡ t)
      × (t.tokens < bytes)
      × ((bytes - t.tokens) * us_per_sec < i64_bound)
      × (t.rate_bytes_per_sec ≢ 0)
unfolding settle
settle-sleeping t bytes e = ground arith

pub round-granted :
    (t : Throttle) (bytes now : ℕ) {t' : Throttle}
    → IsValid t
    → round t bytes now ≡ granted t'
    → Granted t bytes now t'
unfolding round
round-granted t bytes now {t'} v e = elim (Option-cases (refill t now)) [
  | inl h ↦ absurd (ground (arith, h))
  | inr (u, h) ↦
      let p = settle-granted u bytes {t' = t'} (ground (arith, h)) in
      record {
        full = u;
        refilled = refill-Refilled t now v h;
        paid = p.0;
        rate = p.1;
        burst = p.2;
        last = p.3;
      }
]

-- What a sleeping round has done: a refill, which did not suffice.
pub record Slept (t : Throttle) (bytes now : ℕ) (t' : Throttle) : Type 0 where
  pub refilled : Refilled t now t'
  pub short : t'.tokens < bytes
  pub scaled : (bytes - t'.tokens) * us_per_sec < i64_bound

pub round-sleeping :
    (t : Throttle) (bytes now : ℕ) {t' : Throttle} {us : ℕ}
    → IsValid t
    → round t bytes now ≡ sleeping t' us
    → Slept t bytes now t'
unfolding round
round-sleeping t bytes now {t'} {us} v e = elim (Option-cases (refill t now)) [
  | inl h ↦ absurd (ground (arith, h))
  | inr (u, h) ↦
      let p = settle-sleeping u bytes {t' = t'} {us = us} (ground (arith, h)) in
      let q = refill-Refilled t now v h in ground (arith, p, q)
]
