-- ===== src/Throttle/Bandwidth.antt =====
-- The rate that `buckets_throttle_wait` of src/migration/throttle.c enforces over many calls.
use buckets.Prelude.{ℕ, ◌+◌, ◌-◌, ◌*◌, ◌≤◌, ◌≡◌, refl, ◌∙◌, subst, arith}
use native.Mathlib.Nat.{add_comm, add_assoc}
use buckets.Throttle.{Throttle, granted, sleeping, us_per_sec, round}
use buckets.Throttle.Bucket.{IsValid, Refilled, sub-mul}
use buckets.Throttle.Wait.{Granted, round-granted, round-sleeping}

-- The rounds of any number of waiting threads, in the order in which they take the lock, with the
-- bytes granted so far.
pub data Rounds (t : Throttle) : Throttle → ℕ → Type 0 where
  start : Rounds t t 0
  grant :
      {u w : Throttle} {total total' : ℕ} (bytes now : ℕ)
      → Rounds t u total
      → round u bytes now ≡ granted w
      → total' ≡ total + bytes
      → Rounds t w total'
  poll :
      {u w : Throttle} {total us : ℕ} (bytes now : ℕ)
      → Rounds t u total
      → round u bytes now ≡ sleeping w us
      → Rounds t w total

record Account (t u : Throttle) (total : ℕ) : Type 0 where
  valid : IsValid u
  rate : u.rate_bytes_per_sec ≡ t.rate_bytes_per_sec
  burst : u.burst_bytes ≡ t.burst_bytes
  forward : t.last_refill_us ≤ u.last_refill_us
  balance :
      (total + u.tokens) * us_per_sec + t.last_refill_us * t.rate_bytes_per_sec
      ≤ t.tokens * us_per_sec + u.last_refill_us * t.rate_bytes_per_sec

Account-refill :
    {t u w : Throttle} {total now : ℕ} → Account t u total → Refilled u now w → Account t w total
Account-refill {t} {u} {w} a r =
    let e : (w.tokens * us_per_sec + u.last_refill_us * t.rate_bytes_per_sec
        ≤ u.tokens * us_per_sec + w.last_refill_us * t.rate_bytes_per_sec) =
      subst
        (λ k.
          w.tokens * us_per_sec + u.last_refill_us * k
          ≤ u.tokens * us_per_sec + w.last_refill_us * k)
        a.rate r.earned in
    record {
      valid = r.valid;
      rate = r.rate ∙ a.rate;
      burst = r.burst ∙ a.burst;
      forward = omega (arith, a.forward, r.forward);
      balance = omega (arith, e, a.balance);
    }

Account-grant :
    {t u w : Throttle} {total bytes now : ℕ}
    → Account t u total
    → Granted u bytes now w
    → Account t w (total + bytes)
Account-grant {t} {u} {w} {total} {bytes} a g =
    let b = Account-refill a g.refilled in
    record {
      valid = record { capped = omega (arith, b.valid.capped, g.paid, g.burst) };
      rate = g.rate ∙ b.rate;
      burst = g.burst ∙ b.burst;
      forward = rw g.last b.forward;
      balance = rw (g.last, add_assoc, add_comm bytes w.tokens, g.paid) b.balance;
    }

Account-rounds : {t u : Throttle} {total : ℕ} → IsValid t → Rounds t u total → Account t u total
Account-rounds v start = record {
  valid = v;
  rate = refl;
  burst = refl;
  forward = omega arith;
  balance = omega arith;
}
Account-rounds {t} v (grant {u} {w} {total} bytes now r e h) =
    let a = Account-rounds v r in rw h (Account-grant a (round-granted u bytes now a.valid e))
Account-rounds {t} v (poll {u} {w} bytes now r e) =
    let a = Account-rounds v r in Account-refill a (round-sleeping u bytes now a.valid e).refilled

-- From a valid bucket, whatever threads wait and however their rounds interleave at an unchanged
-- rate, the bytes granted are worth at most one burst and the rate times the time between the first
-- and the last refill; and the bucket is still valid.
pub rounds_bandwidth :
    {t u : Throttle} {total : ℕ}
    → IsValid t
    → Rounds t u total
    → (total * us_per_sec
        ≤ t.burst_bytes * us_per_sec + (u.last_refill_us - t.last_refill_us) * t.rate_bytes_per_sec)
      × IsValid u
rounds_bandwidth {t} {u} {total} v r =
    let a = Account-rounds v r in
    let m = sub-mul u.last_refill_us t.last_refill_us t.rate_bytes_per_sec a.forward in
    (omega (arith, a.balance, m, v.capped), a.valid)
