-- ===== src/Throttle/Tests.antt =====
-- Runs of the token bucket of src/migration/throttle.c, and its theorems at concrete buckets.
use buckets.Prelude.{◌+◌, ◌-◌, ◌*◌, ◌^◌, ◌≤◌, ◌≡◌, refl, ◌≢◌, true, false, [], ◌∷◌, none, arith}
use buckets.Prelude.Int.{pos, negsuc}
use buckets.Status.{ok, err, invalid_arg}
use buckets.Throttle.{
  Throttle, init, round, granted, sleeping, returned, wait, set_rate, us_per_sec, create,
}
use buckets.Throttle.Bucket.{IsValid}
use buckets.Throttle.Bandwidth.{start, grant, rounds_bandwidth}
use buckets.Throttle.Liveness.{wait_starves, wait_returns, undisturbed}

-- 1000 bytes a second, a burst of 100, of which 10 are left at time 0.
abbrev low : Throttle
low = record {
  rate_bytes_per_sec = 1000;
  burst_bytes = 100;
  tokens = 10;
  last_refill_us = 0;
  enabled = true;
}

abbrev paid : Throttle
paid = record low { tokens = 0; last_refill_us = 20_000 }

abbrev stopped : Throttle
stopped = record low { rate_bytes_per_sec = 0; enabled = false }

low-IsValid : IsValid low
low-IsValid = omega arith

init_rejects : init (negsuc 0) (pos 5) 0 ≡ err invalid_arg
unfolding init
init_rejects = refl

low_sleeps : round low 30 0 ≡ sleeping low 20_000
unfolding round
low_sleeps = refl

low_pays : round low 30 20_000 ≡ granted paid
unfolding round
low_pays = refl

create_huge : create (pos (2 ^ 50)) (pos 1) 0 ≡ none
unfolding create
create_huge = refl

set_zero : set_rate low (pos 0) ≡ ok stopped
unfolding set_rate
set_zero = refl

rounds_bandwidth_example : (30 * us_per_sec ≤ 100 * us_per_sec + (20_000 - 0) * 1000) × IsValid paid
rounds_bandwidth_example = rounds_bandwidth low-IsValid (grant 30 20_000 start low_pays refl)

wait_starves_example : wait low (pos 101) ((5, λ t. t) ∷ []) ≢ returned low
wait_starves_example =
    wait_starves low 101 ((5, λ t. t) ∷ []) low low-IsValid refl (omega arith) (omega arith)
      (λ t v. (v, refl), tt)

wait_returns_example :
    (u : Throttle) × (wait low (pos 12) (undisturbed (1000 ∷ 2000 ∷ 3000 ∷ [])) ≡ returned u)
wait_returns_example =
    wait_returns low 12 (1000 ∷ 2000 ∷ 3000 ∷ []) low-IsValid (omega arith) refl (omega arith)
      (omega arith) (omega arith) (omega arith) (omega arith)
