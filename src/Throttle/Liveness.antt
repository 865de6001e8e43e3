-- ===== src/Throttle/Liveness.antt =====
-- When `buckets_throttle_wait` of src/migration/throttle.c returns, and when it cannot.
use buckets.Prelude.{
  ℕ, ◌+◌, ◌-◌, ◌*◌, ◌/◌, ◌≤◌, ◌<◌, ◌^◌, ◌≡◌, refl, ◌≢◌, ◌⊎◌, inl, inr, true, List, [], ◌∷◌, map,
  some, arith, length, min, ltb, leb, ◌==◌, if◌then◌else◌, Bool-cases,
}
use buckets.Prelude.Int.{pos}
use buckets.Status.{ok}
use buckets.Throttle.{
  Throttle, Round, granted, sleeping, overflow, division_by_zero, returned, divided_by_zero, Turn,
  us_per_sec, i64_bound, refill, settle, round, sleep_us, loop, wait, set_rate,
}
use buckets.Throttle.Bucket.{IsValid}
use buckets.Throttle.Wait.{round-granted, round-sleeping}

pub data RoundCases (t : Throttle) (bytes now : ℕ) : Type 0 where
  grants : (u : Throttle) → round t bytes now ≡ granted u → RoundCases t bytes now
  sleeps : (u : Throttle) (us : ℕ) → round t bytes now ≡ sleeping u us → RoundCases t bytes now
  overflows : round t bytes now ≡ overflow → RoundCases t bytes now
  divides : round t bytes now ≡ division_by_zero → RoundCases t bytes now

round_cases : (t : Throttle) (bytes now : ℕ) → RoundCases t bytes now
round_cases t bytes now = go (round t bytes now) refl
  where
    go : (r : Round) → round t bytes now ≡ r → RoundCases t bytes now
    go (granted u) e = grants u e
    go (sleeping u us) e = sleeps u us e
    go overflow e = overflows e
    go division_by_zero e = divides e

-- The other threads keep the bucket valid, and nothing changes its burst.
abbrev pub Respects : List Turn → Type 0
Respects [] = Unit {0}
Respects ((now, others) ∷ turns) =
    ((t : Throttle) → IsValid t → IsValid (others t) × ((others t).burst_bytes ≡ t.burst_bytes))
    × Respects turns

loop_starves :
    (t : Throttle) (bytes : ℕ) (turns : List Turn) (u : Throttle)
    → IsValid t
    → t.burst_bytes < bytes
    → Respects turns
    → loop t bytes turns ≢ returned u
unfolding loop
loop_starves t bytes [] u v h r = λ e. cc
loop_starves t bytes ((now, others) ∷ turns) u v h r = elim (round_cases t bytes now) [
  | grants w e ↦
      let g = round-granted t bytes now v e in
      absurd (omega (arith, g.paid, g.refilled.valid.capped, g.refilled.burst))
  | sleeps w us e ↦
      let f = (round-sleeping t bytes now v e).refilled in
      let keep = r.0 w f.valid in
      rw (e, loop)
        (loop_starves (others w) bytes turns u keep.0 (omega (arith, keep.1, f.burst, h)) r.1)
  | overflows e ↦ rw (e, loop) (λ q. cc)
  | divides e ↦ rw (e, loop) (λ q. cc)
]

-- A call for more bytes than the burst never returns: with throttling on, at any rate and whatever
-- the clock says and the other threads do, while they keep the bucket valid and its burst as it is.
pub wait_starves :
    (t : Throttle) (bytes : ℕ) (turns : List Turn) (u : Throttle)
    → IsValid t
    → t.enabled ≡ true
    → 0 < t.rate_bytes_per_sec
    → t.burst_bytes < bytes
    → Respects turns
    → wait t (pos bytes) turns ≢ returned u
unfolding wait
wait_starves t bytes turns u v on rate h r = ground (arith, loop_starves t bytes turns u v h r)

module _ (t : Throttle) (now : ℕ) where
  earned : ℕ
  earned = (now - t.last_refill_us) * t.rate_bytes_per_sec

  topped : Throttle
  unfolding earned
  topped = record t {
    tokens =
        if ltb t.burst_bytes (t.tokens + earned / us_per_sec)
        then t.burst_bytes
        else t.tokens + earned / us_per_sec;
    last_refill_us = now;
  }

-- Time worth a token and short of an overflow gains a token, or fills the bucket.
refill_earns :
    (t : Throttle) (now : ℕ)
    → IsValid t
    → t.burst_bytes < 2 ^ 62
    → us_per_sec ≤ (now - t.last_refill_us) * t.rate_bytes_per_sec
    → (now - t.last_refill_us) * t.rate_bytes_per_sec < i64_bound
    → (refill t now ≡ some (topped t now))
      × (min (t.tokens + 1) t.burst_bytes ≤ (topped t now).tokens)
unfolding refill topped
refill_earns t now v b h k = (ground (arith, elapsed), ground arith)
  where
    elapsed : t.last_refill_us < now
    elapsed = grind arith

-- A refilled bucket grants, or sends the thread to sleep as it is.
settle_cases :
    (t : Throttle) (bytes : ℕ)
    → bytes * us_per_sec < i64_bound
    → 0 < t.rate_bytes_per_sec
    → ((u : Throttle) × (settle t bytes ≡ granted u))
      ⊎ ((t.tokens < bytes) × ((us : ℕ) × (settle t bytes ≡ sleeping t us)))
unfolding settle
settle_cases t bytes h r = elim (Bool-cases (leb bytes t.tokens)) [
  | inl e ↦ inl (record t { tokens = t.tokens - bytes }, rw e)
  | inr e ↦ inr (
    ground (arith, e),
    (sleep_us ((bytes - t.tokens) * us_per_sec) t.rate_bytes_per_sec, ground (arith, e)),
  )
]

-- Clock readings far enough apart for a token each, and near enough for no overflow.
abbrev pub Paced : ℕ → ℕ → List ℕ → Type 0
Paced last rate [] = Unit {0}
Paced last rate (now ∷ readings) =
    (us_per_sec ≤ (now - last) * rate) × ((now - last) * rate < i64_bound) × Paced now rate readings

abbrev pub undisturbed : List ℕ → List Turn
undisturbed = map (λ now. (now, λ t. t))

round-refill :
    (t u : Throttle) (bytes now : ℕ) → refill t now ≡ some u → round t bytes now ≡ settle u bytes
unfolding round
round-refill t u bytes now e = rw (e, round)

loop_returns :
    (t : Throttle) (bytes : ℕ) (readings : List ℕ)
    → IsValid t
    → t.burst_bytes < 2 ^ 62
    → 0 < t.rate_bytes_per_sec
    → bytes ≤ t.burst_bytes
    → bytes * us_per_sec < i64_bound
    → Paced t.last_refill_us t.rate_bytes_per_sec readings
    → bytes - t.tokens < length readings
    → (u : Throttle) × (loop t bytes (undisturbed readings) ≡ returned u)
unfolding loop topped
loop_returns t bytes [] v b r h k p n = absurd (omega arith)
loop_returns t bytes (now ∷ readings) v b r h k p n =
    let e = refill_earns t now v b p.0 p.1 in
    elim (settle_cases (topped t now) bytes k r) [
      | inl (u, q) ↦ (u, rw (round-refill t _ bytes now e.0, q, loop))
      | inr (short, (us, q)) ↦
          let rest =
            loop_returns (topped t now) bytes readings (record { capped = ground arith }) b r h k
              p.2 (omega (arith, e.1, short, n, h)) in
          (rest.0, rw (round-refill t _ bytes now e.0, q, loop) (rest.1))
    ]

-- A call within the burst returns: with throttling on at a positive rate, nobody else at the
-- throttle, numbers within i64, and clock readings each worth a token at least, the call has its
-- bytes after at most one reading more than the tokens that it lacks.
pub wait_returns :
    (t : Throttle) (bytes : ℕ) (readings : List ℕ)
    → IsValid t
    → t.burst_bytes < 2 ^ 62
    → t.enabled ≡ true
    → 0 < t.rate_bytes_per_sec
    → bytes ≤ t.burst_bytes
    → bytes * us_per_sec < i64_bound
    → Paced t.last_refill_us t.rate_bytes_per_sec readings
    → bytes - t.tokens < length readings
    → (u : Throttle) × (wait t (pos bytes) (undisturbed readings) ≡ returned u)
unfolding wait
wait_returns t bytes readings v b on r h k p n = elim (Bool-cases (bytes == 0)) [
  | inl z ↦ (t, ground (arith, z))
  | inr z ↦
      let rest = loop_returns t bytes readings v b r h k p n in (rest.0, ground (arith, z, rest.1))
]

refill_zero_rate : (t : Throttle) (now : ℕ) → t.rate_bytes_per_sec ≡ 0 → refill t now ≡ some t
unfolding refill
refill_zero_rate t now z = ground (arith, z)

settle_zero_rate :
    (t : Throttle) (bytes : ℕ)
    → t.rate_bytes_per_sec ≡ 0
    → t.tokens < bytes
    → (bytes - t.tokens) * us_per_sec < i64_bound
    → settle t bytes ≡ division_by_zero
unfolding settle
settle_zero_rate t bytes z h k = ground (arith, z)

-- Rate 0 set while a thread sleeps in the loop: at its next round it divides by zero, whatever the
-- time. (The rate is read again after the sleep, its test against 0 is not made again.)
pub set_rate_zero_divides :
    (t u w : Throttle) (bytes now later us : ℕ) (rest : List Turn) (others : Throttle → Throttle)
    → IsValid t
    → round t bytes now ≡ sleeping u us
    → set_rate u (pos 0) ≡ ok w
    → loop t bytes ((now, λ _. w) ∷ (later, others) ∷ rest) ≡ divided_by_zero
unfolding loop set_rate
set_rate_zero_divides t u w bytes now later us rest others v e s =
    let f = round-sleeping t bytes now v e in
    rw (e, loop)
      (rw (
        round-refill w w bytes later (refill_zero_rate w later (ground (arith, s))),
        settle_zero_rate w bytes (ground (arith, s)) (ground (arith, s, f.short))
            (ground (arith, s, f.scaled)),
      ))
