-- ===== src/Worker/Threads.antt =====
-- The threads of src/migration/worker.c counted, and the invariant of the pool.
use buckets.Prelude.{
  ℕ, zero, suc, ◌+◌, ◌≡◌, refl, ap, true, false, List, [], ◌∷◌, some, get_elem?, set, replicate,
  arith, inr, ◌⊎◌,
}
use buckets.Prelude.Maybe.{some_injective}
use buckets.Worker.{Phase, ready, taken, active, finished, exited, Pool, pool_create, AllExited}
use buckets.Worker.Fifo.{IsValid, init-IsValid}

-- A task that a thread has popped and not yet migrated, a thread that `active_workers` counts, and a thread that left.
abbrev pub in_hand : Phase → ℕ
in_hand ready = 0
in_hand (taken t) = 1
in_hand (active t) = 1
in_hand (finished t) = 0
in_hand exited = 0

abbrev pub is_counted : Phase → ℕ
is_counted ready = 0
is_counted (taken t) = 0
is_counted (active t) = 1
is_counted (finished t) = 1
is_counted exited = 0

abbrev pub has_left : Phase → ℕ
has_left ready = 0
has_left (taken t) = 0
has_left (active t) = 0
has_left (finished t) = 0
has_left exited = 1

unfoldable pub total : (Phase → ℕ) → List Phase → ℕ
total weight [] = 0
total weight (x ∷ xs) = weight x + total weight xs

pub total-set :
    (weight : Phase → ℕ) (xs : List Phase) (i : ℕ) (x y : Phase)
    → get_elem? xs i ≡ some x
    → total weight (set xs i y) + weight x ≡ total weight xs + weight y
unfolding total
total-set weight [] i x y h = cc
total-set weight (z ∷ xs) zero x y h = omega (arith, ap weight (some_injective z x h))
total-set weight (z ∷ xs) (suc i) x y h = omega (arith, total-set weight xs i x y h)

pub total-replicate-ready :
    (weight : Phase → ℕ) (n : ℕ) → weight ready ≡ 0 → total weight (replicate n ready) ≡ 0
unfolding total
total-replicate-ready weight zero h = refl
total-replicate-ready weight (suc n) h = omega (arith, h, total-replicate-ready weight n h)

pub total_exited :
    (weight : Phase → ℕ) (xs : List Phase) → AllExited xs → weight exited ≡ 0 → total weight xs ≡ 0
unfolding total
total_exited weight [] all h = refl
total_exited weight (x ∷ xs) (e, all) h =
    omega (arith, ap weight e, h, total_exited weight xs all h)

-- Each task submitted is in the queue, in the hands of a worker, or counted as done; a worker leaves only a queue that is empty
-- for good.
pub record IsConsistent (p : Pool) : Type 0 where
  pub sound : IsValid p.queue
  pub counted : p.active_workers ≡ total is_counted p.threads
  pub conserved :
      p.submitted ≡ p.queue.count + total in_hand p.threads + (p.tasks_completed + p.tasks_failed)
  pub closed : (p.queue.shutdown ≡ true) × (p.queue.count ≡ 0) ⊎ (total has_left p.threads ≡ 0)
  pub stopped : p.running ≡ false → AllExited p.threads

pub create-IsConsistent : (num_workers : ℕ) → IsConsistent (pool_create num_workers)
unfolding pool_create total
create-IsConsistent num_workers = record {
  sound = init-IsValid 10000 (omega arith);
  counted = refl;
  conserved = refl;
  closed = inr refl;
  stopped = λ e. tt;
}
