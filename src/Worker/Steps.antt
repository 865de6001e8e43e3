-- ===== src/Worker/Steps.antt =====
-- What the threads of src/migration/worker.c keep true, in every order of their actions.
use buckets.Prelude.{
  ℕ, zero, suc, ◌+◌, ◌-◌, ◌≡◌, refl, sym, ap, ◌∙◌, true, false, List, [], ◌∷◌, some, get_elem?, set,
  replicate, arith, inl, inr, ◌⊎◌,
}
use buckets.Prelude.Maybe.{some_injective}
use buckets.Status.{Result, ok, err}
use buckets.Scanner.{Task}
use buckets.Worker.{
  TaskQueue, execute_migration_with_retry, Phase, ready, taken, active, finished, exited, Pool,
  pool_create, record_outcome, AllExited, Step, submit, pop, mark_active, run, mark_idle, leave,
  start, request_stop, joined, Runs, here, then_step,
}
use buckets.Worker.Fifo.{IsValid, push_inv, pop_inv, leave_inv}
use buckets.Worker.Threads.{
  in_hand, is_counted, has_left, total, total-set, total-replicate-ready, total_exited,
  IsConsistent, create-IsConsistent,
}

exited_at :
    (xs : List Phase) (i : ℕ) (x : Phase) → get_elem? xs i ≡ some x → AllExited xs → x ≡ exited
exited_at [] i x h all = cc
exited_at (z ∷ xs) zero x h (e, all) = sym (some_injective z x h) ∙ e
exited_at (z ∷ xs) (suc i) x h (e, all) = exited_at xs i x h all

-- A pool with a worker in its loop is running.
still_running :
    {p : Pool} (i : ℕ) {x : Phase} (xs : List Phase)
    → IsConsistent p
    → get_elem? p.threads i ≡ some x
    → total has_left (x ∷ []) ≡ 0
    → p.running ≡ false
    → AllExited xs
unfolding total
still_running {p} i {x} xs c at loops idle =
    absurd (omega (arith, loops, ap has_left (exited_at p.threads i x at (c.stopped idle))))

still_closed :
    {p : Pool} (i : ℕ) {x : Phase} (y : Phase)
    → IsConsistent p
    → get_elem? p.threads i ≡ some x
    → total has_left (x ∷ []) ≡ 0
    → total has_left (y ∷ []) ≡ 0
    → (p.queue.shutdown ≡ true) × (p.queue.count ≡ 0) ⊎ (total has_left (set p.threads i y) ≡ 0)
unfolding total
still_closed {p} i {x} y c at loops loops' = elim c.closed [
  | inl shut ↦ inl shut
  | inr none_left ↦
      inr (omega (arith, total-set has_left p.threads i x y at, loops, loops', none_left))
]

pop-IsConsistent :
    (p : Pool) (i : ℕ) (task : Task) (q : TaskQueue)
    → IsConsistent p
    → get_elem? p.threads i ≡ some ready
    → IsValid q × (p.queue.count ≡ q.count + 1) × (q.shutdown ≡ p.queue.shutdown)
    → IsConsistent (record p { queue = q; threads = set p.threads i (taken task) })
unfolding total
pop-IsConsistent p i task q c at (sound, one_less, same) = record {
  sound = sound;
  counted = omega (arith, c.counted, total-set is_counted p.threads i ready (taken task) at);
  conserved =
      omega (arith, c.conserved, one_less, total-set in_hand p.threads i ready (taken task) at);
  closed = elim (still_closed i (taken task) c at refl refl) [
    | inl (shut, empty) ↦ absurd (omega (arith, one_less, empty))
    | inr none_left ↦ inr none_left
  ];
  stopped = still_running i (set p.threads i (taken task)) c at refl;
}

mark_active-IsConsistent :
    (p : Pool) (i : ℕ) (task : Task)
    → IsConsistent p
    → get_elem? p.threads i ≡ some (taken task)
    → IsConsistent (record p {
      active_workers = p.active_workers + 1;
      threads = set p.threads i (active task);
    })
unfolding total
mark_active-IsConsistent p i task c at = record {
  sound = c.sound;
  counted =
      omega (arith, c.counted, total-set is_counted p.threads i (taken task) (active task) at);
  conserved =
      omega (arith, c.conserved, total-set in_hand p.threads i (taken task) (active task) at);
  closed = still_closed i (active task) c at refl refl;
  stopped = still_running i (set p.threads i (active task)) c at refl;
}

run-IsConsistent :
    (p : Pool) (i : ℕ) (task : Task) (result : Result (Unit {0}))
    → IsConsistent p
    → get_elem? p.threads i ≡ some (active task)
    → IsConsistent
        (record (record_outcome p task result) { threads = set p.threads i (finished task) })
unfolding total
run-IsConsistent p i task (ok u) c at = record {
  sound = c.sound;
  counted =
      omega (arith, c.counted, total-set is_counted p.threads i (active task) (finished task) at);
  conserved =
      omega (arith, c.conserved, total-set in_hand p.threads i (active task) (finished task) at);
  closed = still_closed i (finished task) c at refl refl;
  stopped = still_running i (set p.threads i (finished task)) c at refl;
}
run-IsConsistent p i task (err e) c at = record {
  sound = c.sound;
  counted =
      omega (arith, c.counted, total-set is_counted p.threads i (active task) (finished task) at);
  conserved =
      omega (arith, c.conserved, total-set in_hand p.threads i (active task) (finished task) at);
  closed = still_closed i (finished task) c at refl refl;
  stopped = still_running i (set p.threads i (finished task)) c at refl;
}

mark_idle-IsConsistent :
    (p : Pool) (i : ℕ) (task : Task)
    → IsConsistent p
    → get_elem? p.threads i ≡ some (finished task)
    → IsConsistent
        (record p { active_workers = p.active_workers - 1; threads = set p.threads i ready })
unfolding total
mark_idle-IsConsistent p i task c at = record {
  sound = c.sound;
  counted = omega (arith, c.counted, total-set is_counted p.threads i (finished task) ready at);
  conserved = omega (arith, c.conserved, total-set in_hand p.threads i (finished task) ready at);
  closed = still_closed i ready c at refl refl;
  stopped = still_running i (set p.threads i ready) c at refl;
}

leave-IsConsistent :
    (p : Pool) (i : ℕ)
    → IsConsistent p
    → get_elem? p.threads i ≡ some ready
    → (p.queue.count ≡ 0) × (p.queue.shutdown ≡ true)
    → IsConsistent (record p { threads = set p.threads i exited })
unfolding total
leave-IsConsistent p i c at (empty, shut) = record {
  sound = c.sound;
  counted = omega (arith, c.counted, total-set is_counted p.threads i ready exited at);
  conserved = omega (arith, c.conserved, total-set in_hand p.threads i ready exited at);
  closed = inl (shut, empty);
  stopped = still_running i (set p.threads i exited) c at refl;
}

start-IsConsistent :
    (p : Pool)
    → IsConsistent p
    → p.running ≡ false
    → IsConsistent (record p { running = true; threads = replicate p.num_workers ready })
start-IsConsistent p c idle = record {
  sound = c.sound;
  counted =
      c.counted
      ∙ total_exited is_counted p.threads (c.stopped idle) refl
      ∙ sym (total-replicate-ready is_counted p.num_workers refl);
  conserved = omega (
    arith,
    c.conserved,
    total_exited in_hand p.threads (c.stopped idle) refl,
    total-replicate-ready in_hand p.num_workers refl,
  );
  closed = inr (total-replicate-ready has_left p.num_workers refl);
  stopped = λ e. cc;
}

submit-IsConsistent :
    (p : Pool) (q : TaskQueue)
    → IsConsistent p
    → IsValid q × (q.count ≡ p.queue.count + 1) × (p.queue.shutdown ≡ false) × (q.shutdown ≡ false)
    → IsConsistent (record p { queue = q; submitted = p.submitted + 1 })
submit-IsConsistent p q c (sound, one_more, up, up') = record {
  sound = sound;
  counted = c.counted;
  conserved = omega (arith, c.conserved, one_more);
  closed = elim c.closed [
    | inl (shut, empty) ↦ absurd (ground (arith, shut, up))
    | inr none_left ↦ inr none_left
  ];
  stopped = c.stopped;
}

-- Every action of every thread keeps the pool consistent.
step-IsConsistent : (p p' : Pool) → Step p p' → IsConsistent p → IsConsistent p'
step-IsConsistent _ _ (submit p task q running pushed) c =
    submit-IsConsistent p q c (push_inv p.queue q task c.sound pushed)
step-IsConsistent _ _ (pop p i task q at popped) c =
    pop-IsConsistent p i task q c at (pop_inv p.queue q task c.sound popped)
step-IsConsistent _ _ (mark_active p i task at) c = mark_active-IsConsistent p i task c at
step-IsConsistent _ _ (run p i task attempt at) c =
    run-IsConsistent p i task (execute_migration_with_retry attempt).0 c at
step-IsConsistent _ _ (mark_idle p i task at) c = mark_idle-IsConsistent p i task c at
step-IsConsistent _ _ (leave p i at left) c = leave-IsConsistent p i c at (leave_inv p.queue left)
step-IsConsistent _ _ (start p idle) c = start-IsConsistent p c idle
step-IsConsistent _ _ (request_stop p running) c = record {
  sound = record {
    allocated = c.sound.allocated;
    positive = c.sound.positive;
    fits = c.sound.fits;
    head_inside = c.sound.head_inside;
    tail_lem = c.sound.tail_lem;
  };
  counted = c.counted;
  conserved = c.conserved;
  closed = elim c.closed [ inl (shut, empty) ↦ inl (refl, empty) | inr none_left ↦ inr none_left ];
  stopped = c.stopped;
}
step-IsConsistent _ _ (joined p running all) c = record {
  sound = c.sound;
  counted = c.counted;
  conserved = c.conserved;
  closed = c.closed;
  stopped = λ e. all;
}

pub runs-IsConsistent : (p p' : Pool) → Runs p p' → IsConsistent p → IsConsistent p'
runs-IsConsistent p _ here c = c
runs-IsConsistent p _ (then_step q r before last) c =
    step-IsConsistent q r last (runs-IsConsistent p q before c)

-- From the creation of the pool on, in every order of the threads' actions, the queue is sound, the count of active workers is
-- the number of threads that it should count, each task submitted is in the queue, in the hands of one worker or counted once as
-- completed or failed, and a worker leaves its loop only after a shutdown, when the queue is empty for good.
pub pool_create-IsConsistent :
    (num_workers : ℕ) (p : Pool) → Runs (pool_create num_workers) p → IsConsistent p
pool_create-IsConsistent num_workers p runs =
    runs-IsConsistent (pool_create num_workers) p runs (create-IsConsistent num_workers)
