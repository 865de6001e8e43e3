-- ===== src/Worker/Waits.antt =====
-- What `buckets_worker_pool_wait` and `buckets_worker_pool_stop` of src/migration/worker.c promise.
use buckets.Prelude.{
  get_or-set_self, ℕ, zero, suc, ◌+◌, ◌-◌, ◌<◌, ◌≤◌, ◌≡◌, refl, sym, ap, ◌∙◌, true, false, List, [],
  ◌∷◌, some, length, length-replicate, ◌%◌, get_elem?, set, replicate, arith, inl, inr,
}
use buckets.Status.{ok, err}
use buckets.Scanner.{Task}
use buckets.Worker.{
  TaskQueue, task_queue_push, task_queue_pop, execute_migration_with_retry, Phase, ready, taken,
  active, finished, exited, Pool, pool_create, blank_task, record_outcome, AllExited, wait_is_over,
  Step, submit, pop, mark_active, run, mark_idle, leave, start, request_stop, joined, Runs, here,
  then_step,
}
use buckets.Worker.Threads.{in_hand, is_counted, has_left, total, total_exited, IsConsistent}
use buckets.Worker.Steps.{runs-IsConsistent, pool_create-IsConsistent}
use buckets.Worker.Fifo.{push_inv, pop_inv}

-- A thread that has a task and is not counted as active yet.
abbrev pub is_taken : Phase → ℕ
is_taken ready = 0
is_taken (taken t) = 1
is_taken (active t) = 0
is_taken (finished t) = 0
is_taken exited = 0

in_hand_taken : (xs : List Phase) → total is_counted xs ≡ 0 → total in_hand xs ≡ total is_taken xs
unfolding total
in_hand_taken [] h = refl
in_hand_taken (ready ∷ xs) h = omega (arith, in_hand_taken xs)
in_hand_taken (taken t ∷ xs) h = omega (arith, in_hand_taken xs)
in_hand_taken (active t ∷ xs) h = absurd (omega arith)
in_hand_taken (finished t ∷ xs) h = absurd (omega arith)
in_hand_taken (exited ∷ xs) h = omega (arith, in_hand_taken xs)

-- The queue grows by no more than what is submitted.
grows :
    (p p' : Pool)
    → IsConsistent p
    → Step p p'
    → p'.queue.count + p.submitted ≤ p.queue.count + p'.submitted
grows _ _ c (submit p task q running pushed) = omega (arith, push_inv p.queue q task c.sound pushed)
grows _ _ c (pop p i task q at popped) = omega (arith, pop_inv p.queue q task c.sound popped)
grows _ _ c (mark_active p i task at) = omega arith
grows _ _ c (run p i task attempt at) =
    elim (execute_migration_with_retry attempt).0
      as (λ r.
        (record_outcome p task r).queue.count + p.submitted
        ≤ p.queue.count + (record_outcome p task r).submitted) [
          | ok u ↦ omega arith
          | err e ↦ omega arith
        ]
grows _ _ c (mark_idle p i task at) = omega arith
grows _ _ c (leave p i at left) = omega arith
grows _ _ c (start p idle) = omega arith
grows _ _ c (request_stop p running) = omega arith
grows _ _ c (joined p running all) = omega arith

runs-grows :
    (p p' : Pool)
    → IsConsistent p
    → Runs p p'
    → p'.queue.count + p.submitted ≤ p.queue.count + p'.submitted
runs-grows p _ c here = omega arith
runs-grows p _ c (then_step q r before last) =
    omega (arith, runs-grows p q c before, grows q r (runs-IsConsistent p q before c) last)

-- Where the test of `buckets_worker_pool_wait` holds, which reads the count of the queue and later, with any actions of
-- the threads in between, the count of active workers: when it returns, every task that had been submitted when it read the
-- first count has been migrated or has failed, but for as many as workers have popped and are about to count as active. A task that
-- is submitted between the two reads may still be queued.
pub wait_is_over_lem :
    (num_workers : ℕ) (p q : Pool)
    → Runs (pool_create num_workers) p
    → Runs p q
    → wait_is_over p q ≡ true
    → p.submitted ≤ q.tasks_completed + q.tasks_failed + total is_taken q.threads
wait_is_over_lem num_workers p q runs later over =
    let c = pool_create-IsConsistent num_workers p runs in
    let d = runs-IsConsistent p q later c in
    let quiet : (p.queue.count ≡ 0) × (q.active_workers ≡ 0) = ground (arith, over) in
    omega (
      arith,
      d.conserved,
      quiet,
      in_hand_taken q.threads (sym d.counted ∙ quiet.1),
      runs-grows p q c later,
    )

-- A queue with one task pushed, and the same queue when the task has been popped.
abbrev queued : TaskQueue → Task → TaskQueue
queued q task = record q {
  tasks = set q.tasks q.tail task;
  tail = (q.tail + 1) % q.capacity;
  count = q.count + 1;
}

abbrev emptied : TaskQueue → Task → TaskQueue
emptied q task = record (queued q task) {
  head = (q.head + 1) % q.capacity;
  count = q.count + 1 - 1;
}

push_first :
    (q : TaskQueue) (task : Task)
    → q.count ≡ 0
    → 0 < q.capacity
    → q.shutdown ≡ false
    → task_queue_push q task ≡ some (ok (queued q task))
unfolding task_queue_push
push_first q task empty room up = ground (arith, empty, room, up)

pop_first :
    (q : TaskQueue) (task : Task)
    → q.count ≡ 0
    → q.head ≡ q.tail
    → q.tail < length q.tasks
    → task_queue_pop (queued q task) ≡ some (some (task, emptied q task))
unfolding task_queue_pop
pop_first q task empty same inside =
    ground (arith, empty, same, get_or-set_self q.tasks q.tail task blank_task inside)

first_ready : (m : ℕ) → 0 < m → get_elem? (replicate m ready) 0 ≡ some ready
first_ready zero h = elim h [ ]
first_ready (suc m) h = refl

some_worker : (n : ℕ) → 0 < (pool_create (suc n)).num_workers
unfolding pool_create
some_worker n = ground arith

-- With any task and at least one worker there is a run after which `buckets_worker_pool_wait` returns, although
-- the task has been submitted and neither migrated nor given up: a worker has popped it and is not counted yet.
pub wait_returns_early :
    (n : ℕ) (task : Task)
    → (p : Pool) × Runs (pool_create (suc n)) p
      × (wait_is_over p p ≡ true)
      × (p.submitted ≡ 1)
      × (p.tasks_completed + p.tasks_failed ≡ 0)
unfolding pool_create
wait_returns_early n task =
    let p0 = pool_create (suc n) in
    let p1 : Pool = record p0 { running = true; threads = replicate p0.num_workers ready } in
    let p2 : Pool = record p1 { queue = queued p1.queue task; submitted = 1 } in
    let p3 : Pool = record p2 {
      queue = emptied p1.queue task;
      threads = set p2.threads 0 (taken task);
    } in
    (
      p3,
      then_step p2 p3
          (then_step p1 p2 (then_step p0 p1 here (start p0 refl))
            (submit p1 task p2.queue refl (push_first p1.queue task refl (omega arith) refl)))
          (pop p2 0 task p3.queue (first_ready p0.num_workers (some_worker n))
            (pop_first p1.queue task refl refl (omega (arith, length-replicate 10000 blank_task)))),
      refl,
      refl,
      refl,
    )

keeps_shut :
    (p p' : Pool)
    → Step p p'
    → p.queue.shutdown ≡ true
    → (p'.queue.shutdown ≡ true) × (p'.submitted ≡ p.submitted)
unfolding task_queue_push task_queue_pop
keeps_shut _ _ (submit p task q running pushed) down = absurd (ground (arith, pushed, down))
keeps_shut _ _ (pop p i task q at popped) down = (ground (arith, popped, down), refl)
keeps_shut _ _ (mark_active p i task at) down = (down, refl)
keeps_shut _ _ (run p i task attempt at) down =
    elim (execute_migration_with_retry attempt).0
      as (λ r.
        ((record_outcome p task r).queue.shutdown ≡ true)
        × ((record_outcome p task r).submitted ≡ p.submitted)) [
          | ok u ↦ (down, refl)
          | err e ↦ (down, refl)
        ]
keeps_shut _ _ (mark_idle p i task at) down = (down, refl)
keeps_shut _ _ (leave p i at left) down = (down, refl)
keeps_shut _ _ (start p idle) down = (down, refl)
keeps_shut _ _ (request_stop p running) down = (refl, refl)
keeps_shut _ _ (joined p running all) down = (down, refl)

one_left : (xs : List Phase) → 0 < length xs → AllExited xs → 0 < total has_left xs
unfolding total
one_left [] h all = elim h [ ]
one_left (x ∷ xs) h (e, all) = omega (arith, ap has_left e)

all_left :
    (p : Pool) → IsConsistent p → 0 < length p.threads → AllExited p.threads → p.queue.count ≡ 0
all_left p c some_thread all = elim c.closed [
  | inl (shut, empty) ↦ empty
  | inr none_left ↦ absurd (omega (arith, none_left, one_left p.threads some_thread all))
]

-- Once a pool has been asked to stop, as a pause does, the queue stays shut, so that no task is submitted any
-- more, also when the pool is started again.
pub request_stop_lasts :
    (p p' : Pool)
    → Runs p p'
    → p.queue.shutdown ≡ true
    → (p'.queue.shutdown ≡ true) × (p'.submitted ≡ p.submitted)
request_stop_lasts p _ here down = (down, refl)
request_stop_lasts p _ (then_step q r before last) down =
    let (down', same) = request_stop_lasts p q before down in
    let (down'', same') = keeps_shut q r last down' in (down'', same' ∙ same)

-- Where `buckets_worker_pool_stop` has joined the threads of a running pool, nothing is left to migrate:
-- every task submitted has been migrated or has failed.
pub joined_done :
    (num_workers : ℕ) (p : Pool)
    → Runs (pool_create num_workers) p
    → 0 < length p.threads
    → AllExited p.threads
    → (p.queue.count ≡ 0) × (p.submitted ≡ p.tasks_completed + p.tasks_failed)
unfolding total
joined_done num_workers p runs some_thread all =
    let c = pool_create-IsConsistent num_workers p runs in
    let empty = all_left p c some_thread all in
    (empty, omega (arith, c.conserved, empty, total_exited in_hand p.threads all refl))
