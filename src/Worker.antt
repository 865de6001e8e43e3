-- ===== src/Worker.antt =====
-- The pool of migration workers, src/migration/worker.c: the ring buffer of tasks, a migration with its
-- retries, and the threads of the pool as a step relation.
pub mod Fifo
pub mod Retry
pub mod Threads
pub mod Steps
pub mod Waits
mod Tests
use buckets.Prelude.{
  ℕ, zero, suc, ◌+◌, ◌-◌, ◌*◌, ◌%◌, ◌≡◌, Bool, true, false, not, ◌&&◌, List, [], ◌∷◌, ◌++◌, Option,
  none, some, length, get_or, get_elem?, set, replicate, if◌then◌else◌, leb, ltb, ◌==◌,
}
use buckets.Prelude.Maybe.{◌>>=◌}
use buckets.Prelude.Int.{ℤ, pos}
use buckets.Status.{Result, ok, err, invalid_arg, io}
use buckets.Topology.{SetTopology, PoolTopology, ClusterTopology}
use buckets.Scanner.{Task}

-- `task_queue_t`: the array, and what the lock protects.
pub record TaskQueue : Type 0 where
  pub tasks : List Task
  pub capacity : ℕ
  pub count : ℕ
  pub head : ℕ
  pub tail : ℕ
  pub shutdown : Bool

-- What `buckets_calloc` leaves in the array.
abbrev pub blank_task : Task
blank_task = record {
  bucket = [];
  object = [];
  old_pool_idx = 0;
  old_set_idx = 0;
  new_pool_idx = 0;
  new_set_idx = 0;
  size = 0;
  mod_time = pos 0;
}

unfoldable pub task_queue_init : ℕ → TaskQueue
task_queue_init capacity = record {
  tasks = replicate capacity blank_task;
  capacity = capacity;
  count = 0;
  head = 0;
  tail = 0;
  shutdown = false;
}

-- `task_queue_push` once it has the lock; `none` means that it waits for `not_full`.
unfoldable pub task_queue_push : TaskQueue → Task → Option (Result TaskQueue)
task_queue_push q task =
    if leb q.capacity q.count && not q.shutdown
    then none
    else if q.shutdown
    then some (err invalid_arg)
    else some (
        ok (record q {
          tasks = set q.tasks q.tail task;
          tail = (q.tail + 1) % q.capacity;
          count = q.count + 1;
        }))

-- `task_queue_pop` once it has the lock; `none` means that it waits for `not_empty`, and `some none` is
-- the return of false.
unfoldable pub task_queue_pop : TaskQueue → Option (Option (Task × TaskQueue))
task_queue_pop q =
    if (q.count == 0) && not q.shutdown
    then none
    else if (q.count == 0) && q.shutdown
    then some none
    else some (
        some (
          get_or q.tasks q.head blank_task,
          record q { head = (q.head + 1) % q.capacity; count = q.count - 1 },
        ))

abbrev pub task_queue_shutdown : TaskQueue → TaskQueue
task_queue_shutdown q = record q { shutdown = true }

-- The set that a pool and a set index of a topology name; `none` is a read out of bounds.
abbrev pub set_of : ClusterTopology → ℕ → ℕ → Option SetTopology
set_of t p s = get_elem? t.pools p >>= (λ pool. get_elem? pool.sets s)

abbrev pub require_disks : SetTopology → Result (Unit {0})
require_disks found = if length found.disks == 0 then err invalid_arg else ok tt

-- `execute_migration` without the counters. The transfer itself is a placeholder in the source: reading
-- and writing check that the set has disks, and the registry and the source copy are left alone.
unfoldable pub execute_migration :
    ClusterTopology → ClusterTopology → Task → Option (Result (Unit {0}))
execute_migration old new task = do
  source ← set_of old task.old_pool_idx task.old_set_idx
  elim (require_disks source) [
    | err e ↦ some (err e)
    | ok u ↦ do target ← set_of new task.new_pool_idx task.new_set_idx; some (require_disks target)
  ]

abbrev pub max_retry_attempts : ℕ
max_retry_attempts = 3

abbrev pub initial_retry_delay_ms : ℕ
initial_retry_delay_ms = 100

abbrev pub max_retry_delay_ms : ℕ
max_retry_delay_ms = 5000

abbrev pub next_delay : ℕ → ℕ
next_delay delay_ms =
    if ltb max_retry_delay_ms (delay_ms * 2) then max_retry_delay_ms else delay_ms * 2

-- The loop of `execute_migration_with_retry` with `left` attempts to go, where `attempt n` is what
-- `execute_migration` answers after `n` failures; with the delays slept.
unfoldable pub retry : (ℕ → Result (Unit {0})) → ℕ → ℕ → ℕ → Result (Unit {0}) × List ℕ
retry attempt zero attempts delay_ms = (err io, [])
retry attempt (suc left) attempts delay_ms =
    let rest = retry attempt left (attempts + 1) (next_delay delay_ms) in
    elim (attempt attempts) [
      | ok u ↦ (ok tt, [])
      | err e ↦ if ltb (attempts + 1) max_retry_attempts then (rest.0, delay_ms ∷ rest.1) else rest
    ]

unfoldable pub execute_migration_with_retry : (ℕ → Result (Unit {0})) → Result (Unit {0}) × List ℕ
unfolding retry
execute_migration_with_retry attempt = retry attempt max_retry_attempts 0 initial_retry_delay_ms

-- Where a worker thread is in the loop of `worker_thread_main`: before the pop, between the pop and the
-- count of active workers, before the migration, after it, or out of the loop.
pub data Phase : Type 0 where
  ready : Phase
  taken : Task → Phase
  active : Task → Phase
  finished : Task → Phase
  exited : Phase

-- `struct buckets_worker_pool`, with its threads. `submitted` counts the tasks pushed, which the code does
-- not keep.
pub record Pool : Type 0 where
  pub num_workers : ℕ
  pub queue : TaskQueue
  pub tasks_completed : ℕ
  pub tasks_failed : ℕ
  pub bytes_migrated : ℕ
  pub active_workers : ℕ
  pub running : Bool
  pub threads : List Phase
  pub submitted : ℕ

-- `buckets_worker_pool_create`; a count of 0 stands for one that is not positive.
unfoldable pub pool_create : ℕ → Pool
unfolding task_queue_init
pool_create num_workers = record {
  num_workers = if num_workers == 0 then 16 else num_workers;
  queue = task_queue_init 10000;
  tasks_completed = 0;
  tasks_failed = 0;
  bytes_migrated = 0;
  active_workers = 0;
  running = false;
  threads = [];
  submitted = 0;
}

-- The counters after `execute_migration_with_retry`.
abbrev pub record_outcome : Pool → Task → Result (Unit {0}) → Pool
record_outcome p task (ok u) = record p {
  tasks_completed = p.tasks_completed + 1;
  bytes_migrated = p.bytes_migrated + task.size;
}
record_outcome p task (err e) = record p { tasks_failed = p.tasks_failed + 1 }

-- The test by which `buckets_worker_pool_wait` ends. The count of the queue is read in one state and, under another lock,
-- the count of active workers in a later one.
abbrev pub wait_is_over : Pool → Pool → Bool
wait_is_over p q = (p.queue.count == 0) && (q.active_workers == 0)

abbrev pub AllExited : List Phase → Type 0
AllExited [] = Unit {0}
AllExited (x ∷ xs) = (x ≡ exited) × AllExited xs

-- One atomic action of a thread: a caller of submit, start or stop, or worker `i`.
pub data Step : Pool → Pool → Type 0 where
  -- An iteration of `buckets_worker_pool_submit`.
  submit :
      (p : Pool) (task : Task) (q : TaskQueue)
      → p.running ≡ true
      → task_queue_push p.queue task ≡ some (ok q)
      → Step p (record p { queue = q; submitted = p.submitted + 1 })
  pop :
      (p : Pool) (i : ℕ) (task : Task) (q : TaskQueue)
      → get_elem? p.threads i ≡ some ready
      → task_queue_pop p.queue ≡ some (some (task, q))
      → Step p (record p { queue = q; threads = set p.threads i (taken task) })
  mark_active :
      (p : Pool) (i : ℕ) (task : Task)
      → get_elem? p.threads i ≡ some (taken task)
      → Step p (record p {
        active_workers = p.active_workers + 1;
        threads = set p.threads i (active task);
      })
  run :
      (p : Pool) (i : ℕ) (task : Task) (attempt : ℕ → Result (Unit {0}))
      → get_elem? p.threads i ≡ some (active task)
      → Step p (record (record_outcome p task (execute_migration_with_retry attempt).0) {
        threads = set p.threads i (finished task);
      })
  mark_idle :
      (p : Pool) (i : ℕ) (task : Task)
      → get_elem? p.threads i ≡ some (finished task)
      → Step p (record p { active_workers = p.active_workers - 1; threads = set p.threads i ready })
  leave :
      (p : Pool) (i : ℕ)
      → get_elem? p.threads i ≡ some ready
      → task_queue_pop p.queue ≡ some none
      → Step p (record p { threads = set p.threads i exited })
  -- `buckets_worker_pool_start`, whose threads could all be created.
  start :
      (p : Pool)
      → p.running ≡ false
      → Step p (record p { running = true; threads = replicate p.num_workers ready })
  -- The two halves of `buckets_worker_pool_stop`.
  request_stop :
      (p : Pool) → p.running ≡ true → Step p (record p { queue = task_queue_shutdown p.queue })
  joined :
      (p : Pool) → p.running ≡ true → AllExited p.threads → Step p (record p { running = false })

-- The runs of the pool, by the last action.
pub data Runs (p : Pool) : Pool → Type 0 where
  here : Runs p p
  then_step : (q r : Pool) → Runs p q → Step q r → Runs p r
