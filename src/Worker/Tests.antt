-- ===== src/Worker/Tests.antt =====
-- Runs of the pool of src/migration/worker.c, and its theorems at concrete pools.
use buckets.Prelude.{
  ℕ, zero, suc, ◌+◌, ◌<◌, ◌≤◌, ◌≡◌, refl, true, false, [], ◌∷◌, ◌++◌, ◌⊎◌, none, some, arith,
  replicate, set,
}
use buckets.Status.{Result, ok, err, invalid_arg, io, Error}
use buckets.Text.{codes}
use buckets.Scanner.{Task}
use buckets.Worker.{
  TaskQueue, blank_task, task_queue_init, task_queue_push, task_queue_pop, task_queue_shutdown,
  execute_migration_with_retry, ready, exited, Pool, pool_create, wait_is_over, leave, start,
  request_stop, Runs, here, then_step,
}
use buckets.Worker.Fifo.{
  IsValid, contents, read_round, with_task, without_first, task_queue_push_lem, task_queue_pop_lem,
  init-IsValid,
}
use buckets.Worker.Retry.{execute_migration_with_retry_lem}
use buckets.Worker.Threads.{IsConsistent, total}
use buckets.Worker.Steps.{pool_create-IsConsistent}
use buckets.Worker.Waits.{is_taken, wait_is_over_lem, wait_returns_early}

abbrev cat : Task
cat = record blank_task { bucket = codes "photos"; object = codes "cat"; size = 7 }

abbrev small : TaskQueue
small = task_queue_init 2

small-IsValid : IsValid small
small-IsValid = init-IsValid 2 (omega arith)

-- Two tasks go round the end of the array of two.
push_pop_push : contents (with_task (without_first (with_task small blank_task)) cat) ≡ cat ∷ []
unfolding read_round task_queue_init
push_pop_push = refl

task_queue_push_lem_example :
    ((task_queue_push small cat ≡ none) × (small.count ≡ small.capacity) × (small.shutdown ≡ false))
    ⊎ ((task_queue_push small cat ≡ some (err invalid_arg)) × (small.shutdown ≡ true))
    ⊎ ((q' : TaskQueue) × (task_queue_push small cat ≡ some (ok q'))
        × (small.shutdown ≡ false)
        × (small.count < small.capacity)
        × IsValid q'
        × (contents q' ≡ contents small ++ cat ∷ []))
task_queue_push_lem_example = task_queue_push_lem small cat small-IsValid

task_queue_pop_lem_example :
    ((task_queue_pop small ≡ none) × (contents small ≡ []) × (small.shutdown ≡ false))
    ⊎ ((task_queue_pop small ≡ some none) × (contents small ≡ []) × (small.shutdown ≡ true))
    ⊎ ((task : Task) × (q' : TaskQueue) × (task_queue_pop small ≡ some (some (task, q')))
        × IsValid q'
        × (contents small ≡ task ∷ contents q'))
task_queue_pop_lem_example = task_queue_pop_lem small small-IsValid

-- The second attempt succeeds.
abbrev second_time : ℕ → Result (Unit {0})
second_time zero = err io
second_time (suc n) = ok tt

retried : execute_migration_with_retry second_time ≡ (ok tt, 100 ∷ [])
unfolding execute_migration_with_retry
retried = refl

execute_migration_with_retry_lem_example :
    ((second_time 0 ≡ ok tt) × (execute_migration_with_retry second_time ≡ (ok tt, [])))
    ⊎ ((e : Error) × (second_time 0 ≡ err e)
        × (((second_time 1 ≡ ok tt)
              × (execute_migration_with_retry second_time ≡ (ok tt, 100 ∷ [])))
            ⊎ ((e' : Error) × (second_time 1 ≡ err e')
                × (((second_time 2 ≡ ok tt)
                      × (execute_migration_with_retry second_time ≡ (ok tt, 100 ∷ 200 ∷ [])))
                    ⊎ ((e'' : Error) × (second_time 2 ≡ err e'')
                        × (execute_migration_with_retry second_time ≡ (err io, 100 ∷ 200 ∷ [])))))))
execute_migration_with_retry_lem_example = execute_migration_with_retry_lem second_time

-- A pool of one worker, started, stopped and joined with no task.
abbrev created : Pool
created = pool_create 1

abbrev running_pool : Pool
running_pool = record created { running = true; threads = replicate created.num_workers ready }

abbrev stopping : Pool
stopping = record running_pool { queue = task_queue_shutdown running_pool.queue }

abbrev emptied : Pool
emptied = record stopping { threads = set stopping.threads 0 exited }

to_emptied : Runs created emptied
unfolding pool_create task_queue_pop
to_emptied =
    then_step stopping emptied
      (then_step running_pool stopping (then_step created running_pool here (start created refl))
        (request_stop running_pool refl))
      (leave stopping 0 refl refl)

pool_create-IsConsistent_example : IsConsistent emptied
pool_create-IsConsistent_example = pool_create-IsConsistent 1 emptied to_emptied

wait_is_over_lem_example :
    created.submitted
    ≤ emptied.tasks_completed + emptied.tasks_failed + total is_taken emptied.threads
unfolding pool_create
wait_is_over_lem_example = wait_is_over_lem 1 created emptied here to_emptied refl

wait_returns_early_example :
    (p : Pool) × Runs (pool_create 16) p
    × (wait_is_over p p ≡ true)
    × (p.submitted ≡ 1)
    × (p.tasks_completed + p.tasks_failed ≡ 0)
wait_returns_early_example = wait_returns_early 15 cat

-- Started again after the stop.
abbrev resumed : Pool
resumed = record emptied { running = true; threads = replicate emptied.num_workers ready }
