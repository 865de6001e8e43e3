-- ===== src/Job.antt =====
-- The migration job of src/migration/orchestrator.c: its state machine and what the calls of its API do.
pub mod Checkpoint
pub mod Objects
pub mod Roundtrip
pub mod Sample
pub mod Lifecycle
pub mod Outcome
pub mod Waiting
mod Tests
use buckets.Prelude.{
  ℕ, zero, suc, ◌+◌, Bool, true, false, not, ◌&&◌, ◌||◌, List, [], ◌∷◌, ◌++◌, Option, none, some,
  length, if◌then◌else◌, ltb,
}
use buckets.Prelude.Int.{ℤ, pos, negsuc, ◌+ℤ◌, ◌-ℤ◌, ltb_ℤ}
use buckets.Status.{Result, ok, err, invalid_arg, nomem}
use buckets.Text.{Bytes, fit, codes, decimal}
use buckets.Topology.{ClusterTopology}
use buckets.Scanner.{Task}

-- `buckets_migration_state_t`; a checkpoint may hold a number that is none of them.
pub data JobState : Type 0 where
  idle scanning migrating paused completed failed : JobState
  unknown : ℤ → JobState

-- `struct buckets_migration_job`. The scanner and the worker pool are there or not; the throttle and the
-- callback are never read back.
pub record Job : Type 0 where
  pub job_id : Bytes
  pub source_generation : ℤ
  pub target_generation : ℤ
  pub start_time : ℤ
  pub estimated_completion : ℤ
  pub state : JobState
  pub total_objects : ℤ
  pub migrated_objects : ℤ
  pub failed_objects : ℤ
  pub bytes_total : ℤ
  pub bytes_migrated : ℤ
  pub old_topology : Option ClusterTopology
  pub new_topology : Option ClusterTopology
  pub disk_paths : List Bytes
  pub scanner : Bool
  pub worker_pool : Bool
  pub last_checkpoint_time : ℤ
  pub last_checkpoint_objects : ℤ
  pub checkpoint_path : Bytes

unfoldable pub is_valid_transition : JobState → JobState → Bool
is_valid_transition idle scanning = true
is_valid_transition idle failed = true
is_valid_transition scanning migrating = true
is_valid_transition scanning completed = true
is_valid_transition scanning failed = true
is_valid_transition migrating paused = true
is_valid_transition migrating completed = true
is_valid_transition migrating failed = true
is_valid_transition paused migrating = true
is_valid_transition paused failed = true
is_valid_transition from to = false

unfoldable pub transition_state : Job → JobState → Job × Result (Unit {0})
transition_state j to =
    if is_valid_transition j.state to
    then (record j { state = to }, ok tt)
    else (j, err invalid_arg)

-- `%lld`.
abbrev pub signed_decimal : ℤ → Bytes
signed_decimal (pos n) = decimal n
signed_decimal (negsuc n) = b'-' ∷ decimal (suc n)

abbrev pub id_of : ℤ → ℤ → Bytes
id_of source target =
    fit 64
      (codes "migration-gen-" ++ (signed_decimal source ++ (codes "-to-" ++ signed_decimal target)))

-- `buckets_migration_job_create`; `none` is the NULL for an empty array of disks.
unfoldable pub create : ℤ → ℤ → ClusterTopology → ClusterTopology → List Bytes → Option Job
create source target old new [] = none
create source target old new (path ∷ paths) = some (record {
  job_id = id_of source target;
  source_generation = source;
  target_generation = target;
  start_time = pos 0;
  estimated_completion = pos 0;
  state = idle;
  total_objects = pos 0;
  migrated_objects = pos 0;
  failed_objects = pos 0;
  bytes_total = pos 0;
  bytes_migrated = pos 0;
  old_topology = some old;
  new_topology = some new;
  disk_paths = path ∷ paths;
  scanner = false;
  worker_pool = false;
  last_checkpoint_time = pos 0;
  last_checkpoint_objects = pos 0;
  checkpoint_path = fit 256 (codes "/tmp/" ++ (id_of source target ++ codes ".checkpoint"));
})

-- What the calls of `buckets_migration_job_start` return, which depends on the disks and on the threads of the pool.
pub record Calls : Type 0 where
  pub now : ℤ
  pub scanned : Result (List Task)
  pub pool_created : Bool
  pub pool_started : Result (Unit {0})
  pub submitted : Result (Unit {0})

abbrev pub total_size : List Task → ℕ
total_size [] = 0
total_size (task ∷ tasks) = task.size + total_size tasks

abbrev pub is_idle : JobState → Bool
is_idle idle = true
is_idle other = false

abbrev pub is_migrating : JobState → Bool
is_migrating migrating = true
is_migrating other = false

abbrev pub is_paused : JobState → Bool
is_paused paused = true
is_paused other = false

abbrev pub is_terminal : JobState → Bool
is_terminal completed = true
is_terminal failed = true
is_terminal other = false

-- `if (ret != BUCKETS_OK) return ret;`, and the rest.
abbrev pub if_ok :
    Job × Result (Unit {0}) → (Job → Job × Result (Unit {0})) → Job × Result (Unit {0})
if_ok (j, err e) rest = (j, err e)
if_ok (j, ok u) rest = rest j

-- The operations take as `others n` what other threads do to the job while the operation does not hold
-- its lock, before its `n`th next step.
module _ (others : ℕ → Job → Job) where
  -- `return` after the transition to FAILED, whose own result the code drops.
  abbrev pub fail_with : ℕ → Job → Result (Unit {0}) → Job × Result (Unit {0})
  fail_with n j result = ((transition_state (others n j) failed).0, result)

  -- The return after the last call of the pool, with what it answered.
  abbrev pub finish_launch : Result (Unit {0}) → Job → Job × Result (Unit {0})
  finish_launch (err e) j = fail_with 4 j (err e)
  finish_launch (ok u) j = (others 4 j, ok tt)

  abbrev pub use_pool : Result (Unit {0}) → Result (Unit {0}) → Job → Job × Result (Unit {0})
  use_pool (err e) submitted j = fail_with 4 j (err e)
  use_pool (ok u) submitted j = finish_launch submitted j

  -- From the creation of the pool to the end.
  unfoldable pub launch : Calls → Job → Job × Result (Unit {0})
  launch calls j =
      if calls.pool_created
      then use_pool calls.pool_started calls.submitted (record (others 3 j) { worker_pool = true })
      else fail_with 3 j (err nomem)

  -- From the counts of the scan on.
  unfoldable pub begin_migration : Calls → List Task → Job → Job × Result (Unit {0})
  unfolding launch
  begin_migration calls [] j = ((transition_state (others 2 j) completed).0, ok tt)
  begin_migration calls (task ∷ tasks) j =
      if_ok (transition_state (others 2 j) migrating) (launch calls)

  unfoldable pub use_scan : Calls → Result (List Task) → Job → Job × Result (Unit {0})
  unfolding begin_migration
  use_scan calls (err e) j = fail_with 1 j (err e)
  use_scan calls (ok tasks) j = begin_migration calls tasks (record (others 1 j) {
    total_objects = pos (length tasks);
    bytes_total = pos (total_size tasks);
  })

  -- `buckets_migration_job_start`. The scanner can be created, since the job has disks.
  unfoldable pub start : Calls → Job → Job × Result (Unit {0})
  unfolding use_scan
  start calls j =
      if not (is_idle j.state)
      then (j, err invalid_arg)
      else if_ok (transition_state (others 0 j) scanning) (λ scanner_job.
        use_scan calls calls.scanned (record scanner_job {
          start_time = calls.now;
          last_checkpoint_time = calls.now;
          last_checkpoint_objects = pos 0;
          scanner = true;
        }))

  -- `buckets_migration_job_pause`, `_resume` and `_stop`, where the call of the pool, if there is one, answers `pool_answer`.
  unfoldable pub pause : Result (Unit {0}) → Job → Job × Result (Unit {0})
  pause pool_answer j =
      if not (is_migrating j.state)
      then (j, err invalid_arg)
      else if_ok (others 0 j, if j.worker_pool then pool_answer else ok tt)
          (λ j'. transition_state j' paused)

  unfoldable pub resume : Result (Unit {0}) → Job → Job × Result (Unit {0})
  resume pool_answer j =
      if not (is_paused j.state)
      then (j, err invalid_arg)
      else if_ok (others 0 j, if j.worker_pool then pool_answer else ok tt)
          (λ j'. transition_state j' migrating)

  unfoldable pub stop : Job → Job × Result (Unit {0})
  stop j = if is_terminal j.state then (j, ok tt) else transition_state (others 0 j) failed

-- What `buckets_worker_pool_get_stats` tells, with the estimate from its throughput where there is one.
pub record WorkerStats : Type 0 where
  pub tasks_completed : ℤ
  pub tasks_failed : ℤ
  pub bytes_migrated : ℤ
  pub estimate : Option ℤ

unfoldable pub update_progress : WorkerStats → Job → Job
update_progress stats j = if not j.worker_pool then j else record j {
  migrated_objects = stats.tasks_completed;
  failed_objects = stats.tasks_failed;
  bytes_migrated = stats.bytes_migrated;
  estimated_completion = elim stats.estimate [ none ↦ j.estimated_completion | some eta ↦ eta ];
}

unfoldable pub should_checkpoint : ℤ → Job → Bool
should_checkpoint now j =
    not (ltb_ℤ (j.migrated_objects -ℤ j.last_checkpoint_objects) (pos 1000))
    || not (ltb_ℤ (now -ℤ j.last_checkpoint_time) (pos 300))

-- `buckets_migration_job_get_progress`: total, completed and failed objects, and the estimate. The percentage is a double.
unfoldable pub get_progress : WorkerStats → Job → Job × (ℤ × ℤ × ℤ × ℤ)
unfolding update_progress
get_progress stats j =
    let j' = if is_migrating j.state then update_progress stats j else j in
    (j', (j'.total_objects, j'.migrated_objects, j'.failed_objects, j'.estimated_completion))

-- One round of the loop of `buckets_migration_job_wait`: the clock and the statistics read, what the save of a
-- checkpoint returns, and what other threads do to the job during the wait for the pool and during the sleep.
pub record Turn : Type 0 where
  pub now : ℤ
  pub stats : WorkerStats
  pub saved : Result (Unit {0})
  pub during_pool_wait : Job → Job
  pub during_sleep : Job → Job

-- `save_checkpoint_if_needed`.
unfoldable pub save_checkpoint_if_needed : Turn → Job → Job
save_checkpoint_if_needed turn j =
    if not (should_checkpoint turn.now j) then j else elim turn.saved [
      | ok u ↦ record j {
        last_checkpoint_time = turn.now;
        last_checkpoint_objects = j.migrated_objects;
      }
      | err e ↦ j
    ]

abbrev pub tracked : Turn → Job → Job
tracked turn j = save_checkpoint_if_needed turn (update_progress turn.stats j)

-- `buckets_migration_job_wait`; `none` means that it has not returned by the end of the turns.
unfoldable pub wait : List Turn → Job → Option Job
wait [] j = none
wait (turn ∷ turns) j =
    let again =
      wait turns (turn.during_sleep (if is_migrating j.state then tracked turn j else j)) in
    if is_terminal j.state
    then some j
    else if is_migrating j.state && (tracked turn j).worker_pool
    then some (transition_state (turn.during_pool_wait (tracked turn j)) completed).0
    else again
