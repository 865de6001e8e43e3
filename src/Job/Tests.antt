-- ===== src/Job/Tests.antt =====
-- Runs of the jobs of src/migration/orchestrator.c, and its theorems at concrete jobs.
use buckets.Prelude.{◌≡◌, refl, true, List, [], ◌∷◌, none, some, arith}
use buckets.Prelude.Int.{pos}
use buckets.Status.{ok, err, io}
use buckets.Text.{Bytes, codes, decimal}
use buckets.Topology.{empty_topology}
use buckets.Scanner.{Task}
use buckets.Job.{
  JobState, Job, Calls, Turn, id_of, is_valid_transition, transition_state, start, pause, resume,
  stop, wait,
}
use buckets.Job.Lifecycle.{Leads, stay, operations-Leads}
use buckets.Job.Outcome.{alone, Ended, start_lem}
use buckets.Job.Checkpoint.{save, load, resume_from_checkpoint, blank_job}
use buckets.Job.Roundtrip.{HasExactNumbers, progress_of, load-save, resumed_wait_forever}
use buckets.Job.Objects.{IsText}
use buckets.Job.Sample.{flat, flat-files, flat-laws}

created_id : id_of (pos 42) (pos 43) ≡ codes "migration-gen-42-to-43"
unfolding decimal
created_id = refl

abbrev fresh : Job
fresh = record blank_job {
  job_id = codes "migration-gen-1-to-2";
  source_generation = pos 1;
  target_generation = pos 2;
  old_topology = some empty_topology;
  new_topology = some empty_topology;
  disk_paths = codes "/d1" ∷ [];
}

abbrev cat : Task
cat = record {
  bucket = codes "photos";
  object = codes "cat";
  old_pool_idx = 0;
  old_set_idx = 0;
  new_pool_idx = 1;
  new_set_idx = 0;
  size = 7;
  mod_time = pos 5;
}

abbrev one_found : Calls
one_found = record {
  now = pos 100;
  scanned = ok (cat ∷ []);
  pool_created = true;
  pool_started = ok tt;
  submitted = ok tt;
}

abbrev running : Job
running = record fresh {
  state = JobState.migrating;
  start_time = pos 100;
  total_objects = pos 1;
  bytes_total = pos 7;
  scanner = true;
  worker_pool = true;
  last_checkpoint_time = pos 100;
}

started_runs : start alone one_found fresh ≡ (running, ok tt)
unfolding start transition_state is_valid_transition
started_runs = refl

operations-Leads_example :
    Leads running.state (start alone one_found running).0.state
    × Leads running.state (pause alone (ok tt) running).0.state
    × Leads running.state (resume alone (ok tt) running).0.state
    × Leads running.state (stop alone running).0.state
operations-Leads_example = operations-Leads alone (λ n j. stay) one_found (ok tt) running

start_lem_example : Ended one_found one_found.scanned (start alone one_found fresh)
start_lem_example = start_lem one_found fresh refl

-- Another thread pauses the job during the wait for the pool.
abbrev pausing : Turn
pausing = record {
  now = pos 101;
  stats = record {
    tasks_completed = pos 0;
    tasks_failed = pos 0;
    bytes_migrated = pos 0;
    estimate = none;
  };
  saved = ok tt;
  during_pool_wait = λ j. record j { state = JobState.paused };
  during_sleep = λ j. j;
}

running_exact : HasExactNumbers running
running_exact = record {
  source_generation = omega arith;
  target_generation = omega arith;
  state = omega arith;
  start_time = omega arith;
  total_objects = omega arith;
  migrated_objects = omega arith;
  failed_objects = omega arith;
  bytes_total = omega arith;
  bytes_migrated = omega arith;
}

running_id : IsText running.job_id
running_id = ground arith

abbrev Drive : Type 0
Drive = List (Bytes × Bytes)

abbrev no_files : Drive
no_files = []

abbrev file : Bytes
file = codes "/tmp/c"

abbrev saved : Drive
saved = (save flat (pos 150) no_files file running).0

saving : save flat (pos 150) no_files file running ≡ (saved, none)
unfolding save
saving = refl

load-save_example : load flat saved file ≡ some (progress_of running)
load-save_example =
    load-save flat flat-laws flat-files (pos 150) no_files saved file running running_exact
      (omega arith) tt running_id (omega arith) saving

resumed_wait_forever_example :
    (j' : Job) × (resume_from_checkpoint flat
        (pos 200)
        saved
        file
        empty_topology
        empty_topology
        (codes "/d1" ∷ [])
      ≡ some j')
    × ((resume alone (err io) j').1 ≡ ok tt)
    × ((resume alone (err io) j').0.state ≡ JobState.migrating)
    × ((resume alone (err io) j').0.migrated_objects ≡ running.migrated_objects)
    × (wait (pausing ∷ pausing ∷ []) (resume alone (err io) j').0 ≡ none)
resumed_wait_forever_example =
    resumed_wait_forever flat flat-laws flat-files (pos 150) (pos 200) no_files saved file running
      empty_topology empty_topology (codes "/d1") [] (err io) (pausing ∷ pausing ∷ []) running_exact
      (omega arith) running_id (omega arith) refl saving
      (λ j. (refl, refl), (λ j. (refl, refl), tt))
