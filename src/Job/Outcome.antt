-- ===== src/Job/Outcome.antt =====
-- How a start of a job ends, src/migration/orchestrator.c, where no other thread changes the job.
use buckets.Prelude.{
  ℕ, ◌≡◌, refl, ap, ◌⊎◌, inl, inr, Bool, true, false, List, [], ◌∷◌, Bool-cases, length,
}
use buckets.Prelude.Int.{pos}
use buckets.Status.{Result, ok, err, Error, nomem}
use buckets.Scanner.{Task}
use buckets.Job.{
  JobState, Job, is_valid_transition, transition_state, Calls, is_idle, use_pool, launch,
  begin_migration, use_scan, start, total_size,
}

abbrev pub alone : ℕ → Job → Job
alone n j = j

-- Why the workers are not at the job: `made` says whether the pool could be created, and `started` and `submitted` what
-- its start and the tasks' submission return.
abbrev pub Fails : Bool → Result (Unit {0}) → Result (Unit {0}) → Error → Type 0
Fails made started submitted e =
    ((made ≡ false) × (e ≡ nomem))
    ⊎ ((made ≡ true) × (started ≡ err e))
    ⊎ ((made ≡ true) × (started ≡ ok tt) × (submitted ≡ err e))

-- How a start ends that has found `count` tasks.
abbrev pub Launched :
    Bool → Result (Unit {0}) → Result (Unit {0}) → ℕ → Job × Result (Unit {0}) → Type 0
Launched made started submitted count r =
    ((made ≡ true)
      × (started ≡ ok tt)
      × (submitted ≡ ok tt)
      × (r.1 ≡ ok tt)
      × (r.0.state ≡ JobState.migrating)
      × (r.0.worker_pool ≡ true)
      × (r.0.total_objects ≡ pos count))
    ⊎ ((e : Error) × Fails made started submitted e × (r.1 ≡ err e) × (r.0.state ≡ JobState.failed))

-- How a start ends, by what the scan and the pool answer.
abbrev pub Ended : Calls → Result (List Task) → Job × Result (Unit {0}) → Type 0
Ended calls scanned r =
    ((e : Error) × (scanned ≡ err e) × (r.1 ≡ err e) × (r.0.state ≡ JobState.failed))
    ⊎ ((scanned ≡ ok []) × (r.1 ≡ ok tt) × (r.0.state ≡ JobState.completed))
    ⊎ ((task : Task) × (tasks : List Task) × (scanned ≡ ok (task ∷ tasks))
        × Launched calls.pool_created calls.pool_started calls.submitted (length (task ∷ tasks)) r)

use_pool-Launched :
    (started submitted : Result (Unit {0})) (count : ℕ) (j : Job)
    → j.state ≡ JobState.migrating
    → j.worker_pool ≡ true
    → j.total_objects ≡ pos count
    → Launched true started submitted count (use_pool alone started submitted j)
unfolding transition_state is_valid_transition
use_pool-Launched (err e) submitted count j at pool all =
    inr (e, inr (inl (refl, refl)), refl, rw at refl)
use_pool-Launched (ok u) (err e) count j at pool all =
    inr (e, inr (inr (refl, refl, refl)), refl, rw at refl)
use_pool-Launched (ok u) (ok v) count j at pool all = inl (refl, refl, refl, refl, at, pool, all)

moved :
    (j : Job) (to : JobState)
    → is_valid_transition j.state to ≡ true
    → transition_state j to ≡ (record j { state = to }, ok tt)
unfolding transition_state
moved j to allowed = rw allowed refl

launch-Launched :
    (calls : Calls) (count : ℕ) (j : Job)
    → j.state ≡ JobState.migrating
    → j.total_objects ≡ pos count
    → Launched calls.pool_created calls.pool_started calls.submitted count (launch alone calls j)
unfolding launch is_valid_transition
launch-Launched calls count j at all = elim (Bool-cases calls.pool_created) [
  | inl made ↦ rw made (
      use_pool-Launched calls.pool_started calls.submitted count (record j { worker_pool = true })
        at refl all)
  | inr none_there ↦ rw none_there (
      inr
        (nomem, inl (refl, refl), refl, ap (λ r. r.0.state) (moved j JobState.failed (rw at refl))))
]

use_scan-Ended :
    (calls : Calls) (scanned : Result (List Task)) (j : Job)
    → j.state ≡ JobState.scanning
    → Ended calls scanned (use_scan alone calls scanned j)
unfolding use_scan begin_migration is_valid_transition
use_scan-Ended calls (err e) j at =
    inl (e, refl, refl, ap (λ r. r.0.state) (moved j JobState.failed (rw at refl)))
use_scan-Ended calls (ok []) j at =
    let counted : Job = record j { total_objects = pos 0; bytes_total = pos 0 } in
    inr (inl (refl, refl, ap (λ r. r.0.state) (moved counted JobState.completed (rw at refl))))
use_scan-Ended calls (ok (task ∷ tasks)) j at =
    let counted : Job = record j {
      total_objects = pos (length (task ∷ tasks));
      bytes_total = pos (total_size (task ∷ tasks));
    } in
    rw (moved counted JobState.migrating (rw at refl)) (
      inr (
        inr (
          task,
          tasks,
          refl,
          launch-Launched calls (length (task ∷ tasks))
              (record counted { state = JobState.migrating }) refl refl,
        )))

idle_of : (s : JobState) → is_idle s ≡ true → s ≡ JobState.idle
idle_of JobState.idle h = refl
idle_of JobState.scanning h = cc
idle_of JobState.migrating h = cc
idle_of JobState.paused h = cc
idle_of JobState.completed h = cc
idle_of JobState.failed h = cc
idle_of (JobState.unknown n) h = cc

-- A start of an idle job that no other thread touches: a scan that fails gives its error, with the job FAILED; a scan that
-- finds nothing to migrate gives BUCKETS_OK, with the job COMPLETED; a scan that finds objects gives BUCKETS_OK, with the job
-- MIGRATING, a worker pool and the number of objects, where the pool is created and started and takes the tasks, and otherwise
-- the error of the first of these that fails, with the job FAILED.
pub start_lem :
    (calls : Calls) (j : Job)
    → is_idle j.state ≡ true
    → Ended calls calls.scanned (start alone calls j)
unfolding start is_valid_transition
start_lem calls j h =
    rw (h, moved j JobState.scanning (rw (idle_of j.state h) refl))
      (use_scan-Ended calls calls.scanned
        (record j {
          state = JobState.scanning;
          start_time = calls.now;
          last_checkpoint_time = calls.now;
          last_checkpoint_objects = pos 0;
          scanner = true;
        })
        refl)
