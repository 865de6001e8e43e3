-- ===== src/Job/Waiting.antt =====
-- What `buckets_migration_job_wait` of src/migration/orchestrator.c waits for.
use buckets.Prelude.{
  ◌≡◌, refl, sym, ap, ◌∙◌, Bool, true, false, not, ◌&&◌, List, [], ◌∷◌, Option, none, some,
  if◌then◌else◌,
}
use buckets.Prelude.Int.{ℤ}
use buckets.Status.{ok, err}
use buckets.Job.{
  Job, transition_state, is_migrating, is_terminal, update_progress, should_checkpoint, Turn,
  save_checkpoint_if_needed, tracked, wait,
}

either {ℓ} :
    {A : Type ℓ} (f : Job → A) (b : Bool) (x y : Job) → f x ≡ f y → f (if b then x else y) ≡ f y
either f true x y h = h
either f false x y h = refl

saving-keeps {ℓ} :
    {A : Type ℓ} (f : Job → A) (turn : Turn) (j : Job)
    → ((time : ℤ) (n : ℤ)
        → f (record j { last_checkpoint_time = time; last_checkpoint_objects = n }) ≡ f j)
    → f (save_checkpoint_if_needed turn j) ≡ f j
unfolding save_checkpoint_if_needed
saving-keeps f turn j h =
    let saving : Job = elim turn.saved [
      | ok u ↦ record j {
        last_checkpoint_time = turn.now;
        last_checkpoint_objects = j.migrated_objects;
      }
      | err e ↦ j
    ] in
    let done : f saving ≡ f j =
      elim turn.saved
        as (λ r.
          f (elim r [
            | ok u ↦ record j {
              last_checkpoint_time = turn.now;
              last_checkpoint_objects = j.migrated_objects;
            }
            | err e ↦ j
          ])
          ≡ f j) [ ok u ↦ h turn.now j.migrated_objects | err e ↦ refl ] in
    either f (not (should_checkpoint turn.now j)) j saving (sym done) ∙ done

update_progress-state : (turn : Turn) (j : Job) → (update_progress turn.stats j).state ≡ j.state
unfolding update_progress
update_progress-state turn j =
    elim j.worker_pool
      as (λ b.
        (if not b then j else record j {
          migrated_objects = turn.stats.tasks_completed;
          failed_objects = turn.stats.tasks_failed;
          bytes_migrated = turn.stats.bytes_migrated;
          estimated_completion = elim turn.stats.estimate [
            | none ↦ j.estimated_completion
            | some eta ↦ eta
          ];
        }).state
        ≡ j.state) [ true ↦ refl | false ↦ refl ]

update_progress-pool :
    (turn : Turn) (j : Job) → (update_progress turn.stats j).worker_pool ≡ j.worker_pool
unfolding update_progress
update_progress-pool turn j =
    elim j.worker_pool
      as (λ b.
        (if not b then j else record j {
          migrated_objects = turn.stats.tasks_completed;
          failed_objects = turn.stats.tasks_failed;
          bytes_migrated = turn.stats.bytes_migrated;
          estimated_completion = elim turn.stats.estimate [
            | none ↦ j.estimated_completion
            | some eta ↦ eta
          ];
        }).worker_pool
        ≡ j.worker_pool) [ true ↦ refl | false ↦ refl ]

tracked-state : (turn : Turn) (j : Job) → (tracked turn j).state ≡ j.state
tracked-state turn j =
    saving-keeps (λ k. k.state) turn (update_progress turn.stats j) (λ time n. refl)
    ∙ update_progress-state turn j

tracked-pool : (turn : Turn) (j : Job) → (tracked turn j).worker_pool ≡ j.worker_pool
tracked-pool turn j =
    saving-keeps (λ k. k.worker_pool) turn (update_progress turn.stats j) (λ time n. refl)
    ∙ update_progress-pool turn j

no_branch : (b : Bool) (x : Option Job) → (if b && false then x else none) ≡ none
no_branch true x = refl
no_branch false x = refl

-- Other threads leave the state of the job and its pool alone while the wait sleeps.
abbrev pub AreQuiet : List Turn → Type 0
AreQuiet [] = Unit {0}
AreQuiet (turn ∷ turns) =
    ((j : Job)
      → ((turn.during_sleep j).state ≡ j.state)
        × ((turn.during_sleep j).worker_pool ≡ j.worker_pool))
    × AreQuiet turns

-- A wait on a job that is not completed or failed and has no worker pool does not return, however long it
-- waits, unless another thread changes the job.
pub wait_forever :
    (turns : List Turn) (j : Job)
    → AreQuiet turns
    → is_terminal j.state ≡ false
    → j.worker_pool ≡ false
    → wait turns j ≡ none
unfolding wait transition_state save_checkpoint_if_needed
wait_forever [] j quiet open_job alone = refl
wait_forever (turn ∷ turns) j (keeps, quiet) open_job alone =
    let looked : Job = if is_migrating j.state then tracked turn j else j in
    let same_state = keeps looked in
    let state : looked.state ≡ j.state =
      either (λ k. k.state) (is_migrating j.state) (tracked turn j) j (tracked-state turn j) in
    let pool : looked.worker_pool ≡ j.worker_pool =
      either (λ k. k.worker_pool) (is_migrating j.state) (tracked turn j) j (tracked-pool turn j) in
    let rest =
      wait_forever turns (turn.during_sleep looked) quiet
        (ap is_terminal (same_state.0 ∙ state) ∙ open_job) (same_state.1 ∙ pool ∙ alone) in
    rw (open_job, tracked-pool turn j ∙ alone, rest) (no_branch (is_migrating j.state) _)
