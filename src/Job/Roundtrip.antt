-- ===== src/Job/Roundtrip.antt =====
-- A checkpoint of src/migration/orchestrator.c gives back the job that was saved.
use buckets.Prelude.{
  ◌<◌, ◌≡◌, refl, sym, ap, ◌∙◌, inl, inr, List, ◌∷◌, none, some, length, Option-cases, subst,
  take_all, arith,
}
use buckets.Prelude.Int.{ℤ}
use buckets.Status.{Error, nomem, Result, ok}
use buckets.Text.{Bytes, codes}
use buckets.Json.{Platform}
use buckets.Topology.{ClusterTopology}
use buckets.Topology.Durable.{Files}
use buckets.Job.{
  JobState, Job, is_valid_transition, transition_state, is_migrating, resume, Turn, wait,
}
use buckets.Job.Outcome.{alone}
use buckets.Job.Waiting.{AreQuiet, wait_forever}
use buckets.Job.Objects.{ObjectLaws, IsExact, IsText}
use buckets.Job.Checkpoint.{
  number_of, state_of, blank_job, job_to_json, save, number_at, job_from_json, load, restored,
  resume_from_checkpoint,
}

-- The numbers of the job have at most 15 digits.
pub record HasExactNumbers (j : Job) : Type 0 where
  pub source_generation : IsExact j.source_generation
  pub target_generation : IsExact j.target_generation
  pub state : IsExact (number_of j.state)
  pub start_time : IsExact j.start_time
  pub total_objects : IsExact j.total_objects
  pub migrated_objects : IsExact j.migrated_objects
  pub failed_objects : IsExact j.failed_objects
  pub bytes_total : IsExact j.bytes_total
  pub bytes_migrated : IsExact j.bytes_migrated

abbrev pub IsKnown : JobState → Type 0
IsKnown (JobState.unknown n) = ⊥
IsKnown other = Unit {0}

state_of-number_of : (s : JobState) → IsKnown s → state_of (number_of s) ≡ s
state_of-number_of JobState.idle known = refl
state_of-number_of JobState.scanning known = refl
state_of-number_of JobState.migrating known = refl
state_of-number_of JobState.paused known = refl
state_of-number_of JobState.completed known = refl
state_of-number_of JobState.failed known = refl
state_of-number_of (JobState.unknown n) known = elim known [ ]

-- The fields of a job that a checkpoint holds.
abbrev pub progress_of : Job → Job
progress_of j = record blank_job {
  job_id = j.job_id;
  source_generation = j.source_generation;
  target_generation = j.target_generation;
  state = j.state;
  start_time = j.start_time;
  total_objects = j.total_objects;
  migrated_objects = j.migrated_objects;
  failed_objects = j.failed_objects;
  bytes_total = j.bytes_total;
  bytes_migrated = j.bytes_migrated;
}

module _ {J Disks : Type 0} (p : Platform J Disks) (laws : ObjectLaws p) where
  found :
      (json : J) (key : Bytes) (n : ℤ)
      → p.item_any_case json key ≡ some (laws.of_number n)
      → IsExact n
      → number_at p json key ≡ n
  found json key n e exact = rw (e, number_at) (laws.number_value_lem n exact)

  job_from_json-to_json :
      (now : ℤ) (j : Job)
      → HasExactNumbers j
      → IsKnown j.state
      → length j.job_id < 64
      → job_from_json p (job_to_json p now j) ≡ some (progress_of j)
  unfolding job_from_json job_to_json
  job_from_json-to_json now j exact known short =
      let json = job_to_json p now j in
      let saved_state =
        found json (codes "state") (number_of j.state)
          (simp (laws.item_number, laws.item_text, laws.item_object)) exact.state in
      let saved_start =
        found json (codes "start_time") j.start_time
          (simp (laws.item_number, laws.item_text, laws.item_object)) exact.start_time in
      let saved_total =
        found json (codes "total_objects") j.total_objects
          (simp (laws.item_number, laws.item_text, laws.item_object)) exact.total_objects in
      let saved_migrated =
        found json (codes "migrated_objects") j.migrated_objects
          (simp (laws.item_number, laws.item_text, laws.item_object)) exact.migrated_objects in
      let saved_failed =
        found json (codes "failed_objects") j.failed_objects
          (simp (laws.item_number, laws.item_text, laws.item_object)) exact.failed_objects in
      let saved_bytes =
        found json (codes "bytes_total") j.bytes_total
          (simp (laws.item_number, laws.item_text, laws.item_object)) exact.bytes_total in
      let saved_done =
        found json (codes "bytes_migrated") j.bytes_migrated
          (simp (laws.item_number, laws.item_text, laws.item_object)) exact.bytes_migrated in
      rw
        (
          saved_state, saved_start, saved_total, saved_migrated, saved_failed, saved_bytes,
          saved_done,
        )
        (simp (
          laws.item_number,
          laws.item_text,
          laws.item_object,
          laws.text_lem,
          laws.number_value_lem j.source_generation exact.source_generation,
          laws.number_value_lem j.target_generation exact.target_generation,
          state_of-number_of j.state known,
          take_all 63 j.job_id (omega arith),
        ))

  job_to_json-IsPlain :
      (now : ℤ) (j : Job)
      → HasExactNumbers j
      → IsExact now
      → IsText j.job_id
      → laws.IsPlain (job_to_json p now j)
  unfolding job_to_json
  job_to_json-IsPlain now j exact stamp id =
      let r0 =
        laws.plain_text p.object (codes "job_id") j.job_id laws.plain_object (ground arith) id in
      let r1 =
        laws.plain_number _ (codes "source_generation") j.source_generation r0 (ground arith)
          exact.source_generation in
      let r2 =
        laws.plain_number _ (codes "target_generation") j.target_generation r1 (ground arith)
          exact.target_generation in
      let r3 =
        laws.plain_number _ (codes "state") (number_of j.state) r2 (ground arith) exact.state in
      let r4 = laws.plain_number _ (codes "checkpoint_time") now r3 (ground arith) stamp in
      let r5 =
        laws.plain_number _ (codes "start_time") j.start_time r4 (ground arith) exact.start_time in
      let r6 =
        laws.plain_number _ (codes "total_objects") j.total_objects r5 (ground arith)
          exact.total_objects in
      let r7 =
        laws.plain_number _ (codes "migrated_objects") j.migrated_objects r6 (ground arith)
          exact.migrated_objects in
      let r8 =
        laws.plain_number _ (codes "failed_objects") j.failed_objects r7 (ground arith)
          exact.failed_objects in
      let r9 =
        laws.plain_number _ (codes "bytes_total") j.bytes_total r8 (ground arith)
          exact.bytes_total in
      laws.plain_number _ (codes "bytes_migrated") j.bytes_migrated r9 (ground arith)
        exact.bytes_migrated

  -- A checkpoint that was saved is loaded as the job's identity, its state and its progress, for a job whose state is known, whose
  -- numbers and the time of the checkpoint have at most 15 digits and whose identifier is a C string of fewer than 64 bytes, where
  -- files and cJSON behave as documented.
  pub load-save :
      (files : Files p) (now : ℤ) (disks disks' : Disks) (path : Bytes) (j : Job)
      → HasExactNumbers j
      → IsExact now
      → IsKnown j.state
      → IsText j.job_id
      → length j.job_id < 64
      → save p now disks path j ≡ (disks', none)
      → load p disks' path ≡ some (progress_of j)
  unfolding save load
  load-save files now disks disks' path j exact stamp known id short saved =
      elim (Option-cases (p.print (job_to_json p now j))) [
        | inl unprinted ↦
            let failed : save p now disks path j ≡ (disks, some nomem) =
              rw (unprinted, save) refl in
            absurd (refused nomem (ap (λ r. r.1) (sym failed ∙ saved)))
        | inr (text, printed) ↦
            let written : save p now disks path j ≡ p.write disks path text =
              rw (printed, save) refl in
            rw
              (
                files.written disks disks' path text (sym written ∙ saved),
                laws.parse-print (job_to_json p now j) text
                    (job_to_json-IsPlain now j exact stamp id) printed,
                job_from_json-to_json now j exact known short,
              )
              refl
      ]
    where
      refused : (e : Error) → some e ≡ none → ⊥
      refused e h = cc

-- After a job that migrates has been saved, read back by `buckets_migration_job_resume_from_checkpoint` and resumed, it is MIGRATING
-- again with no worker pool, and a wait on it does not return, however long, unless another thread changes the job. The job's
-- numbers and the time of the checkpoint have at most 15 digits, and its identifier is a C string of fewer than 64 bytes.
pub resumed_wait_forever :
    {J Disks : Type 0} (p : Platform J Disks) (laws : ObjectLaws p) (files : Files p) (now now' : ℤ)
    (disks disks' : Disks) (path : Bytes) (j : Job) (old new : ClusterTopology) (disk : Bytes)
    (disk_paths : List Bytes) (answer : Result (Unit {0})) (turns : List Turn)
    → HasExactNumbers j
    → IsExact now
    → IsText j.job_id
    → length j.job_id < 64
    → j.state ≡ JobState.migrating
    → save p now disks path j ≡ (disks', none)
    → AreQuiet turns
    → (j' : Job) × (resume_from_checkpoint p now' disks' path old new (disk ∷ disk_paths) ≡ some j')
      × ((resume alone answer j').1 ≡ ok tt)
      × ((resume alone answer j').0.state ≡ JobState.migrating)
      × ((resume alone answer j').0.migrated_objects ≡ j.migrated_objects)
      × (wait turns (resume alone answer j').0 ≡ none)
unfolding resume_from_checkpoint resume transition_state is_valid_transition
resumed_wait_forever p laws files now now' disks disks' path j old new disk disk_paths answer turns
      exact stamp id short at saved quiet =
    let j' = restored now' path old new (disk ∷ disk_paths) (progress_of j) in
    let loaded =
      load-save p laws files now disks disks' path j exact stamp (subst IsKnown (sym at) tt) id
        short saved in
    (
      j',
      rw loaded refl,
      rw (ap is_migrating at) refl,
      rw (ap is_migrating at) refl,
      rw (ap is_migrating at) refl,
      wait_forever turns (resume alone answer j').0 quiet (rw (ap is_migrating at) refl)
          (rw (ap is_migrating at) refl),
    )
