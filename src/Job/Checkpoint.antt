-- ===== src/Job/Checkpoint.antt =====
-- The checkpoints of src/migration/orchestrator.c: a job written as JSON and read back.
use buckets.Prelude.{false, List, [], ◌∷◌, Option, none, some, if◌then◌else◌}
use buckets.Prelude.Maybe.{◌>>=◌}
use buckets.Prelude.Int.{ℤ, pos, eq_ℤ}
use buckets.Status.{Error, nomem}
use buckets.Text.{Bytes, fit, codes}
use buckets.Json.{Platform}
use buckets.Topology.{ClusterTopology}
use buckets.Job.{
  JobState, Job, idle, scanning, migrating, paused, completed, failed, unknown, is_migrating,
}

-- The numbers of the enumeration.
abbrev pub number_of : JobState → ℤ
number_of idle = pos 0
number_of scanning = pos 1
number_of migrating = pos 2
number_of paused = pos 3
number_of completed = pos 4
number_of failed = pos 5
number_of (unknown n) = n

abbrev pub state_of : ℤ → JobState
state_of n =
    if eq_ℤ n (pos 0)
    then idle
    else if eq_ℤ n (pos 1)
    then scanning
    else if eq_ℤ n (pos 2)
    then migrating
    else if eq_ℤ n (pos 3)
    then paused
    else if eq_ℤ n (pos 4)
    then completed
    else if eq_ℤ n (pos 5)
    then failed
    else unknown n

-- What `buckets_calloc` leaves in a job.
abbrev pub blank_job : Job
blank_job = record {
  job_id = [];
  source_generation = pos 0;
  target_generation = pos 0;
  start_time = pos 0;
  estimated_completion = pos 0;
  state = idle;
  total_objects = pos 0;
  migrated_objects = pos 0;
  failed_objects = pos 0;
  bytes_total = pos 0;
  bytes_migrated = pos 0;
  old_topology = none;
  new_topology = none;
  disk_paths = [];
  scanner = false;
  worker_pool = false;
  last_checkpoint_time = pos 0;
  last_checkpoint_objects = pos 0;
  checkpoint_path = [];
}

-- The job that `buckets_migration_job_resume_from_checkpoint` makes of a loaded one.
abbrev pub restored : ℤ → Bytes → ClusterTopology → ClusterTopology → List Bytes → Job → Job
restored now path old new disk_paths j = record j {
  old_topology = some old;
  new_topology = some new;
  disk_paths = disk_paths;
  checkpoint_path = fit 256 path;
  last_checkpoint_time = now;
  last_checkpoint_objects = j.migrated_objects;
  state = if is_migrating j.state then paused else j.state;
}

module _ {J Disks : Type 0} (p : Platform J Disks) where
  -- The object that `buckets_migration_job_save` makes at the time `now`.
  unfoldable pub job_to_json : ℤ → Job → J
  job_to_json now j =
      let r1 = p.add_string p.object (codes "job_id") j.job_id in
      let r2 = p.add_number r1 (codes "source_generation") j.source_generation in
      let r3 = p.add_number r2 (codes "target_generation") j.target_generation in
      let r4 = p.add_number r3 (codes "state") (number_of j.state) in
      let r5 = p.add_number r4 (codes "checkpoint_time") now in
      let r6 = p.add_number r5 (codes "start_time") j.start_time in
      let r7 = p.add_number r6 (codes "total_objects") j.total_objects in
      let r8 = p.add_number r7 (codes "migrated_objects") j.migrated_objects in
      let r9 = p.add_number r8 (codes "failed_objects") j.failed_objects in
      let r10 = p.add_number r9 (codes "bytes_total") j.bytes_total in
      p.add_number r10 (codes "bytes_migrated") j.bytes_migrated

  -- `buckets_migration_job_save`; `none` is BUCKETS_OK.
  unfoldable pub save : ℤ → Disks → Bytes → Job → Disks × Option Error
  unfolding job_to_json
  save now disks path j = elim (p.print (job_to_json now j)) [
    | none ↦ (disks, some nomem)
    | some text ↦ p.write disks path text
  ]

  -- A field that is there, or the zero of the fresh job.
  abbrev pub number_at : J → Bytes → ℤ
  number_at json key = elim (p.item_any_case json key) [ none ↦ pos 0 | some v ↦ p.number_value v ]

  -- The part of `buckets_migration_job_load` after the parse.
  unfoldable pub job_from_json : J → Option Job
  job_from_json json = do
    id ← p.item_any_case json (codes "job_id")
    job_id ← p.text id
    source ← p.item_any_case json (codes "source_generation")
    target ← p.item_any_case json (codes "target_generation")
    some (record blank_job {
      job_id = fit 64 job_id;
      source_generation = p.number_value source;
      target_generation = p.number_value target;
      state = state_of (number_at json (codes "state"));
      start_time = number_at json (codes "start_time");
      total_objects = number_at json (codes "total_objects");
      migrated_objects = number_at json (codes "migrated_objects");
      failed_objects = number_at json (codes "failed_objects");
      bytes_total = number_at json (codes "bytes_total");
      bytes_migrated = number_at json (codes "bytes_migrated");
    })

  -- `buckets_migration_job_load`.
  unfoldable pub load : Disks → Bytes → Option Job
  unfolding job_from_json
  load disks path = do text ← p.read disks path; json ← p.parse text; job_from_json json

  -- `buckets_migration_job_resume_from_checkpoint`; `none` is NULL.
  unfoldable pub resume_from_checkpoint :
      ℤ → Disks → Bytes → ClusterTopology → ClusterTopology → List Bytes → Option Job
  unfolding load
  resume_from_checkpoint now disks path old new [] = none
  resume_from_checkpoint now disks path old new (disk ∷ disk_paths) = do
    j ← load disks path
    some (restored now path old new (disk ∷ disk_paths) j)
