-- ===== src/GroupCommit/Tests.antt =====
-- Runs of the model of src/storage/group_commit.c at concrete inputs.
use buckets.Prelude.{ℕ, some, ◌+◌, ◌≤◌, ◌≡◌, refl, Bool, true, false, ◌⊎◌, arith, ◌-◌}
use buckets.GroupCommit.{
  Config, Context, default_config, init, find_state, free_state, get_fd_state, should_sync, do_sync,
  flush_fd_state, os_write, account, flush_fd, flush_slot, flush_from, flush_all, write, state_at,
}
use buckets.GroupCommit.Tracking.{IsUntracked}
use buckets.GroupCommit.Runs.{Runs, here, then_step, wrote, accounted}
use buckets.GroupCommit.Flushes.{flush_fd-durable}
use buckets.GroupCommit.FlushAll.{flush_all_clean}
use buckets.GroupCommit.Batches.{runs-unsynced}

abbrev config : Config
config = default_config false

abbrev written : Context
written = os_write (init config) 3 100

abbrev counted : Context
counted = account written 3 2 true

counted_run : {may_fail : Bool} → Runs may_fail (init config) counted
unfolding os_write init
counted_run = then_step (then_step here (wrote 3 100)) (accounted 3 2 true (omega arith) refl)

-- A write two milliseconds after the file's first stays unsynced until a flush.
counted_write : (counted.unsynced 3 + (state_at counted 0).pending_count ≡ 2)
unfolding account os_write init get_fd_state find_state free_state should_sync flush_fd_state
    do_sync
counted_write = refl

flush_succeeds : (flush_fd counted 3 4 true).1 ≡ true
unfolding flush_fd account os_write init get_fd_state find_state free_state should_sync
    flush_fd_state do_sync
flush_succeeds = refl

flush_fd-durable_example :
    IsUntracked counted 3
    ⊎ ((flush_fd counted 3 4 true).0.unsynced 3 ≤ (flush_fd counted 3 4 true).0.in_flight 3)
flush_fd-durable_example =
    flush_fd-durable {may_fail = true} config counted 3 4 true refl counted_run flush_succeeds

runs-unsynced_example : IsUntracked counted 3 ⊎ (counted.unsynced 3 ≤ 64 - 1 + counted.in_flight 3)
runs-unsynced_example = runs-unsynced config counted 3 refl counted_run

-- Another thread writes to the file after each state has been unlocked.
abbrev others : ℕ → Context → Context
others k d = os_write d 3 10

others_run : (k : ℕ) (d : Context) → Runs true d (others k d)
others_run k d = then_step here (wrote 3 10)

counted_place : find_state counted.fd_states 3 ≡ some 0
unfolding account os_write init get_fd_state find_state free_state should_sync flush_fd_state
    do_sync
counted_place = refl

flush_all_succeeds : (flush_all others counted 4 (λ i. true)).1 ≡ true
unfolding flush_from flush_slot account os_write init get_fd_state find_state free_state should_sync
    flush_fd_state do_sync
flush_all_succeeds = refl

flush_all_clean_example :
    (d : Context) × Runs true counted d
    × Runs true d (flush_all others counted 4 (λ i. true)).0
    × (d.unsynced 3 ≤ d.in_flight 3)
flush_all_clean_example =
    flush_all_clean others config counted 3 4 0 (λ i. true) refl counted_run others_run
      counted_place flush_all_succeeds

-- A write returns what the system call wrote, also when its sync fails.
write_returns : (write (λ c. c) (init config) 3 (some 100) 9 false).1 ≡ some 100
write_returns = refl
