-- ===== src/GroupCommit.antt =====
-- The batched syncs of src/storage/group_commit.c: writes to files that are counted for each open file and
-- synced together.
pub mod Slots
pub mod Tracking
pub mod Runs
pub mod Flushes
pub mod Batches
pub mod FlushAll
mod Tests
use buckets.Prelude.{
  ℕ, zero, suc, ◌+◌, ◌-◌, ◌%◌, ◌^◌, Bool, true, false, not, ◌&&◌, List, [], ◌∷◌, Option, none, some,
  replicate, get_or, set, if◌then◌else◌, leb, ◌==◌,
}

-- `buckets_durability_level_t`.
pub data Durability : Type 0 where
  no_durability batched immediate : Durability

-- `buckets_group_commit_config_t`, without the choice of fsync or fdatasync.
pub record Config : Type 0 where
  pub batch_size : ℕ
  pub batch_time_ms : ℕ
  pub durability : Durability

-- `fd_batch_state_t`, with the time of the last sync in milliseconds.
pub record FdState : Type 0 where
  pub fd : ℕ
  pub pending_count : ℕ
  pub last_sync : ℕ
  pub active : Bool

-- `struct buckets_group_commit_context` with the files that it writes to: `unsynced` counts the writes to a file
-- since it was last synced, and `in_flight` those that are not in its state yet.
pub record Context : Type 0 where
  pub config : Config
  pub fd_states : List FdState
  pub total_writes : ℕ
  pub bytes_written : ℕ
  pub total_syncs : ℕ
  pub batched_syncs : ℕ
  pub explicit_flushes : ℕ
  pub unsynced : ℕ → ℕ
  pub in_flight : ℕ → ℕ

-- `buckets_group_commit_default_config`, where `no_fsync` is that BUCKETS_NO_FSYNC is 1.
abbrev pub default_config : Bool → Config
default_config no_fsync =
    if no_fsync
    then record { batch_size = 0; batch_time_ms = 0; durability = no_durability }
    else record { batch_size = 64; batch_time_ms = 5; durability = batched }

abbrev pub config_for_durability : Bool → Durability → Config
config_for_durability no_fsync no_durability = record {
  batch_size = 0;
  batch_time_ms = 0;
  durability = no_durability;
}
config_for_durability no_fsync immediate = record {
  batch_size = 1;
  batch_time_ms = 0;
  durability = immediate;
}
config_for_durability no_fsync batched = record (default_config no_fsync) { durability = batched }

abbrev pub blank_state : FdState
blank_state = record { fd = 0; pending_count = 0; last_sync = 0; active = false }

-- `buckets_group_commit_init`.
unfoldable pub init : Config → Context
init config = record {
  config = config;
  fd_states = replicate 256 blank_state;
  total_writes = 0;
  bytes_written = 0;
  total_syncs = 0;
  batched_syncs = 0;
  explicit_flushes = 0;
  unsynced = λ fd. 0;
  in_flight = λ fd. 0;
}

abbrev pub put_at : (ℕ → ℕ) → ℕ → ℕ → ℕ → ℕ
put_at f fd n g = if g == fd then n else f g

-- The first loop of `get_fd_state`, and the second.
unfoldable pub find_state : List FdState → ℕ → Option ℕ
find_state [] fd = none
find_state (s ∷ ss) fd =
    let later : Option ℕ = elim (find_state ss fd) [ none ↦ none | some i ↦ some (suc i) ] in
    if s.active && (s.fd == fd) then some 0 else later

unfoldable pub free_state : List FdState → Option ℕ
free_state [] = none
free_state (s ∷ ss) =
    let later : Option ℕ = elim (free_state ss) [ none ↦ none | some i ↦ some (suc i) ] in
    if s.active then later else some 0

abbrev pub new_state : ℕ → ℕ → FdState
new_state fd now = record { fd = fd; pending_count = 0; last_sync = now; active = true }

abbrev pub allocate : Context → ℕ → ℕ → Option ℕ → Context × Option ℕ
allocate c fd now none = (c, none)
allocate c fd now (some i) = (record c { fd_states = set c.fd_states i (new_state fd now) }, some i)

abbrev pub found_or_new : Context → ℕ → ℕ → Option ℕ → Context × Option ℕ
found_or_new c fd now (some i) = (c, some i)
found_or_new c fd now none = allocate c fd now (free_state c.fd_states)

unfoldable pub get_fd_state : Context → ℕ → ℕ → Context × Option ℕ
unfolding find_state free_state
get_fd_state c fd now = found_or_new c fd now (find_state c.fd_states fd)

abbrev pub syncs_never : Durability → Bool
syncs_never no_durability = true
syncs_never other = false

abbrev pub syncs_always : Durability → Bool
syncs_always immediate = true
syncs_always other = false

-- `do_sync`, where `works` is that the system call succeeds.
unfoldable pub do_sync : Context → ℕ → Bool → Context × Bool
do_sync c fd works =
    if syncs_never c.config.durability
    then (c, true)
    else if works
    then (record c { unsynced = put_at c.unsynced fd 0 }, true)
    else (c, false)

-- `time_diff_ms`, in 64 bits.
abbrev pub time_diff_ms : ℕ → ℕ → ℕ
time_diff_ms start now = (now + 2 ^ 64 - start) % 2 ^ 64

unfoldable pub should_sync : Config → ℕ → FdState → Bool
should_sync config now s =
    if syncs_always config.durability
    then true
    else if syncs_never config.durability
    then false
    else if leb config.batch_size s.pending_count
    then true
    else leb config.batch_time_ms (time_diff_ms s.last_sync now)

abbrev pub state_at : Context → ℕ → FdState
state_at c i = get_or c.fd_states i blank_state

abbrev pub reset_state : Context → ℕ → ℕ → Context × Bool → Context × Bool
reset_state c i now (c', false) = (c', false)
reset_state c i now (c', true) = (
  record c' {
    fd_states = set c'.fd_states i (record (state_at c i) { pending_count = 0; last_sync = now });
    total_syncs = c'.total_syncs + 1;
    batched_syncs = c'.batched_syncs + 1;
  },
  true,
)

-- `flush_fd_state` of the state at index `i`.
unfoldable pub flush_fd_state : Context → ℕ → ℕ → Bool → Context × Bool
unfolding do_sync
flush_fd_state c i now works =
    if (state_at c i).pending_count == 0
    then (c, true)
    else reset_state c i now (do_sync c (state_at c i).fd works)

-- `buckets_group_commit_write` and `_pwrite` up to the lock of the statistics: a system call that wrote `count` bytes.
unfoldable pub os_write : Context → ℕ → ℕ → Context
os_write c fd count = record c {
  unsynced = put_at c.unsynced fd (c.unsynced fd + 1);
  in_flight = put_at c.in_flight fd (c.in_flight fd + 1);
  total_writes = c.total_writes + 1;
  bytes_written = c.bytes_written + count;
}

abbrev pub add_pending : Context → ℕ → Context
add_pending c i = record c {
  fd_states =
      set c.fd_states i
        (record (state_at c i) { pending_count = (state_at c i).pending_count + 1 });
}

abbrev pub sync_if_due : Context → ℕ → ℕ → Bool → Context
sync_if_due c i now works =
    if should_sync c.config now (state_at c i) then (flush_fd_state c i now works).0 else c

abbrev pub account_at : ℕ → ℕ → Bool → Context × Option ℕ → Context
account_at fd now works (c, none) = (do_sync c fd works).0
account_at fd now works (c, some i) = sync_if_due (add_pending c i) i now works

-- The rest of a write, after which it returns.
unfoldable pub account : Context → ℕ → ℕ → Bool → Context
unfolding get_fd_state should_sync flush_fd_state do_sync
account c fd now works =
    account_at fd now works
      (get_fd_state (record c { in_flight = put_at c.in_flight fd (c.in_flight fd - 1) }) fd now)

-- `buckets_group_commit_write` and `_pwrite`: `result` is what the system call returned, and `others` what other
-- threads do between the lock of the statistics and the rest. A sync that fails does not show in the return value.
abbrev pub write : (Context → Context) → Context → ℕ → Option ℕ → ℕ → Bool → Context × Option ℕ
write others c fd none now works = (c, none)
write others c fd (some count) now works =
    (account (others (os_write c fd count)) fd now works, some count)

abbrev pub flush_at : ℕ → Bool → Context × Option ℕ → Context × Bool
flush_at now works (c, none) = (c, true)
flush_at now works (c, some i) =
    flush_fd_state (record c { explicit_flushes = c.explicit_flushes + 1 }) i now works

-- `buckets_group_commit_flush_fd`; true is the return of 0.
unfoldable pub flush_fd : Context → ℕ → ℕ → Bool → Context × Bool
unfolding get_fd_state flush_fd_state
flush_fd c fd now works = flush_at now works (get_fd_state c fd now)

-- One iteration of the loop of `buckets_group_commit_flush_all`, which locks the state at index `i` alone.
unfoldable pub flush_slot : Context → ℕ → ℕ → Bool → Context × Bool
unfolding flush_fd_state
flush_slot c i now works = if (state_at c i).active then flush_fd_state c i now works else (c, true)

-- The loop over `left` states from index `i`, where `works` says which system calls succeed and `others` what other
-- threads do after each state has been unlocked.
unfoldable pub flush_from :
    (ℕ → Context → Context) → Context → ℕ → (ℕ → Bool) → ℕ → ℕ → Context × Bool
unfolding flush_slot
flush_from others c now works i zero = (c, true)
flush_from others c now works i (suc left) =
    let r = flush_slot c i now (works i) in
    let rest = flush_from others (others i r.0) now works (i + 1) left in (rest.0, r.1 && rest.1)

abbrev pub flush_all : (ℕ → Context → Context) → Context → ℕ → (ℕ → Bool) → Context × Bool
flush_all others c now works = flush_from others c now works 0 256
