-- ===== src/Manager.antt =====
-- The topology manager of src/cluster/topology_manager.c over the topology cache of src/cluster/cache.c: the
-- changes that are saved on a quorum of disks before they are seen.
pub mod Changes
mod Drain
mod Tests
use buckets.Prelude.{
  Bool, true, false, not, List, [], ◌∷◌, ◌++◌, map, Option, none, some, if◌then◌else◌,
}
use buckets.Prelude.Int.{ℤ}
use buckets.Status.{Error, invalid_arg, quorum, Result, ok, err}
use buckets.Text.{Bytes}
use buckets.Json.{Platform}
use buckets.Topology.{
  DiskInfo, SetTopology, PoolTopology, ClusterTopology, add_pool, add_set, mark_set_draining,
  mark_set_removed,
}
use buckets.Topology.Quorum.{load_quorum, save_quorum}

-- `buckets_topology_cache_t`.
pub record Cache : Type 0 where
  pub topology : Option ClusterTopology
  pub initialized : Bool

abbrev pub cache_init : Cache → Cache
cache_init c = if c.initialized then c else record { topology = none; initialized = true }

abbrev pub cache_cleanup : Cache → Cache
cache_cleanup c = if c.initialized then record { topology = none; initialized = false } else c

abbrev pub cache_get : Cache → Option ClusterTopology
cache_get c = if c.initialized then c.topology else none

-- `buckets_topology_cache_set` of a topology that is there; `none` is BUCKETS_OK.
abbrev pub cache_set : Cache → ClusterTopology → Cache × Option Error
cache_set c t =
    if c.initialized then (record c { topology = some t }, none) else (c, some invalid_arg)

abbrev pub cache_invalidate : Cache → Cache
cache_invalidate c = if c.initialized then record c { topology = none } else c

-- `buckets_topology_manager_t` with the cache and the disks that it works on. `notified` is the list of the
-- topologies that the callback has been called with, the latest first.
pub record Manager (Disks : Type 0) : Type 0 where
  pub disk_paths : List (Option Bytes)
  pub has_callback : Bool
  pub initialized : Bool
  pub cache : Cache
  pub disks : Disks
  pub notified : List ClusterTopology

-- `clone_topology`: every level is copied.
abbrev pub clone_set : SetTopology → SetTopology
clone_set s = record { idx = s.idx; state = s.state; disks = s.disks }

abbrev pub clone_pool : PoolTopology → PoolTopology
clone_pool pool = record { idx = pool.idx; sets = map clone_set pool.sets }

abbrev pub clone_topology : ClusterTopology → ClusterTopology
clone_topology t = record t { pools = map clone_pool t.pools }

module _ {J Disks : Type 0} (p : Platform J Disks) where
  abbrev pub refuse : Manager Disks → Error → Manager Disks × Option Error
  refuse m e = (m, some e)

  -- `buckets_topology_manager_init`; an empty list is a count of 0.
  unfoldable pub init : List (Option Bytes) → Manager Disks → Manager Disks × Option Error
  init [] m = refuse m invalid_arg
  init (path ∷ paths) m =
      if m.initialized
      then refuse m invalid_arg
      else (record m { disk_paths = path ∷ paths; has_callback = false; initialized = true }, none)

  unfoldable pub cleanup : Manager Disks → Manager Disks
  cleanup m =
      if m.initialized
      then record m { disk_paths = []; has_callback = false; initialized = false }
      else m

  unfoldable pub get : Manager Disks → Option ClusterTopology
  get m = if m.initialized then cache_get m.cache else none

  abbrev pub with_cache : Manager Disks → Cache × Option Error → Manager Disks × Option Error
  with_cache m (c, result) = (record m { cache = c }, result)

  -- `buckets_topology_manager_load`.
  unfoldable pub load : Manager Disks → Manager Disks × Option Error
  load m =
      if not m.initialized
      then refuse m invalid_arg
      else elim (load_quorum p m.disks m.disk_paths) [
        | none ↦ refuse m quorum
        | some t ↦ with_cache m (cache_set m.cache t)
      ]

  abbrev pub notify : ClusterTopology → Manager Disks × Option Error → Manager Disks × Option Error
  notify t (m, some e) = (m, some e)
  notify t (m, none) =
      ((if m.has_callback then record m { notified = t ∷ m.notified } else m), none)

  abbrev pub cache_saved :
      ClusterTopology → Manager Disks × Option Error → Manager Disks × Option Error
  cache_saved t (m, some e) = (m, some e)
  cache_saved t (m, none) = notify t (with_cache m (cache_set m.cache (clone_topology t)))

  unfoldable pub persist_and_notify : ClusterTopology → Manager Disks → Manager Disks × Option Error
  persist_and_notify t m =
      let (disks, result) = save_quorum p m.disks m.disk_paths t in
      cache_saved t (record m { disks = disks }, result)

  abbrev pub save_changed : Manager Disks → Result ClusterTopology → Manager Disks × Option Error
  save_changed m (err e) = refuse m e
  save_changed m (ok t) = persist_and_notify t m

  abbrev pub change_cached :
      (ClusterTopology → Result ClusterTopology)
      → Manager Disks
      → Option ClusterTopology
      → Manager Disks × Option Error
  change_cached modify m none = refuse m invalid_arg
  change_cached modify m (some cached) = save_changed m (modify (clone_topology cached))

  -- The body that the four changes share.
  unfoldable pub change :
      (ClusterTopology → Result ClusterTopology) → Manager Disks → Manager Disks × Option Error
  unfolding persist_and_notify
  change modify m =
      if m.initialized then change_cached modify m (cache_get m.cache) else refuse m invalid_arg

  unfoldable pub manager_add_pool : Manager Disks → Manager Disks × Option Error
  unfolding change
  manager_add_pool = change (λ t. ok (add_pool t))

  unfoldable pub manager_add_set : ℤ → List DiskInfo → Manager Disks → Manager Disks × Option Error
  unfolding change
  manager_add_set pool_idx [] m = refuse m invalid_arg
  manager_add_set pool_idx (d ∷ ds) m = change (λ t. add_set t pool_idx (d ∷ ds)) m

  unfoldable pub manager_mark_set_draining : ℤ → ℤ → Manager Disks → Manager Disks × Option Error
  unfolding change
  manager_mark_set_draining pool_idx set_idx = change (λ t. mark_set_draining t pool_idx set_idx)

  unfoldable pub manager_mark_set_removed : ℤ → ℤ → Manager Disks → Manager Disks × Option Error
  unfolding change
  manager_mark_set_removed pool_idx set_idx = change (λ t. mark_set_removed t pool_idx set_idx)

  unfoldable pub set_callback : Bool → Manager Disks → Manager Disks × Option Error
  set_callback there m =
      if m.initialized then (record m { has_callback = there }, none) else refuse m invalid_arg
