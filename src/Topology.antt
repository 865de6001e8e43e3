-- ===== src/Topology.antt =====
-- The cluster topology of src/cluster/topology.c and include/buckets_cluster.h: its data and the
-- operations that change it in memory.
pub mod Json
pub mod Quorum
pub mod Endpoints
pub mod States
pub mod Places
pub mod Votes
pub mod Elections
pub mod Stale
pub mod Durable
mod Tests
pub mod Sample
mod QuorumTests
use buckets.Prelude.{
  ℕ, zero, suc, ◌+◌, ◌-◌, Bool, true, false, List, [], ◌∷◌, ◌++◌, map, Option, none, some, length,
  take, if◌then◌else◌, leb, ◌==◌,
}
use buckets.Prelude.Int.{ℤ, pos, negsuc, ◌+ℤ◌, at?, put}
use buckets.Status.{Result, ok, err, invalid_arg}
use buckets.Text.{Bytes, fit, codes, same_text}

-- `buckets_set_state_t`.
pub data SetState : Type 0 where
  active draining removed : SetState

-- `buckets_disk_info_t`.
pub record DiskInfo : Type 0 where
  pub endpoint : Bytes
  pub uuid : Bytes
  pub capacity : ℕ

-- `buckets_set_topology_t`. `disk_count` is the length of the list.
pub record SetTopology : Type 0 where
  pub idx : ℤ
  pub state : SetState
  pub disks : List DiskInfo

-- `buckets_pool_topology_t`. `set_count` is the length of the list.
pub record PoolTopology : Type 0 where
  pub idx : ℤ
  pub sets : List SetTopology

-- `buckets_cluster_topology_t`. `pool_count` is the length of the list.
pub record ClusterTopology : Type 0 where
  pub version : ℤ
  pub generation : ℤ
  pub deployment_id : Bytes
  pub vnode_factor : ℤ
  pub pools : List PoolTopology

-- The part of `buckets_format_t` that a topology is made from. `set_count` is the length of the
-- list, and each row is allocated with `disks_per_set` UUIDs.
pub record Format : Type 0 where
  pub deployment_id : Bytes
  pub sets : List (List Bytes)
  pub disks_per_set : ℕ

abbrev pub topology_version : ℤ
topology_version = pos 1

abbrev pub default_vnode_factor : ℤ
default_vnode_factor = pos 150

-- `buckets_topology_new`.
abbrev pub empty_topology : ClusterTopology
empty_topology = record {
  version = topology_version;
  generation = pos 0;
  deployment_id = [];
  vnode_factor = default_vnode_factor;
  pools = [];
}

abbrev pub disk_of_uuid : Bytes → DiskInfo
disk_of_uuid uuid = record { endpoint = []; uuid = fit 37 uuid; capacity = 0 }

-- The loop over the format's sets, from index `i`.
unfoldable pub sets_of_format : ℕ → ℕ → List (List Bytes) → List SetTopology
sets_of_format per_set i [] = []
sets_of_format per_set i (row ∷ rows) =
    record { idx = pos i; state = active; disks = map disk_of_uuid (take per_set row) }
    ∷ sets_of_format per_set (i + 1) rows

-- `buckets_topology_from_format`.
unfoldable pub from_format : Format → ClusterTopology
unfolding sets_of_format
from_format f = record empty_topology {
  generation = pos 1;
  deployment_id = f.deployment_id;
  pools = record { idx = pos 0; sets = sets_of_format f.disks_per_set 0 f.sets } ∷ [];
}

unfoldable pub set_state_to_string : SetState → Bytes
set_state_to_string active = codes "active"
set_state_to_string draining = codes "draining"
set_state_to_string removed = codes "removed"

-- `none` is a NULL string.
unfoldable pub set_state_from_string : Option Bytes → SetState
set_state_from_string none = active
set_state_from_string (some str) =
    if same_text str (codes "active")
    then active
    else if same_text str (codes "draining")
    then draining
    else if same_text str (codes "removed")
    then removed
    else active

abbrev pub same_state : SetState → SetState → Bool
same_state active active = true
same_state draining draining = true
same_state removed removed = true
same_state a b = false

-- `topology->generation++`.
abbrev pub next_generation : ClusterTopology → ClusterTopology
next_generation t = record t { generation = t.generation +ℤ pos 1 }

-- `buckets_topology_add_pool`; the topology of each operation is not NULL, and memory never runs out,
-- since `buckets_realloc` aborts then.
unfoldable pub add_pool : ClusterTopology → ClusterTopology
add_pool t =
    next_generation
      (record t { pools = t.pools ++ record { idx = pos (length t.pools); sets = [] } ∷ [] })

-- `buckets_topology_add_set`; an empty list is a `disk_count` of 0.
unfoldable pub add_set : ClusterTopology → ℤ → List DiskInfo → Result ClusterTopology
add_set t pool_idx [] = err invalid_arg
add_set t pool_idx (d ∷ ds) = elim (at? t.pools pool_idx) [
  | none ↦ err invalid_arg
  | some pool ↦ ok (
      next_generation (record t {
        pools = put t.pools pool_idx (record pool {
          sets =
              pool.sets
              ++ record { idx = pos (length pool.sets); state = active; disks = d ∷ ds } ∷ [];
        });
      }))
]

-- `buckets_topology_set_state`.
unfoldable pub set_state : ClusterTopology → ℤ → ℤ → SetState → Result ClusterTopology
set_state t pool_idx set_idx new_state = elim (at? t.pools pool_idx) [
  | none ↦ err invalid_arg
  | some pool ↦ elim (at? pool.sets set_idx) [
    | none ↦ err invalid_arg
    | some found ↦
        if same_state found.state new_state
        then ok t
        else ok (
            next_generation (record t {
              pools = put t.pools pool_idx (record pool {
                sets = put pool.sets set_idx (record found { state = new_state });
              });
            }))
  ]
]

unfoldable pub mark_set_draining : ClusterTopology → ℤ → ℤ → Result ClusterTopology
unfolding set_state
mark_set_draining t pool_idx set_idx = set_state t pool_idx set_idx draining

unfoldable pub mark_set_removed : ClusterTopology → ℤ → ℤ → Result ClusterTopology
unfolding set_state
mark_set_removed t pool_idx set_idx = set_state t pool_idx set_idx removed
