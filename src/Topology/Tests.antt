-- ===== src/Topology/Tests.antt =====
-- The theorems on the topology's operations, src/cluster/topology.c, at concrete topologies.
use buckets.Prelude.{ℕ, ◌^◌, ◌≡◌, ◌≤◌, ◌<◌, refl, ◌⊎◌, true, [], ◌∷◌, none, some}
use buckets.Prelude.Int.{pos, ◌*ℤ◌}
use buckets.Status.{err, invalid_arg}
use buckets.Text.{codes}
use buckets.Topology.{
  SetState, DiskInfo, ClusterTopology, Format, from_format, set_state, mark_set_draining,
}
use buckets.Topology.States.{state_at}
use buckets.Topology.Endpoints.{
  ClusterConfig, owner, endpoint_of, build_map, disks_of_sets, disks_of_pools, total_disks,
  populate_endpoints,
}
use buckets.Topology.Endpoints.Room.{mapped, populate_endpoints_room}

-- Two sets of two disks.
abbrev format : Format
format = record {
  deployment_id = codes "cluster";
  sets = (codes "d1" ∷ codes "d2" ∷ []) ∷ (codes "d3" ∷ codes "d4" ∷ []) ∷ [];
  disks_per_set = 2;
}

abbrev topology : ClusterTopology
unfolding from_format
topology = from_format format

abbrev disk : DiskInfo
disk = record { endpoint = []; uuid = codes "d5"; capacity = 7 }

-- A node with two disks, in a config of one set of one disk.
abbrev config : ClusterConfig
config = record {
  enabled = true;
  nodes = record { endpoint = codes "http://n1:9000"; disks = codes "/a" ∷ codes "/b" ∷ [] } ∷ [];
  sets = pos 1;
  disks_per_set = pos 1;
}

active_at_start : state_at topology (pos 0) (pos 1) ≡ some SetState.active
unfolding from_format
active_at_start = refl

draining_after : mark_set_draining topology (pos 0) (pos 2) ≡ err invalid_arg
unfolding from_format mark_set_draining set_state
draining_after = refl

-- The map has one entry, and two disks of the topology have a node.
overrun : populate_endpoints topology config ≡ none
unfolding from_format populate_endpoints total_disks ◌*ℤ◌ build_map endpoint_of owner disks_of_pools
    disks_of_sets
overrun = refl

populate_endpoints_room_example :
    ((room : ℕ) × (config.sets *ℤ config.disks_per_set ≡ pos room)
      × (room < 2 ^ 31)
      × (mapped config.nodes 0 (disks_of_pools topology.pools) ≤ room)
      × ((t' : ClusterTopology) × (populate_endpoints topology config ≡ some t')))
    ⊎ ((¬ (
          (room : ℕ) × (config.sets *ℤ config.disks_per_set ≡ pos room)
          × (room < 2 ^ 31)
          × (mapped config.nodes 0 (disks_of_pools topology.pools) ≤ room)))
        × (populate_endpoints topology config ≡ none))
populate_endpoints_room_example = populate_endpoints_room topology config refl refl

-- The product of these counts is past an int.
overflows : total_disks (record config { sets = pos 65536; disks_per_set = pos 65536 }) ≡ none
unfolding total_disks ◌*ℤ◌
overflows = refl
