-- ===== src/Topology/Endpoints.antt =====
-- `buckets_topology_populate_endpoints_from_config` of src/cluster/topology.c.
pub mod Room
use buckets.Prelude.{
  ℕ, zero, suc, ◌+◌, ◌-◌, ◌^◌, Bool, true, false, ◌&&◌, List, [], ◌∷◌, ◌++◌, map, Option, none,
  some, length, leb, ltb, ◌==◌, get_elem?, if◌then◌else◌,
}
use buckets.Prelude.Maybe.{◌>>=◌}
use buckets.Prelude.Int.{ℤ, pos, negsuc, ◌*ℤ◌}
use buckets.Text.{Bytes, fit, same_text}
use buckets.Topology.{DiskInfo, SetTopology, PoolTopology, ClusterTopology}

-- `buckets_cluster_node_t`, and the cluster part of `buckets_config_t`. The counts of nodes and of a
-- node's disks are the lengths of the lists.
pub record Node : Type 0 where
  pub endpoint : Bytes
  pub disks : List Bytes

pub record ClusterConfig : Type 0 where
  pub enabled : Bool
  pub nodes : List Node
  pub sets : ℤ
  pub disks_per_set : ℤ

-- `uuid_endpoint_map_t`.
pub record Entry : Type 0 where
  pub uuid : Bytes
  pub endpoint : Bytes

-- The node whose range of the cumulative counts has the disk, with the disk's place in it. `start` is
-- `cumulative_disks[n]`.
unfoldable pub owner : List Node → ℕ → ℕ → Option (Node × ℕ)
owner [] start k = none
owner (node ∷ nodes) start k =
    if leb start k && ltb k (start + length node.disks)
    then some (node, k - start)
    else owner nodes (start + length node.disks) k

-- The disks of the topology, in the order of the loops over pools, sets and disks.
unfoldable pub disks_of_sets : List SetTopology → List DiskInfo
disks_of_sets [] = []
disks_of_sets (s ∷ ss) = s.disks ++ disks_of_sets ss

unfoldable pub disks_of_pools : List PoolTopology → List DiskInfo
disks_of_pools [] = []
disks_of_pools (pool ∷ pools) = disks_of_sets pool.sets ++ disks_of_pools pools

-- The endpoint that the config has for the disk at index `k`.
unfoldable pub endpoint_of : List Node → ℕ → Option Bytes
endpoint_of nodes k = do
  found ← owner nodes 0 k
  disk ← get_elem? (found.0).disks found.1
  some (fit 512 ((found.0).endpoint ++ disk))

-- The first pass, from index `k`, with `room` entries of `uuid_map` not written yet; `none` is a write
-- past its end, which C leaves undefined.
unfoldable pub build_map : List Node → ℕ → ℕ → List DiskInfo → Option (List Entry)
build_map nodes room k [] = some []
build_map nodes room k (d ∷ ds) =
    let skip = build_map nodes room (k + 1) ds in
    elim (endpoint_of nodes k) [
      | none ↦ skip
      | some endpoint ↦ elim room [
        | zero ↦ none
        | suc left ↦
            build_map nodes left (k + 1) ds
            >>= (λ rest. some (record { uuid = fit 37 d.uuid; endpoint = endpoint } ∷ rest))
      ]
    ]

-- The second pass: the first entry with the disk's UUID gives its endpoint.
unfoldable pub populate_disk : List Entry → DiskInfo → DiskInfo
populate_disk [] d = d
populate_disk (e ∷ es) d =
    if same_text d.uuid e.uuid
    then record d { endpoint = fit 256 e.endpoint }
    else populate_disk es d

abbrev pub populate_set : List Entry → SetTopology → SetTopology
populate_set es s = record s { disks = map (populate_disk es) s.disks }

abbrev pub populate_pool : List Entry → PoolTopology → PoolTopology
populate_pool es pool = record pool { sets = map (populate_set es) pool.sets }

-- `total_disks`, an int that nothing has checked. C leaves an overflow undefined, and of a negative count, which
-- becomes a huge size, calloc gives nothing, so that the program aborts; both are `none`.
abbrev pub room_of : ℤ → Option ℕ
room_of (pos n) = if ltb n (2 ^ 31) then some n else none
room_of (negsuc n) = none

unfoldable pub total_disks : ClusterConfig → Option ℕ
total_disks config = room_of (config.sets *ℤ config.disks_per_set)

-- `none` is undefined or an abort.
unfoldable pub populate_endpoints : ClusterTopology → ClusterConfig → Option ClusterTopology
unfolding total_disks
populate_endpoints t config =
    if config.enabled
    then if length config.nodes == 0
      then some t
      else total_disks config >>= (λ room.
        build_map config.nodes room 0 (disks_of_pools t.pools)
        >>= (λ es. some (record t { pools = map (populate_pool es) t.pools })))
    else some t
