-- ===== src/Scanner/Tests.antt =====
-- Runs of the scan of src/migration/scanner.c, and its theorems at concrete topologies.
use buckets.Prelude.{◌≡◌, refl, [], ◌∷◌, some}
use buckets.Prelude.Int.{ℤ, pos, ◌+ℤ◌}
use buckets.Status.{ok}
use buckets.Text.{Bytes, codes}
use buckets.Hash.Xx.{xxhash64}
use buckets.Circle.{find_index}
use buckets.Circle.Insertion.{by_insertion, insertion_sort}
use buckets.Ring.{
  Vnode, Ring, create, empty_ring, new_vnodes, new_vnode, vnode_key, has_node, add_node, lookup,
}
use buckets.Ring.Invariant.{added}
use buckets.Topology.{
  SetState, PoolTopology, ClusterTopology, disk_of_uuid, empty_topology, set_state,
}
use buckets.Scanner.{
  node_name_of, add_sets, add_pools, topology_to_ring, Task, file, folder, Entries, nil, cons,
  needs_migration, scan_file, scan_directory, scan_disk, scan, new_task,
}
use buckets.Scanner.Listing.{scan-set_state}

abbrev one_set : SetState → PoolTopology
one_set state = record {
  idx = pos 0;
  sets = record { idx = pos 0; state = state; disks = disk_of_uuid (codes "u") ∷ [] } ∷ [];
}

abbrev no_set : PoolTopology
no_set = record { idx = pos 0; sets = [] }

abbrev before : ClusterTopology
before = record empty_topology { pools = one_set SetState.active ∷ [] }

abbrev drained : ClusterTopology
drained = record empty_topology { generation = pos 1; pools = one_set SetState.draining ∷ [] }

-- The set is in the second pool.
abbrev after : ClusterTopology
after = record empty_topology { pools = no_set ∷ one_set SetState.active ∷ [] }

abbrev sorted_by_hash : Ring → ℤ → Bytes → Ring
sorted_by_hash = added (by_insertion Vnode.hash)

abbrev ring_before : Ring
ring_before = sorted_by_hash (empty_ring (150) 0) (pos 0) (node_name_of 0 0)

abbrev ring_after : Ring
ring_after = sorted_by_hash (empty_ring (150) 0) (pos 1000) (node_name_of 1 0)

-- A bucket with one object, and the system's own folder.
abbrev disk : Entries
disk =
    cons
      (folder (codes "photos") (
        cons (folder (codes "cat") (cons (file (codes "xl.meta") 7 (pos 5)) nil))
          (cons (file (codes "readme") 1 (pos 6)) nil)))
      (cons (folder (codes ".buckets.sys") nil) nil)

draining_it : set_state before (pos 0) (pos 0) SetState.draining ≡ ok drained
unfolding set_state ◌+ℤ◌
draining_it = refl

before_ring : topology_to_ring (by_insertion Vnode.hash) before ≡ some ring_before
unfolding topology_to_ring add_pools add_sets add_node create has_node
before_ring = refl

after_ring : topology_to_ring (by_insertion Vnode.hash) after ≡ some ring_after
unfolding topology_to_ring add_pools add_sets add_node create has_node
after_ring = refl

scan-set_state_example :
    scan (by_insertion Vnode.hash) (by_insertion Task.size) before drained (disk ∷ []) ≡ some []
scan-set_state_example =
    scan-set_state (by_insertion Vnode.hash) (by_insertion Task.size) before drained (pos 0) (pos 0)
      SetState.draining ring_before (disk ∷ []) draining_it before_ring

-- The object moves from the first pool to the second.
disk_scanned :
    scan_disk (record { old_ring = ring_before; new_ring = ring_after }) disk
    ≡ new_task (codes "photos") (codes "cat") 7 (pos 5) (0, 1000) ∷ []
unfolding scan_disk scan_directory scan_file needs_migration lookup new_vnodes new_vnode
    insertion_sort vnode_key find_index xxhash64
disk_scanned = refl
