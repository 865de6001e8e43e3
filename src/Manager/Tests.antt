-- ===== src/Manager/Tests.antt =====
-- Runs of src/cluster/topology_manager.c, and its theorems at a concrete cluster.
use buckets.Prelude.{◌≡◌, ◌≤◌, refl, true, List, [], ◌∷◌, Option, none, some, length}
use buckets.Prelude.Int.{pos, ◌+ℤ◌, to_int}
use buckets.Status.{Result}
use buckets.Text.{Bytes, codes, differ→ne}
use buckets.Circle.Insertion.{by_insertion}
use buckets.Ring.{Vnode, Ring, create, empty_ring, has_node, add_node}
use buckets.Ring.Invariant.{added}
use buckets.Json.{save_json}
use buckets.Topology.{
  SetState, PoolTopology, ClusterTopology, disk_of_uuid, empty_topology, set_state_to_string,
  mark_set_draining,
}
use buckets.Topology.Json.{
  topology_path, topology_to_json, pools_to_json, pool_to_json, sets_to_json, set_to_json,
  disks_to_json, disk_to_json, save,
}
use buckets.Topology.Quorum.{save_quorum, save_all, write_quorum}
use buckets.Topology.Durable.{AreApart, holders}
use buckets.Topology.States.{Moves}
use buckets.Topology.Sample.{sample, sample-files}
use buckets.Scanner.{
  Task, file, folder, Entries, nil, cons, node_name_of, topology_to_ring, add_pools, add_sets, scan,
}
use buckets.Manager.{Manager, get, change, manager_mark_set_draining}
use buckets.Manager.Changes.{changed, change_durable}
use buckets.Manager.Drain.{drained_stays}

abbrev Drive : Type 0
Drive = List (Bytes × Bytes)

abbrev one_set : SetState → PoolTopology
one_set state = record {
  idx = pos 0;
  sets = record { idx = pos 0; state = state; disks = disk_of_uuid (codes "u") ∷ [] } ∷ [];
}

abbrev now_active : ClusterTopology
now_active = record empty_topology { pools = one_set SetState.active ∷ [] }

abbrev two_disks : List (Option Bytes)
two_disks = some (codes "/a") ∷ some (codes "/b") ∷ []

two_disks_apart : AreApart two_disks
unfolding topology_path
two_disks_apart = ((differ→ne _ _ refl, tt), (tt, tt))

abbrev manager : Manager Drive
manager = record {
  disk_paths = two_disks;
  has_callback = true;
  initialized = true;
  cache = record { topology = some now_active; initialized = true };
  disks = [];
  notified = [];
}

abbrev draining : ClusterTopology → Result ClusterTopology
draining t = mark_set_draining t (pos 0) (pos 0)

abbrev now_draining : ClusterTopology
now_draining = record empty_topology { generation = pos 1; pools = one_set SetState.draining ∷ [] }

abbrev managed : Manager Drive
managed = changed sample now_draining manager

marking : manager_mark_set_draining sample (pos 0) (pos 0) manager ≡ (managed, none)
unfolding manager_mark_set_draining mark_set_draining ◌+ℤ◌ save_quorum save_all save save_json
    topology_path topology_to_json pools_to_json pool_to_json sets_to_json set_to_json disks_to_json
    disk_to_json set_state_to_string to_int
marking = refl

marking_change : change sample draining manager ≡ (managed, none)
unfolding change mark_set_draining ◌+ℤ◌ save_quorum save_all save save_json topology_path
    topology_to_json pools_to_json pool_to_json sets_to_json set_to_json disks_to_json disk_to_json
    set_state_to_string to_int
marking_change = refl

change_durable_example :
    write_quorum (length two_disks)
    ≤ holders sample (topology_to_json sample now_draining) managed.disks two_disks
unfolding get
change_durable_example =
    change_durable sample sample-files draining manager managed now_draining
      (topology_to_json sample now_draining) two_disks_apart marking_change refl refl

abbrev ring_before : Ring
ring_before = added (by_insertion Vnode.hash) (empty_ring 150 0) (pos 0) (node_name_of 0 0)

before_ring : topology_to_ring (by_insertion Vnode.hash) now_active ≡ some ring_before
unfolding topology_to_ring add_pools add_sets add_node create has_node
before_ring = refl

-- A bucket with an object.
abbrev disk : Entries
disk =
    cons
      (folder (codes "photos")
        (cons (folder (codes "cat") (cons (file (codes "xl.meta") 7 (pos 5)) nil)) nil))
      nil

drained_stays_example :
    (t' : ClusterTopology) × (get sample managed ≡ some t')
    × Moves now_active (pos 0) (pos 0) SetState.draining t'
    × (scan (by_insertion Vnode.hash) (by_insertion Task.size) now_active t' (disk ∷ []) ≡ some [])
unfolding get
drained_stays_example =
    drained_stays sample (by_insertion Vnode.hash) (by_insertion Task.size) (pos 0) (pos 0) manager
      managed now_active ring_before (disk ∷ []) refl before_ring marking
