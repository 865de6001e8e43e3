-- ===== src/Placement/Tests.antt =====
-- The placement of src/placement/placement.c at a concrete topology.
use buckets.Prelude.{ℕ, ◌≡◌, refl, true, List, [], ◌∷◌, some}
use buckets.Prelude.Int.{pos}
use buckets.Text.{Bytes, codes, decimal}
use buckets.Hash.Sip.{siphash}
use buckets.Circle.{successor, find_index, search}
use buckets.Circle.Insertion.{by_insertion, insertion_sort}
use buckets.Topology.{SetState, ClusterTopology, empty_topology}
use buckets.Placement.{
  PlacementVnode, Placement, PlacementResult, unset, object_path, path_of_endpoint, last_slash,
  first_slash, after_scheme, build_hash_ring, compute, total_active, active_sets, pools_vnodes,
  sets_vnodes, set_vnodes, placement_key, place_on, placed_disks, object_hash_of, index_of,
}
use buckets.Placement.Active.{placed_on_active}

-- A draining set, and an active one without disks.
abbrev topology : ClusterTopology
topology = record empty_topology {
  pools =
      record {
        idx = pos 0;
        sets =
            record { idx = pos 0; state = SetState.draining; disks = [] }
            ∷ record { idx = pos 1; state = SetState.active; disks = [] }
            ∷ [];
      }
      ∷ [];
}

abbrev ready : Placement
ready = record unset { initialized = true; k0 = 1; k1 = 2 }

path_runs : path_of_endpoint (codes "http://node1:9000/mnt/disk1") ≡ codes "/mnt/disk1"
unfolding path_of_endpoint last_slash first_slash after_scheme
path_runs = refl

abbrev no_paths : ℕ → List Bytes
no_paths i = []

abbrev built : Placement
built = record ready {
  ring = insertion_sort PlacementVnode.hash (pools_vnodes 1 2 0 topology.pools);
  generation = pos 0;
}

builds : build_hash_ring (by_insertion PlacementVnode.hash) ready (some topology) ≡ some built
unfolding build_hash_ring total_active active_sets
builds = refl

abbrev result : PlacementResult
result = record {
  pool_idx = 0;
  set_idx = 1;
  disks = [];
  generation = pos 0;
  state = SetState.active;
  object_hash = object_hash_of built (codes "b") (codes "o");
  vnode_index = index_of built (codes "b") (codes "o");
}

computes : compute no_paths built (some topology) (codes "b") (codes "o") ≡ some result
unfolding compute place_on placed_disks find_index search insertion_sort pools_vnodes sets_vnodes
    set_vnodes placement_key decimal siphash
computes = refl

placed_on_active_example :
    (v : PlacementVnode) × (successor PlacementVnode.hash
        (siphash 1 2 (object_path (codes "b") (codes "o")))
        built.ring
      ≡ some v)
    × (0 ≡ v.pool_idx)
    × (1 ≡ v.set_idx)
    × (SetState.active ≡ SetState.active)
placed_on_active_example =
    placed_on_active (by_insertion PlacementVnode.hash) ready topology no_paths built (codes "b")
      (codes "o") result builds computes
