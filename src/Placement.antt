-- ===== src/Placement.antt =====
-- Object placement by consistent hashing, src/placement/placement.c.
pub mod Active
mod Tests
use buckets.Prelude.{
  ℕ, zero, suc, ◌+◌, ◌-◌, ◌*◌, Bool, true, false, List, [], ◌∷◌, ◌++◌, Option, none, some, length,
  take, drop, leb, ◌==◌, get_elem?, if◌then◌else◌,
}
use buckets.Prelude.Maybe.{◌>>=◌}
use buckets.Prelude.Int.{ℤ, pos}
use buckets.Text.{Bytes, fit, codes, decimal, same_text}
use buckets.Hash.Sip.{siphash, siphash_key}
use buckets.Circle.{Qsort, find_index}
use buckets.Topology.{SetState, DiskInfo, SetTopology, PoolTopology, ClusterTopology, same_state}

-- `buckets_placement_vnode_t`.
pub record PlacementVnode : Type 0 where
  pub hash : ℕ
  pub pool_idx : ℕ
  pub set_idx : ℕ

-- The globals of the module. `g_hash_ring_size` is the length of the list.
pub record Placement : Type 0 where
  pub initialized : Bool
  pub k0 : ℕ
  pub k1 : ℕ
  pub ring : List PlacementVnode
  pub generation : ℤ

abbrev pub vnodes_per_set : ℕ
vnodes_per_set = 150

abbrev pub unset : Placement
unset = record { initialized = false; k0 = 0; k1 = 0; ring = []; generation = pos 0 }

abbrev pub is_active : SetTopology → Bool
is_active s = same_state s.state SetState.active

unfoldable pub active_sets : List SetTopology → ℕ
active_sets [] = 0
active_sets (s ∷ ss) = if is_active s then suc (active_sets ss) else active_sets ss

-- `total_active_sets`.
unfoldable pub total_active : List PoolTopology → ℕ
total_active [] = 0
total_active (pool ∷ pools) = active_sets pool.sets + total_active pools

-- "pool:set:vnode_index", in a buffer of 256 bytes.
unfoldable pub placement_key : ℕ → ℕ → ℕ → Bytes
placement_key p s v = fit 256 (decimal p ++ b':' ∷ decimal s ++ b':' ∷ decimal v)

module _ (k0 k1 : ℕ) where
  -- The loop over `v`, with the rounds that are left.
  unfoldable pub set_vnodes : ℕ → ℕ → ℕ → ℕ → List PlacementVnode
  set_vnodes p s v zero = []
  set_vnodes p s v (suc left) =
      record { hash = siphash k0 k1 (placement_key p s v); pool_idx = p; set_idx = s }
      ∷ set_vnodes p s (v + 1) left

  unfoldable pub sets_vnodes : ℕ → ℕ → List SetTopology → List PlacementVnode
  sets_vnodes p s [] = []
  sets_vnodes p s (x ∷ xs) =
      if is_active x
      then set_vnodes p s 0 vnodes_per_set ++ sets_vnodes p (s + 1) xs
      else sets_vnodes p (s + 1) xs

  unfoldable pub pools_vnodes : ℕ → List PoolTopology → List PlacementVnode
  pools_vnodes p [] = []
  pools_vnodes p (pool ∷ pools) = sets_vnodes p 0 pool.sets ++ pools_vnodes (p + 1) pools

module _ (qsort : Qsort PlacementVnode.hash) where
  -- The topology is what `buckets_topology_manager_get` returns; `none` is the -1.
  unfoldable pub build_hash_ring : Placement → Option ClusterTopology → Option Placement
  build_hash_ring st none = none
  build_hash_ring st (some t) =
      if total_active t.pools == 0
      then none
      else some (record st {
        ring = qsort.sort (pools_vnodes st.k0 st.k1 0 t.pools);
        generation = t.generation;
      })

  -- `buckets_placement_init`, with `buckets_uuid_parse` given; the Boolean is true for 0. The keys stay
  -- set when the ring cannot be built.
  unfoldable pub init :
      (Bytes → Option Bytes) → Placement → Option ClusterTopology → Placement × Bool
  init uuid_parse st none = (st, st.initialized)
  init uuid_parse st (some t) =
      if st.initialized then (st, true) else elim (uuid_parse t.deployment_id) [
        | none ↦ (st, false)
        | some uuid ↦
            let keyed = record st { k0 = (siphash_key uuid).0; k1 = (siphash_key uuid).1 } in
            elim (build_hash_ring keyed (some t)) [
              | none ↦ (keyed, false)
              | some built ↦ (record built { initialized = true }, true)
            ]
      ]

  -- `buckets_placement_rebuild_ring`.
  unfoldable pub rebuild_ring : Placement → Option ClusterTopology → Option Placement
  rebuild_ring st t = if st.initialized then build_hash_ring st t else none

-- `buckets_placement_cleanup`, which keeps the generation.
abbrev pub cleanup : Placement → Placement
cleanup st = record unset { generation = st.generation }

-- One disk of a `buckets_placement_result_t`, and the result. `disk_count` is the length of the list.
pub record PlacedDisk : Type 0 where
  pub path : Bytes
  pub uuid : Bytes
  pub endpoint : Bytes

pub record PlacementResult : Type 0 where
  pub pool_idx : ℕ
  pub set_idx : ℕ
  pub disks : List PlacedDisk
  pub generation : ℤ
  pub state : SetState
  pub object_hash : ℕ
  pub vnode_index : ℕ

-- strrchr and strchr for '/', and what follows the "://" that strstr finds.
unfoldable pub last_slash : Bytes → Option Bytes
last_slash [] = none
last_slash (c ∷ cs) = elim (last_slash cs) [
  | some tail ↦ some tail
  | none ↦ if c == b'/' then some (c ∷ cs) else none
]

unfoldable pub first_slash : Bytes → Option Bytes
first_slash [] = none
first_slash (c ∷ cs) = if c == b'/' then some (c ∷ cs) else first_slash cs

unfoldable pub after_scheme : Bytes → Option Bytes
after_scheme [] = none
after_scheme (c ∷ cs) =
    if same_text (take 3 (c ∷ cs)) (codes "://") then some (drop 3 (c ∷ cs)) else after_scheme cs

unfoldable pub path_of_endpoint : Bytes → Bytes
path_of_endpoint endpoint = elim (last_slash endpoint) [
  | none ↦ endpoint
  | some tail ↦ elim (after_scheme endpoint >>= first_slash) [ none ↦ tail | some path ↦ path ]
]

unfoldable pub disks_by_endpoint : List DiskInfo → List PlacedDisk
disks_by_endpoint [] = []
disks_by_endpoint (d ∷ ds) =
    record { path = path_of_endpoint d.endpoint; uuid = d.uuid; endpoint = d.endpoint }
    ∷ disks_by_endpoint ds

-- `none` when there are fewer paths than disks.
unfoldable pub disks_by_path : List Bytes → List DiskInfo → Option (List PlacedDisk)
disks_by_path paths [] = some []
disks_by_path [] (d ∷ ds) = none
disks_by_path (path ∷ paths) (d ∷ ds) =
    disks_by_path paths ds
    >>= (λ rest. some (record { path = path; uuid = d.uuid; endpoint = [] } ∷ rest))

-- `multidisk` is what `buckets_multidisk_get_set_disks` gives for a set.
unfoldable pub placed_disks : (ℕ → List Bytes) → ℕ → List DiskInfo → Option (List PlacedDisk)
placed_disks multidisk set_idx [] = some []
placed_disks multidisk set_idx (d ∷ ds) =
    if length d.endpoint == 0
    then disks_by_path (multidisk set_idx) (d ∷ ds)
    else some (disks_by_endpoint (d ∷ ds))

abbrev pub object_path : Bytes → Bytes → Bytes
object_path bucket object = bucket ++ b'/' ∷ object

-- The result for the virtual node that was found, at its index; `none` is the -1.
unfoldable pub place_on :
    (ℕ → List Bytes) → ClusterTopology → ℕ → ℕ → PlacementVnode → Option PlacementResult
place_on multidisk t hash index v = do
  pool ← get_elem? t.pools v.pool_idx
  s ← get_elem? pool.sets v.set_idx
  disks ← placed_disks multidisk v.set_idx s.disks
  some (record {
    pool_idx = v.pool_idx;
    set_idx = v.set_idx;
    disks = disks;
    generation = t.generation;
    state = s.state;
    object_hash = hash;
    vnode_index = index;
  })

abbrev pub object_hash_of : Placement → Bytes → Bytes → ℕ
object_hash_of st bucket object = siphash st.k0 st.k1 (object_path bucket object)

abbrev pub index_of : Placement → Bytes → Bytes → ℕ
index_of st bucket object = find_index PlacementVnode.hash st.ring (object_hash_of st bucket object)

-- `buckets_placement_compute`; an empty ring has no virtual node at any index.
unfoldable pub compute :
    (ℕ → List Bytes) → Placement → Option ClusterTopology → Bytes → Bytes → Option PlacementResult
compute multidisk st none bucket object = none
compute multidisk st (some t) bucket object =
    if st.initialized
    then get_elem? st.ring (index_of st bucket object)
      >>= place_on multidisk t (object_hash_of st bucket object) (index_of st bucket object)
    else none

-- `buckets_placement_get_stats`, without the quotient of the two counts.
unfoldable pub active_disks : List SetTopology → ℕ
active_disks [] = 0
active_disks (s ∷ ss) = if is_active s then length s.disks + active_disks ss else active_disks ss

unfoldable pub total_active_disks : List PoolTopology → ℕ
total_active_disks [] = 0
total_active_disks (pool ∷ pools) = active_disks pool.sets + total_active_disks pools

unfoldable pub get_stats : Placement → Option ClusterTopology → ℕ × ℕ
get_stats st none = (0, 0)
get_stats st (some t) =
    if st.initialized then (total_active t.pools, total_active_disks t.pools) else (0, 0)
