-- ===== src/Topology/Json.antt =====
-- topology.json: `topology_to_json`, `topology_from_json`, `buckets_topology_save` and
-- `buckets_topology_load` of src/cluster/topology.c, with the helpers of src/cluster/json_helpers.c
-- and the paths of src/cluster/disk_utils.c that they call.
use buckets.Prelude.{ℕ, ◌+◌, List, [], ◌∷◌, ◌++◌, Option, none, some, ◌==◌, if◌then◌else◌}
use buckets.Prelude.Maybe.{◌>>=◌}
use buckets.Prelude.Int.{pos, to_int}
use buckets.Status.{Error}
use buckets.Json.{Platform, or_default, get_int, get_string, get_array, save_json, load_json}
use buckets.Text.{Bytes, fit, codes, decimal}
use buckets.Topology.{
  DiskInfo, SetTopology, PoolTopology, ClusterTopology, topology_version, default_vnode_factor,
  set_state_to_string, set_state_from_string,
}

-- `buckets_get_meta_dir` without its trailing slash, then "%s/%s" twice.
abbrev pub without_slash : Bytes → Bytes
without_slash [] = []
without_slash (c ∷ []) = if c == b'/' then [] else c ∷ []
without_slash (c ∷ d ∷ cs) = c ∷ without_slash (d ∷ cs)

unfoldable pub topology_path : Bytes → Bytes
topology_path disk = without_slash disk ++ codes "/.buckets.sys/topology.json"

module _ {J Disks : Type 0} (p : Platform J Disks) where
  unfoldable pub disk_to_json : DiskInfo → J
  disk_to_json d =
      let with_uuid = p.add_string p.object (codes "uuid") d.uuid in
      let with_endpoint = p.add_string with_uuid (codes "endpoint") d.endpoint in
      p.add_string with_endpoint (codes "capacity") (decimal d.capacity)

  -- `cJSON_AddItemToArray` over the disks, the sets and the pools.
  unfoldable pub disks_to_json : J → List DiskInfo → J
  unfolding disk_to_json
  disks_to_json array [] = array
  disks_to_json array (d ∷ ds) = disks_to_json (p.add_to_array array (disk_to_json d)) ds

  unfoldable pub set_to_json : SetTopology → J
  unfolding disks_to_json
  set_to_json s =
      let with_idx = p.add_number p.object (codes "idx") s.idx in
      let with_state = p.add_string with_idx (codes "state") (set_state_to_string s.state) in
      p.add_item with_state (codes "disks") (disks_to_json p.array s.disks)

  unfoldable pub sets_to_json : J → List SetTopology → J
  unfolding set_to_json
  sets_to_json array [] = array
  sets_to_json array (s ∷ ss) = sets_to_json (p.add_to_array array (set_to_json s)) ss

  unfoldable pub pool_to_json : PoolTopology → J
  unfolding sets_to_json
  pool_to_json pool =
      p.add_item (p.add_number p.object (codes "idx") pool.idx) (codes "sets")
        (sets_to_json p.array pool.sets)

  unfoldable pub pools_to_json : J → List PoolTopology → J
  unfolding pool_to_json
  pools_to_json array [] = array
  pools_to_json array (pool ∷ pools) =
      pools_to_json (p.add_to_array array (pool_to_json pool)) pools

  -- The generation is cast to `int`.
  unfoldable pub topology_to_json : ClusterTopology → J
  unfolding pools_to_json to_int
  topology_to_json t =
      let with_version = p.add_number p.object (codes "version") t.version in
      let with_generation = p.add_number with_version (codes "generation") (to_int t.generation) in
      let with_id = p.add_string with_generation (codes "deploymentId") t.deployment_id in
      let with_factor = p.add_number with_id (codes "vnodeFactor") t.vnode_factor in
      p.add_item with_factor (codes "pools") (pools_to_json p.array t.pools)

  unfoldable pub disk_from_json : J → DiskInfo
  disk_from_json json = record {
    endpoint = fit 256 (or_default (get_string p json (codes "endpoint")) []);
    uuid = fit 37 (or_default (get_string p json (codes "uuid")) []);
    capacity = p.strtoull (or_default (get_string p json (codes "capacity")) (codes "0"));
  }

  unfoldable pub disks_from_json : List J → List DiskInfo
  unfolding disk_from_json
  disks_from_json [] = []
  disks_from_json (json ∷ rest) = disk_from_json json ∷ disks_from_json rest

  -- The parse of a set or of a pool fails when its array is missing.
  unfoldable pub set_from_json : ℕ → J → Option SetTopology
  unfolding disks_from_json set_state_from_string
  set_from_json i json = elim (get_array p json (codes "disks")) [
    | none ↦ none
    | some array ↦ some (record {
      idx = get_int p json (codes "idx") (pos i);
      state =
          set_state_from_string
            (some (or_default (get_string p json (codes "state")) (codes "active")));
      disks = disks_from_json array;
    })
  ]

  unfoldable pub sets_from_json : ℕ → List J → Option (List SetTopology)
  unfolding set_from_json
  sets_from_json i [] = some []
  sets_from_json i (json ∷ rest) = do
    s ← set_from_json i json
    ss ← sets_from_json (i + 1) rest
    some (s ∷ ss)

  unfoldable pub pool_from_json : ℕ → J → Option PoolTopology
  unfolding sets_from_json
  pool_from_json i json = do
    array ← get_array p json (codes "sets")
    sets ← sets_from_json 0 array
    some (record { idx = get_int p json (codes "idx") (pos i); sets = sets })

  unfoldable pub pools_from_json : ℕ → List J → Option (List PoolTopology)
  unfolding pool_from_json
  pools_from_json i [] = some []
  pools_from_json i (json ∷ rest) = do
    pool ← pool_from_json i json
    pools ← pools_from_json (i + 1) rest
    some (pool ∷ pools)

  unfoldable pub topology_from_json : J → Option ClusterTopology
  unfolding pools_from_json
  topology_from_json json = do
    id ← get_string p json (codes "deploymentId")
    array ← get_array p json (codes "pools")
    pools ← pools_from_json 0 array
    some (record {
      version = get_int p json (codes "version") topology_version;
      generation = get_int p json (codes "generation") (pos 1);
      deployment_id = fit 37 id;
      vnode_factor = get_int p json (codes "vnodeFactor") default_vnode_factor;
      pools = pools;
    })

  -- `buckets_topology_save`; `none` is BUCKETS_OK.
  unfoldable pub save : Disks → Bytes → ClusterTopology → Disks × Option Error
  save disks disk t = save_json p disks (topology_path disk) (topology_to_json t)

  -- `buckets_topology_load`.
  unfoldable pub load : Disks → Bytes → Option ClusterTopology
  load disks disk = load_json p disks (topology_path disk) >>= topology_from_json
