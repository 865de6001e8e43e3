-- ===== src/Topology/Endpoints/Room.antt =====
-- Whether `uuid_map` of src/cluster/topology.c is large enough.
use buckets.Prelude.{
  ℕ, zero, suc, ◌+◌, ◌-◌, ◌≤◌, ◌<◌, ◌≡◌, ◌⊎◌, sym, ap, ◌∙◌, ◌^◌, refl, inl, inr, true, false, List,
  [], ◌∷◌, ◌++◌, map, none, some, length, leb, ltb, ◌==◌, get_elem?, min, arith, Bool-cases,
}
use buckets.Prelude.Int.{pos, negsuc, ◌*ℤ◌, ℤ-cases, pos_part}
use buckets.Text.{Bytes, fit}
use buckets.Topology.{DiskInfo, ClusterTopology}
use buckets.Topology.Endpoints.{
  Node, ClusterConfig, Entry, owner, disks_of_pools, endpoint_of, build_map, room_of, total_disks,
  populate_endpoints, populate_pool,
}

-- `total_cluster_disks`.
unfoldable pub node_disks : List Node → ℕ
node_disks [] = 0
node_disks (node ∷ nodes) = length node.disks + node_disks nodes

get_elem?-in_range :
    (xs : List Bytes) (i : ℕ) → i < length xs → (x : Bytes) × (get_elem? xs i ≡ some x)
get_elem?-in_range [] i h = absurd (omega arith)
get_elem?-in_range (x ∷ xs) zero h = (x, refl)
get_elem?-in_range (x ∷ xs) (suc i) h = get_elem?-in_range xs i (omega arith)

owner-in_range :
    (nodes : List Node) (start k : ℕ)
    → start ≤ k
    → k < start + node_disks nodes
    → (node : Node) × (i : ℕ) × (owner nodes start k ≡ some (node, i)) × (i < length node.disks)
unfolding owner node_disks
owner-in_range [] start k low high = absurd (omega arith)
owner-in_range (node ∷ nodes) start k low high =
    elim (Bool-cases (ltb k (start + length node.disks))) [
      | inl here ↦ (node, k - start, rw (at_least low, here, owner) refl, ground (arith, here))
      | inr later ↦
          let (n, i, found, h) =
            owner-in_range nodes (start + length node.disks) k (ground (arith, later))
              (omega arith) in
          (n, i, rw (at_least low, later, owner) found, h)
    ]
  where
    at_least : start ≤ k → leb start k ≡ true
    at_least h = ground arith

owner-past :
    (nodes : List Node) (start k : ℕ) → start + node_disks nodes ≤ k → owner nodes start k ≡ none
unfolding owner node_disks
owner-past [] start k h = refl
owner-past (node ∷ nodes) start k h =
    rw (low, high, owner) (owner-past nodes (start + length node.disks) k (omega arith))
  where
    low : leb start k ≡ true
    low = ground (arith, h)

    high : ltb k (start + length node.disks) ≡ false
    high = ground (arith, h)

endpoint_of-in_range :
    (nodes : List Node) (k : ℕ)
    → k < node_disks nodes
    → (e : Bytes) × (endpoint_of nodes k ≡ some e)
unfolding endpoint_of
endpoint_of-in_range nodes k h =
    let (node, i, found, inside) = owner-in_range nodes 0 k (omega arith) (omega arith) in
    let (disk, read) = get_elem?-in_range node.disks i inside in
    (fit 512 (node.endpoint ++ disk), rw (found, read) refl)

endpoint_of-past : (nodes : List Node) (k : ℕ) → node_disks nodes ≤ k → endpoint_of nodes k ≡ none
unfolding endpoint_of
endpoint_of-past nodes k h = rw (owner-past nodes 0 k (omega arith)) refl

-- How many of the disks from index `k` on have a node.
abbrev pub mapped : List Node → ℕ → List DiskInfo → ℕ
mapped nodes k ds = min (length ds) (node_disks nodes - k)

build_map-fits :
    (nodes : List Node) (room k : ℕ) (ds : List DiskInfo)
    → mapped nodes k ds ≤ room
    → (es : List Entry) × (build_map nodes room k ds ≡ some es)
unfolding build_map
build_map-fits nodes room k [] h = ([], refl)
build_map-fits nodes zero k (d ∷ ds) h =
    let (es, built) = build_map-fits nodes zero (k + 1) ds (omega arith) in
    (es, rw (endpoint_of-past nodes k (omega arith), build_map) built)
build_map-fits nodes (suc room) k (d ∷ ds) h = elim (Bool-cases (ltb k (node_disks nodes))) [
  | inl inside ↦
      let (e, found) = endpoint_of-in_range nodes k (ground (arith, inside)) in
      let (es, built) = build_map-fits nodes room (k + 1) ds (omega arith) in
      (record { uuid = fit 37 d.uuid; endpoint = e } ∷ es, rw (found, build_map, built) refl)
  | inr past ↦
      let (es, built) = build_map-fits nodes (suc room) (k + 1) ds (ground (arith, past)) in
      (es, rw (endpoint_of-past nodes k (ground (arith, past)), build_map) built)
]

build_map-overruns :
    (nodes : List Node) (room k : ℕ) (ds : List DiskInfo)
    → room < mapped nodes k ds
    → build_map nodes room k ds ≡ none
unfolding build_map
build_map-overruns nodes room k [] h = absurd (omega arith)
build_map-overruns nodes zero k (d ∷ ds) h =
    let (e, found) = endpoint_of-in_range nodes k (omega arith) in rw (found, build_map) refl
build_map-overruns nodes (suc room) k (d ∷ ds) h =
    let (e, found) = endpoint_of-in_range nodes k (omega arith) in
    rw (found, build_map, build_map-overruns nodes room (k + 1) ds (omega arith)) refl

total_disks-cases :
    (config : ClusterConfig)
    → ((room : ℕ) × (config.sets *ℤ config.disks_per_set ≡ pos room)
        × (room < 2 ^ 31)
        × (total_disks config ≡ some room))
      ⊎ (((room : ℕ) → config.sets *ℤ config.disks_per_set ≡ pos room → 2 ^ 31 ≤ room)
          × (total_disks config ≡ none))
unfolding total_disks
total_disks-cases config = elim (ℤ-cases (config.sets *ℤ config.disks_per_set)) [
  | inl (n, e) ↦ elim (Bool-cases (ltb n (2 ^ 31))) [
    | inl small ↦ inl (n, e, ground (arith, small), ap room_of e ∙ rw small refl)
    | inr large ↦ inr (
      λ room h. let same = ap pos_part (sym e ∙ h) in ground (arith, large, same),
      ap room_of e ∙ rw large refl,
    )
  ]
  | inr (n, e) ↦ inr (λ room h. absurd (no_sign n room (sym e ∙ h)), ap room_of e)
]
  where
    no_sign : (n room : ℕ) → negsuc n ≡ pos room → ⊥
    no_sign n room h = cc

-- With the cluster enabled and some nodes, the endpoints can be populated exactly when `sets * disks_per_set` is not negative
-- and fits an int, and is at least as much as the disks of the topology that a node of the config has: with more such disks the
-- loop writes past the end of `uuid_map`, and without such a product there is no map.
pub populate_endpoints_room :
    (t : ClusterTopology) (config : ClusterConfig)
    → config.enabled ≡ true
    → length config.nodes == 0 ≡ false
    → ((room : ℕ) × (config.sets *ℤ config.disks_per_set ≡ pos room)
        × (room < 2 ^ 31)
        × (mapped config.nodes 0 (disks_of_pools t.pools) ≤ room)
        × ((t' : ClusterTopology) × (populate_endpoints t config ≡ some t')))
      ⊎ ((¬ (
            (room : ℕ) × (config.sets *ℤ config.disks_per_set ≡ pos room)
            × (room < 2 ^ 31)
            × (mapped config.nodes 0 (disks_of_pools t.pools) ≤ room)))
          × (populate_endpoints t config ≡ none))
unfolding populate_endpoints
populate_endpoints_room t config on some_nodes = elim (total_disks-cases config) [
  | inr (no_map, none_there) ↦ inr (
    λ (room, e, small, fits). let large = no_map room e in absurd (omega (arith, large, small)),
    rw (on, some_nodes, none_there) refl,
  )
  | inl (room, e, small, there) ↦ elim (Bool-cases (leb need room)) [
    | inl fits ↦
        let (es, built) = build_map-fits config.nodes room 0 ds (ground (arith, fits)) in
        inl (
          room,
          e,
          small,
          ground (arith, fits),
          (
            record t { pools = map (populate_pool es) t.pools },
            rw (on, some_nodes, there, built) refl,
          ),
        )
    | inr short ↦ inr (
      λ (other, e', small', fits').
          let same : room ≡ other = ap pos_part (sym e ∙ e') in
          absurd (ground (arith, short, same, fits')),
      rw (on, some_nodes, there, build_map-overruns config.nodes room 0 ds (ground (arith, short)))
          refl,
    )
  ]
]
  where
    ds : List DiskInfo
    ds = disks_of_pools t.pools

    need : ℕ
    need = mapped config.nodes 0 ds
