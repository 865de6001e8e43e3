-- ===== src/Scanner.antt =====
-- The scan for objects to migrate, src/migration/scanner.c: the rings of two topologies, and a task for
-- each object that they place differently.
pub mod Listing
pub mod Shape
mod Tests
use buckets.Prelude.{
  ℕ, zero, suc, ◌+◌, ◌*◌, ◌/◌, ◌%◌, Bool, true, false, List, [], ◌∷◌, ◌++◌, Option, none, some,
  length, if◌then◌else◌,
}
use buckets.Prelude.Maybe.{◌>>=◌}
use buckets.Prelude.Int.{ℤ, pos, negsuc, eq_ℤ}
use buckets.Status.{Result, ok, err}
use buckets.Text.{Bytes, fit, codes, decimal, same_text}
use buckets.Circle.{Qsort}
use buckets.Ring.{Vnode, Ring, create, add_node, lookup}
use buckets.Topology.{SetTopology, PoolTopology, ClusterTopology}

-- ENCODE_NODE_ID, DECODE_POOL and DECODE_SET.
abbrev pub encode_node_id : ℕ → ℕ → ℕ
encode_node_id p s = p * 1000 + s

abbrev pub node_name_of : ℕ → ℕ → Bytes
node_name_of p s = fit 64 (codes "pool" ++ decimal p ++ codes "-set" ++ decimal s)

module _ (qsort : Qsort Vnode.hash) where
  -- The loop over the sets of pool `p`, from index `s`; `none` is the NULL after a refused node.
  unfoldable pub add_sets : ℕ → ℕ → List SetTopology → Ring → Option Ring
  add_sets p s [] r = some r
  add_sets p s (x ∷ xs) r = elim (add_node qsort r (pos (encode_node_id p s)) (node_name_of p s)) [
    | err e ↦ none
    | ok r' ↦ add_sets p (s + 1) xs r'
  ]

  unfoldable pub add_pools : ℕ → List PoolTopology → Ring → Option Ring
  add_pools p [] r = some r
  add_pools p (pool ∷ pools) r = add_sets p 0 pool.sets r >>= add_pools (p + 1) pools

  unfoldable pub topology_to_ring : ClusterTopology → Option Ring
  topology_to_ring t = create (pos 150) 0 >>= add_pools 0 t.pools

-- `buckets_migration_task_t`, without the version, which the scan leaves empty, and the two fields of
-- the retries.
pub record Task : Type 0 where
  pub bucket : Bytes
  pub object : Bytes
  pub old_pool_idx : ℕ
  pub old_set_idx : ℕ
  pub new_pool_idx : ℕ
  pub new_set_idx : ℕ
  pub size : ℕ
  pub mod_time : ℤ

-- The two rings of a `disk_scanner_ctx_t`.
pub record Rings : Type 0 where
  pub old_ring : Ring
  pub new_ring : Ring

abbrev pub object_key : Bytes → Bytes → Bytes
object_key bucket object = fit 2048 (bucket ++ b'/' ∷ object)

-- `needs_migration`: the old and the new node, when both are there and differ.
unfoldable pub needs_migration : Rings → Bytes → Bytes → Option (ℕ × ℕ)
needs_migration rs bucket object = elim (lookup rs.old_ring (object_key bucket object)) [
  | negsuc n ↦ none
  | pos old ↦ elim (lookup rs.new_ring (object_key bucket object)) [
    | negsuc n ↦ none
    | pos new ↦ if eq_ℤ (pos old) (pos new) then none else some (old, new)
  ]
]

-- `add_migration_task`, which decodes pool and set from the nodes.
abbrev pub new_task : Bytes → Bytes → ℕ → ℤ → ℕ × ℕ → Task
new_task bucket object size mod_time nodes = record {
  bucket = fit 256 bucket;
  object = fit 1024 object;
  old_pool_idx = nodes.0 / 1000;
  old_set_idx = nodes.0 % 1000;
  new_pool_idx = nodes.1 / 1000;
  new_set_idx = nodes.1 % 1000;
  size = size;
  mod_time = mod_time;
}

-- What readdir and stat give for a directory, in the order of readdir. Entries that cannot be read are
-- left out, as the scan skips them.
mutual
  pub data Entry : Type 0 where
    file : Bytes → ℕ → ℤ → Entry
    folder : Bytes → Entries → Entry

  pub data Entries : Type 0 where
    nil : Entries
    cons : Entry → Entries → Entries

abbrev pub skipped : Bytes → Bool
skipped name =
    if same_text name (codes ".")
    then true
    else if same_text name (codes "..")
    then true
    else same_text name (codes ".buckets.sys")

abbrev pub prefix_below : Bytes → Bytes → Bytes
prefix_below [] name = fit 2048 name
prefix_below (c ∷ cs) name = fit 2048 ((c ∷ cs) ++ b'/' ∷ name)

module _ (rs : Rings) (bucket : Bytes) where
  unfoldable pub scan_file : Bytes → Bytes → ℕ → ℤ → List Task
  scan_file prefix name size mod_time =
      if same_text name (codes "xl.meta")
      then elim (needs_migration rs bucket prefix) [
        | none ↦ []
        | some nodes ↦ new_task bucket prefix size mod_time nodes ∷ []
      ]
      else []

  -- `scan_directory`: the tasks it adds.
  unfoldable pub scan_directory : Bytes → Entries → List Task
  scan_directory prefix nil = []
  scan_directory prefix (cons (file name size mod_time) rest) =
      scan_file prefix name size mod_time ++ scan_directory prefix rest
  scan_directory prefix (cons (folder name sub) rest) =
      let below = scan_directory (prefix_below prefix name) sub in
      let after = scan_directory prefix rest in if skipped name then after else below ++ after

-- `scan_disk_buckets`: every folder of the disk is a bucket.
unfoldable pub scan_disk : Rings → Entries → List Task
scan_disk rs nil = []
scan_disk rs (cons (file name size mod_time) rest) = scan_disk rs rest
scan_disk rs (cons (folder bucket sub) rest) =
    if skipped bucket
    then scan_disk rs rest
    else scan_directory rs bucket [] sub ++ scan_disk rs rest

-- The tasks of the disks' threads, merged in the order of the disks.
unfoldable pub merged : Rings → List Entries → List Task
merged rs [] = []
merged rs (disk ∷ disks) = scan_disk rs disk ++ merged rs disks

-- `buckets_scanner_scan`, with the sort by size; `none` is BUCKETS_ERR_NOMEM, of a topology without a
-- ring.
unfoldable pub scan :
    Qsort Vnode.hash
    → Qsort Task.size
    → ClusterTopology
    → ClusterTopology
    → List Entries
    → Option (List Task)
scan qsort by_size old new disks = do
  old_ring ← topology_to_ring qsort old
  new_ring ← topology_to_ring qsort new
  some (by_size.sort (merged (record { old_ring = old_ring; new_ring = new_ring }) disks))
