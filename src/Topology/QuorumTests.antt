-- ===== src/Topology/QuorumTests.antt =====
-- The quorum reads and writes of src/cluster/topology.c at concrete disks.
use buckets.Prelude.{ℕ, ◌≡◌, ◌≤◌, ◌<◌, refl, List, [], ◌∷◌, Option, none, some}
use buckets.Prelude.Int.{pos, to_int}
use buckets.Text.{Bytes, differ→ne, codes}
use buckets.Hash.Xx.{xxhash64}
use buckets.Topology.{ClusterTopology, empty_topology}
use buckets.Json.{save_json, load_json}
use buckets.Topology.Json.{
  topology_path, topology_to_json, pools_to_json, topology_from_json, pools_from_json, save, load,
}
use buckets.Topology.Quorum.{
  read_quorum, write_quorum, cast, content_hash, opinion, collect, load_quorum, save_all,
  save_quorum,
}
use buckets.Topology.Elections.{supporters, load_quorum_elects, load_quorum_refuses}
use buckets.Topology.Stale.{load_quorum_stale}
use buckets.Topology.Durable.{AreApart, holders, save_quorum_durable}
use buckets.Topology.Sample.{sample, sample-files, read_file, find_field, split}

abbrev old : ClusterTopology
old = record empty_topology { deployment_id = codes "c"; generation = pos 1 }

abbrev new : ClusterTopology
new = record empty_topology { deployment_id = codes "c"; generation = pos 2 }

abbrev disk_a : Option Bytes
disk_a = some (codes "/a")

abbrev disk_b : Option Bytes
disk_b = some (codes "/b/")

abbrev disk_c : Option Bytes
disk_c = some (codes "/c")

abbrev all_disks : List (Option Bytes)
all_disks = disk_a ∷ disk_b ∷ disk_c ∷ []

-- Every disk has the old topology, and then all but the first the new one.
abbrev with_old : List (Bytes × Bytes)
unfolding save_quorum save_all save save_json topology_path topology_to_json pools_to_json to_int
with_old = (save_quorum sample [] all_disks old).0

abbrev with_new : List (Bytes × Bytes)
unfolding save_quorum save_all save save_json topology_path topology_to_json pools_to_json to_int
with_new = (save_quorum sample with_old (none ∷ disk_b ∷ disk_c ∷ []) new).0

loads_old : load_quorum sample with_old all_disks ≡ some old
unfolding load_quorum collect cast opinion content_hash load load_json topology_from_json
    pools_from_json topology_path topology_to_json pools_to_json to_int read_file find_field split
    save_quorum save_all save save_json
loads_old = refl

write_succeeds : (save_quorum sample with_old (none ∷ disk_b ∷ disk_c ∷ []) new).1 ≡ none
unfolding save_quorum save_all save save_json topology_path topology_to_json pools_to_json to_int
write_succeeds = refl

-- The hash of the old topology's JSON.
old_hash : ℕ
unfolding content_hash topology_to_json pools_to_json to_int xxhash64
old_hash = xxhash64 0 (topology_to_json sample old)

load_quorum_elects_example :
    (hash : ℕ) × (content_hash sample old ≡ some hash)
    × (read_quorum 3 ≤ supporters sample with_old hash all_disks)
load_quorum_elects_example = load_quorum_elects sample with_old all_disks old loads_old

-- The disks of a cluster of four, of which two read no file, and the others disagree.
abbrev four_disks : List (Option Bytes)
four_disks = disk_a ∷ disk_b ∷ some (codes "/x") ∷ none ∷ []

loads_nothing : load_quorum sample with_new four_disks ≡ none
unfolding load_quorum collect cast opinion content_hash load load_json topology_from_json
    pools_from_json topology_path topology_to_json pools_to_json to_int read_file find_field split
    save_quorum save_all save save_json xxhash64
loads_nothing = refl

load_quorum_refuses_example : supporters sample with_new 7 four_disks < read_quorum 4
load_quorum_refuses_example = load_quorum_refuses sample with_new four_disks 7 loads_nothing

says_old : opinion sample with_new disk_a ≡ some (old_hash, old)
unfolding old_hash opinion content_hash load load_json topology_from_json pools_from_json
    topology_path topology_to_json pools_to_json to_int read_file find_field split save_quorum
    save_all save save_json
says_old = refl

load_quorum_stale_example : load_quorum sample with_new (disk_a ∷ disk_b ∷ disk_c ∷ []) ≡ some old
load_quorum_stale_example =
    load_quorum_stale sample with_new old_hash old (disk_a ∷ []) (disk_b ∷ disk_c ∷ [])
      (says_old, tt) refl

apart : AreApart all_disks
unfolding topology_path
apart = ((differ→ne _ _ refl, (differ→ne _ _ refl, tt)), ((differ→ne _ _ refl, tt), (tt, tt)))

saved : save_quorum sample [] all_disks old ≡ (with_old, none)
unfolding save_quorum save_all save save_json topology_path topology_to_json pools_to_json to_int
saved = refl

save_quorum_durable_example :
    write_quorum 3 ≤ holders sample (topology_to_json sample old) with_old all_disks
save_quorum_durable_example =
    save_quorum_durable sample sample-files old (topology_to_json sample old) refl [] with_old
      all_disks apart saved
