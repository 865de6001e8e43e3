-- ===== src/Topology/Quorum.antt =====
-- The quorum reads and writes of src/cluster/topology.c.
use buckets.Prelude.{
  ℕ, ◌+◌, ◌/◌, List, [], ◌∷◌, Option, none, some, length, leb, ltb, ◌==◌, if◌then◌else◌,
}
use buckets.Prelude.Maybe.{◌>>=◌}
use buckets.Status.{Error, invalid_arg, quorum}
use buckets.Text.{Bytes}
use buckets.Hash.Xx.{xxhash64}
use buckets.Topology.{ClusterTopology}
use buckets.Json.{Platform}
use buckets.Topology.Json.{topology_to_json, save, load}

abbrev pub write_quorum : ℕ → ℕ
write_quorum disk_count = disk_count / 2 + 1

abbrev pub read_quorum : ℕ → ℕ
read_quorum disk_count = if ltb 1 disk_count then disk_count / 2 else 1

-- `vote_entry_t`.
pub record Vote : Type 0 where
  pub hash : ℕ
  pub topology : ClusterTopology
  pub count : ℕ

-- The votes after a disk was read: a topology has the quorum, or the vote goes on.
pub data Ballot : Type 0 where
  elected : ClusterTopology → Ballot
  open_with : List Vote → Ballot

abbrev pub behind : Vote → Ballot → Ballot
behind v (elected t) = elected t
behind v (open_with vs) = open_with (v ∷ vs)

-- The search of a topology's vote entry, its vote, and the test of the quorum.
unfoldable pub cast : ℕ → List Vote → ℕ → ClusterTopology → Ballot
cast needed [] hash t =
    if leb needed 1
    then elected t
    else open_with (record { hash = hash; topology = t; count = 1 } ∷ [])
cast needed (v ∷ vs) hash t =
    if v.hash == hash
    then if leb needed (v.count + 1)
      then elected v.topology
      else open_with (record v { count = v.count + 1 } ∷ vs)
    else behind v (cast needed vs hash t)

module _ {J Disks : Type 0} (p : Platform J Disks) where
  -- The hash that a topology's votes are counted by: of its JSON, printed.
  unfoldable pub content_hash : ClusterTopology → Option ℕ
  content_hash t = p.print_unformatted (topology_to_json p t) >>= (λ text. some (xxhash64 0 text))

  -- What a disk has to say: its topology with the hash, unless the path is NULL or the load fails.
  unfoldable pub opinion : Disks → Option Bytes → Option (ℕ × ClusterTopology)
  opinion disks none = none
  opinion disks (some path) = do t ← load p disks path; hash ← content_hash t; some (hash, t)

  -- The loop over the disks.
  unfoldable pub collect : Disks → ℕ → List Vote → List (Option Bytes) → Option ClusterTopology
  collect disks needed votes [] = none
  collect disks needed votes (path ∷ paths) =
      let skip = collect disks needed votes paths in
      elim (opinion disks path) [
        | none ↦ skip
        | some said ↦ elim (cast needed votes said.0 said.1) [
          | elected t ↦ some t
          | open_with votes' ↦ collect disks needed votes' paths
        ]
      ]

  -- `buckets_topology_load_quorum`; no path at all is a `disk_count` of 0.
  unfoldable pub load_quorum : Disks → List (Option Bytes) → Option ClusterTopology
  load_quorum disks [] = none
  load_quorum disks (path ∷ paths) =
      collect disks (read_quorum (length (path ∷ paths))) [] (path ∷ paths)

  -- The loop that writes every disk, and how many writes succeeded.
  unfoldable pub save_all : Disks → List (Option Bytes) → ClusterTopology → Disks × ℕ
  save_all disks [] t = (disks, 0)
  save_all disks (none ∷ paths) t = save_all disks paths t
  save_all disks (some path ∷ paths) t =
      let saved = save p disks path t in
      let rest = save_all saved.0 paths t in
      elim saved.1 [ none ↦ (rest.0, rest.1 + 1) | some e ↦ rest ]

  -- `buckets_topology_save_quorum`; `none` is BUCKETS_OK.
  unfoldable pub save_quorum : Disks → List (Option Bytes) → ClusterTopology → Disks × Option Error
  save_quorum disks [] t = (disks, some invalid_arg)
  save_quorum disks (path ∷ paths) t =
      let done = save_all disks (path ∷ paths) t in
      (done.0, if leb (write_quorum (length (path ∷ paths))) done.1 then none else some quorum)
